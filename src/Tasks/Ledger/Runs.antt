-- ===== src/Tasks/Ledger/Runs.antt =====
-- A task that is run to its end moves no value (tasks.go: executeTask).
use lillian_backend.Common.{
  ℕ, zero, suc, ◌≡◌, Text, Option, none, some, List, [], arith, Result, ok, err, Result-cases,
  Bool-cases, inl, inr, pure, Exec,
}
use lillian_backend.Schema.{
  TaskRow, TaskPayload, ServiceProfileRow, TaskOutput, payload, malformed, Document,
}
use lillian_backend.Sql.{World, SqlError, steps, reading}
use lillian_backend.Sql.Rules.{Keeps, keeps_rules}
use lillian_backend.Profiles.{SelectError, service_profile_by_id}
use lillian_backend.Profiles.Frame.{
  select_service_profile-Keeps, record_success-Keeps, record_failure-Keeps,
  service_profile_by_id-Keeps,
}
use lillian_backend.Tasks.Claim.{is_running}
use lillian_backend.Tasks.Execute.{
  Upstream, ImageServiceResult, Attempts, count_call, switch_profile, unless_done, unless_stopped,
  complete, conclude, run_with, run_document, try_profiles, execute_task,
}
use lillian_backend.Tasks.Ledger.{SameLedger, SameLedger-preorder}
use lillian_backend.Tasks.Ledger.Claims.{
  set_done-SameLedger, set_profile-SameLedger, ignores_profiles, statement-SameLedger,
}

count_call-SameLedger :
    (p : ServiceProfileRow) (r : Result Text ImageServiceResult) → Keeps SameLedger (count_call p r)
unfolding count_call
count_call-SameLedger p (ok r) =
    search (keeps_rules, SameLedger-preorder, record_success-Keeps, ignores_profiles) depth 30
count_call-SameLedger p (err e) =
    search (keeps_rules, SameLedger-preorder, record_failure-Keeps, ignores_profiles) depth 30

switch_profile-SameLedger :
    (t : TaskRow) (r : Result SelectError ServiceProfileRow) → Keeps SameLedger (switch_profile t r)
unfolding switch_profile
switch_profile-SameLedger t (err e) = search (keeps_rules, SameLedger-preorder)
switch_profile-SameLedger t (ok p) =
    search (statement-SameLedger, set_profile-SameLedger, keeps_rules, SameLedger-preorder) depth 30

unless_done-SameLedger :
    (r : Result Text ImageServiceResult) (t : TaskRow) (next : Text → Exec Text World Attempts)
    → ((e : Text) → Keeps SameLedger (next e))
    → Keeps SameLedger (unless_done r t next)
unfolding unless_done
unless_done-SameLedger (ok r) t next h = search (keeps_rules, SameLedger-preorder)
unless_done-SameLedger (err e) t next h = h e

unless_stopped-SameLedger :
    (o : Option ServiceProfileRow) (a : Attempts)
    (next : ServiceProfileRow → Exec Text World Attempts)
    → ((p : ServiceProfileRow) → Keeps SameLedger (next p))
    → Keeps SameLedger (unless_stopped o a next)
unfolding unless_stopped
unless_stopped-SameLedger none a next h = search (keeps_rules, SameLedger-preorder)
unless_stopped-SameLedger (some p) a next h = h p

ruleset run_rules = (
  count_call-SameLedger, switch_profile-SameLedger, unless_done-SameLedger,
  unless_stopped-SameLedger, select_service_profile-Keeps, ignores_profiles, keeps_rules,
  SameLedger-preorder,
)

try_profiles-SameLedger :
    (n : ℕ) (up : Upstream) (body : TaskPayload) (p : ServiceProfileRow) (t : TaskRow)
    (tried errors : List Text)
    → Keeps SameLedger (try_profiles n up body p t tried errors)
unfolding try_profiles
try_profiles-SameLedger zero up body p t tried errors = search (run_rules) depth 40
try_profiles-SameLedger (suc n) up body p t tried errors =
    search (run_rules, try_profiles-SameLedger n) depth 60

-- A run that returns without an error has stored the outputs and marked the task.
complete-SameLedger :
    (t : TaskRow) (r : ImageServiceResult) (o : Result Text (List TaskOutput)) (w : World)
    → (complete t r o w).0 ≡ ok tt
    → SameLedger w.db (complete t r o w).1.db
unfolding complete steps
complete-SameLedger t r (err e) w h a = ground arith
complete-SameLedger t r (ok outputs) w h a =
    ground (arith, set_done-SameLedger t.id outputs r (reading w) w.db a)

conclude-SameLedger :
    (up : Upstream) (a : Attempts) (w : World)
    → (conclude up a w).0 ≡ ok tt
    → SameLedger w.db (conclude up a w).1.db
unfolding conclude steps
conclude-SameLedger up (err e, t) w h a = ground arith
conclude-SameLedger up (ok r, t) w h a = complete-SameLedger t r _ w h a

run_with-SameLedger :
    (up : Upstream) (t : TaskRow) (body : TaskPayload) (p : Result SqlError ServiceProfileRow)
    (w : World)
    → (run_with up t body p w).0 ≡ ok tt
    → SameLedger w.db (run_with up t body p w).1.db
unfolding run_with steps
run_with-SameLedger up t body (err e) w h a = ground arith
run_with-SameLedger up t body (ok p) w h a =
    let first = (try_profiles-SameLedger 1 up body p t [] []).at w a in
    elim (Result-cases (try_profiles 1 up body p t [] [] w).0) [
      | inl (tried, e) ↦ ground (
        arith,
        first,
        conclude-SameLedger up tried (try_profiles 1 up body p t [] [] w).1 (ground arith) a,
      )
      | inr (x, e) ↦ ground arith
    ]

run_document-SameLedger :
    (up : Upstream) (t : TaskRow) (d : Document) (w : World)
    → (run_document up t d w).0 ≡ ok tt
    → SameLedger w.db (run_document up t d w).1.db
unfolding run_document steps
run_document-SameLedger up t malformed w h a = ground arith
run_document-SameLedger up t (payload body) w h a =
    let first =
      (service_profile_by_id-Keeps {R = SameLedger} SameLedger-preorder ignores_profiles
          t.service_profile).at
        w a in
    let (found, w') = service_profile_by_id t.service_profile w in
    ground (arith, first, run_with-SameLedger up t body found w' h a)

-- A run of a task that returns without an error, over any providers and any object store, keeps
-- every account's value.
pub execute_task-SameLedger :
    (up : Upstream) (t : TaskRow) (w : World)
    → (execute_task up t w).0 ≡ ok tt
    → SameLedger w.db (execute_task up t w).1.db
unfolding execute_task pure
execute_task-SameLedger up t w h a = elim (Bool-cases (is_running t)) [
  | inl going ↦ grind (arith, run_document-SameLedger up t t.request_json w)
  | inr stopped ↦ grind (arith)
]
