-- ===== src/Tasks/Execute/Done.antt =====
-- What a run that succeeds leaves in the table of tasks (tasks.go: executeTask).
use lillian_backend.Common.{
  ℕ, zero, suc, ◌≡◌, refl, ap, sym, ◌∙◌, subst, Text, text_eq, true, not, ◌&&◌, Option, none, some,
  List, [], arith, All, implies, Result, ok, err, Result-cases, inl, inr, if◌then◌else◌, Exec, pure,
  continue,
}
use lillian_backend.Common.Tables.Updates.{All-update_where, All-of}
use lillian_backend.Schema.{
  Db, TaskRow, TaskStatus, TaskPayload, Document, payload, malformed, ServiceProfileRow, TaskOutput,
  is_status,
}
use lillian_backend.Sql.{World, SqlError, steps, reading}
use lillian_backend.Sql.Rules.{Returns, Returns-pure, Returns-bind}
use lillian_backend.Profiles.{service_profile_by_id}
use lillian_backend.Tasks.{has_task_id}
use lillian_backend.Tasks.Claim.{is_running}
use lillian_backend.Tasks.Execute.{
  Upstream, ImageServiceResult, Attempts, unless_done, unless_stopped, try_profiles, finish,
  set_done, complete, conclude, run_with, run_document, execute_task,
}

-- The task that the worker holds keeps its identifier.
abbrev HasId : Text → Attempts → Type 0
HasId id a = a.1.id ≡ id

module _ (id : Text) where
  unless_done-HasId :
      (r : Result Text ImageServiceResult) (t : TaskRow) (next : Text → Exec Text World Attempts)
      → t.id ≡ id
      → ((e : Text) → Returns (HasId id) (next e))
      → Returns (HasId id) (unless_done r t next)
  unfolding unless_done
  unless_done-HasId (ok r) t next same h = Returns-pure _ same
  unless_done-HasId (err e) t next same h = h e

  unless_stopped-HasId :
      (o : Option ServiceProfileRow) (a : Attempts)
      (next : ServiceProfileRow → Exec Text World Attempts)
      → HasId id a
      → ((p : ServiceProfileRow) → Returns (HasId id) (next p))
      → Returns (HasId id) (unless_stopped o a next)
  unfolding unless_stopped
  unless_stopped-HasId none a next same h = Returns-pure _ same
  unless_stopped-HasId (some p) a next same h = h p

  try_profiles-HasId :
      (n : ℕ) (up : Upstream) (body : TaskPayload) (p : ServiceProfileRow) (t : TaskRow)
      (tried errors : List Text)
      → t.id ≡ id
      → Returns (HasId id) (try_profiles n up body p t tried errors)
  unfolding try_profiles
  try_profiles-HasId zero up body p t tried errors same =
      Returns-bind _ _ (λ _. unless_done-HasId _ t _ same (λ e. Returns-pure _ same))
  try_profiles-HasId (suc n) up body p t tried errors same = Returns-bind _ _ (λ _.
      unless_done-HasId _ t _ same (λ e. Returns-bind _ _ (λ selected. Returns-bind _ _ (λ found.
        unless_stopped-HasId found _ _ same
          (λ next. try_profiles-HasId n up body next _ _ _ same)))))

-- The task with the identifier is done and charged, wherever it is stored.
abbrev pub IsDone : Text → Db → Type 0
IsDone id d =
    All
      (λ r.
        implies (text_eq r.id id) (is_status r.status TaskStatus.done && r.credit_charged) ≡ true)
      d.tasks

set_done-IsDone :
    (id : Text) (o : List TaskOutput) (r : ImageServiceResult) (now : ℕ) (d : Db)
    → IsDone id (set_done id o r now d)
unfolding set_done
set_done-IsDone id o r now d =
    All-update_where _ (has_task_id id) (finish o r now) d.tasks
      (All-of _ d.tasks (λ x e. ground arith)) (All-of _ d.tasks (λ x e. ground arith))

complete-IsDone :
    (t : TaskRow) (r : ImageServiceResult) (o : Result Text (List TaskOutput)) (w : World)
    → (complete t r o w).0 ≡ ok tt
    → IsDone t.id (complete t r o w).1.db
unfolding complete steps
complete-IsDone t r (err e) w h = absurd (ground arith)
complete-IsDone t r (ok outputs) w h =
    ground (arith, set_done-IsDone t.id outputs r (reading w) w.db)

conclude-IsDone :
    (up : Upstream) (a : Attempts) (w : World)
    → (conclude up a w).0 ≡ ok tt
    → IsDone a.1.id (conclude up a w).1.db
unfolding conclude steps
conclude-IsDone up (err e, t) w h = absurd (ground arith)
conclude-IsDone up (ok r, t) w h = complete-IsDone t r _ w h

run_with-IsDone :
    (up : Upstream) (t : TaskRow) (body : TaskPayload) (p : Result SqlError ServiceProfileRow)
    (w : World)
    → (run_with up t body p w).0 ≡ ok tt
    → IsDone t.id (run_with up t body p w).1.db
unfolding run_with steps
run_with-IsDone up t body (err e) w h = absurd (ground arith)
run_with-IsDone up t body (ok p) w h = elim (Result-cases (try_profiles 1 up body p t [] [] w).0) [
  | inl (tried, e) ↦
      let w' = (try_profiles 1 up body p t [] [] w).1 in
      let same = (try_profiles-HasId t.id 1 up body p t [] [] refl).at w tried e in
      subst (λ d. IsDone t.id d) (ap (λ x. (continue x (conclude up) w').1.db) (sym e))
        (subst (λ i. IsDone i (conclude up tried w').1.db) same
          (conclude-IsDone up tried w' (ap (λ x. (continue x (conclude up) w').0) (sym e) ∙ h)))
  | inr (x, e) ↦ absurd (ground arith)
]

run_document-IsDone :
    (up : Upstream) (t : TaskRow) (d : Document) (w : World)
    → (run_document up t d w).0 ≡ ok tt
    → IsDone t.id (run_document up t d w).1.db
unfolding run_document steps
run_document-IsDone up t malformed w h = absurd (ground arith)
run_document-IsDone up t (payload body) w h =
    run_with-IsDone up t body (service_profile_by_id t.service_profile w).0
      (service_profile_by_id t.service_profile w).1 h

-- A run of a running task that returns without an error leaves the task done and charged, wherever
-- its row is stored.
pub execute_task-IsDone :
    (up : Upstream) (t : TaskRow) (w : World)
    → is_running t ≡ true
    → (execute_task up t w).0 ≡ ok tt
    → IsDone t.id (execute_task up t w).1.db
unfolding execute_task pure
execute_task-IsDone up t w going h =
    subst (λ b. IsDone t.id ((if not b then pure tt else run_document up t t.request_json) w).1.db)
      (sym going)
      (run_document-IsDone up t t.request_json w (
        ap (λ b. ((if not b then pure tt else run_document up t t.request_json) w).0) (sym going)
        ∙ h))
