-- ===== src/Tasks/Ledger/Rounds.antt =====
-- The run of a task by its id moves no value when it returns without an error (tasks.go:
-- processTask).
use lillian_backend.Common.{
  ◌≡◌, refl, Text, Result, ok, err, Result-cases, inl, inr, arith, pure, raise, ◌>>=◌,
}
use lillian_backend.Schema.{TaskRow}
use lillian_backend.Sql.{World, attempt}
use lillian_backend.Sql.Rules.{Keeps, Keeps-attempt}
use lillian_backend.Settings.{RuntimeSettings, load_runtime_settings}
use lillian_backend.Settings.Frame.{load_runtime_settings-Keeps}
use lillian_backend.Tasks.Claim.{
  NoClaim, idle, claim_failed, claim_queued_task_by_id, claimable_by_id,
}
use lillian_backend.Tasks.Execute.{Upstream}
use lillian_backend.Tasks.Worker.{run_claimed, process_task}
use lillian_backend.Tasks.Ledger.{SameLedger, SameLedger-preorder}
use lillian_backend.Tasks.Ledger.Claims.{claim-SameLedger}
use lillian_backend.Tasks.Ledger.Runs.{execute_task-SameLedger}

run_claimed-SameLedger :
    (up : Upstream) (r : Result NoClaim TaskRow) (w : World)
    → (run_claimed up r w).0 ≡ ok tt
    → SameLedger w.db (run_claimed up r w).1.db
unfolding run_claimed pure raise
run_claimed-SameLedger up (err idle) w h a = refl
run_claimed-SameLedger up (err (claim_failed e)) w h a = cc
run_claimed-SameLedger up (ok t) w h a = execute_task-SameLedger up t w h a

claim_by_id-SameLedger :
    (id : Text) (s : RuntimeSettings)
    → Keeps SameLedger (attempt {F = Text} (claim_queued_task_by_id id s))
unfolding claim_queued_task_by_id
claim_by_id-SameLedger id s =
    Keeps-attempt SameLedger-preorder _ (claim-SameLedger (claimable_by_id id s) s)

claimed_then :
    (up : Upstream) (id : Text) (s : RuntimeSettings) (w : World)
    → ((attempt {F = Text} (claim_queued_task_by_id id s) >>= λ c. run_claimed up c) w).0 ≡ ok tt
    → SameLedger w.db
        ((attempt {F = Text} (claim_queued_task_by_id id s) >>= λ c. run_claimed up c) w).1.db
unfolding ◌>>=◌ attempt
claimed_then up id s w h =
    SameLedger-preorder.chain w.db (claim_queued_task_by_id id s w).1.db _
      ((claim_by_id-SameLedger id s).at w)
      (run_claimed-SameLedger up (claim_queued_task_by_id id s w).0
        (claim_queued_task_by_id id s w).1 h)

-- A task that is claimed by its id and run, with any outcome but an error, moves no value; nor does
-- a claim that finds nothing.
pub process_task-SameLedger :
    (up : Upstream) (id : Text) (w : World)
    → (process_task up id w).0 ≡ ok tt
    → SameLedger w.db (process_task up id w).1.db
unfolding process_task ◌>>=◌
process_task-SameLedger up id w h =
    let w' = (load_runtime_settings {E = Text} w).1 in
    let first =
      (load_runtime_settings-Keeps {R = SameLedger} SameLedger-preorder {E = Text}).at w in
    elim (Result-cases (load_runtime_settings {E = Text} w).0) [
      | inl (s, loaded) ↦ λ a. grind (arith, first a, claimed_then up id s w')
      | inr (x, broken) ↦ λ a. absurd (grind arith)
    ]
