-- ===== src/Tasks/Ledger/Claims.antt =====
-- A claim and a finished task move no value (tasks.go: the claims, executeTask).
use lillian_backend.Common.{ℕ, ◌≡◌, refl, Text, Bool, Option, List, arith}
use lillian_backend.Common.Tables.Laws.{sum_by-update_same}
use lillian_backend.Schema.{Db, TaskRow, ServiceProfileRow, TaskOutput}
use lillian_backend.Sql.Rules.{Keeps, keeps_rules}
use lillian_backend.Settings.{RuntimeSettings}
use lillian_backend.Tasks.{update_tasks}
use lillian_backend.Tasks.Claim.{
  claim, claim_body, global_slot_available, mark_task_running, set_running,
}
use lillian_backend.Tasks.Refund.{statement}
use lillian_backend.Tasks.Execute.{ImageServiceResult, set_profile, set_done}
use lillian_backend.Tasks.Recover.{Account, wallet, entitlement}
use lillian_backend.Tasks.Ledger.{
  stored, held, ledger, SameLedger, SameLedger-preorder, SameLedger-of_tables,
}

-- An UPDATE of tasks that leaves what each holds.
pub SameLedger-update_tasks :
    (p : TaskRow → Bool) (f : TaskRow → TaskRow)
    → ((a : Account) (t : TaskRow) → held a (f t) ≡ held a t)
    → (d : Db) → SameLedger d (update_tasks p f d)
unfolding ledger stored
SameLedger-update_tasks p f h d (wallet v) =
    grind (arith, sum_by-update_same (held (wallet v)) p f d.tasks (λ x _. h (wallet v) x))
SameLedger-update_tasks p f h d (entitlement v c) =
    grind (
      arith,
      sum_by-update_same (held (entitlement v c)) p f d.tasks (λ x _. h (entitlement v c) x),
    )

set_running-SameLedger : (id : Text) (now : ℕ) (d : Db) → SameLedger d (set_running id now d)
unfolding set_running
set_running-SameLedger id now = SameLedger-update_tasks _ _ (λ a t. refl)

pub set_profile-SameLedger :
    (id p : Text) (now : ℕ) (d : Db) → SameLedger d (set_profile id p now d)
unfolding set_profile
set_profile-SameLedger id p now = SameLedger-update_tasks _ _ (λ a t. refl)

pub set_done-SameLedger :
    (id : Text) (o : List TaskOutput) (r : ImageServiceResult) (now : ℕ) (d : Db)
    → SameLedger d (set_done id o r now d)
unfolding set_done
set_done-SameLedger id o r now = SameLedger-update_tasks _ _ (λ a t. refl)

-- A claim of a task, by any choice of the task and whatever fails, keeps every account's value.
pub claim-SameLedger :
    (pick : Db → Option TaskRow) (settings : RuntimeSettings)
    → Keeps SameLedger (claim pick settings)
unfolding claim claim_body global_slot_available mark_task_running
claim-SameLedger pick settings =
    search (keeps_rules, SameLedger-preorder, set_running-SameLedger) depth 60

pub ignores_profiles :
    (d : Db) (ps : List ServiceProfileRow) → SameLedger d (record d { profiles = ps })
ignores_profiles d ps = SameLedger-of_tables d _ refl refl refl

pub statement-SameLedger :
    {E : Type 0} (change : Db → Db)
    → ((d : Db) → SameLedger d (change d))
    → Keeps SameLedger (statement {E = E} change)
unfolding statement
statement-SameLedger change h = search (keeps_rules, SameLedger-preorder, h) depth 30
