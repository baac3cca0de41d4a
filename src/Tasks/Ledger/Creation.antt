-- ===== src/Tasks/Ledger/Creation.antt =====
-- Creating a task, over every branch and every failure, moves no value into or out of an account
-- (tasks.go: handleCreateTask).
use lillian_backend.Common.{Exec, ◌>>=◌, ◌∙◌, ℕ, ℤ, int_laws, ◌≡◌, refl, ap, Text, Option, List, ok}
use lillian_backend.Schema.{Db, Document, TaskPayload}
use lillian_backend.Sql.{World, transaction, map_error}
use lillian_backend.Sql.Rules.{
  Keeps, Keeps-commit, Keeps-bind_where, Keeps-map_error, Returns-map_error, keeps_rules,
}
use lillian_backend.Billing.{BillingSelection, select_wallet_billing}
use lillian_backend.Wallets.{WalletSnapshot}
use lillian_backend.Profiles.{select_service_profile}
use lillian_backend.Billing.Selection.{
  IsPriced, select_wallet_billing-IsPriced, select_wallet_billing-Keeps,
}
use lillian_backend.Wallets.Reads.{wallet_by_address-Keeps}
use lillian_backend.Profiles.Frame.{select_service_profile-Keeps}
use lillian_backend.Http.{Server, Problem, internal, require_database, read_json}
use lillian_backend.Tasks.Create.{reserve, queued_task, add_task, create_task}
use lillian_backend.Tasks.Recover.{Account}
use lillian_backend.Tasks.Ledger.{ledger, SameLedger, SameLedger-preorder, SameLedger-of_tables}
use lillian_backend.Tasks.Ledger.Charges.{
  charged, charged_rows, reserve_effect, stored-charged, tasks-charged, held-queued_task,
  ledger-add_task,
}

-- A charge and the task that holds it cancel out.
ledger-reserved :
    (a : Account) (b : BillingSelection) (id wallet_id size profile : Text) (r : Document) (now : ℕ)
    (d : Db)
    → IsPriced b
    → charged_rows b wallet_id d ≡ 1
    → ledger a
        (add_task (queued_task id wallet_id b size profile r now) (charged b wallet_id now d))
      ≡ ledger a d
unfolding ledger
ledger-reserved a b id wallet_id size profile r now d h c =
    let t = queued_task id wallet_id b size profile r now in
    grind (
      int_laws,
      ledger-add_task a t (charged b wallet_id now d),
      stored-charged a b wallet_id now d c,
      tasks-charged b wallet_id now d,
      held-queued_task a b id wallet_id size profile r now h,
    )

reserve-SameLedger :
    (b : BillingSelection) (id wallet_id size profile : Text) (r : Document) (now : ℕ) (w : World)
    (n : ℤ)
    → IsPriced b
    → (reserve b wallet_id (queued_task id wallet_id b size profile r now) now w).0 ≡ ok n
    → SameLedger w.db
        (reserve b wallet_id (queued_task id wallet_id b size profile r now) now w).1.db
reserve-SameLedger b id wallet_id size profile r now w n h e a =
    let (same, one) = reserve_effect b wallet_id _ now w n e in
    ap (ledger a) same ∙ ledger-reserved a b id wallet_id size profile r now w.db h one

-- What the billing selection returns is priced.
billing_then :
    {A : Type 0} (s : WalletSnapshot) (tier : Text) (g : Text → Problem)
    (f : BillingSelection → Exec Problem World A)
    → ((b : BillingSelection) → IsPriced b → Keeps SameLedger (f b))
    → Keeps SameLedger (map_error g (select_wallet_billing s tier) >>= f)
billing_then s tier g f h =
    Keeps-bind_where SameLedger-preorder IsPriced _ f
      (Returns-map_error IsPriced g _ (select_wallet_billing-IsPriced s tier))
      (Keeps-map_error SameLedger-preorder g _
        (select_wallet_billing-Keeps SameLedger-preorder s tier))
      h

commit_task :
    (b : BillingSelection) (id wallet_id size profile : Text) (r : Document) (now : ℕ)
    → IsPriced b
    → Keeps SameLedger (
        transaction internal
          (reserve b wallet_id (queued_task id wallet_id b size profile r now) now))
commit_task b id wallet_id size profile r now h =
    Keeps-commit SameLedger-preorder internal _
      (λ w n e. reserve-SameLedger b id wallet_id size profile r now w n h e)

-- The profile chosen for a task is no part of any account.
profile-Keeps :
    (code tier : Text) (x : List Text) → Keeps SameLedger (select_service_profile code tier x)
profile-Keeps =
    select_service_profile-Keeps SameLedger-preorder
      (λ d ps. SameLedger-of_tables d _ refl refl refl)

-- Whatever the request and whichever call of the database fails, the handler that creates a task
-- keeps every account's value: what leaves the row of the payer is held by the new task, and a
-- request that is refused or fails takes nothing.
pub create_task-SameLedger :
    (server : Server) (request : Option TaskPayload) → Keeps SameLedger (create_task server request)
unfolding create_task require_database read_json
create_task-SameLedger server request =
    search
      (
        billing_then, commit_task, profile-Keeps, wallet_by_address-Keeps, keeps_rules,
        SameLedger-preorder,
      )
      depth 60
