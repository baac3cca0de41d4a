-- ===== src/Tasks/Ledger/Charges.antt =====
-- Creating a task moves its price from what the account's row holds to what the task holds
-- (tasks.go: handleCreateTask).
use lillian_backend.Common.{
  ℕ, ℤ, pos, ◌+ℤ◌, ◌-ℤ◌, ◌≤ℤ◌, int_laws, ◌≡◌, Text, text_eq_iff, [], ◌∷◌, if◌then◌else◌, sum_by,
  count_where, arith, Bool-cases, inl, inr, ok,
}
use lillian_backend.Common.Tables.Laws.{sum_by-update_by, sum_by-append}
use lillian_backend.Schema.{Db, TaskRow, Document}
use lillian_backend.Sql.{World, steps}
use lillian_backend.Numbers.{max_int}
use lillian_backend.Billing.{BillingSelection}
use lillian_backend.Tasks.{is_entitlement_of}
use lillian_backend.Tasks.Create.{
  can_pay, pay, use_one, take_credits, take_entitlement, queued_task, add_task, reserve,
}
use lillian_backend.Tasks.Recover.{Account, wallet, entitlement, same_account}
use lillian_backend.Tasks.Ledger.{credits_in, remaining_in, stored, share, held, ledger}

abbrev pub payer : BillingSelection → Text → Account
payer b wallet_id =
    if b.uses_credits then wallet wallet_id else entitlement wallet_id b.service_code

abbrev pub price : BillingSelection → ℤ
price b = if b.uses_credits then b.credit_units else pos 1

-- The statement of `charge`, and the rows that it affects.
abbrev pub charged : BillingSelection → Text → ℕ → Db → Db
charged b wallet_id now =
    if b.uses_credits
    then take_credits wallet_id b.credit_units now
    else take_entitlement wallet_id b.service_code now

abbrev pub charged_rows : BillingSelection → Text → Db → ℕ
charged_rows b wallet_id db =
    if b.uses_credits
    then count_where (can_pay wallet_id b.credit_units) db.wallets
    else count_where (is_entitlement_of wallet_id b.service_code) db.entitlements

-- A reservation that succeeds has charged one row and queued the task.
pub reserve_effect :
    (b : BillingSelection) (id : Text) (t : TaskRow) (now : ℕ) (w : World) (locked : ℤ)
    → (reserve b id t now w).0 ≡ ok locked
    → ((reserve b id t now w).1.db ≡ add_task t (charged b id now w.db))
      × (charged_rows b id w.db ≡ 1)
unfolding reserve steps
reserve_effect b id t now w locked h = elim (Bool-cases b.uses_credits) [
  | inl yes_credits ↦ ground arith
  | inr no_credits ↦ ground arith
]

stored-take_credits :
    (a : Account) (id : Text) (n : ℤ) (now : ℕ) (db : Db)
    → count_where (can_pay id n) db.wallets ≡ 1
    → stored a (take_credits id n now db) ≡ stored a db +ℤ (pos 0 -ℤ share (wallet id) n a)
unfolding stored take_credits same_account
stored-take_credits (wallet v) id n now db c =
    sum_by-update_by (credits_in v) (can_pay id n) (pay n now)
      (pos 0 -ℤ share (wallet id) n (wallet v)) db.wallets
      (λ x h. grind (int_laws, text_eq_iff x.id id, text_eq_iff x.id v, text_eq_iff id v)) c
stored-take_credits (entitlement v k) id n now db c = omega int_laws

stored-take_entitlement :
    (a : Account) (id code : Text) (now : ℕ) (db : Db)
    → count_where (is_entitlement_of id code) db.entitlements ≡ 1
    → stored a (take_entitlement id code now db)
      ≡ stored a db +ℤ (pos 0 -ℤ share (entitlement id code) (pos 1) a)
unfolding stored take_entitlement same_account
stored-take_entitlement (wallet v) id code now db c = omega int_laws
stored-take_entitlement (entitlement v k) id code now db c =
    sum_by-update_by (remaining_in v k) (is_entitlement_of id code) (use_one now)
      (pos 0 -ℤ share (entitlement id code) (pos 1) (entitlement v k)) db.entitlements
      (λ x h. grind (
        int_laws,
        text_eq_iff x.wallet_id id,
        text_eq_iff x.wallet_id v,
        text_eq_iff id v,
        text_eq_iff x.service_code k,
        text_eq_iff x.service_code code,
        text_eq_iff code k,
      ))
      c

-- A charge of one row takes the price from the payer and from no other account.
pub stored-charged :
    (a : Account) (b : BillingSelection) (id : Text) (now : ℕ) (db : Db)
    → charged_rows b id db ≡ 1
    → stored a (charged b id now db) ≡ stored a db +ℤ (pos 0 -ℤ share (payer b id) (price b) a)
stored-charged a b id now db c = elim (Bool-cases b.uses_credits) [
  | inl e ↦ ground (arith, stored-take_credits a id b.credit_units now db)
  | inr e ↦ ground (arith, stored-take_entitlement a id b.service_code now db)
]

pub tasks-charged :
    (b : BillingSelection) (id : Text) (now : ℕ) (db : Db) → (charged b id now db).tasks ≡ db.tasks
unfolding take_credits take_entitlement
tasks-charged b id now db = ground arith

-- A queued task holds its price, of the account that pays it.
pub held-queued_task :
    (a : Account) (b : BillingSelection) (id wallet_id size profile : Text) (r : Document) (now : ℕ)
    → pos 1 ≤ℤ b.credit_units
    → held a (queued_task id wallet_id b size profile r now) ≡ share (payer b wallet_id) (price b) a
unfolding queued_task max_int
held-queued_task a b id wallet_id size profile r now h = ground arith

pub ledger-add_task :
    (a : Account) (t : TaskRow) (db : Db) → ledger a (add_task t db) ≡ ledger a db +ℤ held a t
unfolding ledger add_task stored sum_by
ledger-add_task (wallet v) t db =
    rw (sum_by-append (held (wallet v)) db.tasks (t ∷ [])) (omega int_laws)
ledger-add_task (entitlement v c) t db =
    rw (sum_by-append (held (entitlement v c)) db.tasks (t ∷ [])) (omega int_laws)
