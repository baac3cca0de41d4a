-- ===== src/Tasks/Ledger/Failure.antt =====
-- What a worker's failure does to the accounts (tasks.go: failTaskAndRefund).
use lillian_backend.Common.{
  ℕ, ℤ, ◌+ℤ◌, int_laws, ◌≡◌, refl, ap, ◌∙◌, Text, true, some, [], arith, count_where, find_where,
  Bool-cases, inl, inr, if◌then◌else◌,
}
use lillian_backend.Common.Tables.Laws.{
  sum_by-update_one, count_where-update_same, find_where-update,
}
use lillian_backend.Schema.{Db, TaskRow}
use lillian_backend.Sql.{World, steps, reading, fault, later_faults, head_or, rest}
use lillian_backend.Tasks.{has_task_id}
use lillian_backend.Tasks.Refund.{
  fail_task_and_refund, statement, is_refundable, set_error, give_back, clear_reserved, release,
  stop, is_running_task, is_credits,
}
use lillian_backend.Tasks.Recover.{
  Account, wallet, entitlement, account_of, amount_of, account_rows, give,
}
use lillian_backend.Tasks.Ledger.{stored, share, held, ledger, SameLedger, stored-give}
use lillian_backend.Tasks.Ledger.Claims.{SameLedger-update_tasks}
use lillian_backend.Tasks.Ledger.Recovery.{tasks-give}

-- The three statements in a row.
abbrev pub refunded : TaskRow → Text → ℕ → Db → Db
refunded t message now d = clear_reserved t.id now (give_back t now (set_error t.id message now d))

fail_steps :
    (t : TaskRow) (message : Text) (w : World)
    → w.faults ≡ []
    → is_refundable t ≡ true
    → (fail_task_and_refund {E = Text} t message w).1.db ≡ refunded t message (reading w) w.db
unfolding fail_task_and_refund statement steps fault later_faults head_or rest
fail_steps t message w quiet yes_refund = ground arith

set_error-SameLedger :
    (id message : Text) (now : ℕ) (d : Db) → SameLedger d (set_error id message now d)
unfolding set_error
set_error-SameLedger id message now = SameLedger-update_tasks _ _ (λ a t. refl)

give_back-give :
    (t : TaskRow) (now : ℕ) (d : Db) → give_back t now d ≡ give (account_of t) (amount_of t) now d
unfolding give_back give
give_back-give t now d = elim (Bool-cases (is_credits t.billing_source)) [
  | inl c ↦ ground arith
  | inr e ↦ ground arith
]

-- Clearing the reservation of the one stored row drops what it held.
ledger-clear_reserved :
    (a : Account) (id : Text) (now : ℕ) (d : Db) (row : TaskRow)
    → count_where (has_task_id id) d.tasks ≡ 1
    → find_where (has_task_id id) d.tasks ≡ some row
    → ledger a (clear_reserved id now d) +ℤ held a row ≡ ledger a d
unfolding ledger clear_reserved stored
ledger-clear_reserved (wallet v) id now d row c e =
    grind
      (int_laws, sum_by-update_one (held (wallet v)) (has_task_id id) (release now) d.tasks row c e)
ledger-clear_reserved (entitlement v k) id now d row c e = grind (
  int_laws,
  sum_by-update_one (held (entitlement v k)) (has_task_id id) (release now) d.tasks row c e,
)

pub ledger-give :
    (a b : Account) (n : ℤ) (now : ℕ) (d : Db)
    → account_rows b d ≡ 1
    → ledger a (give b n now d) ≡ ledger a d +ℤ share b n a
unfolding ledger
ledger-give a b n now d one = grind (int_laws, stored-give a b n now d one, tasks-give b n now d)

set_error-rows :
    (b : Account) (id message : Text) (now : ℕ) (d : Db)
    → account_rows b (set_error id message now d) ≡ account_rows b d
unfolding set_error
set_error-rows (wallet v) id message now d = refl
set_error-rows (entitlement v c) id message now d = refl

-- After the first statement the stored row is there still, and holds what it held.
set_error-row :
    (id message : Text) (now : ℕ) (d : Db) (row : TaskRow)
    → count_where (has_task_id id) d.tasks ≡ 1
    → find_where (has_task_id id) d.tasks ≡ some row
    → (count_where (has_task_id id) (set_error id message now d).tasks ≡ 1)
      × ((r : TaskRow) × (find_where (has_task_id id) (set_error id message now d).tasks ≡ some r)
          × ((a : Account) → held a r ≡ held a row))
unfolding set_error
set_error-row id message now d row c e = (
  count_where-update_same (has_task_id id) (is_running_task id) (stop message now) d.tasks
        (λ x _. refl)
      ∙ c,
  (
    (if is_running_task id row then stop message now row else row),
    find_where-update (has_task_id id) (is_running_task id) (stop message now) d.tasks row
        (λ x. refl) e,
    λ a. elim (Bool-cases (is_running_task id row)) [ inl y ↦ grind arith | inr n ↦ grind arith ],
  ),
)

-- A failure gives the payer what the worker's copy of the task says, and drops what the stored row
-- held: with the database answering, and the account's row and one row of the task there.
pub ledger-fail_task_and_refund :
    (a : Account) (t row : TaskRow) (message : Text) (w : World)
    → w.faults ≡ []
    → is_refundable t ≡ true
    → account_rows (account_of t) w.db ≡ 1
    → count_where (has_task_id t.id) w.db.tasks ≡ 1
    → find_where (has_task_id t.id) w.db.tasks ≡ some row
    → ledger a (fail_task_and_refund {E = Text} t message w).1.db +ℤ held a row
      ≡ ledger a w.db +ℤ share (account_of t) (amount_of t) a
ledger-fail_task_and_refund a t row message w quiet back one c e =
    let now = reading w in
    let d1 = set_error t.id message now w.db in
    let (c1, (r, e1, same)) = set_error-row t.id message now w.db row c e in
    let d2 = give (account_of t) (amount_of t) now d1 in
    grind (
      int_laws,
      fail_steps t message w quiet back,
      give_back-give t now d1,
      set_error-SameLedger t.id message now w.db a,
      ledger-give a (account_of t) (amount_of t) now d1
          (set_error-rows (account_of t) t.id message now w.db ∙ one),
      ledger-clear_reserved a t.id now d2 r
          (ap (count_where (has_task_id t.id)) (tasks-give (account_of t) (amount_of t) now d1)
            ∙ c1)
          (ap (find_where (has_task_id t.id)) (tasks-give (account_of t) (amount_of t) now d1)
            ∙ e1),
      same a,
    )
