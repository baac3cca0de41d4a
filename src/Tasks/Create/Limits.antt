-- ===== src/Tasks/Create/Limits.antt =====
-- What a reservation guarantees: no balance falls below zero, and a wallet's active tasks stay
-- within its limit (tasks.go: handleCreateTask).
use lillian_backend.Common.{
  ℕ, ◌+◌, ℤ, pos, ◌≤ℤ◌, ltb_ℤ, leb_ℤ, int_laws, ◌≡◌, ap, subst, sym, Text, text_eq_refl, true,
  false, none, some, [], ◌∷◌, if◌then◌else◌, count_where, find_where, arith, All, Bool-cases,
  Option-cases, inl, inr, ok,
}
use lillian_backend.Common.Tables.Laws.{count_where-append}
use lillian_backend.Common.Tables.Updates.{All-update_where, All-of, find_one}
use lillian_backend.Common.Sorting.First.{map_All}
use lillian_backend.Schema.{Db, TaskRow, EntitlementRow, Document}
use lillian_backend.Sql.{World, steps}
use lillian_backend.Billing.{BillingSelection, default_max_concurrent}
use lillian_backend.Tasks.{is_entitlement_of, is_active_of}
use lillian_backend.Tasks.Create.{
  can_pay, pay, use_one, take_credits, take_entitlement, queued_task, add_task, reserve,
}
use lillian_backend.Tasks.Ledger.Charges.{charged, reserve_effect, tasks-charged}

-- No balance is negative.
pub record NonNegative (d : Db) : Type 0 where
  pub credits : All (λ w. pos 0 ≤ℤ w.credits) d.wallets
  pub remaining : All (λ e. pos 0 ≤ℤ e.remaining) d.entitlements

-- The rows that a reservation has locked.
reserve_locked :
    (b : BillingSelection) (id : Text) (t : TaskRow) (now : ℕ) (w : World) (locked : ℤ)
    → (reserve b id t now w).0 ≡ ok locked
    → b.uses_credits ≡ false
    → (e : EntitlementRow) × (find_where (is_entitlement_of id b.service_code) w.db.entitlements
        ≡ some e)
      × (ltb_ℤ (pos 0) e.remaining ≡ true)
      × (count_where (is_entitlement_of id b.service_code) w.db.entitlements ≡ 1)
unfolding reserve steps
reserve_locked b id t now w locked h plain =
    elim (Option-cases (find_where (is_entitlement_of id b.service_code) w.db.entitlements)) [
      | inl missing ↦ absurd (ground arith)
      | inr (e, found) ↦ (e, found, ground arith, ground arith)
    ]

charged-NonNegative :
    (b : BillingSelection) (id : Text) (t : TaskRow) (now : ℕ) (w : World) (locked : ℤ)
    → NonNegative w.db
    → (reserve b id t now w).0 ≡ ok locked
    → NonNegative (charged b id now w.db)
unfolding take_credits take_entitlement
charged-NonNegative b id t now w locked n h = elim (Bool-cases b.uses_credits) [
  | inl with_credits ↦
      subst
        (λ u. NonNegative (
          (if u then take_credits id b.credit_units now else take_entitlement id b.service_code now)
            w.db))
        (sym with_credits)
        (record {
          credits =
              All-update_where _ (can_pay id b.credit_units) (pay b.credit_units now) w.db.wallets
                (All-of _ w.db.wallets (λ x e. grind int_laws))
                (map_All w.db.wallets (λ x k e. k) n.credits);
          remaining = n.remaining;
        })
  | inr plain ↦
      let (e, found, left, one) = reserve_locked b id t now w locked h plain in
      subst
        (λ u. NonNegative (
          (if u then take_credits id b.credit_units now else take_entitlement id b.service_code now)
            w.db))
        (sym plain)
        (record {
          credits = n.credits;
          remaining =
              All-update_where _ (is_entitlement_of id b.service_code) (use_one now)
                w.db.entitlements
                (map_All w.db.entitlements (λ x k y. grind (int_laws, k y))
                  (find_one (λ x. ltb_ℤ (pos 0) x.remaining ≡ true)
                    (is_entitlement_of id b.service_code) w.db.entitlements e found one left))
                (map_All w.db.entitlements (λ x k y. k) n.remaining);
        })
]

-- A reservation that succeeds leaves no balance negative, of credits or of uses, where none was.
pub reserve-NonNegative :
    (b : BillingSelection) (id : Text) (t : TaskRow) (now : ℕ) (w : World) (locked : ℤ)
    → NonNegative w.db
    → (reserve b id t now w).0 ≡ ok locked
    → NonNegative (reserve b id t now w).1.db
unfolding add_task
reserve-NonNegative b id t now w locked n h =
    let (same, one) = reserve_effect b id t now w locked h in
    let c = charged-NonNegative b id t now w locked n h in
    subst NonNegative (sym same) (record { credits = c.credits; remaining = c.remaining })

-- How many tasks of the wallet and service may be active at once.
unfoldable pub active_limit : BillingSelection → Text → Db → ℤ
active_limit b id d =
    if b.uses_credits
    then default_max_concurrent
    else elim (find_where (is_entitlement_of id b.service_code) d.entitlements) [
      | none ↦ pos 0
      | some e ↦ if leb_ℤ e.max_concurrent (pos 0) then default_max_concurrent else e.max_concurrent
    ]

reserve_checked :
    (b : BillingSelection) (id : Text) (t : TaskRow) (now : ℕ) (w : World) (locked : ℤ)
    → (reserve b id t now w).0 ≡ ok locked
    → ltb_ℤ (pos (count_where (is_active_of id b.service_code) w.db.tasks)) (active_limit b id w.db)
      ≡ true
unfolding reserve steps active_limit
reserve_checked b id t now w locked h = elim (Bool-cases b.uses_credits) [
  | inl with_credits ↦ ground arith
  | inr plain ↦
      elim (Option-cases (find_where (is_entitlement_of id b.service_code) w.db.entitlements)) [
        | inl missing ↦ absurd (ground arith)
        | inr (e, found) ↦ ground arith
      ]
]

-- After a reservation that succeeds, the wallet's active tasks for the service are one more than
-- before and within the limit that it was checked against.
pub reserve-active_limit :
    (b : BillingSelection) (task_id id size profile : Text) (r : Document) (now : ℕ) (w : World)
    (locked : ℤ)
    → (reserve b id (queued_task task_id id b size profile r now) now w).0 ≡ ok locked
    → (count_where
          (is_active_of id b.service_code)
          (reserve b id (queued_task task_id id b size profile r now) now w).1.db.tasks
        ≡ count_where (is_active_of id b.service_code) w.db.tasks + 1)
      × (pos (
            count_where
              (is_active_of id b.service_code)
              (reserve b id (queued_task task_id id b size profile r now) now w).1.db.tasks)
          ≤ℤ active_limit b id w.db)
unfolding add_task queued_task count_where
reserve-active_limit b task_id id size profile r now w locked h =
    let t = queued_task task_id id b size profile r now in
    let (same, one) = reserve_effect b id t now w locked h in
    let more = count_where-append (is_active_of id b.service_code) w.db.tasks (t ∷ []) in
    let tasks = tasks-charged b id now w.db in
    let count = ap (λ d. count_where (is_active_of id b.service_code) d.tasks) same in
    let before = reserve_checked b id t now w locked h in
    (
      grind (arith, count, tasks, more, text_eq_refl id, text_eq_refl b.service_code),
      grind (arith, count, tasks, more, text_eq_refl id, text_eq_refl b.service_code, before),
    )
