-- ===== src/Payments/Success.antt =====
-- When a paid callback succeeds (payments.go: handleEPUSDTCallback).
use lillian_backend.Common.{
  ℕ, pos, eqb_ℤ, ◌≡◌, ap, Text, codes, not, Bool, true, false, Option, none, some, if◌then◌else◌,
  arith, find_where, Bool-cases, inl, inr, Exec, ok, ◌>>=◌, ◌>>◌, ◌∙◌, pure,
}
use lillian_backend.Schema.{Params, PaymentOrder}
use lillian_backend.Sql.{World, steps, reading}
use lillian_backend.Sql.Rules.{query_row_found, no_fault, none_later}
use lillian_backend.Sql.{fault, later_faults, head_or, rest, spend, later_clock, time_now}
use lillian_backend.Common.{[], continue}
use lillian_backend.Http.{Problem, EpusdtConfig}
use lillian_backend.Payments.{int_field, is_paid}
use lillian_backend.Payments.Callback.{
  is_order, order_problem, settle, settle_order, settle_paid, credit_wallet, pay_order, refuse,
  validate_paid_callback,
}

module _ (rat : Type 0) (set_string : Text → Option rat) (same_rat : rat → rat → Bool)
    (md5_hex : Text → Text) where
  pay_order_succeeds :
      (payload : Params) (o : PaymentOrder) (now : ℕ) (w : World)
      → w.faults ≡ []
      → (pay_order rat set_string same_rat md5_hex payload o now w).0 ≡ ok tt
  unfolding pay_order credit_wallet steps fault later_faults head_or rest
  pay_order_succeeds payload o now w quiet = elim (Bool-cases (is_paid o.status)) [
    | inl before ↦ grind arith
    | inr fresh ↦ grind arith
  ]

  settle_order_succeeds :
      (b : Bool) (v : Option Text) (other : Exec Problem World Unit) (payload : Params)
      (o : PaymentOrder) (now : ℕ) (w : World)
      → b ≡ true
      → v ≡ none
      → w.faults ≡ []
      → ((if not b
            then other
            else refuse rat set_string same_rat md5_hex v
              >> pay_order rat set_string same_rat md5_hex payload o now)
          w).0
        ≡ ok tt
  unfolding refuse ◌>>=◌ pure
  settle_order_succeeds true none other payload o now w two valid quiet =
      pay_order_succeeds payload o now w quiet
  settle_order_succeeds true (some e) other payload o now w two valid quiet = cc
  settle_order_succeeds false v other payload o now w two valid quiet = cc

  -- With the database answering, a paid callback for an order that is there, which passes the check,
  -- succeeds.
  pub settle_succeeds :
      (cfg : EpusdtConfig) (payload : Params) (order_id : Text) (w : World) (o : PaymentOrder)
      → w.faults ≡ []
      → eqb_ℤ (int_field payload (codes "status")) (pos 2) ≡ true
      → find_where (is_order order_id) w.db.orders ≡ some o
      → validate_paid_callback rat set_string same_rat md5_hex o payload cfg ≡ none
      → (settle rat set_string same_rat md5_hex cfg payload order_id w).0 ≡ ok tt
  unfolding settle settle_order settle_paid ◌>>=◌ time_now reading later_clock
  settle_succeeds cfg payload order_id w o quiet two found valid =
      ap
        (λ r.
          (continue r.0
            (λ x.
              time_now >>= λ now. settle_order rat set_string same_rat md5_hex cfg payload x now)
            r.1).0)
        (query_row_found order_problem (λ db. find_where (is_order order_id) db.orders) w o
          (no_fault w quiet) found)
      ∙ settle_order_succeeds _
          (validate_paid_callback rat set_string same_rat md5_hex o payload cfg) _ payload o
          (reading w) (record (spend w) { clock = later_clock w }) two valid (none_later w quiet)
