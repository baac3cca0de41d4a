-- ===== src/Payments/Crediting.antt =====
-- A payment is credited once, to the wallet of its order (payments.go: handleEPUSDTCallback).
use lillian_backend.Common.{
  ℕ, pos, ◌+ℤ◌, eqb_ℤ, ◌≡◌, refl, ap, Text, codes, text_eq_refl, trim_space, not, Bool, true, false,
  Option, none, some, if◌then◌else◌, arith, find_where, Bool-cases, inl, inr, Exec, ok, ◌>>=◌, ◌>>◌,
  ◌∙◌, sym, pure, raise,
}
use mathlib.Core.Option.{some-injective}
use lillian_backend.Common.Tables.Laws.{find_where-update}
use lillian_backend.Schema.{Db, Params, PaymentOrder}
use lillian_backend.Sql.{World, steps, reading}
use lillian_backend.Sql.Rules.{read_then}
use lillian_backend.Http.{Problem, EpusdtConfig}
use lillian_backend.Tasks.Refund.{give_credits}
use lillian_backend.Tasks.Recover.{Account, wallet, account_rows, give}
use lillian_backend.Tasks.Ledger.{share, ledger, SameLedger, SameLedger-of_tables}
use lillian_backend.Tasks.Ledger.Failure.{ledger-give}
use lillian_backend.Payments.{field, int_field, is_paid}
use lillian_backend.Payments.Callback.{
  is_order, has_order_id, order_problem, settle, settle_order, settle_paid, credit_wallet,
  pay_order, refuse, validate_paid_callback, set_paid, note_paid,
}

-- What a paid callback writes for the order that it finds.
abbrev pub paid_written : Params → PaymentOrder → ℕ → Db → Db
paid_written payload order now d =
    set_paid order.id (trim_space (field payload (codes "trade_id"))) payload now
      (if is_paid order.status then d else give_credits order.wallet_id order.credits now d)

module _ (rat : Type 0) (set_string : Text → Option rat) (same_rat : rat → rat → Bool)
    (md5_hex : Text → Text) where
  pay_order_lem :
      (payload : Params) (o : PaymentOrder) (now : ℕ) (w : World)
      → (pay_order rat set_string same_rat md5_hex payload o now w).0 ≡ ok tt
      → (pay_order rat set_string same_rat md5_hex payload o now w).1.db
        ≡ paid_written payload o now w.db
  unfolding pay_order credit_wallet steps
  pay_order_lem payload o now w h = elim (Bool-cases (is_paid o.status)) [
    | inl before ↦ grind arith
    | inr fresh ↦ grind arith
  ]

  -- A check that is passed changes nothing.
  refuse_then :
      (v : Option Text) (payload : Params) (o : PaymentOrder) (now : ℕ) (w : World)
      → ((refuse rat set_string same_rat md5_hex v
            >> pay_order rat set_string same_rat md5_hex payload o now)
          w).0
        ≡ ok tt
      → (v ≡ none)
        × (((refuse rat set_string same_rat md5_hex v
                >> pay_order rat set_string same_rat md5_hex payload o now)
              w).1.db
            ≡ paid_written payload o now w.db)
  unfolding refuse ◌>>=◌ pure raise
  refuse_then none payload o now w h = (refl, pay_order_lem payload o now w h)
  refuse_then (some e) payload o now w h = cc

  settle_order_paid :
      (b : Bool) (v : Option Text) (other : Exec Problem World Unit) (payload : Params)
      (o : PaymentOrder) (now : ℕ) (w : World)
      → b ≡ true
      → ((if not b
            then other
            else refuse rat set_string same_rat md5_hex v
              >> pay_order rat set_string same_rat md5_hex payload o now)
          w).0
        ≡ ok tt
      → (v ≡ none)
        × (((if not b
                then other
                else refuse rat set_string same_rat md5_hex v
                  >> pay_order rat set_string same_rat md5_hex payload o now)
              w).1.db
            ≡ paid_written payload o now w.db)
  settle_order_paid true v other payload o now w two h = refuse_then v payload o now w h
  settle_order_paid false v other payload o now w two h = cc

  -- A callback that says paid, and succeeds, has found its order and passed the check, and writes
  -- `paid_written`.
  pub settle_lem :
      (cfg : EpusdtConfig) (payload : Params) (order_id : Text) (w : World)
      → eqb_ℤ (int_field payload (codes "status")) (pos 2) ≡ true
      → (settle rat set_string same_rat md5_hex cfg payload order_id w).0 ≡ ok tt
      → (o : PaymentOrder) × (find_where (is_order order_id) w.db.orders ≡ some o)
        × (validate_paid_callback rat set_string same_rat md5_hex o payload cfg ≡ none)
        × ((settle rat set_string same_rat md5_hex cfg payload order_id w).1.db
            ≡ paid_written payload o (reading w) w.db)
  unfolding settle settle_order settle_paid
  settle_lem cfg payload order_id w two h =
      let (o, found, step) =
        read_then order_problem (λ db. find_where (is_order order_id) db.orders)
          (settle_order rat set_string same_rat md5_hex cfg payload) w tt h in
      let (valid, wrote) =
        settle_order_paid _ (validate_paid_callback rat set_string same_rat md5_hex o payload cfg) _
          payload o (reading w) _ two (ap (λ x. x.0) (sym step) ∙ h) in
      (o, found, valid, ap (λ x. x.1.db) step ∙ wrote)

  ledger-set_paid :
      (a : Account) (id trade_id : Text) (payload : Params) (now : ℕ) (d : Db)
      → ledger a (set_paid id trade_id payload now d) ≡ ledger a d
  unfolding set_paid
  ledger-set_paid a id trade_id payload now d = SameLedger-of_tables d _ refl refl refl a

  ledger-paid_written :
      (a : Account) (payload : Params) (o : PaymentOrder) (now : ℕ) (d : Db)
      → account_rows (wallet o.wallet_id) d ≡ 1
      → ledger a (paid_written payload o now d) ≡ (
          if is_paid o.status
          then ledger a d
          else ledger a d +ℤ share (wallet o.wallet_id) o.credits a)
  unfolding give
  ledger-paid_written a payload o now d one = elim (Bool-cases (is_paid o.status)) [
    | inl before ↦ grind (
      arith,
      ledger-set_paid a o.id (trim_space (field payload (codes "trade_id"))) payload now d,
    )
    | inr fresh ↦ grind (
      arith,
      ledger-set_paid a o.id (trim_space (field payload (codes "trade_id"))) payload now
          (give (wallet o.wallet_id) o.credits now d),
      ledger-give a (wallet o.wallet_id) o.credits now d one,
    )
  ]

  repaid :
      (a : Account) (payload : Params) (o : PaymentOrder) (now : ℕ) (d : Db)
      → is_paid o.status ≡ true
      → ledger a (paid_written payload o now d) ≡ ledger a d
  repaid a payload o now d paid_before =
      grind (
        arith,
        ledger-set_paid a o.id (trim_space (field payload (codes "trade_id"))) payload now d,
      )

  -- A paid callback that succeeds adds the order's credits to its wallet when the order was not
  -- paid, and nothing when it was; no other account changes. The wallet has one row.
  pub settle-ledger :
      (cfg : EpusdtConfig) (payload : Params) (order_id : Text) (w : World) (o : PaymentOrder)
      → eqb_ℤ (int_field payload (codes "status")) (pos 2) ≡ true
      → find_where (is_order order_id) w.db.orders ≡ some o
      → account_rows (wallet o.wallet_id) w.db ≡ 1
      → (settle rat set_string same_rat md5_hex cfg payload order_id w).0 ≡ ok tt
      → (a : Account)
      → ledger a (settle rat set_string same_rat md5_hex cfg payload order_id w).1.db ≡ (
          if is_paid o.status
          then ledger a w.db
          else ledger a w.db +ℤ share (wallet o.wallet_id) o.credits a)
  settle-ledger cfg payload order_id w o two found one h a =
      let (o', found', valid, wrote) = settle_lem cfg payload order_id w two h in
      let same = some-injective _ _ (sym found' ∙ found) in
      ap (ledger a) (wrote ∙ ap (λ x. paid_written payload x (reading w) w.db) same)
      ∙ ledger-paid_written a payload o (reading w) w.db one

  -- The order that a paid callback leaves where it is looked for is paid.
  found_paid :
      (payload : Params) (order_id : Text) (o : PaymentOrder) (now : ℕ) (d : Db)
      → find_where (is_order order_id) d.orders ≡ some o
      → find_where (is_order order_id) (paid_written payload o now d).orders
        ≡ some (note_paid (trim_space (field payload (codes "trade_id"))) payload now o)
  unfolding set_paid give_credits
  found_paid payload order_id o now d found =
      let t = trim_space (field payload (codes "trade_id")) in
      grind (
        arith,
        find_where-update (is_order order_id) (has_order_id o.id) (note_paid t payload now) d.orders
            o (λ x. refl) found,
        text_eq_refl o.id,
      )

  pub settle-replay :
      (cfg : EpusdtConfig) (payload again : Params) (order_id : Text) (w v : World)
      → eqb_ℤ (int_field payload (codes "status")) (pos 2) ≡ true
      → eqb_ℤ (int_field again (codes "status")) (pos 2) ≡ true
      → (settle rat set_string same_rat md5_hex cfg payload order_id w).0 ≡ ok tt
      → v.db ≡ (settle rat set_string same_rat md5_hex cfg payload order_id w).1.db
      → (settle rat set_string same_rat md5_hex cfg again order_id v).0 ≡ ok tt
      → SameLedger v.db (settle rat set_string same_rat md5_hex cfg again order_id v).1.db
  settle-replay cfg payload again order_id w v two two' h later h' a =
      let (o, found, valid, wrote) = settle_lem cfg payload order_id w two h in
      let (o', found', valid', wrote') = settle_lem cfg again order_id v two' h' in
      let noted = found_paid payload order_id o (reading w) w.db found in
      let same =
        some-injective _ _ (
          sym found' ∙ ap (λ d. find_where (is_order order_id) d.orders) (later ∙ wrote) ∙ noted) in
      ap (ledger a) wrote' ∙ repaid a again o' (reading v) v.db (ap (λ x. is_paid x.status) same)
