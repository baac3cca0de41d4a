-- ===== src/Payments/Topup/Paid.antt =====
-- A top-up from its order to its payment (payments.go: handleCreateWalletTopup, then
-- handleEPUSDTCallback on the database that it left).
use lillian_backend.Common.{
  pos, ◌+ℤ◌, int_laws, eqb_ℤ, ◌≡◌, refl, ap, ◌∙◌, subst, Text, codes, text_eq, text_eq_iff,
  trim_space, to_lower, ◌||◌, Bool, true, false, Option, some, List, [], ◌∷◌, ◌++◌, is_some,
  find_where, ok, arith,
}
use lillian_backend.Schema.{Db, Params, PaymentOrder, CreditTopupPlan, WalletRecord}
use lillian_backend.Sql.{World}
use lillian_backend.Http.{Server}
use lillian_backend.Http.Urls.{Request}
use lillian_backend.Tasks.Recover.{Account, wallet, account_rows}
use lillian_backend.Tasks.Ledger.{ledger, share, SameLedger-of_tables}
use lillian_backend.Payments.{int_field}
use lillian_backend.Payments.Catalog.{plan_of}
use lillian_backend.Payments.Callback.{is_order, settle}
use lillian_backend.Payments.Crediting.{settle-ledger}
use lillian_backend.Payments.Topup.{
  Gateway, TopupRequest, TopupResponse, order_conflicts, add_order, handle_create_wallet_topup,
}
use lillian_backend.Payments.Topup.Ordered.{IsOrderOf, has_address, asked_plan, handle_lem}

-- The row that is appended is found where no row before it fits.
find_order-append :
    (id : Text) (os : List PaymentOrder) (o : PaymentOrder)
    → is_some (find_where (λ p. text_eq p.id id || text_eq p.provider_order_id id) os) ≡ false
    → is_order id o ≡ true
    → find_where (is_order id) (os ++ o ∷ []) ≡ some o
unfolding find_where
find_order-append id [] o fresh fits = ground arith
find_order-append id (p ∷ os) o fresh fits = ground (arith, find_order-append id os o)

ledger-add_order : (a : Account) (o : PaymentOrder) (d : Db) → ledger a (add_order o d) ≡ ledger a d
unfolding add_order
ledger-add_order a o d = SameLedger-of_tables d _ refl refl refl a

order_found :
    (v : Text) (plan : CreditTopupPlan) (o : PaymentOrder) (d : Db)
    → IsOrderOf v plan o
    → order_conflicts o d ≡ false
    → find_where (is_order o.id) (add_order o d).orders ≡ some o
unfolding add_order
order_found v plan o d is fresh =
    find_order-append o.id d.orders o
      (subst
        (λ (x : Text).
          is_some (find_where (λ p. text_eq p.id o.id || text_eq p.provider_order_id x) d.orders)
          ≡ false)
        is.same_id fresh)
      (grind (arith, text_eq_iff o.provider (codes "epusdt"), text_eq_iff o.provider_order_id o.id))

module _ (g : Gateway) (rat : Type 0) (set_string : Text → Option rat) (same_rat : rat → rat → Bool)
    (md5_hex : Text → Text) where
  -- A top-up that is ordered, and whose payment the provider then reports, brings the credits of
  -- the plan to the wallet of the address, and changes no other account: the plan is the one that
  -- was asked for, the wallet has one row, and the callback is one that says paid, names the
  -- order, and succeeds on the database that the order left.
  pub topup_paid :
      (server : Server) (request : Request) (param : Text) (body : Option (Option TopupRequest))
      (w w' : World) (r : TopupResponse) (payload : Params)
      → (handle_create_wallet_topup g server request param body w).0 ≡ ok r
      → w'.db ≡ (handle_create_wallet_topup g server request param body w).1.db
      → eqb_ℤ (int_field payload (codes "status")) (pos 2) ≡ true
      → account_rows (wallet r.order.wallet_id) w'.db ≡ 1
      → (settle rat set_string same_rat md5_hex server.epusdt payload r.order.id w').0 ≡ ok tt
      → (owner : WalletRecord) × (plan : CreditTopupPlan) × (find_where
            (has_address (to_lower (trim_space param)))
            w.db.wallets
          ≡ some owner)
        × (plan_of (asked_plan body) w.db ≡ some plan)
        × ((a : Account)
            → ledger a
                (settle rat set_string same_rat md5_hex server.epusdt payload r.order.id w').1.db
              ≡ ledger a w.db +ℤ share (wallet owner.id) plan.credits a)
  topup_paid server request param body w w' r payload h after two one paid =
      let (owner, plan, found, chosen, stored) = handle_lem g server request param body w r h in
      let (is, fresh, wrote) = stored in
      let there =
        ap (λ (d : Db). find_where (is_order r.order.id) d.orders) (after ∙ wrote)
        ∙ order_found owner.id plan r.order w.db is fresh in
      (
        owner,
        plan,
        found,
        chosen,
        λ a. grind (
          int_laws,
          settle-ledger rat set_string same_rat md5_hex server.epusdt payload r.order.id w' r.order
              two there one paid a,
          ap (ledger a) (after ∙ wrote),
          ledger-add_order a r.order w.db,
          is.unpaid,
          is.of_wallet,
          is.worth,
        ),
      )
