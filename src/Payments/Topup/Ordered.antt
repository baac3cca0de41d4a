-- ===== src/Payments/Topup/Ordered.antt =====
-- What a top-up that is ordered stores, and what its payment brings (payments.go:
-- handleCreateWalletTopup, then handleEPUSDTCallback).
use lillian_backend.Common.{
  ◌≡◌, refl, ap, sym, ◌∙◌, Text, codes, text_eq, trim_space, to_lower, Bool, false, Option, none,
  some, [], find_where, pure, or_raise, Result, ok, err, subst, arith,
}
use lillian_backend.Schema.{Db, PaymentOrder, OrderStatus, CreditTopupPlan, WalletRecord}
use lillian_backend.Sql.{World, map_error}
use lillian_backend.Sql.Rules.{Keeps, Keeps-map_error, keeps_rules}
use lillian_backend.Sql.Success.{
  bind_ok, read_ok, pure_ok, insert_then, query_row_ok, map_error_ok, same_database,
}
use lillian_backend.Http.{
  EpusdtConfig, internal, read_json, Server, require_database, require_wallet_store, wallet_problem,
}
use lillian_backend.Http.Urls.{Request}
use lillian_backend.Wallets.{WalletSnapshot, wallet_by_address, snapshot}
use lillian_backend.Wallets.Reads.{wallet_by_address-Keeps}
use lillian_backend.Payments.Catalog.{credit_topup_plan, plan_of}
use lillian_backend.Payments.Topup.{
  Gateway, plan_problem, EpusdtTransaction, answered, ordered, TopupRequest, TopupResponse,
  order_conflicts, add_order, order_topup, handle_create_wallet_topup, random_payment_order_id,
  read_topup, require_epusdt_config,
}

-- The order is what the wallet and the plan say, and is not yet paid.
pub record IsOrderOf (wallet_id : Text) (plan : CreditTopupPlan) (o : PaymentOrder) : Type 0 where
  pub of_wallet : o.wallet_id ≡ wallet_id
  pub of_provider : o.provider ≡ codes "epusdt"
  pub same_id : o.provider_order_id ≡ o.id
  pub price : o.amount_usdt ≡ plan.amount_usdt
  pub worth : o.credits ≡ plan.credits
  pub unpaid : o.status ≡ OrderStatus.created

abbrev Ordered : Text → CreditTopupPlan → Db → TopupResponse → Db → Type 0
Ordered wallet_id plan d r e =
    IsOrderOf wallet_id plan r.order
    × (order_conflicts r.order d ≡ false)
    × (e ≡ add_order r.order d)

Ordered-from :
    (wallet_id : Text) (plan : CreditTopupPlan) (d d' : Db) (a r : TopupResponse) (e : Db)
    → d' ≡ d
    → a ≡ r
    → Ordered wallet_id plan d' a e
    → Ordered wallet_id plan d r e
Ordered-from wallet_id plan d d' a r e p q h =
    subst (λ x. Ordered wallet_id plan x r e) p (subst (λ x. Ordered wallet_id plan d' x e) q h)

module _ (g : Gateway) where
  answered-Keeps : (t : Result Text EpusdtTransaction) → Keeps (λ d e. d ≡ e) (answered g t)
  answered-Keeps (ok t) = search (keeps_rules, same_database)
  answered-Keeps (err e) = search (keeps_rules, same_database)

  random_payment_order_id-Keeps : Keeps (λ d e. d ≡ e) random_payment_order_id
  unfolding random_payment_order_id
  random_payment_order_id-Keeps = search (keeps_rules, same_database)

  order_topup_lem :
      (server : Server) (request : Request) (url : Text) (s : WalletSnapshot)
      (plan : CreditTopupPlan) (w : World) (r : TopupResponse)
      → (order_topup g server request url s plan w).0 ≡ ok r
      → Ordered s.wallet.id plan w.db r (order_topup g server request url s plan w).1.db
  unfolding order_topup ordered
  order_topup_lem server request url s plan w r h =
      let (amount, w1, p1, d1, s1, h1) = read_ok _ _ w r (search (keeps_rules, same_database)) h in
      let (id, w2, p2, d2, s2, h2) = read_ok _ _ w1 r random_payment_order_id-Keeps h1 in
      let (now, w3, p3, d3, s3, h3) = read_ok _ _ w2 r (search (keeps_rules, same_database)) h2 in
      let (t, w4, p4, d4, s4, h4) = read_ok _ _ w3 r (answered-Keeps _) h3 in
      let (u, w5, p5, d5, s5, h5) = read_ok _ _ w4 r (search (keeps_rules, same_database)) h4 in
      let (same, fresh, wrote) = insert_then internal _ _ _ r w5 h5 in
      Ordered-from s.wallet.id plan w.db w5.db _ r _ (d5 ∙ d4 ∙ d3 ∙ d2 ∙ d1) same (
        record {
          of_wallet = refl;
          of_provider = refl;
          same_id = refl;
          price = refl;
          worth = refl;
          unpaid = refl;
        },
        fresh,
        ap (λ x. x.1.db) (s1 ∙ s2 ∙ s3 ∙ s4 ∙ s5) ∙ wrote,
      )

  plan-Keeps :
      (id : Text) → Keeps (λ d e. d ≡ e) (map_error (plan_problem g) (credit_topup_plan id))
  unfolding credit_topup_plan
  plan-Keeps id = search (keeps_rules, same_database)

  plan_found :
      (id : Text) (w : World) (plan : CreditTopupPlan)
      → (map_error (plan_problem g) (credit_topup_plan id) w).0 ≡ ok plan
      → plan_of id w.db ≡ some plan
  unfolding credit_topup_plan
  plan_found id w plan h =
      query_row_ok (λ e. e) (plan_of id) w plan (map_error_ok _ (credit_topup_plan id) w plan h)

-- The wallet with an address, as wallet_by_address looks for it.
abbrev pub has_address : Text → WalletRecord → Bool
has_address address r = text_eq r.address (to_lower (trim_space address))

wallet_found :
    (address : Text) (w : World) (s : WalletSnapshot)
    → (map_error wallet_problem (wallet_by_address address) w).0 ≡ ok s
    → find_where (has_address address) w.db.wallets ≡ some s.wallet
unfolding wallet_by_address snapshot
wallet_found address w s h =
    let (x, found, rest) = bind_ok _ _ w s (map_error_ok _ (wallet_by_address address) w s h) in
    let (es, listed, last) = bind_ok _ _ _ s rest in
    query_row_ok _ _ w x found ∙ ap (λ (x : WalletSnapshot). some x.wallet) (pure_ok _ s _ last)

read_topup-Keeps : (body : Option (Option TopupRequest)) → Keeps (λ d e. d ≡ e) (read_topup body)
unfolding read_topup read_json
read_topup-Keeps none = search (keeps_rules, same_database)
read_topup-Keeps (some body) = search (keeps_rules, same_database)

-- The plan that the body asks for by name, if any.
abbrev pub asked_plan : Option (Option TopupRequest) → Text
asked_plan none = []
asked_plan (some none) = []
asked_plan (some (some b)) = b.plan_id

read_topup-asked :
    (body : Option (Option TopupRequest)) (w : World) (b : TopupRequest)
    → (read_topup body w).0 ≡ ok b
    → asked_plan body ≡ b.plan_id
unfolding read_topup read_json pure or_raise
read_topup-asked none w b h = ground arith
read_topup-asked (some none) w b h = cc
read_topup-asked (some (some x)) w b h = ground arith

config-Keeps : (cfg : EpusdtConfig) → Keeps (λ d e. d ≡ e) (require_epusdt_config cfg)
unfolding require_epusdt_config
config-Keeps cfg = search (keeps_rules, same_database)

module _ (g : Gateway) where
  pub handle_lem :
      (server : Server) (request : Request) (param : Text) (body : Option (Option TopupRequest))
      (w : World) (r : TopupResponse)
      → (handle_create_wallet_topup g server request param body w).0 ≡ ok r
      → (owner : WalletRecord) × (plan : CreditTopupPlan) × (find_where
            (has_address (to_lower (trim_space param)))
            w.db.wallets
          ≡ some owner)
        × (plan_of (asked_plan body) w.db ≡ some plan)
        × Ordered owner.id plan w.db r
            (handle_create_wallet_topup g server request param body w).1.db
  unfolding handle_create_wallet_topup require_database require_wallet_store
  handle_lem server request param body w r h =
      let (u, w1, p1, d1, s1, h1) = read_ok _ _ w r (search (keeps_rules, same_database)) h in
      let (u2, w2, p2, d2, s2, h2) = read_ok _ _ w1 r (search (keeps_rules, same_database)) h1 in
      let (u3, w3, p3, d3, s3, h3) = read_ok _ _ w2 r (search (keeps_rules, same_database)) h2 in
      let (u4, w4, p4, d4, s4, h4) = read_ok _ _ w3 r (config-Keeps server.epusdt) h3 in
      let (b, w5, p5, d5, s5, h5) = read_ok _ _ w4 r (read_topup-Keeps body) h4 in
      let (s, w6, p6, d6, s6, h6) =
        read_ok _ _ w5 r
          (Keeps-map_error same_database _ _ (wallet_by_address-Keeps same_database _)) h5 in
      let (plan, w7, p7, d7, s7, h7) = read_ok _ _ w6 r (plan-Keeps g _) h6 in
      let e5 = d5 ∙ d4 ∙ d3 ∙ d2 ∙ d1 in
      (
        s.wallet,
        plan,
        ap (λ (d : Db). find_where (has_address (to_lower (trim_space param))) d.wallets) (sym e5)
            ∙ wallet_found _ w5 s p6,
        ap (λ x. plan_of x w.db) (read_topup-asked body w4 b p5)
            ∙ ap (plan_of b.plan_id) (sym (d6 ∙ e5))
            ∙ plan_found g b.plan_id w6 plan p7,
        Ordered-from s.wallet.id plan w.db w7.db r r _ (d7 ∙ d6 ∙ e5) refl (
            subst (λ x. Ordered s.wallet.id plan w7.db r x)
              (ap (λ x. x.1.db) (sym (s1 ∙ s2 ∙ s3 ∙ s4 ∙ s5 ∙ s6 ∙ s7)))
              (order_topup_lem g server request b.redirect_url s plan w7 r h7)),
      )
