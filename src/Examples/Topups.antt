-- ===== src/Examples/Topups.antt =====
-- The theorem on top-ups, at a plan of ten USDT. The provider answers with a trade; amounts are
-- read as whole numbers, and the digest of a text is the text.
use lillian_backend.Common.{
  ℕ, ltb, ℤ, pos, eqb_ℤ, ◌+ℤ◌, ◌≡◌, refl, Text, codes, trim_space, to_lower, decimal, parse_digits,
  Bool, true, false, Option, none, some, [], ◌∷◌, ◌++◌, ok, find_where,
}
use lillian_backend.Schema.{Params, Json, CreditTopupPlan, WalletRecord, PaymentOrder}
use lillian_backend.Sql.{World}
use lillian_backend.Sql.Rules.{Keeps}
use lillian_backend.Payments.Plans.{Amounts, PlanRequest, handle_upsert_topup_plan}
use lillian_backend.Payments.Plans.Default.{IsValid, handle_upsert_topup_plan-IsValid}
use lillian_backend.Http.{Server}
use lillian_backend.Http.Urls.{Request}
use lillian_backend.Tasks.Recover.{Account, wallet}
use lillian_backend.Tasks.Ledger.{ledger, share}
use lillian_backend.Payments.{int_field}
use lillian_backend.Payments.Catalog.{plan_of}
use lillian_backend.Payments.Callback.{settle}
use lillian_backend.Payments.Topup.{
  Gateway, TopupRequest, TopupResponse, handle_create_wallet_topup, ordered,
}
use lillian_backend.Wallets.{WalletSnapshot}
use lillian_backend.Wallets.Handlers.{public_wallet}
use lillian_backend.Payments.Topup.Ordered.{has_address, asked_plan}
use lillian_backend.Payments.Topup.Paid.{topup_paid}
use lillian_backend.Examples.Payments.{digest, same_number}
use lillian_backend.Examples.{a_database, a_server, a_wallet, sd, world_of, wallet_address}

abbrev a_plan : CreditTopupPlan
a_plan = record {
  id = codes "ten";
  label = codes "10 USDT = 200 credits";
  amount_usdt = codes "10";
  credits = pos 200;
  is_default = true;
  enabled = true;
  sort_order = pos 10;
  note = [];
  created_at = 1;
  updated_at = 1;
}

abbrev a_trade : Params
a_trade =
    (codes "trade_id", Json.str (codes "T1"))
    ∷ (codes "payment_url", Json.str (codes "https://pay.example/T1"))
    ∷ []

abbrev a_gateway : Gateway
a_gateway = record {
  float = ℕ;
  parse_float = parse_digits;
  is_positive = λ n. ltb 0 n;
  number = λ n. Json.num (decimal n) (decimal n) (pos n);
  post = λ url p. ok (record { status_code = 200; body = [] });
  decode = λ s. ok (a_trade, none);
  md5_hex = digest;
}

abbrev pub a_request : Request
a_request = record {
  forwarded_proto = [];
  forwarded_host = [];
  host = codes "one.example";
  tls = true;
  query_address = [];
  header_address = [];
}

abbrev plan_world : World
plan_world = world_of (record a_database { plans = a_plan ∷ []; orders = [] })

abbrev the_order : PaymentOrder
the_order =
    ordered a_gateway (codes "LILPAYu1") a_wallet a_plan
      (record { trade_id = codes "T1"; payment_url = codes "https://pay.example/T1" })
      (codes "https://pay.example/T1") 100

abbrev the_response : TopupResponse
the_response = record {
  order = the_order;
  wallet = public_wallet (record {
    wallet = a_wallet;
    entitlements =
        record {
          service_code = sd;
          label = codes "SD 1K";
          remaining = pos 3;
          max_concurrent = pos 2;
        }
        ∷ [];
  });
}

topped_up :
    (handle_create_wallet_topup a_gateway a_server a_request wallet_address none plan_world).0
    ≡ ok the_response
unfolding handle_create_wallet_topup lillian_backend.Common.◌>>=◌ lillian_backend.Sql.steps
    lillian_backend.Http.require_wallet_store lillian_backend.Http.require_database
    lillian_backend.Wallets.is_wallet_address to_lower trim_space
    lillian_backend.Wallets.wallet_by_address lillian_backend.Sql.fault find_where
    lillian_backend.Common.text_eq lillian_backend.Sql.later_faults
    lillian_backend.Payments.Catalog.credit_topup_plan lillian_backend.Common.Sorting.order_by
    lillian_backend.Common.select_where parse_digits lillian_backend.Sql.next_uuid
    lillian_backend.Sql.later_uuids lillian_backend.Wallets.entitlements_of
    lillian_backend.Wallets.snapshot lillian_backend.Wallets.service_label public_wallet decimal
    lillian_backend.Common.trim_right_of lillian_backend.Sql.reading lillian_backend.Sql.later_clock
topped_up = refl

abbrev topped_world : World
topped_world = world_of (record a_database { plans = a_plan ∷ []; orders = the_order ∷ [] })

stored :
    topped_world.db
    ≡ (handle_create_wallet_topup a_gateway a_server a_request wallet_address none plan_world).1.db
unfolding handle_create_wallet_topup lillian_backend.Common.◌>>=◌ lillian_backend.Sql.steps
    lillian_backend.Http.require_wallet_store lillian_backend.Http.require_database
    lillian_backend.Wallets.is_wallet_address to_lower trim_space
    lillian_backend.Wallets.wallet_by_address lillian_backend.Sql.fault find_where
    lillian_backend.Common.text_eq lillian_backend.Sql.later_faults
    lillian_backend.Payments.Catalog.credit_topup_plan lillian_backend.Common.Sorting.order_by
    lillian_backend.Common.select_where parse_digits lillian_backend.Sql.next_uuid
    lillian_backend.Sql.later_uuids lillian_backend.Wallets.entitlements_of
    lillian_backend.Wallets.snapshot lillian_backend.Wallets.service_label public_wallet decimal
    lillian_backend.Common.trim_right_of lillian_backend.Sql.reading lillian_backend.Sql.later_clock
    ordered lillian_backend.Payments.Topup.add_order
stored = refl

abbrev a_payment : Params
a_payment =
    (codes "order_id", Json.str (codes "LILPAYu1"))
    ∷ (codes "status", Json.str (codes "2"))
    ∷ (codes "amount", Json.str (codes "10"))
    ∷ []

says_paid : eqb_ℤ (int_field a_payment (codes "status")) (pos 2) ≡ true
unfolding int_field lillian_backend.Common.text_eq trim_space parse_digits
says_paid = refl

settled :
    (settle ℕ parse_digits same_number digest a_server.epusdt a_payment
      (codes "LILPAYu1")
      topped_world).0
    ≡ ok tt
unfolding settle lillian_backend.Common.◌>>=◌ lillian_backend.Sql.query_row
    lillian_backend.Sql.fault find_where lillian_backend.Common.text_eq lillian_backend.Sql.time_now
    int_field trim_space parse_digits lillian_backend.Sql.exec lillian_backend.Sql.later_faults
    ordered
settled = refl

topup_paid_example :
    (owner : WalletRecord) × (plan : CreditTopupPlan) × (find_where
        (has_address (to_lower (trim_space wallet_address)))
        plan_world.db.wallets
      ≡ some owner)
    × (plan_of (asked_plan none) plan_world.db ≡ some plan)
    × ((a : Account)
        → ledger a
            (settle ℕ parse_digits same_number digest a_server.epusdt a_payment
              the_response.order.id topped_world).1.db
          ≡ ledger a plan_world.db +ℤ share (wallet owner.id) plan.credits a)
unfolding ordered lillian_backend.Common.count_where lillian_backend.Common.text_eq
topup_paid_example =
    topup_paid a_gateway ℕ parse_digits same_number digest a_server a_request wallet_address none
      plan_world topped_world the_response a_payment topped_up stored says_paid refl settled

abbrev pub the_amounts : Amounts
the_amounts = record {
  float = ℕ;
  parse_float = parse_digits;
  is_positive = λ n. ltb 0 n;
  two_decimals = λ n. decimal n ++ codes ".00";
  numeric = λ n. decimal n ++ codes ".00";
}

-- A second default, of twenty USDT.
abbrev a_plan_request : PlanRequest
a_plan_request = record {
  id = [];
  label = [];
  amount_usdt = codes "20";
  credits = pos 450;
  is_default = some true;
  enabled = none;
  sort_order = pos 0;
  note = [];
}

handle_upsert_topup_plan-IsValid_example :
    Keeps
      (λ d e. IsValid d.plans → IsValid e.plans)
      (handle_upsert_topup_plan the_amounts a_server (codes "Bearer admin") (some a_plan_request))
handle_upsert_topup_plan-IsValid_example =
    handle_upsert_topup_plan-IsValid the_amounts a_server (codes "Bearer admin")
      (some a_plan_request)
