-- ===== src/Payments/Topup.antt =====
-- A top-up is ordered (payments.go: handleCreateWalletTopup, createEPUSDTTransaction,
-- requireEPUSDTConfig, randomPaymentOrderID). The columns raw_request and raw_response, which
-- nothing reads, are left out.
pub mod Ordered
pub mod Paid
use lillian_backend.Common.{
  ℕ, ltb, ◌==◌, ℤ, pos, eqb_ℤ, Text, codes, text_eq, trim_space, trim_right_of, to_lower, is_nil,
  or_text, decimal, leb, not, ◌&&◌, ◌||◌, Bool, true, false, Option, none, some, List, [], ◌∷◌,
  ◌++◌, if◌then◌else◌, is_some, find_where, Exec, Result, ok, err, pure, raise, guard, or_raise,
  ◌>>=◌, ◌>>◌,
}
use lillian_backend.Schema.{
  Db, Json, str, Params, PaymentOrder, OrderStatus, CreditTopupPlan, WalletRecord,
}
use lillian_backend.Sql.{World, SqlError, no_rows, failed, insert, map_error, time_now, random_id}
use lillian_backend.Http.{
  Problem, problem, internal, Server, EpusdtConfig, require_database, require_wallet_store,
  read_json, wallet_problem,
}
use lillian_backend.Http.Urls.{Request, public_base_url}
use lillian_backend.Wallets.{WalletSnapshot, wallet_by_address, is_wallet_address}
use lillian_backend.Wallets.Handlers.{WalletResponse, public_wallet}
use lillian_backend.Payments.{field, int_field, epusdt_signature, remove_code}
use lillian_backend.Admin.Texts.{first_non_empty}
use lillian_backend.Payments.Catalog.{credit_topup_plan}

abbrev config_problem : Text → Exec Problem World Unit
config_problem message = raise (problem 503 message)

unfoldable pub require_epusdt_config : EpusdtConfig → Exec Problem World Unit
require_epusdt_config cfg =
    if is_nil (trim_space cfg.base_url)
    then config_problem (codes "EPUSDT_BASE_URL is not configured")
    else if is_nil (trim_space cfg.pid)
    then config_problem (codes "EPUSDT_PID is not configured")
    else if is_nil (trim_space cfg.secret_key)
    then config_problem (codes "EPUSDT_SECRET_KEY is not configured")
    else pure tt

-- The random source gives the base64 text of the twelve bytes.
unfoldable pub random_payment_order_id : Exec Problem World Text
unfolding remove_code
random_payment_order_id = do
  token ← random_id (problem 500 (codes "random source failed"))
  pure (remove_code b'_' (codes "LILPAY_" ++ token))

pub record TopupRequest : Type 0 where
  pub plan_id : Text
  pub redirect_url : Text

-- A request with no body asks for no plan by name.
unfoldable pub read_topup : Option (Option TopupRequest) → Exec Problem World TopupRequest
read_topup none = pure (record { plan_id = []; redirect_url = [] })
read_topup (some body) = read_json body

pub record HttpResponse : Type 0 where
  pub status_code : ℕ
  pub body : Text

pub record EpusdtTransaction : Type 0 where
  pub trade_id : Text
  pub payment_url : Text

abbrev trimmed_field : Params → Text → Text
trimmed_field p key = trim_space (field p key)

abbrev data_of : Params × Option Params → Params
data_of (decoded, none) = decoded
data_of (decoded, some inner) = inner

unfoldable pub transaction_in : Params → EpusdtTransaction
unfolding field first_non_empty
transaction_in p = record {
  trade_id = trimmed_field p (codes "trade_id");
  payment_url = first_non_empty (
      trimmed_field p (codes "payment_url")
      ∷ trimmed_field p (codes "pay_url")
      ∷ trimmed_field p (codes "checkout_url")
      ∷ trimmed_field p (codes "url")
      ∷ trimmed_field p (codes "code_url")
      ∷ []);
}

-- What the answer is read as: its object, and the object under "data" where there is one.
unfoldable pub transaction_of : Params × Option Params → Result Text EpusdtTransaction
unfolding field int_field transaction_in
transaction_of answer =
    let decoded = answer.0 in
    let code = int_field decoded (codes "status_code") in
    if not (eqb_ℤ code (pos 0)) && not (eqb_ℤ code (pos 200))
    then err (or_text (trimmed_field decoded (codes "message")) (codes "EPUSDT 创建订单失败"))
    else ok (transaction_in (data_of answer))

abbrev order_conflicts : PaymentOrder → Db → Bool
order_conflicts o db = is_some (
    find_where (λ p. text_eq p.id o.id || text_eq p.provider_order_id o.provider_order_id)
      db.orders)

unfoldable pub add_order : PaymentOrder → Db → Db
add_order o db = record db { orders = db.orders ++ o ∷ [] }

pub record TopupResponse : Type 0 where
  pub order : PaymentOrder
  pub wallet : WalletResponse

-- What the handler uses of the outside: strconv.ParseFloat with the test that the amount is above
-- zero, the JSON number of an amount, the POST of a payload to an address, and the JSON decoder,
-- with the object under the key "data".
pub record Gateway : Type 1 where
  pub float : Type 0
  pub parse_float : Text → Option float
  pub is_positive : float → Bool
  pub number : float → Json
  pub post : Text → Params → Result Text HttpResponse
  pub decode : Text → Result Text (Params × Option Params)
  pub md5_hex : Text → Text

module _ (g : Gateway) where
  abbrev amount_of_text : Text → Option g.float
  amount_of_text s = elim (g.parse_float s) [
    | none ↦ none
    | some x ↦ if g.is_positive x then some x else none
  ]

  unfoldable pub read_answer : HttpResponse → Result Text EpusdtTransaction
  unfolding transaction_of
  read_answer r =
      if ltb r.status_code 200 || leb 300 r.status_code
      then err (
          codes "EPUSDT 创建订单失败：HTTP "
          ++ (decimal r.status_code ++ (codes " " ++ trim_space r.body)))
      else elim (g.decode r.body) [ err e ↦ err e | ok p ↦ transaction_of p ]

  unfoldable pub create_epusdt_transaction : EpusdtConfig → Params → Result Text EpusdtTransaction
  unfolding read_answer
  create_epusdt_transaction cfg payload =
      elim (g.post
        (trim_right_of b'/' cfg.base_url ++ codes "/payments/gmpay/v1/order/create-transaction")
        payload) [ err e ↦ err e | ok r ↦ read_answer r ]

  -- The fields that are sent, without and with the signature.
  unfoldable pub unsigned_fields :
      Server → Request → Text → CreditTopupPlan → g.float → Text → Params
  unfolding public_base_url
  unsigned_fields server request order_id plan amount redirect_url =
      (codes "pid", str server.epusdt.pid)
      ∷ (codes "order_id", str order_id)
      ∷ (codes "currency", str (to_lower server.epusdt.currency))
      ∷ (codes "token", str (to_lower server.epusdt.token))
      ∷ (codes "network", str (to_lower server.epusdt.network))
      ∷ (codes "amount", g.number amount)
      ∷ (
        codes "notify_url",
        str (public_base_url server request ++ codes "/api/payments/epusdt/callback"),
      )
      ∷ (codes "redirect_url", str (trim_space redirect_url))
      ∷ (codes "name", str plan.label)
      ∷ (codes "payment_type", str (codes "lillian-credits"))
      ∷ []

  unfoldable pub signed_fields : EpusdtConfig → Params → Params
  signed_fields cfg p =
      p ++ (codes "signature", str (epusdt_signature g.md5_hex p cfg.secret_key)) ∷ []

  abbrev checkout_url : EpusdtConfig → EpusdtTransaction → Text
  checkout_url cfg t =
      if is_nil t.payment_url && not (is_nil t.trade_id)
      then trim_right_of b'/' cfg.base_url ++ (codes "/pay/checkout-counter/" ++ t.trade_id)
      else t.payment_url

  unfoldable pub ordered :
      Text → WalletRecord → CreditTopupPlan → EpusdtTransaction → Text → ℕ → PaymentOrder
  ordered id wallet plan t url now = record {
    id = id;
    wallet_id = wallet.id;
    provider = codes "epusdt";
    provider_order_id = id;
    provider_trade_id = t.trade_id;
    plan_id = plan.id;
    amount_usdt = plan.amount_usdt;
    credits = plan.credits;
    status = OrderStatus.created;
    checkout_url = url;
    raw_callback = none;
    created_at = now;
    updated_at = now;
    paid_at = none;
  }

  abbrev pub plan_problem : SqlError → Problem
  plan_problem no_rows = problem 404 (codes "充值套餐不可用")
  plan_problem (failed m) = internal (failed m)

  abbrev pub answered : Result Text EpusdtTransaction → Exec Problem World EpusdtTransaction
  answered (ok t) = pure t
  answered (err e) = raise (problem 502 e)

  -- What follows the choice of the plan.
  unfoldable pub order_topup :
      Server → Request → Text → WalletSnapshot → CreditTopupPlan → Exec Problem World TopupResponse
  unfolding random_payment_order_id create_epusdt_transaction unsigned_fields signed_fields ordered
      add_order public_wallet
  order_topup server request redirect_url wallet plan = do
    amount ← or_raise (amount_of_text plan.amount_usdt) (problem 500 (codes "充值套餐金额配置无效"))
    id ← random_payment_order_id
    now ← time_now
    t ← answered (
        create_epusdt_transaction server.epusdt (
          signed_fields server.epusdt (unsigned_fields server request id plan amount redirect_url)))
    let url = checkout_url server.epusdt t
    guard (not (is_nil url)) (problem 502 (codes "EPUSDT 未返回支付地址"))
    let order = ordered id wallet.wallet plan t url now
    insert internal (order_conflicts order) (add_order order)
    pure (record { order = order; wallet = public_wallet wallet })

  unfoldable pub handle_create_wallet_topup :
      Server → Request → Text → Option (Option TopupRequest) → Exec Problem World TopupResponse
  unfolding require_epusdt_config read_topup order_topup
  handle_create_wallet_topup server request param body = do
    require_wallet_store server
    require_database server
    guard (is_wallet_address (to_lower (trim_space param))) (problem 400 (codes "钱包地址格式无效"))
    require_epusdt_config server.epusdt
    b ← read_topup body
    wallet ← map_error wallet_problem (wallet_by_address (to_lower (trim_space param)))
    plan ← map_error plan_problem (credit_topup_plan b.plan_id)
    order_topup server request b.redirect_url wallet plan
