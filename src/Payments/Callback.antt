-- ===== src/Payments/Callback.antt =====
-- The provider's callback (payments.go: handleEPUSDTCallback, validateEPUSDTPaidCallback).
use lillian_backend.Common.{
  ℕ, pos, eqb_ℤ, Text, codes, text_eq, trim_space, equal_fold, is_nil, not, ◌&&◌, ◌||◌, Bool, true,
  false, Option, none, some, if◌then◌else◌, is_some, find_where, update_where, Exec, pure, raise,
  guard, ◌>>=◌, ◌>>◌,
}
use lillian_backend.Schema.{Db, Params, PaymentOrder, OrderStatus, paid}
use lillian_backend.Sql.{World, SqlError, no_rows, failed, exec, query_row, transaction, time_now}
use lillian_backend.Http.{
  Problem, problem, internal, Server, EpusdtConfig, require_database, read_json,
}
use lillian_backend.Tasks.Refund.{give_credits}
use lillian_backend.Payments.{
  field, int_field, payment_status, is_paid, epusdt_signature, normalize_payment_network,
}

-- The key is there and its value is not blank.
unfoldable pub field_has_value : Params → Text → Bool
unfolding field
field_has_value payload key = not (is_nil (trim_space (field payload key)))

unfoldable pub optional_field_matches : Params → Text → Text → Bool
unfolding field_has_value
optional_field_matches payload key expected =
    if is_nil (trim_space expected) || not (field_has_value payload key)
    then true
    else if text_eq key (codes "network")
    then text_eq (normalize_payment_network (trim_space (field payload key)))
        (normalize_payment_network expected)
    else equal_fold (trim_space (field payload key)) (trim_space expected)

-- The order has a trade id, the callback has one, and they differ.
unfoldable pub trade_id_differs : PaymentOrder → Params → Bool
unfolding field
trade_id_differs order payload =
    not (is_nil (trim_space order.provider_trade_id))
    && not (is_nil (trim_space (field payload (codes "trade_id"))))
    && not (
        text_eq (trim_space (field payload (codes "trade_id")))
          (trim_space order.provider_trade_id))

abbrev pub has_order_id : Text → PaymentOrder → Bool
has_order_id id o = text_eq o.id id

-- provider = $1 AND provider_order_id = $2
abbrev pub is_order : Text → PaymentOrder → Bool
is_order order_id o = text_eq o.provider (codes "epusdt") && text_eq o.provider_order_id order_id

abbrev pub order_problem : SqlError → Problem
order_problem no_rows = problem 404 (codes "充值订单不存在")
order_problem (failed m) = internal (failed m)

-- COALESCE(NULLIF($1, ''), provider_trade_id)
abbrev pub trade_id_or : Text → Text → Text
trade_id_or given kept = if is_nil given then kept else given

abbrev pub note_status : Text → OrderStatus → Params → ℕ → PaymentOrder → PaymentOrder
note_status trade_id status payload now o = record o {
  provider_trade_id = trade_id_or trade_id o.provider_trade_id;
  status = status;
  raw_callback = some payload;
  updated_at = now;
}

unfoldable pub set_status : Text → Text → OrderStatus → Params → ℕ → Db → Db
set_status id trade_id status payload now db = record db {
  orders = update_where (has_order_id id) (note_status trade_id status payload now) db.orders;
}

-- COALESCE(paid_at, $3)
abbrev pub note_paid : Text → Params → ℕ → PaymentOrder → PaymentOrder
note_paid trade_id payload now o = record o {
  provider_trade_id = trade_id_or trade_id o.provider_trade_id;
  status = paid;
  raw_callback = some payload;
  updated_at = now;
  paid_at = if is_some o.paid_at then o.paid_at else some now;
}

unfoldable pub set_paid : Text → Text → Params → ℕ → Db → Db
set_paid id trade_id payload now db = record db {
  orders = update_where (has_order_id id) (note_paid trade_id payload now) db.orders;
}

-- Over big.Rat's SetString and Cmp, and MD5.
module _ (rat : Type 0) (set_string : Text → Option rat) (same_rat : rat → rat → Bool)
    (md5_hex : Text → Text) where
  decimal_rat : Text → Option rat
  decimal_rat value = if is_nil (trim_space value) then none else set_string (trim_space value)

  both_equal : Option rat → Option rat → Bool
  both_equal (some left) (some right) = same_rat left right
  both_equal _ _ = false

  unfoldable pub decimal_equal : Text → Text → Bool
  unfolding decimal_rat both_equal
  decimal_equal a b = both_equal (decimal_rat a) (decimal_rat b)

  abbrev bad_amount : Text
  bad_amount = codes "EPUSDT 回调金额与订单不一致"

  -- The result is none, or the error.
  unfoldable pub validate_amount : Text → Params → Option Text
  unfolding decimal_equal field_has_value
  validate_amount amount payload =
      if field_has_value payload (codes "amount")
      then if decimal_equal (field payload (codes "amount")) amount then none else some bad_amount
      else if field_has_value payload (codes "actual_amount")
      then if decimal_equal (field payload (codes "actual_amount")) amount
        then none
        else some bad_amount
      else some (codes "EPUSDT 回调缺少金额")

  unfoldable pub validate_fields : PaymentOrder → Params → EpusdtConfig → Option Text
  unfolding optional_field_matches trade_id_differs
  validate_fields order payload cfg =
      if not (optional_field_matches payload (codes "pid") cfg.pid)
      then some (codes "EPUSDT 回调商户号与配置不一致")
      else if not (optional_field_matches payload (codes "currency") cfg.currency)
      then some (codes "EPUSDT 回调币种与配置不一致")
      else if not (optional_field_matches payload (codes "token") cfg.token)
      then some (codes "EPUSDT 回调代币与配置不一致")
      else if not (optional_field_matches payload (codes "network") cfg.network)
      then some (codes "EPUSDT 回调网络与配置不一致")
      else if trade_id_differs order payload
      then some (codes "EPUSDT 回调交易号与订单不一致")
      else none

  unfoldable pub validate_paid_callback : PaymentOrder → Params → EpusdtConfig → Option Text
  unfolding validate_amount validate_fields
  validate_paid_callback order payload cfg =
      if not (eqb_ℤ (int_field payload (codes "status")) (pos 2))
      then some (codes "EPUSDT 回调状态不是已支付")
      else elim (validate_amount order.amount_usdt payload) [
        | some e ↦ some e
        | none ↦ validate_fields order payload cfg
      ]

  unfoldable pub refuse : Option Text → Exec Problem World Unit
  refuse none = pure tt
  refuse (some e) = raise (problem 400 e)

  -- UPDATE wallets, when the order is not yet paid.
  unfoldable pub credit_wallet : PaymentOrder → ℕ → Exec Problem World Unit
  credit_wallet order now =
      if not (is_paid order.status)
      then exec internal (λ _. tt) (give_credits order.wallet_id order.credits now)
      else pure tt

  unfoldable pub pay_order : Params → PaymentOrder → ℕ → Exec Problem World Unit
  unfolding credit_wallet set_paid
  pay_order payload order now = do
    credit_wallet order now
    exec internal (λ _. tt)
        (set_paid order.id (trim_space (field payload (codes "trade_id"))) payload now)

  unfoldable pub settle_paid : EpusdtConfig → Params → PaymentOrder → ℕ → Exec Problem World Unit
  unfolding validate_paid_callback refuse pay_order
  settle_paid cfg payload order now = do
    refuse (validate_paid_callback order payload cfg)
    pay_order payload order now

  -- What follows the look-up of the order.
  unfoldable pub settle_order : EpusdtConfig → Params → PaymentOrder → ℕ → Exec Problem World Unit
  unfolding settle_paid set_status
  settle_order cfg payload order now =
      if not (eqb_ℤ (int_field payload (codes "status")) (pos 2))
      then exec internal (λ _. tt)
          (set_status order.id (trim_space (field payload (codes "trade_id")))
            (payment_status (int_field payload (codes "status"))) payload now)
      else settle_paid cfg payload order now

  -- The statements between Begin and Commit.
  unfoldable pub settle : EpusdtConfig → Params → Text → Exec Problem World Unit
  unfolding settle_order
  settle cfg payload order_id = do
    order ← query_row order_problem (λ db. find_where (is_order order_id) db.orders)
    now ← time_now
    settle_order cfg payload order now

  unfoldable pub handle_epusdt_callback : Server → Option Params → Exec Problem World Unit
  unfolding settle
  handle_epusdt_callback server request = do
    require_database server
    guard (not (is_nil (trim_space server.epusdt.secret_key)))
        (problem 503 (codes "EPUSDT secret key is not configured"))
    payload ← read_json request
    let signature = trim_space (field payload (codes "signature"))
    guard (not (is_nil signature)) (problem 400 (codes "EPUSDT 回调缺少签名"))
    guard (text_eq (epusdt_signature md5_hex payload server.epusdt.secret_key) signature)
        (problem 401 (codes "EPUSDT 回调签名无效"))
    let order_id = trim_space (field payload (codes "order_id"))
    guard (not (is_nil order_id)) (problem 400 (codes "EPUSDT 回调缺少订单号"))
    transaction internal (settle server.epusdt payload order_id)
