-- ===== src/Payments/Catalog.antt =====
-- The prices of services and the plans of top-ups (payments.go), as the tables that billing and
-- top-ups read. Payments.Plans has the handler that writes a plan.
pub mod Prices
use Prim.Native.Nat.{Ordering, compare}
use lillian_backend.Common.{
  ℕ, ℤ, pos, Text, codes, text_eq, trim_space, to_lower, to_upper, is_nil, trim_left_of,
  trim_right_of, leb, not, ◌&&◌, ◌||◌, Bool, true, false, Option, none, some, List, [], ◌∷◌, ◌++◌,
  map, if◌then◌else◌, is_some, select_where, find_where, update_where, Exec, Result, ok, err, pure,
  raise, guard, ◌>>=◌, ◌>>◌,
}
use lillian_backend.Common.Sorting.{compare_ℤ, compare_text, ◌then_by◌, order_by}
use lillian_backend.Common.Sorting.First.{first}
use lillian_backend.Schema.{Db, ServiceCreditPrice, CreditTopupPlan}
use lillian_backend.Sql.{World, SqlError, insert, query, query_row, time_now}
use lillian_backend.Numbers.{positive_or}
use lillian_backend.Wallets.{service_code_image2_sd, service_code_image2_hd}
use lillian_backend.Http.{
  Problem, problem, internal, Server, require_database, require_admin, read_json,
}

unfoldable pub supported_price : Text → Text → Bool
supported_price service_code billing_key =
    let code = trim_space service_code in
    let key = to_upper (trim_space billing_key) in
    if text_eq code service_code_image2_sd
    then text_eq key (codes "1K")
    else if text_eq code service_code_image2_hd
    then text_eq key (codes "HD")
    else false

abbrev pub is_id_code : ℕ → Bool
is_id_code c = (leb b'a' c && leb c b'z') || (leb b'0' c && leb c b'9')

abbrev pub id_code : ℕ → ℕ
id_code c = if is_id_code c then c else b'-'

-- safeIDPart
unfoldable pub safe_id_part : Text → Text
safe_id_part value =
    let result =
      trim_right_of b'-' (trim_left_of b'-' (map id_code (to_lower (trim_space value)))) in
    if is_nil result then codes "item" else result

pub record PriceRequest : Type 0 where
  pub id : Text
  pub service_code : Text
  pub billing_key : Text
  pub credit_units : ℤ
  pub enabled : Option Bool
  pub note : Text

abbrev pub is_price_of : Text → Text → ServiceCreditPrice → Bool
is_price_of code key p = text_eq p.service_code code && text_eq p.billing_key key

abbrev or_true : Option Bool → Bool
or_true none = true
or_true (some b) = b

-- The row that the request asks for, with its service code and its billing key.
unfoldable pub wanted_price : PriceRequest → Text → Text → ℕ → ServiceCreditPrice
unfolding safe_id_part positive_or
wanted_price body code key now = record {
  id =
      if is_nil (trim_space body.id)
      then codes "service-credit-" ++ (safe_id_part code ++ (codes "-" ++ safe_id_part key))
      else trim_space body.id;
  service_code = code;
  billing_key = key;
  credit_units = positive_or body.credit_units (pos 1);
  enabled = or_true body.enabled;
  note = trim_space body.note;
  created_at = now;
  updated_at = now;
}

-- ON CONFLICT (service_code, billing_key) DO UPDATE
abbrev pub reprice : ServiceCreditPrice → ServiceCreditPrice → ServiceCreditPrice
reprice wanted p = record p {
  credit_units = wanted.credit_units;
  enabled = wanted.enabled;
  note = wanted.note;
  updated_at = wanted.updated_at;
}

unfoldable pub upsert_price : ServiceCreditPrice → Db → Db
upsert_price wanted db = record db {
  prices =
      if is_some (find_where (is_price_of wanted.service_code wanted.billing_key) db.prices)
      then update_where (is_price_of wanted.service_code wanted.billing_key) (reprice wanted)
          db.prices
      else db.prices ++ wanted ∷ [];
}

-- Another row has the id, where the row is new.
unfoldable pub price_conflicts : ServiceCreditPrice → Db → Bool
price_conflicts wanted db =
    not (is_some (find_where (is_price_of wanted.service_code wanted.billing_key) db.prices))
    && is_some (find_where (λ p. text_eq p.id wanted.id) db.prices)

-- The header Authorization and the body. The response is the row as it is stored.
unfoldable pub handle_upsert_price : Server → Text → Option PriceRequest → Exec Problem World Unit
unfolding supported_price wanted_price upsert_price price_conflicts
handle_upsert_price server authorization request = do
  require_admin server authorization
  require_database server
  body ← read_json request
  let code = trim_space body.service_code
  let key = to_upper (trim_space body.billing_key)
  guard (not (is_nil code || is_nil key)) (problem 400 (codes "服务代码和计费键为必填"))
  guard (supported_price code key) (problem 400 (codes "当前仅支持配置 SD 1K 和 HD 2K/4K 的 credits 价格"))
  now ← time_now
  insert internal (price_conflicts (wanted_price body code key now))
      (upsert_price (wanted_price body code key now))

-- The comparison of a DESC column of Booleans: true comes first.
abbrev true_first : Bool → Bool → Ordering
true_first true true = Ordering.eq
true_first true false = Ordering.lt
true_first false true = Ordering.gt
true_first false false = Ordering.eq

-- is_default DESC, sort_order, id
unfoldable pub compare_plans : CreditTopupPlan → CreditTopupPlan → Ordering
compare_plans a b =
    true_first a.is_default b.is_default
    then_by compare_ℤ a.sort_order b.sort_order
    then_by compare_text a.id b.id

-- sort_order, id
unfoldable pub compare_sort_orders : CreditTopupPlan → CreditTopupPlan → Ordering
compare_sort_orders a b = compare_ℤ a.sort_order b.sort_order then_by compare_text a.id b.id

-- creditTopupPlan: the plan with the id, or the first of the enabled ones.
unfoldable pub plan_of : Text → Db → Option CreditTopupPlan
unfolding compare_plans compare_sort_orders
plan_of id db =
    if is_nil (trim_space id)
    then first (order_by compare_plans (select_where (λ p. p.enabled) db.plans))
    else first (
        order_by compare_sort_orders
          (select_where (λ p. p.enabled && text_eq p.id (trim_space id)) db.plans))

unfoldable pub credit_topup_plan : Text → Exec SqlError World CreditTopupPlan
unfolding plan_of
credit_topup_plan id = query_row (λ e. e) (plan_of id)

unfoldable pub enabled_topup_plans : Exec SqlError World (List CreditTopupPlan)
unfolding compare_plans
enabled_topup_plans =
    query (λ e. e) (λ db. order_by compare_plans (select_where (λ p. p.enabled) db.plans))

-- ORDER BY enabled DESC, is_default DESC, sort_order, id
abbrev compare_all_plans : CreditTopupPlan → CreditTopupPlan → Ordering
compare_all_plans a b = true_first a.enabled b.enabled then_by compare_plans a b

unfoldable pub credit_topup_plans : Exec SqlError World (List CreditTopupPlan)
unfolding compare_plans
credit_topup_plans = query (λ e. e) (λ db. order_by compare_all_plans db.plans)

abbrev is_listed : ServiceCreditPrice → Bool
is_listed p =
    is_price_of (codes "image-2-sd") (codes "1K") p
    || is_price_of (codes "image-2-hd") (codes "HD") p

abbrev compare_prices : ServiceCreditPrice → ServiceCreditPrice → Ordering
compare_prices a b =
    compare_text a.service_code b.service_code then_by compare_text a.billing_key b.billing_key

unfoldable pub service_credit_prices : Exec SqlError World (List ServiceCreditPrice)
service_credit_prices =
    query (λ e. e) (λ db. order_by compare_prices (select_where is_listed db.prices))
