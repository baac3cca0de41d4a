-- ===== src/Payments/Plans.antt =====
-- The plans of top-ups as the administrator writes them, and the lists of plans and prices that are
-- shown (payments.go: handleAdminUpsertTopupPlan, handleListPublicTopupPlans,
-- handleAdminListBillingSettings, publicCreditTopupPlan and the like).
pub mod Default
use lillian_backend.Common.{
  ℕ, ℤ, pos, negsuc, Text, codes, text_eq, trim_space, trim_right_of, is_nil, decimal, not, Bool,
  true, false, Option, none, some, List, [], ◌∷◌, ◌++◌, map, if◌then◌else◌, is_some, find_where,
  update_where, Exec, pure, or_raise, ◌>>=◌, ◌>>◌,
}
use lillian_backend.Schema.{Db, CreditTopupPlan, ServiceCreditPrice}
use lillian_backend.Sql.{World, SqlError, exec, transaction, map_error, time_now}
use lillian_backend.Numbers.{positive_or}
use lillian_backend.Http.{
  Problem, problem, internal, Server, require_database, require_admin, read_json,
}
use lillian_backend.Admin.RuntimeSettings.{itoa}
use lillian_backend.Payments.Catalog.{
  safe_id_part, enabled_topup_plans, credit_topup_plans, service_credit_prices,
}

pub record PlanRequest : Type 0 where
  pub id : Text
  pub label : Text
  pub amount_usdt : Text
  pub credits : ℤ
  pub is_default : Option Bool
  pub enabled : Option Bool
  pub sort_order : ℤ
  pub note : Text

abbrev pub or_else : Bool → Option Bool → Bool
or_else fallback none = fallback
or_else fallback (some b) = b

abbrev pub has_plan_id : Text → CreditTopupPlan → Bool
has_plan_id id p = text_eq p.id id

abbrev pub unset_default : CreditTopupPlan → CreditTopupPlan
unset_default p = record p { is_default = false }

-- UPDATE … SET is_default = false WHERE id <> $1
unfoldable pub only_default : Text → Db → Db
only_default id db = record db {
  plans = update_where (λ p. not (has_plan_id id p)) unset_default db.plans;
}

-- ON CONFLICT (id) DO UPDATE: the time of creation stays.
abbrev pub rewrite_plan : CreditTopupPlan → CreditTopupPlan → CreditTopupPlan
rewrite_plan wanted p = record wanted { id = p.id; created_at = p.created_at }

unfoldable pub upsert_plan : CreditTopupPlan → Db → Db
upsert_plan wanted db = record db {
  plans =
      if is_some (find_where (has_plan_id wanted.id) db.plans)
      then update_where (has_plan_id wanted.id) (rewrite_plan wanted) db.plans
      else db.plans ++ wanted ∷ [];
}

-- RETURNING, read after the row is written.
abbrev pub stored_plan : CreditTopupPlan → Db → CreditTopupPlan
stored_plan wanted db = elim (find_where (has_plan_id wanted.id) db.plans) [
  | none ↦ wanted
  | some p ↦ rewrite_plan wanted p
]

-- The statements between Begin and Commit.
unfoldable pub write_plan : CreditTopupPlan → Exec Problem World CreditTopupPlan
unfolding only_default upsert_plan
write_plan wanted = do
  (if wanted.is_default then exec internal (λ _. tt {0}) (only_default wanted.id) else pure tt)
  exec internal (stored_plan wanted) (upsert_plan wanted)

-- publicCreditTopupPlan
pub record PublicPlan : Type 0 where
  pub id : Text
  pub label : Text
  pub amount_usdt : Text
  pub credits : ℤ
  pub is_default : Bool

unfoldable pub public_plan : CreditTopupPlan → PublicPlan
public_plan p = record {
  id = p.id;
  label = p.label;
  amount_usdt = p.amount_usdt;
  credits = p.credits;
  is_default = p.is_default;
}

-- float64: strconv.ParseFloat with the test that the amount is above zero, Sprintf("%.2f"), and the
-- text of the NUMERIC(12, 2) that the column keeps.
pub record Amounts : Type 1 where
  pub float : Type 0
  pub parse_float : Text → Option float
  pub is_positive : float → Bool
  pub two_decimals : float → Text
  pub numeric : float → Text

module _ (m : Amounts) where
  abbrev amount_in : Text → Option m.float
  amount_in s = elim (m.parse_float (trim_space s)) [
    | none ↦ none
    | some x ↦ if m.is_positive x then some x else none
  ]

  abbrev short_amount : m.float → Text
  short_amount x = trim_right_of b'.' (trim_right_of b'0' (m.two_decimals x))

  unfoldable pub wanted_plan : PlanRequest → m.float → ℕ → CreditTopupPlan
  unfolding itoa safe_id_part positive_or
  wanted_plan body amount now =
      let credits = positive_or body.credits (pos 1) in
      record {
        id =
            if is_nil (trim_space body.id)
            then codes "topup-usdt-"
              ++ (safe_id_part (short_amount amount) ++ (codes "-credits-" ++ itoa credits))
            else trim_space body.id;
        label =
            if is_nil (trim_space body.label)
            then short_amount amount ++ (codes " USDT = " ++ (itoa credits ++ codes " credits"))
            else trim_space body.label;
        amount_usdt = m.numeric amount;
        credits = credits;
        is_default = or_else false body.is_default;
        enabled = or_else true body.enabled;
        sort_order = positive_or body.sort_order (pos 100);
        note = trim_space body.note;
        created_at = now;
        updated_at = now;
      }

  unfoldable pub handle_upsert_topup_plan :
      Server → Text → Option PlanRequest → Exec Problem World PublicPlan
  unfolding wanted_plan write_plan public_plan
  handle_upsert_topup_plan server authorization request = do
    require_admin server authorization
    require_database server
    body ← read_json request
    amount ← or_raise (amount_in body.amount_usdt) (problem 400 (codes "充值金额无效"))
    now ← time_now
    plan ← transaction internal (write_plan (wanted_plan body amount now))
    pure (public_plan plan)

unfoldable pub public_plans : List CreditTopupPlan → List PublicPlan
unfolding public_plan
public_plans plans = map public_plan plans

unfoldable pub handle_list_topup_plans : Server → Exec Problem World (List PublicPlan)
unfolding public_plans enabled_topup_plans
handle_list_topup_plans server = do
  require_database server
  plans ← map_error internal enabled_topup_plans
  pure (public_plans plans)

-- The administrator sees every column, so the rows stand for what is shown.
unfoldable pub handle_list_billing_settings :
    Server → Text → Exec Problem World (List ServiceCreditPrice × List CreditTopupPlan)
unfolding service_credit_prices credit_topup_plans
handle_list_billing_settings server authorization = do
  require_admin server authorization
  require_database server
  prices ← map_error internal service_credit_prices
  plans ← map_error internal credit_topup_plans
  pure (prices, plans)
