-- ===== src/Billing.antt =====
-- How a generation request is billed and which provider buckets may serve it (tasks.go: the
-- selection functions).
pub mod Selection
pub mod Services
use lillian_backend.Common.{
  ℤ, pos, ltb_ℤ, leb_ℤ, Text, codes, text_eq, trim_space, to_upper, equal_fold, is_nil, ◌&&◌, ◌||◌,
  not, Bool, true, false, Option, none, some, List, [], ◌∷◌, if◌then◌else◌, find_where, Exec,
  Result, ok, err, pure, raise, ◌>>=◌,
}
use lillian_backend.Schema.{Db, Params, BillingSource, entitlement, credits, ServiceCreditPrice}
use lillian_backend.Sql.{World, SqlError, no_rows, failed, query_row, attempt}
use lillian_backend.Numbers.{max_int}
use lillian_backend.Params.{string_param}
use lillian_backend.Wallets.{
  WalletEntitlement, WalletSnapshot, service_code_image2_sd, service_code_image2_hd,
}

abbrev pub default_image_size : Text
default_image_size = codes "1024x1824"

abbrev pub default_max_concurrent : ℤ
default_max_concurrent = pos 6

abbrev pub is_tier : Text → Bool
is_tier tier = text_eq tier (codes "1K") || text_eq tier (codes "2K") || text_eq tier (codes "4K")

-- The size, and the tier or the empty text.
unfoldable pub normalize_task_size : Params → Text × Text
normalize_task_size params =
    let given = trim_space (string_param params (codes "size")) in
    let size = if is_nil given || text_eq given (codes "auto") then default_image_size else given in
    let tier = to_upper (trim_space (string_param params (codes "size_tier"))) in
    if is_tier tier
    then (size, tier)
    else (size, if text_eq size default_image_size then codes "1K" else [])

-- strings.ToUpper(strings.TrimSpace(sizeTier)) is "2K" or "4K".
unfoldable pub is_hd_tier : Text → Bool
is_hd_tier size_tier =
    let tier = to_upper (trim_space size_tier) in
    text_eq tier (codes "2K") || text_eq tier (codes "4K")

unfoldable pub wallet_entitlement_with_balance :
    List WalletEntitlement → Text → Option WalletEntitlement
wallet_entitlement_with_balance [] code = none
wallet_entitlement_with_balance (e ∷ es) code =
    if text_eq e.service_code code && ltb_ℤ (pos 0) e.remaining
    then some (
        if leb_ℤ e.max_concurrent (pos 0)
        then record e { max_concurrent = default_max_concurrent }
        else e)
    else wallet_entitlement_with_balance es code

-- `none` is either of the two errors, which the caller does not tell apart.
unfoldable pub select_wallet_service : List WalletEntitlement → Text → Option WalletEntitlement
unfolding is_hd_tier
select_wallet_service entitlements size_tier =
    let hd = wallet_entitlement_with_balance entitlements service_code_image2_hd in
    if is_hd_tier size_tier
    then hd
    else elim (wallet_entitlement_with_balance entitlements service_code_image2_sd) [
      | some e ↦ some e
      | none ↦ hd
    ]

unfoldable pub billing_key_for : Text → Text
unfolding is_hd_tier
billing_key_for size_tier = if is_hd_tier size_tier then codes "HD" else codes "1K"

unfoldable pub credit_service_candidates : Text → List Text
unfolding is_hd_tier
credit_service_candidates size_tier =
    if is_hd_tier size_tier then service_code_image2_hd ∷ [] else service_code_image2_sd ∷ []

pub record BillingSelection : Type 0 where
  pub service_code : Text
  pub billing_key : Text
  pub credit_units : ℤ
  pub uses_credits : Bool

unfoldable pub billing_source_name : BillingSelection → BillingSource
billing_source_name b = if b.uses_credits then credits else entitlement

-- WHERE service_code = $1 AND billing_key = $2 AND enabled = true
unfoldable pub enabled_price : Text → Text → Db → Option ServiceCreditPrice
enabled_price code key db =
    find_where (λ p. text_eq p.service_code code && text_eq p.billing_key key && p.enabled)
      db.prices

unfoldable pub credit_cost : Text → Text → Exec SqlError World ℤ
credit_cost code key = do
  price ← query_row (λ e. e) (enabled_price code key)
  pure (max_int (pos 1) price.credit_units)

-- The loop over the candidates of creditBillingForImageGeneration.
unfoldable pub credit_billing_from : ℤ → Text → List Text → Exec SqlError World BillingSelection
credit_billing_from wallet_credits key [] w = (err no_rows, w)
credit_billing_from wallet_credits key (code ∷ codes) w =
    let (cost, w') = credit_cost code key w in
    elim cost [
      | err no_rows ↦ credit_billing_from wallet_credits key codes w'
      | err (failed m) ↦ (err (failed m), w')
      | ok c ↦
          let later = credit_billing_from wallet_credits key codes w' in
          if ltb_ℤ wallet_credits c then later else (
            ok (record {
              service_code = code;
              billing_key = key;
              credit_units = c;
              uses_credits = true;
            }),
            w',
          )
    ]

unfoldable pub credit_billing : ℤ → Text → Exec SqlError World BillingSelection
unfolding billing_key_for credit_service_candidates
credit_billing wallet_credits size_tier =
    credit_billing_from wallet_credits (billing_key_for size_tier)
      (credit_service_candidates size_tier)

-- The error is the text that the request is refused with.
unfoldable pub select_wallet_billing : WalletSnapshot → Text → Exec Text World BillingSelection
unfolding select_wallet_service billing_key_for
select_wallet_billing wallet size_tier w =
    elim (select_wallet_service wallet.entitlements size_tier) [
      | some e ↦ (
        ok (record {
          service_code = e.service_code;
          billing_key = billing_key_for size_tier;
          credit_units = pos 1;
          uses_credits = false;
        }),
        w,
      )
      | none ↦
          let (selection, w') = credit_billing wallet.wallet.credits size_tier w in
          elim selection [
            | ok b ↦ (ok b, w')
            | err e ↦ (
              err (
                  if equal_fold (trim_space size_tier) (codes "2K")
                    || equal_fold (trim_space size_tier) (codes "4K")
                  then codes "当前钱包没有可用的 HD 生成权益或 credits"
                  else codes "当前钱包没有可用的图片生成权益或 credits"),
              w',
            )
          ]
    ]

unfoldable pub candidate_buckets : Text → Text → Option (List Text)
unfolding is_hd_tier
candidate_buckets service_code size_tier =
    if is_hd_tier size_tier
    then if not (text_eq service_code service_code_image2_hd) then none else some (codes "hd" ∷ [])
    else some (codes "1k" ∷ codes "hd" ∷ [])

unfoldable pub replace_entitlement_remaining :
    List WalletEntitlement → Text → ℤ → List WalletEntitlement
unfolding max_int
replace_entitlement_remaining [] code remaining = []
replace_entitlement_remaining (e ∷ es) code remaining =
    if text_eq e.service_code code
    then record e { remaining = max_int (pos 0) remaining } ∷ es
    else e ∷ replace_entitlement_remaining es code remaining
