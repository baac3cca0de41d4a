-- ===== src/Payments/Catalog/Prices.antt =====
-- A price that is set is the price that is charged (payments.go: handleAdminUpsertCreditPrice;
-- tasks.go: creditCost), and the identifiers that are made for it are safe.
use lillian_backend.Common.{
  ℕ, ◌≡◌, refl, Text, codes, text_eq, text_eq_refl, Bool, true, false, ◌&&◌, ◌||◌, ◌==◌, some, [],
  ◌∷◌, arith, find_where, Option-cases, inl, inr, if◌then◌else◌, is_nil, map, All, trim_left_of,
  trim_right_of, to_lower, trim_space,
}
use lillian_backend.Common.Tables.Laws.{find_where-update_all, find_where-append}
use lillian_backend.Schema.{Db, ServiceCreditPrice}
use lillian_backend.Billing.{enabled_price}
use lillian_backend.Payments.Catalog.{
  upsert_price, is_price_of, reprice, safe_id_part, is_id_code, id_code,
}

-- After a price is set and enabled, what the billing finds for its service and key is a row with
-- that price, whether the row was there before or not.
pub upsert_price-enabled_price :
    (wanted : ServiceCreditPrice) (d : Db)
    → wanted.enabled ≡ true
    → (p : ServiceCreditPrice) × (enabled_price wanted.service_code wanted.billing_key
          (upsert_price wanted d)
        ≡ some p)
      × (p.credit_units ≡ wanted.credit_units)
unfolding enabled_price upsert_price
upsert_price-enabled_price wanted d enabled =
    elim (Option-cases (find_where (is_price_of wanted.service_code wanted.billing_key) d.prices)) [
      | inl missing ↦ (
        wanted,
        grind (
          arith,
          find_where-append
              (λ p.
                text_eq p.service_code wanted.service_code
                && text_eq p.billing_key wanted.billing_key
                && p.enabled)
              (is_price_of wanted.service_code wanted.billing_key) (reprice wanted) d.prices wanted
              (λ x m. ground arith)
              (grind (arith, text_eq_refl wanted.service_code, text_eq_refl wanted.billing_key))
              missing,
        ),
        refl,
      )
      | inr (a, found) ↦ (
        reprice wanted a,
        grind (
          arith,
          find_where-update_all
              (λ p.
                text_eq p.service_code wanted.service_code
                && text_eq p.billing_key wanted.billing_key
                && p.enabled)
              (is_price_of wanted.service_code wanted.billing_key) (reprice wanted) d.prices a
              (λ x m. ground arith) (λ x m. ground arith) found,
        ),
        refl,
      )
    ]

abbrev pub is_safe : ℕ → Bool
is_safe c = is_id_code c || c == b'-'

All-map : (s : Text) → All (λ c. is_safe c ≡ true) (map id_code s)
All-map [] = tt
All-map (c ∷ s) = (ground arith, All-map s)

All-trim_left_of :
    (d : ℕ) (s : Text)
    → All (λ c. is_safe c ≡ true) s
    → All (λ c. is_safe c ≡ true) (trim_left_of d s)
unfolding trim_left_of
All-trim_left_of d [] h = tt
All-trim_left_of d (c ∷ s) h = ground (arith, All-trim_left_of d s h.1)

All-trim_right_of :
    (d : ℕ) (s : Text)
    → All (λ c. is_safe c ≡ true) s
    → All (λ c. is_safe c ≡ true) (trim_right_of d s)
unfolding trim_right_of
All-trim_right_of d [] h = tt
All-trim_right_of d (c ∷ s) h = ground (arith, All-trim_right_of d s h.1)

item_or-safe :
    (s : Text)
    → All (λ c. is_safe c ≡ true) s
    → All (λ c. is_safe c ≡ true) (if is_nil s then codes "item" else s)
      × (is_nil (if is_nil s then codes "item" else s) ≡ false)
item_or-safe [] h = ((refl, (refl, (refl, (refl, tt)))), refl)
item_or-safe (c ∷ s) h = (h, refl)

-- A part of an identifier consists of small letters, digits and dashes, and is not empty, whatever
-- the text that it is made of.
pub safe_id_part-safe :
    (value : Text)
    → All (λ c. is_safe c ≡ true) (safe_id_part value) × (is_nil (safe_id_part value) ≡ false)
unfolding safe_id_part
safe_id_part-safe value =
    item_or-safe _
      (All-trim_right_of b'-' _ (All-trim_left_of b'-' _ (All-map (to_lower (trim_space value)))))
