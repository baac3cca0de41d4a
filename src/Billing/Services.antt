-- ===== src/Billing/Services.antt =====
-- Which service a request is billed to (tasks.go: selectWalletServiceForGeneration and the functions
-- around it).
use lillian_backend.Common.{
  Result-cases, is_some, text_eq_refl, sym, ℤ, pos, ltb_ℤ, ◌≤ℤ◌, ◌≡◌, subst, Text, text_eq, ◌&&◌,
  Bool, true, false, none, some, List, [], ◌∷◌, if◌then◌else◌, arith, All, Bool-cases, Option-cases,
  inl, inr, ok,
}
use lillian_backend.Sql.{World}
use lillian_backend.Wallets.{
  WalletEntitlement, WalletSnapshot, service_code_image2_sd, service_code_image2_hd,
}
use lillian_backend.Billing.{
  is_hd_tier, wallet_entitlement_with_balance, select_wallet_service, candidate_buckets,
  select_wallet_billing, BillingSelection, credit_billing, credit_billing_from,
  credit_service_candidates, credit_cost,
}

-- An entitlement for the service with uses left.
abbrev pub can_serve : Text → WalletEntitlement → Bool
can_serve code e = text_eq e.service_code code && ltb_ℤ (pos 0) e.remaining

with_balance_none :
    (es : List WalletEntitlement) (code : Text)
    → wallet_entitlement_with_balance es code ≡ none
    → All (λ e. can_serve code e ≡ false) es
unfolding wallet_entitlement_with_balance
with_balance_none [] code h = tt
with_balance_none (e ∷ es) code h = elim (Bool-cases (can_serve code e)) [
  | inl fits ↦ absurd (ground arith)
  | inr unfit ↦ (unfit, with_balance_none es code (ground arith))
]

with_balance_some :
    (es : List WalletEntitlement) (code : Text) (e : WalletEntitlement)
    → wallet_entitlement_with_balance es code ≡ some e
    → (can_serve code e ≡ true) × (pos 1 ≤ℤ e.max_concurrent)
unfolding wallet_entitlement_with_balance
with_balance_some [] code e h = absurd cc
with_balance_some (x ∷ es) code e h = elim (Bool-cases (can_serve code x)) [
  | inl fits ↦ ground arith
  | inr unfit ↦ with_balance_some es code e (ground arith)
]

-- The services that may serve a tier: HD for 2K and 4K, and SD or HD for the others.
abbrev pub may_serve : Text → WalletEntitlement → Bool
may_serve tier e =
    if is_hd_tier tier
    then can_serve service_code_image2_hd e
    else (if can_serve service_code_image2_sd e then true else can_serve service_code_image2_hd e)

-- The service that is selected may serve the tier, has uses left, and allows a task at least.
pub select_wallet_service-serves :
    (es : List WalletEntitlement) (tier : Text) (e : WalletEntitlement)
    → select_wallet_service es tier ≡ some e
    → (may_serve tier e ≡ true) × (pos 1 ≤ℤ e.max_concurrent)
unfolding select_wallet_service
select_wallet_service-serves es tier e h = elim (Bool-cases (is_hd_tier tier)) [
  | inl hd ↦ grind (arith, with_balance_some es service_code_image2_hd e)
  | inr sd ↦ elim (Option-cases (wallet_entitlement_with_balance es service_code_image2_sd)) [
    | inl missing ↦ grind (arith, with_balance_some es service_code_image2_hd e)
    | inr (x, found) ↦ grind (arith, with_balance_some es service_code_image2_sd e)
  ]
]

both_none :
    (p q : WalletEntitlement → Bool) (es : List WalletEntitlement)
    → All (λ e. p e ≡ false) es
    → All (λ e. q e ≡ false) es
    → All (λ e. (if p e then true else q e) ≡ false) es
both_none p q [] h k = tt
both_none p q (e ∷ es) h k = (ground (arith, h.0, k.0), both_none p q es h.1 k.1)

-- Where no service is selected, no entitlement of the wallet may serve the tier.
pub select_wallet_service_complete :
    (es : List WalletEntitlement) (tier : Text)
    → select_wallet_service es tier ≡ none
    → All (λ e. may_serve tier e ≡ false) es
unfolding select_wallet_service
select_wallet_service_complete es tier h = elim (Bool-cases (is_hd_tier tier)) [
  | inl hd ↦
      subst
        (λ b.
          All
            (λ e.
              (if b
                then can_serve service_code_image2_hd e
                else (if can_serve service_code_image2_sd e
                    then true
                    else can_serve service_code_image2_hd e))
              ≡ false)
            es)
        (sym hd) (with_balance_none es service_code_image2_hd (grind arith))
  | inr sd ↦
      subst
        (λ b.
          All
            (λ e.
              (if b
                then can_serve service_code_image2_hd e
                else (if can_serve service_code_image2_sd e
                    then true
                    else can_serve service_code_image2_hd e))
              ≡ false)
            es)
        (sym sd)
        (both_none _ _ es (with_balance_none es service_code_image2_sd (sd_none sd))
          (with_balance_none es service_code_image2_hd (hd_none sd)))
]
  where
    sd_none :
        is_hd_tier tier ≡ false → wallet_entitlement_with_balance es service_code_image2_sd ≡ none
    sd_none sd = elim (Option-cases (wallet_entitlement_with_balance es service_code_image2_sd)) [
      | inl missing ↦ missing
      | inr (x, found) ↦ absurd (grind arith)
    ]

    hd_none :
        is_hd_tier tier ≡ false → wallet_entitlement_with_balance es service_code_image2_hd ≡ none
    hd_none sd = grind (arith, sd_none sd)

-- The service of a billing by credits is the candidate for the tier.
credit_billing_from-code :
    (n : ℤ) (key code : Text) (w : World) (b : BillingSelection)
    → (credit_billing_from n key (code ∷ []) w).0 ≡ ok b
    → b.service_code ≡ code
unfolding credit_billing_from
credit_billing_from-code n key code w b h = elim (Result-cases (credit_cost code key w).0) [
  | inl (c, found) ↦ ground arith
  | inr (x, missing) ↦ ground arith
]

credit_billing-code :
    (n : ℤ) (tier : Text) (w : World) (b : BillingSelection)
    → (credit_billing n tier w).0 ≡ ok b
    → b.service_code ≡ (if is_hd_tier tier then service_code_image2_hd else service_code_image2_sd)
unfolding credit_billing credit_service_candidates
credit_billing-code n tier w b h = elim (Bool-cases (is_hd_tier tier)) [
  | inl hd ↦ grind (arith, credit_billing_from-code n _ service_code_image2_hd w b)
  | inr sd ↦ grind (arith, credit_billing_from-code n _ service_code_image2_sd w b)
]

-- A request that is billed, by an entitlement or by credits, is billed to a service that has
-- provider buckets for its tier: a 2K or 4K request is billed to HD.
pub select_wallet_billing-buckets :
    (s : WalletSnapshot) (tier : Text) (w : World) (b : BillingSelection)
    → (select_wallet_billing s tier w).0 ≡ ok b
    → is_some (candidate_buckets b.service_code tier) ≡ true
unfolding select_wallet_billing candidate_buckets
select_wallet_billing-buckets s tier w b h =
    elim (Option-cases (select_wallet_service s.entitlements tier)) [
      | inl by_credits ↦ elim (Result-cases (credit_billing s.wallet.credits tier w).0) [
        | inl (c, billed) ↦ grind (
          arith,
          credit_billing-code s.wallet.credits tier w c billed,
          text_eq_refl service_code_image2_hd,
        )
        | inr (x, refused) ↦ absurd (grind arith)
      ]
      | inr (e, found) ↦ grind (arith, select_wallet_service-serves s.entitlements tier e found)
    ]
