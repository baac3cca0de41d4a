-- ===== src/Billing/Selection.antt =====
-- What the billing selection returns (tasks.go: selectWalletBillingForGeneration and what it calls).
use lillian_backend.Common.{
  ℤ, pos, ◌≤ℤ◌, ◌≡◌, Text, List, [], ◌∷◌, arith, ok, Result-cases, inl, inr,
}
use lillian_backend.Sql.{World, steps}
use lillian_backend.Sql.Rules.{Returns, Keeps, IsPreorder, keeps_rules}
use lillian_backend.Schema.{Db}
use lillian_backend.Numbers.{max_int}
use lillian_backend.Wallets.{WalletSnapshot}
use lillian_backend.Billing.{
  BillingSelection, credit_cost, credit_billing_from, credit_billing, select_wallet_billing,
}

-- A price is at least one credit.
abbrev pub IsPriced : BillingSelection → Type 0
IsPriced b = pos 1 ≤ℤ b.credit_units

credit_cost_pos : (code key : Text) → Returns (λ c. pos 1 ≤ℤ c) (credit_cost code key)
unfolding credit_cost steps max_int
credit_cost_pos code key = record { at = λ w c e. ground arith }

credit_billing_from-IsPriced :
    (n : ℤ) (key : Text) (codes : List Text) (w : World) (b : BillingSelection)
    → (credit_billing_from n key codes w).0 ≡ ok b
    → IsPriced b
unfolding credit_billing_from
credit_billing_from-IsPriced n key [] w b e = cc
credit_billing_from-IsPriced n key (c ∷ cs) w b e =
    let later = credit_billing_from-IsPriced n key cs (credit_cost c key w).1 b in
    elim (Result-cases (credit_cost c key w).0) [
      | inl (cost, found) ↦ ground (arith, (credit_cost_pos c key).at w cost found, later)
      | inr (x, missing) ↦ ground (arith, later)
    ]

credit_billing-IsPriced :
    (n : ℤ) (tier : Text) (w : World) (b : BillingSelection)
    → (credit_billing n tier w).0 ≡ ok b
    → IsPriced b
unfolding credit_billing
credit_billing-IsPriced n tier w b e = credit_billing_from-IsPriced n _ _ w b e

-- A billing that is selected costs at least one credit, or one use of an entitlement.
pub select_wallet_billing-IsPriced :
    (s : WalletSnapshot) (tier : Text) → Returns IsPriced (select_wallet_billing s tier)
unfolding select_wallet_billing
select_wallet_billing-IsPriced s tier = record {
  at = λ w b e. ground (arith, credit_billing-IsPriced s.wallet.credits tier w b);
}

module _ {R : Db → Db → Type 0} (o : IsPreorder R) where
  credit_cost-Keeps : (code key : Text) → Keeps R (credit_cost code key)
  unfolding credit_cost
  credit_cost-Keeps code key = search (keeps_rules, o)

  credit_billing_from-Keeps :
      (n : ℤ) (key : Text) (codes : List Text) → Keeps R (credit_billing_from n key codes)
  unfolding credit_billing_from
  credit_billing_from-Keeps n key [] = record { at = λ w. o.same w.db }
  credit_billing_from-Keeps n key (c ∷ cs) = record {
    at = λ w.
        let later = (credit_billing_from-Keeps n key cs).at (credit_cost c key w).1 in
        let here = (credit_cost-Keeps c key).at w in
        ground (
          arith,
          here,
          o.chain w.db (credit_cost c key w).1.db
              (credit_billing_from n key cs (credit_cost c key w).1).1.db here later,
        );
  }

  credit_billing-Keeps : (n : ℤ) (tier : Text) → Keeps R (credit_billing n tier)
  unfolding credit_billing
  credit_billing-Keeps n tier = credit_billing_from-Keeps n _ _

  -- Billing only reads.
  pub select_wallet_billing-Keeps :
      (s : WalletSnapshot) (tier : Text) → Keeps R (select_wallet_billing s tier)
  unfolding select_wallet_billing
  select_wallet_billing-Keeps s tier = record {
    at = λ w. ground (arith, o.same w.db, (credit_billing-Keeps s.wallet.credits tier).at w);
  }
