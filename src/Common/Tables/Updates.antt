-- ===== src/Common/Tables/Updates.antt =====
-- What holds of every row, under UPDATE.
use Prim.Native.Nat.{ℕ, zero, suc}
use mathlib.Core.Path.{◌≡◌, subst, sym}
use mathlib.Core.Logic.{inl, inr}
use mathlib.Core.Bool.{Bool, true, false}
use mathlib.Core.Option.{some, some-injective}
use mathlib.Core.List.{List, [], ◌∷◌}
use native.Mathlib.Omega.{arith}
use lillian_backend.Common.Tests.{Bool-cases}
use lillian_backend.Common.Lists.{All, take}
use lillian_backend.Common.Tables.{find_where, update_where, count_where}

module _ {A : Type 0} (P : A → Type 0) where
  pub take-All : (n : ℕ) (xs : List A) → All P xs → All P (take n xs)
  take-All zero xs h = tt
  take-All (suc n) [] h = tt
  take-All (suc n) (x ∷ xs) h = (h.0, take-All n xs h.1)

  pub find_All : (p : A → Bool) (xs : List A) (a : A) → All P xs → find_where p xs ≡ some a → P a
  unfolding find_where
  find_All p [] a h e = absurd cc
  find_All p (x ∷ xs) a h e = elim (Bool-cases (p x)) [
    | inl hit ↦ subst P (some-injective x a (grind arith)) h.0
    | inr miss ↦ find_All p xs a h.1 (grind arith)
  ]

  pub All-update_where :
      (p : A → Bool) (f : A → A) (xs : List A)
      → All (λ x. p x ≡ true → P (f x)) xs
      → All (λ x. p x ≡ false → P x) xs
      → All P (update_where p f xs)
  unfolding update_where
  All-update_where p f [] h k = tt
  All-update_where p f (x ∷ xs) h k = elim (Bool-cases (p x)) [
    | inl hit ↦ (subst P (sym (grind arith)) (h.0 hit), All-update_where p f xs h.1 k.1)
    | inr miss ↦ (subst P (sym (grind arith)) (k.0 miss), All-update_where p f xs h.1 k.1)
  ]

  -- What holds of every row.
  pub All-of : (xs : List A) → ((x : A) → P x) → All P xs
  All-of [] h = tt
  All-of (x ∷ xs) h = (h x, All-of xs h)

  -- The only row that fits is the one that is found.
  pub find_one :
      (p : A → Bool) (xs : List A) (a : A)
      → find_where p xs ≡ some a
      → count_where p xs ≡ 1
      → P a
      → All (λ x. p x ≡ true → P x) xs
  unfolding find_where count_where
  find_one p [] a e c h = tt
  find_one p (x ∷ xs) a e c h = elim (Bool-cases (p x)) [
    | inl hit ↦
        ((λ _. subst P (sym (some-injective x a (grind arith))) h), none_left xs (grind arith))
    | inr miss ↦ ((λ hit. absurd cc), find_one p xs a (grind arith) (grind arith) h)
  ]
    where
      none_left : (ys : List A) → count_where p ys ≡ 0 → All (λ y. p y ≡ true → P y) ys
      none_left [] z = tt
      none_left (y ∷ ys) z = ((λ hit. absurd (ground arith)), none_left ys (ground arith))
