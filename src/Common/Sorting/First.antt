-- ===== src/Common/Sorting/First.antt =====
-- The first row of a sorted table that fits is the least that fits.
use Prim.Native.Nat.{ℕ, zero, suc, Ordering}
use mathlib.Core.Path.{◌≡◌, refl, subst}
use mathlib.Core.Logic.{inl, inr}
use mathlib.Core.Bool.{Bool, true, false}
use mathlib.Core.List.{List, [], ◌∷◌}
use mathlib.Core.Option.{Option, none, some, some-injective}
use native.Mathlib.Omega.{arith}
use lillian_backend.Common.Tests.{Bool-cases, implies}
use lillian_backend.Common.Lists.{All, take}
use lillian_backend.Common.Tables.{find_where, select_where}
use lillian_backend.Common.Sorting.{IsOrder, le, order_by, IsSorted}
use lillian_backend.Common.Sorting.Laws.{All-order_by, order_by-IsSorted}

pub implied : (a b : Bool) → (a ≡ true → b ≡ true) → implies a b ≡ true
implied true b h = h refl
implied false b h = refl

module _ {A : Type 0} where
  abbrev pub first : List A → Option A
  first [] = none
  first (x ∷ xs) = some x

  pub All-select_where :
      (P : A → Type 0) (q : A → Bool) (xs : List A)
      → All P (select_where q xs)
      → All (λ x. q x ≡ true → P x) xs
  unfolding select_where
  All-select_where P q [] h = tt
  All-select_where P q (x ∷ xs) h = elim (Bool-cases (q x)) [
    | inl y ↦ ground (arith, All-select_where P q xs)
    | inr n ↦ ground (arith, All-select_where P q xs)
  ]

  pub select_where-All : (q : A → Bool) (xs : List A) → All (λ x. q x ≡ true) (select_where q xs)
  unfolding select_where
  select_where-All q [] = tt
  select_where-All q (x ∷ xs) = ground (arith, select_where-All q xs)

  pub map_All : {P Q : A → Type 0} (xs : List A) → ((x : A) → P x → Q x) → All P xs → All Q xs
  map_All [] f h = tt
  map_All (x ∷ xs) f h = (f x h.0, map_All xs f h.1)

  module _ {cmp : A → A → Ordering} (o : IsOrder cmp) where
    le_refl : (a : A) → le cmp a a ≡ true
    le_refl a = ground (arith, o.flips a a)

    find_sorted :
        (p : A → Bool) (n : ℕ) (ys : List A) (a : A)
        → IsSorted cmp ys
        → find_where p (take n ys) ≡ some a
        → All (λ x. p x ≡ true → le cmp a x ≡ true) ys
    unfolding find_where
    find_sorted p zero ys a s e = absurd cc
    find_sorted p (suc n) [] a s e = tt
    find_sorted p (suc n) (y ∷ ys) a s e = elim (Bool-cases (p y)) [
      | inl hit ↦ (
        (λ _. subst (λ z. le cmp z y ≡ true) (met hit) (le_refl y)),
        map_All ys (λ x k _. subst (λ z. le cmp z x ≡ true) (met hit) k) s.0,
      )
      | inr miss ↦ ((λ h. absurd cc), find_sorted p n ys a s.1 (grind arith))
    ]
      where
        met : p y ≡ true → y ≡ a
        met hit = some-injective y a (grind arith)

    -- What a search of the sorted table finds, among its first n rows, is least of all that fit.
    pub find-order_by :
        (p : A → Bool) (n : ℕ) (xs : List A) (a : A)
        → find_where p (take n (order_by cmp xs)) ≡ some a
        → All (λ x. p x ≡ true → le cmp a x ≡ true) xs
    find-order_by p n xs a e =
        All-order_by cmp _ xs (find_sorted p n (order_by cmp xs) a (order_by-IsSorted o xs) e)

    pub first-order_by :
        (xs : List A) (a : A) → first (order_by cmp xs) ≡ some a → All (λ x. le cmp a x ≡ true) xs
    first-order_by xs a e =
        All-order_by cmp _ xs (least (order_by cmp xs) (order_by-IsSorted o xs) e)
      where
        least :
            (ys : List A) → IsSorted cmp ys → first ys ≡ some a → All (λ x. le cmp a x ≡ true) ys
        least [] s e = tt
        least (y ∷ ys) s e =
            let same = some-injective y a e in
            (
              subst (λ z. le cmp z y ≡ true) same (le_refl y),
              map_All ys (λ x k. subst (λ z. le cmp z x ≡ true) same k) s.0,
            )
