-- ===== src/Common/Sorting.antt =====
-- ORDER BY: comparisons in three ways, their lexicographic combination, and a stable sort.
pub mod Laws
pub mod First
use Prim.Native.Nat.{ℕ, ◌+◌, compare, Ordering}
use mathlib.Core.Path.{◌≡◌, refl}
use mathlib.Core.Bool.{Bool, true, false}
use mathlib.Core.Option.{Option, none, some}
use mathlib.Core.List.{List, [], ◌∷◌}
use native.Mathlib.Omega.{arith}
use lillian_backend.Common.Tests.{if◌then◌else◌}
use lillian_backend.Common.Int.{ℤ, pos_part, neg_part}
use lillian_backend.Common.Lists.{All}
use lillian_backend.Common.Texts.{Text}

abbrev pub flip : Ordering → Ordering
flip Ordering.lt = Ordering.gt
flip Ordering.eq = Ordering.eq
flip Ordering.gt = Ordering.lt

abbrev pub not_gt : Ordering → Bool
not_gt Ordering.gt = false
not_gt _ = true

-- The next key of ORDER BY decides where this one is equal.
infixr 30 ◌then_by◌
abbrev pub ◌then_by◌ : Ordering → Ordering → Ordering
Ordering.lt then_by o = Ordering.lt
Ordering.eq then_by o = o
Ordering.gt then_by o = Ordering.gt

abbrev pub compare_ℤ : ℤ → ℤ → Ordering
compare_ℤ a b = compare (pos_part a + neg_part b) (pos_part b + neg_part a)

-- NULLS FIRST
abbrev pub compare_option : Option ℕ → Option ℕ → Ordering
compare_option none none = Ordering.eq
compare_option none (some b) = Ordering.lt
compare_option (some a) none = Ordering.gt
compare_option (some a) (some b) = compare a b

unfoldable pub compare_text : Text → Text → Ordering
compare_text [] [] = Ordering.eq
compare_text [] (d ∷ t) = Ordering.lt
compare_text (c ∷ s) [] = Ordering.gt
compare_text (c ∷ s) (d ∷ t) = compare c d then_by compare_text s t

-- A comparison that orders its type, up to ties.
pub record IsOrder {A : Type 0} (cmp : A → A → Ordering) : Type 0 where
  pub flips : (a b : A) → cmp b a ≡ flip (cmp a b)
  pub lt_trans : (a b c : A) → cmp a b ≡ Ordering.lt → cmp b c ≡ Ordering.lt → cmp a c ≡ Ordering.lt
  pub eq_left : (a b c : A) → cmp a b ≡ Ordering.eq → cmp a c ≡ cmp b c

pub compare_ℕ-IsOrder : IsOrder compare
compare_ℕ-IsOrder = record {
  flips = λ a b. ground arith;
  lt_trans = λ a b c h k. ground arith;
  eq_left = λ a b c h. ground arith;
}

pub compare_ℤ-IsOrder : IsOrder compare_ℤ
compare_ℤ-IsOrder = record {
  flips = λ a b. ground arith;
  lt_trans = λ a b c h k. ground arith;
  eq_left = λ a b c h. ground arith;
}

pub compare_option-IsOrder : IsOrder compare_option
compare_option-IsOrder = record {
  flips = λ a b. ground arith;
  lt_trans = λ a b c h k. ground arith;
  eq_left = λ a b c h. ground arith;
}

compare_text-flips : (s t : Text) → compare_text t s ≡ flip (compare_text s t)
unfolding compare_text
compare_text-flips [] [] = refl
compare_text-flips [] (d ∷ t) = refl
compare_text-flips (c ∷ s) [] = refl
compare_text-flips (c ∷ s) (d ∷ t) = ground (arith, compare_text-flips s t)

compare_text-lt_trans :
    (s t u : Text)
    → compare_text s t ≡ Ordering.lt
    → compare_text t u ≡ Ordering.lt
    → compare_text s u ≡ Ordering.lt
unfolding compare_text
compare_text-lt_trans [] [] u h k = cc
compare_text-lt_trans [] (d ∷ t) [] h k = cc
compare_text-lt_trans [] (d ∷ t) (e ∷ u) h k = refl
compare_text-lt_trans (c ∷ s) [] u h k = cc
compare_text-lt_trans (c ∷ s) (d ∷ t) [] h k = cc
compare_text-lt_trans (c ∷ s) (d ∷ t) (e ∷ u) h k = ground (arith, compare_text-lt_trans s t u)

compare_text-eq_left :
    (s t u : Text) → compare_text s t ≡ Ordering.eq → compare_text s u ≡ compare_text t u
unfolding compare_text
compare_text-eq_left [] [] u h = refl
compare_text-eq_left [] (d ∷ t) u h = cc
compare_text-eq_left (c ∷ s) [] u h = cc
compare_text-eq_left (c ∷ s) (d ∷ t) [] h = refl
compare_text-eq_left (c ∷ s) (d ∷ t) (e ∷ u) h = ground (arith, compare_text-eq_left s t u)

pub compare_text-IsOrder : IsOrder compare_text
compare_text-IsOrder = record {
  flips = compare_text-flips;
  lt_trans = compare_text-lt_trans;
  eq_left = compare_text-eq_left;
}

module _ {A : Type 0} where
  pub then_by-IsOrder :
      {f g : A → A → Ordering} → IsOrder f → IsOrder g → IsOrder (λ a b. f a b then_by g a b)
  then_by-IsOrder {f} {g} p q = record {
    flips = λ a b. ground (arith, p.flips a b, q.flips a b);
    lt_trans = λ a b c h k. ground (
      arith,
      p.lt_trans a b c,
      q.lt_trans a b c,
      p.eq_left a b c,
      p.eq_left b c a,
      p.flips a b,
      p.flips a c,
      p.flips b c,
    );
    eq_left = λ a b c h. ground (arith, p.eq_left a b c, q.eq_left a b c);
  }

  pub by_key-IsOrder :
      {B : Type 0} {cmp : B → B → Ordering} (key : A → B)
      → IsOrder cmp
      → IsOrder (λ a b. cmp (key a) (key b))
  by_key-IsOrder key p = record {
    flips = λ a b. p.flips (key a) (key b);
    lt_trans = λ a b c. p.lt_trans (key a) (key b) (key c);
    eq_left = λ a b c. p.eq_left (key a) (key b) (key c);
  }

module _ {A : Type 0} (cmp : A → A → Ordering) where
  abbrev pub le : A → A → Bool
  le a b = not_gt (cmp a b)

  unfoldable pub insert_row : A → List A → List A
  insert_row a [] = a ∷ []
  insert_row a (x ∷ xs) = if le a x then a ∷ x ∷ xs else x ∷ insert_row a xs

  unfoldable pub order_by : List A → List A
  unfolding insert_row
  order_by [] = []
  order_by (x ∷ xs) = insert_row x (order_by xs)

  abbrev pub IsSorted : List A → Type 0
  IsSorted [] = Unit
  IsSorted (x ∷ xs) = All (λ y. le x y ≡ true) xs × IsSorted xs
