-- ===== src/Common/Sorting/Laws.antt =====
-- Sorting keeps the rows and puts them in order.
use mathlib.Core.Path.{◌≡◌, refl, ap, ◌∙◌}
use mathlib.Core.Bool.{true, false}
use mathlib.Core.List.{List, [], ◌∷◌, map}
use Prim.Native.Nat.{Ordering}
use native.Mathlib.Omega.{arith}
use lillian_backend.Common.Lists.{All}
use lillian_backend.Common.Sorting.{IsOrder, le, insert_row, order_by, IsSorted}

module _ {A : Type 0} (cmp : A → A → Ordering) (P : A → Type 0) where
  pub insert_row-All : (a : A) (xs : List A) → P a → All P xs → All P (insert_row cmp a xs)
  unfolding insert_row
  insert_row-All a [] p h = (p, tt)
  insert_row-All a (x ∷ xs) p h = ground (arith, insert_row-All a xs p h.1)

  pub All-insert_row : (a : A) (xs : List A) → All P (insert_row cmp a xs) → P a × All P xs
  unfolding insert_row
  All-insert_row a [] h = h
  All-insert_row a (x ∷ xs) h = ground (arith, All-insert_row a xs)

  pub order_by-All : (xs : List A) → All P xs → All P (order_by cmp xs)
  unfolding order_by
  order_by-All [] h = tt
  order_by-All (x ∷ xs) h = insert_row-All x (order_by cmp xs) h.0 (order_by-All xs h.1)

  pub All-order_by : (xs : List A) → All P (order_by cmp xs) → All P xs
  unfolding order_by
  All-order_by [] h = tt
  All-order_by (x ∷ xs) h =
      let (p, k) = All-insert_row x (order_by cmp xs) h in (p, All-order_by xs k)

module _ {A : Type 0} {cmp : A → A → Ordering} (o : IsOrder cmp) where
  pub le_trans : (a b c : A) → le cmp a b ≡ true → le cmp b c ≡ true → le cmp a c ≡ true
  le_trans a b c h k = ground (
    arith,
    o.lt_trans a b c,
    o.eq_left a b c,
    o.eq_left b c a,
    o.flips a b,
    o.flips a c,
    o.flips b c,
  )

  pub le_total : (a b : A) → le cmp a b ≡ false → le cmp b a ≡ true
  le_total a b h = ground (arith, o.flips a b)

  All-le_trans :
      (a b : A) (xs : List A)
      → le cmp a b ≡ true
      → All (λ y. le cmp b y ≡ true) xs
      → All (λ y. le cmp a y ≡ true) xs
  All-le_trans a b [] h k = tt
  All-le_trans a b (x ∷ xs) h k = (le_trans a b x h k.0, All-le_trans a b xs h k.1)

  insert_row-IsSorted : (a : A) (xs : List A) → IsSorted cmp xs → IsSorted cmp (insert_row cmp a xs)
  unfolding insert_row
  insert_row-IsSorted a [] h = (tt, tt)
  insert_row-IsSorted a (x ∷ xs) h = ground (
    arith,
    All-le_trans a x xs,
    le_total a x,
    insert_row-All cmp (λ y. le cmp x y ≡ true) a xs,
    insert_row-IsSorted a xs h.1,
  )

  pub order_by-IsSorted : (xs : List A) → IsSorted cmp (order_by cmp xs)
  unfolding order_by
  order_by-IsSorted [] = tt
  order_by-IsSorted (x ∷ xs) = insert_row-IsSorted x (order_by cmp xs) (order_by-IsSorted xs)

-- A change of the rows that the comparison does not see keeps their order.
module _ {A : Type 0} (cmp : A → A → Ordering) (f : A → A)
    (same : (a b : A) → cmp (f a) (f b) ≡ cmp a b) where
  insert_row-map :
      (a : A) (xs : List A) → insert_row cmp (f a) (map f xs) ≡ map f (insert_row cmp a xs)
  unfolding insert_row
  insert_row-map a [] = refl
  insert_row-map a (x ∷ xs) = ground (arith, same a x, insert_row-map a xs)

  pub order_by-map : (xs : List A) → order_by cmp (map f xs) ≡ map f (order_by cmp xs)
  unfolding order_by
  order_by-map [] = refl
  order_by-map (x ∷ xs) =
      ap (insert_row cmp (f x)) (order_by-map xs) ∙ insert_row-map x (order_by cmp xs)
