-- ===== src/Common/Tables/Laws.antt =====
-- Sums and counts over a table, under UPDATE and INSERT.
use Prim.Native.Nat.{◌+◌, ◌≤◌}
use mathlib.Core.Path.{◌≡◌, refl, ap}
use mathlib.Core.Bool.{Bool, true, false}
use mathlib.Core.Option.{none, some}
use mathlib.Core.List.{List, [], ◌∷◌, ◌++◌, map}
use native.Mathlib.Omega.{arith}
use lillian_backend.Common.Tests.{if◌then◌else◌, Bool-cases}
use mathlib.Core.Logic.{inl, inr}
use lillian_backend.Common.Int.{ℤ, pos_part, neg_part, ◌+ℤ◌, int_laws}
use lillian_backend.Common.Tables.{find_where, select_where, update_where, count_where, sum_by}

module _ {ℓ} {A : Type ℓ} where
  pub sum_by-append :
      (f : A → ℤ) (xs ys : List A) → sum_by f (xs ++ ys) ≡ sum_by f xs +ℤ sum_by f ys
  unfolding sum_by
  sum_by-append f [] ys = omega int_laws
  sum_by-append f (x ∷ xs) ys = grind (int_laws, sum_by-append f xs ys)

  pub count_where-append :
      (p : A → Bool) (xs ys : List A)
      → count_where p (xs ++ ys) ≡ count_where p xs + count_where p ys
  unfolding count_where
  count_where-append p [] ys = omega arith
  count_where-append p (x ∷ xs) ys = omega (arith, count_where-append p xs ys)

  -- An UPDATE that fits no row.
  pub update_where_none :
      (p : A → Bool) (g : A → A) (xs : List A) → count_where p xs ≡ 0 → update_where p g xs ≡ xs
  unfolding update_where count_where
  update_where_none p g [] h = refl
  update_where_none p g (x ∷ xs) h = ground (arith, update_where_none p g xs)

  pub find_where-none : (p : A → Bool) (xs : List A) → count_where p xs ≡ 0 → find_where p xs ≡ none
  unfolding find_where count_where
  find_where-none p [] h = refl
  find_where-none p (x ∷ xs) h = ground (arith, find_where-none p xs)

  pub find_where_sound :
      (p : A → Bool) (xs : List A) (a : A) → find_where p xs ≡ some a → p a ≡ true
  unfolding find_where
  find_where_sound p [] a h = cc
  find_where_sound p (x ∷ xs) a h = ground (arith, find_where_sound p xs a)

  -- What an UPDATE that leaves a quantity of every row alone does to its sum.
  pub sum_by-update_same :
      (f : A → ℤ) (p : A → Bool) (g : A → A) (xs : List A)
      → ((x : A) → p x ≡ true → f (g x) ≡ f x)
      → sum_by f (update_where p g xs) ≡ sum_by f xs
  unfolding sum_by update_where
  sum_by-update_same f p g [] h = refl
  sum_by-update_same f p g (x ∷ xs) h = ground (arith, h x, sum_by-update_same f p g xs h)

  -- An UPDATE of exactly one row moves the sum by what it moves that row.
  pub sum_by-update_one :
      (f : A → ℤ) (p : A → Bool) (g : A → A) (xs : List A) (a : A)
      → count_where p xs ≡ 1
      → find_where p xs ≡ some a
      → sum_by f (update_where p g xs) +ℤ f a ≡ sum_by f xs +ℤ f (g a)
  unfolding sum_by update_where count_where find_where
  sum_by-update_one f p g [] a c e = cc
  sum_by-update_one f p g (x ∷ xs) a c e = elim (Bool-cases (p x)) [
    | inl hit ↦ grind (int_laws, update_where_none p g xs)
    | inr miss ↦ grind (int_laws, sum_by-update_one f p g xs a)
  ]

  pub count_where_pos :
      (p : A → Bool) (xs : List A) → count_where p xs ≡ 1 → (a : A) × (find_where p xs ≡ some a)
  unfolding count_where find_where
  count_where_pos p [] c = absurd (omega arith)
  count_where_pos p (x ∷ xs) c = elim (Bool-cases (p x)) [
    | inl hit ↦ (x, ground arith)
    | inr miss ↦ let (a, e) = count_where_pos p xs (ground arith) in (a, ground arith)
  ]

  pub count_where-update_same :
      (q p : A → Bool) (g : A → A) (xs : List A)
      → ((x : A) → p x ≡ true → q (g x) ≡ q x)
      → count_where q (update_where p g xs) ≡ count_where q xs
  unfolding count_where update_where
  count_where-update_same q p g [] h = refl
  count_where-update_same q p g (x ∷ xs) h = ground (arith, h x, count_where-update_same q p g xs h)

  -- An UPDATE of exactly one row that moves every row it fits by the same amount.
  pub sum_by-update_by :
      (f : A → ℤ) (p : A → Bool) (g : A → A) (d : ℤ) (xs : List A)
      → ((x : A) → p x ≡ true → f (g x) ≡ f x +ℤ d)
      → count_where p xs ≡ 1
      → sum_by f (update_where p g xs) ≡ sum_by f xs +ℤ d
  sum_by-update_by f p g d xs h c =
      let (a, e) = count_where_pos p xs c in
      omega (
        int_laws,
        ap pos_part (h a (find_where_sound p xs a e)),
        ap neg_part (h a (find_where_sound p xs a e)),
        ap pos_part (sum_by-update_one f p g xs a c e),
        ap neg_part (sum_by-update_one f p g xs a c e),
      )

  -- The row that an UPDATE leaves where a search finds it.
  pub find_where-update :
      (q p : A → Bool) (g : A → A) (xs : List A) (a : A)
      → ((x : A) → q (g x) ≡ q x)
      → find_where q xs ≡ some a
      → find_where q (update_where p g xs) ≡ some (if p a then g a else a)
  unfolding find_where update_where
  find_where-update q p g [] a h e = cc
  find_where-update q p g (x ∷ xs) a h e = elim (Bool-cases (q x)) [
    | inl hit ↦ elim (Bool-cases (p x)) [ inl y ↦ grind (arith, h x) | inr n ↦ grind (arith, h x) ]
    | inr miss ↦ elim (Bool-cases (p x)) [
      | inl y ↦ grind (arith, h x, find_where-update q p g xs a h)
      | inr n ↦ grind (arith, h x, find_where-update q p g xs a h)
    ]
  ]

  pub count_where_found :
      (p : A → Bool) (xs : List A) (a : A)
      → find_where p xs ≡ some a
      → count_where p xs ≤ 1
      → count_where p xs ≡ 1
  unfolding find_where count_where
  count_where_found p [] a e h = absurd cc
  count_where_found p (x ∷ xs) a e h = elim (Bool-cases (p x)) [
    | inl y ↦ ground arith
    | inr n ↦ ground (arith, count_where_found p xs a)
  ]

module _ {ℓ κ} {A : Type ℓ} {B : Type κ} where
  pub select_where-map :
      (p : B → Bool) (f : A → B) (xs : List A)
      → select_where p (map f xs) ≡ map f (select_where (λ x. p (f x)) xs)
  unfolding select_where
  select_where-map p f [] = refl
  select_where-map p f (x ∷ xs) = ground (arith, select_where-map p f xs)

module _ {A : Type 0} (q r : A → Bool) (f : A → A) where
  pub find_where-update_all :
      (xs : List A) (a : A)
      → ((x : A) → r x ≡ true → q (f x) ≡ true)
      → ((x : A) → r x ≡ false → q x ≡ false)
      → find_where r xs ≡ some a
      → find_where q (update_where r f xs) ≡ some (f a)
  unfolding find_where update_where
  find_where-update_all [] a h k e = absurd cc
  find_where-update_all (x ∷ xs) a h k e = elim (Bool-cases (r x)) [
    | inl hit ↦ grind (arith, h x hit)
    | inr miss ↦ grind (arith, k x miss, find_where-update_all xs a h k)
  ]

  pub find_where-append :
      (xs : List A) (a : A)
      → ((x : A) → r x ≡ false → q x ≡ false)
      → q a ≡ true
      → find_where r xs ≡ none
      → find_where q (xs ++ a ∷ []) ≡ some a
  unfolding find_where
  find_where-append [] a k s e = ground arith
  find_where-append (x ∷ xs) a k s e = elim (Bool-cases (r x)) [
    | inl hit ↦ absurd (ground arith)
    | inr miss ↦ grind (arith, k x miss, find_where-append xs a k s)
  ]
