-- ===== src/Admin/Wallets/Newest.antt =====
-- What a list of the newest rows holds: at most fifty rows that fit, all of them where there are no
-- more, the newest first.
use Prim.Native.Nat.{compare, Ordering}
use lillian_backend.Common.{
  ℕ, zero, suc, ◌≡◌, refl, ap, ◌∙◌, Bool, true, List, [], ◌∷◌, map, length, take, All, ltb,
  if◌then◌else◌, select_where, count_where, arith,
}
use lillian_backend.Common.Sorting.{IsOrder, le, order_by, insert_row, IsSorted, compare_ℕ-IsOrder}
use lillian_backend.Common.Sorting.Laws.{order_by-All, order_by-IsSorted}
use lillian_backend.Common.Sorting.First.{select_where-All}
use lillian_backend.Common.Tables.Updates.{take-All}
use lillian_backend.Admin.Wallets.{newest}

module _ {A : Type 0} where
  abbrev pub by_newest : (A → ℕ) → A → A → Ordering
  by_newest created a b = compare (created b) (created a)

  by_newest-IsOrder : (created : A → ℕ) → IsOrder (by_newest created)
  by_newest-IsOrder created = record {
    flips = λ a b. compare_ℕ-IsOrder.flips (created b) (created a);
    lt_trans = λ a b c h k. ground arith;
    eq_left = λ a b c h. ground arith;
  }

  take-IsSorted :
      (cmp : A → A → Ordering) (n : ℕ) (xs : List A) → IsSorted cmp xs → IsSorted cmp (take n xs)
  take-IsSorted cmp zero xs h = tt
  take-IsSorted cmp (suc n) [] h = tt
  take-IsSorted cmp (suc n) (x ∷ xs) h =
      (take-All (λ y. le cmp x y ≡ true) n xs h.0, take-IsSorted cmp n xs h.1)

  length-take :
      (n : ℕ) (xs : List A) → length (take n xs) ≡ (if ltb n (length xs) then n else length xs)
  length-take zero [] = ground arith
  length-take zero (x ∷ xs) = ground arith
  length-take (suc n) [] = ground arith
  length-take (suc n) (x ∷ xs) = ground (arith, length-take n xs)

  length-insert_row :
      (cmp : A → A → Ordering) (a : A) (xs : List A)
      → length (insert_row cmp a xs) ≡ suc (length xs)
  unfolding insert_row
  length-insert_row cmp a [] = refl
  length-insert_row cmp a (x ∷ xs) = ground (arith, length-insert_row cmp a xs)

  length-order_by : (cmp : A → A → Ordering) (xs : List A) → length (order_by cmp xs) ≡ length xs
  unfolding order_by
  length-order_by cmp [] = refl
  length-order_by cmp (x ∷ xs) =
      length-insert_row cmp x (order_by cmp xs) ∙ ap (λ n. suc n) (length-order_by cmp xs)

  length-select_where : (p : A → Bool) (xs : List A) → length (select_where p xs) ≡ count_where p xs
  unfolding select_where count_where
  length-select_where p [] = refl
  length-select_where p (x ∷ xs) = ground (arith, length-select_where p xs)

-- The list that is shown, of rows that are seen through a view that keeps their times.
pub record IsNewest {A B : Type 0} (fits : A → Bool) (view : A → B) (created : B → ℕ)
    (rows : List A) (shown : List B) : Type 0 where
  pub own : All (λ b. (a : A) × (fits a ≡ true) × (b ≡ view a)) shown
  pub count : length shown ≡ (if ltb 50 (count_where fits rows) then 50 else count_where fits rows)
  pub in_order : IsSorted (by_newest created) shown

module _ {A B : Type 0} (fits : A → Bool) (view : A → B) (at : A → ℕ) (created : B → ℕ)
    (same : (a : A) → created (view a) ≡ at a) where
  viewed-own :
      (xs : List A)
      → All (λ a. fits a ≡ true) xs
      → All (λ b. (a : A) × (fits a ≡ true) × (b ≡ view a)) (map view xs)
  viewed-own [] h = tt
  viewed-own (x ∷ xs) h = ((x, h.0, refl), viewed-own xs h.1)

  length-map : (xs : List A) → length (map view xs) ≡ length xs
  length-map [] = refl
  length-map (x ∷ xs) = ap (λ n. suc n) (length-map xs)

  viewed_below :
      (a : A) (xs : List A)
      → All (λ x. le (by_newest at) a x ≡ true) xs
      → All (λ b. le (by_newest created) (view a) b ≡ true) (map view xs)
  viewed_below a [] h = tt
  viewed_below a (x ∷ xs) h = (rw (same a, same x) h.0, viewed_below a xs h.1)

  viewed-IsSorted :
      (xs : List A) → IsSorted (by_newest at) xs → IsSorted (by_newest created) (map view xs)
  viewed-IsSorted [] h = tt
  viewed-IsSorted (x ∷ xs) h = (viewed_below x xs h.0, viewed-IsSorted xs h.1)

  pub newest-IsNewest :
      (rows : List A)
      → IsNewest fits view created rows (map view (newest at (select_where fits rows)))
  newest-IsNewest rows =
      let fit = select_where fits rows in
      let sorted = order_by (by_newest at) fit in
      record {
        own =
            viewed-own (take 50 sorted) (
              take-All _ 50 sorted
                (order_by-All (by_newest at) _ fit (select_where-All fits rows)));
        count = grind (
          arith,
          length-map (take 50 sorted),
          length-take 50 sorted,
          length-order_by (by_newest at) fit,
          length-select_where fits rows,
        );
        in_order =
            viewed-IsSorted (take 50 sorted) (
              take-IsSorted (by_newest at) 50 sorted
                (order_by-IsSorted (by_newest-IsOrder at) fit));
      }
