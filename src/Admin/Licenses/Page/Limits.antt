-- ===== src/Admin/Licenses/Page/Limits.antt =====
-- The numbers of a page: its limit, its offset, and the one row more that shows whether there is
-- a next page.
use lillian_backend.Common.{
  ℕ, zero, suc, ◌-◌, ◌^◌, ◌≤◌, ltb, leb, ℤ, pos, negsuc, ◌==◌, ◌||◌, ◌≡◌, refl, ap, Text, decimal,
  true, List, [], ◌∷◌, length, take, All, arith, Bool-cases, inl, inr,
}
use lillian_backend.Common.Texts.Numerals.{IsDigit, decimal-digits, trim_space-digits, atoi-decimal}
use lillian_backend.Numbers.{min_positive, positive_or}
use lillian_backend.Admin.Licenses.Page.{digits_of, number_prefix, int_from_string}

digits_of-digits : (s : Text) → All IsDigit s → digits_of s ≡ s
unfolding digits_of
digits_of-digits [] h = refl
digits_of-digits (c ∷ s) h = rw (h.0.0, h.0.1, digits_of-digits s h.1) refl

number_prefix-digits : (s : Text) → All IsDigit s → number_prefix s ≡ s
unfolding number_prefix
number_prefix-digits [] h = refl
number_prefix-digits (c ∷ s) h = elim (Bool-cases (c == b'-' || c == b'+')) [
  | inl sign ↦ absurd (ground (arith, h.0.0, h.0.1))
  | inr digit ↦ rw digit (digits_of-digits (c ∷ s) h)
]

pub int_from_string-decimal :
    (n : ℕ) → leb n (2 ^ 63 - 1) ≡ true → int_from_string (decimal n) ≡ pos n
unfolding int_from_string
int_from_string-decimal n small =
    rw
      (
        trim_space-digits (decimal n) (decimal-digits n),
        number_prefix-digits (decimal n) (decimal-digits n),
        atoi-decimal n small,
      )
      refl

pub positive_from : (n : ℤ) → (l : ℕ) × (min_positive n (pos 20) (pos 50) ≡ pos (suc l))
unfolding min_positive positive_or
positive_from (negsuc m) = (19, ground arith)
positive_from (pos zero) = (19, ground arith)
positive_from (pos (suc m)) = elim (Bool-cases (ltb 50 (suc m))) [
  | inl large ↦ (49, ground arith)
  | inr small ↦ (m, ground arith)
]

pub take-take : {A : Type 0} (n : ℕ) (xs : List A) → take n (take (suc n) xs) ≡ take n xs
take-take zero xs = refl
take-take (suc n) [] = refl
take-take (suc n) (x ∷ xs) = ap (λ ys. x ∷ ys) (take-take n xs)

-- One row more than n shows whether there are more than n.
pub more_than :
    {A : Type 0} (n : ℕ) (xs : List A) → ltb n (length (take (suc n) xs)) ≡ ltb n (length xs)
more_than n [] = refl
more_than zero (x ∷ xs) = ground arith
more_than (suc n) (x ∷ xs) = ground (arith, more_than n xs)

pub no_rows : {A : Type 0} (xs : List A) → length xs ≤ 0 → xs ≡ []
no_rows [] h = refl
no_rows (x ∷ xs) h = absurd (omega arith)
