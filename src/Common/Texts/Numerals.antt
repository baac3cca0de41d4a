-- ===== src/Common/Texts/Numerals.antt =====
-- The decimal digits of a number (strconv.Itoa, strconv.Atoi).
use Prim.Native.Nat.{ℕ, zero, suc, ◌+◌, ◌-◌, ◌*◌, ◌/◌, ◌%◌, ◌^◌, ◌<◌}
use mathlib.Core.Path.{◌≡◌, refl, ap, sym, ◌∙◌, subst}
use mathlib.Core.Logic.{inl, inr}
use mathlib.Core.Bool.{true, false}
use mathlib.Core.List.{[], ◌∷◌, ◌++◌, reverse, reverse-cons}
use mathlib.Core.Option.{some}
use native.Mathlib.Omega.{arith}
use lillian_backend.Common.Tests.{leb, ◌==◌, Bool-cases, Option-cases}
use lillian_backend.Common.Lists.{is_nil, All, All-append}
use lillian_backend.Common.Int.{pos}
use lillian_backend.Common.Texts.{
  Text, digits_down, digit_value, digits_from, parse_digits, decimal, is_space, trim_left,
  trim_right, trim_space, atoi, fits_pos,
}

digits_from-append :
    (s t : Text) (acc m : ℕ)
    → digits_from acc s ≡ some m
    → digits_from acc (s ++ t) ≡ digits_from m t
unfolding digits_from
digits_from-append [] t acc m e = ap (λ x. digits_from x t) (grind arith)
digits_from-append (c ∷ s) t acc m e = elim (Option-cases (digit_value c)) [
  | inl bad ↦ absurd (grind arith)
  | inr (d, good) ↦ grind (arith, digits_from-append s t (acc * 10 + d) m)
]

digit_of : (d : ℕ) → d < 10 → digit_value (b'0' + d) ≡ some d
unfolding digit_value
digit_of d h = ground arith

one_digit : (m d : ℕ) → d < 10 → digits_from m ((b'0' + d) ∷ []) ≡ some (m * 10 + d)
unfolding digits_from
one_digit m d h = grind (arith, digit_of d h)

div_mod : (n : ℕ) → n / 10 * 10 + n % 10 ≡ n
div_mod n = omega arith

below_ten : (n : ℕ) → (n / 10 == 0) ≡ true → 0 * 10 + n % 10 ≡ n
below_ten n small = grind arith

shrinks : (n fuel : ℕ) → n < suc fuel → (n / 10 == 0) ≡ false → n / 10 < fuel
shrinks n fuel h large = grind arith

digits_down-read : (fuel n : ℕ) → n < fuel → digits_from 0 (reverse (digits_down fuel n)) ≡ some n
unfolding digits_down
digits_down-read zero n h = absurd (omega arith)
digits_down-read (suc fuel) n h = elim (Bool-cases (n / 10 == 0)) [
  | inl small ↦ rw small (one_digit 0 (n % 10) (omega arith) ∙ ap some (below_ten n small))
  | inr large ↦ rw large (
      ap (digits_from 0) (reverse-cons (b'0' + n % 10) (digits_down fuel (n / 10)))
      ∙ digits_from-append (reverse (digits_down fuel (n / 10))) ((b'0' + n % 10) ∷ []) 0 (n / 10)
          (digits_down-read fuel (n / 10) (shrinks n fuel h large))
      ∙ one_digit (n / 10) (n % 10) (omega arith)
      ∙ ap some (div_mod n))
]

abbrev pub IsDigit : ℕ → Type 0
IsDigit c = (leb b'0' c ≡ true) × (leb c b'9' ≡ true)

digits_down-digits : (fuel n : ℕ) → All IsDigit (digits_down fuel n)
unfolding digits_down
digits_down-digits zero n = tt
digits_down-digits (suc fuel) n = elim (Bool-cases (n / 10 == 0)) [
  | inl small ↦ rw small ((grind arith, grind arith), tt)
  | inr large ↦ rw large ((grind arith, grind arith), digits_down-digits fuel (n / 10))
]

All-reverse : (xs : Text) → All IsDigit xs → All IsDigit (reverse xs)
All-reverse [] h = tt
All-reverse (x ∷ xs) h =
    subst (All IsDigit) (sym (reverse-cons x xs))
      (All-append IsDigit (reverse xs) (x ∷ []) (All-reverse xs h.1) (h.0, tt))

pub decimal-digits : (n : ℕ) → All IsDigit (decimal n)
unfolding decimal
decimal-digits n = All-reverse (digits_down (suc n) n) (digits_down-digits (suc n) n)

digit_not_space : (c : ℕ) → IsDigit c → is_space c ≡ false
unfolding is_space
digit_not_space c h = ground arith

trim_right-digits : (s : Text) → All IsDigit s → trim_right s ≡ s
unfolding trim_right
trim_right-digits [] h = refl
trim_right-digits (c ∷ s) h = rw (trim_right-digits s h.1, digit_not_space c h.0) (grind arith)

trim_left-digits : (s : Text) → All IsDigit s → trim_left s ≡ s
unfolding trim_left
trim_left-digits [] h = refl
trim_left-digits (c ∷ s) h = rw (digit_not_space c h.0) refl

pub trim_space-digits : (s : Text) → All IsDigit s → trim_space s ≡ s
unfolding trim_space
trim_space-digits s h = rw (trim_left-digits s h) (trim_right-digits s h)

snoc_not_nil : (xs : Text) (x : ℕ) → is_nil (xs ++ x ∷ []) ≡ false
snoc_not_nil [] x = refl
snoc_not_nil (y ∷ xs) x = refl

reverse_not_nil : (x : ℕ) (xs : Text) → is_nil (reverse (x ∷ xs)) ≡ false
reverse_not_nil x xs = rw (reverse-cons x xs) (snoc_not_nil (reverse xs) x)

decimal_not_nil : (n : ℕ) → is_nil (decimal n) ≡ false
unfolding decimal digits_down
decimal_not_nil n = elim (Bool-cases (n / 10 == 0)) [
  | inl small ↦ rw small refl
  | inr large ↦ rw large (reverse_not_nil (b'0' + n % 10) (digits_down n (n / 10)))
]

atoi-digits :
    (s : Text) (n : ℕ)
    → All IsDigit s
    → is_nil s ≡ false
    → digits_from 0 s ≡ some n
    → leb n (2 ^ 63 - 1) ≡ true
    → atoi s ≡ some (pos n)
unfolding atoi fits_pos parse_digits
atoi-digits [] n h full read small = absurd (grind arith)
atoi-digits (c ∷ s) n h full read small = ground arith

pub atoi-decimal : (n : ℕ) → leb n (2 ^ 63 - 1) ≡ true → atoi (decimal n) ≡ some (pos n)
unfolding decimal
atoi-decimal n small =
    atoi-digits (decimal n) n (decimal-digits n) (decimal_not_nil n)
      (digits_down-read (suc n) n (omega arith)) small

pub atoi-trim_space :
    (n : ℕ) → leb n (2 ^ 63 - 1) ≡ true → atoi (trim_space (decimal n)) ≡ some (pos n)
atoi-trim_space n small =
    ap atoi (trim_space-digits (decimal n) (decimal-digits n)) ∙ atoi-decimal n small
