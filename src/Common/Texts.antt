-- ===== src/Common/Texts.antt =====
-- Go's strings as lists of code points, and what the program uses of package strings. Letters
-- outside ASCII have no case here; white space is that of unicode.IsSpace.
pub mod Numerals
use Prim.Native.Nat.{ℕ, zero, suc, ◌+◌, ◌-◌, ◌*◌, ◌/◌, ◌%◌, ◌^◌}
use Prim.Native.Char.{code}
use Prim.Native.String.{String}
use mathlib.Core.Path.{◌≡◌, refl}
use mathlib.Core.Logic.{◌↔◌}
use mathlib.Core.Bool.{Bool, true, false, ◌&&◌, ◌||◌}
use mathlib.Core.List.{List, [], ◌∷◌, ◌++◌, map, reverse}
use mathlib.Core.Option.{Option, none, some}
use lillian_backend.Common.Int.{ℤ, pos, sub_ℕ}
use native.Mathlib.Omega.{arith}
use lillian_backend.Common.Tests.{leb, ◌==◌, if◌then◌else◌}
use lillian_backend.Common.Lists.{is_nil}

abbrev pub Text : Type 0
Text = List ℕ

-- A literal.
abbrev pub codes : String → Text
codes String.[] = []
codes (String.◌∷◌ c s) = code c ∷ codes s

unfoldable pub text_eq : Text → Text → Bool
text_eq [] [] = true
text_eq [] (d ∷ t) = false
text_eq (c ∷ s) [] = false
text_eq (c ∷ s) (d ∷ t) = (c == d) && text_eq s t

pub text_eq_iff : (s t : Text) → (text_eq s t ≡ true) ↔ (s ≡ t)
unfolding text_eq
text_eq_iff [] [] = (λ _. refl, λ _. refl)
text_eq_iff [] (d ∷ t) = (λ h. cc, λ h. cc)
text_eq_iff (c ∷ s) [] = (λ h. cc, λ h. cc)
text_eq_iff (c ∷ s) (d ∷ t) = ground (arith, text_eq_iff s t)

pub text_eq_refl : (s : Text) → text_eq s s ≡ true
text_eq_refl s = (text_eq_iff s s).1 refl

unfoldable pub is_space : ℕ → Bool
is_space c =
    (leb 9 c && leb c 13)
    || c == 32
    || c == 0x85
    || c == 0xa0
    || c == 0x1680
    || (leb 0x2000 c && leb c 0x200a)
    || c == 0x2028
    || c == 0x2029
    || c == 0x202f
    || c == 0x205f
    || c == 0x3000

unfoldable pub trim_left : Text → Text
trim_left [] = []
trim_left (c ∷ s) = if is_space c then trim_left s else c ∷ s

unfoldable pub trim_right : Text → Text
trim_right [] = []
trim_right (c ∷ s) = let rest = trim_right s in if is_nil rest && is_space c then [] else c ∷ rest

-- strings.TrimSpace
unfoldable pub trim_space : Text → Text
unfolding is_space trim_left trim_right
trim_space s = trim_right (trim_left s)

unfoldable pub lower_code : ℕ → ℕ
lower_code c = if leb b'A' c && leb c b'Z' then c + 32 else c

unfoldable pub upper_code : ℕ → ℕ
upper_code c = if leb b'a' c && leb c b'z' then c - 32 else c

-- strings.ToLower
unfoldable pub to_lower : Text → Text
unfolding lower_code
to_lower s = map lower_code s

-- strings.ToUpper
unfoldable pub to_upper : Text → Text
unfolding upper_code
to_upper s = map upper_code s

-- strings.EqualFold
unfoldable pub equal_fold : Text → Text → Bool
unfolding to_lower text_eq
equal_fold s t = text_eq (to_lower s) (to_lower t)

-- strings.HasPrefix(s, t)
unfoldable pub has_prefix : Text → Text → Bool
has_prefix s [] = true
has_prefix [] (d ∷ t) = false
has_prefix (c ∷ s) (d ∷ t) = (c == d) && has_prefix s t

-- strings.Contains(s, t)
unfoldable pub contains : Text → Text → Bool
unfolding has_prefix
contains [] t = is_nil t
contains (c ∷ s) t = has_prefix (c ∷ s) t || contains s t

-- strings.Join
unfoldable pub join : Text → List Text → Text
join sep [] = []
join sep (s ∷ []) = s
join sep (s ∷ t ∷ ts) = s ++ (sep ++ join sep (t ∷ ts))

-- strings.FieldsFunc(s, is_gap), where `word` is the part of a field that has been read.
unfoldable pub fields_by : (ℕ → Bool) → Text → Text → List Text
fields_by is_gap word [] = if is_nil word then [] else word ∷ []
fields_by is_gap word (c ∷ s) =
    let fresh = fields_by is_gap [] s in
    let longer = fields_by is_gap (word ++ c ∷ []) s in
    if is_gap c then if is_nil word then fresh else word ∷ fresh else longer

-- One code more at the front of the first part.
abbrev pub cons_first : ℕ → List Text → List Text
cons_first c [] = (c ∷ []) ∷ []
cons_first c (s ∷ ss) = (c ∷ s) ∷ ss

-- strings.Split(s, d) for one character
unfoldable pub split_at : ℕ → Text → List Text
split_at d [] = [] ∷ []
split_at d (c ∷ s) = let rest = split_at d s in if c == d then [] ∷ rest else cons_first c rest

-- The first of two texts that is not empty.
abbrev pub or_text : Text → Text → Text
or_text a b = if is_nil a then b else a

-- strings.TrimRight(s, cutset) for a cutset of one character
unfoldable pub trim_right_of : ℕ → Text → Text
trim_right_of d [] = []
trim_right_of d (c ∷ s) =
    let rest = trim_right_of d s in if is_nil rest && c == d then [] else c ∷ rest

-- strings.TrimLeft(s, cutset) for a cutset of one character
unfoldable pub trim_left_of : ℕ → Text → Text
trim_left_of d [] = []
trim_left_of d (c ∷ s) = if c == d then trim_left_of d s else c ∷ s

-- The digits of a number, the last one first; the fuel bounds how many.
digits_down : ℕ → ℕ → Text
digits_down zero n = []
digits_down (suc fuel) n =
    let more = digits_down fuel (n / 10) in
    if n / 10 == 0 then (b'0' + n % 10) ∷ [] else (b'0' + n % 10) ∷ more

-- strconv.Itoa of a number that is not negative; n + 1 digits are more than enough.
unfoldable pub decimal : ℕ → Text
unfolding digits_down
decimal n = reverse (digits_down (suc n) n)

digit_value : ℕ → Option ℕ
digit_value c = if leb b'0' c && leb c b'9' then some (c - b'0') else none

digits_from : ℕ → Text → Option ℕ
digits_from acc [] = some acc
digits_from acc (c ∷ s) = elim (digit_value c) [
  | none ↦ none
  | some d ↦ digits_from (acc * 10 + d) s
]

unfoldable pub parse_digits : Text → Option ℕ
unfolding digit_value digits_from
parse_digits [] = none
parse_digits (c ∷ s) = digits_from 0 (c ∷ s)

-- The range of a 64-bit int.
fits_pos : Option ℕ → Option ℤ
fits_pos none = none
fits_pos (some n) = if leb n (2 ^ 63 - 1) then some (pos n) else none

fits_neg : Option ℕ → Option ℤ
fits_neg none = none
fits_neg (some n) = if leb n (2 ^ 63) then some (sub_ℕ 0 n) else none

-- strconv.Atoi, with `none` for its error
unfoldable pub atoi : Text → Option ℤ
unfolding parse_digits fits_pos fits_neg
atoi [] = none
atoi (c ∷ s) =
    if c == b'-'
    then fits_neg (parse_digits s)
    else if c == b'+'
    then fits_pos (parse_digits s)
    else fits_pos (parse_digits (c ∷ s))
