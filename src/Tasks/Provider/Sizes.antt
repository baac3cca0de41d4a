-- ===== src/Tasks/Provider/Sizes.antt =====
-- The aspect ratio that a size asks for (tasks.go: aspectRatioFromSize, absFloat). float64 is a
-- parameter.
use lillian_backend.Common.{
  ℕ, suc, ◌/◌, ◌==◌, ℤ, pos, Text, codes, trim_space, fields_by, decimal, atoi, ◌||◌, Bool, Option,
  none, some, List, [], ◌∷◌, ◌++◌, if◌then◌else◌,
}
use lillian_backend.Numbers.Gcd.{gcd}

-- `quotient a b` is the float64 next to a / b, as the compiler and the division of two int values
-- give it.
pub record Floats : Type 1 where
  pub float : Type 0
  pub quotient : ℕ → ℕ → float
  pub minus : float → float → float
  pub over : float → float → float
  pub negate : float → float
  pub less : float → float → Bool

-- 'x', 'X' and '×'
abbrev is_cross : ℕ → Bool
is_cross c = c == b'x' || c == b'X' || c == 0xd7

abbrev both_positive : Option ℤ → Option ℤ → Option (ℕ × ℕ)
both_positive (some (pos (suc w))) (some (pos (suc h))) = some (suc w, suc h)
both_positive _ _ = none

abbrev size_of_parts : List Text → Option (ℕ × ℕ)
size_of_parts (w ∷ h ∷ []) = both_positive (atoi (trim_space w)) (atoi (trim_space h))
size_of_parts _ = none

-- The width and the height, where the text has both and they are positive.
unfoldable pub parse_size : Text → Option (ℕ × ℕ)
parse_size size = size_of_parts (fields_by is_cross [] size)

unfoldable pub reduced : ℕ → ℕ → Text
unfolding gcd
reduced w h = elim (gcd w h) [
  | none ↦ []
  | some d ↦ decimal (w / d) ++ (codes ":" ++ decimal (h / d))
]

abbrev pub presets : List (Text × (ℕ × ℕ))
presets =
    (codes "9:16", (9, 16))
    ∷ (codes "16:9", (16, 9))
    ∷ (codes "3:4", (3, 4))
    ∷ (codes "4:3", (4, 3))
    ∷ (codes "1:1", (1, 1))
    ∷ []

module _ (fl : Floats) where
  abs_float : fl.float → fl.float
  abs_float x = if fl.less x (fl.quotient 0 1) then fl.negate x else x

  -- The loop over the presets: the best name and its distance.
  unfoldable pub best_preset : fl.float → Text → fl.float → List (Text × (ℕ × ℕ)) → Text × fl.float
  unfolding abs_float
  best_preset actual name delta [] = (name, delta)
  best_preset actual name delta ((n, (a, b)) ∷ rest) =
      let d = fl.over (abs_float (fl.minus actual (fl.quotient a b))) (fl.quotient a b) in
      if fl.less d delta then best_preset actual n d rest else best_preset actual name delta rest

  unfoldable pub ratio_of : ℕ × ℕ → Text
  unfolding best_preset reduced
  ratio_of (w, h) =
      let (name, delta) = best_preset (fl.quotient w h) [] (fl.quotient 10 1) presets in
      if fl.less delta (fl.quotient 3 100) then name else reduced w h

  unfoldable pub aspect_ratio_from_size : Text → Text
  unfolding parse_size ratio_of
  aspect_ratio_from_size size = elim (parse_size size) [ none ↦ [] | some wh ↦ ratio_of wh ]
