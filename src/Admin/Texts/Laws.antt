-- ===== src/Admin/Texts/Laws.antt =====
-- What the administrator's list of ids comes to (product_api.go: uniqueTrimmed).
use lillian_backend.Common.{
  ◌≡◌, refl, Text, text_eq, text_eq_iff, trim_space, is_nil, not, ◌&&◌, List, [], ◌∷◌, map,
  if◌then◌else◌, arith, count_where,
}
use lillian_backend.Profiles.{contains}
use lillian_backend.Admin.Texts.{unique_from, unique_trimmed}

unique_from-counts :
    (seen values : List Text) (v : Text)
    → count_where (text_eq v) (unique_from seen values) ≡ (
        if contains (map trim_space values) v && not (is_nil v) && not (contains seen v)
        then 1
        else 0)
unfolding unique_from count_where contains
unique_from-counts seen [] v = refl
unique_from-counts seen (x ∷ values) v = grind (
  arith,
  unique_from-counts seen values v,
  unique_from-counts (trim_space x ∷ seen) values v,
  text_eq_iff (trim_space x) v,
  text_eq_iff v (trim_space x),
)

-- A text is among the unique ids exactly when it is not empty and is one of the given texts with the
-- white space around it removed, and then it is there once.
pub unique_trimmed-once :
    (values : List Text) (v : Text)
    → count_where (text_eq v) (unique_trimmed values)
      ≡ (if contains (map trim_space values) v && not (is_nil v) then 1 else 0)
unfolding unique_trimmed contains
unique_trimmed-once values v = grind (arith, unique_from-counts [] values v)
