-- ===== src/Admin/Texts.antt =====
-- How the administrator's inputs are normalised (product_api.go).
pub mod Laws
use lillian_backend.Common.{
  ℕ, Text, codes, text_eq, trim_space, to_lower, equal_fold, is_nil, trim_right_of, not, ◌&&◌, ◌||◌,
  Bool, true, false, List, [], ◌∷◌, ◌++◌, if◌then◌else◌,
}
use lillian_backend.Profiles.{contains}
use lillian_backend.Wallets.{service_code_image2_sd, service_code_image2_hd}

-- The loop of uniqueTrimmed, with the values seen so far.
unfoldable pub unique_from : List Text → List Text → List Text
unfolding contains
unique_from seen [] = []
unique_from seen (v ∷ values) =
    let fresh = unique_from (trim_space v ∷ seen) values in
    let rest = unique_from seen values in
    if is_nil (trim_space v) || contains seen (trim_space v) then rest else trim_space v ∷ fresh

unfoldable pub unique_trimmed : List Text → List Text
unfolding unique_from
unique_trimmed values = unique_from [] values

unfoldable pub first_non_empty : List Text → Text
first_non_empty [] = []
first_non_empty (v ∷ values) =
    let rest = first_non_empty values in if is_nil (trim_space v) then rest else v

unfoldable pub normalize_tier_bucket : Text → Text
normalize_tier_bucket value =
    if equal_fold (trim_space value) (codes "hd") then codes "hd" else codes "1k"

unfoldable pub normalize_service_code : Text → Text
normalize_service_code value =
    if text_eq (to_lower (trim_space value)) service_code_image2_hd
    then service_code_image2_hd
    else service_code_image2_sd

unfoldable pub normalize_api_mode : Text → Text
normalize_api_mode value =
    let mode = to_lower (trim_space value) in
    if text_eq mode (codes "ohmytoken") || text_eq mode (codes "responses")
    then mode
    else codes "images"

-- strings.HasSuffix(value, "/v1")
unfoldable pub has_suffix : Text → Text → Bool
has_suffix [] t = is_nil t
has_suffix (c ∷ s) t = text_eq (c ∷ s) t || has_suffix s t

unfoldable pub normalize_base_url : Text → Text
unfolding has_suffix
normalize_base_url value =
    let base = trim_right_of b'/' (trim_space value) in
    if is_nil base || has_suffix base (codes "/v1") then base else base ++ codes "/v1"
