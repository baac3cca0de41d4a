-- ===== src/Tasks/Provider/Images.antt =====
-- The images of a request, as data URLs, and their content types (tasks.go: dataURLBytes,
-- normalizeImageContentType, imageMime).
use lillian_backend.Common.{
  drop, ℕ, ◌==◌, Text, codes, text_eq, trim_space, to_lower, has_prefix, contains, is_nil, split_at,
  not, Option, none, some, List, [], ◌∷◌, ◌||◌, if◌then◌else◌, Result, ok, err,
}

-- base64.StdEncoding and base64.RawStdEncoding, url.QueryUnescape with the bytes of what it gives,
-- and http.DetectContentType.
pub record Decoders : Type 0 where
  pub from_base64 : Text → Result Text (List ℕ)
  pub from_raw_base64 : Text → Result Text (List ℕ)
  pub query_unescape : Text → Result Text (List ℕ)
  pub detect_content_type : List ℕ → Text

unfoldable pub image_mime : Text → Text
image_mime format =
    let f = to_lower format in
    if text_eq f (codes "jpeg") || text_eq f (codes "jpg")
    then codes "image/jpeg"
    else if text_eq f (codes "webp")
    then codes "image/webp"
    else codes "image/png"

abbrev with_front : ℕ → Option (Text × Text) → Option (Text × Text)
with_front c none = none
with_front c (some (before, after)) = some (c ∷ before, after)

-- The text before the first code d and the text after it.
unfoldable pub cut : ℕ → Text → Option (Text × Text)
cut d [] = none
cut d (c ∷ s) = let rest = cut d s in if c == d then some ([], s) else with_front c rest

abbrev first_part : List Text → Text
first_part [] = []
first_part (s ∷ ss) = s

abbrev typed : Text → Result Text (List ℕ) → Result Text (List ℕ × Text)
typed content_type (ok bytes) = ok (bytes, content_type)
typed content_type (err e) = err e

module _ (d : Decoders) where
  -- The text before the comma, without "data:", and the text after it.
  unfoldable pub decode_data_url : Text → Text → Result Text (List ℕ × Text)
  decode_data_url meta payload =
      let content_type =
        if is_nil meta then codes "application/octet-stream" else first_part (split_at b';' meta) in
      if contains meta (codes ";base64")
      then typed content_type (d.from_base64 payload)
      else typed content_type (d.query_unescape payload)

  unfoldable pub data_url_bytes : Text → Result Text (List ℕ × Text)
  unfolding cut decode_data_url
  data_url_bytes value =
      if not (has_prefix value (codes "data:"))
      then typed (codes "image/png") (d.from_base64 value)
      else elim (cut b',' value) [
        | none ↦ err (codes "invalid image data URL")
        | some (before, after) ↦ decode_data_url (drop 5 before) after
      ]

  unfoldable pub normalize_image_content_type : List ℕ → Text → Text
  unfolding image_mime
  normalize_image_content_type bytes content_type =
      let given = to_lower (trim_space (first_part (split_at b';' content_type))) in
      let detected = to_lower (trim_space (d.detect_content_type bytes)) in
      if has_prefix given (codes "image/")
      then given
      else if has_prefix detected (codes "image/")
      then detected
      else image_mime (codes "png")
