-- ===== src/Tasks/Provider/Requests.antt =====
-- The request for images that a provider gets (tasks.go: callImageService up to the call of the
-- client, createImageFormFile, endpointURL, intParam).
use lillian_backend.Common.{
  ℕ, suc, ℤ, pos, ltb_ℤ, Text, codes, text_eq, trim_left_of, trim_right_of, is_nil, decimal, Bool,
  Option, none, some, List, [], ◌∷◌, ◌++◌, if◌then◌else◌, Result, ok, err,
}
use lillian_backend.Schema.{
  Json, null, bool, num, str, other, Params, TaskPayload, ServiceProfileRow,
}
use lillian_backend.Params.{param, string_param_default}
use lillian_backend.Admin.RuntimeSettings.{itoa}
use lillian_backend.Payments.{atoi_value}
use lillian_backend.Billing.{normalize_task_size}
use lillian_backend.Tasks.Execute.{image_ext}
use lillian_backend.Tasks.Provider.Sizes.{Floats, aspect_ratio_from_size}
use lillian_backend.Tasks.Provider.Images.{Decoders, data_url_bytes, normalize_image_content_type}

abbrev int_of : Option Json → ℤ
int_of none = pos 0
int_of (some null) = pos 0
int_of (some (bool b)) = pos 0
int_of (some (num f g n)) = n
int_of (some (str s)) = atoi_value s
int_of (some (other s)) = pos 0

unfoldable pub int_param : Params → Text → ℤ
unfolding param atoi_value
int_param params key = int_of (param params key)

unfoldable pub endpoint_url : ServiceProfileRow → Text → Text
endpoint_url p path = trim_right_of b'/' p.api_base_url ++ b'/' ∷ trim_left_of b'/' path

-- A part of a multipart body: a field, or a file with its name and content type.
pub data Part : Type 0 where
  field : Text → Text → Part
  file : Text → Text → Text → List ℕ → Part

pub data Body : Type 0 where
  multipart : List Part → Body
  json : Params → Body

-- A POST; the key stands in the header Authorization, after "Bearer ".
pub record ProviderRequest : Type 0 where
  pub url : Text
  pub api_key : Text
  pub body : Body

abbrev field_unless_nil : Text → Text → List Part
field_unless_nil name value = if is_nil value then [] else field name value ∷ []

abbrev is_ohmytoken : ServiceProfileRow → Bool
is_ohmytoken p = text_eq p.api_mode (codes "ohmytoken")

module _ (fl : Floats) (d : Decoders) where
  abbrev request_size : TaskPayload → Text
  request_size body = (normalize_task_size body.params).0

  -- The fields before the files.
  unfoldable pub edit_fields : ServiceProfileRow → TaskPayload → List Part
  unfolding aspect_ratio_from_size string_param_default int_param itoa
  edit_fields p body =
      let n = int_param body.params (codes "n") in
      field (codes "model") p.model
      ∷ field (codes "prompt") body.prompt
      ∷ field (codes "size") (request_size body)
      ∷ ((if is_ohmytoken p
            then field_unless_nil (codes "aspect_ratio")
                (aspect_ratio_from_size fl (request_size body))
            else field (codes "output_format") (codes "png")
              ∷ field (codes "moderation")
                  (string_param_default body.params (codes "moderation") (codes "auto"))
              ∷ field (codes "quality")
                  (string_param_default body.params (codes "quality") (codes "auto"))
              ∷ [])
          ++ (if ltb_ℤ (pos 1) n then field (codes "n") (itoa n) ∷ [] else []))

  -- A file of the form, its name without the extension.
  image_part : Text → Text → Text → Result Text Part
  unfolding data_url_bytes normalize_image_content_type image_ext
  image_part name stem value = elim (data_url_bytes d value) [
    | err e ↦ err e
    | ok (bytes, given) ↦
        let content_type = normalize_image_content_type d bytes given in
        ok (file name (stem ++ (codes "." ++ image_ext content_type)) content_type bytes)
  ]

  -- The loop over the input images, from the i-th on.
  unfoldable pub input_parts : ℕ → List Text → Result Text (List Part)
  unfolding image_part
  input_parts i [] = ok []
  input_parts i (value ∷ values) =
      elim (image_part (codes "image[]") (codes "input-" ++ decimal (suc i)) value) [
        | err e ↦ err e
        | ok part ↦ elim (input_parts (suc i) values) [
          | err e ↦ err e
          | ok parts ↦ ok (part ∷ parts)
        ]
      ]

  unfoldable pub mask_parts : Text → Result Text (List Part)
  unfolding image_part
  mask_parts value =
      if is_nil value then ok [] else elim (image_part (codes "mask") (codes "mask") value) [
        | err e ↦ err e
        | ok part ↦ ok (part ∷ [])
      ]

  unfoldable pub edit_body : ServiceProfileRow → TaskPayload → Result Text Body
  unfolding edit_fields input_parts mask_parts
  edit_body p body = elim (input_parts 0 body.input_image_data_urls) [
    | err e ↦ err e
    | ok inputs ↦ elim (mask_parts body.mask_data_url) [
      | err e ↦ err e
      | ok mask ↦ ok (multipart (edit_fields p body ++ (inputs ++ mask)))
    ]
  ]

  abbrev pair_unless_nil : Text → Text → Params
  pair_unless_nil key value = if is_nil value then [] else (key, str value) ∷ []

  unfoldable pub generation_body : ServiceProfileRow → TaskPayload → Body
  unfolding aspect_ratio_from_size string_param_default int_param itoa
  generation_body p body =
      let n = int_param body.params (codes "n") in
      json (
        (codes "model", str p.model)
        ∷ (codes "prompt", str body.prompt)
        ∷ (codes "size", str (request_size body))
        ∷ ((if is_ohmytoken p
              then (codes "response_format", str (codes "b64_json"))
                ∷ pair_unless_nil (codes "aspect_ratio")
                    (aspect_ratio_from_size fl (request_size body))
              else (codes "output_format", str (codes "png"))
                ∷ (
                  codes "moderation",
                  str (string_param_default body.params (codes "moderation") (codes "auto")),
                )
                ∷ (
                  codes "quality",
                  str (string_param_default body.params (codes "quality") (codes "auto")),
                )
                ∷ [])
            ++ (if ltb_ℤ (pos 1) n then (codes "n", num (itoa n) (itoa n) n) ∷ [] else [])))

  abbrev pub posted : Text → Text → Result Text Body → Result Text ProviderRequest
  posted url key (err e) = err e
  posted url key (ok body) = ok (record { url = url; api_key = key; body = body })

  unfoldable pub provider_request :
      Text → ServiceProfileRow → TaskPayload → Result Text ProviderRequest
  unfolding edit_body generation_body endpoint_url
  provider_request key p body =
      if is_nil body.input_image_data_urls
      then posted (endpoint_url p (codes "images/generations")) key (ok (generation_body p body))
      else posted (endpoint_url p (codes "images/edits")) key (edit_body p body)
