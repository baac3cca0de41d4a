-- ===== src/Tasks/Provider.antt =====
-- The call of a provider (tasks.go: callImageService, downloadImage). The HTTP client, the JSON
-- decoder and encoder, and what the children take, are parameters; deadlines are not modelled.
pub mod Sizes
pub mod Images
pub mod Requests
pub mod Answered
use lillian_backend.Common.{
  ℕ, ltb, leb, Text, codes, trim_space, is_nil, or_text, decimal, take, ◌||◌, Bool, true, false,
  Option, none, some, List, [], ◌∷◌, ◌++◌, map, if◌then◌else◌, Result, ok, err,
}
use lillian_backend.Schema.{Json, str, Params, TaskPayload, ServiceProfileRow}
use lillian_backend.Secrets.{Crypto, decrypt_secret}
use lillian_backend.Tasks.Execute.{ImageResult, ImageServiceResult, Upstream}
use lillian_backend.Tasks.Provider.Sizes.{Floats}
use lillian_backend.Tasks.Provider.Images.{Decoders, image_mime}
use lillian_backend.Tasks.Provider.Requests.{ProviderRequest, provider_request}

pub record ProviderResponse : Type 0 where
  pub status_code : ℕ
  pub content_type : Text
  pub body : List ℕ

pub record AnswerItem : Type 0 where
  pub b64_json : Text
  pub url : Text
  pub revised_prompt : Text

-- The fields of the answer that are used.
pub record Answer : Type 0 where
  pub items : List AnswerItem
  pub size : Text
  pub aspect_ratio : Text
  pub quality : Text
  pub output_format : Text
  pub response_format : Text
  pub output_compression : Option Json
  pub moderation : Text
  pub n : Option Json

-- client.Do of the request and of a GET, with the body that is read; the JSON decoder of an answer;
-- and json.Marshal of the parameters and of the prompts.
pub record Client : Type 0 where
  pub send : ProviderRequest → Result Text ProviderResponse
  pub fetch : Text → Result Text ProviderResponse
  pub decode_answer : List ℕ → Result Text Answer
  pub marshal_params : Params → Text
  pub marshal_texts : List Text → Text

abbrev pub is_failure : ProviderResponse → Bool
is_failure r = ltb r.status_code 200 || leb 300 r.status_code

unfoldable pub read_download : Text → Result Text ProviderResponse → Result Text ImageResult
read_download fallback_mime (err e) = err e
read_download fallback_mime (ok r) =
    if is_failure r
    then err (codes "Image URL download failed with HTTP " ++ decimal r.status_code)
    else ok (record { bytes = r.body; content_type = or_text r.content_type fallback_mime })

abbrev text_unless_nil : Text → Text → Params
text_unless_nil key value = if is_nil value then [] else (key, str value) ∷ []

abbrev json_unless_none : Text → Option Json → Params
json_unless_none key none = []
json_unless_none key (some v) = (key, v) ∷ []

-- result.ActualParams
unfoldable pub actual_params : Answer → Params
actual_params a =
    text_unless_nil (codes "size") a.size
    ++ (text_unless_nil (codes "aspect_ratio") a.aspect_ratio
        ++ (text_unless_nil (codes "quality") a.quality
            ++ (text_unless_nil (codes "output_format") a.output_format
                ++ (text_unless_nil (codes "response_format") a.response_format
                    ++ (json_unless_none (codes "output_compression") a.output_compression
                        ++ (text_unless_nil (codes "moderation") a.moderation
                            ++ json_unless_none (codes "n") a.n))))))

module _ (crypto : Crypto) (fl : Floats) (d : Decoders) (client : Client) where
  abbrev as_png : Result Text (List ℕ) → Result Text (Option ImageResult)
  as_png (err e) = err e
  as_png (ok bytes) = ok (some (record { bytes = bytes; content_type = image_mime (codes "png") }))

  abbrev or_raw : Result Text (List ℕ) → Result Text (List ℕ) → Result Text (List ℕ)
  or_raw (ok bytes) raw = ok bytes
  or_raw (err e) raw = raw

  abbrev as_found : Result Text ImageResult → Result Text (Option ImageResult)
  as_found (err e) = err e
  as_found (ok image) = ok (some image)

  -- The image of an item; none where the item has neither data nor an address.
  unfoldable pub image_of : AnswerItem → Result Text (Option ImageResult)
  unfolding image_mime read_download
  image_of item =
      if is_nil item.b64_json
      then if is_nil item.url
        then ok none
        else as_found (read_download (image_mime (codes "png")) (client.fetch item.url))
      else as_png (or_raw (d.from_base64 item.b64_json) (d.from_raw_base64 item.b64_json))

  abbrev pub with_image : Option ImageResult → List ImageResult → List ImageResult
  with_image none images = images
  with_image (some image) images = image ∷ images

  -- The loop over the items.
  unfoldable pub collect_images : List AnswerItem → Result Text (List ImageResult)
  unfolding image_of
  collect_images [] = ok []
  collect_images (item ∷ items) = elim (image_of item) [
    | err e ↦ err e
    | ok image ↦ elim (collect_images items) [
      | err e ↦ err e
      | ok images ↦ ok (with_image image images)
    ]
  ]

  unfoldable pub result_of :
      Answer → Result Text (List ImageResult) → Result Text ImageServiceResult
  unfolding actual_params
  result_of a (err e) = err e
  result_of a (ok []) = err (codes "Image service returned no usable image data")
  result_of a (ok (image ∷ images)) = ok (record {
    images = image ∷ images;
    actual_params = client.marshal_params (actual_params a);
    revised_prompts = client.marshal_texts (map (λ i. i.revised_prompt) a.items);
  })

  unfoldable pub read_items : Result Text Answer → Result Text ImageServiceResult
  unfolding collect_images result_of
  read_items (err e) = err e
  read_items (ok a) =
      if is_nil a.items
      then err (codes "Image service returned no image data")
      else result_of a (collect_images a.items)

  -- At most 4096 bytes of the body of a failure are read.
  failure_of : ProviderResponse → Text
  failure_of r =
      if is_nil r.body
      then codes "Image service failed with HTTP " ++ decimal r.status_code
      else trim_space (crypto.text_of (take 4096 r.body))

  unfoldable pub read_response : Result Text ProviderResponse → Result Text ImageServiceResult
  unfolding failure_of read_items
  read_response (err e) = err e
  read_response (ok r) =
      if is_failure r then err (failure_of r) else read_items (client.decode_answer r.body)

  abbrev pub send_request : Result Text ProviderRequest → Result Text ProviderResponse
  send_request (err e) = err e
  send_request (ok request) = client.send request

  abbrev pub request_with :
      Result Text Text → ServiceProfileRow → TaskPayload → Result Text ProviderRequest
  request_with (err e) p body = err e
  request_with (ok key) p body = provider_request fl d key p body

  -- Over the secret that the keys are stored under.
  unfoldable pub call_image_service :
      Text → ServiceProfileRow → TaskPayload → Result Text ImageServiceResult
  unfolding decrypt_secret provider_request read_response
  call_image_service provider_secret p body = read_response (
      send_request
        (request_with (decrypt_secret crypto provider_secret p.api_key_ciphertext) p body))

  -- What executeTask is given.
  abbrev pub provider_upstream : Text → (Text → ImageResult → Option Text) → Upstream
  provider_upstream provider_secret put_bytes = record {
    call = call_image_service provider_secret;
    put_bytes = put_bytes;
  }
