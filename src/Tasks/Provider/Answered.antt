-- ===== src/Tasks/Provider/Answered.antt =====
-- What a call of a provider that succeeds has sent and received (tasks.go: callImageService).
use lillian_backend.Common.{
  ◌≤◌, ◌≡◌, refl, ap, sym, ◌∙◌, Text, codes, is_nil, length, All, ◌⊎◌, inl, inr, false, Option,
  none, some, List, [], ◌∷◌, Result, Result-cases, Bool-cases, ok, err, arith, subst,
}
use lillian_backend.Schema.{TaskPayload, ServiceProfileRow}
use lillian_backend.Secrets.{Crypto, decrypt_secret}
use lillian_backend.Tasks.Execute.{ImageResult, ImageServiceResult}
use lillian_backend.Tasks.Provider.Sizes.{Floats}
use lillian_backend.Tasks.Provider.Images.{Decoders}
use lillian_backend.Tasks.Provider.Requests.{
  Body, posted, generation_body, ProviderRequest, provider_request, endpoint_url, edit_body,
}
use lillian_backend.Tasks.Provider.{
  ProviderResponse, AnswerItem, Answer, Client, is_failure, image_of, with_image, collect_images,
  result_of, read_items, read_response, send_request, request_with, call_image_service,
}

-- Some element has the property.
abbrev pub Any : (AnswerItem → Type 0) → List AnswerItem → Type 0
Any P [] = ⊥
Any P (x ∷ xs) = P x ⊎ Any P xs

module _ (crypto : Crypto) (fl : Floats) (d : Decoders) (client : Client) where
  -- The image is what one of the items gives.
  abbrev pub CameFrom : List AnswerItem → ImageResult → Type 0
  CameFrom items image = Any (λ item. image_of crypto fl d client item ≡ ok (some image)) items

  All-later :
      (item : AnswerItem) (items : List AnswerItem) (images : List ImageResult)
      → All (CameFrom items) images
      → All (CameFrom (item ∷ items)) images
  All-later item items [] h = tt
  All-later item items (image ∷ images) h = (inr h.0, All-later item items images h.1)

  joined :
      (item : AnswerItem) (items : List AnswerItem) (found : Option ImageResult)
      (images : List ImageResult)
      → image_of crypto fl d client item ≡ ok found
      → All (CameFrom items) images × (length images ≤ length items)
      → All (CameFrom (item ∷ items)) (with_image crypto fl d client found images)
        × (length (with_image crypto fl d client found images) ≤ length (item ∷ items))
  joined item items none images e h = (All-later item items images h.0, omega arith)
  joined item items (some image) images e h =
      ((inl e, All-later item items images h.0), omega arith)

  collected :
      (items : List AnswerItem) (images : List ImageResult)
      → collect_images crypto fl d client items ≡ ok images
      → All (CameFrom items) images × (length images ≤ length items)
  unfolding collect_images
  collected [] images h =
      let same : [] ≡ images = cc in
      subst (λ l. All (CameFrom []) l × (length l ≤ 0)) same (tt, omega arith)
  collected (item ∷ items) images h = elim (Result-cases (image_of crypto fl d client item)) [
    | inl (found, e) ↦ elim (Result-cases (collect_images crypto fl d client items)) [
      | inl (more, f) ↦
          let same : with_image crypto fl d client found more ≡ images = grind arith in
          subst (λ l. All (CameFrom (item ∷ items)) l × (length l ≤ length (item ∷ items))) same
            (joined item items found more e (collected items more f))
      | inr (x, f) ↦ absurd (grind arith)
    ]
    | inr (x, e) ↦ absurd (grind arith)
  ]

  posted_ok :
      (url key : Text) (b : Result Text Body) (r : ProviderRequest)
      → posted fl d url key b ≡ ok r
      → (r.api_key ≡ key) × (r.url ≡ url)
  posted_ok url key (ok b) r h = grind arith
  posted_ok url key (err e) r h = cc

  -- What is asked of a provider goes to an address under its base, with its own key.
  addressed :
      (key : Text) (p : ServiceProfileRow) (body : TaskPayload) (r : ProviderRequest)
      → provider_request fl d key p body ≡ ok r
      → (r.api_key ≡ key)
        × ((r.url ≡ endpoint_url p (codes "images/generations"))
            ⊎ (r.url ≡ endpoint_url p (codes "images/edits")))
  unfolding provider_request
  addressed key p body r h = elim (Bool-cases (is_nil body.input_image_data_urls)) [
    | inl plain ↦
        let (k, u) =
          posted_ok (endpoint_url p (codes "images/generations")) key
            (ok (generation_body fl d p body)) r (grind arith) in
        (k, inl u)
    | inr edits ↦
        let (k, u) =
          posted_ok (endpoint_url p (codes "images/edits")) key (edit_body fl d p body) r
            (grind arith) in
        (k, inr u)
  ]

  result_of_ok :
      (a : Answer) (images : List ImageResult) (result : ImageServiceResult)
      → result_of crypto fl d client a (ok images) ≡ ok result
      → (is_nil result.images ≡ false) × (images ≡ result.images)
  unfolding result_of
  result_of_ok a [] result h = cc
  result_of_ok a (image ∷ images) result h = grind arith

  read_items_ok :
      (a : Answer) (result : ImageServiceResult)
      → read_items crypto fl d client (ok a) ≡ ok result
      → (is_nil result.images ≡ false)
        × (collect_images crypto fl d client a.items ≡ ok result.images)
  unfolding read_items
  read_items_ok a result h = elim (Result-cases (collect_images crypto fl d client a.items)) [
    | inl (images, e) ↦
        let (some_image, same) = result_of_ok a images result (grind arith) in
        (some_image, e ∙ ap ok same)
    | inr (x, e) ↦ absurd (grind (arith, result_of))
  ]

  read_response_ok :
      (r : Result Text ProviderResponse) (result : ImageServiceResult)
      → read_response crypto fl d client r ≡ ok result
      → (response : ProviderResponse) × (answer : Answer) × (r ≡ ok response)
        × (is_failure response ≡ false)
        × (client.decode_answer response.body ≡ ok answer)
        × (is_nil result.images ≡ false)
        × (collect_images crypto fl d client answer.items ≡ ok result.images)
  unfolding read_response
  read_response_ok (err e) result h = cc
  read_response_ok (ok response) result h = elim (Bool-cases (is_failure response)) [
    | inl bad ↦ absurd (grind arith)
    | inr fine ↦ elim (Result-cases (client.decode_answer response.body)) [
      | inl (answer, e) ↦
          let (some_image, images) = read_items_ok answer result (grind arith) in
          (response, answer, refl, fine, e, some_image, images)
      | inr (x, e) ↦ absurd (grind (arith, read_items))
    ]
  ]

  send_ok :
      (r : Result Text ProviderRequest) (response : ProviderResponse)
      → send_request crypto fl d client r ≡ ok response
      → (request : ProviderRequest) × (r ≡ ok request) × (client.send request ≡ ok response)
  send_ok (ok request) response h = (request, refl, h)
  send_ok (err e) response h = cc

  request_ok :
      (key : Result Text Text) (p : ServiceProfileRow) (body : TaskPayload) (r : ProviderRequest)
      → request_with crypto fl d client key p body ≡ ok r
      → (k : Text) × (key ≡ ok k) × (provider_request fl d k p body ≡ ok r)
  request_ok (ok k) p body r h = (k, refl, h)
  request_ok (err e) p body r h = cc

  -- A call that succeeds has sent one request, to an address under the profile's base, with the key
  -- that is stored for the profile; the provider answered it with a status from 200 to 299 and an
  -- answer that decodes; and the images, of which there is at least one and no more than the answer
  -- has items, each came from an item of that answer, by its data or by its address.
  pub call_image_service-answered :
      (provider_secret : Text) (p : ServiceProfileRow) (body : TaskPayload)
      (result : ImageServiceResult)
      → call_image_service crypto fl d client provider_secret p body ≡ ok result
      → (request : ProviderRequest) × (response : ProviderResponse) × (answer : Answer)
        × (decrypt_secret crypto provider_secret p.api_key_ciphertext ≡ ok request.api_key)
        × ((request.url ≡ endpoint_url p (codes "images/generations"))
            ⊎ (request.url ≡ endpoint_url p (codes "images/edits")))
        × (client.send request ≡ ok response)
        × (is_failure response ≡ false)
        × (client.decode_answer response.body ≡ ok answer)
        × (is_nil result.images ≡ false)
        × (length result.images ≤ length answer.items)
        × All (CameFrom answer.items) result.images
  unfolding call_image_service
  call_image_service-answered provider_secret p body result h =
      let (response, answer, sent, fine, decoded, some_image, images) =
        read_response_ok _ result h in
      let (request, posted_one, got) = send_ok _ response sent in
      let (key, opened, made) = request_ok _ p body request posted_one in
      let (same_key, address) = addressed key p body request made in
      let (came, few) = collected answer.items result.images images in
      (
        request,
        response,
        answer,
        opened ∙ ap ok (sym same_key),
        address,
        got,
        fine,
        decoded,
        some_image,
        few,
        came,
      )
