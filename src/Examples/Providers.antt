-- ===== src/Examples/Providers.antt =====
-- The theorems on the call of a provider, on stored secrets, on the configuration and on gcd, at
-- concrete inputs. The cipher leaves the text as it is, and base64 moves each byte past the dot.
use lillian_backend.Common.{
  ℕ, ◌+◌, ◌-◌, ◌≤◌, ◌==◌, ltb, ℤ, pos, ◌≤ℤ◌, ◌≡◌, refl, Text, codes, is_nil, length, All, ◌⊎◌, Bool,
  true, false, Option, none, some, List, [], ◌∷◌, ◌++◌, map, Result, ok, err, arith,
}
use lillian_backend.Schema.{ServiceProfileRow}
use lillian_backend.Secrets.{Crypto, encrypt_secret, decrypt_secret}
use lillian_backend.Secrets.Stored.{IsSound, decrypt-encrypt}
use lillian_backend.Config.{Config, load}
use lillian_backend.Config.Loaded.{ends_in_slash, load-ok}
use lillian_backend.Numbers.Gcd.{gcd, IsGreatest, gcd_runs}
use lillian_backend.Tasks.Execute.{ImageServiceResult}
use lillian_backend.Tasks.Provider.Sizes.{Floats}
use lillian_backend.Tasks.Provider.Images.{Decoders}
use lillian_backend.Tasks.Provider.Requests.{ProviderRequest, endpoint_url}
use lillian_backend.Tasks.Provider.{
  ProviderResponse, Answer, Client, is_failure, call_image_service,
}
use lillian_backend.Tasks.Provider.Answered.{CameFrom, call_image_service-answered}
use lillian_backend.Examples.{a_profile, a_payload}

abbrev moved : List ℕ → Text
moved bytes = map (λ b. b + 47) bytes

abbrev moved_back : Text → Result Text (List ℕ)
moved_back s = ok (map (λ b. b - 47) s)

abbrev pub a_crypto : Crypto
a_crypto = record {
  sha256 = λ b. b;
  seal = λ key iv plain. plain;
  unseal = λ key iv b. some b;
  base64 = moved;
  from_base64 = moved_back;
  base32 = moved;
  hex = moved;
  bytes_of = λ s. s;
  text_of = λ s. s;
}

moved_there_and_back : (bytes : List ℕ) → map (λ b. b - 47) (moved bytes) ≡ bytes
moved_there_and_back [] = refl
moved_there_and_back (b ∷ bytes) = grind (arith, moved_there_and_back bytes)

moved-no_dot : (bytes : List ℕ) → All (λ x. (x == b'.') ≡ false) (moved bytes)
moved-no_dot [] = tt
moved-no_dot (b ∷ bytes) = (ground arith, moved-no_dot bytes)

a_crypto-IsSound : IsSound a_crypto
a_crypto-IsSound = record {
  unseals = λ key iv plain. refl;
  decodes = λ bytes. grind (arith, moved_there_and_back bytes);
  no_dot = moved-no_dot;
  reads = λ s. refl;
}

abbrev stored_key : Text
stored_key = codes "v1." ++ (moved (1 ∷ 2 ∷ []) ++ b'.' ∷ moved (codes "sk"))

encrypted :
    encrypt_secret a_crypto (codes "secret") (some (1 ∷ 2 ∷ [])) (codes "sk") ≡ ok stored_key
unfolding encrypt_secret lillian_backend.Common.trim_space
encrypted = refl

decrypt-encrypt_example : decrypt_secret a_crypto (codes "secret") stored_key ≡ ok (codes "sk")
decrypt-encrypt_example =
    decrypt-encrypt a_crypto a_crypto-IsSound (codes "secret") (codes "sk") stored_key
      (some (1 ∷ 2 ∷ [])) encrypted

-- The number of workers is not positive there.
abbrev an_environment : Text → Text
an_environment name = codes "-3/"

load-ok_example :
    (cfg : Config) × (load an_environment [] ≡ ok cfg)
    × (pos 1 ≤ℤ cfg.task_worker_concurrency)
    × (ends_in_slash cfg.public_api_base_url ≡ false)
    × (ends_in_slash cfg.storage.endpoint ≡ false)
    × (ends_in_slash cfg.storage.public_base_url ≡ false)
    × (ends_in_slash cfg.epusdt.base_url ≡ false)
load-ok_example = load-ok an_environment []

gcd_runs_example : (g : ℕ) × (gcd 1024 1536 ≡ some g) × IsGreatest 1024 1536 g
gcd_runs_example = gcd_runs 1024 1536

abbrev some_floats : Floats
some_floats = record {
  float = ℕ × ℕ;
  quotient = λ a b. (a, b);
  minus = λ x y. x;
  over = λ x y. x;
  negate = λ x. x;
  less = λ x y. false;
}

abbrev some_decoders : Decoders
some_decoders = record {
  from_base64 = λ s. ok s;
  from_raw_base64 = λ s. ok s;
  query_unescape = λ s. ok s;
  detect_content_type = λ b. codes "image/png";
}

abbrev an_answer : Answer
an_answer = record {
  items = record { b64_json = codes "iVBO"; url = []; revised_prompt = codes "a cat" } ∷ [];
  size = codes "1024x1024";
  aspect_ratio = [];
  quality = [];
  output_format = codes "png";
  response_format = [];
  output_compression = none;
  moderation = [];
  n = none;
}

abbrev a_client : Client
a_client = record {
  send = λ r. ok (record { status_code = 200; content_type = []; body = [] });
  fetch = λ url. err (codes "no address");
  decode_answer = λ b. ok an_answer;
  marshal_params = λ p. codes "{}";
  marshal_texts = λ ts. codes "[]";
}

abbrev keyed_profile : ServiceProfileRow
keyed_profile = record a_profile { api_key_ciphertext = stored_key }

abbrev an_image : ImageServiceResult
an_image = record {
  images = record { bytes = codes "iVBO"; content_type = codes "image/png" } ∷ [];
  actual_params = codes "{}";
  revised_prompts = codes "[]";
}

called :
    call_image_service a_crypto some_floats some_decoders a_client
      (codes "secret")
      keyed_profile
      a_payload
    ≡ ok an_image
unfolding call_image_service lillian_backend.Common.text_eq lillian_backend.Common.trim_space
    lillian_backend.Common.to_lower lillian_backend.Common.split_at
called = refl

call_image_service-answered_example :
    (request : ProviderRequest) × (response : ProviderResponse) × (answer : Answer)
    × (decrypt_secret a_crypto (codes "secret") keyed_profile.api_key_ciphertext
        ≡ ok request.api_key)
    × ((request.url ≡ endpoint_url keyed_profile (codes "images/generations"))
        ⊎ (request.url ≡ endpoint_url keyed_profile (codes "images/edits")))
    × (a_client.send request ≡ ok response)
    × (is_failure response ≡ false)
    × (a_client.decode_answer response.body ≡ ok answer)
    × (is_nil an_image.images ≡ false)
    × (length an_image.images ≤ length answer.items)
    × All (CameFrom a_crypto some_floats some_decoders a_client answer.items) an_image.images
call_image_service-answered_example =
    call_image_service-answered a_crypto some_floats some_decoders a_client (codes "secret")
      keyed_profile a_payload an_image called
