-- ===== src/Http/Urls.antt =====
-- The address that the server is reached at, as a request shows it (server.go: publicBaseURL,
-- firstHeaderValue; tasks.go: requestWalletAddress).
use lillian_backend.Common.{
  ℕ, ◌==◌, Text, codes, trim_space, trim_right_of, to_lower, is_nil, or_text, not, Bool, [], ◌∷◌,
  ◌++◌, if◌then◌else◌,
}
use lillian_backend.Http.{Server}

-- What the program reads of an http.Request.
pub record Request : Type 0 where
  pub forwarded_proto : Text
  pub forwarded_host : Text
  pub host : Text
  pub tls : Bool
  -- The query parameter walletAddress, and the header X-Wallet-Address.
  pub query_address : Text
  pub header_address : Text

-- The text before the first code d; the whole text where there is none.
unfoldable pub before_code : ℕ → Text → Text
before_code d [] = []
before_code d (c ∷ s) = if c == d then [] else c ∷ before_code d s

unfoldable pub first_header_value : Text → Text
unfolding before_code
first_header_value value = trim_space (before_code b',' (trim_space value))

unfoldable pub public_base_url : Server → Request → Text
unfolding first_header_value
public_base_url server r =
    let base = trim_right_of b'/' server.public_api_base_url in
    let proto =
      or_text (first_header_value r.forwarded_proto)
        (if r.tls then codes "https" else codes "http") in
    let host = or_text (first_header_value r.forwarded_host) r.host in
    if not (is_nil base) then base else if is_nil host then [] else proto ++ (codes "://" ++ host)

unfoldable pub request_wallet_address : Request → Text
request_wallet_address r =
    or_text (to_lower (trim_space r.query_address)) (to_lower (trim_space r.header_address))
