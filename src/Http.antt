-- ===== src/Http.antt =====
-- Requests that are refused, and what the handlers ask of the server before they start
-- (server.go, product_api.go: requireDatabase, requireAdmin, readJSON, bearerToken).
pub mod Urls
pub mod Status
use lillian_backend.Common.{
  ℕ, Text, codes, text_eq, trim_space, is_nil, Bool, Option, List, [], ◌∷◌, ◌++◌, if◌then◌else◌,
  Exec, guard, or_raise, raise, is_space, fields_by, equal_fold,
}
use lillian_backend.Sql.{World, SqlError, error_text}
use lillian_backend.Wallets.{
  WalletError, wallet_not_found, store_error, random_error, license_not_found, license_expired,
  license_redeemed,
}

-- errorJSON(w, status, message)
pub record Problem : Type 0 where
  pub status : ℕ
  pub message : Text

abbrev pub problem : ℕ → Text → Problem
problem status message = record { status = status; message = message }

-- http.StatusInternalServerError with err.Error()
abbrev pub internal : SqlError → Problem
internal e = problem 500 (error_text e)

pub record EpusdtConfig : Type 0 where
  pub base_url : Text
  pub pid : Text
  pub secret_key : Text
  pub currency : Text
  pub token : Text
  pub network : Text

pub record Server : Type 0 where
  pub has_database : Bool
  pub has_store : Bool
  pub admin_token : Text
  pub public_api_base_url : Text
  pub cors_origin : Text
  pub service_name : Text
  pub version : Text
  pub environment : Text
  pub epusdt : EpusdtConfig

unfoldable pub require_database : Server → Exec Problem World Unit
require_database s = guard s.has_database (problem 503 (codes "database is not configured"))

-- The server has a wallet store exactly when it has a database.
unfoldable pub require_wallet_store : Server → Exec Problem World Unit
require_wallet_store s = guard s.has_database (problem 503 (codes "database is not configured"))

-- `none` is a body that does not decode.
unfoldable pub read_json : {A : Type 0} → Option A → Exec Problem World A
read_json body = or_raise body (problem 400 (codes "Invalid JSON body"))

-- The value of the header Authorization.
bearer_of : List Text → Text
bearer_of (scheme ∷ token ∷ []) =
    if equal_fold scheme (codes "Bearer") then trim_space token else []
bearer_of _ = []

unfoldable pub bearer_token : Text → Text
unfolding bearer_of
bearer_token value = bearer_of (fields_by is_space [] value)

unfoldable pub require_admin : Server → Text → Exec Problem World Unit
require_admin s authorization =
    let expected = trim_space s.admin_token in
    if is_nil expected
    then raise (problem 500 (codes "Admin token is not configured"))
    else guard (text_eq (bearer_token authorization) expected) (problem 401 (codes "管理员认证失败"))

-- How the handlers that read one wallet answer the store's errors.
abbrev pub wallet_problem : WalletError → Problem
wallet_problem wallet_not_found = problem 404 (codes "钱包不存在")
wallet_problem license_not_found = problem 500 (codes "wallet license not found")
wallet_problem license_expired = problem 500 (codes "wallet license expired")
wallet_problem license_redeemed = problem 500 (codes "wallet license redeemed")
wallet_problem (store_error e) = internal e
wallet_problem random_error = problem 500 (codes "random source failed")
