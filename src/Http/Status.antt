-- ===== src/Http/Status.antt =====
-- The requests that ask about the server itself, and the wrapper of all handlers (server.go:
-- handleHealth, handleReady, handleConfig, cors).
use lillian_backend.Common.{
  ℕ, Text, codes, text_eq, is_nil, ◌&&◌, Bool, true, false, Option, none, some, if◌then◌else◌,
  Result, ok, err,
}
use lillian_backend.Http.{Server}
use lillian_backend.Http.Urls.{Request, public_base_url}

pub record Health : Type 0 where
  pub service : Text
  pub version : Text
  pub environment : Text

unfoldable pub handle_health : Server → Health
handle_health s = record {
  service = s.service_name;
  version = s.version;
  environment = s.environment;
}

pub record Readiness : Type 0 where
  pub status : ℕ
  pub is_ready : Bool
  pub database : Text
  pub storage : Text

abbrev database_check : Bool → Option Text → Bool × Text
database_check false answer = (false, codes "not_configured")
database_check true none = (true, codes "ok")
database_check true (some e) = (false, e)

abbrev storage_check : Bool → Bool × Text
storage_check false = (false, codes "not_configured")
storage_check true = (true, codes "configured")

-- The error of the database's Ping, if any.
unfoldable pub handle_ready : Server → Option Text → Readiness
handle_ready s ping_error =
    let (db_ready, db) = database_check s.has_database ping_error in
    let (store_ready, store) = storage_check s.has_store in
    record {
      status = if db_ready && store_ready then 200 else 503;
      is_ready = db_ready && store_ready;
      database = db;
      storage = store;
    }

unfoldable pub handle_config : Server → Request → Text
unfolding public_base_url
handle_config s r = public_base_url s r

-- The header Access-Control-Allow-Origin, and the answer: 204 to OPTIONS, else the handler's.
unfoldable pub cors : {A : Type 0} → Server → Text → A → Text × Result ℕ A
cors s method next = (
  if is_nil s.cors_origin then codes "*" else s.cors_origin,
  if text_eq method (codes "OPTIONS") then err 204 else ok next,
)
