-- ===== src/Admin/RuntimeSettings.antt =====
-- The reading and the update of the runtime settings (runtime_settings.go: handleAdminGetRuntimeSettings,
-- handleAdminUpdateRuntimeSettings, publicRuntimeSettings).
pub mod ReadBack
pub mod Stored
pub mod Rows
pub mod Updated
use lillian_backend.Common.{
  ℕ, ℤ, pos, negsuc, Text, codes, text_eq, decimal, Bool, Option, List, [], ◌∷◌, ◌++◌,
  if◌then◌else◌, is_some, find_where, update_where, Exec, pure, ◌>>=◌, ◌>>◌,
}
use Prim.Native.Nat.{suc}
use lillian_backend.Schema.{Db, AppSetting}
use lillian_backend.Sql.{World, exec, time_now}
use lillian_backend.Http.{Problem, internal, Server, require_database, require_admin, read_json}
use lillian_backend.Settings.{
  RuntimeSettings, load_runtime_settings, bounded_global, bounded_provider, bounded_timeout,
  global_concurrency_key, provider_concurrency_key, upstream_timeout_key,
}

unfoldable pub handle_get_settings : Server → Text → Exec Problem World RuntimeSettings
unfolding load_runtime_settings
handle_get_settings server authorization = do
  require_admin server authorization
  require_database server
  load_runtime_settings

-- strconv.Itoa
unfoldable pub itoa : ℤ → Text
itoa (pos n) = decimal n
itoa (negsuc n) = b'-' ∷ decimal (suc n)

-- The settings of a request, each within its bounds.
unfoldable pub bounded_settings : RuntimeSettings → RuntimeSettings
bounded_settings s = record {
  image_global_concurrency = bounded_global s.image_global_concurrency;
  image_provider_default_concurrency = bounded_provider s.image_provider_default_concurrency;
  upstream_timeout_seconds = bounded_timeout s.upstream_timeout_seconds;
}

abbrev pub has_key : Text → AppSetting → Bool
has_key key r = text_eq r.key key

unfoldable pub upsert_setting : AppSetting → Db → Db
upsert_setting s db = record db {
  settings =
      if is_some (find_where (has_key s.key) db.settings)
      then update_where (has_key s.key) (λ _. s) db.settings
      else db.settings ++ s ∷ [];
}

unfoldable pub entry : Text → ℤ → Text → ℕ → AppSetting
unfolding itoa
entry key value description now = record {
  key = key;
  value = itoa value;
  description = description;
  updated_at = now;
}

abbrev pub global_entry : ℤ → ℕ → AppSetting
global_entry n now =
    entry global_concurrency_key n
      (codes "Maximum number of image generation tasks running upstream at the same time.") now

abbrev pub provider_entry : ℤ → ℕ → AppSetting
provider_entry n now =
    entry provider_concurrency_key n
      (codes "Default per-provider upstream concurrency when a provider does not override it.") now

abbrev pub timeout_entry : ℤ → ℕ → AppSetting
timeout_entry n now =
    entry upstream_timeout_key n
      (codes "Timeout in seconds for one synchronous upstream image call and image retrieval.") now

unfoldable pub entries : RuntimeSettings → ℕ → List AppSetting
unfolding entry
entries s now =
    global_entry s.image_global_concurrency now
    ∷ provider_entry s.image_provider_default_concurrency now
    ∷ timeout_entry s.upstream_timeout_seconds now
    ∷ []

-- The loop over the entries. No transaction: an error keeps the entries before it.
unfoldable pub upsert_each : List AppSetting → Exec Problem World Unit
unfolding upsert_setting
upsert_each [] = pure tt
upsert_each (e ∷ es) = do exec internal (λ _. tt {0}) (upsert_setting e); upsert_each es

unfoldable pub handle_update_settings :
    Server → Text → Option RuntimeSettings → Exec Problem World RuntimeSettings
unfolding bounded_settings entries upsert_each
handle_update_settings server authorization request = do
  require_admin server authorization
  require_database server
  body ← read_json request
  now ← time_now
  upsert_each (entries (bounded_settings body) now)
  pure (bounded_settings body)
