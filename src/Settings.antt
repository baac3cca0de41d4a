-- ===== src/Settings.antt =====
-- Runtime settings (runtime_settings.go).
pub mod Bounds
pub mod Frame
use lillian_backend.Common.{
  ℕ, ℤ, pos, Text, codes, text_eq, trim_space, atoi, decimal, ◌||◌, Bool, true, false, Option, none,
  some, List, [], ◌∷◌, if◌then◌else◌, select_where, update_where, find_where, is_some, ◌++◌, Exec,
  Result, ok, err, pure, ◌>>=◌, ◌>>◌,
}
use lillian_backend.Schema.{Db, AppSetting}
use lillian_backend.Sql.{World, SqlError, query, attempt, exec, time_now}
use lillian_backend.Numbers.{bounded_int}

abbrev pub global_concurrency_key : Text
global_concurrency_key = codes "image_global_concurrency"

abbrev pub provider_concurrency_key : Text
provider_concurrency_key = codes "image_provider_default_concurrency"

abbrev pub upstream_timeout_key : Text
upstream_timeout_key = codes "upstream_timeout_seconds"

pub record RuntimeSettings : Type 0 where
  pub image_global_concurrency : ℤ
  pub image_provider_default_concurrency : ℤ
  pub upstream_timeout_seconds : ℤ

abbrev pub default_settings : RuntimeSettings
default_settings = record {
  image_global_concurrency = pos 6;
  image_provider_default_concurrency = pos 2;
  upstream_timeout_seconds = pos 600;
}

abbrev pub bounded_global : ℤ → ℤ
bounded_global n = bounded_int n (pos 1) (pos 100) (pos 6)

abbrev pub bounded_provider : ℤ → ℤ
bounded_provider n = bounded_int n (pos 1) (pos 100) (pos 2)

abbrev pub bounded_timeout : ℤ → ℤ
bounded_timeout n = bounded_int n (pos 60) (pos 1800) (pos 600)

-- The switch over the key, once the value has been parsed.
unfoldable pub apply_setting : RuntimeSettings → Text → ℤ → RuntimeSettings
apply_setting s key parsed =
    if text_eq key global_concurrency_key
    then record s { image_global_concurrency = bounded_global parsed }
    else if text_eq key provider_concurrency_key
    then record s { image_provider_default_concurrency = bounded_provider parsed }
    else if text_eq key upstream_timeout_key
    then record s { upstream_timeout_seconds = bounded_timeout parsed }
    else s

-- The loop over the rows; one that does not parse is passed over.
unfoldable pub read_settings : RuntimeSettings → List AppSetting → RuntimeSettings
unfolding apply_setting
read_settings s [] = s
read_settings s (r ∷ rows) =
    read_settings (elim (atoi (trim_space r.value)) [ none ↦ s | some n ↦ apply_setting s r.key n ])
      rows

abbrev pub is_runtime_key : AppSetting → Bool
is_runtime_key r =
    text_eq r.key global_concurrency_key
    || text_eq r.key provider_concurrency_key
    || text_eq r.key upstream_timeout_key

abbrev pub runtime_rows : Db → List AppSetting
runtime_rows db = select_where is_runtime_key db.settings

-- The defaults serve where the query fails.
unfoldable pub load_runtime_settings : {E : Type 0} → Exec E World RuntimeSettings
unfolding read_settings query
load_runtime_settings w =
    let (rows, w') = query (λ e. e) runtime_rows w in
    elim rows [
      | err e ↦ (ok default_settings, w')
      | ok rs ↦ (ok (read_settings default_settings rs), w')
    ]
