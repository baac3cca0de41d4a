-- ===== src/Settings/Bounds.antt =====
-- The settings that the program runs with are within their bounds, whatever the table holds.
use lillian_backend.Common.{
  ℤ, pos, ◌≤ℤ◌, ◌≡◌, Text, List, [], ◌∷◌, arith, atoi, trim_space, Option-cases, inl, inr, ok,
}
use lillian_backend.Schema.{AppSetting}
use lillian_backend.Sql.{World, fault}
use lillian_backend.Numbers.Bounds.{bounded_int_bounds}
use lillian_backend.Settings.{
  RuntimeSettings, default_settings, apply_setting, read_settings, load_runtime_settings,
  runtime_rows,
}

pub record IsBounded (s : RuntimeSettings) : Type 0 where
  pub global_low : pos 1 ≤ℤ s.image_global_concurrency
  pub global_high : s.image_global_concurrency ≤ℤ pos 100
  pub provider_low : pos 1 ≤ℤ s.image_provider_default_concurrency
  pub provider_high : s.image_provider_default_concurrency ≤ℤ pos 100
  pub timeout_low : pos 60 ≤ℤ s.upstream_timeout_seconds
  pub timeout_high : s.upstream_timeout_seconds ≤ℤ pos 1800

apply_setting-IsBounded :
    (s : RuntimeSettings) (key : Text) (n : ℤ) → IsBounded s → IsBounded (apply_setting s key n)
unfolding apply_setting
apply_setting-IsBounded s key n h = ground (
  arith,
  bounded_int_bounds n (pos 1) (pos 100) (pos 6) (omega arith),
  bounded_int_bounds n (pos 1) (pos 100) (pos 2) (omega arith),
  bounded_int_bounds n (pos 60) (pos 1800) (pos 600) (omega arith),
)

read_settings-IsBounded :
    (s : RuntimeSettings) (rows : List AppSetting) → IsBounded s → IsBounded (read_settings s rows)
unfolding read_settings
read_settings-IsBounded s [] h = h
read_settings-IsBounded s (r ∷ rows) h = elim (Option-cases (atoi (trim_space r.value))) [
  | inl bad ↦ rw bad (read_settings-IsBounded s rows h)
  | inr (n, good) ↦
      rw good (
        read_settings-IsBounded (apply_setting s r.key n) rows
          (apply_setting-IsBounded s r.key n h))
]

-- loadRuntimeSettings returns settings in every world, and they are within their bounds: whatever
-- texts the table holds, and also where the query fails.
pub load_runtime_settings-IsBounded :
    (w : World)
    → (s : RuntimeSettings) × ((load_runtime_settings {E = Text} w).0 ≡ ok s) × IsBounded s
unfolding load_runtime_settings
load_runtime_settings-IsBounded w = elim (Option-cases (fault w)) [
  | inl fine ↦ (
    read_settings default_settings (runtime_rows w.db),
    ground arith,
    read_settings-IsBounded default_settings (runtime_rows w.db) (omega arith),
  )
  | inr (m, broken) ↦ (default_settings, ground arith, omega arith)
]
