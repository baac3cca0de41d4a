-- ===== src/Admin/RuntimeSettings/ReadBack.antt =====
-- The rows of handleAdminUpdateRuntimeSettings under the loop of loadRuntimeSettings.
use lillian_backend.Common.{
  ℕ, ℤ, pos, negsuc, ◌≤ℤ◌, ◌≡◌, ◌∙◌, refl, text_eq, atoi, trim_space, some, List, [], ◌∷◌, arith,
}
use lillian_backend.Common.Texts.Numerals.{atoi-trim_space}
use lillian_backend.Schema.{AppSetting}
use lillian_backend.Numbers.{bounded_int}
use lillian_backend.Numbers.Bounds.{bounded_int_bounds, bounded_int_kept}
use lillian_backend.Settings.{
  RuntimeSettings, apply_setting, read_settings, bounded_global, bounded_provider, bounded_timeout,
  global_concurrency_key, provider_concurrency_key, upstream_timeout_key,
}
use lillian_backend.Admin.RuntimeSettings.{
  itoa, bounded_settings, entry, entries, global_entry, provider_entry, timeout_entry,
}

itoa_read : (v : ℤ) → pos 1 ≤ℤ v → v ≤ℤ pos 1800 → atoi (trim_space (itoa v)) ≡ some v
unfolding itoa
itoa_read (pos n) low high = atoi-trim_space n (grind arith)
itoa_read (negsuc n) low high = absurd (omega arith)

pub within :
    (value low high fallback : ℤ)
    → pos 1 ≤ℤ low
    → low ≤ℤ high
    → high ≤ℤ pos 1800
    → (atoi (trim_space (itoa (bounded_int value low high fallback)))
        ≡ some (bounded_int value low high fallback))
      × (bounded_int (bounded_int value low high fallback) low high fallback
          ≡ bounded_int value low high fallback)
within value low high fallback h k l =
    let b = bounded_int_bounds value low high fallback k in
    (
      itoa_read (bounded_int value low high fallback) (omega arith) (omega arith),
      bounded_int_kept (bounded_int value low high fallback) low high fallback (omega arith) b.0
          b.1,
    )

apply_all :
    (s r : RuntimeSettings)
    → bounded_global r.image_global_concurrency ≡ r.image_global_concurrency
    → bounded_provider r.image_provider_default_concurrency ≡ r.image_provider_default_concurrency
    → bounded_timeout r.upstream_timeout_seconds ≡ r.upstream_timeout_seconds
    → apply_setting
        (apply_setting
          (apply_setting s global_concurrency_key r.image_global_concurrency)
          provider_concurrency_key
          r.image_provider_default_concurrency)
        upstream_timeout_key
        r.upstream_timeout_seconds
      ≡ r
unfolding apply_setting text_eq
apply_all s r g p t = rw (g, p, t) refl

read_row :
    (s : RuntimeSettings) (r : AppSetting) (rows : List AppSetting) (n : ℤ)
    → atoi (trim_space r.value) ≡ some n
    → read_settings s (r ∷ rows) ≡ read_settings (apply_setting s r.key n) rows
unfolding read_settings
read_row s r rows n e = rw e refl

read_three :
    (s : RuntimeSettings) (a b c : AppSetting) (u v w : ℤ)
    → atoi (trim_space a.value) ≡ some u
    → atoi (trim_space b.value) ≡ some v
    → atoi (trim_space c.value) ≡ some w
    → read_settings s (a ∷ b ∷ c ∷ [])
      ≡ apply_setting (apply_setting (apply_setting s a.key u) b.key v) c.key w
unfolding read_settings
read_three s a b c u v w x y z =
    read_row s a (b ∷ c ∷ []) u x
    ∙ read_row (apply_setting s a.key u) b (c ∷ []) v y
    ∙ read_row (apply_setting (apply_setting s a.key u) b.key v) c [] w z

read_entries :
    (s r : RuntimeSettings) (now : ℕ)
    → atoi (trim_space (itoa r.image_global_concurrency)) ≡ some r.image_global_concurrency
    → atoi (trim_space (itoa r.image_provider_default_concurrency))
      ≡ some r.image_provider_default_concurrency
    → atoi (trim_space (itoa r.upstream_timeout_seconds)) ≡ some r.upstream_timeout_seconds
    → read_settings s (entries r now)
      ≡ apply_setting
          (apply_setting
            (apply_setting s global_concurrency_key r.image_global_concurrency)
            provider_concurrency_key
            r.image_provider_default_concurrency)
          upstream_timeout_key
          r.upstream_timeout_seconds
unfolding entries entry
read_entries s r now g p t =
    read_three s (global_entry r.image_global_concurrency now)
      (provider_entry r.image_provider_default_concurrency now)
      (timeout_entry r.upstream_timeout_seconds now) r.image_global_concurrency
      r.image_provider_default_concurrency r.upstream_timeout_seconds g p t

-- The rows that handleAdminUpdateRuntimeSettings writes, read as loadRuntimeSettings reads them,
-- give the settings that the handler returns, whatever the settings were before: each number is
-- printed, trimmed, parsed and bounded again without a change.
pub read_settings-entries :
    (before request : RuntimeSettings) (now : ℕ)
    → read_settings before (entries (bounded_settings request) now) ≡ bounded_settings request
unfolding bounded_settings
read_settings-entries before request now =
    let g =
      within request.image_global_concurrency (pos 1) (pos 100) (pos 6) (omega arith) (omega arith)
        (omega arith) in
    let p =
      within request.image_provider_default_concurrency (pos 1) (pos 100) (pos 2) (omega arith)
        (omega arith) (omega arith) in
    let t =
      within request.upstream_timeout_seconds (pos 60) (pos 1800) (pos 600) (omega arith)
        (omega arith) (omega arith) in
    read_entries before (bounded_settings request) now g.0 p.0 t.0
    ∙ apply_all before (bounded_settings request) g.1 p.1 t.1
