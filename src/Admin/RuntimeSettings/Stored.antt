-- ===== src/Admin/RuntimeSettings/Stored.antt =====
-- What the administrator sets is what the server loads.
use lillian_backend.Common.{
  ℕ, ℤ, pos, ◌≤ℤ◌, ◌≡◌, refl, ap, ◌∙◌, Text, text_eq, Option, none, some, List, ok, find_where,
  select_where, arith,
}
use lillian_backend.Numbers.{bounded_int}
use lillian_backend.Schema.{Db, AppSetting}
use lillian_backend.Sql.{World, fault}
use lillian_backend.Http.{Server}
use lillian_backend.Settings.{
  RuntimeSettings, default_settings, apply_setting, read_settings, is_runtime_key, bounded_global,
  bounded_provider, bounded_timeout, global_concurrency_key, provider_concurrency_key,
  upstream_timeout_key, load_runtime_settings,
}
use lillian_backend.Admin.RuntimeSettings.{
  bounded_settings, entry, global_entry, provider_entry, timeout_entry, handle_update_settings,
  has_key,
}
use lillian_backend.Admin.RuntimeSettings.Updated.{updated, update_lem}
use lillian_backend.Admin.RuntimeSettings.Rows.{
  UniqueKeys, upserted-found, upserted-other, upserted-UniqueKeys, value_of, setting_read,
}
use lillian_backend.Admin.RuntimeSettings.ReadBack.{within}

-- Which rows the table then has, whatever was there.
global_found :
    (r : RuntimeSettings) (now : ℕ) (rows : List AppSetting)
    → find_where (has_key global_concurrency_key) (updated r now rows)
      ≡ some (global_entry r.image_global_concurrency now)
unfolding entry text_eq
global_found r now rows =
    upserted-other _ global_concurrency_key _ refl
    ∙ upserted-other _ global_concurrency_key _ refl
    ∙ upserted-found (global_entry r.image_global_concurrency now) rows

provider_found :
    (r : RuntimeSettings) (now : ℕ) (rows : List AppSetting)
    → find_where (has_key provider_concurrency_key) (updated r now rows)
      ≡ some (provider_entry r.image_provider_default_concurrency now)
unfolding entry text_eq
provider_found r now rows =
    upserted-other _ provider_concurrency_key _ refl
    ∙ upserted-found (provider_entry r.image_provider_default_concurrency now) _

timeout_found :
    (r : RuntimeSettings) (now : ℕ) (rows : List AppSetting)
    → find_where (has_key upstream_timeout_key) (updated r now rows)
      ≡ some (timeout_entry r.upstream_timeout_seconds now)
unfolding entry
timeout_found r now rows = upserted-found (timeout_entry r.upstream_timeout_seconds now) _

updated-UniqueKeys :
    (r : RuntimeSettings) (now : ℕ) (rows : List AppSetting)
    → UniqueKeys rows
    → UniqueKeys (updated r now rows)
updated-UniqueKeys r now rows u =
    upserted-UniqueKeys _ _ (upserted-UniqueKeys _ _ (upserted-UniqueKeys _ _ u))

-- The three settings, read from a table.
loaded_settings :
    (rows : List AppSetting)
    → UniqueKeys rows
    → read_settings default_settings (select_where is_runtime_key rows) ≡ record {
      image_global_concurrency =
          value_of bounded_global (pos 6) (find_where (has_key global_concurrency_key) rows);
      image_provider_default_concurrency =
          value_of bounded_provider (pos 2) (find_where (has_key provider_concurrency_key) rows);
      upstream_timeout_seconds =
          value_of bounded_timeout (pos 600) (find_where (has_key upstream_timeout_key) rows);
    }
unfolding apply_setting text_eq
loaded_settings rows u =
    let g =
      setting_read (λ s. s.image_global_concurrency) global_concurrency_key bounded_global
        (λ s n. refl) (λ s k n h. grind (arith, h)) default_settings rows (λ r h. ground arith) u in
    let p =
      setting_read (λ s. s.image_provider_default_concurrency) provider_concurrency_key
        bounded_provider (λ s n. refl) (λ s k n h. grind (arith, h)) default_settings rows
        (λ r h. ground arith) u in
    let t =
      setting_read (λ s. s.upstream_timeout_seconds) upstream_timeout_key bounded_timeout
        (λ s n. refl) (λ s k n h. grind (arith, h)) default_settings rows (λ r h. ground arith) u in
    λ i. record {
      image_global_concurrency = g i;
      image_provider_default_concurrency = p i;
      upstream_timeout_seconds = t i;
    }

entry_value :
    (value low high fallback : ℤ) (key description : Text) (now : ℕ) (old : ℤ)
    → pos 1 ≤ℤ low
    → low ≤ℤ high
    → high ≤ℤ pos 1800
    → value_of
        (λ n. bounded_int n low high fallback)
        old
        (some (entry key (bounded_int value low high fallback) description now))
      ≡ bounded_int value low high fallback
unfolding entry
entry_value value low high fallback key description now old h k l =
    let (read, kept) = within value low high fallback h k l in rw (value_of, read) kept

stored_values :
    (r : RuntimeSettings) (now : ℕ) (rows : List AppSetting)
    → UniqueKeys rows
    → read_settings default_settings
        (select_where is_runtime_key (updated (bounded_settings r) now rows))
      ≡ bounded_settings r
unfolding bounded_settings
stored_values r now rows u =
    let after = updated (bounded_settings r) now rows in
    let g =
      ap (value_of bounded_global (pos 6)) (global_found (bounded_settings r) now rows)
      ∙ entry_value r.image_global_concurrency (pos 1) (pos 100) (pos 6) _ _ now (pos 6)
          (omega arith) (omega arith) (omega arith) in
    let p =
      ap (value_of bounded_provider (pos 2)) (provider_found (bounded_settings r) now rows)
      ∙ entry_value r.image_provider_default_concurrency (pos 1) (pos 100) (pos 2) _ _ now (pos 2)
          (omega arith) (omega arith) (omega arith) in
    let t =
      ap (value_of bounded_timeout (pos 600)) (timeout_found (bounded_settings r) now rows)
      ∙ entry_value r.upstream_timeout_seconds (pos 60) (pos 1800) (pos 600) _ _ now (pos 600)
          (omega arith) (omega arith) (omega arith) in
    loaded_settings after (updated-UniqueKeys (bounded_settings r) now rows u) ∙ λ i. record {
      image_global_concurrency = g i;
      image_provider_default_concurrency = p i;
      upstream_timeout_seconds = t i;
    }

load_quiet :
    (w : World)
    → fault w ≡ none
    → (load_runtime_settings {E = Text} w).0
      ≡ ok (read_settings default_settings (select_where is_runtime_key w.db.settings))
unfolding load_runtime_settings
load_quiet w quiet = grind (arith, quiet)

-- After an update of the runtime settings that succeeds, on a table with one row at most for each
-- key, the server loads exactly the settings that the handler answered with, from then on while
-- the database stays as the update left it and the query does not fail: whatever rows were there
-- before, each number is printed, stored under its key, found, parsed and bounded again without a
-- change.
pub load-update_settings :
    (server : Server) (authorization : Text) (body : Option RuntimeSettings) (w w' : World)
    (s : RuntimeSettings)
    → (handle_update_settings server authorization body w).0 ≡ ok s
    → UniqueKeys w.db.settings
    → w'.db ≡ (handle_update_settings server authorization body w).1.db
    → fault w' ≡ none
    → (load_runtime_settings {E = Text} w').0 ≡ ok s
load-update_settings server authorization body w w' s h unique after quiet =
    let (request, now, is, wrote) = update_lem server authorization body w s h in
    load_quiet w' quiet
    ∙ ap (λ rows. ok (read_settings default_settings (select_where is_runtime_key rows)))
        (ap (λ (d : Db). d.settings) after ∙ wrote)
    ∙ ap ok (stored_values request now w.db.settings unique ∙ is)
