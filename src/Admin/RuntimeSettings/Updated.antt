-- ===== src/Admin/RuntimeSettings/Updated.antt =====
-- What handleAdminUpdateRuntimeSettings leaves in the table of settings.
use lillian_backend.Common.{
  ℕ, ◌≡◌, refl, ap, ◌∙◌, Text, Option, Option-cases, List, [], ◌∷◌, ok, Exec, Result-cases, pure,
  ◌>>=◌, arith, inl, inr,
}
use lillian_backend.Schema.{Db, AppSetting}
use lillian_backend.Sql.{World, fault, exec, spend, with_db}
use lillian_backend.Sql.Success.{read_ok, same_database}
use lillian_backend.Sql.Rules.{keeps_rules}
use lillian_backend.Http.{Server, require_admin, require_database, read_json}
use lillian_backend.Settings.{RuntimeSettings}
use lillian_backend.Admin.RuntimeSettings.{
  bounded_settings, entries, global_entry, provider_entry, timeout_entry, upsert_setting,
  upsert_each, handle_update_settings,
}
use lillian_backend.Admin.RuntimeSettings.Rows.{upserted}

upsert_step :
    (e : AppSetting) (es : List AppSetting) (w : World)
    → (upsert_each (e ∷ es) w).0 ≡ ok tt
    → (w' : World) × ((upsert_each es w').0 ≡ ok tt)
      × ((upsert_each (e ∷ es) w).1 ≡ (upsert_each es w').1)
      × (w'.db.settings ≡ upserted e w.db.settings)
unfolding upsert_each upsert_setting ◌>>=◌ exec
upsert_step e es w h = elim (Option-cases (fault w)) [
  | inl quiet ↦ (
    with_db (spend w) (upsert_setting e w.db),
    ground (arith, quiet),
    ground (arith, quiet),
    refl,
  )
  | inr (m, broken) ↦ absurd (ground arith)
]

no_upsert : (w : World) → (upsert_each [] w).1.db.settings ≡ w.db.settings
unfolding upsert_each pure
no_upsert w = refl

-- A last step that writes.
then_pure :
    {E A : Type 0} (m : Exec E World Unit) (a b : A) (w : World)
    → ((m >>= λ _. pure a) w).0 ≡ ok b
    → (a ≡ b) × ((m w).0 ≡ ok tt) × (((m >>= λ _. pure a) w).1 ≡ (m w).1)
unfolding ◌>>=◌ pure
then_pure m a b w h = elim (Result-cases (m w).0) [
  | inl (tt, e) ↦ (grind (arith, e), e, grind (arith, e))
  | inr (x, e) ↦ absurd (grind (arith, e))
]

-- The table after three upserts.
three_upserts :
    (a b c : AppSetting) (w : World)
    → (upsert_each (a ∷ b ∷ c ∷ []) w).0 ≡ ok tt
    → (upsert_each (a ∷ b ∷ c ∷ []) w).1.db.settings
      ≡ upserted c (upserted b (upserted a w.db.settings))
three_upserts a b c w h =
    let (w1, h1, e1, s1) = upsert_step a (b ∷ c ∷ []) w h in
    let (w2, h2, e2, s2) = upsert_step b (c ∷ []) w1 h1 in
    let (w3, h3, e3, s3) = upsert_step c [] w2 h2 in
    ap (λ x. x.db.settings) (e1 ∙ e2 ∙ e3)
    ∙ no_upsert w3
    ∙ s3
    ∙ ap (upserted c) (s2 ∙ ap (upserted b) s1)

-- The table after the update to r.
abbrev pub updated : RuntimeSettings → ℕ → List AppSetting → List AppSetting
updated r now rows = upserted (timeout_entry r.upstream_timeout_seconds now) (
    upserted (provider_entry r.image_provider_default_concurrency now)
      (upserted (global_entry r.image_global_concurrency now) rows))

pub update_lem :
    (server : Server) (authorization : Text) (body : Option RuntimeSettings) (w : World)
    (s : RuntimeSettings)
    → (handle_update_settings server authorization body w).0 ≡ ok s
    → (request : RuntimeSettings) × (now : ℕ) × (bounded_settings request ≡ s)
      × ((handle_update_settings server authorization body w).1.db.settings
          ≡ updated (bounded_settings request) now w.db.settings)
unfolding handle_update_settings require_admin require_database read_json entries
update_lem server authorization body w s h =
    let (a, w1, p1, d1, s1, h1) = read_ok _ _ w s (search (keeps_rules, same_database)) h in
    let (b, w2, p2, d2, s2, h2) = read_ok _ _ w1 s (search (keeps_rules, same_database)) h1 in
    let (c, w3, p3, d3, s3, h3) = read_ok _ _ w2 s (search (keeps_rules, same_database)) h2 in
    let (now, w4, p4, d4, s4, h4) = read_ok _ _ w3 s (search (keeps_rules, same_database)) h3 in
    let (is, wrote, ends) = then_pure _ _ s w4 h4 in
    (
      c,
      now,
      is,
      ap (λ x. x.1.db.settings) (s1 ∙ s2 ∙ s3 ∙ s4)
          ∙ ap (λ x. x.db.settings) ends
          ∙ three_upserts _ _ _ w4 wrote
          ∙ ap (λ (d : Db). updated (bounded_settings c) now d.settings) (d4 ∙ d3 ∙ d2 ∙ d1),
    )
