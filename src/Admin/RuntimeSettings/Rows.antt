-- ===== src/Admin/RuntimeSettings/Rows.antt =====
-- A table of settings under the upserts of handleAdminUpdateRuntimeSettings, and under the loop of
-- loadRuntimeSettings.
use lillian_backend.Common.{
  ◌≤◌, ℤ, ◌≡◌, refl, ap, ◌∙◌, Text, text_eq, text_eq_iff, text_eq_refl, trim_space, atoi, false,
  Option, none, some, List, [], ◌∷◌, ◌++◌, if◌then◌else◌, is_some, find_where, select_where,
  update_where, count_where, arith, Bool-cases, Option-cases, inl, inr,
}
use lillian_backend.Common.Tables.Laws.{
  find_where-update_all, find_where-append, count_where-append,
}
use lillian_backend.Schema.{AppSetting}
use lillian_backend.Settings.{RuntimeSettings, apply_setting, read_settings, is_runtime_key}
use lillian_backend.Admin.RuntimeSettings.{has_key}

abbrev pub UniqueKeys : List AppSetting → Type 0
UniqueKeys rows = (key : Text) → count_where (has_key key) rows ≤ 1

-- The table after one upsert.
abbrev pub upserted : AppSetting → List AppSetting → List AppSetting
upserted e rows =
    if is_some (find_where (has_key e.key) rows)
    then update_where (has_key e.key) (λ _. e) rows
    else rows ++ e ∷ []

missing_key :
    (key : Text) (rows : List AppSetting)
    → find_where (has_key key) rows ≡ none
    → count_where (has_key key) rows ≡ 0
unfolding find_where count_where
missing_key key [] h = refl
missing_key key (r ∷ rows) h = ground (arith, missing_key key rows)

no_key :
    (key : Text) (rows : List AppSetting)
    → count_where (has_key key) rows ≡ 0
    → find_where (has_key key) rows ≡ none
unfolding find_where count_where
no_key key [] h = refl
no_key key (r ∷ rows) h = ground (arith, no_key key rows)

pub upserted-found :
    (e : AppSetting) (rows : List AppSetting)
    → find_where (has_key e.key) (upserted e rows) ≡ some e
upserted-found e rows = elim (Option-cases (find_where (has_key e.key) rows)) [
  | inl none_there ↦ rw none_there (
      find_where-append (has_key e.key) (has_key e.key) (λ _. e) rows e (λ x m. m)
        (text_eq_refl e.key) none_there)
  | inr (a, found) ↦ rw found (
      find_where-update_all (has_key e.key) (has_key e.key) (λ _. e) rows a
        (λ x h. text_eq_refl e.key) (λ x m. m) found)
]

other_updated :
    (e : AppSetting) (key : Text) (rows : List AppSetting)
    → text_eq e.key key ≡ false
    → find_where (has_key key) (update_where (has_key e.key) (λ _. e) rows)
      ≡ find_where (has_key key) rows
unfolding find_where update_where
other_updated e key [] h = refl
other_updated e key (r ∷ rows) h =
    grind (arith, other_updated e key rows h, text_eq_iff r.key e.key, text_eq_iff r.key key)

other_appended :
    (e : AppSetting) (key : Text) (rows : List AppSetting)
    → text_eq e.key key ≡ false
    → find_where (has_key key) (rows ++ e ∷ []) ≡ find_where (has_key key) rows
unfolding find_where
other_appended e key [] h = ground arith
other_appended e key (r ∷ rows) h = ground (arith, other_appended e key rows h)

pub upserted-other :
    (e : AppSetting) (key : Text) (rows : List AppSetting)
    → text_eq e.key key ≡ false
    → find_where (has_key key) (upserted e rows) ≡ find_where (has_key key) rows
upserted-other e key rows h = elim (Bool-cases (is_some (find_where (has_key e.key) rows))) [
  | inl there ↦ rw there (other_updated e key rows h)
  | inr new ↦ rw new (other_appended e key rows h)
]

updated_unique :
    (e : AppSetting) (key : Text) (rows : List AppSetting)
    → count_where (has_key key) (update_where (has_key e.key) (λ _. e) rows)
      ≡ count_where (has_key key) rows
unfolding count_where update_where
updated_unique e key [] = refl
updated_unique e key (r ∷ rows) = grind (arith, updated_unique e key rows, text_eq_iff r.key e.key)

pub upserted-UniqueKeys :
    (e : AppSetting) (rows : List AppSetting) → UniqueKeys rows → UniqueKeys (upserted e rows)
unfolding count_where
upserted-UniqueKeys e rows u key = elim (Option-cases (find_where (has_key e.key) rows)) [
  | inl new ↦ rw new (
      grind (
        arith,
        count_where-append (has_key key) rows (e ∷ []),
        missing_key e.key rows new,
        text_eq_iff e.key key,
        u key,
      ))
  | inr (a, there) ↦ rw there (omega (arith, updated_unique e key rows, u key))
]

selected-found :
    (key : Text) (rows : List AppSetting)
    → ((r : AppSetting) → is_runtime_key r ≡ false → has_key key r ≡ false)
    → find_where (has_key key) (select_where is_runtime_key rows) ≡ find_where (has_key key) rows
unfolding find_where select_where
selected-found key [] h = refl
selected-found key (r ∷ rows) h = elim (Bool-cases (is_runtime_key r)) [
  | inl is ↦ rw is (ap (λ o. if has_key key r then some r else o) (selected-found key rows h))
  | inr other ↦ rw (other, h r other) (selected-found key rows h)
]

selected-count :
    (key : Text) (rows : List AppSetting)
    → count_where (has_key key) (select_where is_runtime_key rows) ≤ count_where (has_key key) rows
unfolding count_where select_where
selected-count key [] = omega arith
selected-count key (r ∷ rows) = elim (Bool-cases (is_runtime_key r)) [
  | inl is ↦ rw is (omega (arith, selected-count key rows))
  | inr other ↦ rw other (omega (arith, selected-count key rows))
]

-- What a row makes of a setting, where it is there and holds a number.
abbrev pub value_of : (ℤ → ℤ) → ℤ → Option AppSetting → ℤ
value_of bound old none = old
value_of bound old (some r) = elim (atoi (trim_space r.value)) [ none ↦ old | some n ↦ bound n ]

-- One setting: its field, its key and its bounds.
module _ (get : RuntimeSettings → ℤ) (key : Text) (bound : ℤ → ℤ)
    (hit : (s : RuntimeSettings) (n : ℤ) → get (apply_setting s key n) ≡ bound n)
    (miss : (s : RuntimeSettings) (k : Text) (n : ℤ)
      → text_eq k key ≡ false
      → get (apply_setting s k n) ≡ get s) where
  hit_row :
      (s : RuntimeSettings) (r : AppSetting) (o : Option ℤ)
      → r.key ≡ key
      → get (elim o [ none ↦ s | some n ↦ apply_setting s r.key n ])
        ≡ elim o [ none ↦ get s | some n ↦ bound n ]
  hit_row s r none e = refl
  hit_row s r (some n) e = ap (λ k. get (apply_setting s k n)) e ∙ hit s n

  miss_row :
      (s : RuntimeSettings) (r : AppSetting) (o : Option ℤ)
      → text_eq r.key key ≡ false
      → get (elim o [ none ↦ s | some n ↦ apply_setting s r.key n ]) ≡ get s
  miss_row s r none e = refl
  miss_row s r (some n) e = miss s r.key n e

  field_read :
      (s : RuntimeSettings) (rows : List AppSetting)
      → count_where (has_key key) rows ≤ 1
      → get (read_settings s rows) ≡ value_of bound (get s) (find_where (has_key key) rows)
  unfolding read_settings find_where count_where
  field_read s [] u = refl
  field_read s (r ∷ rows) u =
      let next : RuntimeSettings = elim (atoi (trim_space r.value)) [
        | none ↦ s
        | some n ↦ apply_setting s r.key n
      ] in
      elim (Bool-cases (has_key key r)) [
        | inl is ↦ rw is (
            field_read next rows (grind arith)
            ∙ ap (value_of bound (get next)) (no_key key rows (grind arith))
            ∙ hit_row s r (atoi (trim_space r.value)) ((text_eq_iff r.key key).0 is))
        | inr other ↦ rw other (
            field_read next rows (grind arith)
            ∙ ap (λ v. value_of bound v (find_where (has_key key) rows))
                (miss_row s r (atoi (trim_space r.value)) other))
      ]

  -- What the table says of the setting is what loadRuntimeSettings makes of it.
  pub setting_read :
      (s : RuntimeSettings) (rows : List AppSetting)
      → ((r : AppSetting) → is_runtime_key r ≡ false → has_key key r ≡ false)
      → UniqueKeys rows
      → get (read_settings s (select_where is_runtime_key rows))
        ≡ value_of bound (get s) (find_where (has_key key) rows)
  setting_read s rows own u =
      field_read s (select_where is_runtime_key rows)
        (omega (arith, selected-count key rows, u key))
      ∙ ap (value_of bound (get s)) (selected-found key rows own)
