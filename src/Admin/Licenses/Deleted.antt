-- ===== src/Admin/Licenses/Deleted.antt =====
-- Licences that have been deleted are not live (product_api.go: handleAdminDeleteLicenses).
use lillian_backend.Common.{
  ℕ, ◌≡◌, refl, Text, text_eq, not, Bool, true, List, [], ◌∷◌, arith, All, implies, inl, inr, ok,
  Option-cases, Result-cases, text_eq_iff, pure,
}
use lillian_backend.Common.Tables.Updates.{All-update_where, All-of}
use lillian_backend.Common.Sorting.First.{map_All}
use lillian_backend.Schema.{Db, LicenseRow}
use lillian_backend.Sql.{World, steps, fault, spend, with_db}
use lillian_backend.Profiles.{contains}
use lillian_backend.Wallets.Redeem.{is_live}
use lillian_backend.Admin.Licenses.{delete_each, set_deleted, has_license_id, discard}

-- A licence that is not live, or not of the ids.
abbrev pub is_gone : List Text → LicenseRow → Bool
is_gone ids l = implies (contains ids l.id) (not (is_live l.status))

module _ (Q : LicenseRow → Type 0) where
  set_deleted-All :
      (id : Text) (now : ℕ) (d : Db)
      → ((l : LicenseRow) → Q l → Q (discard now l))
      → All Q d.licenses
      → All Q (set_deleted id now d).licenses
  unfolding set_deleted
  set_deleted-All id now d keeps h =
      All-update_where Q (has_license_id id) (discard now) d.licenses
        (map_All d.licenses (λ l q _. keeps l q) h) (map_All d.licenses (λ l q _. q) h)

  delete_each-All :
      (now : ℕ) (ids : List Text) (w : World)
      → ((l : LicenseRow) → Q l → Q (discard now l))
      → All Q w.db.licenses
      → All Q (delete_each now ids w).1.db.licenses
  unfolding delete_each steps pure
  delete_each-All now [] w keeps h = h
  delete_each-All now (id ∷ ids) w keeps h = elim (Option-cases (fault w)) [
    | inl fine ↦
        let w' = with_db (spend w) (set_deleted id now w.db) in
        let later = delete_each-All now ids w' keeps (set_deleted-All id now w.db keeps h) in
        elim (Result-cases (delete_each now ids w').0) [
          | inl (n, e) ↦ ground (arith, later)
          | inr (x, e) ↦ ground (arith, later)
        ]
    | inr (m, broken) ↦ ground (arith, h)
  ]

set_deleted-gone :
    (id : Text) (now : ℕ) (d : Db)
    → All
        (λ l. implies (text_eq l.id id) (not (is_live l.status)) ≡ true)
        (set_deleted id now d).licenses
unfolding set_deleted
set_deleted-gone id now d =
    All-update_where _ (has_license_id id) (discard now) d.licenses
      (All-of _ d.licenses (λ l h. ground arith)) (All-of _ d.licenses (λ l h. ground arith))

both_gone :
    (id : Text) (ids : List Text) (ls : List LicenseRow)
    → All (λ l. implies (text_eq l.id id) (not (is_live l.status)) ≡ true) ls
    → All (λ l. is_gone ids l ≡ true) ls
    → All (λ l. is_gone (id ∷ ids) l ≡ true) ls
unfolding contains
both_gone id ids [] h k = tt
both_gone id ids (l ∷ ls) h k =
    (grind (arith, h.0, k.0, text_eq_iff l.id id, text_eq_iff id l.id), both_gone id ids ls h.1 k.1)

-- When the deletion of some licences returns, none of them is live.
pub delete_each-gone :
    (now : ℕ) (ids : List Text) (w : World) (n : ℕ)
    → (delete_each now ids w).0 ≡ ok n
    → All (λ l. is_gone ids l ≡ true) (delete_each now ids w).1.db.licenses
unfolding delete_each steps pure contains
delete_each-gone now [] w n h = All-of _ w.db.licenses (λ l. refl)
delete_each-gone now (id ∷ ids) w n h = elim (Option-cases (fault w)) [
  | inl fine ↦
      let w' = with_db (spend w) (set_deleted id now w.db) in
      elim (Result-cases (delete_each now ids w').0) [
        | inl (m, e) ↦
            let later = delete_each-gone now ids w' m e in
            let first =
              delete_each-All (λ l. implies (text_eq l.id id) (not (is_live l.status)) ≡ true) now
                ids w' (λ l q. ground arith) (set_deleted-gone id now w.db) in
            ground (arith, both_gone id ids (delete_each now ids w').1.db.licenses first later)
        | inr (x, e) ↦ absurd (ground arith)
      ]
  | inr (x, broken) ↦ absurd (ground arith)
]
