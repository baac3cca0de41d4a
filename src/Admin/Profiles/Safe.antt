-- ===== src/Admin/Profiles/Safe.antt =====
-- A profile is deleted only when no task needs it, and serves no task after (product_api.go:
-- handleAdminDeleteServiceProfile).
use lillian_backend.Common.{
  ℕ, ◌≡◌, sym, subst, Text, text_eq, ◌&&◌, false, List, arith, All, count_where, ok,
}
use lillian_backend.Common.Tables.Updates.{All-update_where, All-of}
use lillian_backend.Sql.{World, steps, reading}
use lillian_backend.Profiles.{is_eligible}
use lillian_backend.Admin.Profiles.{
  delete_profile, set_deleted, has_profile_id, discard, uses_profile,
}

delete_profile_lem :
    (id : Text) (w : World)
    → (delete_profile id w).0 ≡ ok tt
    → (count_where (uses_profile id) w.db.tasks ≡ 0)
      × ((delete_profile id w).1.db ≡ set_deleted id (reading w) w.db)
unfolding delete_profile steps reading
delete_profile_lem id w h = ground arith

pub delete_profile-safe :
    (id : Text) (w : World) (buckets : List Text) (t : ℕ)
    → (delete_profile id w).0 ≡ ok tt
    → (count_where (uses_profile id) (delete_profile id w).1.db.tasks ≡ 0)
      × All
          (λ p. (text_eq p.id id && is_eligible buckets t p) ≡ false)
          (delete_profile id w).1.db.profiles
unfolding set_deleted is_eligible
delete_profile-safe id w buckets t h =
    let (unused, same) = delete_profile_lem id w h in
    (
      grind (arith, unused, same),
      subst (λ d. All (λ p. (text_eq p.id id && is_eligible buckets t p) ≡ false) d.profiles)
          (sym same)
          (All-update_where _ (has_profile_id id) (discard (reading w)) w.db.profiles
            (All-of _ w.db.profiles (λ p e. ground arith))
            (All-of _ w.db.profiles (λ p e. ground arith))),
    )
