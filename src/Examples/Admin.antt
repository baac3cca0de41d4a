-- ===== src/Examples/Admin.antt =====
-- The theorems on the administrator's operations, at concrete inputs.
use lillian_backend.Common.{
  pos, negsuc, ℕ, ◌≤◌, ◌≡◌, refl, Text, codes, text_eq, trim_space, is_nil, not, ◌&&◌, Bool, true,
  false, List, [], ◌∷◌, map, if◌then◌else◌, All, count_where, ok,
}
use lillian_backend.Sql.{World}
use lillian_backend.Profiles.{is_eligible}
use lillian_backend.Admin.Profiles.{delete_profile, uses_profile}
use lillian_backend.Admin.Profiles.Safe.{delete_profile-safe}
use lillian_backend.Examples.{a_world}

deleted_profile : (delete_profile (codes "p2") a_world).0 ≡ ok tt
unfolding delete_profile lillian_backend.Common.◌>>=◌ lillian_backend.Sql.query
    lillian_backend.Sql.fault count_where text_eq lillian_backend.Sql.time_now
    lillian_backend.Sql.exec lillian_backend.Sql.later_faults
deleted_profile = refl

delete_profile-safe_example :
    (count_where (uses_profile (codes "p2")) (delete_profile (codes "p2") a_world).1.db.tasks ≡ 0)
    × All
        (λ p. (text_eq p.id (codes "p2") && is_eligible (codes "1k" ∷ []) 500 p) ≡ false)
        (delete_profile (codes "p2") a_world).1.db.profiles
delete_profile-safe_example =
    delete_profile-safe (codes "p2") a_world (codes "1k" ∷ []) 500 deleted_profile
