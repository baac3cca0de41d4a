-- ===== src/Admin/Profiles/Shown/Hidden.antt =====
-- The list of provider profiles tells nothing of the stored keys.
use lillian_backend.Common.{
  ◌≡◌, refl, ap, ◌∙◌, Text, is_nil, List, [], ◌∷◌, map, select_where, arith, guard, raise, pure,
  ◌>>=◌,
}
use lillian_backend.Common.Sorting.{order_by}
use lillian_backend.Common.Sorting.Laws.{order_by-map}
use lillian_backend.Common.Tables.Laws.{select_where-map}
use lillian_backend.Schema.{Db, ServiceProfileRow}
use lillian_backend.Sql.{World, steps, fault}
use lillian_backend.Http.{Server, require_admin, require_database}
use lillian_backend.Admin.Profiles.Shown.{
  public_profile, is_kept, by_bucket, kept_profiles, handle_list_profiles,
}

-- A profile, and a world, with other stored keys.
abbrev pub rekey : (Text → Text) → ServiceProfileRow → ServiceProfileRow
rekey f p = record p { api_key_ciphertext = f p.api_key_ciphertext }

abbrev pub rekeyed : (Text → Text) → World → World
rekeyed f w = record w { db = record w.db { profiles = map (rekey f) w.db.profiles } }

same_view :
    (f : Text → Text) (ps : List ServiceProfileRow)
    → ((s : Text) → is_nil (f s) ≡ is_nil s)
    → map public_profile (map (rekey f) ps) ≡ map public_profile ps
unfolding public_profile
same_view f [] h = refl
same_view f (p ∷ ps) h = rw (h p.api_key_ciphertext, same_view f ps h) refl

same_list :
    (f : Text → Text) (d : Db)
    → ((s : Text) → is_nil (f s) ≡ is_nil s)
    → map public_profile (kept_profiles (record d { profiles = map (rekey f) d.profiles }))
      ≡ map public_profile (kept_profiles d)
unfolding kept_profiles
same_list f d h =
    ap (λ ps. map public_profile (order_by by_bucket ps))
      (select_where-map is_kept (rekey f) d.profiles)
    ∙ ap (map public_profile)
        (order_by-map by_bucket (rekey f) (λ a b. refl) (select_where is_kept d.profiles))
    ∙ same_view f (kept_profiles d) h

-- The administrator's list of profiles shows nothing of a stored key but whether there is one: when
-- the keys are replaced by others, empty ones by empty ones and the others by others that are not
-- empty, the answer is the same, whatever statement fails.
pub handle_list_profiles-hides :
    (f : Text → Text) (server : Server) (authorization : Text) (w : World)
    → ((s : Text) → is_nil (f s) ≡ is_nil s)
    → (handle_list_profiles server authorization (rekeyed f w)).0
      ≡ (handle_list_profiles server authorization w).0
unfolding handle_list_profiles ◌>>=◌ steps require_admin require_database fault guard raise pure
handle_list_profiles-hides f server authorization w h = ground (arith, same_list f w.db h)
