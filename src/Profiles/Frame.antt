-- ===== src/Profiles/Frame.antt =====
-- Choosing a profile and counting its results change the table of profiles only.
use lillian_backend.Common.{Text, List, Option, none, some}
use lillian_backend.Schema.{Db, ServiceProfileRow}
use lillian_backend.Sql.Rules.{Keeps, IsPreorder, keeps_rules}
use lillian_backend.Profiles.{
  select_from_buckets, select_service_profile, record_success, record_failure,
  service_profile_by_id, count_selection, set_success, set_failure, take_profile, disabled_after,
}

module _ {R : Db → Db → Type 0} (o : IsPreorder R)
    (ignores : (d : Db) (ps : List ServiceProfileRow) → R d (record d { profiles = ps })) where
  take_profile-Keeps :
      (buckets : List Text) (p : Option ServiceProfileRow) → Keeps R (take_profile buckets p)
  unfolding take_profile count_selection
  take_profile-Keeps buckets none = search (keeps_rules, o)
  take_profile-Keeps buckets (some p) = search (keeps_rules, o, ignores)

  select_from_buckets-Keeps :
      (buckets exclude : List Text) → Keeps R (select_from_buckets buckets exclude)
  unfolding select_from_buckets
  select_from_buckets-Keeps buckets exclude = search (keeps_rules, o, take_profile-Keeps)

  pub select_service_profile-Keeps :
      (code tier : Text) (exclude : List Text) → Keeps R (select_service_profile code tier exclude)
  unfolding select_service_profile
  select_service_profile-Keeps code tier exclude =
      search (keeps_rules, o, select_from_buckets-Keeps)

  pub record_success-Keeps : (id : Text) → Keeps R (record_success id)
  unfolding record_success set_success
  record_success-Keeps id = search (keeps_rules, o, ignores)

  pub record_failure-Keeps : (p : ServiceProfileRow) → Keeps R (record_failure p)
  unfolding record_failure disabled_after set_failure
  record_failure-Keeps p = search (keeps_rules, o, ignores)

  pub service_profile_by_id-Keeps : (id : Text) → Keeps R (service_profile_by_id id)
  unfolding service_profile_by_id
  service_profile_by_id-Keeps id = search (keeps_rules, o)
