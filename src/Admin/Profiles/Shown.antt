-- ===== src/Admin/Profiles/Shown.antt =====
-- The administrator's list of provider profiles (product_api.go: handleAdminListServiceProfiles,
-- publicServiceProfile).
pub mod Hidden
use Prim.Native.Nat.{Ordering}
use lillian_backend.Common.{
  ℕ, ℤ, Text, is_nil, not, Bool, true, false, Option, List, map, select_where, Exec, pure, ◌>>=◌,
  ◌>>◌,
}
use lillian_backend.Common.Sorting.{order_by, ◌then_by◌, compare_text, compare_ℤ}
use lillian_backend.Schema.{Db, ServiceProfileRow, ProfileStatus}
use lillian_backend.Sql.{World, query}
use lillian_backend.Http.{Problem, internal, Server, require_database, require_admin}

pub record PublicProfile : Type 0 where
  pub id : Text
  pub label : Text
  pub tier_bucket : Text
  pub api_base_url : Text
  pub model : Text
  pub api_mode : Text
  pub codex_cli : Bool
  pub priority : ℤ
  pub max_concurrent : ℤ
  pub status : ProfileStatus
  pub has_api_key : Bool
  pub selection_count : ℤ
  pub success_count : ℤ
  pub failure_count : ℤ
  pub last_selected_at : Option ℕ
  pub last_failed_at : Option ℕ
  pub disabled_until : Option ℕ
  pub created_at : ℕ
  pub updated_at : ℕ

unfoldable pub public_profile : ServiceProfileRow → PublicProfile
public_profile p = record {
  id = p.id;
  label = p.label;
  tier_bucket = p.tier_bucket;
  api_base_url = p.api_base_url;
  model = p.model;
  api_mode = p.api_mode;
  codex_cli = p.codex_cli;
  priority = p.priority;
  max_concurrent = p.max_concurrent;
  status = p.status;
  has_api_key = not (is_nil p.api_key_ciphertext);
  selection_count = p.selection_count;
  success_count = p.success_count;
  failure_count = p.failure_count;
  last_selected_at = p.last_selected_at;
  last_failed_at = p.last_failed_at;
  disabled_until = p.disabled_until;
  created_at = p.created_at;
  updated_at = p.updated_at;
}

-- status <> 'deleted'
abbrev pub is_kept : ServiceProfileRow → Bool
is_kept p = elim p.status [ ProfileStatus.deleted ↦ false | _ ↦ true ]

-- ORDER BY tier_bucket, priority, id
abbrev pub by_bucket : ServiceProfileRow → ServiceProfileRow → Ordering
by_bucket a b =
    compare_text a.tier_bucket b.tier_bucket
    then_by compare_ℤ a.priority b.priority
    then_by compare_text a.id b.id

unfoldable pub kept_profiles : Db → List ServiceProfileRow
kept_profiles db = order_by by_bucket (select_where is_kept db.profiles)

unfoldable pub handle_list_profiles : Server → Text → Exec Problem World (List PublicProfile)
unfolding kept_profiles public_profile
handle_list_profiles server authorization = do
  require_admin server authorization
  require_database server
  profiles ← query internal kept_profiles
  pure (map public_profile profiles)
