-- ===== src/Admin/Profiles.antt =====
-- Provider profiles: upsert and deletion (product_api.go: handleAdminUpsertServiceProfile,
-- handleAdminDeleteServiceProfile). The encryption of a key is a parameter.
pub mod Safe
pub mod Shown
use lillian_backend.Common.{
  ℕ, ℤ, pos, ◌==◌, Text, codes, text_eq, trim_space, is_nil, not, ◌&&◌, ◌||◌, Bool, true, false,
  Option, none, some, List, [], ◌∷◌, ◌++◌, take, if◌then◌else◌, is_some, find_where, update_where,
  count_where, Exec, Result, ok, err, pure, raise, guard, or_raise, ◌>>=◌, ◌>>◌,
}
use lillian_backend.Schema.{
  Db, ServiceProfileRow, ProfileStatus, TaskRow, is_status, queued, running,
}
use lillian_backend.Sql.{
  World, SqlError, no_rows, failed, exec, query, attempt, time_now, random_id,
}
use lillian_backend.Numbers.{positive_or, bounded_int}
use lillian_backend.Profiles.{service_profile_by_id, update_profiles}
use lillian_backend.Payments.{remove_code}
use lillian_backend.Http.{
  Problem, problem, internal, Server, require_database, require_admin, read_json,
}
use lillian_backend.Admin.Texts.{
  first_non_empty, normalize_tier_bucket, normalize_api_mode, normalize_base_url,
}

pub record ProfileRequest : Type 0 where
  pub id : Text
  pub label : Text
  pub tier_bucket : Text
  pub tier_bucket2 : Text
  pub api_base_url : Text
  pub api_key : Text
  pub model : Text
  pub api_mode : Text
  pub codex_cli : Option Bool
  pub priority : ℤ
  pub max_concurrent : Option ℤ
  pub status : Text

abbrev pub image_model : Text
image_model = codes "gpt-image-2"

-- An id of "provider-", the bucket, the mode and eight random digits, where none is given.
unfoldable pub profile_id : Text → Text → Text → Exec Problem World Text
unfolding remove_code
profile_id given bucket mode =
    if is_nil (trim_space given)
    then (do
      id ← random_id (problem 500 (codes "random source failed"))
      pure (
          codes "provider-"
          ++ (bucket ++ (codes "-" ++ (mode ++ (codes "-" ++ remove_code b'-' (take 8 id)))))))
    else pure (trim_space given)

-- The profile that is there, if any.
abbrev or_none : Result SqlError ServiceProfileRow → Exec Problem World (Option ServiceProfileRow)
or_none (ok p) = pure (some p)
or_none (err no_rows) = pure none
or_none (err (failed m)) = raise (internal (failed m))

abbrev or_else : {A B : Type 0} → A → (B → A) → Option B → A
or_else d f none = d
or_else d f (some b) = f b

-- The stored key, or that of the request once it is encrypted.
unfoldable pub api_key_of :
    (Text → Option Text) → Text → Option ServiceProfileRow → Exec Problem World Text
api_key_of encrypt key existing =
    if is_nil (trim_space key)
    then pure (or_else [] (λ p. p.api_key_ciphertext) existing)
    else or_raise (encrypt (trim_space key)) (problem 500 (codes "encryption failed"))

unfoldable pub wanted_profile :
    ProfileRequest → Text → Text → Option ServiceProfileRow → ℕ → ServiceProfileRow
unfolding first_non_empty normalize_tier_bucket normalize_api_mode normalize_base_url bounded_int
    positive_or
wanted_profile body id ciphertext existing now = record {
  id = id;
  label = if is_nil (trim_space body.label) then id else trim_space body.label;
  tier_bucket = normalize_tier_bucket (first_non_empty (body.tier_bucket ∷ body.tier_bucket2 ∷ []));
  api_base_url = normalize_base_url (trim_space body.api_base_url);
  api_key_ciphertext = ciphertext;
  model = image_model;
  api_mode = normalize_api_mode body.api_mode;
  codex_cli = or_else (or_else false (λ p. p.codex_cli) existing) (λ b. b) body.codex_cli;
  priority = positive_or body.priority (pos 100);
  max_concurrent =
      or_else (or_else (pos 0) (λ p. p.max_concurrent) existing)
        (λ n. bounded_int n (pos 0) (pos 100) (pos 0)) body.max_concurrent;
  status =
      if text_eq body.status (codes "disabled")
      then ProfileStatus.disabled
      else ProfileStatus.active;
  selection_count = pos 0;
  success_count = pos 0;
  failure_count = pos 0;
  last_selected_at = none;
  last_failed_at = none;
  disabled_until = none;
  created_at = or_else now (λ p. p.created_at) existing;
  updated_at = now;
}

abbrev pub has_profile_id : Text → ServiceProfileRow → Bool
has_profile_id id p = text_eq p.id id

-- ON CONFLICT (id) DO UPDATE: the counters and the time of creation stay.
abbrev pub overwrite : ServiceProfileRow → ServiceProfileRow → ServiceProfileRow
overwrite wanted p = record p {
  label = wanted.label;
  tier_bucket = wanted.tier_bucket;
  api_base_url = wanted.api_base_url;
  api_key_ciphertext = wanted.api_key_ciphertext;
  model = wanted.model;
  api_mode = wanted.api_mode;
  codex_cli = wanted.codex_cli;
  priority = wanted.priority;
  max_concurrent = wanted.max_concurrent;
  status = wanted.status;
  disabled_until = wanted.disabled_until;
  updated_at = wanted.updated_at;
}

unfoldable pub upsert_profile : ServiceProfileRow → Db → Db
upsert_profile wanted db = record db {
  profiles =
      if is_some (find_where (has_profile_id wanted.id) db.profiles)
      then update_where (has_profile_id wanted.id) (overwrite wanted) db.profiles
      else db.profiles ++ wanted ∷ [];
}

-- Over the encryption of a secret, `none` where it fails.
unfoldable pub handle_upsert_profile :
    (Text → Option Text)
    → Server
    → Text
    → Option ProfileRequest
    → Exec Problem World ServiceProfileRow
unfolding profile_id api_key_of wanted_profile upsert_profile
handle_upsert_profile encrypt server authorization request = do
  require_admin server authorization
  require_database server
  body ← read_json request
  guard (not (is_nil (trim_space body.api_base_url))) (problem 400 (codes "Base URL 为必填"))
  guard (is_nil (trim_space body.model) || text_eq (trim_space body.model) image_model)
      (problem 400 (codes "当前仅支持 gpt-image-2"))
  id ←
      profile_id body.id
        (normalize_tier_bucket (first_non_empty (body.tier_bucket ∷ body.tier_bucket2 ∷ [])))
        (normalize_api_mode body.api_mode)
  found ← attempt (service_profile_by_id id)
  existing ← or_none found
  ciphertext ← api_key_of encrypt body.api_key existing
  guard (not (is_nil ciphertext)) (problem 400 (codes "新增服务商时 apiKey 为必填"))
  now ← time_now
  exec internal (λ _. tt {0}) (upsert_profile (wanted_profile body id ciphertext existing now))
  pure (wanted_profile body id ciphertext existing now)

-- service_profile = $1 AND status IN ('queued', 'running')
abbrev pub uses_profile : Text → TaskRow → Bool
uses_profile id t =
    text_eq t.service_profile id && (is_status t.status queued || is_status t.status running)

abbrev pub discard : ℕ → ServiceProfileRow → ServiceProfileRow
discard now p = record p { status = ProfileStatus.deleted; updated_at = now }

unfoldable pub set_deleted : Text → ℕ → Db → Db
set_deleted id now = update_profiles (has_profile_id id) (discard now)

unfoldable pub delete_profile : Text → Exec Problem World Unit
unfolding set_deleted
delete_profile id = do
  active ← query internal (λ db. count_where (uses_profile id) db.tasks)
  guard (active == 0) (problem 409 (codes "这个服务商仍有进行中的任务，不能删除"))
  now ← time_now
  affected ← exec internal (λ db. count_where (has_profile_id id) db.profiles) (set_deleted id now)
  guard (not (affected == 0)) (problem 404 (codes "服务商不存在"))

unfoldable pub handle_delete_profile : Server → Text → Text → Exec Problem World Unit
unfolding delete_profile
handle_delete_profile server authorization param = do
  require_admin server authorization
  require_database server
  guard (not (is_nil (trim_space param))) (problem 400 (codes "缺少服务商 ID"))
  delete_profile (trim_space param)
