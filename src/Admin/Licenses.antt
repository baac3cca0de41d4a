-- ===== src/Admin/Licenses.antt =====
-- Licences: creation, the note, deletion and the filters of the list (product_api.go).
-- time.Parse is a parameter; a date before 1970 is not told from its beginning.
pub mod Deleted
pub mod Page
use Prim.Native.Nat.{zero, suc}
use lillian_backend.Common.{
  ℕ, ◌+◌, ◌*◌, ◌^◌, ℤ, pos, negsuc, ◌+ℤ◌, pos_part, ltb_ℤ, ◌==◌, Text, codes, text_eq, trim_space,
  to_lower, is_nil, not, ◌&&◌, ◌||◌, Bool, true, false, Option, none, some, List, [], ◌∷◌, ◌++◌,
  if◌then◌else◌, is_some, find_where, update_where, count_where, Exec, Result, ok, err, pure, raise,
  guard, or_raise, ◌>>=◌, ◌>>◌,
}
use lillian_backend.Schema.{Db, LicenseRow, LicenseStatus}
use lillian_backend.Config.{wrap_int64}
use lillian_backend.Sql.{World, SqlError, exec, insert, time_now, random_id}
use lillian_backend.Numbers.{positive_or, min_positive}
use lillian_backend.Billing.{default_max_concurrent}
use lillian_backend.Wallets.{service_code_image2_sd, service_code_image2_hd}
use lillian_backend.Http.{
  Problem, problem, internal, Server, require_database, require_admin, read_json,
}
use lillian_backend.Admin.Texts.{unique_trimmed, normalize_service_code}

pub record LicenseRequest : Type 0 where
  pub count : ℤ
  pub credits : ℤ
  pub max_concurrent : ℤ
  pub expires_at : Text
  pub expires_in_days : ℤ
  pub note : Text
  pub service_code : Text

abbrev pub default_license_credits : ℤ
default_license_credits = pos 5

unfoldable pub new_license : LicenseRequest → Text → Text → Text → ℕ → ℕ → LicenseRow
unfolding normalize_service_code positive_or
new_license body id key_hash key_ciphertext expires now = record {
  id = id;
  key_hash = key_hash;
  key_ciphertext = some key_ciphertext;
  service_code = normalize_service_code body.service_code;
  credits = positive_or body.credits default_license_credits;
  max_concurrent = positive_or body.max_concurrent default_max_concurrent;
  status = LicenseStatus.active;
  expires_at = some expires;
  redeemed_at = none;
  redeemed_wallet_id = none;
  note = trim_space body.note;
  created_at = now;
  updated_at = now;
}

-- The primary key, and the UNIQUE hash.
unfoldable pub license_conflicts : LicenseRow → Db → Bool
license_conflicts l db =
    is_some (find_where (λ m. text_eq m.id l.id || text_eq m.key_hash l.key_hash) db.licenses)

unfoldable pub add_license : LicenseRow → Db → Db
add_license l db = record db { licenses = db.licenses ++ l ∷ [] }

-- time.Duration(days) * 24 * time.Hour, of a positive number of days
abbrev of_days : ℤ → ℤ
of_days (pos n) = wrap_int64 (n * (24 * 3600 * 10 ^ 9))
of_days (negsuc n) = pos 0

abbrev pub default_license_expires_in_days : ℤ
default_license_expires_in_days = pos 30

-- Over time.Parse, by its layout; `none` is its error.
unfoldable pub parse_expires_at : (Text → Text → Option ℕ) → Text → ℤ → Exec Problem World ℕ
unfolding wrap_int64 positive_or
parse_expires_at parse value days =
    let date = trim_space value in
    if is_nil date
    then (do
      now ← time_now
      pure (pos_part (pos now +ℤ of_days (positive_or days default_license_expires_in_days))))
    else elim (parse (codes "2006-01-02T15:04:05Z07:00") date) [
      | some t ↦ pure t
      | none ↦ or_raise (parse (codes "2006-01-02") date) (problem 400 (codes "过期时间格式无效"))
    ]

abbrev no_random : Problem
no_random = problem 500 (codes "random source failed")

-- Over the keyed hash and the encryption of a secret, `none` where it fails.
module _ (parse : Text → Text → Option ℕ) (hash_secret : Text → Text)
    (encrypt : Text → Option Text) where
  -- The loop, with the number of keys left. No transaction: an error keeps the keys before it.
  unfoldable pub create_keys : ℕ → LicenseRequest → ℕ → ℕ → Exec Problem World (List (Text × Text))
  unfolding new_license license_conflicts add_license
  create_keys zero body expires now = pure []
  create_keys (suc n) body expires now = do
    key ← random_id no_random
    id ← random_id no_random
    ciphertext ← or_raise (encrypt key) (problem 500 (codes "encryption failed"))
    insert internal
        (license_conflicts (new_license body id (hash_secret key) ciphertext expires now))
        (add_license (new_license body id (hash_secret key) ciphertext expires now))
    more ← create_keys n body expires now
    pure ((id, key) ∷ more)

  unfoldable pub handle_create_licenses :
      Server → Text → Option LicenseRequest → Exec Problem World (List (Text × Text))
  unfolding create_keys min_positive parse_expires_at
  handle_create_licenses server authorization request = do
    require_admin server authorization
    require_database server
    body ← read_json request
    expires ← parse_expires_at parse body.expires_at body.expires_in_days
    now ← time_now
    create_keys (pos_part (min_positive body.count (pos 1) (pos 100))) body expires now

abbrev pub has_license_id : Text → LicenseRow → Bool
has_license_id id l = text_eq l.id id

abbrev pub annotate : Text → ℕ → LicenseRow → LicenseRow
annotate note now l = record l { note = note; updated_at = now }

unfoldable pub set_note : Text → Text → ℕ → Db → Db
set_note id note now db = record db {
  licenses = update_where (has_license_id id) (annotate note now) db.licenses;
}

-- The header Authorization, the id of the path, and the note.
unfoldable pub handle_update_license :
    Server → Text → Text → Option Text → Exec Problem World (Text × Text)
unfolding set_note
handle_update_license server authorization param request = do
  require_admin server authorization
  require_database server
  note ← read_json request
  guard (not (is_nil (trim_space param))) (problem 400 (codes "缺少兑换码 ID"))
  now ← time_now
  affected ←
      exec internal (λ db. count_where (has_license_id (trim_space param)) db.licenses)
        (set_note (trim_space param) (trim_space note) now)
  guard (not (affected == 0)) (problem 404 (codes "兑换码不存在"))
  pure (trim_space param, trim_space note)

abbrev pub discard : ℕ → LicenseRow → LicenseRow
discard now l = record l { status = LicenseStatus.deleted; updated_at = now }

unfoldable pub set_deleted : Text → ℕ → Db → Db
set_deleted id now db = record db {
  licenses = update_where (has_license_id id) (discard now) db.licenses;
}

-- The loop over the ids, which adds up the rows that it deleted.
unfoldable pub delete_each : ℕ → List Text → Exec Problem World ℕ
unfolding set_deleted
delete_each now [] = pure 0
delete_each now (id ∷ ids) = do
  affected ← exec internal (λ db. count_where (has_license_id id) db.licenses) (set_deleted id now)
  more ← delete_each now ids
  pure (affected + more)

-- The ids are that of the path, for DELETE, or those of the body.
unfoldable pub handle_delete_licenses :
    Server → Text → Option (List Text) → Exec Problem World (ℕ × List Text)
unfolding delete_each unique_trimmed
handle_delete_licenses server authorization request = do
  require_admin server authorization
  require_database server
  given ← read_json request
  let ids = unique_trimmed given
  guard (not (is_nil ids)) (problem 400 (codes "请选择要删除的兑换码"))
  now ← time_now
  deleted ← delete_each now ids
  pure (deleted, ids)

unfoldable pub license_service_filter : Text → Text
license_service_filter value =
    let code = trim_space value in
    if text_eq code service_code_image2_sd || text_eq code service_code_image2_hd then code else []

unfoldable pub license_redeemed_filter : Text → Text
license_redeemed_filter value =
    let filter = to_lower (trim_space value) in
    if text_eq filter (codes "used") || text_eq filter (codes "unused") then filter else []

abbrev is_deleted : LicenseStatus → Bool
is_deleted LicenseStatus.active = false
is_deleted LicenseStatus.deleted = true

pub record LicenseFilters : Type 0 where
  pub search_hash : Text
  pub service_code : Text
  pub redeemed : Text

-- The WHERE clause of adminLicenseListQuery.
unfoldable pub is_listed : LicenseFilters → LicenseRow → Bool
is_listed f l =
    not (is_deleted l.status)
    && (is_nil f.search_hash || text_eq l.key_hash f.search_hash)
    && (is_nil f.service_code || text_eq l.service_code f.service_code)
    && (if text_eq f.redeemed (codes "used")
        then is_some l.redeemed_wallet_id
        else if text_eq f.redeemed (codes "unused")
        then not (is_some l.redeemed_wallet_id)
        else true)
