-- ===== src/Wallets/Redeem.antt =====
-- A wallet is created, and a licence is redeemed to it (wallet_api.go: CreateWallet,
-- RedeemLicenseToWallet).
pub mod Once
use lillian_backend.Common.{
  ℕ, ℤ, pos, ◌+ℤ◌, ltb_ℤ, leb_ℤ, leb, Text, codes, text_eq, trim_space, to_lower, is_nil, not, ◌&&◌,
  ◌||◌, Bool, true, false, Option, none, some, List, [], ◌∷◌, ◌++◌, map, if◌then◌else◌, is_some,
  find_where, update_where, Exec, Result, ok, err, pure, raise, guard, ◌>>=◌, ◌>>◌,
}
use lillian_backend.Schema.{
  Db, WalletRecord, EntitlementRow, LicenseRow, LicenseStatus, active, deleted, RedemptionRow,
}
use lillian_backend.Sql.{
  World, SqlError, no_rows, failed, exec, insert, query_row, transaction, map_error, time_now,
  random_id,
}
use lillian_backend.Numbers.{max_int}
use lillian_backend.Billing.{default_max_concurrent}
use lillian_backend.Http.{
  Problem, problem, internal, Server, require_wallet_store, read_json, wallet_problem,
}
use lillian_backend.Wallets.{
  WalletSnapshot, WalletEntitlement, WalletError, wallet_not_found, license_not_found,
  license_expired, license_redeemed, store_error, random_error, wallet_error, wallet_by_address,
  wallet_by_recovery_hash, is_wallet_address, service_label,
}
use lillian_backend.Tasks.{is_entitlement_of}

pub record CreateWalletParams : Type 0 where
  pub id : Text
  pub address : Text
  pub recovery_hash : Text
  pub created_at : ℕ
  pub updated_at : ℕ

-- A new row has the column's default of no credits.
abbrev new_wallet : CreateWalletParams → WalletRecord
new_wallet p = record {
  id = p.id;
  address = p.address;
  recovery_hash = p.recovery_hash;
  credits = pos 0;
  created_at = p.created_at;
  updated_at = p.updated_at;
}

-- The primary key and the two UNIQUE columns.
unfoldable pub wallet_conflicts : CreateWalletParams → Db → Bool
wallet_conflicts p db = is_some (
    find_where
      (λ w.
        text_eq w.id p.id || text_eq w.address p.address || text_eq w.recovery_hash p.recovery_hash)
      db.wallets)

unfoldable pub add_wallet : CreateWalletParams → Db → Db
add_wallet p db = record db { wallets = db.wallets ++ new_wallet p ∷ [] }

unfoldable pub create_wallet : CreateWalletParams → Exec WalletError World WalletSnapshot
unfolding wallet_conflicts add_wallet
create_wallet p = do
  insert store_error (wallet_conflicts p) (add_wallet p)
  wallet_by_address p.address

pub record RedeemWalletParams : Type 0 where
  pub wallet_address : Text
  pub code_hash : Text
  pub now : ℕ

unfoldable pub wallet_for_update : Text → Exec WalletError World WalletRecord
wallet_for_update address =
    query_row wallet_error
      (λ db. find_where (λ r. text_eq r.address (to_lower (trim_space address))) db.wallets)

abbrev license_error : SqlError → WalletError
license_error no_rows = license_not_found
license_error (failed m) = store_error (failed m)

abbrev pub is_live : LicenseStatus → Bool
is_live active = true
is_live deleted = false

-- key_hash = $1 AND status = 'active'
abbrev pub has_key : Text → LicenseRow → Bool
has_key hash l = text_eq l.key_hash hash && is_live l.status

unfoldable pub license_by_hash : Text → Exec WalletError World LicenseRow
license_by_hash hash = query_row license_error (λ db. find_where (has_key hash) db.licenses)

-- license.ExpiresAt.Valid && !license.ExpiresAt.Time.After(now)
unfoldable pub is_expired : ℕ → LicenseRow → Bool
is_expired now l = elim l.expires_at [ none ↦ false | some t ↦ leb t now ]

unfoldable pub is_redeemed : LicenseRow → Bool
is_redeemed l = is_some l.redeemed_at || is_some l.redeemed_wallet_id

abbrev pub granted_concurrency : LicenseRow → ℤ
granted_concurrency l =
    if leb_ℤ l.max_concurrent (pos 0) then default_max_concurrent else l.max_concurrent

-- ON CONFLICT (wallet_id, service_code) DO UPDATE
abbrev pub top_up : LicenseRow → ℕ → EntitlementRow → EntitlementRow
top_up l now e = record e {
  remaining = e.remaining +ℤ l.credits;
  max_concurrent = max_int e.max_concurrent (granted_concurrency l);
  updated_at = now;
}

abbrev pub new_entitlement : Text → Text → LicenseRow → ℕ → EntitlementRow
new_entitlement id wallet_id l now = record {
  id = id;
  wallet_id = wallet_id;
  service_code = l.service_code;
  remaining = l.credits;
  max_concurrent = granted_concurrency l;
  created_at = now;
  updated_at = now;
}

unfoldable pub upsert_entitlement : Text → Text → LicenseRow → ℕ → Db → Db
upsert_entitlement id wallet_id l now db = record db {
  entitlements =
      if is_some (find_where (is_entitlement_of wallet_id l.service_code) db.entitlements)
      then update_where (is_entitlement_of wallet_id l.service_code) (top_up l now) db.entitlements
      else db.entitlements ++ new_entitlement id wallet_id l now ∷ [];
}

abbrev pub has_license_id : Text → LicenseRow → Bool
has_license_id id l = text_eq l.id id

abbrev pub spend_license : Text → ℕ → LicenseRow → LicenseRow
spend_license wallet_id now l = record l {
  redeemed_at = some now;
  redeemed_wallet_id = some wallet_id;
  updated_at = now;
}

unfoldable pub set_redeemed : Text → Text → ℕ → Db → Db
set_redeemed license_id wallet_id now db = record db {
  licenses = update_where (has_license_id license_id) (spend_license wallet_id now) db.licenses;
}

unfoldable pub add_redemption : Text → Text → LicenseRow → ℕ → Db → Db
add_redemption id wallet_id l now db = record db {
  redemptions =
      db.redemptions
      ++ record {
        id = id;
        wallet_id = wallet_id;
        license_key_id = l.id;
        service_code = l.service_code;
        credits_added = l.credits;
        created_at = now;
      }
        ∷ [];
}

abbrev pub redemption_conflicts : Text → Db → Bool
redemption_conflicts id db = is_some (find_where (λ r. text_eq r.id id) db.redemptions)

-- The licence of the code, when it can be redeemed.
unfoldable pub usable_license : RedeemWalletParams → Exec WalletError World LicenseRow
unfolding license_by_hash is_expired is_redeemed
usable_license p = do
  license ← license_by_hash p.code_hash
  guard (not (is_expired p.now license)) license_expired
  guard (not (is_redeemed license)) license_redeemed
  guard (ltb_ℤ (pos 0) license.credits) license_not_found
  pure license

unfoldable pub record_redemption :
    RedeemWalletParams → Text → LicenseRow → Exec WalletError World Unit
unfolding upsert_entitlement set_redeemed add_redemption
record_redemption p wallet_id license = do
  entitlement_id ← random_id random_error
  redemption_id ← random_id random_error
  exec store_error (λ _. tt {0}) (upsert_entitlement entitlement_id wallet_id license p.now)
  exec store_error (λ _. tt {0}) (set_redeemed license.id wallet_id p.now)
  insert store_error (redemption_conflicts redemption_id)
      (add_redemption redemption_id wallet_id license p.now)

-- The statements between Begin and Commit.
unfoldable pub redeem : RedeemWalletParams → Exec WalletError World WalletRecord
unfolding wallet_for_update usable_license record_redemption
redeem p = do
  wallet ← wallet_for_update p.wallet_address
  license ← usable_license p
  record_redemption p wallet.id license
  pure wallet

unfoldable pub redeem_license_to_wallet : RedeemWalletParams → Exec WalletError World WalletSnapshot
unfolding redeem
redeem_license_to_wallet p = do
  wallet ← transaction store_error (redeem p)
  wallet_by_address wallet.address
