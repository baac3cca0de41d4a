-- ===== src/Admin/Wallets.antt =====
-- A wallet as the administrator sees it (admin_wallet.go). Rows created at one time are listed as
-- they stand in the table.
pub mod Newest
pub mod Own
use Prim.Native.Nat.{compare, Ordering}
use lillian_backend.Common.{
  ℕ, ℤ, Text, codes, text_eq, trim_space, to_lower, Bool, Option, none, some, List, [], ◌∷◌, map,
  take, find_where, select_where, Exec, pure, guard, ◌>>=◌, ◌>>◌,
}
use lillian_backend.Common.Sorting.{order_by}
use lillian_backend.Schema.{
  Db, WalletRecord, RedemptionRow, LicenseRow, LicenseStatus, TaskRow, TaskStatus,
  ServiceProfileRow,
}
use lillian_backend.Sql.{World, query, map_error}
use lillian_backend.Wallets.{
  WalletEntitlement, WalletSnapshot, WalletError, store_error, wallet_by_address, is_wallet_address,
}
use lillian_backend.Wallets.Handlers.{WalletResponse, public_wallet}
use lillian_backend.Http.{
  Problem, problem, Server, require_admin, require_wallet_store, wallet_problem,
}

-- The status is `none` where it reads as the empty text.
pub record AdminWalletRedemption : Type 0 where
  pub id : Text
  pub license_key_id : Text
  pub service_code : Text
  pub credits_added : ℤ
  pub license_note : Text
  pub license_status : Option LicenseStatus
  pub created_at : ℕ

pub record AdminWalletTask : Type 0 where
  pub id : Text
  pub service_code : Text
  pub status : TaskStatus
  pub requested_size : Text
  pub service_profile : Text
  pub service_profile_label : Text
  pub credit_reserved : Bool
  pub credit_charged : Bool
  pub error_text : Option Text
  pub created_at : ℕ
  pub updated_at : ℕ
  pub finished_at : Option ℕ

pub record AdminWalletSummary : Type 0 where
  pub wallet : WalletRecord
  pub entitlements : List WalletEntitlement
  pub redemptions : List AdminWalletRedemption
  pub tasks : List AdminWalletTask

abbrev note_of : Option LicenseRow → Text
note_of none = []
note_of (some l) = l.note

abbrev status_of : Option LicenseRow → Option LicenseStatus
status_of none = none
status_of (some l) = some l.status

abbrev label_of : Option ServiceProfileRow → Text
label_of none = []
label_of (some p) = p.label

-- The LEFT JOIN with license_keys.
unfoldable pub scan_redemption : Db → RedemptionRow → AdminWalletRedemption
scan_redemption db r =
    let license = find_where (λ l. text_eq l.id r.license_key_id) db.licenses in
    record {
      id = r.id;
      license_key_id = r.license_key_id;
      service_code = r.service_code;
      credits_added = r.credits_added;
      license_note = note_of license;
      license_status = status_of license;
      created_at = r.created_at;
    }

-- The LEFT JOIN with service_profiles.
unfoldable pub scan_task : Db → TaskRow → AdminWalletTask
scan_task db t = record {
  id = t.id;
  service_code = t.service_code;
  status = t.status;
  requested_size = t.requested_size;
  service_profile = t.service_profile;
  service_profile_label = label_of (find_where (λ p. text_eq p.id t.service_profile) db.profiles);
  credit_reserved = t.credit_reserved;
  credit_charged = t.credit_charged;
  error_text = t.error_text;
  created_at = t.created_at;
  updated_at = t.updated_at;
  finished_at = t.finished_at;
}

-- ORDER BY created_at DESC LIMIT 50
abbrev pub newest : {A : Type 0} → (A → ℕ) → List A → List A
newest created rows = take 50 (order_by (λ a b. compare (created b) (created a)) rows)

abbrev pub is_redemption_of : Text → RedemptionRow → Bool
is_redemption_of wallet_id r = text_eq r.wallet_id wallet_id

abbrev pub is_task_in : Text → TaskRow → Bool
is_task_in wallet_id t = text_eq t.wallet_id wallet_id

unfoldable pub admin_wallet_redemptions : Text → Db → List AdminWalletRedemption
unfolding scan_redemption
admin_wallet_redemptions wallet_id db =
    map (scan_redemption db)
      (newest (λ r. r.created_at) (select_where (is_redemption_of wallet_id) db.redemptions))

unfoldable pub admin_wallet_tasks : Text → Db → List AdminWalletTask
unfolding scan_task
admin_wallet_tasks wallet_id db =
    map (scan_task db) (newest (λ t. t.created_at) (select_where (is_task_in wallet_id) db.tasks))

unfoldable pub admin_wallet_summary : Text → Exec WalletError World AdminWalletSummary
unfolding admin_wallet_redemptions admin_wallet_tasks
admin_wallet_summary address = do
  snapshot ← wallet_by_address address
  redemptions ← query store_error (admin_wallet_redemptions snapshot.wallet.id)
  tasks ← query store_error (admin_wallet_tasks snapshot.wallet.id)
  pure (record {
    wallet = snapshot.wallet;
    entitlements = snapshot.entitlements;
    redemptions = redemptions;
    tasks = tasks;
  })

pub record AdminWalletResponse : Type 0 where
  pub wallet : WalletResponse
  pub redemptions : List AdminWalletRedemption
  pub tasks : List AdminWalletTask

-- The header Authorization, and the address of the path.
unfoldable pub handle_admin_get_wallet :
    Server → Text → Text → Exec Problem World AdminWalletResponse
unfolding admin_wallet_summary public_wallet
handle_admin_get_wallet server authorization param = do
  require_admin server authorization
  require_wallet_store server
  guard (is_wallet_address (to_lower (trim_space param))) (problem 400 (codes "钱包地址格式无效"))
  summary ← map_error wallet_problem (admin_wallet_summary (to_lower (trim_space param)))
  pure (record {
    wallet =
        public_wallet (record { wallet = summary.wallet; entitlements = summary.entitlements });
    redemptions = summary.redemptions;
    tasks = summary.tasks;
  })
