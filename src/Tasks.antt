-- ===== src/Tasks.antt =====
-- The life of a generation task (tasks.go). The children hold one operation each, and their proofs.
use lillian_backend.Common.{
  ℕ, ℤ, Text, text_eq, ◌&&◌, ◌||◌, Bool, true, false, List, update_where, count_where,
}
use lillian_backend.Schema.{
  Db, TaskRow, TaskStatus, is_status, queued, running, WalletRecord, EntitlementRow,
}
pub mod Create
pub mod Claim
pub mod Refund
pub mod Recover
pub mod Execute
pub mod Worker
pub mod Image
pub mod Show
pub mod Provider
pub mod Ledger

abbrev pub update_tasks : (TaskRow → Bool) → (TaskRow → TaskRow) → Db → Db
update_tasks p f db = record db { tasks = update_where p f db.tasks }

abbrev pub update_wallets : (WalletRecord → Bool) → (WalletRecord → WalletRecord) → Db → Db
update_wallets p f db = record db { wallets = update_where p f db.wallets }

abbrev pub update_entitlements :
    (EntitlementRow → Bool) → (EntitlementRow → EntitlementRow) → Db → Db
update_entitlements p f db = record db { entitlements = update_where p f db.entitlements }

abbrev pub has_task_id : Text → TaskRow → Bool
has_task_id id t = text_eq t.id id

abbrev pub has_wallet_id : Text → WalletRecord → Bool
has_wallet_id id w = text_eq w.id id

-- wallet_id = $ AND service_code = $
abbrev pub is_entitlement_of : Text → Text → EntitlementRow → Bool
is_entitlement_of wallet_id code e = text_eq e.wallet_id wallet_id && text_eq e.service_code code

-- wallet_id = $ AND service_code = $ AND status IN ('queued', 'running')
abbrev pub is_active_of : Text → Text → TaskRow → Bool
is_active_of wallet_id code t =
    text_eq t.wallet_id wallet_id
    && text_eq t.service_code code
    && (is_status t.status queued || is_status t.status running)
