-- ===== src/History.antt =====
-- Histories: the steps of the server that touch accounts, one committed change of the database each,
-- in any order and with any inputs (tasks.go, wallet_api.go, payments.go). A step names the amounts
-- that come in from outside, by a licence or a payment.
pub mod Book
use lillian_backend.Common.{
  ℕ, ℤ, pos, ◌+ℤ◌, eqb_ℤ, ◌≡◌, Text, codes, Bool, true, false, Option, some, List, [], ◌∷◌, ◌++◌,
  if◌then◌else◌, find_where, count_where, ok,
}
use lillian_backend.Schema.{
  Db, Params, TaskPayload, TaskRow, PaymentOrder, LicenseRow, WalletRecord,
}
use lillian_backend.Sql.{World}
use lillian_backend.Http.{Server, EpusdtConfig}
use lillian_backend.Settings.{RuntimeSettings}
use lillian_backend.Wallets.Redeem.{RedeemWalletParams, redeem, has_key}
use lillian_backend.Tasks.{has_task_id}
use lillian_backend.Tasks.Create.{create_task}
use lillian_backend.Tasks.Claim.{claim}
use lillian_backend.Tasks.Refund.{fail_task_and_refund, is_refundable}
use lillian_backend.Tasks.Execute.{Upstream, execute_task}
use lillian_backend.Tasks.Recover.{
  Account, wallet, entitlement, account_of, account_rows, recover_stale_tasks,
}
use lillian_backend.Tasks.Ledger.{share}
use lillian_backend.Tasks.Ledger.Redemption.{UniqueEntitlements}
use lillian_backend.Payments.{int_field, is_paid}
use lillian_backend.Payments.Callback.{is_order, settle}

pub record Deposit : Type 0 where
  pub to : Account
  pub amount : ℤ

-- What the deposits bring to one account.
abbrev pub deposited : List Deposit → Account → ℤ
deposited [] a = pos 0
deposited (d ∷ ds) a = share d.to d.amount a +ℤ deposited ds a

-- Over big.Rat's SetString and Cmp, and MD5.
module _ (rat : Type 0) (set_string : Text → Option rat) (same_rat : rat → rat → Bool)
    (md5_hex : Text → Text) where
  -- `created`, `claimed` and `recovered` have any outcome; the others are the ones that succeed.
  pub data Step : Db → Db → List Deposit → Type 0 where
    created :
        (server : Server) (request : Option TaskPayload) (w : World)
        → Step w.db (create_task server request w).1.db []
    claimed :
        (pick : Db → Option TaskRow) (settings : RuntimeSettings) (w : World)
        → Step w.db (claim pick settings w).1.db []
    finished :
        (up : Upstream) (t : TaskRow) (w : World)
        → (execute_task up t w).0 ≡ ok tt
        → Step w.db (execute_task up t w).1.db []
    -- The worker's copy of the task is its row.
    refunded :
        (t : TaskRow) (message : Text) (w : World)
        → w.faults ≡ []
        → is_refundable t ≡ true
        → account_rows (account_of t) w.db ≡ 1
        → count_where (has_task_id t.id) w.db.tasks ≡ 1
        → find_where (has_task_id t.id) w.db.tasks ≡ some t
        → Step w.db (fail_task_and_refund {E = Text} t message w).1.db []
    recovered : (w : World) → Step w.db (recover_stale_tasks w).1.db []
    redeemed :
        (p : RedeemWalletParams) (w : World) (owner : WalletRecord) (l : LicenseRow)
        → UniqueEntitlements w.db
        → (redeem p w).0 ≡ ok owner
        → find_where (has_key p.code_hash) w.db.licenses ≡ some l
        → Step w.db
            (redeem p w).1.db
            (record { to = entitlement owner.id l.service_code; amount = l.credits } ∷ [])
    settled :
        (cfg : EpusdtConfig) (payload : Params) (order_id : Text) (w : World) (o : PaymentOrder)
        → eqb_ℤ (int_field payload (codes "status")) (pos 2) ≡ true
        → find_where (is_order order_id) w.db.orders ≡ some o
        → account_rows (wallet o.wallet_id) w.db ≡ 1
        → (settle rat set_string same_rat md5_hex cfg payload order_id w).0 ≡ ok tt
        → Step w.db (settle rat set_string same_rat md5_hex cfg payload order_id w).1.db (
            if is_paid o.status
            then []
            else record { to = wallet o.wallet_id; amount = o.credits } ∷ [])

  pub data Reach (d : Db) : Db → List Deposit → Type 0 where
    start : Reach d d []
    next : {e f : Db} {ds es : List Deposit} → Reach d e ds → Step e f es → Reach d f (es ++ ds)
