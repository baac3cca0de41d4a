-- ===== src/Tasks/Refund.antt =====
-- failTaskAndRefund (tasks.go): three statements outside any transaction, whose errors are dropped.
-- The refund is decided by the task that the worker holds, not by the stored row.
use lillian_backend.Common.{
  ℕ, ℤ, pos, ◌+ℤ◌, Text, is_nil, not, ◌&&◌, Bool, true, false, some, if◌then◌else◌, Exec, pure,
  ◌>>=◌, ◌>>◌,
}
use lillian_backend.Schema.{
  Db, TaskRow, TaskStatus, is_status, running, BillingSource, entitlement, credits, WalletRecord,
  EntitlementRow,
}
use lillian_backend.Sql.{World, exec, attempt, time_now}
use lillian_backend.Numbers.{max_int}
use lillian_backend.Tasks.{
  update_tasks, update_wallets, update_entitlements, has_task_id, has_wallet_id, is_entitlement_of,
}

abbrev pub is_credits : BillingSource → Bool
is_credits credits = true
is_credits entitlement = false

-- UPDATE tasks SET status = 'error' … WHERE id = $3 AND status = 'running'
abbrev pub is_running_task : Text → TaskRow → Bool
is_running_task id t = has_task_id id t && is_status t.status running

abbrev pub stop : Text → ℕ → TaskRow → TaskRow
stop message now t = record t {
  status = TaskStatus.error;
  error_text = some message;
  updated_at = now;
  finished_at = some now;
}

unfoldable pub set_error : Text → Text → ℕ → Db → Db
set_error id message now = update_tasks (is_running_task id) (stop message now)

abbrev pub add_credits : ℤ → ℕ → WalletRecord → WalletRecord
add_credits n now w = record w { credits = w.credits +ℤ n; updated_at = now }

unfoldable pub give_credits : Text → ℤ → ℕ → Db → Db
give_credits wallet_id n now = update_wallets (has_wallet_id wallet_id) (add_credits n now)

abbrev pub add_remaining : ℤ → ℕ → EntitlementRow → EntitlementRow
add_remaining n now e = record e { remaining = e.remaining +ℤ n; updated_at = now }

unfoldable pub give_entitlement : Text → Text → ℤ → ℕ → Db → Db
give_entitlement wallet_id code n now =
    update_entitlements (is_entitlement_of wallet_id code) (add_remaining n now)

abbrev pub release : ℕ → TaskRow → TaskRow
release now t = record t { credit_reserved = false; updated_at = now }

unfoldable pub clear_reserved : Text → ℕ → Db → Db
clear_reserved id now = update_tasks (has_task_id id) (release now)

-- maxInt(1, task.CreditUnits)
abbrev pub refund_units : TaskRow → ℤ
refund_units t = max_int (pos 1) t.credit_units

unfoldable pub is_refundable : TaskRow → Bool
is_refundable t =
    not (is_nil t.wallet_id)
    && not (is_nil t.service_code)
    && t.credit_reserved
    && not t.credit_charged

-- The UPDATE of the wallet or of its entitlement.
unfoldable pub give_back : TaskRow → ℕ → Db → Db
unfolding give_credits give_entitlement
give_back t now db =
    if is_credits t.billing_source
    then give_credits t.wallet_id (refund_units t) now db
    else give_entitlement t.wallet_id t.service_code (pos 1) now db

unfoldable pub statement : {E : Type 0} → (Db → Db) → Exec E World Unit
statement {E} change = do attempt {F = E} (exec (λ e. e) (λ _. tt) change); pure tt

unfoldable pub fail_task_and_refund : {E : Type 0} → TaskRow → Text → Exec E World Unit
unfolding set_error is_refundable give_back clear_reserved statement
fail_task_and_refund t message = do
  now ← time_now
  statement (set_error t.id message now)
  (if is_refundable t
      then (do statement (give_back t now); statement (clear_reserved t.id now))
      else pure tt)
