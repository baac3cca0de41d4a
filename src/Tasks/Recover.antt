-- ===== src/Tasks/Recover.antt =====
-- Recovery of tasks that stopped while running (tasks.go: recoverStaleWalletRunningTasks, the
-- function over a store and the server's method). The refunds are summed by key before they are
-- made; Go visits the keys of a map in no fixed order, and here they come in the order of the rows.
use lillian_backend.Common.{
  ℕ, ◌+◌, ◌-◌, ◌*◌, ◌^◌, ℤ, pos, pos_part, ◌+ℤ◌, ltb, ◌==◌, Text, codes, text_eq, is_nil, not, ◌&&◌,
  Bool, true, false, some, List, [], ◌∷◌, ◌++◌, if◌then◌else◌, select_where, count_where, Exec,
  pure, guard, ◌>>=◌, ◌>>◌,
}
use lillian_backend.Schema.{Db, TaskRow, TaskStatus}
use lillian_backend.Sql.{World, SqlError, failed, exec, transaction, time_now}
use lillian_backend.Settings.{load_runtime_settings}
use lillian_backend.Tasks.{update_tasks, has_wallet_id, is_entitlement_of}
use lillian_backend.Tasks.Claim.{is_running}
use lillian_backend.Tasks.Refund.{is_credits, refund_units, give_credits, give_entitlement}

abbrev pub second : ℕ
second = 10 ^ 9

abbrev pub stale_grace : ℕ
stale_grace = 120 * second

abbrev pub stale_message : Text
stale_message = codes "Task timed out before completion and reserved wallet credit was released"

-- The WHERE clause. A task with no wallet or no service has the empty text there.
unfoldable pub is_stale : ℕ → TaskRow → Bool
is_stale cutoff t =
    is_running t
    && not (is_nil t.wallet_id)
    && not (is_nil t.service_code)
    && t.credit_reserved
    && not t.credit_charged
    && ltb t.updated_at cutoff

abbrev pub time_out : ℕ → TaskRow → TaskRow
time_out now t = record t {
  status = TaskStatus.error;
  error_text = some stale_message;
  credit_reserved = false;
  updated_at = now;
  finished_at = some now;
}

unfoldable pub time_out_stale : ℕ → ℕ → Db → Db
time_out_stale now cutoff = update_tasks (is_stale cutoff) (time_out now)

-- A refund to be made: of credits to a wallet, or of uses to an entitlement.
pub data Account : Type 0 where
  wallet : Text → Account
  entitlement : Text → Text → Account

unfoldable pub same_account : Account → Account → Bool
same_account (wallet a) (wallet b) = text_eq a b
same_account (wallet a) (entitlement b c) = false
same_account (entitlement b c) (wallet a) = false
same_account (entitlement a c) (entitlement b d) = text_eq a b && text_eq c d

-- refunds[key] += n
unfoldable pub add_refund : Account → ℤ → List (Account × ℤ) → List (Account × ℤ)
unfolding same_account
add_refund a n [] = (a, n) ∷ []
add_refund a n ((b, m) ∷ rs) =
    if same_account b a then (b, m +ℤ n) ∷ rs else (b, m) ∷ add_refund a n rs

abbrev pub account_of : TaskRow → Account
account_of t =
    if is_credits t.billing_source
    then wallet t.wallet_id
    else entitlement t.wallet_id t.service_code

abbrev pub amount_of : TaskRow → ℤ
amount_of t = if is_credits t.billing_source then refund_units t else pos 1

-- The loop over the returned rows.
unfoldable pub collect : List (Account × ℤ) → List TaskRow → List (Account × ℤ)
unfolding add_refund
collect rs [] = rs
collect rs (t ∷ ts) = collect (add_refund (account_of t) (amount_of t) rs) ts

abbrev is_wallet : Account → Bool
is_wallet (wallet a) = true
is_wallet (entitlement a c) = false

abbrev pub account_rows : Account → Db → ℕ
account_rows (wallet a) db = count_where (has_wallet_id a) db.wallets
account_rows (entitlement a c) db = count_where (is_entitlement_of a c) db.entitlements

unfoldable pub give : Account → ℤ → ℕ → Db → Db
unfolding give_credits give_entitlement
give (wallet a) n now = give_credits a n now
give (entitlement a c) n now = give_entitlement a c n now

abbrev missing : Account → SqlError
missing (wallet a) = failed (codes "wallet missing for stale credit recovery: wallet_id=" ++ a)
missing (entitlement a c) = failed (
    codes "wallet entitlement missing for stale task recovery: wallet_id="
    ++ (a ++ (codes " service_code=" ++ c)))

-- A loop over one of the two maps, which adds up what it gave back.
unfoldable pub give_all : ℤ → ℕ → List (Account × ℤ) → Exec SqlError World ℤ
unfolding give
give_all recovered now [] = pure recovered
give_all recovered now ((a, n) ∷ rs) = do
  affected ← exec (λ e. e) (account_rows a) (give a n now)
  guard (affected == 1) (missing a)
  give_all (recovered +ℤ n) now rs

abbrev pub refunds_of : Bool → List (Account × ℤ) → List (Account × ℤ)
refunds_of b rs = select_where (λ r. if is_wallet r.0 then b else not b) rs

abbrev pub default_stale_after : ℕ
default_stale_after = 600 * second + stale_grace

-- The two loops: the refunds of entitlements, then those of credits.
unfoldable pub refund_all : ℤ → ℕ → List (Account × ℤ) → Exec SqlError World ℤ
unfolding give_all select_where
refund_all recovered now refunds = do
  so_far ← give_all recovered now (refunds_of false refunds)
  give_all so_far now (refunds_of true refunds)

unfoldable pub cutoff_of : ℕ → ℕ → ℕ
cutoff_of now stale_after = now - (if stale_after == 0 then default_stale_after else stale_after)

unfoldable pub recover_before : ℕ → ℕ → Exec SqlError World ℤ
unfolding time_out_stale collect refund_all
recover_before now cutoff = do
  rows ← exec (λ e. e) (λ db. select_where (is_stale cutoff) db.tasks) (time_out_stale now cutoff)
  refund_all (pos 0) now (collect [] rows)

-- recoverStaleWalletRunningTasks(ctx, store, now, staleAfter)
unfoldable pub recover_stale : ℕ → ℕ → Exec SqlError World ℤ
unfolding recover_before cutoff_of
recover_stale now stale_after = recover_before now (cutoff_of now stale_after)

-- (s *Server) recoverStaleWalletRunningTasks: a failure is logged and nothing is kept.
unfoldable pub recover_stale_tasks : Exec SqlError World ℤ
unfolding recover_stale
recover_stale_tasks = do
  settings ← load_runtime_settings
  transaction (λ e. e)
      (do
        now ← time_now
        recover_stale now (pos_part settings.upstream_timeout_seconds * second + stale_grace))
