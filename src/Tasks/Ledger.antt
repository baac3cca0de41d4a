-- ===== src/Tasks/Ledger.antt =====
-- What an account is worth: what its row holds, and what its tasks have reserved or spent.
pub mod Charges
pub mod Creation
pub mod Claims
pub mod Redemption
pub mod Runs
pub mod Rounds
pub mod Failure
pub mod Recovery
use lillian_backend.Common.{
  ℕ, ℤ, pos, ◌+ℤ◌, int_laws, ◌≡◌, refl, ap, Text, text_eq, text_eq_iff, ◌&&◌, Bool, true, false,
  Option, none, some, List, if◌then◌else◌, sum_by, count_where, find_where, arith, Bool-cases, inl,
  inr,
}
use lillian_backend.Common.Tables.Laws.{
  sum_by-update_same, sum_by-update_one, count_where_pos, sum_by-update_by,
}
use lillian_backend.Schema.{Db, TaskRow, WalletRecord, EntitlementRow}
use lillian_backend.Sql.Rules.{IsPreorder}
use lillian_backend.Tasks.{has_wallet_id, is_entitlement_of}
use lillian_backend.Tasks.Refund.{add_credits, add_remaining, give_credits, give_entitlement}
use lillian_backend.Tasks.Recover.{
  Account, wallet, entitlement, same_account, account_of, amount_of, account_rows, give,
}

abbrev pub credits_in : Text → WalletRecord → ℤ
credits_in v r = if has_wallet_id v r then r.credits else pos 0

abbrev pub remaining_in : Text → Text → EntitlementRow → ℤ
remaining_in v c e = if is_entitlement_of v c e then e.remaining else pos 0

-- What the account's row holds.
unfoldable pub stored : Account → Db → ℤ
stored (wallet v) db = sum_by (credits_in v) db.wallets
stored (entitlement v c) db = sum_by (remaining_in v c) db.entitlements

-- The part of an amount for account `b` that falls to account `a`.
abbrev pub share : Account → ℤ → Account → ℤ
share b n a = if same_account b a then n else pos 0

-- What a task holds of an account, from its reservation until a refund.
abbrev pub held : Account → TaskRow → ℤ
held a t = if t.credit_reserved then share (account_of t) (amount_of t) a else pos 0

unfoldable pub ledger : Account → Db → ℤ
ledger a db = stored a db +ℤ sum_by (held a) db.tasks

abbrev pub SameLedger : Db → Db → Type 0
SameLedger d e = (a : Account) → ledger a e ≡ ledger a d

pub SameLedger-preorder : IsPreorder SameLedger
SameLedger-preorder = record { same = λ d a. refl; chain = λ d e f p q a. cc (p a, q a) }

-- Giving to one account, whose row is there, adds to it and to no other.
pub stored-give :
    (a b : Account) (n : ℤ) (now : ℕ) (db : Db)
    → account_rows b db ≡ 1
    → stored a (give b n now db) ≡ stored a db +ℤ share b n a
unfolding stored give same_account
stored-give (wallet v) (wallet w) n now db c =
    sum_by-update_by (credits_in v) (has_wallet_id w) (add_credits n now)
      (share (wallet w) n (wallet v)) db.wallets
      (λ x h. grind (int_laws, text_eq_iff x.id w, text_eq_iff x.id v, text_eq_iff w v)) c
stored-give (wallet v) (entitlement w k) n now db c = omega int_laws
stored-give (entitlement v k) (wallet w) n now db c = omega int_laws
stored-give (entitlement v j) (entitlement w k) n now db c =
    sum_by-update_by (remaining_in v j) (is_entitlement_of w k) (add_remaining n now)
      (share (entitlement w k) n (entitlement v j)) db.entitlements
      (λ x h. grind (
        int_laws,
        text_eq_iff x.wallet_id w,
        text_eq_iff x.wallet_id v,
        text_eq_iff w v,
        text_eq_iff x.service_code j,
        text_eq_iff x.service_code k,
        text_eq_iff k j,
      ))
      c

-- A change of other tables changes no account.
pub SameLedger-of_tables :
    (d e : Db)
    → e.wallets ≡ d.wallets
    → e.entitlements ≡ d.entitlements
    → e.tasks ≡ d.tasks
    → SameLedger d e
unfolding ledger stored
SameLedger-of_tables d e p q r (wallet v) = cc
SameLedger-of_tables d e p q r (entitlement v c) = cc
