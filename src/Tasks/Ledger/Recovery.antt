-- ===== src/Tasks/Ledger/Recovery.antt =====
-- Recovery gives each account what its stale tasks held (tasks.go: recoverStaleWalletRunningTasks).
use lillian_backend.Common.{
  pos_part, ◌*◌, ◌+◌, Option-cases, ◌>>=◌, ℕ, ℤ, pos, ◌+ℤ◌, int_laws, ◌≡◌, refl, ap, text_eq_iff,
  Bool, true, false, not, List, [], ◌∷◌, arith, ok, sum_by, select_where, update_where, Bool-cases,
  Result-cases, inl, inr,
}
use lillian_backend.Schema.{Db, TaskRow}
use lillian_backend.Sql.{World, steps, with_db, spend, fault, exec, reading, later_clock, time_now}
use lillian_backend.Sql.Rules.{Keeps, Keeps-bind, Keeps-commit}
use lillian_backend.Settings.Frame.{load_runtime_settings-Keeps}
use lillian_backend.Tasks.Recover.{
  Account, wallet, entitlement, same_account, add_refund, account_of, amount_of, collect,
  account_rows, give, give_all, second, stale_grace, refunds_of, refund_all, recover_before,
  cutoff_of, recover_stale, is_stale, time_out_stale, time_out, recover_stale_tasks,
}
use lillian_backend.Tasks.Ledger.{
  stored, share, held, ledger, SameLedger, SameLedger-preorder, stored-give,
}

same_account_sound : (a b : Account) → same_account a b ≡ true → a ≡ b
unfolding same_account
same_account_sound (wallet v) (wallet w) h = ap wallet (ground (arith, text_eq_iff v w))
same_account_sound (wallet v) (entitlement w k) h = cc
same_account_sound (entitlement v c) (wallet w) h = cc
same_account_sound (entitlement v c) (entitlement w k) h =
    grind (arith, text_eq_iff v w, text_eq_iff c k)

-- What a list of refunds comes to for one account.
abbrev pub total : Account → List (Account × ℤ) → ℤ
total a rs = sum_by (λ r. share r.0 r.1 a) rs

-- What a list of tasks comes to for one account.
abbrev pub owed : Account → List TaskRow → ℤ
owed a ts = sum_by (λ t. share (account_of t) (amount_of t) a) ts

share-add : (b : Account) (m n : ℤ) (a : Account) → share b (m +ℤ n) a ≡ share b m a +ℤ share b n a
share-add b m n a = elim (Bool-cases (same_account b a)) [
  | inl hit ↦ grind int_laws
  | inr miss ↦ grind int_laws
]

total-add_refund :
    (a b : Account) (n : ℤ) (rs : List (Account × ℤ))
    → total a (add_refund b n rs) ≡ total a rs +ℤ share b n a
unfolding add_refund sum_by
total-add_refund a b n [] = grind int_laws
total-add_refund a b n ((c, m) ∷ rs) = elim (Bool-cases (same_account c b)) [
  | inl hit ↦ grind (int_laws, same_account_sound c b hit, share-add c m n a)
  | inr miss ↦ grind (int_laws, total-add_refund a b n rs)
]

-- Summing the refunds by key loses nothing.
total-collect :
    (a : Account) (rs : List (Account × ℤ)) (ts : List TaskRow)
    → total a (collect rs ts) ≡ total a rs +ℤ owed a ts
unfolding collect sum_by
total-collect a rs [] = grind int_laws
total-collect a rs (t ∷ ts) = grind (
  int_laws,
  total-add_refund a (account_of t) (amount_of t) rs,
  total-collect a (add_refund (account_of t) (amount_of t) rs) ts,
)

sum_by-select_split :
    {A : Type 0} (f : A → ℤ) (p q : A → Bool) (xs : List A)
    → ((x : A) → p x ≡ not (q x))
    → sum_by f (select_where p xs) +ℤ sum_by f (select_where q xs) ≡ sum_by f xs
unfolding sum_by select_where
sum_by-select_split f p q [] h = grind int_laws
sum_by-select_split f p q (x ∷ xs) h = elim (Bool-cases (q x)) [
  | inl hit ↦ grind (int_laws, h x, sum_by-select_split f p q xs h)
  | inr miss ↦ grind (int_laws, h x, sum_by-select_split f p q xs h)
]

is_stale-reserved : (cutoff : ℕ) (t : TaskRow) → is_stale cutoff t ≡ true → t.credit_reserved ≡ true
unfolding is_stale
is_stale-reserved cutoff t h = ground arith

-- What stale tasks held, they no longer hold.
held-time_out :
    (a : Account) (cutoff now : ℕ) (ts : List TaskRow)
    → sum_by (held a) (update_where (is_stale cutoff) (time_out now) ts)
        +ℤ owed a (select_where (is_stale cutoff) ts)
      ≡ sum_by (held a) ts
unfolding sum_by update_where select_where
held-time_out a cutoff now [] = grind int_laws
held-time_out a cutoff now (t ∷ ts) = elim (Bool-cases (is_stale cutoff t)) [
  | inl stale ↦ grind (int_laws, is_stale-reserved cutoff t stale, held-time_out a cutoff now ts)
  | inr fresh ↦ grind (int_laws, held-time_out a cutoff now ts)
]

-- The first refund of a loop that succeeds has changed one row.
give_all_step :
    (r : ℤ) (now : ℕ) (b : Account) (n : ℤ) (rs : List (Account × ℤ)) (w : World) (m : ℤ)
    → (give_all r now ((b, n) ∷ rs) w).0 ≡ ok m
    → (account_rows b w.db ≡ 1)
      × (give_all r now ((b, n) ∷ rs) w
          ≡ give_all (r +ℤ n) now rs (with_db (spend w) (give b n now w.db)))
unfolding give_all steps
give_all_step r now b n rs w m e = ground arith

pub tasks-give : (b : Account) (n : ℤ) (now : ℕ) (d : Db) → (give b n now d).tasks ≡ d.tasks
unfolding give
tasks-give (wallet v) n now d = refl
tasks-give (entitlement v c) n now d = refl

-- A loop of refunds that succeeds has given each account its total, and has changed no task.
give_all_effect :
    (r : ℤ) (now : ℕ) (rs : List (Account × ℤ)) (w : World) (m : ℤ)
    → (give_all r now rs w).0 ≡ ok m
    → ((a : Account) → stored a (give_all r now rs w).1.db ≡ stored a w.db +ℤ total a rs)
      × ((give_all r now rs w).1.db.tasks ≡ w.db.tasks)
unfolding give_all steps sum_by
give_all_effect r now [] w m e = ((λ a. grind int_laws), refl)
give_all_effect r now ((b, n) ∷ rs) w m e =
    let (one, step) = give_all_step r now b n rs w m e in
    let later = with_db (spend w) (give b n now w.db) in
    let (values, tasks) = give_all_effect (r +ℤ n) now rs later m (grind arith) in
    (
      (λ a. grind (int_laws, step, values a, stored-give a b n now w.db one)),
      grind (arith, step, tasks, tasks-give b n now w.db),
    )

-- The two loops make every refund once.
total-split :
    (a : Account) (rs : List (Account × ℤ))
    → total a (refunds_of false rs) +ℤ total a (refunds_of true rs) ≡ total a rs
total-split a rs = sum_by-select_split (λ x. share x.0 x.1 a) _ _ rs (λ x. ground arith)

refund_all_effect :
    (r : ℤ) (now : ℕ) (rs : List (Account × ℤ)) (w : World) (m : ℤ)
    → (refund_all r now rs w).0 ≡ ok m
    → (a : Account) → ledger a (refund_all r now rs w).1.db ≡ ledger a w.db +ℤ total a rs
unfolding refund_all steps ledger
refund_all_effect r now rs w m e a =
    elim (Result-cases (give_all r now (refunds_of false rs) w).0) [
      | inl (k, first) ↦
          let (values, tasks) = give_all_effect r now (refunds_of false rs) w k first in
          let w' = (give_all r now (refunds_of false rs) w).1 in
          let (values', tasks') = give_all_effect k now (refunds_of true rs) w' m (ground arith) in
          grind (int_laws, values a, values' a, tasks, tasks', total-split a rs)
      | inr (x, failed) ↦ ground arith
    ]

-- What time_out_stale takes from each account's tasks is what they are owed.
ledger-time_out_stale :
    (a : Account) (now cutoff : ℕ) (d : Db)
    → ledger a (time_out_stale now cutoff d) +ℤ owed a (select_where (is_stale cutoff) d.tasks)
      ≡ ledger a d
unfolding ledger time_out_stale stored
ledger-time_out_stale (wallet v) now cutoff d =
    grind (int_laws, held-time_out (wallet v) cutoff now d.tasks)
ledger-time_out_stale (entitlement v c) now cutoff d =
    grind (int_laws, held-time_out (entitlement v c) cutoff now d.tasks)

recover_before-SameLedger :
    (now cutoff : ℕ) (w : World) (m : ℤ)
    → (recover_before now cutoff w).0 ≡ ok m
    → SameLedger w.db (recover_before now cutoff w).1.db
unfolding recover_before exec ◌>>=◌ sum_by
recover_before-SameLedger now cutoff w m e a = elim (Option-cases (fault w)) [
  | inl fine ↦
      let rows = select_where (is_stale cutoff) w.db.tasks in
      let w' = with_db (spend w) (time_out_stale now cutoff w.db) in
      grind (
        int_laws,
        refund_all_effect (pos 0) now (collect [] rows) w' m (grind arith) a,
        total-collect a [] rows,
        ledger-time_out_stale a now cutoff w.db,
      )
  | inr (x, broken) ↦ ground arith
]

recover_now-SameLedger :
    (after : ℕ) (w : World) (m : ℤ)
    → ((time_now >>= λ now. recover_stale now after) w).0 ≡ ok m
    → SameLedger w.db ((time_now >>= λ now. recover_stale now after) w).1.db
unfolding recover_stale ◌>>=◌ time_now
recover_now-SameLedger after w m e =
    recover_before-SameLedger (reading w) (cutoff_of (reading w) after)
      (record w { clock = later_clock w }) m e

-- The server's recovery of stale tasks keeps every account's value, whatever fails in it: the
-- refunds, summed by account, are what the timed-out tasks held.
pub recover_stale_tasks-SameLedger : Keeps SameLedger recover_stale_tasks
unfolding recover_stale_tasks
recover_stale_tasks-SameLedger =
    Keeps-bind SameLedger-preorder _ _ (load_runtime_settings-Keeps SameLedger-preorder)
      (λ settings. Keeps-commit SameLedger-preorder _ _ (
        recover_now-SameLedger (pos_part settings.upstream_timeout_seconds * second + stale_grace)))
