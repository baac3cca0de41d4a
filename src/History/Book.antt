-- ===== src/History/Book.antt =====
-- The book of accounts that the server's steps refine: a book changes by deposits alone.
use lillian_backend.Common.{
  ℤ, pos, ◌+ℤ◌, int_laws, ◌≡◌, ap, sym, ◌∙◌, Text, Bool, true, false, Option, List, [], ◌∷◌, ◌++◌,
  if◌then◌else◌, arith,
}
use mathlib.Core.Option.{some-injective}
use lillian_backend.Schema.{Db, TaskRow, LicenseRow}
use lillian_backend.Tasks.Recover.{Account, wallet, entitlement, account_of, amount_of}
use lillian_backend.Tasks.Refund.{is_refundable}
use lillian_backend.Tasks.Ledger.{ledger, share, held}
use lillian_backend.Tasks.Ledger.Creation.{create_task-SameLedger}
use lillian_backend.Tasks.Ledger.Claims.{claim-SameLedger}
use lillian_backend.Tasks.Ledger.Runs.{execute_task-SameLedger}
use lillian_backend.Tasks.Ledger.Recovery.{recover_stale_tasks-SameLedger}
use lillian_backend.Tasks.Ledger.Failure.{ledger-fail_task_and_refund}
use lillian_backend.Tasks.Ledger.Redemption.{ledger-redeem}
use lillian_backend.Payments.{is_paid}
use lillian_backend.Payments.Crediting.{settle-ledger}
use lillian_backend.History.{
  Deposit, deposited, Step, created, claimed, finished, refunded, recovered, redeemed, settled,
  Reach, start, next,
}

-- The abstract state: what each account is worth.
abbrev pub Book : Type 0
Book = Account → ℤ

abbrev pub book_of : Db → Book
book_of d a = ledger a d

-- The abstract operation: the deposits come in, and nothing else moves.
abbrev pub enter : List Deposit → Book → Book
enter ds book a = book a +ℤ deposited ds a

deposited-append :
    (ds es : List Deposit) (a : Account) → deposited (ds ++ es) a ≡ deposited ds a +ℤ deposited es a
deposited-append [] es a = omega int_laws
deposited-append (d ∷ ds) es a = grind (int_laws, deposited-append ds es a)

no_deposit :
    (d e : Db) (a : Account) → ledger a e ≡ ledger a d → book_of e a ≡ enter [] (book_of d) a
no_deposit d e a h = grind int_laws

one_deposit : (b n : ℤ) → b +ℤ n ≡ b +ℤ (n +ℤ pos 0)
one_deposit b n = omega int_laws

held-refundable :
    (t : TaskRow) (a : Account)
    → is_refundable t ≡ true
    → held a t ≡ share (account_of t) (amount_of t) a
unfolding is_refundable
held-refundable t a h = ground arith

paid_or_not :
    (paid : Bool) (to : Account) (n b : ℤ) (a : Account)
    → (if paid then b else b +ℤ share to n a)
      ≡ b +ℤ deposited (if paid then [] else record { to = to; amount = n } ∷ []) a
paid_or_not true to n b a = omega int_laws
paid_or_not false to n b a = omega int_laws

module _ {rat : Type 0} {set_string : Text → Option rat} {same_rat : rat → rat → Bool}
    {md5_hex : Text → Text} where
  Step-enter :
      {d e : Db} {ds : List Deposit}
      → Step rat set_string same_rat md5_hex d e ds
      → (a : Account) → book_of e a ≡ enter ds (book_of d) a
  Step-enter (created server request w) a =
      no_deposit w.db _ a ((create_task-SameLedger server request).at w a)
  Step-enter (claimed pick settings w) a =
      no_deposit w.db _ a ((claim-SameLedger pick settings).at w a)
  Step-enter (finished up t w h) a = no_deposit w.db _ a (execute_task-SameLedger up t w h a)
  Step-enter (refunded t message w quiet back one c e) a = grind (
    int_laws,
    ledger-fail_task_and_refund a t t message w quiet back one c e,
    held-refundable t a back,
  )
  Step-enter (recovered w) a = no_deposit w.db _ a (recover_stale_tasks-SameLedger.at w a)
  Step-enter (redeemed p w owner l unique h found) a =
      let (l', found', fresh, worth, moved) = ledger-redeem p w owner unique h in
      let same = some-injective _ _ (sym found' ∙ found) in
      moved a
      ∙ ap
          (λ (x : LicenseRow).
            ledger a w.db +ℤ share (entitlement owner.id x.service_code) x.credits a)
          same
      ∙ one_deposit (ledger a w.db) (share (entitlement owner.id l.service_code) l.credits a)
  Step-enter (settled cfg payload order_id w o two found one h) a =
      settle-ledger rat set_string same_rat md5_hex cfg payload order_id w o two found one h a
      ∙ paid_or_not (is_paid o.status) (wallet o.wallet_id) o.credits (ledger a w.db) a

  pub Reach-enter :
      {d e : Db} {ds : List Deposit}
      → Reach rat set_string same_rat md5_hex d e ds
      → (a : Account) → book_of e a ≡ enter ds (book_of d) a
  Reach-enter start a = grind int_laws
  Reach-enter (next {ds = ds} {es = es} r step) a =
      grind (int_laws, Reach-enter r a, Step-enter step a, deposited-append es ds a)
