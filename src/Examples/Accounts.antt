-- ===== src/Examples/Accounts.antt =====
-- The theorems on accounts, at concrete inputs.
use lillian_backend.Common.{
  ℕ, ℤ, pos, ◌≡◌, ◌≢◌, refl, Text, codes, Bool, true, false, Option, none, some, List, [], ◌∷◌, ok,
  count_where, arith, implies, ltb_ℤ, find_where, ◌+ℤ◌, sum_by,
}
use lillian_backend.Common.{◌≤◌, ◌≤ℤ◌, ◌+◌}
use lillian_backend.Schema.{TaskRow, LicenseRow, Document, payload}
use lillian_backend.Billing.{BillingSelection}
use lillian_backend.Tasks.{is_entitlement_of, is_active_of}
use lillian_backend.Tasks.Create.{reserve, queued_task}
use lillian_backend.Tasks.Create.Limits.{
  NonNegative, reserve-NonNegative, active_limit, reserve-active_limit,
}
use lillian_backend.Sql.{
  steps, World, fault, later_faults, head_or, rest, reading, later_clock, next_uuid, later_uuids,
}
use lillian_backend.Sql.Rules.{Keeps}
use lillian_backend.Settings.{RuntimeSettings, default_settings}
use lillian_backend.Wallets.Redeem.{RedeemWalletParams, redeem, is_redeemed, has_key}
use lillian_backend.Wallets.Redeem.Once.{redeem-once, redeem_succeeds}
use lillian_backend.Tasks.Create.{create_task}
use lillian_backend.Tasks.Refund.{fail_task_and_refund, is_refundable}
use lillian_backend.Tasks.Execute.{execute_task}
use lillian_backend.Tasks.Recover.{Account, wallet, entitlement}
use lillian_backend.Common.{text_eq, to_lower, trim_space}
use lillian_backend.Wallets.Redeem.{redemption_conflicts, is_expired}
use lillian_backend.Examples.{a_license}
use lillian_backend.Tasks.Execute.Done.{IsDone, execute_task-IsDone}
use lillian_backend.Tasks.Ledger.{ledger, share, held, SameLedger}
use lillian_backend.Tasks.Ledger.Creation.{create_task-SameLedger}
use lillian_backend.Tasks.Ledger.Failure.{ledger-fail_task_and_refund}
use lillian_backend.Tasks.Ledger.Runs.{execute_task-SameLedger}
use lillian_backend.Tasks.Worker.{process_task}
use lillian_backend.Tasks.Ledger.Rounds.{process_task-SameLedger}
use lillian_backend.Tasks.Ledger.Redemption.{ledger-redeem}
use lillian_backend.Examples.{
  a_world, running_world, a_server, a_payload, running_task, an_upstream, a_wallet, sd, world_of,
}

-- The request is accepted: its wallet pays by entitlement.
create_task-SameLedger_example : Keeps SameLedger (create_task a_server (some a_payload))
create_task-SameLedger_example = create_task-SameLedger a_server (some a_payload)

running_task-is_refundable : is_refundable running_task ≡ true
unfolding is_refundable
running_task-is_refundable = refl

ledger-fail_task_and_refund_example :
    ledger
        (wallet (codes "w1"))
        (fail_task_and_refund {E = Text} running_task (codes "no image") running_world).1.db
      +ℤ held (wallet (codes "w1")) running_task
    ≡ ledger (wallet (codes "w1")) running_world.db
      +ℤ share (wallet (codes "w1")) (pos 2) (wallet (codes "w1"))
unfolding count_where lillian_backend.Common.text_eq find_where lillian_backend.Numbers.max_int
ledger-fail_task_and_refund_example =
    ledger-fail_task_and_refund (wallet (codes "w1")) running_task running_task (codes "no image")
      running_world refl running_task-is_refundable refl refl refl

run-ok : (execute_task an_upstream running_task running_world).0 ≡ ok tt
unfolding execute_task lillian_backend.Common.◌>>=◌ lillian_backend.Sql.attempt
    lillian_backend.Profiles.service_profile_by_id lillian_backend.Sql.query_row fault find_where
    lillian_backend.Common.text_eq lillian_backend.Sql.time_now lillian_backend.Sql.exec
    lillian_backend.Profiles.record_success later_faults
run-ok = refl

execute_task-SameLedger_example :
    ledger (wallet (codes "w1")) (execute_task an_upstream running_task running_world).1.db
    ≡ ledger (wallet (codes "w1")) running_world.db
execute_task-SameLedger_example =
    execute_task-SameLedger an_upstream running_task running_world run-ok (wallet (codes "w1"))

abbrev pub a_redemption : RedeemWalletParams
a_redemption = record { wallet_address = a_wallet.address; code_hash = codes "h1"; now = 100 }

pub redeem-ok : (redeem a_redemption a_world).0 ≡ ok a_wallet
unfolding redeem lillian_backend.Common.◌>>=◌ lillian_backend.Sql.query_row fault find_where
    lillian_backend.Common.text_eq lillian_backend.Common.to_lower lillian_backend.Common.trim_space
    later_faults lillian_backend.Sql.random_id next_uuid later_uuids lillian_backend.Sql.exec
    lillian_backend.Sql.insert
redeem-ok = refl

redeem-once_example :
    (redeem a_redemption (world_of (redeem a_redemption a_world).1.db)).0 ≢ ok a_wallet
redeem-once_example =
    redeem-once a_redemption a_redemption a_world (world_of (redeem a_redemption a_world).1.db)
      a_wallet a_wallet redeem-ok refl refl

pub one_entitlement : (v c : Text) → count_where (is_entitlement_of v c) a_world.db.entitlements ≤ 1
unfolding count_where
one_entitlement v c = ground arith

ledger-redeem_example :
    (l : LicenseRow) × (find_where (has_key (codes "h1")) a_world.db.licenses ≡ some l)
    × (is_redeemed l ≡ false)
    × (ltb_ℤ (pos 0) l.credits ≡ true)
    × ((a : Account)
        → ledger a (redeem a_redemption a_world).1.db
          ≡ ledger a a_world.db +ℤ share (entitlement (codes "w1") l.service_code) l.credits a)
ledger-redeem_example =
    ledger-redeem a_redemption a_world a_wallet (record { at_most = one_entitlement }) redeem-ok

-- Two credits, for a task of the wallet.
abbrev a_billing : BillingSelection
a_billing = record {
  service_code = sd;
  billing_key = codes "1K";
  credit_units = pos 2;
  uses_credits = true;
}

abbrev a_document : Document
a_document = payload a_payload

abbrev new_task : TaskRow
new_task =
    queued_task (codes "t2") (codes "w1") a_billing (codes "1024x1824") (codes "p1") a_document 100

reserve-ok : (reserve a_billing (codes "w1") new_task 100 a_world).0 ≡ ok (pos 10)
unfolding reserve lillian_backend.Common.◌>>=◌ lillian_backend.Sql.query_row fault find_where
    lillian_backend.Common.text_eq lillian_backend.Sql.query later_faults count_where
    lillian_backend.Sql.exec lillian_backend.Sql.insert queued_task
reserve-ok = refl

reserve-NonNegative_example : NonNegative (reserve a_billing (codes "w1") new_task 100 a_world).1.db
reserve-NonNegative_example =
    reserve-NonNegative a_billing (codes "w1") new_task 100 a_world (pos 10)
      (record { credits = (omega arith, tt); remaining = (omega arith, tt) }) reserve-ok

reserve-active_limit_example :
    (count_where
        (is_active_of (codes "w1") sd)
        (reserve a_billing (codes "w1") new_task 100 a_world).1.db.tasks
      ≡ count_where (is_active_of (codes "w1") sd) a_world.db.tasks + 1)
    × (pos (
          count_where
            (is_active_of (codes "w1") sd)
            (reserve a_billing (codes "w1") new_task 100 a_world).1.db.tasks)
        ≤ℤ active_limit a_billing (codes "w1") a_world.db)
reserve-active_limit_example =
    reserve-active_limit a_billing (codes "t2") (codes "w1") (codes "1024x1824") (codes "p1")
      a_document 100 a_world (pos 10) reserve-ok

processed : (process_task an_upstream (codes "t1") a_world).0 ≡ ok tt
unfolding process_task lillian_backend.Common.◌>>=◌ lillian_backend.Settings.load_runtime_settings
    fault lillian_backend.Sql.attempt lillian_backend.Sql.transaction later_faults count_where
    lillian_backend.Common.select_where find_where lillian_backend.Common.text_eq
    lillian_backend.Sql.time_now lillian_backend.Sql.exec
    lillian_backend.Profiles.service_profile_by_id lillian_backend.Sql.query_row
    lillian_backend.Profiles.record_success
processed = refl

process_task-SameLedger_example :
    ledger (wallet (codes "w1")) (process_task an_upstream (codes "t1") a_world).1.db
    ≡ ledger (wallet (codes "w1")) a_world.db
process_task-SameLedger_example =
    process_task-SameLedger an_upstream (codes "t1") a_world processed (wallet (codes "w1"))

usable : (redemption_conflicts (codes "u2") a_world.db ≡ false)
unfolding find_where
usable = refl

live : find_where (has_key (codes "h1")) a_world.db.licenses ≡ some a_license
unfolding find_where text_eq
live = refl

owned :
    find_where (λ r. text_eq r.address (to_lower (trim_space a_wallet.address))) a_world.db.wallets
    ≡ some a_wallet
unfolding find_where text_eq to_lower trim_space
owned = refl

unspent : is_redeemed a_license ≡ false
unfolding is_redeemed
unspent = refl

in_time : is_expired 100 a_license ≡ false
unfolding is_expired
in_time = refl

redeem_succeeds_example : (redeem a_redemption a_world).0 ≡ ok a_wallet
redeem_succeeds_example =
    redeem_succeeds a_redemption a_world a_wallet a_license (codes "u1") (codes "u2") [] refl refl
      owned live in_time unspent refl usable

execute_task-IsDone_example :
    IsDone (codes "t1") (execute_task an_upstream running_task running_world).1.db
execute_task-IsDone_example = execute_task-IsDone an_upstream running_task running_world refl run-ok
