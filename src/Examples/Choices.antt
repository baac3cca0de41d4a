-- ===== src/Examples/Choices.antt =====
-- The theorems on choices and limits, at concrete inputs.
use lillian_backend.Common.{
  ℕ, ◌+◌, ◌<◌, ℤ, pos, ◌≤ℤ◌, ◌≡◌, refl, Text, codes, text_eq, ◌&&◌, not, Bool, true, false, Option,
  none, some, List, [], ◌∷◌, ok, count_where, arith, implies, All, eqb_ℤ, is_some,
}
use lillian_backend.Common.Sorting.{le}
use lillian_backend.Schema.{TaskRow, TaskStatus}
use lillian_backend.Sql.{World, reading}
use lillian_backend.Settings.{default_settings}
use lillian_backend.Wallets.{WalletEntitlement, WalletSnapshot}
use lillian_backend.Billing.{
  BillingSelection, select_wallet_billing, select_wallet_service, candidate_buckets,
}
use lillian_backend.Billing.Services.{select_wallet_billing-buckets}
use lillian_backend.Profiles.{
  is_eligible, contains, compare_profiles, candidates, first_allowed, record_failure, cooldown,
}
use lillian_backend.Profiles.Choice.{first_allowed-least, record_failure-cooldown}
use lillian_backend.Tasks.Claim.{
  claim, claim_next_queued_task, next_claimable, is_running, is_claimable, by_creation, run,
}
use lillian_backend.Tasks.Claim.Limits.{claim-global_limit, claim_next-oldest, claim_succeeds}
use lillian_backend.Examples.{a_world, a_task, a_wallet, a_profile, another_profile, sd}

claim-ok : (claim_next_queued_task default_settings a_world).0 ≡ ok (run 100 a_task)
unfolding claim_next_queued_task lillian_backend.Sql.transaction lillian_backend.Sql.fault
    lillian_backend.Common.◌>>=◌ lillian_backend.Sql.query lillian_backend.Sql.later_faults
    count_where lillian_backend.Common.Sorting.order_by lillian_backend.Common.select_where
    lillian_backend.Common.find_where text_eq lillian_backend.Sql.time_now lillian_backend.Sql.exec
    reading
claim-ok = refl

claim_running-ok :
    (claim (next_claimable default_settings) default_settings a_world).0 ≡ ok (run 100 a_task)
unfolding claim next_claimable lillian_backend.Sql.transaction lillian_backend.Sql.fault
    lillian_backend.Common.◌>>=◌ lillian_backend.Sql.query lillian_backend.Sql.later_faults
    count_where lillian_backend.Common.Sorting.order_by lillian_backend.Common.select_where
    lillian_backend.Common.find_where text_eq lillian_backend.Sql.time_now lillian_backend.Sql.exec
    reading
claim_running-ok = refl

claim-global_limit_example :
    (count_where is_running
        (claim (next_claimable default_settings) default_settings a_world).1.db.tasks
      ≡ count_where is_running a_world.db.tasks + 1)
    × (pos (
          count_where is_running
            (claim (next_claimable default_settings) default_settings a_world).1.db.tasks)
        ≤ℤ pos 6)
claim-global_limit_example =
    claim-global_limit (next_claimable default_settings) default_settings a_world (run 100 a_task)
      claim_running-ok

claim_next-oldest_example :
    (row : TaskRow) × (a_task.id ≡ row.id)
    × (TaskStatus.running ≡ TaskStatus.running)
    × (is_claimable default_settings a_world.db row ≡ true)
    × All
        (λ r. implies (is_claimable default_settings a_world.db r) (le by_creation row r) ≡ true)
        a_world.db.tasks
claim_next-oldest_example = claim_next-oldest default_settings a_world (run 100 a_task) claim-ok

abbrev buckets : List Text
buckets = codes "1k" ∷ codes "hd" ∷ []

-- The second profile has the lower priority number.
first-second : first_allowed [] (candidates buckets 100 a_world.db) ≡ some another_profile
unfolding first_allowed candidates lillian_backend.Common.find_where
    lillian_backend.Common.Sorting.order_by lillian_backend.Common.select_where text_eq
first-second = refl

first_allowed-least_example :
    (is_eligible buckets 100 another_profile ≡ true)
    × (contains [] another_profile.id ≡ false)
    × All
        (λ q.
          implies
            (is_eligible buckets 100 q && not (contains [] q.id))
            (le (compare_profiles buckets) another_profile q)
          ≡ true)
        a_world.db.profiles
first_allowed-least_example =
    first_allowed-least buckets [] 100 a_world.db another_profile first-second

in_cooldown : 5000 < reading a_world + cooldown
unfolding reading
in_cooldown = omega arith

record_failure-cooldown_example :
    All
      (λ q. (text_eq q.id (codes "p1") && is_eligible buckets 5000 q) ≡ false)
      (record_failure a_profile a_world).1.db.profiles
record_failure-cooldown_example =
    record_failure-cooldown a_profile a_world buckets 5000 refl (omega arith) in_cooldown

abbrev sd_entitlement : WalletEntitlement
sd_entitlement = record {
  service_code = sd;
  label = codes "SD 1K";
  remaining = pos 3;
  max_concurrent = pos 2;
}

abbrev a_snapshot : WalletSnapshot
a_snapshot = record { wallet = a_wallet; entitlements = sd_entitlement ∷ [] }

abbrev sd_billing : BillingSelection
sd_billing = record {
  service_code = sd;
  billing_key = codes "1K";
  credit_units = pos 1;
  uses_credits = false;
}

billed : (select_wallet_billing a_snapshot (codes "1K") a_world).0 ≡ ok sd_billing
unfolding select_wallet_billing text_eq lillian_backend.Common.to_upper
    lillian_backend.Common.trim_space lillian_backend.Billing.wallet_entitlement_with_balance
billed = refl

select_wallet_billing-buckets_example : is_some (candidate_buckets sd (codes "1K")) ≡ true
select_wallet_billing-buckets_example =
    select_wallet_billing-buckets a_snapshot (codes "1K") a_world sd_billing billed

selected : select_wallet_service (sd_entitlement ∷ []) (codes "1K") ≡ some sd_entitlement
unfolding select_wallet_service text_eq lillian_backend.Common.to_upper
    lillian_backend.Common.trim_space lillian_backend.Billing.wallet_entitlement_with_balance
selected = refl

picked : next_claimable default_settings a_world.db ≡ some a_task
unfolding next_claimable lillian_backend.Common.Sorting.order_by lillian_backend.Common.select_where
    lillian_backend.Common.find_where text_eq count_where
picked = refl

claim_succeeds_example :
    (claim (next_claimable default_settings) default_settings a_world).0
    ≡ ok (run (reading a_world) a_task)
unfolding count_where text_eq
claim_succeeds_example =
    claim_succeeds (next_claimable default_settings) default_settings a_world a_task refl refl
      picked refl
