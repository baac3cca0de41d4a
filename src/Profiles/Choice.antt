-- ===== src/Profiles/Choice.antt =====
-- The profile that is chosen, and when one is left out (tasks.go: selectServiceProfileForWallet,
-- recordServiceProfileSuccess, recordServiceProfileFailure).
use lillian_backend.Common.{
  ℕ, ◌+◌, ◌<◌, pos, ◌+ℤ◌, ◌≤ℤ◌, int_laws, ◌≡◌, subst, sym, Text, text_eq, not, ◌&&◌, true, false,
  some, List, [], arith, take, select_where, All,
}
use lillian_backend.Common.Tables.Laws.{find_where_sound}
use lillian_backend.Common.{implies, eqb_ℤ}
use lillian_backend.Common.Tables.Updates.{take-All, find_All, All-update_where, All-of}
use lillian_backend.Common.Sorting.{
  IsOrder, order_by, le, compare_ℕ-IsOrder, compare_ℤ-IsOrder, compare_option-IsOrder,
  compare_text-IsOrder, then_by-IsOrder, by_key-IsOrder,
}
use lillian_backend.Common.Sorting.First.{
  map_All, find-order_by, All-select_where, select_where-All,
}
use lillian_backend.Common.Sorting.Laws.{order_by-All}
use lillian_backend.Schema.{Db, ServiceProfileRow}
use lillian_backend.Sql.{World, steps, reading, later_clock, fault, head_or}
use lillian_backend.Profiles.{
  is_eligible, contains, compare_profiles, array_position, candidates, first_allowed,
  record_failure, record_success, set_failure, set_success, disabled_after, cooldown, cooled_down,
}

compare_profiles-IsOrder : (buckets : List Text) → IsOrder (compare_profiles buckets)
unfolding compare_profiles
compare_profiles-IsOrder buckets =
    then_by-IsOrder (by_key-IsOrder (λ p. array_position buckets p.tier_bucket) compare_ℕ-IsOrder) (
      then_by-IsOrder (by_key-IsOrder (λ p. p.priority) compare_ℤ-IsOrder) (
        then_by-IsOrder (by_key-IsOrder (λ p. p.last_selected_at) compare_option-IsOrder) (
          then_by-IsOrder (by_key-IsOrder (λ p. p.selection_count) compare_ℤ-IsOrder)
            (by_key-IsOrder (λ p. p.id) compare_text-IsOrder))))

-- The profile that the loop over the rows takes may serve the buckets now and was not tried, and
-- every other such profile comes no earlier in the order of bucket, priority, last selection,
-- number of selections and id.
pub first_allowed-least :
    (buckets exclude : List Text) (now : ℕ) (d : Db) (p : ServiceProfileRow)
    → first_allowed exclude (candidates buckets now d) ≡ some p
    → (is_eligible buckets now p ≡ true)
      × (contains exclude p.id ≡ false)
      × All
          (λ q.
            implies
              (is_eligible buckets now q && not (contains exclude q.id))
              (le (compare_profiles buckets) p q)
            ≡ true)
          d.profiles
unfolding first_allowed candidates
first_allowed-least buckets exclude now d p h =
    let o = compare_profiles-IsOrder buckets in
    let fit = select_where (is_eligible buckets now) d.profiles in
    let free = λ (q : ServiceProfileRow). not (contains exclude q.id) in
    let least = find-order_by o free 50 fit p h in
    (
      find_All _ free (take 50 (order_by (compare_profiles buckets) fit)) p
          (take-All _ 50 _
            (order_by-All (compare_profiles buckets) _ fit (select_where-All _ d.profiles)))
          h,
      ground (arith, find_where_sound free (take 50 (order_by (compare_profiles buckets) fit)) p h),
      map_All d.profiles (λ q k. ground arith)
          (All-select_where _ (is_eligible buckets now) d.profiles least),
    )

record_failure_lem :
    (p : ServiceProfileRow) (w : World)
    → w.faults ≡ []
    → pos 1 ≤ℤ p.failure_count
    → (now : ℕ) × ((record_failure p w).1.db
        ≡ set_failure p.id (p.failure_count +ℤ pos 1) now (some (reading w + cooldown)) w.db)
unfolding record_failure disabled_after steps fault head_or
record_failure_lem p w quiet again = (reading (record w { clock = later_clock w }), grind int_laws)

-- After a failure of a profile that had failed before, when the database answers, the profile
-- serves no bucket until five minutes have passed since the failure.
pub record_failure-cooldown :
    (p : ServiceProfileRow) (w : World) (buckets : List Text) (t : ℕ)
    → w.faults ≡ []
    → pos 1 ≤ℤ p.failure_count
    → t < reading w + cooldown
    → All
        (λ q. (text_eq q.id p.id && is_eligible buckets t q) ≡ false)
        (record_failure p w).1.db.profiles
unfolding set_failure is_eligible
record_failure-cooldown p w buckets t quiet again early =
    let (now, wrote) = record_failure_lem p w quiet again in
    subst (λ d. All (λ q. (text_eq q.id p.id && is_eligible buckets t q) ≡ false) d.profiles)
      (sym wrote)
      (All-update_where _ (λ q. text_eq q.id p.id) _ w.db.profiles
        (All-of _ w.db.profiles (λ q e. ground arith))
        (All-of _ w.db.profiles (λ q e. ground arith)))

success_written :
    (id : Text) (w : World)
    → w.faults ≡ []
    → (record_success id w).1.db ≡ set_success id (reading w) w.db
unfolding record_success steps fault head_or
success_written id w quiet = ground arith

-- After a success, when the database answers, the profile has no failures and no cooldown.
record_success-resets :
    (id : Text) (w : World) (t : ℕ)
    → w.faults ≡ []
    → All
        (λ q.
          implies
            (text_eq q.id id)
            (eqb_ℤ q.failure_count (pos 0) && cooled_down q.disabled_until t)
          ≡ true)
        (record_success id w).1.db.profiles
unfolding record_success set_success steps fault head_or
record_success-resets id w t quiet =
    subst
      (λ d.
        All
          (λ q.
            implies (text_eq q.id id)
              (eqb_ℤ q.failure_count (pos 0) && cooled_down q.disabled_until t)
            ≡ true)
          d.profiles)
      (sym (success_written id w quiet))
      (All-update_where _ (λ q. text_eq q.id id) _ w.db.profiles
        (All-of _ w.db.profiles (λ q e. ground arith))
        (All-of _ w.db.profiles (λ q e. ground arith)))
