-- ===== src/Profiles.antt =====
-- Choosing a service profile, and its counters and cooldown (tasks.go:
-- selectServiceProfileForWallet, recordServiceProfileSuccess, recordServiceProfileFailure).
pub mod Choice
pub mod Frame
use Prim.Native.Nat.{Ordering, compare}
use lillian_backend.Common.{
  ℕ, ◌+◌, ◌*◌, ◌^◌, ℤ, pos, ◌+ℤ◌, leb_ℤ, leb, Text, codes, text_eq, is_nil, not, ◌&&◌, ◌||◌, Bool,
  true, false, Option, none, some, List, [], ◌∷◌, take, if◌then◌else◌, select_where, update_where,
  find_where, Exec, Result, ok, err, pure, raise, or_raise, ◌>>=◌, ◌>>◌,
}
use lillian_backend.Common.Sorting.{compare_ℤ, compare_option, compare_text, ◌then_by◌, order_by}
use lillian_backend.Schema.{Db, ServiceProfileRow, ProfileStatus, active, disabled, deleted}
use lillian_backend.Sql.{
  World, SqlError, no_rows, failed, exec, query, query_row, attempt, time_now,
}
use lillian_backend.Billing.{candidate_buckets}

abbrev pub cooldown_failures : ℤ
cooldown_failures = pos 2

-- 5 * time.Minute
abbrev pub cooldown : ℕ
cooldown = 300 * 10 ^ 9

-- ANY($1)
unfoldable pub contains : List Text → Text → Bool
contains [] t = false
contains (x ∷ xs) t = text_eq x t || contains xs t

-- array_position($1, tier_bucket), from 0.
unfoldable pub array_position : List Text → Text → ℕ
array_position [] t = 0
array_position (x ∷ xs) t = if text_eq x t then 0 else array_position xs t + 1

abbrev pub is_active : ProfileStatus → Bool
is_active ProfileStatus.active = true
is_active _ = false

-- disabled_until IS NULL OR disabled_until <= $2
abbrev pub cooled_down : Option ℕ → ℕ → Bool
cooled_down none now = true
cooled_down (some until) now = leb until now

unfoldable pub is_eligible : List Text → ℕ → ServiceProfileRow → Bool
unfolding contains
is_eligible buckets now p =
    contains buckets p.tier_bucket
    && is_active p.status
    && not (is_nil p.api_key_ciphertext)
    && cooled_down p.disabled_until now

-- The keys of ORDER BY. The last one compares by code point, for the database's collation.
unfoldable pub compare_profiles : List Text → ServiceProfileRow → ServiceProfileRow → Ordering
unfolding array_position
compare_profiles buckets p q =
    compare (array_position buckets p.tier_bucket) (array_position buckets q.tier_bucket)
    then_by compare_ℤ p.priority q.priority
    then_by compare_option p.last_selected_at q.last_selected_at
    then_by compare_ℤ p.selection_count q.selection_count
    then_by compare_text p.id q.id

-- LIMIT 50
unfoldable pub candidates : List Text → ℕ → Db → List ServiceProfileRow
unfolding is_eligible compare_profiles
candidates buckets now db =
    take 50
      (order_by (compare_profiles buckets) (select_where (is_eligible buckets now) db.profiles))

-- The loop over the rows: the first that is not excluded.
unfoldable pub first_allowed : List Text → List ServiceProfileRow → Option ServiceProfileRow
unfolding contains
first_allowed exclude rows = find_where (λ p. not (contains exclude p.id)) rows

abbrev pub update_profiles :
    (ServiceProfileRow → Bool) → (ServiceProfileRow → ServiceProfileRow) → Db → Db
update_profiles p f db = record db { profiles = update_where p f db.profiles }

unfoldable pub count_selection : Text → ℕ → Db → Db
count_selection id now =
    update_profiles (λ p. text_eq p.id id)
      λ p. record p {
        selection_count = p.selection_count +ℤ pos 1;
        last_selected_at = some now;
        updated_at = now;
      }

pub data SelectError : Type 0 where
  hd_unavailable unavailable unsupported : SelectError
  select_failed : SqlError → SelectError

abbrev is_hd_only : List Text → Bool
is_hd_only (b ∷ []) = text_eq b (codes "hd")
is_hd_only _ = false

-- The profile is counted as selected; the error of the UPDATE is dropped.
unfoldable pub take_profile :
    List Text → Option ServiceProfileRow → Exec SelectError World ServiceProfileRow
unfolding count_selection
take_profile buckets none = raise (if is_hd_only buckets then hd_unavailable else unavailable)
take_profile buckets (some p) = do
  now ← time_now
  attempt (exec (λ e. e) (λ _. tt {0}) (count_selection p.id now))
  pure p

unfoldable pub select_from_buckets :
    List Text → List Text → Exec SelectError World ServiceProfileRow
unfolding take_profile
select_from_buckets buckets exclude = do
  now ← time_now
  rows ← query select_failed (candidates buckets now)
  take_profile buckets (first_allowed exclude rows)

unfoldable pub select_service_profile :
    Text → Text → List Text → Exec SelectError World ServiceProfileRow
unfolding select_from_buckets
select_service_profile service_code size_tier exclude = do
  buckets ← or_raise (candidate_buckets service_code size_tier) unsupported
  select_from_buckets buckets exclude

unfoldable pub set_success : Text → ℕ → Db → Db
set_success id now =
    update_profiles (λ p. text_eq p.id id)
      λ p. record p {
        success_count = p.success_count +ℤ pos 1;
        failure_count = pos 0;
        disabled_until = none;
        updated_at = now;
      }

unfoldable pub record_success : Text → Exec SqlError World Unit
unfolding set_success
record_success id = do now ← time_now; exec (λ e. e) (λ _. tt) (set_success id now)

unfoldable pub set_failure : Text → ℤ → ℕ → Option ℕ → Db → Db
set_failure id count now until =
    update_profiles (λ p. text_eq p.id id)
      λ p. record p {
        failure_count = count;
        last_failed_at = some now;
        disabled_until = until;
        updated_at = now;
      }

-- With the second failure in a row the profile is left out until the cooldown has passed.
unfoldable pub disabled_after : ℤ → Exec SqlError World (Option ℕ)
disabled_after count =
    if leb_ℤ cooldown_failures count
    then (do start ← time_now; pure (some (start + cooldown)))
    else pure none

-- The new count is computed from the profile that the caller holds.
unfoldable pub record_failure : ServiceProfileRow → Exec SqlError World Unit
unfolding disabled_after set_failure
record_failure profile = do
  until ← disabled_after (profile.failure_count +ℤ pos 1)
  now ← time_now
  exec (λ e. e) (λ _. tt {0}) (set_failure profile.id (profile.failure_count +ℤ pos 1) now until)

unfoldable pub service_profile_by_id : Text → Exec SqlError World ServiceProfileRow
service_profile_by_id id = query_row (λ e. e) (λ db. find_where (λ p. text_eq p.id id) db.profiles)
