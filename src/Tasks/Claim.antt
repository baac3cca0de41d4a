-- ===== src/Tasks/Claim.antt =====
-- The workers' claim of a queued task (tasks.go: claimNextQueuedTask, claimQueuedTaskByID,
-- globalTaskSlotAvailable, markTaskRunning). Both claims run under one advisory lock.
pub mod Limits
use Prim.Native.Nat.{Ordering, compare}
use lillian_backend.Common.{
  ℕ, ℤ, pos, ltb_ℤ, ◌==◌, Text, text_eq, ◌&&◌, not, Bool, true, false, Option, none, some, List, [],
  ◌∷◌, if◌then◌else◌, select_where, find_where, count_where, Exec, Result, ok, err, pure, raise,
  guard, or_raise, ◌>>=◌, ◌>>◌,
}
use lillian_backend.Common.Sorting.{order_by}
use lillian_backend.Common.Sorting.First.{first}
use lillian_backend.Schema.{Db, TaskRow, ServiceProfileRow, is_status, queued, running}
use lillian_backend.Sql.{World, SqlError, no_rows, failed, exec, query, transaction, time_now}
use lillian_backend.Settings.{RuntimeSettings}
use lillian_backend.Tasks.{update_tasks, has_task_id}

-- Why no task is claimed: there is none, or no slot is free; or an error.
pub data NoClaim : Type 0 where
  idle : NoClaim
  claim_failed : SqlError → NoClaim

abbrev pub is_running : TaskRow → Bool
is_running t = is_status t.status running

abbrev pub running_on : Text → TaskRow → Bool
running_on profile_id t = is_running t && text_eq t.service_profile profile_id

-- CASE WHEN sp.max_concurrent > 0 THEN sp.max_concurrent ELSE $1 END
abbrev pub profile_limit : RuntimeSettings → ServiceProfileRow → ℤ
profile_limit settings p =
    if ltb_ℤ (pos 0) p.max_concurrent
    then p.max_concurrent
    else settings.image_provider_default_concurrency

-- The JOIN with the task's profile, and the test of its running tasks.
unfoldable pub has_free_slot : RuntimeSettings → Db → TaskRow → Bool
has_free_slot settings db t = elim (find_where (λ p. text_eq p.id t.service_profile) db.profiles) [
  | none ↦ false
  | some p ↦
      ltb_ℤ (pos (count_where (running_on t.service_profile) db.tasks)) (profile_limit settings p)
]

unfoldable pub is_claimable : RuntimeSettings → Db → TaskRow → Bool
unfolding has_free_slot
is_claimable settings db t = is_status t.status queued && has_free_slot settings db t

abbrev pub by_creation : TaskRow → TaskRow → Ordering
by_creation a b = compare a.created_at b.created_at

-- ORDER BY t.created_at ASC LIMIT 1
unfoldable pub next_claimable : RuntimeSettings → Db → Option TaskRow
unfolding is_claimable
next_claimable settings db =
    first (order_by by_creation (select_where (is_claimable settings db) db.tasks))

unfoldable pub claimable_by_id : Text → RuntimeSettings → Db → Option TaskRow
unfolding is_claimable
claimable_by_id id settings db =
    find_where (λ t. has_task_id id t && is_claimable settings db t) db.tasks

unfoldable pub global_slot_available : RuntimeSettings → Exec NoClaim World Bool
global_slot_available settings = do
  count ← query claim_failed (λ db. count_where is_running db.tasks)
  pure (ltb_ℤ (pos count) settings.image_global_concurrency)

-- WHERE id = $2 AND status = 'queued'
abbrev pub is_queued_task : Text → TaskRow → Bool
is_queued_task id t = has_task_id id t && is_status t.status queued

abbrev pub run : ℕ → TaskRow → TaskRow
run now t = record t { status = running; updated_at = now }

unfoldable pub set_running : Text → ℕ → Db → Db
set_running id now = update_tasks (is_queued_task id) (run now)

unfoldable pub mark_task_running : TaskRow → Exec NoClaim World TaskRow
unfolding set_running
mark_task_running task = do
  now ← time_now
  affected ←
      exec claim_failed (λ db. count_where (is_queued_task task.id) db.tasks)
        (set_running task.id now)
  guard (affected == 1) (claim_failed no_rows)
  pure (run now task)

-- The statements of a claim, over the query that picks the task.
unfoldable pub claim_body : (Db → Option TaskRow) → RuntimeSettings → Exec NoClaim World TaskRow
unfolding global_slot_available mark_task_running
claim_body pick settings = do
  query claim_failed (λ _. tt {0})
  available ← global_slot_available settings
  guard available idle
  found ← query claim_failed pick
  task ← or_raise found idle
  mark_task_running task

unfoldable pub claim : (Db → Option TaskRow) → RuntimeSettings → Exec NoClaim World TaskRow
unfolding claim_body
claim pick settings = transaction claim_failed (claim_body pick settings)

unfoldable pub claim_next_queued_task : RuntimeSettings → Exec NoClaim World TaskRow
unfolding claim next_claimable
claim_next_queued_task settings = claim (next_claimable settings) settings

unfoldable pub claim_queued_task_by_id : Text → RuntimeSettings → Exec NoClaim World TaskRow
unfolding claim claimable_by_id
claim_queued_task_by_id id settings = claim (claimable_by_id id settings) settings
