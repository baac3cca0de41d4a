-- ===== src/Tasks/Worker.antt =====
-- The workers, their rounds, and the run of a task by its id (tasks.go: StartTaskWorkers,
-- taskWorkerConcurrency, taskWorkerLoop, processNextQueuedTask, processTask). The rounds of all
-- workers come in any order; each is a step of its own.
use lillian_backend.Common.{
  ℕ, zero, suc, ◌*◌, ◌^◌, ℤ, pos, leb_ℤ, List, [], ◌∷◌, if◌then◌else◌, Text, Bool, true, false,
  Exec, Result, ok, err, pure, raise, ◌>>=◌, ◌>>◌,
}
use lillian_backend.Schema.{TaskRow}
use lillian_backend.Sql.{World, SqlError, error_text, attempt}
use lillian_backend.Settings.{load_runtime_settings}
use lillian_backend.Tasks.Claim.{
  NoClaim, idle, claim_failed, claim_next_queued_task, claim_queued_task_by_id,
}
use lillian_backend.Tasks.Recover.{recover_stale_tasks}
use lillian_backend.Tasks.Execute.{Upstream, execute_task}

-- Whether a task was claimed; an error is logged and dropped.
unfoldable pub work_on : Upstream → Result NoClaim TaskRow → Exec Text World Bool
unfolding execute_task
work_on up (err e) = pure false
work_on up (ok task) = do attempt {E = Text} (execute_task up task); pure true

unfoldable pub process_next_queued_task : Upstream → Exec Text World Bool
unfolding work_on claim_next_queued_task
process_next_queued_task up = do
  settings ← load_runtime_settings
  claimed ← attempt (claim_next_queued_task settings)
  work_on up claimed

-- taskWorkerSlots
abbrev pub task_worker_slots : ℤ
task_worker_slots = pos 32

unfoldable pub task_worker_concurrency : ℤ → ℤ
task_worker_concurrency n = if leb_ℤ n (pos 0) then task_worker_slots else n

-- The delay of the timer, in nanoseconds, after a round that ran a task or did not.
unfoldable pub next_delay : ℤ → Bool → ℤ
next_delay interval processed =
    let delay = if processed then pos (100 * 10 ^ 6) else interval in
    if leb_ℤ delay (pos 0) then pos (2 * 10 ^ 9) else delay

-- The rounds of one worker before its context is done, with the delays that it waited.
unfoldable pub task_worker_loop : Upstream → ℤ → ℕ → Exec Text World (List ℤ)
unfolding process_next_queued_task next_delay
task_worker_loop up interval zero = pure []
task_worker_loop up interval (suc rounds) = do
  processed ← process_next_queued_task up
  delays ← task_worker_loop up interval rounds
  pure (next_delay interval processed ∷ delays)

-- The start of the workers: what a crash left is recovered first, and an error of that is dropped;
-- the result is the number of workers.
unfoldable pub start_task_workers : Bool → ℤ → Exec Text World ℤ
unfolding recover_stale_tasks task_worker_concurrency
start_task_workers has_database concurrency =
    if has_database
    then (do attempt {E = SqlError} recover_stale_tasks; pure (task_worker_concurrency concurrency))
    else pure (pos 0)

-- No claim is no error.
unfoldable pub run_claimed : Upstream → Result NoClaim TaskRow → Exec Text World Unit
unfolding execute_task
run_claimed up (err idle) = pure tt
run_claimed up (err (claim_failed e)) = raise (error_text e)
run_claimed up (ok task) = execute_task up task

unfoldable pub process_task : Upstream → Text → Exec Text World Unit
unfolding run_claimed claim_queued_task_by_id
process_task up id = do
  settings ← load_runtime_settings
  claimed ← attempt (claim_queued_task_by_id id settings)
  run_claimed up claimed
