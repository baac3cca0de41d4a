-- ===== src/Tasks/Execute.antt =====
-- executeTask (tasks.go): at most two providers are called, the outputs are stored, and the task
-- is done; or the task fails and its price is refunded. The call of the provider and the object
-- store are parameters.
pub mod Done
use lillian_backend.Common.{
  ℕ, zero, suc, Text, codes, decimal, join, is_nil, to_lower, contains, not, ◌||◌, true, Option,
  none, some, List, [], ◌∷◌, ◌++◌, if◌then◌else◌, Exec, Result, ok, err, pure, raise, ◌>>=◌, ◌>>◌,
}
use lillian_backend.Schema.{
  Db, TaskRow, TaskStatus, TaskPayload, TaskOutput, Document, payload, malformed, ServiceProfileRow,
}
use lillian_backend.Sql.{World, SqlError, error_text, exec, attempt, time_now}
use lillian_backend.Params.{string_param}
use lillian_backend.Profiles.{
  SelectError, select_service_profile, record_success, record_failure, service_profile_by_id,
}
use lillian_backend.Tasks.{update_tasks, has_task_id}
use lillian_backend.Tasks.Claim.{is_running}
use lillian_backend.Tasks.Refund.{statement, fail_task_and_refund}

pub record ImageResult : Type 0 where
  pub bytes : List ℕ
  pub content_type : Text

-- imageServiceResult, with the parameters and the prompts that the provider reports as JSON.
pub record ImageServiceResult : Type 0 where
  pub images : List ImageResult
  pub actual_params : Text
  pub revised_prompts : Text

-- callImageService with its HTTP client, and the object store: `none` is a stored object.
pub record Upstream : Type 0 where
  pub call : ServiceProfileRow → TaskPayload → Result Text ImageServiceResult
  pub put_bytes : Text → ImageResult → Option Text

unfoldable pub image_ext : Text → Text
image_ext content_type =
    let t = to_lower content_type in
    if contains t (codes "jpeg") || contains t (codes "jpg")
    then codes "jpg"
    else if contains t (codes "webp")
    then codes "webp"
    else codes "png"

unfoldable pub output_key : Text → ℕ → Text → Text
unfolding image_ext
output_key id i content_type =
    codes "tasks/"
    ++ (id ++ (codes "/outputs/" ++ (decimal i ++ (codes "." ++ image_ext content_type))))

-- The loop that stores the images from the i-th on.
unfoldable pub store_outputs :
    Upstream → Text → ℕ → List ImageResult → Result Text (List TaskOutput)
unfolding output_key
store_outputs up id i [] = ok []
store_outputs up id i (image ∷ images) =
    elim (up.put_bytes (output_key id i image.content_type) image) [
      | some e ↦ err e
      | none ↦ elim (store_outputs up id (suc i) images) [
        | err e ↦ err e
        | ok outputs ↦ ok (
            record { key = output_key id i image.content_type; content_type = image.content_type }
            ∷ outputs)
      ]
    ]

abbrev pub reassign : Text → ℕ → TaskRow → TaskRow
reassign profile_id now t = record t { service_profile = profile_id; updated_at = now }

unfoldable pub set_profile : Text → Text → ℕ → Db → Db
set_profile id profile_id now = update_tasks (has_task_id id) (reassign profile_id now)

-- What the attempts came to: the result, or the providers' errors and the last one; and the task as
-- the worker now holds it.
abbrev pub Attempts : Type 0
Attempts = Result (List Text × Text) ImageServiceResult × TaskRow

abbrev pub provider_error : ServiceProfileRow → Text → Text
provider_error p e = p.label ++ (codes ": " ++ e)

-- The success or the failure of a call is counted; an error of that is dropped.
unfoldable pub count_call :
    ServiceProfileRow → Result Text ImageServiceResult → Exec Text World Unit
count_call p (ok result) = do attempt (record_success p.id); pure tt
count_call p (err e) = do attempt (record_failure p); pure tt

-- The UPDATE of the task's profile, when another profile was selected.
unfoldable pub switch_profile :
    TaskRow → Result SelectError ServiceProfileRow → Exec Text World (Option ServiceProfileRow)
unfolding set_profile
switch_profile task (err e) = pure none
switch_profile task (ok next) = do
  now ← time_now
  statement (set_profile task.id next.id now)
  pure (some next)

-- How the body of the loop goes on: past a result, and past a missing profile.
unfoldable pub unless_done :
    Result Text ImageServiceResult
    → TaskRow
    → (Text → Exec Text World Attempts)
    → Exec Text World Attempts
unless_done (ok result) task next = pure (ok result, task)
unless_done (err e) task next = next e

unfoldable pub unless_stopped :
    Option ServiceProfileRow
    → Attempts
    → (ServiceProfileRow → Exec Text World Attempts)
    → Exec Text World Attempts
unless_stopped none stopped next = pure stopped
unless_stopped (some p) stopped next = next p

-- The loop over the attempts, with the number of fallback retries left.
unfoldable pub try_profiles :
    ℕ
    → Upstream
    → TaskPayload
    → ServiceProfileRow
    → TaskRow
    → List Text
    → List Text
    → Exec Text World Attempts
unfolding count_call switch_profile unless_done unless_stopped
try_profiles zero up body profile task tried errors = do
  count_call profile (up.call profile body)
  unless_done (up.call profile body) task
      λ e. pure (err (errors ++ provider_error profile e ∷ [], e), task)
try_profiles (suc retries) up body profile task tried errors = do
  count_call profile (up.call profile body)
  unless_done (up.call profile body) task λ e. do
    selected ← attempt (
        select_service_profile task.service_code (string_param body.params (codes "size_tier"))
          (tried ++ profile.id ∷ []))
    found ← switch_profile task selected
    unless_stopped found (err (errors ++ provider_error profile e ∷ [], e), task)
        λ next.
          try_profiles retries up body next (record task { service_profile = next.id })
            (tried ++ profile.id ∷ []) (errors ++ provider_error profile e ∷ [])

abbrev pub service_profile_fallback_retries : ℕ
service_profile_fallback_retries = 1

abbrev pub finish : List TaskOutput → ImageServiceResult → ℕ → TaskRow → TaskRow
finish outputs result now t = record t {
  status = TaskStatus.done;
  credit_charged = true;
  outputs = some outputs;
  actual_params = some (result.actual_params);
  revised_prompts = some (result.revised_prompts);
  updated_at = now;
  finished_at = some now;
}

-- UPDATE tasks SET status = 'done', credit_charged = true … WHERE id = $6
unfoldable pub set_done : Text → List TaskOutput → ImageServiceResult → ℕ → Db → Db
set_done id outputs result now = update_tasks (has_task_id id) (finish outputs result now)

-- What follows the storing of the outputs.
unfoldable pub complete :
    TaskRow → ImageServiceResult → Result Text (List TaskOutput) → Exec Text World Unit
unfolding set_done
complete task result (err e) = do fail_task_and_refund task e; raise e
complete task result (ok outputs) = do
  now ← time_now
  exec error_text (λ _. tt) (set_done task.id outputs result now)

abbrev pub failure_message : List Text × Text → Text
failure_message (errors, last) =
    let message = join (codes "；") errors in if is_nil message then last else message

-- What follows the loop over the attempts.
unfoldable pub conclude : Upstream → Attempts → Exec Text World Unit
unfolding complete store_outputs
conclude up (err e, task) = do fail_task_and_refund task (failure_message e); raise e.1
conclude up (ok result, task) = complete task result (store_outputs up task.id 0 result.images)

-- What follows the look-up of the task's profile.
unfoldable pub run_with :
    Upstream → TaskRow → TaskPayload → Result SqlError ServiceProfileRow → Exec Text World Unit
unfolding try_profiles conclude
run_with up task body (err e) = do fail_task_and_refund task (error_text e); raise (error_text e)
run_with up task body (ok profile) = do
  tried ← try_profiles service_profile_fallback_retries up body profile task [] []
  conclude up tried

unfoldable pub run_document : Upstream → TaskRow → Document → Exec Text World Unit
unfolding run_with
run_document up task malformed = do
  fail_task_and_refund task (codes "Task request payload is invalid")
  raise (codes "invalid JSON")
run_document up task (payload body) = do
  found ← attempt (service_profile_by_id task.service_profile)
  run_with up task body found

unfoldable pub execute_task : Upstream → TaskRow → Exec Text World Unit
unfolding run_document
execute_task up task =
    if not (is_running task) then pure tt else run_document up task task.request_json
