-- ===== src/Tasks/Image.antt =====
-- The image of a task (tasks.go: handleGetTaskImage, walletFromRequest, taskForWallet,
-- taskByIDForWallet, decodeOutputs). The object store is a parameter.
pub mod Own
use lillian_backend.Common.{
  ℕ, ℤ, pos, negsuc, Text, codes, text_eq, trim_space, to_lower, is_nil, or_text, atoi, ◌&&◌, Bool,
  Option, none, some, List, [], ◌∷◌, if◌then◌else◌, find_where, get_elem?, Exec, pure, guard,
  or_raise, ◌>>=◌, ◌>>◌,
}
use lillian_backend.Schema.{Db, TaskRow, TaskOutput, is_status, done}
use lillian_backend.Sql.{World, SqlError, no_rows, failed, query_row, map_error}
use lillian_backend.Http.{Problem, problem, internal, Server, require_wallet_store, wallet_problem}
use lillian_backend.Wallets.{WalletSnapshot, wallet_by_address, is_wallet_address}

-- The query's address, or else the header's.
abbrev pub request_address : Text → Text → Text
request_address query header =
    let address = to_lower (trim_space query) in
    if is_nil address then to_lower (trim_space header) else address

unfoldable pub wallet_from_request : Server → Text → Text → Exec Problem World WalletSnapshot
wallet_from_request server query header = do
  require_wallet_store server
  guard (is_wallet_address (request_address query header)) (problem 400 (codes "钱包地址格式无效"))
  map_error wallet_problem (wallet_by_address (request_address query header))

abbrev task_problem : SqlError → Problem
task_problem no_rows = problem 404 (codes "任务不存在")
task_problem (failed m) = internal (failed m)

-- id = $1 AND wallet_id = $2
abbrev pub is_task_of : Text → Text → TaskRow → Bool
is_task_of id wallet_id t = text_eq t.id id && text_eq t.wallet_id wallet_id

unfoldable pub task_for_wallet : Text → Text → Exec Problem World TaskRow
task_for_wallet id wallet_id =
    query_row task_problem (λ db. find_where (is_task_of id wallet_id) db.tasks)

abbrev pub decode_outputs : Option (List TaskOutput) → List TaskOutput
decode_outputs none = []
decode_outputs (some outputs) = outputs

-- The output at the index that the URL names; none where it is no number or out of range.
unfoldable pub output_at : List TaskOutput → Option ℤ → Option TaskOutput
output_at outputs none = none
output_at outputs (some (pos n)) = get_elem? outputs n
output_at outputs (some (negsuc n)) = none

abbrev no_image : Problem
no_image = problem 404 (codes "图片不存在")

-- The store's Get: the bytes and the content type, or an error.
module _ {body : Type 0} (get : Text → Option (body × Text)) where
  unfoldable pub stored_image : TaskOutput → Option (body × Text)
  stored_image o = elim (get o.key) [
    | none ↦ none
    | some (bytes, kind) ↦ some (bytes, or_text (or_text o.content_type kind) (codes "image/png"))
  ]

  unfoldable pub show_image : Text → TaskRow → Exec Problem World (body × Text)
  unfolding output_at stored_image
  show_image index task = do
    guard (is_status done task.status) no_image
    output ← or_raise (output_at (decode_outputs task.outputs) (atoi index)) no_image
    or_raise (stored_image output) no_image

  -- The body and the header Content-Type of the answer.
  unfoldable pub handle_get_task_image :
      Server → Text → Text → Text → Text → Exec Problem World (body × Text)
  unfolding wallet_from_request task_for_wallet show_image
  handle_get_task_image server query header id index = do
    wallet ← wallet_from_request server query header
    guard server.has_store (problem 503 (codes "object store is not configured"))
    task ← task_for_wallet id wallet.wallet.id
    show_image index task
