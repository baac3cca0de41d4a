-- ===== src/Tasks/Create.antt =====
-- handleCreateTask (tasks.go): the request is checked and billed, and a transaction reserves the
-- price and queues the task.
pub mod Limits
use lillian_backend.Common.{
  ℕ, ℤ, pos, ◌-ℤ◌, ltb_ℤ, leb_ℤ, ◌==◌, Text, codes, text_eq, trim_space, to_lower, is_nil, not,
  ◌&&◌, ◌||◌, Bool, true, false, Option, none, some, List, [], ◌∷◌, ◌++◌, if◌then◌else◌,
  count_where, find_where, update_where, Exec, Result, ok, err, pure, raise, guard, ◌>>=◌, ◌>>◌,
  is_some,
}
use lillian_backend.Schema.{
  Db, TaskPayload, Params, Json, null, str, Document, payload, TaskRow, queued, WalletRecord,
  EntitlementRow, BillingSource, ServiceProfileRow,
}
use lillian_backend.Sql.{
  World, SqlError, no_rows, failed, error_text, exec, insert, query, query_row, transaction,
  map_error, time_now, random_id,
}
use lillian_backend.Numbers.{max_int}
use lillian_backend.Params.{string_param, set_param}
use lillian_backend.Wallets.{
  WalletSnapshot, WalletEntitlement, wallet_by_address, is_wallet_address,
}
use lillian_backend.Http.{
  Problem, problem, internal, Server, require_database, read_json, wallet_problem,
}
use lillian_backend.Billing.{
  BillingSelection, billing_source_name, normalize_task_size, select_wallet_billing,
  default_max_concurrent, replace_entitlement_remaining,
}
use lillian_backend.Profiles.{
  SelectError, hd_unavailable, unavailable, unsupported, select_failed, select_service_profile,
}
use lillian_backend.Tasks.{
  update_tasks, update_wallets, update_entitlements, has_task_id, has_wallet_id, is_entitlement_of,
  is_active_of,
}

abbrev out_of_balance : Problem
out_of_balance = problem 403 (codes "钱包权益次数不足")

-- The status is 403 where the message says that the tier is not supported.
abbrev pub select_problem : SelectError → Problem
select_problem hd_unavailable = problem 503 (codes "高清生成服务暂时不可用")
select_problem unavailable = problem 503 (codes "普通生成服务暂时不可用")
select_problem unsupported = problem 403 (codes "当前钱包权益不支持 2K/4K 高清图片")
select_problem (select_failed e) = problem 503 (error_text e)

unfoldable pub task_wallet_address : TaskPayload → Text
task_wallet_address body =
    let address = to_lower (trim_space body.wallet_address) in
    if is_nil address
    then to_lower (trim_space (string_param body.params (codes "walletAddress")))
    else address

-- The parameters as they are stored with the task.
unfoldable pub task_params : Params → Text → Text → Params
task_params params size tier =
    let sized = set_param params (codes "size") (str size) in
    let format = set_param sized (codes "output_format") (str (codes "png")) in
    let compression = set_param format (codes "output_compression") null in
    if is_nil tier then compression else set_param compression (codes "size_tier") (str tier)

-- The first branch: what is left, and how many tasks may be active at once.
unfoldable pub lock_credits : BillingSelection → Text → Exec Problem World (ℤ × ℤ)
lock_credits billing wallet_id = do
  wallet ← query_row internal (λ db. find_where (has_wallet_id wallet_id) db.wallets)
  guard (not (ltb_ℤ wallet.credits billing.credit_units)) (problem 403 (codes "钱包 credits 不足"))
  pure (wallet.credits, default_max_concurrent)

abbrev no_entitlement : SqlError → Problem
no_entitlement no_rows = out_of_balance
no_entitlement (failed m) = internal (failed m)

unfoldable pub lock_entitlement : BillingSelection → Text → Exec Problem World (ℤ × ℤ)
lock_entitlement billing wallet_id = do
  e ←
      query_row no_entitlement
        (λ db. find_where (is_entitlement_of wallet_id billing.service_code) db.entitlements)
  guard (ltb_ℤ (pos 0) e.remaining) out_of_balance
  pure (
    e.remaining,
    if leb_ℤ e.max_concurrent (pos 0) then default_max_concurrent else e.max_concurrent,
  )

-- UPDATE wallets SET credits = credits - $1 … WHERE id = $3 AND credits >= $1
abbrev pub can_pay : Text → ℤ → WalletRecord → Bool
can_pay wallet_id units w = has_wallet_id wallet_id w && leb_ℤ units w.credits

abbrev pub pay : ℤ → ℕ → WalletRecord → WalletRecord
pay units now w = record w { credits = w.credits -ℤ units; updated_at = now }

unfoldable pub take_credits : Text → ℤ → ℕ → Db → Db
take_credits wallet_id units now = update_wallets (can_pay wallet_id units) (pay units now)

-- UPDATE wallet_entitlements SET remaining = remaining - 1 …
abbrev pub use_one : ℕ → EntitlementRow → EntitlementRow
use_one now e = record e { remaining = e.remaining -ℤ pos 1; updated_at = now }

unfoldable pub take_entitlement : Text → Text → ℕ → Db → Db
take_entitlement wallet_id code now =
    update_entitlements (is_entitlement_of wallet_id code) (use_one now)

-- The number of rows that the UPDATE affects.
unfoldable pub charge : BillingSelection → Text → ℕ → Exec Problem World ℕ
unfolding take_credits take_entitlement
charge billing wallet_id now =
    if billing.uses_credits
    then exec internal (λ db. count_where (can_pay wallet_id billing.credit_units) db.wallets)
        (take_credits wallet_id billing.credit_units now)
    else exec internal
        (λ db. count_where (is_entitlement_of wallet_id billing.service_code) db.entitlements)
        (take_entitlement wallet_id billing.service_code now)

unfoldable pub queued_task : Text → Text → BillingSelection → Text → Text → Document → ℕ → TaskRow
unfolding billing_source_name
queued_task id wallet_id billing size profile_id request now = record {
  id = id;
  wallet_id = wallet_id;
  service_code = billing.service_code;
  billing_source = billing_source_name billing;
  billing_key = billing.billing_key;
  credit_units = billing.credit_units;
  credit_reserved = true;
  credit_charged = false;
  status = queued;
  requested_size = size;
  service_profile = profile_id;
  request_json = request;
  outputs = none;
  actual_params = none;
  revised_prompts = none;
  error_text = none;
  created_at = now;
  updated_at = now;
  finished_at = none;
}

unfoldable pub add_task : TaskRow → Db → Db
add_task t db = record db { tasks = db.tasks ++ t ∷ [] }

-- A second row with the primary key, or a profile that is not there.
unfoldable pub task_conflicts : TaskRow → Db → Bool
task_conflicts t db =
    is_some (find_where (has_task_id t.id) db.tasks)
    || not (is_some (find_where (λ p. text_eq p.id t.service_profile) db.profiles))

unfoldable pub insert_task : TaskRow → Exec Problem World Unit
unfolding add_task task_conflicts
insert_task t = insert internal (task_conflicts t) (add_task t)

-- The statements between Begin and Commit; the result is `lockedRemaining`.
unfoldable pub reserve : BillingSelection → Text → TaskRow → ℕ → Exec Problem World ℤ
unfolding lock_credits lock_entitlement charge insert_task
reserve billing wallet_id task now = do
  locked ←
      (if billing.uses_credits
        then lock_credits billing wallet_id
        else lock_entitlement billing wallet_id)
  active ← query internal (λ db. count_where (is_active_of wallet_id billing.service_code) db.tasks)
  guard (ltb_ℤ (pos active) locked.1) (problem 429 (codes "并发任务已达上限"))
  affected ← charge billing wallet_id now
  guard (affected == 1) out_of_balance
  insert_task task
  pure locked.0

pub record Accepted : Type 0 where
  pub id : Text
  pub wallet : WalletSnapshot
  pub service_code : Text
  pub billing_source : BillingSource
  pub billing_key : Text
  pub credit_units : ℤ
  pub remaining_credits : ℤ

unfoldable pub accepted : Text → WalletSnapshot → BillingSelection → ℤ → Accepted
unfolding replace_entitlement_remaining billing_source_name max_int
accepted id wallet billing locked = record {
  id = id;
  wallet =
      if billing.uses_credits
      then record wallet {
        wallet = record (wallet.wallet) {
          credits = max_int (pos 0) (locked -ℤ billing.credit_units);
        };
      }
      else record wallet {
        entitlements =
            replace_entitlement_remaining wallet.entitlements billing.service_code
              (locked -ℤ pos 1);
      };
  service_code = billing.service_code;
  billing_source = billing_source_name billing;
  billing_key = billing.billing_key;
  credit_units = billing.credit_units;
  remaining_credits = max_int (pos 0) (locked -ℤ billing.credit_units);
}

-- `none` is a body that is not JSON.
unfoldable pub create_task : Server → Option TaskPayload → Exec Problem World Accepted
unfolding reserve accepted queued_task task_params task_wallet_address
create_task server request = do
  require_database server
  guard server.has_store (problem 503 (codes "object store is not configured"))
  body ← read_json request
  let prompt = trim_space body.prompt
  guard (not (is_nil prompt)) (problem 400 (codes "请输入提示词"))
  let address = task_wallet_address body
  guard (is_wallet_address address) (problem 400 (codes "钱包地址格式无效"))
  let sized = normalize_task_size body.params
  let params = task_params body.params sized.0 sized.1
  wallet ← map_error wallet_problem (wallet_by_address address)
  billing ← map_error (problem 403) (select_wallet_billing wallet sized.1)
  profile ← map_error select_problem (select_service_profile billing.service_code sized.1 [])
  id ← random_id (problem 500 (codes "random source failed"))
  now ← time_now
  let request_json =
      payload (record body { prompt = prompt; wallet_address = address; params = params })
  let task = queued_task id wallet.wallet.id billing sized.0 profile.id request_json now
  locked ← transaction internal (reserve billing wallet.wallet.id task now)
  pure (accepted id wallet billing locked)
