-- ===== src/Tasks/Show.antt =====
-- A task as its wallet sees it (tasks.go: handleGetTask, publicTask, jsonField). The escape of a
-- query value and the reading of JSON are parameters.
pub mod Served
use Prim.Native.Nat.{suc}
use lillian_backend.Common.{
  ℕ, ℤ, Text, codes, is_nil, or_text, decimal, Bool, Option, none, some, List, [], ◌∷◌, ◌++◌,
  if◌then◌else◌, Exec, pure, ◌>>=◌,
}
use lillian_backend.Schema.{TaskRow, TaskStatus, TaskOutput, BillingSource}
use lillian_backend.Sql.{World}
use lillian_backend.Wallets.{WalletSnapshot, is_wallet_address}
use lillian_backend.Wallets.Handlers.{WalletResponse, public_wallet}
use lillian_backend.Http.{Problem, Server}
use lillian_backend.Http.Urls.{Request, public_base_url, request_wallet_address}
use lillian_backend.Tasks.Image.{wallet_from_request, task_for_wallet, decode_outputs}

pub record PublicOutput : Type 0 where
  pub url : Text
  pub content_type : Text

-- The key "wallet" is there only where the snapshot has an address.
pub record PublicTask (json : Type 0) : Type 0 where
  pub id : Text
  pub status : TaskStatus
  pub wallet_id : Text
  pub wallet_address : Text
  pub service_code : Text
  pub billing_source : BillingSource
  pub billing_key : Text
  pub credit_units : ℤ
  pub credit_reserved : Bool
  pub credit_charged : Bool
  pub error_text : Option Text
  pub requested_size : Text
  pub service_profile : Text
  pub created_at : ℕ
  pub updated_at : ℕ
  pub finished_at : Option ℕ
  pub outputs : List PublicOutput
  pub actual_params : Option json
  pub revised_prompts : Option json
  pub wallet : Option WalletResponse

module _ (query_escape : Text → Text) {json : Type 0} (unmarshal : Text → Option json) where
  -- The address of the request, as the query of an output's URL.
  unfoldable pub address_query : Request → Text
  unfolding request_wallet_address
  address_query r =
      let address = request_wallet_address r in
      if is_wallet_address address then codes "?walletAddress=" ++ query_escape address else []

  unfoldable pub output_url : Text → Text → Text → ℕ → Text
  output_url base id query i =
      base ++ (codes "/api/tasks/" ++ (id ++ (codes "/images/" ++ (decimal i ++ query))))

  -- The loop over the outputs, from the index i on.
  unfoldable pub public_outputs : Text → Text → Text → ℕ → List TaskOutput → List PublicOutput
  unfolding output_url
  public_outputs base id query i [] = []
  public_outputs base id query i (o ∷ os) =
      record { url = output_url base id query i; content_type = o.content_type }
      ∷ public_outputs base id query (suc i) os

  unfoldable pub json_field : Option Text → Option json
  json_field none = none
  json_field (some s) = if is_nil s then none else unmarshal s

  unfoldable pub public_task : Server → Request → TaskRow → WalletSnapshot → PublicTask json
  unfolding public_base_url address_query public_outputs json_field public_wallet
  public_task server r task s = record {
    id = task.id;
    status = task.status;
    wallet_id = task.wallet_id;
    wallet_address = or_text s.wallet.address (request_wallet_address r);
    service_code = task.service_code;
    billing_source = task.billing_source;
    billing_key = task.billing_key;
    credit_units = task.credit_units;
    credit_reserved = task.credit_reserved;
    credit_charged = task.credit_charged;
    error_text = task.error_text;
    requested_size = task.requested_size;
    service_profile = task.service_profile;
    created_at = task.created_at;
    updated_at = task.updated_at;
    finished_at = task.finished_at;
    outputs =
        public_outputs (public_base_url server r) task.id (address_query r) 0
          (decode_outputs task.outputs);
    actual_params = json_field task.actual_params;
    revised_prompts = json_field task.revised_prompts;
    wallet = if is_wallet_address s.wallet.address then some (public_wallet s) else none;
  }

  -- The request, and the id of its path.
  unfoldable pub handle_get_task : Server → Request → Text → Exec Problem World (PublicTask json)
  unfolding wallet_from_request task_for_wallet public_task
  handle_get_task server r id = do
    wallet ← wallet_from_request server r.query_address r.header_address
    task ← task_for_wallet id wallet.wallet.id
    pure (public_task server r task wallet)
