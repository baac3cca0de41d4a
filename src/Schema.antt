-- ===== src/Schema.antt =====
-- The rows that the program reads and writes (the structs of internal/httpapi, whose columns the
-- migrations declare), and the database as a record of tables. Times are nanoseconds.
use lillian_backend.Common.{ℕ, ℤ, Text, Bool, Option, List}

-- internal/task/model.go
pub data TaskStatus : Type 0 where
  queued running done error : TaskStatus

abbrev pub is_status : TaskStatus → TaskStatus → Bool
is_status queued queued = Bool.true
is_status running running = Bool.true
is_status done done = Bool.true
is_status error error = Bool.true
is_status _ _ = Bool.false

pub data BillingSource : Type 0 where
  entitlement credits : BillingSource

-- A value of `map[string]any` that came from JSON. A number is kept as what the program makes of
-- the float64: its text under FormatFloat 'f', under Sprint, and the int that it truncates to. An
-- array or an object is kept as its text under Sprint.
pub data Json : Type 0 where
  null : Json
  bool : Bool → Json
  num : Text → Text → ℤ → Json
  str : Text → Json
  other : Text → Json

-- A Go map; a key that stands twice counts where it stands first.
abbrev pub Params : Type 0
Params = List (Text × Json)

pub record TaskPayload : Type 0 where
  pub prompt : Text
  pub wallet_address : Text
  pub params : Params
  pub input_image_data_urls : List Text
  pub mask_data_url : Text

-- A JSON column: what json.Marshal wrote of a payload, or something that does not unmarshal.
pub data Document : Type 0 where
  payload : TaskPayload → Document
  malformed : Document

pub record TaskOutput : Type 0 where
  pub key : Text
  pub content_type : Text

pub record TaskRow : Type 0 where
  pub id : Text
  pub wallet_id : Text
  pub service_code : Text
  pub billing_source : BillingSource
  pub billing_key : Text
  pub credit_units : ℤ
  pub credit_reserved : Bool
  pub credit_charged : Bool
  pub status : TaskStatus
  pub requested_size : Text
  pub service_profile : Text
  pub request_json : Document
  pub outputs : Option (List TaskOutput)
  -- As json.Marshal wrote them.
  pub actual_params : Option Text
  pub revised_prompts : Option Text
  pub error_text : Option Text
  pub created_at : ℕ
  pub updated_at : ℕ
  pub finished_at : Option ℕ

pub record WalletRecord : Type 0 where
  pub id : Text
  pub address : Text
  pub recovery_hash : Text
  pub credits : ℤ
  pub created_at : ℕ
  pub updated_at : ℕ

pub record EntitlementRow : Type 0 where
  pub id : Text
  pub wallet_id : Text
  pub service_code : Text
  pub remaining : ℤ
  pub max_concurrent : ℤ
  pub created_at : ℕ
  pub updated_at : ℕ

pub data LicenseStatus : Type 0 where
  active deleted : LicenseStatus

pub record LicenseRow : Type 0 where
  pub id : Text
  pub key_hash : Text
  pub key_ciphertext : Option Text
  pub service_code : Text
  pub credits : ℤ
  pub max_concurrent : ℤ
  pub status : LicenseStatus
  pub expires_at : Option ℕ
  pub redeemed_at : Option ℕ
  pub redeemed_wallet_id : Option Text
  pub note : Text
  pub created_at : ℕ
  pub updated_at : ℕ

pub record RedemptionRow : Type 0 where
  pub id : Text
  pub wallet_id : Text
  pub license_key_id : Text
  pub service_code : Text
  pub credits_added : ℤ
  pub created_at : ℕ

pub data ProfileStatus : Type 0 where
  active disabled deleted : ProfileStatus

pub record ServiceProfileRow : Type 0 where
  pub id : Text
  pub label : Text
  pub tier_bucket : Text
  pub api_base_url : Text
  pub api_key_ciphertext : Text
  pub model : Text
  pub api_mode : Text
  pub codex_cli : Bool
  pub priority : ℤ
  pub max_concurrent : ℤ
  pub status : ProfileStatus
  pub selection_count : ℤ
  pub success_count : ℤ
  pub failure_count : ℤ
  pub last_selected_at : Option ℕ
  pub last_failed_at : Option ℕ
  pub disabled_until : Option ℕ
  pub created_at : ℕ
  pub updated_at : ℕ

-- `callback n` is "callback_" followed by n.
pub data OrderStatus : Type 0 where
  created pending paid expired : OrderStatus
  callback : ℤ → OrderStatus

pub record PaymentOrder : Type 0 where
  pub id : Text
  pub wallet_id : Text
  pub provider : Text
  pub provider_order_id : Text
  pub provider_trade_id : Text
  pub plan_id : Text
  pub amount_usdt : Text
  pub credits : ℤ
  pub status : OrderStatus
  pub checkout_url : Text
  pub raw_callback : Option Params
  pub created_at : ℕ
  pub updated_at : ℕ
  pub paid_at : Option ℕ

pub record ServiceCreditPrice : Type 0 where
  pub id : Text
  pub service_code : Text
  pub billing_key : Text
  pub credit_units : ℤ
  pub enabled : Bool
  pub note : Text
  pub created_at : ℕ
  pub updated_at : ℕ

-- The amount as the text of a NUMERIC(12, 2).
pub record CreditTopupPlan : Type 0 where
  pub id : Text
  pub label : Text
  pub amount_usdt : Text
  pub credits : ℤ
  pub is_default : Bool
  pub enabled : Bool
  pub sort_order : ℤ
  pub note : Text
  pub created_at : ℕ
  pub updated_at : ℕ

pub record AppSetting : Type 0 where
  pub key : Text
  pub value : Text
  pub description : Text
  pub updated_at : ℕ

pub record Db : Type 0 where
  pub wallets : List WalletRecord
  pub entitlements : List EntitlementRow
  pub licenses : List LicenseRow
  pub redemptions : List RedemptionRow
  pub tasks : List TaskRow
  pub profiles : List ServiceProfileRow
  pub orders : List PaymentOrder
  pub prices : List ServiceCreditPrice
  pub plans : List CreditTopupPlan
  pub settings : List AppSetting
