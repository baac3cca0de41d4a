-- ===== src/Examples.antt =====
-- A small database, on which the theorems are applied to concrete inputs by the modules below.
mod Accounts
mod Histories
mod Topups
mod Providers
mod Choices
mod Payments
mod Admin
mod Images
mod Lists
mod Start
use lillian_backend.Common.{
  ℕ, ℤ, pos, Text, codes, text_eq, Bool, true, false, Option, none, some, List, [], ◌∷◌, Result, ok,
  err, parse_digits, ◌==◌,
}
use lillian_backend.Schema.{
  Db, TaskRow, TaskStatus, TaskPayload, Params, Json, payload, BillingSource, WalletRecord,
  EntitlementRow, LicenseRow, LicenseStatus, ServiceProfileRow, ProfileStatus, PaymentOrder,
  OrderStatus, ServiceCreditPrice,
}
use lillian_backend.Sql.{World}
use lillian_backend.Http.{Server, EpusdtConfig}
use lillian_backend.Tasks.Execute.{Upstream, ImageServiceResult}

abbrev pub wallet_address : Text
wallet_address = codes "0x00112233445566778899aabbccddeeff00112233"

abbrev pub sd : Text
sd = codes "image-2-sd"

abbrev pub a_wallet : WalletRecord
a_wallet = record {
  id = codes "w1";
  address = wallet_address;
  recovery_hash = codes "r1";
  credits = pos 10;
  created_at = 1;
  updated_at = 1;
}

abbrev pub an_entitlement : EntitlementRow
an_entitlement = record {
  id = codes "e1";
  wallet_id = codes "w1";
  service_code = sd;
  remaining = pos 3;
  max_concurrent = pos 2;
  created_at = 1;
  updated_at = 1;
}

abbrev pub a_license : LicenseRow
a_license = record {
  id = codes "l1";
  key_hash = codes "h1";
  key_ciphertext = none;
  service_code = sd;
  credits = pos 5;
  max_concurrent = pos 0;
  status = LicenseStatus.active;
  expires_at = none;
  redeemed_at = none;
  redeemed_wallet_id = none;
  note = [];
  created_at = 1;
  updated_at = 1;
}

abbrev pub a_profile : ServiceProfileRow
a_profile = record {
  id = codes "p1";
  label = codes "first";
  tier_bucket = codes "1k";
  api_base_url = codes "https://one.example";
  api_key_ciphertext = codes "c1";
  model = codes "gpt-image-2";
  api_mode = codes "images";
  codex_cli = false;
  priority = pos 10;
  max_concurrent = pos 1;
  status = ProfileStatus.active;
  selection_count = pos 0;
  success_count = pos 0;
  failure_count = pos 1;
  last_selected_at = none;
  last_failed_at = none;
  disabled_until = none;
  created_at = 1;
  updated_at = 1;
}

abbrev pub another_profile : ServiceProfileRow
another_profile = record a_profile { id = codes "p2"; label = codes "second"; priority = pos 5 }

abbrev pub a_payload : TaskPayload
a_payload = record {
  prompt = codes "a cat";
  wallet_address = wallet_address;
  params = (codes "size_tier", Json.str (codes "1K")) ∷ [];
  input_image_data_urls = [];
  mask_data_url = [];
}

abbrev pub a_task : TaskRow
a_task = record {
  id = codes "t1";
  wallet_id = codes "w1";
  service_code = sd;
  billing_source = BillingSource.credits;
  billing_key = codes "1K";
  credit_units = pos 2;
  credit_reserved = true;
  credit_charged = false;
  status = TaskStatus.queued;
  requested_size = codes "1024x1824";
  service_profile = codes "p1";
  request_json = payload a_payload;
  outputs = none;
  actual_params = none;
  revised_prompts = none;
  error_text = none;
  created_at = 7;
  updated_at = 7;
  finished_at = none;
}

abbrev pub running_task : TaskRow
running_task = record a_task { status = TaskStatus.running }

abbrev pub an_order : PaymentOrder
an_order = record {
  id = codes "o1";
  wallet_id = codes "w1";
  provider = codes "epusdt";
  provider_order_id = codes "o1";
  provider_trade_id = [];
  plan_id = codes "plan";
  amount_usdt = codes "5";
  credits = pos 50;
  status = OrderStatus.created;
  checkout_url = [];
  raw_callback = none;
  created_at = 1;
  updated_at = 1;
  paid_at = none;
}

abbrev pub a_price : ServiceCreditPrice
a_price = record {
  id = codes "c1";
  service_code = sd;
  billing_key = codes "1K";
  credit_units = pos 2;
  enabled = true;
  note = [];
  created_at = 1;
  updated_at = 1;
}

abbrev pub a_database : Db
a_database = record {
  wallets = a_wallet ∷ [];
  entitlements = an_entitlement ∷ [];
  licenses = a_license ∷ [];
  redemptions = [];
  tasks = a_task ∷ [];
  profiles = a_profile ∷ another_profile ∷ [];
  orders = an_order ∷ [];
  prices = a_price ∷ [];
  plans = [];
  settings = [];
}

abbrev pub world_of : Db → World
world_of d = record {
  db = d;
  faults = [];
  clock = 100 ∷ 101 ∷ 102 ∷ 103 ∷ 104 ∷ [];
  uuids = some (codes "u1") ∷ some (codes "u2") ∷ [];
}

abbrev pub a_world : World
a_world = world_of a_database

abbrev pub running_world : World
running_world = world_of (record a_database { tasks = running_task ∷ [] })

abbrev pub an_epusdt : EpusdtConfig
an_epusdt = record {
  base_url = codes "https://pay.example";
  pid = codes "7";
  secret_key = codes "secret";
  currency = codes "usd";
  token = codes "usdt";
  network = codes "tron";
}

abbrev pub a_server : Server
a_server = record {
  has_database = true;
  has_store = true;
  admin_token = codes "admin";
  public_api_base_url = [];
  cors_origin = codes "*";
  service_name = codes "lillian-backend";
  version = codes "dev";
  environment = codes "local";
  epusdt = an_epusdt;
}

-- A provider that always answers with one image, and a store that keeps it.
abbrev pub an_upstream : Upstream
an_upstream = record {
  call = λ p body. ok (record {
    images = record { bytes = 1 ∷ 2 ∷ []; content_type = codes "image/png" } ∷ [];
    actual_params = codes "{}";
    revised_prompts = codes "[]";
  });
  put_bytes = λ key image. none;
}
