-- ===== src/Routes.antt =====
-- The table of routes (server.go: Handler), and the calls of the handlers that only the
-- administrator may make. How chi matches a path against a pattern is not modelled.
pub mod Guarded
use lillian_backend.Common.{
  ℕ, Text, codes, String, has_prefix, not, ◌&&◌, ◌||◌, Bool, true, false, Option, List, [], ◌∷◌,
  Exec, Result, pure, ◌>>=◌, ◌>>◌,
}
use lillian_backend.Sql.{World}
use lillian_backend.Http.{Problem, Server}
use lillian_backend.Secrets.{Crypto, hash_secret}
use lillian_backend.Settings.{RuntimeSettings}
use lillian_backend.Payments.Catalog.{PriceRequest, handle_upsert_price}
use lillian_backend.Payments.Plans.{
  Amounts, PlanRequest, handle_upsert_topup_plan, handle_list_billing_settings,
}
use lillian_backend.Admin.Licenses.{
  LicenseRequest, handle_create_licenses, handle_update_license, handle_delete_licenses,
}
use lillian_backend.Admin.Licenses.Page.{LicenseQuery, handle_list_licenses}
use lillian_backend.Admin.Profiles.{ProfileRequest, handle_upsert_profile, handle_delete_profile}
use lillian_backend.Admin.Profiles.Shown.{handle_list_profiles}
use lillian_backend.Admin.Wallets.{handle_admin_get_wallet}
use lillian_backend.Admin.RuntimeSettings.{handle_get_settings, handle_update_settings}

pub data Method : Type 0 where
  get head post patch delete : Method

pub data AdminHandler : Type 0 where
  create_licenses list_licenses delete_licenses update_license get_wallet list_profiles
        upsert_profile delete_profile list_billing_settings upsert_credit_price upsert_topup_plan
        get_settings update_settings :
      AdminHandler

pub data Endpoint : Type 0 where
  health ready config_json admin_page admin_asset icon : Endpoint
  create_wallet restore_wallet redeem_wallet show_wallet : Endpoint
  list_topup_plans create_topup epusdt_callback : Endpoint
  create_task show_task show_task_image : Endpoint
  admin : AdminHandler → Endpoint

abbrev pub Route : Type 0
Route = Method × Text × Endpoint

abbrev on : Method → String → Endpoint → Route
on m pattern e = (m, codes pattern, e)

unfoldable pub routes : List Route
routes =
    on Method.get "/health" Endpoint.health
    ∷ on Method.get "/ready" Endpoint.ready
    ∷ on Method.get "/config.json" Endpoint.config_json
    ∷ on Method.get "/admin" Endpoint.admin_page
    ∷ on Method.head "/admin" Endpoint.admin_page
    ∷ on Method.get "/admin/" Endpoint.admin_page
    ∷ on Method.head "/admin/" Endpoint.admin_page
    ∷ on Method.get "/admin/index.html" Endpoint.admin_page
    ∷ on Method.head "/admin/index.html" Endpoint.admin_page
    ∷ on Method.get "/admin/assets/*" Endpoint.admin_asset
    ∷ on Method.head "/admin/assets/*" Endpoint.admin_asset
    ∷ on Method.get "/admin/lillian-icon.svg" Endpoint.icon
    ∷ on Method.head "/admin/lillian-icon.svg" Endpoint.icon
    ∷ on Method.get "/lillian-icon.svg" Endpoint.icon
    ∷ on Method.head "/lillian-icon.svg" Endpoint.icon
    ∷ on Method.post "/api/wallets/create" Endpoint.create_wallet
    ∷ on Method.post "/api/wallets/restore" Endpoint.restore_wallet
    ∷ on Method.post "/api/wallets/redeem" Endpoint.redeem_wallet
    ∷ on Method.get "/api/wallets/{address}" Endpoint.show_wallet
    ∷ on Method.get "/api/topup-plans" Endpoint.list_topup_plans
    ∷ on Method.post "/api/wallets/{address}/topups" Endpoint.create_topup
    ∷ on Method.post "/api/payments/epusdt/callback" Endpoint.epusdt_callback
    ∷ on Method.post "/api/tasks" Endpoint.create_task
    ∷ on Method.get "/api/tasks/{id}" Endpoint.show_task
    ∷ on Method.get "/api/tasks/{id}/images/{index}" Endpoint.show_task_image
    ∷ on Method.post "/admin/licenses" (Endpoint.admin AdminHandler.create_licenses)
    ∷ on Method.get "/admin/licenses" (Endpoint.admin AdminHandler.list_licenses)
    ∷ on Method.post "/admin/licenses/delete" (Endpoint.admin AdminHandler.delete_licenses)
    ∷ on Method.post "/admin/licenses/{id}" (Endpoint.admin AdminHandler.update_license)
    ∷ on Method.patch "/admin/licenses/{id}" (Endpoint.admin AdminHandler.update_license)
    ∷ on Method.delete "/admin/licenses/{id}" (Endpoint.admin AdminHandler.delete_licenses)
    ∷ on Method.get "/admin/wallets/{address}" (Endpoint.admin AdminHandler.get_wallet)
    ∷ on Method.get "/admin/service-profiles" (Endpoint.admin AdminHandler.list_profiles)
    ∷ on Method.post "/admin/service-profiles" (Endpoint.admin AdminHandler.upsert_profile)
    ∷ on Method.delete "/admin/service-profiles/{id}" (Endpoint.admin AdminHandler.delete_profile)
    ∷ on Method.get "/admin/billing-settings" (Endpoint.admin AdminHandler.list_billing_settings)
    ∷ on Method.post "/admin/credit-prices" (Endpoint.admin AdminHandler.upsert_credit_price)
    ∷ on Method.post "/admin/topup-plans" (Endpoint.admin AdminHandler.upsert_topup_plan)
    ∷ on Method.get "/admin/runtime-settings" (Endpoint.admin AdminHandler.get_settings)
    ∷ on Method.post "/admin/runtime-settings" (Endpoint.admin AdminHandler.update_settings)
    ∷ on Method.patch "/admin/runtime-settings" (Endpoint.admin AdminHandler.update_settings)
    ∷ []

-- A call of a handler of the administrator, with what the handler reads of the request.
pub data AdminCall : Type 0 where
  create_licenses : Option LicenseRequest → AdminCall
  list_licenses : LicenseQuery → AdminCall
  delete_licenses : Option (List Text) → AdminCall
  update_license : Text → Option Text → AdminCall
  get_wallet : Text → AdminCall
  list_profiles : AdminCall
  upsert_profile : Option ProfileRequest → AdminCall
  delete_profile : Text → AdminCall
  list_billing_settings : AdminCall
  upsert_credit_price : Option PriceRequest → AdminCall
  upsert_topup_plan : Option PlanRequest → AdminCall
  get_settings : AdminCall
  update_settings : Option RuntimeSettings → AdminCall

-- What the handlers are given by other packages.
pub record Services : Type 1 where
  pub crypto : Crypto
  pub pepper : Text
  pub provider_secret : Text
  pub amounts : Amounts
  pub parse_time : Text → Text → Option ℕ
  pub encrypt : Text → Option Text

-- The call with its answer dropped.
abbrev pub done_with : {A : Type 0} → Exec Problem World A → Exec Problem World Unit
done_with m = do m; pure tt

module _ (v : Services) where
  unfoldable pub serve_admin : Server → Text → AdminCall → Exec Problem World Unit
  unfolding handle_create_licenses handle_list_licenses handle_delete_licenses handle_update_license
      handle_admin_get_wallet handle_list_profiles handle_upsert_profile handle_delete_profile
      handle_list_billing_settings handle_upsert_price handle_upsert_topup_plan handle_get_settings
      handle_update_settings
  serve_admin server a (create_licenses body) =
      done_with (
        handle_create_licenses v.parse_time (hash_secret v.crypto v.pepper) v.encrypt server a body)
  serve_admin server a (list_licenses q) =
      done_with (handle_list_licenses v.crypto v.pepper v.provider_secret server a q)
  serve_admin server a (delete_licenses ids) = done_with (handle_delete_licenses server a ids)
  serve_admin server a (update_license id note) = done_with (handle_update_license server a id note)
  serve_admin server a (get_wallet address) = done_with (handle_admin_get_wallet server a address)
  serve_admin server a list_profiles = done_with (handle_list_profiles server a)
  serve_admin server a (upsert_profile body) =
      done_with (handle_upsert_profile v.encrypt server a body)
  serve_admin server a (delete_profile id) = done_with (handle_delete_profile server a id)
  serve_admin server a list_billing_settings = done_with (handle_list_billing_settings server a)
  serve_admin server a (upsert_credit_price body) = done_with (handle_upsert_price server a body)
  serve_admin server a (upsert_topup_plan body) =
      done_with (handle_upsert_topup_plan v.amounts server a body)
  serve_admin server a get_settings = done_with (handle_get_settings server a)
  serve_admin server a (update_settings body) = done_with (handle_update_settings server a body)
