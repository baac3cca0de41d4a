-- ===== src/Routes/Guarded.antt =====
-- Who is no administrator is refused.
use lillian_backend.Common.{
  ◌≡◌, refl, ap, Text, codes, text_eq, trim_space, is_nil, not, ◌&&◌, Bool, true, false,
  if◌then◌else◌, err, Exec, pure, raise, guard, ◌>>=◌, count_where, has_prefix, arith, continue,
}
use lillian_backend.Sql.{World}
use lillian_backend.Http.{Problem, problem, Server, bearer_token, require_admin}
use lillian_backend.Routes.{AdminCall, Services, done_with, serve_admin, Route, Endpoint, routes}

-- The request carries the administrator's token.
abbrev pub is_admin : Server → Text → Bool
is_admin server authorization =
    not (is_nil (trim_space server.admin_token))
    && text_eq (bearer_token authorization) (trim_space server.admin_token)

abbrev pub refusal : Server → Problem
refusal server =
    if is_nil (trim_space server.admin_token)
    then problem 500 (codes "Admin token is not configured")
    else problem 401 (codes "管理员认证失败")

require_admin_lem :
    (server : Server) (authorization : Text) (w : World)
    → is_admin server authorization ≡ false
    → require_admin server authorization w ≡ (err (refusal server), w)
unfolding require_admin raise guard
require_admin_lem server authorization w h = ground arith

refused :
    {A : Type 0} (server : Server) (authorization : Text) (f : Unit → Exec Problem World A)
    (w : World)
    → is_admin server authorization ≡ false
    → done_with (require_admin server authorization >>= f) w ≡ (err (refusal server), w)
unfolding ◌>>=◌
refused server authorization f w h =
    ap (λ x. continue (continue x.0 f x.1).0 (λ _. pure tt) (continue x.0 f x.1).1)
      (require_admin_lem server authorization w h)

-- A request to any of the administrator's handlers that does not carry the administrator's token,
-- or that comes to a server with no token set, is answered with an error, and nothing happens: no
-- statement is run, and neither the clock nor the random source is read.
pub serve_admin-refuses :
    (v : Services) (server : Server) (authorization : Text) (call : AdminCall) (w : World)
    → is_admin server authorization ≡ false
    → serve_admin v server authorization call w ≡ (err (refusal server), w)
unfolding serve_admin
serve_admin-refuses v server a (AdminCall.create_licenses body) w h = refused server a _ w h
serve_admin-refuses v server a (AdminCall.list_licenses q) w h = refused server a _ w h
serve_admin-refuses v server a (AdminCall.delete_licenses ids) w h = refused server a _ w h
serve_admin-refuses v server a (AdminCall.update_license id text) w h = refused server a _ w h
serve_admin-refuses v server a (AdminCall.get_wallet address) w h = refused server a _ w h
serve_admin-refuses v server a AdminCall.list_profiles w h = refused server a _ w h
serve_admin-refuses v server a (AdminCall.upsert_profile body) w h = refused server a _ w h
serve_admin-refuses v server a (AdminCall.delete_profile id) w h = refused server a _ w h
serve_admin-refuses v server a AdminCall.list_billing_settings w h = refused server a _ w h
serve_admin-refuses v server a (AdminCall.upsert_credit_price body) w h = refused server a _ w h
serve_admin-refuses v server a (AdminCall.upsert_topup_plan body) w h = refused server a _ w h
serve_admin-refuses v server a AdminCall.get_settings w h = refused server a _ w h
serve_admin-refuses v server a (AdminCall.update_settings body) w h = refused server a _ w h

abbrev under_admin : Route → Bool
under_admin r = has_prefix r.1 (codes "/admin/")

abbrev is_static_or_admin : Endpoint → Bool
is_static_or_admin Endpoint.admin_page = true
is_static_or_admin Endpoint.admin_asset = true
is_static_or_admin Endpoint.icon = true
is_static_or_admin (Endpoint.admin h) = true
is_static_or_admin _ = false

-- Every route under /admin/ leads to a static file or to a handler of the administrator.
routes_guarded : count_where (λ r. under_admin r && not (is_static_or_admin r.2)) routes ≡ 0
unfolding routes has_prefix count_where
routes_guarded = refl
