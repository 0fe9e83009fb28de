-- ===== src/Routes/Model.antt =====
-- controllers/routes.go: the operations of the render model. A method returns the new model, and
-- its result where it has one.
pub mod Wins
pub mod Invariant
pub mod Growth
use moat_operator.Base.{
  ℕ, Bool, true, false, not, ◌&&◌, ◌||◌, Option, none, some, List, [], ◌∷◌, ◌++◌, Text, codes, Map,
  lookup, insert, has_key, ◌==◌, eqb, if◌then◌else◌, is_nil, option_or, has_prefix, trim_right_by,
}
use moat_operator.Routes.{Backend, RouteCfg, AnnSettings, CertProjection, Paths, RenderModel}
use moat_operator.Routes.Quote.{quote}

abbrev pub new_render_model : RenderModel
new_render_model = record {
  hosts = [];
  acme = [];
  host_cert = [];
  cert_projections = [];
  passthrough_hosts = [];
  sticky = false;
}

unfoldable pub add_cert : Text → Text → Text → Text → RenderModel → RenderModel
add_cert host stem ns name m =
    if is_nil stem || is_nil ns || is_nil name
    then m
    else let projections =
        if has_key stem m.cert_projections
        then m.cert_projections
        else insert stem (record { stem = stem; ns = ns; name = name }) m.cert_projections in
      let certs =
        if is_nil host || has_key host m.host_cert
        then m.host_cert
        else insert host stem m.host_cert in
      record m { cert_projections = projections; host_cert = certs }

-- The path under which a prefix route is stored.
unfoldable pub route_key : Text → Text
route_key path =
    if path == codes "/"
    then path
    else let trimmed = trim_right_by (λ c. eqb c b'/') path in
      if is_nil trimmed then path else trimmed

unfoldable pub route_cfg : List Backend → AnnSettings → List Text → List Text → Text → RouteCfg
route_cfg servers a extra_req extra_resp match_expr = record {
  servers = servers;
  ssl = a.ssl;
  http2 = a.http2;
  force_https = a.force_https;
  healthcheck = a.healthcheck;
  disable_access_log = a.disable_access_log;
  connect_timeout = a.connect_timeout;
  read_timeout = a.read_timeout;
  write_timeout = a.write_timeout;
  idle_timeout = a.idle_timeout;
  max_body_size = a.max_body_size;
  req_headers = a.req_headers ++ extra_req;
  resp_headers = a.resp_headers ++ extra_resp;
  redirect_status = a.redirect_status;
  redirect_location = a.redirect_location;
  match_expr = match_expr;
}

-- `m.hosts[host]`, nil where it is missing.
abbrev pub paths_of : Text → RenderModel → Paths
paths_of host m = option_or (lookup host m.hosts) []

-- What `addRoute` and `addRegexRoute` share, from the test of the passthrough hosts on.
unfoldable pub claim_route : Text → Text → RouteCfg → Bool → RenderModel → RenderModel × Bool
claim_route host key rc sticky m =
    if has_key host m.passthrough_hosts
    then (m, false)
    else if has_key key (paths_of host m)
    then (m, false)
    else (
      record m {
        hosts = insert host (insert key rc (paths_of host m)) m.hosts;
        sticky = m.sticky || sticky;
      },
      true,
    )

unfoldable pub add_route :
    Text
    → Text
    → List Backend
    → AnnSettings
    → List Text
    → List Text
    → RenderModel
    → RenderModel × Bool
unfolding claim_route route_cfg route_key
add_route host path servers a extra_req extra_resp m =
    claim_route host (route_key path) (route_cfg servers a extra_req extra_resp []) a.sticky m

unfoldable pub regex_route_key : Text → Text
regex_route_key regex = codes "expr:" ++ regex

unfoldable pub path_regex_expr : (ℕ → Bool) → Text → Text
path_regex_expr is_print regex =
    let anchored = if has_prefix regex (codes "^") then regex else codes "^" ++ regex in
    codes "http.request.path matches " ++ quote is_print anchored

unfoldable pub add_regex_route :
    (ℕ → Bool)
    → Text
    → Text
    → List Backend
    → AnnSettings
    → List Text
    → List Text
    → RenderModel
    → RenderModel × Bool
unfolding claim_route route_cfg regex_route_key path_regex_expr
add_regex_route is_print host regex servers a extra_req extra_resp m =
    if is_nil regex
    then (m, false)
    else claim_route host (regex_route_key regex)
        (route_cfg servers a extra_req extra_resp (path_regex_expr is_print regex)) a.sticky m

unfoldable pub add_passthrough_host : Text → Text → RenderModel → RenderModel × Bool
add_passthrough_host host upstream m =
    if is_nil host || is_nil upstream
    then (m, false)
    else if has_key host m.passthrough_hosts
    then (m, false)
    else if not (is_nil (paths_of host m))
    then (m, false)
    else (record m { passthrough_hosts = insert host upstream m.passthrough_hosts }, true)
