-- ===== src/Gateways.antt =====
-- controllers/gateway.go: the Gateway API's objects put in the render model. A notice is a warning
-- metric with its Kubernetes Event; the conditions of the objects' statuses are left out.
pub mod Rules
pub mod Program
use moat_operator.Base.{
  ℕ, Bool, true, false, not, ◌&&◌, ◌||◌, Option, none, some, List, [], ◌∷◌, ◌++◌, Text, codes, ◌==◌,
  eqb, if◌then◌else◌, is_nil, is_some, option_or, has_prefix, map, sort_by,
}
use moat_operator.Kube.{NamespacedName}
use moat_operator.Kube.GatewayApi.{
  GatewayClass, TlsMode, terminate, tls_passthrough, CertificateRef, ListenerTls, Listener, Gateway,
  ParentReference, PathMatchType, exact_path, path_prefix, regular_expression, HttpPathMatch,
  HttpRouteMatch, HttpHeader, HttpHeaderFilter, HttpRouteFilter, request_header_modifier,
  response_header_modifier, other_filter, HttpBackendRef, HttpRouteRule, HttpRoute, GatewayApi,
}
use moat_operator.Certs.{cert_stem}
use moat_operator.Endpoints.{at_port}
use moat_operator.Routes.{Backend, AnnSettings, RenderModel}
use moat_operator.Routes.Quote.{quote}
use moat_operator.Routes.Annotations.{parse_annotations}
use moat_operator.Routes.Model.{add_cert, add_route, add_regex_route}
use moat_operator.Ingress.{source_leb, controller_name, acme_challenge_prefix}

-- The test `p != nil && *p != kind`, negated.
abbrev pub kind_admits : Text → Option Text → Bool
kind_admits kind none = true
kind_admits kind (some k) = k == kind

abbrev pub header_lines : Option HttpHeaderFilter → List Text
header_lines none = []
header_lines (some f) = map (λ (h : HttpHeader). h.name ++ codes ": " ++ h.value) (f.set ++ f.add)

-- `headerFilters`: the request's lines and the response's.
unfoldable pub header_filters : List HttpRouteFilter → List Text × List Text
header_filters [] = ([], [])
header_filters (request_header_modifier f ∷ fs) =
    let (req, resp) = header_filters fs in (header_lines f ++ req, resp)
header_filters (response_header_modifier f ∷ fs) =
    let (req, resp) = header_filters fs in (req, header_lines f ++ resp)
header_filters (other_filter ∷ fs) = header_filters fs

unfoldable pub gw_backend : Text → Text → HttpBackendRef → Option Text
gw_backend domain route_ns b =
    if not (kind_admits (codes "Service") b.kind) then none else elim b.port [
      | none ↦ none
      | some port ↦
          let ns = option_or b.namespace route_ns in
          let cd = if is_nil domain then codes "cluster.local" else domain in
          some (at_port (b.name ++ codes "." ++ ns ++ codes ".svc." ++ cd) port)
    ]

unfoldable pub any_weight : List HttpBackendRef → Bool
any_weight [] = false
any_weight (b ∷ bs) = is_some b.weight || any_weight bs

-- What a reference that resolved adds to the pool.
abbrev pub pooled : Bool → HttpBackendRef → Text → List Backend
pooled weighted b addr =
    if not weighted
    then record { addr = addr; weight = 0 } ∷ []
    else let w = option_or b.weight 1 in
      if eqb w 0 then [] else record { addr = addr; weight = w } ∷ []

abbrev pub pool_step : Bool → HttpBackendRef → Option Text → List Backend → List Backend
pool_step weighted b none rest = rest
pool_step weighted b (some addr) rest = pooled weighted b addr ++ rest

module _ (domain route_ns : Text) where
  unfoldable pub backend_pool : Bool → List HttpBackendRef → List Backend
  backend_pool weighted [] = []
  backend_pool weighted (b ∷ bs) =
      pool_step weighted b (gw_backend domain route_ns b) (backend_pool weighted bs)

  unfoldable pub rule_backends : HttpRouteRule → List Backend
  unfolding backend_pool any_weight
  rule_backends rule = backend_pool (any_weight rule.backend_refs) rule.backend_refs

  -- The names of the references that do not resolve; each is a notice.
  unfoldable pub unresolved : List HttpBackendRef → List Text
  unresolved [] = []
  unresolved (b ∷ bs) = elim (gw_backend domain route_ns b) [
    | none ↦ b.name ∷ unresolved bs
    | some _ ↦ unresolved bs
  ]

-- The paths, the regexes and the warnings of `rulePaths`.
pub record RulePaths : Type 0 where
  pub paths : List Text
  pub regexes : List Text
  pub warnings : List Text

abbrev pub constraint_warning : Text
constraint_warning =
    codes
      "header/method/queryParam match conditions are ignored (synapse v1 routes on host+path only)"

abbrev pub exact_warning : (ℕ → Bool) → Text → Text
exact_warning is_print path =
    codes "Exact path match "
    ++ quote is_print path
    ++ codes " is approximated as a prefix (synapse v1 matches longest-prefix)"

abbrev pub nonempty_or_root : Text → Text
nonempty_or_root v = if is_nil v then codes "/" else v

abbrev pub path_value : Option HttpPathMatch → Text
path_value none = codes "/"
path_value (some p) = nonempty_or_root (option_or p.value [])

abbrev pub path_type : Option HttpPathMatch → PathMatchType
path_type none = path_prefix
path_type (some p) = option_or p.type path_prefix

abbrev pub is_constrained : HttpRouteMatch → Bool
is_constrained mt = not (is_nil mt.headers) || is_some mt.method || not (is_nil mt.query_params)

abbrev pub match_step : (ℕ → Bool) → PathMatchType → Text → RulePaths → RulePaths
match_step is_print regular_expression pv r = record r { regexes = pv ∷ r.regexes }
match_step is_print exact_path pv r = record r {
  paths = pv ∷ r.paths;
  warnings = exact_warning is_print pv ∷ r.warnings;
}
match_step is_print path_prefix pv r = record r { paths = pv ∷ r.paths }

-- The loop over the matches.
unfoldable pub match_paths : (ℕ → Bool) → List HttpRouteMatch → RulePaths
match_paths is_print [] = record { paths = []; regexes = []; warnings = [] }
match_paths is_print (mt ∷ mts) =
    let r =
      match_step is_print (path_type mt.path) (path_value mt.path) (match_paths is_print mts) in
    if is_constrained mt then record r { warnings = constraint_warning ∷ r.warnings } else r

unfoldable pub rule_paths : (ℕ → Bool) → HttpRouteRule → RulePaths
unfolding match_paths
rule_paths is_print rule =
    if is_nil rule.matches
    then record { paths = codes "/" ∷ []; regexes = []; warnings = [] }
    else match_paths is_print rule.matches
