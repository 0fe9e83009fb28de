-- ===== src/Gateways/Program.antt =====
-- `renderGateways` of controllers/gateway.go: which objects are read, and what they program.
pub mod Growth
use moat_operator.Base.{
  ℕ, Bool, true, false, not, ◌&&◌, ◌||◌, Option, none, some, List, [], ◌∷◌, ◌++◌, ◌+◌, Text, codes,
  ◌==◌, if◌then◌else◌, is_nil, option_or, has_prefix, map, sort_by,
}
use moat_operator.Kube.{NamespacedName}
use moat_operator.Kube.GatewayApi.{
  GatewayClass, TlsMode, terminate, tls_passthrough, CertificateRef, ListenerTls, Listener, Gateway,
  ParentReference, HttpRouteRule, HttpRoute, GatewayApi,
}
use moat_operator.Certs.{cert_stem}
use moat_operator.Routes.{Backend, AnnSettings, RenderModel}
use moat_operator.Routes.Annotations.{parse_annotations}
use moat_operator.Routes.Model.{add_cert, add_route, add_regex_route}
use moat_operator.Ingress.{source_leb, controller_name, acme_challenge_prefix}
use moat_operator.Gateways.{
  kind_admits, header_filters, rule_backends, unresolved, RulePaths, rule_paths,
}

pub data RouteNotice : Type 0 where
  backend_unresolved : (source : NamespacedName) (backend : Text) → RouteNotice
  unsupported_match : (source : NamespacedName) (detail : Text) → RouteNotice
  route_conflict : (source : NamespacedName) (host path : Text) → RouteNotice

pub record Programmed : Type 0 where
  pub model : RenderModel
  pub notices : List RouteNotice

-- The names of the classes that are ours.
unfoldable pub our_classes : List GatewayClass → List Text
our_classes [] = []
our_classes (gc ∷ gcs) =
    if gc.controller_name == controller_name then gc.name ∷ our_classes gcs else our_classes gcs

unfoldable pub is_member : Text → List Text → Bool
is_member x [] = false
is_member x (y ∷ ys) = (y == x) || is_member x ys

-- The certificate of a listener.
unfoldable pub add_certificate : Text → Text → CertificateRef → RenderModel → RenderModel
unfolding cert_stem
add_certificate gw_ns host cr m =
    if not (kind_admits (codes "Secret") cr.kind)
    then m
    else let ns = option_or cr.namespace gw_ns in
      let (stem, bound) = cert_stem host ns cr.name in
      add_cert (if bound then host else []) stem ns cr.name m

unfoldable pub add_certificates : Text → Text → List CertificateRef → RenderModel → RenderModel
unfolding add_certificate
add_certificates gw_ns host [] m = m
add_certificates gw_ns host (cr ∷ crs) m =
    add_certificates gw_ns host crs (add_certificate gw_ns host cr m)

abbrev pub terminates : Option TlsMode → Bool
terminates (some tls_passthrough) = false
terminates _ = true

abbrev pub listener_step : Text → Text → Option ListenerTls → RenderModel → RenderModel
listener_step gw_ns host none m = m
listener_step gw_ns host (some tls) m =
    if terminates tls.mode then add_certificates gw_ns host tls.certificate_refs m else m

unfoldable pub add_listeners : Text → List Listener → RenderModel → RenderModel
unfolding add_certificates
add_listeners gw_ns [] m = m
add_listeners gw_ns (l ∷ ls) m =
    add_listeners gw_ns ls (listener_step gw_ns (option_or l.hostname []) l.tls m)

-- The loop over the Gateways: those of our classes, and the model with their certificates.
unfoldable pub add_gateways :
    List Text → List Gateway → RenderModel → List NamespacedName × RenderModel
unfolding is_member add_listeners
add_gateways classes [] m = ([], m)
add_gateways classes (gw ∷ gws) m =
    let ours = is_member gw.class_name classes in
    let (rest, n) =
      add_gateways classes gws (if ours then add_listeners gw.namespace gw.listeners m else m) in
    if ours then (record { namespace = gw.namespace; name = gw.name } ∷ rest, n) else (rest, n)

unfoldable pub is_our_gateway : NamespacedName → List NamespacedName → Bool
is_our_gateway k [] = false
is_our_gateway k (g ∷ gs) =
    ((g.namespace == k.namespace) && (g.name == k.name)) || is_our_gateway k gs

-- Whether a parent of the route is one of our Gateways.
unfoldable pub is_bound : List NamespacedName → Text → List ParentReference → Bool
unfolding is_our_gateway
is_bound ours ns [] = false
is_bound ours ns (p ∷ ps) =
    (kind_admits (codes "Gateway") p.kind
      && is_our_gateway (record { namespace = option_or p.namespace ns; name = p.name }) ours)
    || is_bound ours ns ps

abbrev pub granted : RouteNotice → List RouteNotice → RenderModel × Bool → Programmed
granted conflict notices (m, true) = record { model = m; notices = notices }
granted conflict notices (m, false) = record { model = m; notices = notices ++ conflict ∷ [] }

abbrev pub first_addr : List Backend → Text
first_addr [] = []
first_addr (s ∷ _) = s.addr

module _ (is_print : ℕ → Bool) (src : NamespacedName) (a : AnnSettings) (servers : List Backend)
    (req resp : List Text) where
  -- One path under one host.
  unfoldable pub program_path : Text → Text → Programmed → Programmed
  program_path path host p =
      if has_prefix path acme_challenge_prefix
      then if is_nil p.model.acme
        then record p { model = record p.model { acme = first_addr servers } }
        else p
      else granted (route_conflict src host path) p.notices
          (add_route host path servers a req resp p.model)

  unfoldable pub program_regex : Text → Text → Programmed → Programmed
  program_regex regex host p =
      granted (route_conflict src host regex) p.notices
        (add_regex_route is_print host regex servers a req resp p.model)

-- `for _, x := range xs { p = step(x, p) }`
unfoldable pub each_of :
    {A : Type 0} → (A → Programmed → Programmed) → List A → Programmed → Programmed
each_of step [] p = p
each_of step (x ∷ xs) p = each_of step xs (step x p)

abbrev pub route_key_of : HttpRoute → NamespacedName
route_key_of rt = record { namespace = rt.namespace; name = rt.name }

abbrev pub route_leb : HttpRoute → HttpRoute → Bool
route_leb x y = source_leb (route_key_of x) (route_key_of y)

module _ (is_print : ℕ → Bool) (domain : Text) where
  abbrev pub noted : NamespacedName → List Text → List Text → List RouteNotice
  noted src names warnings =
      map (backend_unresolved src) names ++ map (unsupported_match src) warnings

  unfoldable pub program_rule :
      NamespacedName → AnnSettings → List Text → HttpRouteRule → Programmed → Programmed
  unfolding each_of program_path program_regex
  program_rule src a hosts rule p =
      let servers = rule_backends domain src.namespace rule in
      let names = unresolved domain src.namespace rule.backend_refs in
      let (req, resp) = header_filters rule.filters in
      let r = rule_paths is_print rule in
      if is_nil servers
      then record p { notices = p.notices ++ noted src names [] }
      else let start = record p { notices = p.notices ++ noted src names r.warnings } in
        each_of (λ x. each_of (program_regex is_print src a servers req resp x) hosts) r.regexes
          (each_of (λ x. each_of (program_path is_print src a servers req resp x) hosts) r.paths
            start)

  -- The body of the loop over the HTTPRoutes.
  unfoldable pub program_route : List NamespacedName → HttpRoute → Programmed → Programmed
  unfolding program_rule is_bound
  program_route ours rt p =
      let src = route_key_of rt in
      let a = parse_annotations rt.annotations in
      let m : RenderModel = record p.model { sticky = p.model.sticky || a.sticky } in
      let q = each_of (program_rule src a rt.hostnames) rt.rules (record p { model = m }) in
      if is_bound ours rt.namespace rt.parent_refs then q else p

  abbrev pub program_routes :
      List NamespacedName → Option (List HttpRoute) → Programmed → Programmed
  program_routes ours none p = p
  program_routes ours (some rts) p = each_of (program_route ours) (sort_by route_leb rts) p

  abbrev pub program_gateways :
      GatewayApi → List Text → Option (List Gateway) → Programmed → Programmed
  program_gateways api classes none p = p
  program_gateways api classes (some gws) p =
      let (ours, m) = add_gateways classes gws p.model in
      let q = record p { model = m } in
      if is_nil ours then q else program_routes ours api.list_routes q

  abbrev pub program_classes : GatewayApi → Option (List GatewayClass) → Programmed → Programmed
  program_classes api none p = p
  program_classes api (some gcs) p =
      let classes = our_classes gcs in
      if is_nil classes then p else program_gateways api classes api.list_gateways p

  unfoldable pub render_gateways : GatewayApi → RenderModel → Programmed
  unfolding our_classes add_gateways program_route each_of
  render_gateways api m = program_classes api api.list_classes (record { model = m; notices = [] })
