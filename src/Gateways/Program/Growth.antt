-- ===== src/Gateways/Program/Growth.antt =====
-- controllers/gateway.go: the model before and after `renderGateways`.
use moat_operator.Base.{
  ℕ, Bool, true, false, Option, none, some, List, [], ◌∷◌, ◌≡◌, refl, Text, is_nil, if◌then◌else◌,
  has_prefix, option_or, sort_by,
}
use moat_operator.Kube.{NamespacedName}
use moat_operator.Kube.GatewayApi.{
  GatewayClass, CertificateRef, ListenerTls, Listener, Gateway, HttpRouteRule, HttpRoute,
  GatewayApi,
}
use moat_operator.Routes.{Backend, AnnSettings, RenderModel}
use moat_operator.Routes.Annotations.{parse_annotations}
use moat_operator.Routes.Model.Growth.{
  IsGrowth, IsGrowth-refl, IsGrowth-trans, add_cert-grows, add_route-grows, add_regex_route-grows,
  set_acme-grows, set_sticky-grows,
}
use moat_operator.Ingress.{acme_challenge_prefix}
use moat_operator.Ingress.Growth.{if-grows}
use moat_operator.Gateways.{header_filters, rule_backends, rule_paths}
use moat_operator.Gateways.Program.{
  RouteNotice, Programmed, our_classes, is_member, add_certificate, add_certificates, terminates,
  listener_step, add_listeners, add_gateways, is_bound, granted, first_addr, program_path,
  program_regex, each_of, program_rule, program_route, route_leb, route_key_of, program_routes,
  program_gateways, program_classes, render_gateways,
}

add_certificate-grows :
    (ns host : Text) (cr : CertificateRef) (m : RenderModel)
    → IsGrowth m (add_certificate ns host cr m)
unfolding add_certificate
add_certificate-grows ns host cr m =
    if-grows _ m m _ (IsGrowth-refl m) (add_cert-grows _ _ (option_or cr.namespace ns) cr.name m)

add_certificates-grows :
    (ns host : Text) (crs : List CertificateRef) (m : RenderModel)
    → IsGrowth m (add_certificates ns host crs m)
unfolding add_certificates
add_certificates-grows ns host [] m = IsGrowth-refl m
add_certificates-grows ns host (cr ∷ crs) m =
    IsGrowth-trans (add_certificate-grows ns host cr m) (add_certificates-grows ns host crs _)

listener_step-grows :
    (ns host : Text) (tls : Option ListenerTls) (m : RenderModel)
    → IsGrowth m (listener_step ns host tls m)
listener_step-grows ns host none m = IsGrowth-refl m
listener_step-grows ns host (some tls) m =
    if-grows (terminates tls.mode) m _ _ (add_certificates-grows ns host tls.certificate_refs m)
      (IsGrowth-refl m)

add_listeners-grows :
    (ns : Text) (ls : List Listener) (m : RenderModel) → IsGrowth m (add_listeners ns ls m)
unfolding add_listeners
add_listeners-grows ns [] m = IsGrowth-refl m
add_listeners-grows ns (l ∷ ls) m =
    IsGrowth-trans (listener_step-grows ns (option_or l.hostname []) l.tls m)
      (add_listeners-grows ns ls _)

if_second-grows :
    (b : Bool) (m : RenderModel) (x y : List NamespacedName × RenderModel)
    → IsGrowth m x.1
    → IsGrowth m y.1
    → IsGrowth m (if b then x else y).1
if_second-grows true m x y f g = f
if_second-grows false m x y f g = g

add_gateways-grows :
    (classes : List Text) (gws : List Gateway) (m : RenderModel)
    → IsGrowth m (add_gateways classes gws m).1
unfolding add_gateways
add_gateways-grows classes [] m = IsGrowth-refl m
add_gateways-grows classes (gw ∷ gws) m =
    let ours = is_member gw.class_name classes in
    let next = if ours then add_listeners gw.namespace gw.listeners m else m in
    let grown =
      IsGrowth-trans
        (if-grows ours m _ _ (add_listeners-grows gw.namespace gw.listeners m) (IsGrowth-refl m))
        (add_gateways-grows classes gws next) in
    if_second-grows ours m _ _ grown grown

-- The same for what is programmed.
abbrev Grows : Programmed → Programmed → Type 0
Grows p q = IsGrowth p.model q.model

Grows-if : (b : Bool) (p x y : Programmed) → Grows p x → Grows p y → Grows p (if b then x else y)
Grows-if true p x y f g = f
Grows-if false p x y f g = g

granted-grows :
    (m : RenderModel) (c : RouteNotice) (ns : List RouteNotice) (r : RenderModel × Bool)
    → IsGrowth m r.0
    → IsGrowth m (granted c ns r).model
granted-grows m c ns (n, true) g = g
granted-grows m c ns (n, false) g = g

each_of-Grows :
    {A : Type 0} (step : A → Programmed → Programmed)
    → ((x : A) (p : Programmed) → Grows p (step x p))
    → (xs : List A) (p : Programmed) → Grows p (each_of step xs p)
unfolding each_of
each_of-Grows step g [] p = IsGrowth-refl p.model
each_of-Grows step g (x ∷ xs) p = IsGrowth-trans (g x p) (each_of-Grows step g xs (step x p))

acme-Grows :
    (b : Bool) (addr : Text) (p : Programmed)
    → is_nil p.model.acme ≡ b
    → Grows p (if b then record p { model = record p.model { acme = addr } } else p)
acme-Grows true addr p e = set_acme-grows addr p.model e
acme-Grows false addr p e = IsGrowth-refl p.model

module _ (is_print : ℕ → Bool) (src : NamespacedName) (a : AnnSettings) (servers : List Backend)
    (req resp : List Text) where
  program_path-Grows :
      (path host : Text) (p : Programmed)
      → Grows p (program_path is_print src a servers req resp path host p)
  unfolding program_path
  program_path-Grows path host p =
      Grows-if (has_prefix path acme_challenge_prefix) p _ _
        (acme-Grows (is_nil p.model.acme) (first_addr servers) p refl)
        (granted-grows p.model _ p.notices _ (add_route-grows host path servers a req resp p.model))

  program_regex-Grows :
      (regex host : Text) (p : Programmed)
      → Grows p (program_regex is_print src a servers req resp regex host p)
  unfolding program_regex
  program_regex-Grows regex host p =
      granted-grows p.model _ p.notices _
        (add_regex_route-grows is_print host regex servers a req resp p.model)

module _ (is_print : ℕ → Bool) (domain : Text) where
  program_rule-Grows :
      (src : NamespacedName) (a : AnnSettings) (hosts : List Text) (rule : HttpRouteRule)
      (p : Programmed)
      → Grows p (program_rule is_print domain src a hosts rule p)
  unfolding program_rule
  program_rule-Grows src a hosts rule p =
      let servers = rule_backends domain src.namespace rule in
      let (req, resp) = header_filters rule.filters in
      let r = rule_paths is_print rule in
      Grows-if (is_nil servers) p _ _ (IsGrowth-refl p.model) (
        IsGrowth-trans
          (each_of-Grows (λ x. each_of (program_path is_print src a servers req resp x) hosts)
            (λ x. each_of-Grows _ (program_path-Grows is_print src a servers req resp x) hosts)
            r.paths _)
          (each_of-Grows (λ x. each_of (program_regex is_print src a servers req resp x) hosts)
            (λ x. each_of-Grows _ (program_regex-Grows is_print src a servers req resp x) hosts)
            r.regexes _))

  program_route-Grows :
      (ours : List NamespacedName) (rt : HttpRoute) (p : Programmed)
      → Grows p (program_route is_print domain ours rt p)
  unfolding program_route
  program_route-Grows ours rt p =
      let a = parse_annotations rt.annotations in
      Grows-if (is_bound ours rt.namespace rt.parent_refs) p _ _
        (IsGrowth-trans (set_sticky-grows a.sticky p.model) (
          each_of-Grows (program_rule is_print domain (route_key_of rt) a rt.hostnames)
            (program_rule-Grows (route_key_of rt) a rt.hostnames) rt.rules _))
        (IsGrowth-refl p.model)

  program_routes-Grows :
      (ours : List NamespacedName) (rts : Option (List HttpRoute)) (p : Programmed)
      → Grows p (program_routes is_print domain ours rts p)
  program_routes-Grows ours none p = IsGrowth-refl p.model
  program_routes-Grows ours (some rts) p =
      each_of-Grows (program_route is_print domain ours) (program_route-Grows ours)
        (sort_by route_leb rts) p

  program_gateways-Grows :
      (api : GatewayApi) (classes : List Text) (gws : Option (List Gateway)) (p : Programmed)
      → Grows p (program_gateways is_print domain api classes gws p)
  program_gateways-Grows api classes none p = IsGrowth-refl p.model
  program_gateways-Grows api classes (some gws) p =
      let r = add_gateways classes gws p.model in
      IsGrowth-trans (add_gateways-grows classes gws p.model) (
        Grows-if (is_nil r.0) (record p { model = r.1 }) _ _ (IsGrowth-refl r.1)
          (program_routes-Grows r.0 api.list_routes (record p { model = r.1 })))

  program_classes-Grows :
      (api : GatewayApi) (gcs : Option (List GatewayClass)) (p : Programmed)
      → Grows p (program_classes is_print domain api gcs p)
  program_classes-Grows api none p = IsGrowth-refl p.model
  program_classes-Grows api (some gcs) p =
      Grows-if (is_nil (our_classes gcs)) p _ _ (IsGrowth-refl p.model)
        (program_gateways-Grows api (our_classes gcs) api.list_gateways p)

  -- Whatever the API server returns, the Gateway API's objects only add to the model: every route,
  -- passthrough host and certificate that is there stays with its value, the ACME address and the
  -- sticky flag too where they are set, and a well-formed model stays well formed.
  pub render_gateways-grows :
      (api : GatewayApi) (m : RenderModel)
      → IsGrowth m (render_gateways is_print domain api m).model
  unfolding render_gateways
  render_gateways-grows api m =
      program_classes-Grows api api.list_classes (record { model = m; notices = [] })
