-- ===== src/Ingress.antt =====
-- controllers/ingress_controller.go: the part of `render` that fills the render model from the
-- Ingresses. A notice is a warning metric with its Kubernetes Event; log lines are left out.
pub mod Accounted
pub mod Claims
pub mod Growth
pub mod Order
pub mod Rules
use moat_operator.Base.{
  ℕ, Bool, true, false, not, ◌&&◌, ◌||◌, Option, none, some, List, [], ◌∷◌, ◌++◌, Text, codes, Map,
  lookup, ◌==◌, if◌then◌else◌, is_nil, option_or, has_prefix, trim_space, text_leb, sort_by,
}
use moat_operator.Kube.{
  NamespacedName, Ingress, IngressRule, IngressTls, IngressBackend, HttpIngressPath, PathType,
  exact, IngressClass, Api,
}
use moat_operator.Endpoints.{Resolution, backend_addr, backend_servers}
use moat_operator.Certs.{cert_stem}
use moat_operator.Routes.{Backend, AnnSettings, RenderModel}
use moat_operator.Routes.Annotations.{parse_annotations}
use moat_operator.Routes.Model.{
  new_render_model, add_cert, add_route, add_regex_route, add_passthrough_host,
}

-- The fields of `IngressReconciler` that the pass reads.
pub record Options : Type 0 where
  pub ingress_class_name : Text
  pub resolution : Resolution

pub data Notice : Type 0 where
  backend_unresolved : (source : NamespacedName) (host : Text) → Notice
  unsupported_match : (source : NamespacedName) (host path : Text) → Notice
  route_conflict : (source : NamespacedName) (host path : Text) → Notice

pub record Pass : Type 0 where
  pub model : RenderModel
  pub notices : List Notice

abbrev pub controller_name : Text
controller_name = codes "gen0sec.com/synapse"

abbrev pub acme_challenge_prefix : Text
acme_challenge_prefix = codes "/.well-known/acme-challenge"

unfoldable pub is_ours : Text → Ingress → Bool → Bool
is_ours class_name ing default_ours = elim ing.ingress_class_name [
  | some c ↦ c == class_name
  | none ↦
      let v =
        trim_space (option_or (lookup (codes "kubernetes.io/ingress.class") ing.annotations) []) in
      if is_nil v then default_ours else v == class_name
]

-- The loop of `defaultClassIsOurs`.
unfoldable pub any_default_class : List IngressClass → Bool
any_default_class [] = false
any_default_class (ic ∷ ics) =
    (ic.controller == controller_name
      && (option_or (lookup (codes "ingressclass.kubernetes.io/is-default-class") ic.annotations) []
          == codes "true"))
    || any_default_class ics

unfoldable pub default_class_is_ours : Api → Bool
unfolding any_default_class
default_class_is_ours api = elim api.list_ingress_classes [
  | none ↦ false
  | some ics ↦ any_default_class ics
]

-- `a.Namespace < b.Namespace`, then `a.Name < b.Name`; both orders of equal keys are admitted.
unfoldable pub source_leb : NamespacedName → NamespacedName → Bool
source_leb a b =
    if a.namespace == b.namespace then text_leb a.name b.name else text_leb a.namespace b.namespace

abbrev pub ingress_key : Ingress → NamespacedName
ingress_key ing = record { namespace = ing.namespace; name = ing.name }

abbrev pub ingress_leb : Ingress → Ingress → Bool
ingress_leb a b = source_leb (ingress_key a) (ingress_key b)

-- What follows a claim: nothing if it was granted, else the notice of the conflict.
abbrev pub claimed : Notice → List Notice → RenderModel × Bool → Pass
claimed conflict notices (m, true) = record { model = m; notices = notices }
claimed conflict notices (m, false) = record { model = m; notices = notices ++ conflict ∷ [] }

unfoldable pub rule_hosts : List IngressRule → List Text
rule_hosts [] = []
rule_hosts (rl ∷ rls) = if is_nil rl.host then rule_hosts rls else rl.host ∷ rule_hosts rls

module _ (ns secret : Text) where
  unfoldable pub add_host_certs : List Text → RenderModel → RenderModel
  unfolding cert_stem
  add_host_certs [] m = m
  add_host_certs (h ∷ hs) m =
      let (stem, bound) = cert_stem h ns secret in
      add_host_certs hs (add_cert (if bound then h else []) stem ns secret m)

  unfoldable pub add_tls_certs : List Text → RenderModel → RenderModel
  unfolding add_host_certs
  add_tls_certs [] m = add_cert [] (cert_stem [] ns secret).0 ns secret m
  add_tls_certs (h ∷ hs) m = add_host_certs (h ∷ hs) m

-- The loop over `spec.tls`.
unfoldable pub add_tls : Ingress → List IngressTls → RenderModel → RenderModel
unfolding add_tls_certs rule_hosts
add_tls ing [] m = m
add_tls ing (t ∷ ts) m = add_tls ing ts (
    if is_nil t.secret_name
    then m
    else add_tls_certs ing.namespace t.secret_name
        (if is_nil t.hosts then rule_hosts ing.rules else t.hosts) m)

abbrev pub is_exact : Option PathType → Bool
is_exact (some exact) = true
is_exact _ = false

abbrev pub note_exact : NamespacedName → Text → Text → Option PathType → Pass → Pass
note_exact src host path t pass =
    if is_exact t
    then record pass { notices = pass.notices ++ unsupported_match src host path ∷ [] }
    else pass

-- The ACME solver: the first one that resolves is kept.
abbrev pub note_acme : Option Text → Pass → Pass
note_acme none pass = pass
note_acme (some addr) pass =
    if is_nil pass.model.acme
    then record pass { model = record pass.model { acme = addr } }
    else pass

abbrev pub path_or_root : Text → Text
path_or_root path = if is_nil path then codes "/" else path

abbrev pub new_pass : Pass
new_pass = record { model = new_render_model; notices = [] }

module _ (is_print : ℕ → Bool) (api : Api) (o : Options) where
  -- The first backend of a passthrough rule that resolves.
  unfoldable pub passthrough_target : Text → List HttpIngressPath → Text
  passthrough_target ns [] = []
  passthrough_target ns (p ∷ ps) = elim (backend_addr api o.resolution ns p.backend) [
    | some addr ↦ addr
    | none ↦ passthrough_target ns ps
  ]

  unfoldable pub passthrough_rule : NamespacedName → Text → List HttpIngressPath → Pass → Pass
  unfolding passthrough_target
  passthrough_rule src host paths pass =
      let target = passthrough_target src.namespace paths in
      if is_nil target
      then record pass { notices = pass.notices ++ backend_unresolved src host ∷ [] }
      else claimed (route_conflict src host []) pass.notices
          (add_passthrough_host host target pass.model)

  module _ (src : NamespacedName) (a : AnnSettings) (servers : List Backend) where
    -- The route under one host, by regex or by prefix.
    unfoldable pub claim_host : Text → Text → Pass → Pass
    claim_host host path pass = claimed (route_conflict src host path) pass.notices (
        if a.use_regex
        then add_regex_route is_print host path servers a [] [] pass.model
        else add_route host path servers a [] [] pass.model)

    -- The loop over `a.serverAliases`.
    unfoldable pub claim_aliases : Text → Text → List Text → Pass → Pass
    unfolding claim_host
    claim_aliases host path [] pass = pass
    claim_aliases host path (alias ∷ aliases) pass =
        claim_aliases host path aliases
          (if is_nil alias || (alias == host) then pass else claim_host alias path pass)

    unfoldable pub claim_all : Text → Text → Pass → Pass
    unfolding claim_aliases
    claim_all host path pass = claim_aliases host path a.server_aliases (claim_host host path pass)

  -- One path whose backend resolved to servers.
  unfoldable pub resolved_path :
      NamespacedName → AnnSettings → Text → HttpIngressPath → List Backend → Pass → Pass
  unfolding claim_all
  resolved_path src a host p servers pass =
      let path = path_or_root p.path in
      if a.use_regex
      then claim_all src a servers host path pass
      else let noted = note_exact src host path p.path_type pass in
        if has_prefix path acme_challenge_prefix
        then note_acme (backend_addr api o.resolution src.namespace p.backend) noted
        else claim_all src a servers host path noted

  abbrev pub path_step :
      NamespacedName → AnnSettings → Text → HttpIngressPath → Option (List Backend) → Pass → Pass
  path_step src a host p none pass = record pass {
    notices = pass.notices ++ backend_unresolved src host ∷ [];
  }
  path_step src a host p (some servers) pass = resolved_path src a host p servers pass

  unfoldable pub render_paths :
      NamespacedName → AnnSettings → Text → List HttpIngressPath → Pass → Pass
  unfolding resolved_path
  render_paths src a host [] pass = pass
  render_paths src a host (p ∷ ps) pass =
      render_paths src a host ps
        (path_step src a host p (backend_servers api o.resolution src.namespace p.backend) pass)

  abbrev pub rule_step :
      NamespacedName → AnnSettings → Text → Option (List HttpIngressPath) → Pass → Pass
  rule_step src a host none pass = pass
  rule_step src a host (some paths) pass =
      if is_nil host
      then pass
      else if a.passthrough
      then passthrough_rule src host paths pass
      else render_paths src a host paths pass

  unfoldable pub render_rules : NamespacedName → AnnSettings → List IngressRule → Pass → Pass
  unfolding passthrough_rule render_paths
  render_rules src a [] pass = pass
  render_rules src a (rl ∷ rls) pass = render_rules src a rls (rule_step src a rl.host rl.http pass)

  -- The body of the loop over the Ingresses that are ours.
  unfoldable pub render_ingress : Ingress → Pass → Pass
  unfolding render_rules add_tls
  render_ingress ing pass =
      let a = parse_annotations ing.annotations in
      let m = record pass.model { sticky = pass.model.sticky || a.sticky } in
      render_rules (ingress_key ing) a ing.rules (record pass { model = add_tls ing ing.tls m })

  unfoldable pub render_ingresses : Bool → List Ingress → Pass → Pass
  unfolding render_ingress
  render_ingresses default_ours [] pass = pass
  render_ingresses default_ours (ing ∷ ings) pass =
      render_ingresses default_ours ings
        (if is_ours o.ingress_class_name ing default_ours then render_ingress ing pass else pass)

  -- From the listed Ingresses to the model, before the Gateway API is read.
  unfoldable pub ingress_pass : List Ingress → Pass
  unfolding render_ingresses
  ingress_pass items =
      render_ingresses (default_class_is_ours api) (sort_by ingress_leb items) new_pass
