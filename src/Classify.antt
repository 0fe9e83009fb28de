-- ===== src/Classify.antt =====
-- controllers/classify.go: which workloads the internet reaches, and which are the control plane.
-- A set of texts is the list of its members, in the order in which they are added. The names that
-- `strings.ToLower` meets are ASCII.
pub mod Exposed
use moat_operator.Base.{
  ℕ, Bool, true, false, ◌&&◌, ◌||◌, ◌+◌, Option, none, some, List, [], ◌∷◌, ◌++◌, map, Text, codes,
  Map, leb, ◌==◌, if◌then◌else◌, is_nil, contains,
}
use moat_operator.Kube.{
  Service, ServiceType, node_port, load_balancer, IngressBackend, HttpIngressPath, IngressRule,
  Ingress,
}
use moat_operator.Kube.Pods.{Pod}
use moat_operator.Identity.{value_of, workload_identity}
use moat_operator.Base.{seen_in}

-- The loop of `selectorMatches`.
unfoldable pub all_labels : Map Text → Map Text → Bool
all_labels [] labels = true
all_labels ((k, v) ∷ selector) labels = (value_of k labels == v) && all_labels selector labels

unfoldable pub selector_matches : Map Text → Map Text → Bool
unfolding all_labels
selector_matches selector labels = if is_nil selector then false else all_labels selector labels

abbrev pub slashed : Text → Text → Text
slashed ns name = ns ++ b'/' ∷ name

abbrev pub backed_service : Text → IngressBackend → List Text
backed_service ns b = elim b.service [ none ↦ [] | some s ↦ slashed ns s.name ∷ [] ]

unfoldable pub path_services : Text → List HttpIngressPath → List Text
path_services ns [] = []
path_services ns (p ∷ ps) = backed_service ns p.backend ++ path_services ns ps

unfoldable pub rule_services : Text → List IngressRule → List Text
unfolding path_services
rule_services ns [] = []
rule_services ns (rl ∷ rls) =
    (elim rl.http [ none ↦ [] | some ps ↦ path_services ns ps ]) ++ rule_services ns rls

-- The set `ingressBacked`.
unfoldable pub ingress_backed : List Ingress → List Text
unfolding rule_services
ingress_backed [] = []
ingress_backed (ing ∷ ings) =
    (elim ing.default_backend [ none ↦ [] | some b ↦ backed_service ing.namespace b ])
    ++ rule_services ing.namespace ing.rules
    ++ ingress_backed ings

abbrev pub is_reached_type : ServiceType → Bool
is_reached_type load_balancer = true
is_reached_type node_port = true
is_reached_type _ = false

unfoldable pub is_exposing : List Text → Service → Bool
unfolding seen_in
is_exposing backed s =
    if is_nil s.selector
    then false
    else is_reached_type s.type || seen_in (slashed s.namespace s.name) backed

pub record NsSelector : Type 0 where
  pub namespace : Text
  pub selector : Map Text

abbrev pub selector_of : Service → NsSelector
selector_of s = record { namespace = s.namespace; selector = s.selector }

unfoldable pub exposing_selectors : List Text → List Service → List NsSelector
unfolding is_exposing
exposing_selectors backed [] = []
exposing_selectors backed (s ∷ ss) =
    if is_exposing backed s
    then selector_of s ∷ exposing_selectors backed ss
    else exposing_selectors backed ss

-- The inner loop over the selectors.
unfoldable pub is_selected : Pod → List NsSelector → Bool
unfolding selector_matches
is_selected p [] = false
is_selected p (sel ∷ sels) =
    ((sel.namespace == p.namespace) && selector_matches sel.selector p.labels) || is_selected p sels

unfoldable pub exposed_refs_by : List NsSelector → List Pod → List Text
unfolding is_selected workload_identity
exposed_refs_by sels [] = []
exposed_refs_by sels (p ∷ ps) =
    let workload = (workload_identity p).0 in
    if is_nil workload
    then exposed_refs_by sels ps
    else if is_selected p sels
    then slashed p.namespace workload ∷ exposed_refs_by sels ps
    else exposed_refs_by sels ps

unfoldable pub internet_exposed_refs : List Pod → List Service → List Ingress → List Text
unfolding ingress_backed exposing_selectors exposed_refs_by
internet_exposed_refs pods services ings =
    exposed_refs_by (exposing_selectors (ingress_backed ings) services) pods

abbrev pub lower : Text → Text
lower s = map (λ c. if leb b'A' c && leb c b'Z' then c + 32 else c) s

unfoldable pub contains_any : Text → List Text → Bool
contains_any w [] = false
contains_any w (c ∷ cs) = contains w c || contains_any w cs

unfoldable pub is_control_plane : Text → Bool
unfolding contains_any seen_in
is_control_plane workload =
    let w = lower workload in
    contains_any w (
      codes "kube-apiserver"
      ∷ codes "kube-controller-manager"
      ∷ codes "kube-scheduler"
      ∷ codes "cloud-controller-manager"
      ∷ [])
    || seen_in w (codes "etcd" ∷ codes "ccm" ∷ [])
