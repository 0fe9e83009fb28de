-- ===== src/Edges.antt =====
-- controllers/edge_producer.go: the edges that the NetworkPolicies declare. A label selector is
-- compiled by the API machinery: `as_selector` gives its test of labels, or none for an error.
pub mod Walk
pub mod Lines
pub mod Ports
pub mod Peers
pub mod Refs
pub mod Reasons
pub mod Declared
pub mod Allowed
pub mod Stream
pub mod Refined
pub mod Run
use moat_operator.Base.{
  ℕ, Bool, true, false, not, ◌&&◌, ◌||◌, Option, none, some, List, [], ◌∷◌, ◌++◌, Text, codes, Map,
  lookup, insert, keys, ◌==◌, eqb, if◌then◌else◌, is_nil, option_or, length, map, sort, join, ◌>>=◌,
  add_once, add_all,
}
use moat_operator.Kube.Pods.{ContainerPort, Pod}
use moat_operator.Kube.Policies.{
  LabelSelector, IntOrString, number, named, Peer, PolicyRule, PolicyType, ingress_type,
  egress_type, NetworkPolicy, Namespace,
}
use moat_operator.Identity.{workload_identity}
use moat_operator.Routes.Quote.{decimal}

abbrev pub Selector : Type 0
Selector = Map Text → Bool

unfoldable pub has_number : ℕ → List ℕ → Bool
has_number n [] = false
has_number n (m ∷ ms) = eqb m n || has_number n ms

-- The ports of a container that carry the name, after those that were found before.
unfoldable pub named_ports : Text → List ContainerPort → List ℕ → List ℕ
unfolding has_number
named_ports name [] found = found
named_ports name (cp ∷ cps) found = named_ports name cps (
    if (cp.name == name) && not (has_number cp.container_port found)
    then found ++ cp.container_port ∷ []
    else found)

unfoldable pub named_ports_of : Text → List (List ContainerPort) → List ℕ → List ℕ
unfolding named_ports
named_ports_of name [] found = found
named_ports_of name (c ∷ cs) found = named_ports_of name cs (named_ports name c found)

unfoldable pub resolve_named_ports : Text → List Pod → List ℕ → List ℕ
unfolding named_ports_of
resolve_named_ports name [] found = found
resolve_named_ports name (p ∷ ps) found =
    resolve_named_ports name ps (named_ports_of name p.container_ports found)

abbrev pub resolve_named_port : List Pod → Text → List ℕ
resolve_named_port pods name = resolve_named_ports name pods []

abbrev pub any_port : List Text
any_port = codes "*" ∷ []

abbrev pub numbered : List ℕ → List Text
numbered nums = if is_nil nums then any_port else map decimal nums

abbrev pub port_texts : List Pod → Option IntOrString → List Text
port_texts dst_pods none = any_port
port_texts dst_pods (some (number n)) = decimal n ∷ []
port_texts dst_pods (some (named name)) = numbered (resolve_named_port dst_pods name)

unfoldable pub add_ports : List Pod → List (Option IntOrString) → List Text → List Text
unfolding resolve_named_ports decimal add_all
add_ports dst_pods [] out = out
add_ports dst_pods (p ∷ ps) out = add_ports dst_pods ps (add_all (port_texts dst_pods p) out)

unfoldable pub port_strings : List (Option IntOrString) → List Pod → List Text
unfolding add_ports
port_strings ports dst_pods = if is_nil ports then any_port else add_ports dst_pods ports []

-- The pods of the namespace, off the host's network, that the selector admits.
abbrev pub is_matching : Text → Selector → Pod → Bool
is_matching ns sel p = if not (p.namespace == ns) || p.host_network then false else sel p.labels

unfoldable pub pods_matching : List Pod → Text → Selector → List Pod
pods_matching [] ns sel = []
pods_matching (p ∷ pods) ns sel =
    let rest = pods_matching pods ns sel in if is_matching ns sel p then p ∷ rest else rest

unfoldable pub add_workloads : List Pod → List Text → List Text
unfolding workload_identity add_once
add_workloads [] out = out
add_workloads (p ∷ pods) out =
    let wl = (workload_identity p).0 in
    add_workloads pods (if is_nil wl then out else add_once wl out)

unfoldable pub workload_set : List Pod → List Text
unfolding add_workloads
workload_set pods = add_workloads pods []

abbrev pub workload_ref : Text → Text → Text
workload_ref ns wl = ns ++ b'/' ∷ wl

unfoldable pub policy_has_egress : NetworkPolicy → Bool
policy_has_egress np = lists_egress np.policy_types || not (is_nil np.egress)
  where
    lists_egress : List PolicyType → Bool
    lists_egress [] = false
    lists_egress (egress_type ∷ pts) = true
    lists_egress (ingress_type ∷ pts) = lists_egress pts

unfoldable pub policy_has_ingress : NetworkPolicy → Bool
policy_has_ingress np = if is_nil np.policy_types then true else lists_ingress np.policy_types
  where
    lists_ingress : List PolicyType → Bool
    lists_ingress [] = false
    lists_ingress (ingress_type ∷ pts) = true
    lists_ingress (egress_type ∷ pts) = lists_ingress pts

-- `nsLabels`
unfoldable pub ns_labels : List Namespace → Map (Map Text) → Map (Map Text)
unfolding insert
ns_labels [] m = m
ns_labels (n ∷ ns) m = ns_labels ns (insert n.name n.labels m)

unfoldable pub matching_namespaces : Selector → Map (Map Text) → List Text
matching_namespaces sel [] = []
matching_namespaces sel ((ns, lbls) ∷ m) =
    let rest = matching_namespaces sel m in if sel lbls then ns ∷ rest else rest

unfoldable pub pods_in : List Pod → List Text → Selector → List Pod
unfolding pods_matching
pods_in pods [] sel = []
pods_in pods (ns ∷ nss) sel = pods_matching pods ns sel ++ pods_in pods nss sel

unfoldable pub add_refs : List Pod → List Text → List Text
unfolding workload_identity add_once
add_refs [] out = out
add_refs (p ∷ pods) out =
    let wl = (workload_identity p).0 in
    add_refs pods (if is_nil wl then out else add_once (workload_ref p.namespace wl) out)

abbrev pub anyone : List Text
anyone = codes "*/*" ∷ []

module _ (as_selector : LabelSelector → Option Selector) where
  abbrev pub peer_namespaces : Option LabelSelector → Text → Map (Map Text) → Option (List Text)
  peer_namespaces none policy_ns nsl = some (policy_ns ∷ [])
  peer_namespaces (some s) policy_ns nsl =
      as_selector s >>= λ sel. some (matching_namespaces sel nsl)

  abbrev pub peer_selector : Option LabelSelector → Option Selector
  peer_selector none = some (λ _. true)
  peer_selector (some s) = as_selector s

  abbrev pub selected_pods : List Pod → Option (List Text) → Option Selector → List Pod
  selected_pods pods none sel = []
  selected_pods pods (some nss) none = []
  selected_pods pods (some nss) (some sel) = pods_in pods nss sel

  unfoldable pub peer_pods : Peer → Text → List Pod → Map (Map Text) → List Pod
  unfolding pods_in matching_namespaces
  peer_pods peer policy_ns pods nsl =
      if peer.ip_block
      then []
      else selected_pods pods (peer_namespaces peer.namespace_selector policy_ns nsl)
          (peer_selector peer.pod_selector)

  unfoldable pub peer_workload_refs : Peer → Text → List Pod → Map (Map Text) → List Text
  unfolding peer_pods add_refs
  peer_workload_refs peer policy_ns pods nsl = add_refs (peer_pods peer policy_ns pods nsl) []

  unfoldable pub peers_refs : List Peer → Text → List Pod → Map (Map Text) → List Text
  unfolding peer_workload_refs
  peers_refs [] policy_ns pods nsl = []
  peers_refs (p ∷ ps) policy_ns pods nsl =
      peer_workload_refs p policy_ns pods nsl ++ peers_refs ps policy_ns pods nsl

  unfoldable pub peers_pods : List Peer → Text → List Pod → Map (Map Text) → List Pod
  unfolding peer_pods
  peers_pods [] policy_ns pods nsl = []
  peers_pods (p ∷ ps) policy_ns pods nsl =
      peer_pods p policy_ns pods nsl ++ peers_pods ps policy_ns pods nsl

  -- The refs on the other side of a rule: everyone, where it names no peer.
  abbrev pub rule_refs : PolicyRule → Text → List Pod → Map (Map Text) → List Text
  rule_refs rule policy_ns pods nsl =
      if is_nil rule.peers then anyone else peers_refs rule.peers policy_ns pods nsl
