-- ===== src/Edges/Walk.antt =====
-- controllers/edge_producer.go: `walkPolicyEdges`.
use moat_operator.Base.{Option, none, some, List, [], ◌∷◌, Text, Map, if◌then◌else◌, is_nil}
use moat_operator.Kube.Pods.{Pod}
use moat_operator.Kube.Policies.{LabelSelector, PolicyRule, NetworkPolicy, Namespace}
use moat_operator.Edges.{
  Selector, port_strings, pods_matching, workload_set, workload_ref, policy_has_egress,
  policy_has_ingress, ns_labels, peers_refs, peers_pods, rule_refs,
}

module _ (as_selector : LabelSelector → Option Selector) where
  -- The callbacks of `walkPolicyEdges`, over the state that they change.
  module _ {S : Type 0} (emit : Text → Text → List Text → S → S) (mark_dst mark_src : Text → S → S)
      (pods : List Pod) (nsl : Map (Map Text)) where
    unfoldable pub mark_all : (Text → S → S) → Text → List Text → S → S
    mark_all mark ns [] s = s
    mark_all mark ns (wl ∷ wls) s = mark_all mark ns wls (mark (workload_ref ns wl) s)

    -- From each source to the destination, and from the source to each destination.
    unfoldable pub emit_from : Text → List Text → List Text → S → S
    emit_from dst ports [] s = s
    emit_from dst ports (src ∷ srcs) s = emit_from dst ports srcs (emit src dst ports s)

    unfoldable pub emit_to : Text → List Text → List Text → S → S
    emit_to src ports [] s = s
    emit_to src ports (dst ∷ dsts) s = emit_to src ports dsts (emit src dst ports s)

    unfoldable pub ingress_edges : Text → List Text → List Text → List Text → S → S
    unfolding emit_from
    ingress_edges ns srcs ports [] s = s
    ingress_edges ns srcs ports (wl ∷ wls) s =
        ingress_edges ns srcs ports wls (emit_from (workload_ref ns wl) ports srcs s)

    unfoldable pub egress_edges : Text → List Text → List Text → List Text → S → S
    unfolding emit_to
    egress_edges ns dsts ports [] s = s
    egress_edges ns dsts ports (wl ∷ wls) s =
        egress_edges ns dsts ports wls (emit_to (workload_ref ns wl) ports dsts s)

    -- The ports of an ingress rule are those of the selected pods.
    unfoldable pub walk_ingress : Text → List Pod → List Text → List PolicyRule → S → S
    unfolding ingress_edges peers_refs port_strings
    walk_ingress ns sel_pods sel_wls [] s = s
    walk_ingress ns sel_pods sel_wls (rule ∷ rules) s = walk_ingress ns sel_pods sel_wls rules (
        ingress_edges ns (rule_refs as_selector rule ns pods nsl) (port_strings rule.ports sel_pods)
          sel_wls s)

    -- The ports of an egress rule are those of the pods of its peers.
    unfoldable pub walk_egress : Text → List Text → List PolicyRule → S → S
    unfolding egress_edges peers_refs peers_pods port_strings
    walk_egress ns sel_wls [] s = s
    walk_egress ns sel_wls (rule ∷ rules) s = walk_egress ns sel_wls rules (
        egress_edges ns (rule_refs as_selector rule ns pods nsl)
          (port_strings rule.ports (peers_pods as_selector rule.peers ns pods nsl)) sel_wls s)

    abbrev pub walk_both : NetworkPolicy → List Pod → List Text → S → S
    walk_both np sel_pods sel_wls s =
        let t =
          if policy_has_ingress np
          then walk_ingress np.namespace sel_pods sel_wls np.ingress
              (mark_all mark_dst np.namespace sel_wls s)
          else s in
        if policy_has_egress np
        then walk_egress np.namespace sel_wls np.egress (mark_all mark_src np.namespace sel_wls t)
        else t

    abbrev pub walk_selected : NetworkPolicy → Option Selector → S → S
    walk_selected np none s = s
    walk_selected np (some sel) s =
        let sel_pods = pods_matching pods np.namespace sel in
        let sel_wls = workload_set sel_pods in
        if is_nil sel_wls then s else walk_both np sel_pods sel_wls s

    unfoldable pub walk_policies : List NetworkPolicy → S → S
    unfolding pods_matching workload_set walk_ingress walk_egress mark_all policy_has_ingress
        policy_has_egress
    walk_policies [] s = s
    walk_policies (np ∷ nps) s =
        walk_policies nps (walk_selected np (as_selector np.pod_selector) s)

  unfoldable pub walk_policy_edges :
      {S : Type 0}
      → (Text → Text → List Text → S → S)
      → (Text → S → S)
      → (Text → S → S)
      → List NetworkPolicy
      → List Pod
      → List Namespace
      → S
      → S
  unfolding walk_policies ns_labels
  walk_policy_edges emit mark_dst mark_src nps pods namespaces s =
      walk_policies emit mark_dst mark_src pods (ns_labels namespaces []) nps s
