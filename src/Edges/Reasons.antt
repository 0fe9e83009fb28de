-- ===== src/Edges/Reasons.antt =====
-- controllers/edge_producer.go: for which edges and workloads `walkPolicyEdges` calls back.
use moat_operator.Base.{true, Option, some, List, Text, Map, ◌≡◌, ◌⊎◌, Has}
use moat_operator.Kube.Pods.{Pod}
use moat_operator.Kube.Policies.{LabelSelector, PolicyRule, NetworkPolicy}
use moat_operator.Edges.{
  Selector, port_strings, pods_matching, workload_set, workload_ref, policy_has_egress,
  policy_has_ingress, peers_pods, rule_refs,
}

module _ (as_selector : LabelSelector → Option Selector) (pods : List Pod) (nsl : Map (Map Text))
    (Emitted : Text → Text → List Text → Type 0) (MarkedDst MarkedSrc : Text → Type 0) where
  -- Of a policy whose pods make up the workloads: a mark of each workload, and an edge for each
  -- rule, workload and ref on the other side.
  abbrev pub IngressReason : NetworkPolicy → List Pod → Type 0
  IngressReason np sel_pods =
      ((wl : Text) × Has wl (workload_set sel_pods) × MarkedDst (workload_ref np.namespace wl))
      ⊎ ((rule : PolicyRule) × Has rule np.ingress
          × ((wl : Text) × Has wl (workload_set sel_pods)
              × ((src : Text) × Has src (rule_refs as_selector rule np.namespace pods nsl)
                  × Emitted src (workload_ref np.namespace wl) (port_strings rule.ports sel_pods))))

  abbrev pub EgressReason : NetworkPolicy → List Pod → Type 0
  EgressReason np sel_pods =
      ((wl : Text) × Has wl (workload_set sel_pods) × MarkedSrc (workload_ref np.namespace wl))
      ⊎ ((rule : PolicyRule) × Has rule np.egress
          × ((wl : Text) × Has wl (workload_set sel_pods)
              × ((dst : Text) × Has dst (rule_refs as_selector rule np.namespace pods nsl)
                  × Emitted (workload_ref np.namespace wl) dst (
                      port_strings rule.ports
                        (peers_pods as_selector rule.peers np.namespace pods nsl)))))

  abbrev pub SelectedReason : NetworkPolicy → Selector → Type 0
  SelectedReason np sel =
      let sel_pods = pods_matching pods np.namespace sel in
      ((policy_has_ingress np ≡ true) × IngressReason np sel_pods)
      ⊎ ((policy_has_egress np ≡ true) × EgressReason np sel_pods)

  abbrev pub PolicyReason : NetworkPolicy → Type 0
  PolicyReason np =
      (sel : Selector) × (as_selector np.pod_selector ≡ some sel) × SelectedReason np sel
