-- ===== src/Edges/Declared.antt =====
-- controllers/edge_producer.go: which edges and which governed workloads `walkPolicyEdges` hands to
-- its callbacks.
use moat_operator.Base.{
  Bool, true, false, Option, none, some, List, [], ◌∷◌, Text, Map, if◌then◌else◌, is_nil, ◌≡◌, refl,
  ◌⊎◌, inl, inr, arith, Has, IsAdded, nothing-IsAdded, IsAdded-as, IsAdded-then, loop-IsAdded,
  subst,
}
use moat_operator.Kube.Pods.{Pod}
use moat_operator.Kube.Policies.{LabelSelector, PolicyRule, NetworkPolicy}
use moat_operator.Edges.{
  Selector, port_strings, pods_matching, workload_set, workload_ref, policy_has_egress,
  policy_has_ingress, peers_pods, rule_refs,
}
use moat_operator.Edges.Walk.{
  mark_all, emit_from, emit_to, ingress_edges, egress_edges, walk_ingress, walk_egress, walk_both,
  walk_selected, walk_policies,
}
use moat_operator.Edges.Reasons.{IngressReason, EgressReason, SelectedReason, PolicyReason}

module _ (as_selector : LabelSelector → Option Selector) (pods : List Pod) (nsl : Map (Map Text))
    (Emitted : Text → Text → List Text → Type 0) (MarkedDst MarkedSrc : Text → Type 0) where
  module _ {S : Type 0} (IsIn : S → Type 0) (emit : Text → Text → List Text → S → S)
      (mark_dst mark_src : Text → S → S)
      (emitted : (src dst : Text) (ports : List Text) (s : S)
        → IsAdded IsIn (Emitted src dst ports) s (emit src dst ports s))
      (dst_marked : (ref : Text) (s : S) → IsAdded IsIn (MarkedDst ref) s (mark_dst ref s))
      (src_marked : (ref : Text) (s : S) → IsAdded IsIn (MarkedSrc ref) s (mark_src ref s)) where
    mark_all-IsAdded :
        (Marked : Text → Type 0) (mark : Text → S → S)
        → ((ref : Text) (s : S) → IsAdded IsIn (Marked ref) s (mark ref s))
        → (ns : Text) (wls : List Text) (s : S)
        → IsAdded IsIn
            ((wl : Text) × Has wl wls × Marked (workload_ref ns wl))
            s
            (mark_all as_selector emit mark_dst mark_src pods nsl mark ns wls s)
    unfolding mark_all
    mark_all-IsAdded Marked mark marked ns wls s =
        loop-IsAdded IsIn (λ wl. Marked (workload_ref ns wl)) (λ wl s. mark (workload_ref ns wl) s)
          (mark_all as_selector emit mark_dst mark_src pods nsl mark ns) (λ r. refl)
          (λ a xs r. refl) (λ wl s. marked (workload_ref ns wl) s) wls s

    ingress_edges-IsAdded :
        (ns : Text) (srcs ports wls : List Text) (s : S)
        → IsAdded IsIn
            ((wl : Text) × Has wl wls
              × ((src : Text) × Has src srcs × Emitted src (workload_ref ns wl) ports))
            s
            (ingress_edges as_selector emit mark_dst mark_src pods nsl ns srcs ports wls s)
    unfolding ingress_edges emit_from
    ingress_edges-IsAdded ns srcs ports wls s =
        loop-IsAdded IsIn
          (λ wl. (src : Text) × Has src srcs × Emitted src (workload_ref ns wl) ports)
          (λ wl s.
            emit_from as_selector emit mark_dst mark_src pods nsl (workload_ref ns wl) ports srcs s)
          (ingress_edges as_selector emit mark_dst mark_src pods nsl ns srcs ports) (λ r. refl)
          (λ a xs r. refl)
          (λ wl s.
            loop-IsAdded IsIn (λ src. Emitted src (workload_ref ns wl) ports)
              (λ src s. emit src (workload_ref ns wl) ports s)
              (emit_from as_selector emit mark_dst mark_src pods nsl (workload_ref ns wl) ports)
              (λ r. refl) (λ a xs r. refl) (λ src s. emitted src (workload_ref ns wl) ports s) srcs
              s)
          wls s

    egress_edges-IsAdded :
        (ns : Text) (dsts ports wls : List Text) (s : S)
        → IsAdded IsIn
            ((wl : Text) × Has wl wls
              × ((dst : Text) × Has dst dsts × Emitted (workload_ref ns wl) dst ports))
            s
            (egress_edges as_selector emit mark_dst mark_src pods nsl ns dsts ports wls s)
    unfolding egress_edges emit_to
    egress_edges-IsAdded ns dsts ports wls s =
        loop-IsAdded IsIn
          (λ wl. (dst : Text) × Has dst dsts × Emitted (workload_ref ns wl) dst ports)
          (λ wl s.
            emit_to as_selector emit mark_dst mark_src pods nsl (workload_ref ns wl) ports dsts s)
          (egress_edges as_selector emit mark_dst mark_src pods nsl ns dsts ports) (λ r. refl)
          (λ a xs r. refl)
          (λ wl s.
            loop-IsAdded IsIn (λ dst. Emitted (workload_ref ns wl) dst ports)
              (λ dst s. emit (workload_ref ns wl) dst ports s)
              (emit_to as_selector emit mark_dst mark_src pods nsl (workload_ref ns wl) ports)
              (λ r. refl) (λ a xs r. refl) (λ dst s. emitted (workload_ref ns wl) dst ports s) dsts
              s)
          wls s

    walk_ingress-IsAdded :
        (ns : Text) (sel_pods : List Pod) (wls : List Text) (rules : List PolicyRule) (s : S)
        → IsAdded IsIn
            ((rule : PolicyRule) × Has rule rules
              × ((wl : Text) × Has wl wls
                  × ((src : Text) × Has src (rule_refs as_selector rule ns pods nsl)
                      × Emitted src (workload_ref ns wl) (port_strings rule.ports sel_pods))))
            s
            (walk_ingress as_selector emit mark_dst mark_src pods nsl ns sel_pods wls rules s)
    unfolding walk_ingress
    walk_ingress-IsAdded ns sel_pods wls rules s =
        loop-IsAdded IsIn
          (λ rule.
            (wl : Text) × Has wl wls
            × ((src : Text) × Has src (rule_refs as_selector rule ns pods nsl)
                × Emitted src (workload_ref ns wl) (port_strings rule.ports sel_pods)))
          (λ rule s.
            ingress_edges as_selector emit mark_dst mark_src pods nsl ns
              (rule_refs as_selector rule ns pods nsl) (port_strings rule.ports sel_pods) wls s)
          (walk_ingress as_selector emit mark_dst mark_src pods nsl ns sel_pods wls) (λ r. refl)
          (λ a xs r. refl)
          (λ rule s.
            ingress_edges-IsAdded ns (rule_refs as_selector rule ns pods nsl)
              (port_strings rule.ports sel_pods) wls s)
          rules s

    walk_egress-IsAdded :
        (ns : Text) (wls : List Text) (rules : List PolicyRule) (s : S)
        → IsAdded IsIn
            ((rule : PolicyRule) × Has rule rules
              × ((wl : Text) × Has wl wls
                  × ((dst : Text) × Has dst (rule_refs as_selector rule ns pods nsl)
                      × Emitted (workload_ref ns wl) dst (
                          port_strings rule.ports
                            (peers_pods as_selector rule.peers ns pods nsl)))))
            s
            (walk_egress as_selector emit mark_dst mark_src pods nsl ns wls rules s)
    unfolding walk_egress
    walk_egress-IsAdded ns wls rules s =
        loop-IsAdded IsIn
          (λ rule.
            (wl : Text) × Has wl wls
            × ((dst : Text) × Has dst (rule_refs as_selector rule ns pods nsl)
                × Emitted (workload_ref ns wl) dst
                    (port_strings rule.ports (peers_pods as_selector rule.peers ns pods nsl))))
          (λ rule s.
            egress_edges as_selector emit mark_dst mark_src pods nsl ns
              (rule_refs as_selector rule ns pods nsl)
              (port_strings rule.ports (peers_pods as_selector rule.peers ns pods nsl)) wls s)
          (walk_egress as_selector emit mark_dst mark_src pods nsl ns wls) (λ r. refl)
          (λ a xs r. refl)
          (λ rule s.
            egress_edges-IsAdded ns (rule_refs as_selector rule ns pods nsl)
              (port_strings rule.ports (peers_pods as_selector rule.peers ns pods nsl)) wls s)
          rules s

    when-IsAdded :
        (b : Bool) {Reason : Type 0} (r q : S)
        → IsAdded IsIn Reason r q
        → IsAdded IsIn ((b ≡ true) × Reason) r (if b then q else r)
    when-IsAdded true r q h = IsAdded-as IsIn r q (λ p. (refl, p)) (λ p. p.1) h
    when-IsAdded false r q h = nothing-IsAdded IsIn r (λ p. ground (arith, p.0))

    abbrev walked : NetworkPolicy → Option Selector → S → S
    walked np o s = walk_selected as_selector emit mark_dst mark_src pods nsl np o s

    walk_both-IsAdded :
        (np : NetworkPolicy) (sel_pods : List Pod) (s : S)
        → IsAdded IsIn
            (((policy_has_ingress np ≡ true)
                × IngressReason as_selector pods nsl Emitted MarkedDst MarkedSrc np sel_pods)
              ⊎ ((policy_has_egress np ≡ true)
                  × EgressReason as_selector pods nsl Emitted MarkedDst MarkedSrc np sel_pods))
            s
            (walk_both as_selector emit mark_dst mark_src pods nsl np sel_pods
              (workload_set sel_pods)
              s)
    walk_both-IsAdded np sel_pods s =
        let wls = workload_set sel_pods in
        let ns = np.namespace in
        let m = mark_all as_selector emit mark_dst mark_src pods nsl mark_dst ns wls s in
        let q =
          walk_ingress as_selector emit mark_dst mark_src pods nsl ns sel_pods wls np.ingress m in
        let t = if policy_has_ingress np then q else s in
        let n = mark_all as_selector emit mark_dst mark_src pods nsl mark_src ns wls t in
        let u = walk_egress as_selector emit mark_dst mark_src pods nsl ns wls np.egress n in
        IsAdded-then IsIn s t (if policy_has_egress np then u else t)
          (when-IsAdded (policy_has_ingress np) s q (
            IsAdded-then IsIn s m q (mark_all-IsAdded MarkedDst mark_dst dst_marked ns wls s)
              (walk_ingress-IsAdded ns sel_pods wls np.ingress m)))
          (when-IsAdded (policy_has_egress np) t u (
            IsAdded-then IsIn t n u (mark_all-IsAdded MarkedSrc mark_src src_marked ns wls t)
              (walk_egress-IsAdded ns wls np.egress n)))

    -- Without workloads there is no reason.
    no_reason :
        (np : NetworkPolicy) (sel_pods : List Pod)
        → workload_set sel_pods ≡ []
        → ((policy_has_ingress np ≡ true)
            × IngressReason as_selector pods nsl Emitted MarkedDst MarkedSrc np sel_pods)
          ⊎ ((policy_has_egress np ≡ true)
              × EgressReason as_selector pods nsl Emitted MarkedDst MarkedSrc np sel_pods)
        → ⊥
    no_reason np sel_pods e (inl (_, inl (wl, m, _))) = elim (rw e at m) [ ]
    no_reason np sel_pods e (inl (_, inr (_, _, (wl, m, _)))) = elim (rw e at m) [ ]
    no_reason np sel_pods e (inr (_, inl (wl, m, _))) = elim (rw e at m) [ ]
    no_reason np sel_pods e (inr (_, inr (_, _, (wl, m, _)))) = elim (rw e at m) [ ]

    walk_some-IsAdded :
        (np : NetworkPolicy) (sel_pods : List Pod) (wls : List Text) (s : S)
        → workload_set sel_pods ≡ wls
        → IsAdded IsIn
            (((policy_has_ingress np ≡ true)
                × IngressReason as_selector pods nsl Emitted MarkedDst MarkedSrc np sel_pods)
              ⊎ ((policy_has_egress np ≡ true)
                  × EgressReason as_selector pods nsl Emitted MarkedDst MarkedSrc np sel_pods))
            s
            (if is_nil wls
              then s
              else walk_both as_selector emit mark_dst mark_src pods nsl np sel_pods
                  (workload_set sel_pods)
                  s)
    walk_some-IsAdded np sel_pods [] s e = nothing-IsAdded IsIn s (no_reason np sel_pods e)
    walk_some-IsAdded np sel_pods (wl ∷ wls) s e = walk_both-IsAdded np sel_pods s

    walk_selected-IsAdded :
        (np : NetworkPolicy) (o : Option Selector) (s : S)
        → IsAdded IsIn
            ((sel : Selector) × (o ≡ some sel)
              × SelectedReason as_selector pods nsl Emitted MarkedDst MarkedSrc np sel)
            s
            (walked np o s)
    walk_selected-IsAdded np none s =
        nothing-IsAdded IsIn s (λ h. let (sel, e, _) = h in absurd (ground (arith, e)))
    walk_selected-IsAdded np (some sel) s =
        let sel_pods = pods_matching pods np.namespace sel in
        IsAdded-as IsIn s (walked np (some sel) s) (λ p. (sel, refl, p))
          (λ h.
            let (sel', e, p) = h in
            let same : sel' ≡ sel = ground (arith, e) in
            subst (SelectedReason as_selector pods nsl Emitted MarkedDst MarkedSrc np) same p)
          (walk_some-IsAdded np sel_pods (workload_set sel_pods) s refl)

    pub walk_policies-IsAdded :
        (nps : List NetworkPolicy) (s : S)
        → IsAdded IsIn
            ((np : NetworkPolicy) × Has np nps
              × PolicyReason as_selector pods nsl Emitted MarkedDst MarkedSrc np)
            s
            (walk_policies as_selector emit mark_dst mark_src pods nsl nps s)
    unfolding walk_policies
    walk_policies-IsAdded nps s =
        loop-IsAdded IsIn (PolicyReason as_selector pods nsl Emitted MarkedDst MarkedSrc)
          (λ np s. walked np (as_selector np.pod_selector) s)
          (walk_policies as_selector emit mark_dst mark_src pods nsl) (λ r. refl) (λ a xs r. refl)
          (λ np s. walk_selected-IsAdded np (as_selector np.pod_selector) s) nps s
