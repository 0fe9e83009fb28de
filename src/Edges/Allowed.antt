-- ===== src/Edges/Allowed.antt =====
-- controllers/edge_producer.go: the lines that `computeEdgeLines` returns.
use moat_operator.Base.{
  Bool, true, Option, some, List, [], ◌++◌, Text, codes, Map, ◌≡◌, refl, sym, subst, ◌⊎◌, ◌↔◌, inl,
  inr, Has, Has-append, Has-append_left, Has-append_right, Has-map, Has-of_map, Has-sort, sort-Has,
  IsAdded, add_all_iff, add_once_iff, map,
}
use moat_operator.Kube.Pods.{Pod}
use moat_operator.Kube.Policies.{LabelSelector, PolicyRule, NetworkPolicy, Namespace}
use moat_operator.Edges.{
  Selector, port_strings, pods_matching, workload_set, workload_ref, policy_has_egress,
  policy_has_ingress, ns_labels, peers_pods, rule_refs,
}
use moat_operator.Edges.Walk.{walk_policy_edges}
use moat_operator.Edges.Reasons.{PolicyReason}
use moat_operator.Edges.Declared.{walk_policies-IsAdded}
use moat_operator.Edges.Lines.{
  EdgeSets, edge_line, emit_edges, mark_dst, mark_src, edge_sets, compute_edge_lines,
}

module _ (as_selector : LabelSelector → Option Selector) (nps : List NetworkPolicy)
    (pods : List Pod) (namespaces : List Namespace) where
  abbrev nsl : Map (Map Text)
  nsl = ns_labels namespaces []

  -- A policy whose pod selector compiles, with the pods that it selects.
  abbrev pub IsPolicyWith : (NetworkPolicy → List Pod → Type 0) → Type 0
  IsPolicyWith IsOf =
      (np : NetworkPolicy) × Has np nps
      × ((sel : Selector) × (as_selector np.pod_selector ≡ some sel)
          × IsOf np (pods_matching pods np.namespace sel))

  -- The workload is one of a policy that has ingress, or egress.
  abbrev pub IsGoverned : (NetworkPolicy → Bool) → Text → Type 0
  IsGoverned has ref = IsPolicyWith (λ np sel_pods.
      (has np ≡ true)
      × ((wl : Text) × Has wl (workload_set sel_pods) × (ref ≡ workload_ref np.namespace wl)))

  -- An ingress rule of the policy, a workload that it selects, a peer and a port make the line.
  abbrev pub IsIngressLine : Text → NetworkPolicy → List Pod → Type 0
  IsIngressLine l np sel_pods =
      (policy_has_ingress np ≡ true)
      × ((rule : PolicyRule) × Has rule np.ingress
          × ((wl : Text) × Has wl (workload_set sel_pods)
              × ((src : Text) × Has src (rule_refs as_selector rule np.namespace pods nsl)
                  × ((port : Text) × Has port (port_strings rule.ports sel_pods)
                      × (l ≡ edge_line src (workload_ref np.namespace wl) port)))))

  abbrev pub IsEgressLine : Text → NetworkPolicy → List Pod → Type 0
  IsEgressLine l np sel_pods =
      (policy_has_egress np ≡ true)
      × ((rule : PolicyRule) × Has rule np.egress
          × ((wl : Text) × Has wl (workload_set sel_pods)
              × ((dst : Text) × Has dst (rule_refs as_selector rule np.namespace pods nsl)
                  × ((port : Text) × Has port (
                        port_strings rule.ports
                          (peers_pods as_selector rule.peers np.namespace pods nsl))
                      × (l ≡ edge_line (workload_ref np.namespace wl) dst port)))))

  abbrev pub IsEdgeLine : Text → Type 0
  IsEdgeLine l =
      IsPolicyWith (λ np sel_pods. IsIngressLine l np sel_pods ⊎ IsEgressLine l np sel_pods)

  abbrev NoMark : Text → Type 0
  NoMark ref = ⊥

  abbrev IsLineOf : Text → Text → Text → List Text → Type 0
  IsLineOf l src dst ports = (port : Text) × Has port ports × (l ≡ edge_line src dst port)

  same_marks :
      (IsIn : EdgeSets → Type 0) (mark : Text → EdgeSets → EdgeSets)
      → ((ref : Text) (s : EdgeSets) → IsIn (mark ref s) ≡ IsIn s)
      → (ref : Text) (s : EdgeSets) → IsAdded IsIn (NoMark ref) s (mark ref s)
  same_marks IsIn mark same ref s =
      rw (same ref s) (λ h. inr h, λ h. elim h [ inl z ↦ elim z [ ] | inr k ↦ k ])

  emit_edges-IsAdded :
      (l src dst : Text) (ports : List Text) (s : EdgeSets)
      → IsAdded (λ s. Has l s.edges) (IsLineOf l src dst ports) s (emit_edges src dst ports s)
  emit_edges-IsAdded l src dst ports s =
      let (f, g) = add_all_iff (map (edge_line src dst) ports) l s.edges in
      (
        λ h. elim (f h) [ inl k ↦ inl (Has-of_map (edge_line src dst) l ports k) | inr k ↦ inr k ],
        λ h. elim h [
          | inl (port, m, e) ↦ g (
              inl (
                subst (λ x. Has x (map (edge_line src dst) ports)) (sym e)
                  (Has-map (edge_line src dst) port ports m)))
          | inr k ↦ g (inr k)
        ],
      )

  edge_of_reason :
      (l : Text)
      → (np : NetworkPolicy) × Has np nps
        × PolicyReason as_selector pods nsl (IsLineOf l) NoMark NoMark np
      → IsEdgeLine l
  edge_of_reason l (np, m, (sel, e, inl (b, inl (wl, _, z)))) = elim z [ ]
  edge_of_reason l (np, m, (sel, e, inl (b, inr r))) = (np, m, (sel, e, inl (b, r)))
  edge_of_reason l (np, m, (sel, e, inr (b, inl (wl, _, z)))) = elim z [ ]
  edge_of_reason l (np, m, (sel, e, inr (b, inr r))) = (np, m, (sel, e, inr (b, r)))

  reason_of_edge :
      (l : Text)
      → IsEdgeLine l
      → (np : NetworkPolicy) × Has np nps
        × PolicyReason as_selector pods nsl (IsLineOf l) NoMark NoMark np
  reason_of_edge l (np, m, (sel, e, inl (b, r))) = (np, m, (sel, e, inl (b, inr r)))
  reason_of_edge l (np, m, (sel, e, inr (b, r))) = (np, m, (sel, e, inr (b, inr r)))

  empty_sets : EdgeSets
  empty_sets = record { edges = []; governed_dst = []; governed_src = [] }

  edges_iff : (l : Text) → Has l (edge_sets as_selector nps pods namespaces).edges ↔ IsEdgeLine l
  unfolding edge_sets walk_policy_edges empty_sets
  edges_iff l =
      let IsIn : EdgeSets → Type 0 = λ s. Has l s.edges in
      let (f, g) =
        walk_policies-IsAdded as_selector pods nsl (IsLineOf l) NoMark NoMark IsIn emit_edges
          mark_dst mark_src (emit_edges-IsAdded l) (same_marks IsIn mark_dst (λ ref s. refl))
          (same_marks IsIn mark_src (λ ref s. refl)) nps empty_sets in
      (
        λ h. elim (f h) [ inl r ↦ edge_of_reason l r | inr z ↦ elim z [ ] ],
        λ h. g (inl (reason_of_edge l h)),
      )

  abbrev NoEdge : Text → Text → List Text → Type 0
  NoEdge src dst ports = ⊥

  same_emits :
      (IsIn : EdgeSets → Type 0)
      → ((src dst : Text) (ports : List Text) (s : EdgeSets)
          → IsIn (emit_edges src dst ports s) ≡ IsIn s)
      → (src dst : Text) (ports : List Text) (s : EdgeSets)
      → IsAdded IsIn (NoEdge src dst ports) s (emit_edges src dst ports s)
  same_emits IsIn same src dst ports s =
      rw (same src dst ports s) (λ h. inr h, λ h. elim h [ inl z ↦ elim z [ ] | inr k ↦ k ])

  dst_of_reason :
      (ref : Text)
      → (np : NetworkPolicy) × Has np nps
        × PolicyReason as_selector pods nsl NoEdge (λ r. ref ≡ r) NoMark np
      → IsGoverned policy_has_ingress ref
  dst_of_reason ref (np, m, (sel, e, inl (b, inl r))) = (np, m, (sel, e, (b, r)))
  dst_of_reason ref (np, m, (sel, e, inl (b, inr (_, _, (_, _, (_, _, z)))))) = elim z [ ]
  dst_of_reason ref (np, m, (sel, e, inr (b, inl (_, _, z)))) = elim z [ ]
  dst_of_reason ref (np, m, (sel, e, inr (b, inr (_, _, (_, _, (_, _, z)))))) = elim z [ ]

  src_of_reason :
      (ref : Text)
      → (np : NetworkPolicy) × Has np nps
        × PolicyReason as_selector pods nsl NoEdge NoMark (λ r. ref ≡ r) np
      → IsGoverned policy_has_egress ref
  src_of_reason ref (np, m, (sel, e, inr (b, inl r))) = (np, m, (sel, e, (b, r)))
  src_of_reason ref (np, m, (sel, e, inr (b, inr (_, _, (_, _, (_, _, z)))))) = elim z [ ]
  src_of_reason ref (np, m, (sel, e, inl (b, inl (_, _, z)))) = elim z [ ]
  src_of_reason ref (np, m, (sel, e, inl (b, inr (_, _, (_, _, (_, _, z)))))) = elim z [ ]

  governed_dst_iff :
      (ref : Text)
      → Has ref (edge_sets as_selector nps pods namespaces).governed_dst
        ↔ IsGoverned policy_has_ingress ref
  unfolding edge_sets walk_policy_edges empty_sets
  governed_dst_iff ref =
      let IsIn : EdgeSets → Type 0 = λ s. Has ref s.governed_dst in
      let (f, g) =
        walk_policies-IsAdded as_selector pods nsl NoEdge (λ r. ref ≡ r) NoMark IsIn emit_edges
          mark_dst mark_src (same_emits IsIn (λ src dst ports s. refl))
          (λ r s. add_once_iff r ref s.governed_dst) (same_marks IsIn mark_src (λ ref s. refl)) nps
          empty_sets in
      (
        λ h. elim (f h) [ inl r ↦ dst_of_reason ref r | inr z ↦ elim z [ ] ],
        λ h. let (np, m, (sel, e, (b, r))) = h in g (inl (np, m, (sel, e, inl (b, inl r)))),
      )

  governed_src_iff :
      (ref : Text)
      → Has ref (edge_sets as_selector nps pods namespaces).governed_src
        ↔ IsGoverned policy_has_egress ref
  unfolding edge_sets walk_policy_edges empty_sets
  governed_src_iff ref =
      let IsIn : EdgeSets → Type 0 = λ s. Has ref s.governed_src in
      let (f, g) =
        walk_policies-IsAdded as_selector pods nsl NoEdge NoMark (λ r. ref ≡ r) IsIn emit_edges
          mark_dst mark_src (same_emits IsIn (λ src dst ports s. refl))
          (same_marks IsIn mark_dst (λ ref s. refl)) (λ r s. add_once_iff r ref s.governed_src) nps
          empty_sets in
      (
        λ h. elim (f h) [ inl r ↦ src_of_reason ref r | inr z ↦ elim z [ ] ],
        λ h. let (np, m, (sel, e, (b, r))) = h in g (inl (np, m, (sel, e, inr (b, inl r)))),
      )

  Has-tagged :
      (tag : Text → Text) (IsOf : Text → Type 0) (refs : List Text)
      → ((ref : Text) → Has ref refs ↔ IsOf ref)
      → (l : Text) → Has l (map tag refs) ↔ ((ref : Text) × IsOf ref × (l ≡ tag ref))
  Has-tagged tag IsOf refs h l = (
    λ m. let (ref, k, e) = Has-of_map tag l refs m in (ref, (h ref).0 k, e),
    λ m.
        let (ref, k, e) = m in
        subst (λ x. Has x (map tag refs)) (sym e) (Has-map tag ref refs ((h ref).1 k)),
  )

  -- The lines of the allow-list are: an E line for each ingress rule of a policy with ingress and
  -- each egress rule of a policy with egress, with each workload that the policy selects, each ref
  -- of the rule's peers and each of its ports; a G line for each workload selected by a policy
  -- with ingress; and an S line for each workload selected by a policy with egress. A policy whose
  -- selector does not compile has none.
  pub compute_edge_lines_iff :
      (l : Text)
      → Has l (compute_edge_lines as_selector nps pods namespaces).0 ↔ (
          IsEdgeLine l
          ⊎ (((ref : Text) × IsGoverned policy_has_ingress ref × (l ≡ codes "G " ++ ref))
              ⊎ ((ref : Text) × IsGoverned policy_has_egress ref × (l ≡ codes "S " ++ ref))))
  unfolding compute_edge_lines
  compute_edge_lines_iff l =
      let s = edge_sets as_selector nps pods namespaces in
      let gs = map (λ (g : Text). codes "G " ++ g) s.governed_dst in
      let ss = map (λ (g : Text). codes "S " ++ g) s.governed_src in
      let (ef, eg) = edges_iff l in
      let (gf, gg) =
        Has-tagged (λ g. codes "G " ++ g) (IsGoverned policy_has_ingress) s.governed_dst
          governed_dst_iff l in
      let (sf, sg) =
        Has-tagged (λ g. codes "S " ++ g) (IsGoverned policy_has_egress) s.governed_src
          governed_src_iff l in
      (
        λ h. elim (Has-append l (s.edges ++ gs) ss (Has-sort l (s.edges ++ gs ++ ss) h)) [
          | inl k ↦ elim (Has-append l s.edges gs k) [
            | inl j ↦ inl (ef j)
            | inr j ↦ inr (inl (gf j))
          ]
          | inr k ↦ inr (inr (sf k))
        ],
        λ h. sort-Has l (s.edges ++ gs ++ ss) (elim h [
          | inl k ↦ Has-append_left l (s.edges ++ gs) ss (Has-append_left l s.edges gs (eg k))
          | inr (inl k) ↦
              Has-append_left l (s.edges ++ gs) ss (Has-append_right l s.edges gs (gg k))
          | inr (inr k) ↦ Has-append_right l (s.edges ++ gs) ss (sg k)
        ]),
      )
