-- ===== src/Edges/Refs.antt =====
-- controllers/edge_producer.go: the refs on the other side of a rule.
use moat_operator.Base.{
  Bool, true, false, Option, List, [], ◌∷◌, Text, Map, if◌then◌else◌, is_nil, ◌≡◌, refl, subst, ◌⊎◌,
  ◌↔◌, inl, inr, arith, Has, Has-append, Has-append_left, Has-append_right, add_once, add_once_iff,
  IsAdded, nothing-IsAdded, IsAdded-as, loop-IsAdded, codes,
}
use moat_operator.Kube.Pods.{Pod}
use moat_operator.Kube.Policies.{LabelSelector, Peer, PolicyRule}
use moat_operator.Identity.{workload_identity}
use moat_operator.Edges.{
  Selector, add_refs, workload_ref, peer_pods, peer_workload_refs, peers_refs, rule_refs, anyone,
}
use moat_operator.Edges.Peers.{IsPeerPod, peer_pods_iff}

module _ (as_selector : LabelSelector → Option Selector) (pods : List Pod)
    (nsl : Map (Map Text)) where
  -- The ref of a pod that has a workload.
  abbrev pub IsRefOf : Text → Pod → Type 0
  IsRefOf ref p =
      (is_nil (workload_identity p).0 ≡ false)
      × (ref ≡ workload_ref p.namespace (workload_identity p).0)

  add_refs_iff :
      (ps : List Pod) (ref : Text) (out : List Text)
      → IsAdded (λ s. Has ref s) ((p : Pod) × Has p ps × IsRefOf ref p) out (add_refs ps out)
  unfolding add_refs
  add_refs_iff ps ref out =
      loop-IsAdded (λ s. Has ref s) (IsRefOf ref)
        (λ p s.
          let wl = (workload_identity p).0 in
          if is_nil wl then s else add_once (workload_ref p.namespace wl) s)
        add_refs (λ r. refl) (λ p ps r. refl) (λ p s. one p s (is_nil (workload_identity p).0) refl)
        ps out
    where
      one :
          (p : Pod) (s : List Text) (b : Bool)
          → is_nil (workload_identity p).0 ≡ b
          → IsAdded
              (λ s. Has ref s)
              (IsRefOf ref p)
              s
              (if b then s else add_once (workload_ref p.namespace (workload_identity p).0) s)
      one p s true e = nothing-IsAdded (λ s. Has ref s) s (λ h. ground (arith, e, h.0))
      one p s false e =
          IsAdded-as (λ s. Has ref s) s
            (add_once (workload_ref p.namespace (workload_identity p).0) s) (λ q. (e, q)) (λ q. q.1)
            (add_once_iff (workload_ref p.namespace (workload_identity p).0) ref s)

  peers_refs_iff :
      (peers : List Peer) (policy_ns ref : Text)
      → Has ref (peers_refs as_selector peers policy_ns pods nsl) ↔ (
          (peer : Peer) × Has peer peers
          × ((p : Pod) × IsPeerPod as_selector pods nsl peer policy_ns p × IsRefOf ref p))
  unfolding peers_refs peer_workload_refs
  peers_refs_iff [] policy_ns ref = (λ h. elim h [ ], λ h. let (_, z, _) = h in elim z [ ])
  peers_refs_iff (peer ∷ peers) policy_ns ref =
      let (f, g) = peers_refs_iff peers policy_ns ref in
      let here = peer_pods as_selector peer policy_ns pods nsl in
      let there = peers_refs as_selector peers policy_ns pods nsl in
      let (f₁, g₁) = add_refs_iff here ref [] in
      (
        λ h. elim (Has-append ref (add_refs here []) there h) [
          | inl k ↦ elim (f₁ k) [
            | inl (p, m, r) ↦
                (peer, inl refl, (p, (peer_pods_iff as_selector pods nsl peer policy_ns p).0 m, r))
            | inr z ↦ elim z [ ]
          ]
          | inr k ↦ let (q, m, r) = f k in (q, inr m, r)
        ],
        λ h.
            let (q, m, (p, k, r)) = h in
            elim m [
              | inl e ↦ Has-append_left ref (add_refs here []) there (
                  g₁ (
                    inl (
                      p,
                      (peer_pods_iff as_selector pods nsl peer policy_ns p).1
                          (subst (λ x. IsPeerPod as_selector pods nsl x policy_ns p) e k),
                      r,
                    )))
              | inr j ↦ Has-append_right ref (add_refs here []) there (g (q, j, (p, k, r)))
            ],
      )

  -- The refs on the other side of a rule are "*/*" where it names no peer, and otherwise those of
  -- the workloads of the pods that its peers stand for.
  pub rule_refs_iff :
      (rule : PolicyRule) (policy_ns ref : Text)
      → Has ref (rule_refs as_selector rule policy_ns pods nsl) ↔ (
          ((rule.peers ≡ []) × (ref ≡ codes "*/*"))
          ⊎ ((peer : Peer) × Has peer rule.peers
              × ((p : Pod) × IsPeerPod as_selector pods nsl peer policy_ns p × IsRefOf ref p)))
  rule_refs_iff rule policy_ns ref = at rule.peers
    where
      at :
          (peers : List Peer)
          → Has ref
              (if is_nil peers then anyone else peers_refs as_selector peers policy_ns pods nsl)
            ↔ (((peers ≡ []) × (ref ≡ codes "*/*"))
                ⊎ ((peer : Peer) × Has peer peers
                    × ((p : Pod) × IsPeerPod as_selector pods nsl peer policy_ns p
                        × IsRefOf ref p)))
      at [] = (
        λ h. elim h [ inl e ↦ inl (refl, e) | inr z ↦ elim z [ ] ],
        λ h. elim h [ inl p ↦ inl p.1 | inr (_, z, _) ↦ elim z [ ] ],
      )
      at (peer ∷ peers) =
          let (f, g) = peers_refs_iff (peer ∷ peers) policy_ns ref in
          (λ h. inr (f h), λ h. elim h [ inl p ↦ absurd (ground (arith, p.0)) | inr r ↦ g r ])
