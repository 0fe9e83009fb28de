-- ===== src/Edges/Peers.antt =====
-- controllers/edge_producer.go: the pods that a peer of a rule stands for, and their refs.
use moat_operator.Base.{
  true, false, Option, none, some, List, [], ◌∷◌, Text, Map, ◌≡◌, refl, sym, ap, subst, ◌⊎◌, ◌↔◌,
  inl, inr, arith, Has, Has-append, Has-append_left, Has-append_right, Bool-cases, eq_iff, ◌>>=◌,
}
use moat_operator.Kube.Pods.{Pod}
use moat_operator.Kube.Policies.{LabelSelector, Peer}
use moat_operator.Edges.{
  Selector, is_matching, pods_matching, matching_namespaces, pods_in, peer_namespaces,
  peer_selector, selected_pods, peer_pods,
}

pods_matching_iff :
    (pods : List Pod) (ns : Text) (sel : Selector) (p : Pod)
    → Has p (pods_matching pods ns sel) ↔ (Has p pods × (is_matching ns sel p ≡ true))
unfolding pods_matching
pods_matching_iff [] ns sel p = (λ h. elim h [ ], λ h. let (z, _) = h in elim z [ ])
pods_matching_iff (q ∷ pods) ns sel p =
    let (f, g) = pods_matching_iff pods ns sel p in
    elim (Bool-cases (is_matching ns sel q)) [
      | inl e ↦ rw e (
        λ h. elim h [
          | inl s ↦ (inl s, subst (λ x. is_matching ns sel x ≡ true) (sym s) e)
          | inr k ↦ (inr (f k).0, (f k).1)
        ],
        λ h. elim h.0 [ inl s ↦ inl s | inr k ↦ inr (g (k, h.1)) ],
      )
      | inr e ↦ rw e (
        λ h. (inr (f h).0, (f h).1),
        λ h. elim h.0 [
          | inl s ↦ absurd (ground (arith, e, subst (λ x. is_matching ns sel x ≡ true) s h.1))
          | inr k ↦ g (k, h.1)
        ],
      )
    ]

pods_in_iff :
    (pods : List Pod) (nss : List Text) (sel : Selector) (p : Pod)
    → Has p (pods_in pods nss sel)
      ↔ (Has p pods × ((ns : Text) × Has ns nss × (is_matching ns sel p ≡ true)))
unfolding pods_in
pods_in_iff pods [] sel p = (λ h. elim h [ ], λ h. let (_, (ns, z, _)) = h in elim z [ ])
pods_in_iff pods (ns ∷ nss) sel p =
    let (f, g) = pods_in_iff pods nss sel p in
    let (f₁, g₁) = pods_matching_iff pods ns sel p in
    (
      λ h. elim (Has-append p (pods_matching pods ns sel) (pods_in pods nss sel) h) [
        | inl k ↦ ((f₁ k).0, (ns, inl refl, (f₁ k).1))
        | inr k ↦ let (m, (n, j, e)) = f k in (m, (n, inr j, e))
      ],
      λ h.
          let (m, (n, j, e)) = h in
          elim j [
            | inl q ↦
                Has-append_left p (pods_matching pods ns sel) (pods_in pods nss sel)
                  (g₁ (m, subst (λ x. is_matching x sel p ≡ true) q e))
            | inr k ↦
                Has-append_right p (pods_matching pods ns sel) (pods_in pods nss sel)
                  (g (m, (n, k, e)))
          ],
    )

matching_namespaces_iff :
    (sel : Selector) (nsl : Map (Map Text)) (ns : Text)
    → Has ns (matching_namespaces sel nsl)
      ↔ ((lbls : Map Text) × Has (ns, lbls) nsl × (sel lbls ≡ true))
unfolding matching_namespaces
matching_namespaces_iff sel [] ns = (λ h. elim h [ ], λ h. let (_, z, _) = h in elim z [ ])
matching_namespaces_iff sel ((n, ls) ∷ nsl) ns =
    let (f, g) = matching_namespaces_iff sel nsl ns in
    elim (Bool-cases (sel ls)) [
      | inl e ↦ rw e (
        λ h. elim h [
          | inl s ↦ (ls, inl (ap (λ x. (x, ls)) s), e)
          | inr k ↦ let (l, m, t) = f k in (l, inr m, t)
        ],
        λ h.
            let (l, m, t) = h in
            elim m [ inl s ↦ inl (ap (λ x. x.0) s) | inr k ↦ inr (g (l, k, t)) ],
      )
      | inr e ↦ rw e (
        λ h. let (l, m, t) = f h in (l, inr m, t),
        λ h.
            let (l, m, t) = h in
            elim m [
              | inl s ↦ absurd (ground (arith, e, subst (λ x. sel x ≡ true) (ap (λ x. x.1) s) t))
              | inr k ↦ g (l, k, t)
            ],
      )
    ]

is_matching_iff :
    (ns : Text) (sel : Selector) (p : Pod)
    → (is_matching ns sel p ≡ true)
      ↔ ((p.namespace ≡ ns) × (p.host_network ≡ false) × (sel p.labels ≡ true))
is_matching_iff ns sel p = (
  λ h. (ground (arith, h, eq_iff p.namespace ns), ground (arith, h), ground (arith, h)),
  λ h. let (e, n, t) = h in ground (arith, eq_iff p.namespace ns),
)

module _ (as_selector : LabelSelector → Option Selector) (pods : List Pod)
    (nsl : Map (Map Text)) where
  -- The compiled selector has a property.
  abbrev pub IsCompiled : Option LabelSelector → (Selector → Type 0) → Type 0
  IsCompiled o IsOf =
      (ls : LabelSelector) × (o ≡ some ls)
      × ((sel : Selector) × (as_selector ls ≡ some sel) × IsOf sel)

  -- Without a namespace selector the pod is in the policy's namespace, and with one in a
  -- namespace whose labels it admits.
  abbrev pub IsInScope : Option LabelSelector → Text → Text → Type 0
  IsInScope o policy_ns ns =
      ((o ≡ none) × (ns ≡ policy_ns))
      ⊎ IsCompiled o (λ sel. (lbls : Map Text) × Has (ns, lbls) nsl × (sel lbls ≡ true))

  abbrev pub IsAdmitted : Option LabelSelector → Map Text → Type 0
  IsAdmitted o lbls = (o ≡ none) ⊎ IsCompiled o (λ sel. sel lbls ≡ true)

  abbrev pub IsPeerPod : Peer → Text → Pod → Type 0
  IsPeerPod peer policy_ns p =
      (peer.ip_block ≡ false)
      × Has p pods
      × (p.host_network ≡ false)
      × IsInScope peer.namespace_selector policy_ns p.namespace
      × IsAdmitted peer.pod_selector p.labels

  abbrev IsOneOf : Text → Option (List Text) → Type 0
  IsOneOf ns none = ⊥
  IsOneOf ns (some nss) = Has ns nss

  abbrev Passes : Map Text → Option Selector → Type 0
  Passes lbls none = ⊥
  Passes lbls (some sel) = sel lbls ≡ true

  selected_pods_iff :
      (nss : Option (List Text)) (sel : Option Selector) (p : Pod)
      → Has p (selected_pods as_selector pods nss sel)
        ↔ (Has p pods × (p.host_network ≡ false) × IsOneOf p.namespace nss × Passes p.labels sel)
  selected_pods_iff none sel p = (λ h. elim h [ ], λ h. let (_, _, z, _) = h in elim z [ ])
  selected_pods_iff (some nss) none p = (λ h. elim h [ ], λ h. let (_, _, _, z) = h in elim z [ ])
  selected_pods_iff (some nss) (some sel) p =
      let (f, g) = pods_in_iff pods nss sel p in
      (
        λ h.
            let (m, (ns, k, t)) = f h in
            let (e, n, u) = (is_matching_iff ns sel p).0 t in
            (m, n, subst (λ x. Has x nss) (sym e) k, u),
        λ h.
            let (m, n, k, u) = h in
            g (m, (p.namespace, k, (is_matching_iff p.namespace sel p).1 (refl, n, u))),
      )

  compiled_iff :
      (IsOf : Selector → Type 0) (Out : Option Selector → Type 0) (ls : LabelSelector)
      → (Out none → ⊥)
      → ((sel : Selector) → Out (some sel) ↔ IsOf sel)
      → Out (as_selector ls) ↔ IsCompiled (some ls) IsOf
  compiled_iff IsOf Out ls never at = (
    λ h. (ls, refl, compiled (as_selector ls) h),
    λ h.
        let (ls', e, (sel, q, u)) = h in
        let same : ls' ≡ ls = ground (arith, e) in
        subst Out (sym (subst (λ x. as_selector x ≡ some sel) same q)) ((at sel).1 u),
  )
    where
      compiled : (o : Option Selector) → Out o → (sel : Selector) × (o ≡ some sel) × IsOf sel
      compiled none h = absurd (never h)
      compiled (some sel) h = (sel, refl, (at sel).0 h)

  no_compiled : {IsOf : Selector → Type 0} → IsCompiled none IsOf → ⊥
  no_compiled (ls, e, _) = ground (arith, e)

  peer_namespaces_iff :
      (o : Option LabelSelector) (policy_ns ns : Text)
      → IsOneOf ns (peer_namespaces as_selector o policy_ns nsl) ↔ IsInScope o policy_ns ns
  peer_namespaces_iff none policy_ns ns = (
    λ h. elim h [ inl e ↦ inl (refl, e) | inr z ↦ elim z [ ] ],
    λ h. elim h [ inl p ↦ inl p.1 | inr c ↦ absurd (no_compiled c) ],
  )
  peer_namespaces_iff (some ls) policy_ns ns =
      let (f, g) =
        compiled_iff (λ sel. (lbls : Map Text) × Has (ns, lbls) nsl × (sel lbls ≡ true))
          (λ o. IsOneOf ns (o >>= λ sel. some (matching_namespaces sel nsl))) ls (λ z. z)
          (λ sel. matching_namespaces_iff sel nsl ns) in
      (λ h. inr (f h), λ h. elim h [ inl p ↦ absurd (ground (arith, p.0)) | inr c ↦ g c ])

  peer_selector_iff :
      (o : Option LabelSelector) (lbls : Map Text)
      → Passes lbls (peer_selector as_selector o) ↔ IsAdmitted o lbls
  peer_selector_iff none lbls = (λ h. inl refl, λ h. refl)
  peer_selector_iff (some ls) lbls =
      let (f, g) =
        compiled_iff (λ sel. sel lbls ≡ true) (Passes lbls) ls (λ z. z) (λ sel. (λ h. h, λ h. h)) in
      (λ h. inr (f h), λ h. elim h [ inl e ↦ absurd (ground (arith, e)) | inr c ↦ g c ])

  -- A peer stands for the pods off the host's network that are in its scope of namespaces and
  -- whose labels its pod selector admits; one with an ipBlock, or with a selector that does not
  -- compile, stands for none.
  pub peer_pods_iff :
      (peer : Peer) (policy_ns : Text) (p : Pod)
      → Has p (peer_pods as_selector peer policy_ns pods nsl) ↔ IsPeerPod peer policy_ns p
  unfolding peer_pods
  peer_pods_iff peer policy_ns p =
      let (f, g) =
        selected_pods_iff (peer_namespaces as_selector peer.namespace_selector policy_ns nsl)
          (peer_selector as_selector peer.pod_selector) p in
      let (nf, ng) = peer_namespaces_iff peer.namespace_selector policy_ns p.namespace in
      let (sf, sg) = peer_selector_iff peer.pod_selector p.labels in
      elim (Bool-cases peer.ip_block) [
        | inl e ↦ rw e (λ h. elim h [ ], λ h. ground (arith, h.0))
        | inr e ↦ rw e (
          λ h. let (m, n, k, u) = f h in (refl, m, n, nf k, sf u),
          λ h. let (_, m, n, k, u) = h in g (m, n, ng k, sg u),
        )
      ]
