-- ===== src/Classify/Exposed.antt =====
-- controllers/classify.go: the members of the set of exposed workloads.
use moat_operator.Base.{
  Bool, true, false, ◌&&◌, ◌||◌, List, [], ◌∷◌, Text, ◌==◌, if◌then◌else◌, is_nil, Has, ◌≡◌, ◌↔◌,
  refl, arith, ◌⊎◌, inl, inr, Bool-cases, subst, sym, not,
}
use moat_operator.Kube.{Service, Ingress}
use moat_operator.Kube.Pods.{Pod}
use moat_operator.Identity.{workload_identity}
use moat_operator.Classify.{
  NsSelector, selector_of, slashed, ingress_backed, is_exposing, exposing_selectors, is_selected,
  selector_matches, exposed_refs_by, internet_exposed_refs,
}

-- A Service of the list exposes the pod: it is exposing, is in the pod's namespace, and its
-- selector matches the pod's labels.
abbrev pub IsExposedBy : List Text → Pod → Service → Type 0
IsExposedBy backed p s =
    (is_exposing backed s ≡ true)
    × ((s.namespace == p.namespace) && selector_matches s.selector p.labels ≡ true)

abbrev selects : Pod → Service → Bool
selects p s = (s.namespace == p.namespace) && selector_matches s.selector p.labels

is_selected-step :
    (b : Bool) (p : Pod) (s : Service) (rest : List NsSelector)
    → is_selected p (if b then selector_of s ∷ rest else rest)
      ≡ ((b && selects p s) || is_selected p rest)
unfolding is_selected
is_selected-step true p s rest = refl
is_selected-step false p s rest = refl

is_selected_iff :
    (backed : List Text) (p : Pod) (ss : List Service)
    → (is_selected p (exposing_selectors backed ss) ≡ true)
      ↔ ((s : Service) × Has s ss × IsExposedBy backed p s)
unfolding exposing_selectors
is_selected_iff backed p [] =
    (λ h. absurd (unfold is_selected in ground arith), λ (s, h, e). elim h [ ])
is_selected_iff backed p (s ∷ ss) =
    let step = is_selected-step (is_exposing backed s) p s (exposing_selectors backed ss) in
    let (f, g) = is_selected_iff backed p ss in
    (
      λ h. elim (Bool-cases (is_exposing backed s && selects p s)) [
        | inl e ↦ (s, inl refl, (ground arith, ground arith))
        | inr n ↦ let (x, m, e) = f (ground (arith, step)) in (x, inr m, e)
      ],
      λ (x, m, (e, w)). elim m [
        | inl q ↦
            let here : IsExposedBy backed p s = subst (IsExposedBy backed p) q (e, w) in
            ground (arith, step, here)
        | inr k ↦ let rest = g (x, k, (e, w)) in ground (arith, step, rest)
      ],
    )

-- A pod of the list with a workload, one of whose Services exposes it, and that has the reference.
abbrev pub IsExposed : List Text → List Service → Text → Pod → Type 0
IsExposed backed ss ref p =
    (is_nil (workload_identity p).0 ≡ false)
    × (ref ≡ slashed p.namespace (workload_identity p).0)
    × ((s : Service) × Has s ss × IsExposedBy backed p s)

exposed_refs-cons :
    (sels : List NsSelector) (p : Pod) (ps : List Pod)
    → exposed_refs_by sels (p ∷ ps) ≡ (
        if not (is_nil (workload_identity p).0) && is_selected p sels
        then slashed p.namespace (workload_identity p).0 ∷ exposed_refs_by sels ps
        else exposed_refs_by sels ps)
unfolding exposed_refs_by
exposed_refs-cons sels p ps = ground arith

module _ (backed : List Text) (ss : List Service) (ref : Text) where
  abbrev sels : List NsSelector
  sels = exposing_selectors backed ss

  abbrev counts : Pod → Bool
  counts p = not (is_nil (workload_identity p).0) && is_selected p sels

  -- The references with and without the first pod's.
  if-Has :
      (b : Bool) (x : Text) (rest : List Text)
      → Has ref (if b then x ∷ rest else rest)
      → ((b ≡ true) × (ref ≡ x)) ⊎ Has ref rest
  if-Has true x rest (inl e) = inl (refl, e)
  if-Has true x rest (inr h) = inr h
  if-Has false x rest h = inr h

  Has-if :
      (b : Bool) (x : Text) (rest : List Text)
      → ((b ≡ true) × (ref ≡ x)) ⊎ Has ref rest
      → Has ref (if b then x ∷ rest else rest)
  Has-if true x rest (inl (e, q)) = inl q
  Has-if true x rest (inr h) = inr h
  Has-if false x rest (inl (e, q)) = absurd (ground arith)
  Has-if false x rest (inr h) = h

  IsExposed-refs-Has :
      (ps : List Pod)
      → Has ref (exposed_refs_by sels ps)
      → (p : Pod) × Has p ps × IsExposed backed ss ref p
  unfolding exposed_refs_by
  IsExposed-refs-Has [] h = elim h [ ]
  IsExposed-refs-Has (p ∷ ps) h =
      let x = slashed p.namespace (workload_identity p).0 in
      elim (if-Has (counts p) x (exposed_refs_by sels ps)
        (subst (Has ref) (exposed_refs-cons sels p ps) h)) [
          | inl (c, q) ↦
              let chosen : is_selected p sels ≡ true = ground arith in
              (p, inl refl, (ground arith, q, (is_selected_iff backed p ss).0 chosen))
          | inr k ↦ let (r, m, e) = IsExposed-refs-Has ps k in (r, inr m, e)
        ]

  Has-exposed_refs :
      (ps : List Pod) (p : Pod)
      → Has p ps
      → IsExposed backed ss ref p
      → Has ref (exposed_refs_by sels ps)
  unfolding exposed_refs_by
  Has-exposed_refs [] p h e = elim h [ ]
  Has-exposed_refs (q ∷ ps) p (inl same) e =
      let (n, r, s) = subst (IsExposed backed ss ref) same e in
      let chosen = (is_selected_iff backed q ss).1 s in
      subst (Has ref) (sym (exposed_refs-cons sels q ps)) (
        Has-if (counts q) (slashed q.namespace (workload_identity q).0) (exposed_refs_by sels ps)
          (inl (ground (arith, n, chosen), r)))
  Has-exposed_refs (q ∷ ps) p (inr h) e = subst (Has ref) (sym (exposed_refs-cons sels q ps)) (
      Has-if (counts q) (slashed q.namespace (workload_identity q).0) (exposed_refs_by sels ps)
        (inr (Has-exposed_refs ps p h e)))

-- A reference is in the set exactly when a pod of the list has it as its workload, and an exposing
-- Service of the pod's namespace has a selector that matches the pod's labels.
pub internet_exposed_refs_iff :
    (pods : List Pod) (ss : List Service) (ings : List Ingress) (ref : Text)
    → Has ref (internet_exposed_refs pods ss ings)
      ↔ ((p : Pod) × Has p pods × IsExposed (ingress_backed ings) ss ref p)
unfolding internet_exposed_refs
internet_exposed_refs_iff pods ss ings ref = (
  IsExposed-refs-Has (ingress_backed ings) ss ref pods,
  λ (p, h, e). Has-exposed_refs (ingress_backed ings) ss ref pods p h e,
)
