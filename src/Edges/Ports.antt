-- ===== src/Edges/Ports.antt =====
-- controllers/edge_producer.go: the ports of a rule.
use moat_operator.Base.{
  ℕ, true, not, ◌&&◌, Option, none, some, List, [], ◌∷◌, ◌++◌, Text, codes, map, if◌then◌else◌, ◌≡◌,
  refl, sym, subst, ◌⊎◌, ◌↔◌, inl, inr, arith, Has, Has-append, Has-append_left, Has-append_right,
  Has-map, Has-of_map, Bool-cases, ◌==◌, eq_iff, eqb, add_all, add_all_iff, IsAdded,
  nothing-IsAdded, IsAdded-as, loop-IsAdded,
}
use moat_operator.Kube.Pods.{ContainerPort, Pod}
use moat_operator.Kube.Policies.{IntOrString, number, named}
use moat_operator.Routes.Quote.{decimal}
use moat_operator.Edges.{
  has_number, named_ports, named_ports_of, resolve_named_ports, resolve_named_port, numbered,
  port_texts, add_ports, port_strings,
}

has_number_iff : (n : ℕ) (ns : List ℕ) → (has_number n ns ≡ true) ↔ Has n ns
unfolding has_number
has_number_iff n [] = (λ h. absurd (ground (arith, h)), λ h. elim h [ ])
has_number_iff n (m ∷ ns) =
    let (f, g) = has_number_iff n ns in
    (
      λ h. elim (Bool-cases (eqb m n)) [
        | inl e ↦ inl (ground (arith, e))
        | inr e ↦ inr (f (ground (arith, h, e)))
      ],
      λ h. elim h [ inl e ↦ ground (arith, e) | inr k ↦ ground (arith, g k) ],
    )

-- The port has the name and the number.
abbrev pub IsNamedPort : Text → ℕ → ContainerPort → Type 0
IsNamedPort name n cp = (cp.name ≡ name) × (n ≡ cp.container_port)

module _ (name : Text) (n : ℕ) where
  abbrev IsFound : List ℕ → Type 0
  IsFound found = Has n found

  port_step : (cp : ContainerPort) → List ℕ → List ℕ
  port_step cp found =
      if (cp.name == name) && not (has_number cp.container_port found)
      then found ++ cp.container_port ∷ []
      else found

  port_step-IsAdded :
      (cp : ContainerPort) (found : List ℕ)
      → IsAdded IsFound (IsNamedPort name n cp) found (port_step cp found)
  unfolding port_step
  port_step-IsAdded cp found =
      let known = has_number_iff cp.container_port found in
      elim (Bool-cases (cp.name == name)) [
        | inr e ↦
            rw e (nothing-IsAdded IsFound found (λ h. ground (arith, e, eq_iff cp.name name, h.0)))
        | inl e ↦ elim (Bool-cases (has_number cp.container_port found)) [
          | inl k ↦
              rw (e, k)
                (
                  λ h. inr h,
                  λ h. elim h [
                    | inl (_, q) ↦ subst (λ m. Has m found) (sym q) (known.0 k)
                    | inr j ↦ j
                  ],
                )
          | inr k ↦
              rw (e, k)
                (
                  λ h. elim (Has-append n found (cp.container_port ∷ []) h) [
                    | inl j ↦ inr j
                    | inr j ↦ elim j [
                      | inl q ↦ inl ((eq_iff cp.name name).0 e, q)
                      | inr z ↦ elim z [ ]
                    ]
                  ],
                  λ h. elim h [
                    | inl w ↦ Has-append_right n found (cp.container_port ∷ []) (inl w.1)
                    | inr j ↦ Has-append_left n found (cp.container_port ∷ []) j
                  ],
                )
        ]
      ]

  -- A container of the pod has the port.
  abbrev pub IsPodPort : Pod → Type 0
  IsPodPort p =
      (c : List ContainerPort) × Has c p.container_ports
      × ((cp : ContainerPort) × Has cp c × IsNamedPort name n cp)

  resolve_named_ports-IsAdded :
      (pods : List Pod) (found : List ℕ)
      → IsAdded IsFound
          ((p : Pod) × Has p pods × IsPodPort p)
          found
          (resolve_named_ports name pods found)
  unfolding resolve_named_ports named_ports_of named_ports port_step
  resolve_named_ports-IsAdded pods found =
      loop-IsAdded IsFound IsPodPort (λ p s. named_ports_of name p.container_ports s)
        (resolve_named_ports name) (λ r. refl) (λ p ps r. refl)
        (λ p s.
          loop-IsAdded IsFound (λ c. (cp : ContainerPort) × Has cp c × IsNamedPort name n cp)
            (named_ports name) (named_ports_of name) (λ r. refl) (λ c cs r. refl)
            (λ c s.
              loop-IsAdded IsFound (IsNamedPort name n) port_step (named_ports name) (λ r. refl)
                (λ cp cps r. refl) port_step-IsAdded c s)
            p.container_ports s)
        pods found

-- The text stands for the entry of a rule: "*" where it has no port or names one that no pod has.
abbrev pub IsPortOf : List Pod → Text → Option IntOrString → Type 0
IsPortOf pods t none = t ≡ codes "*"
IsPortOf pods t (some (number n)) = t ≡ decimal n
IsPortOf pods t (some (named name)) =
    ((n : ℕ) × ((p : Pod) × Has p pods × IsPodPort name n p) × (t ≡ decimal n))
    ⊎ (((n : ℕ) (p : Pod) → Has p pods → IsPodPort name n p → ⊥) × (t ≡ codes "*"))

resolve_named_port_iff :
    (pods : List Pod) (name : Text) (n : ℕ)
    → Has n (resolve_named_port pods name) ↔ ((p : Pod) × Has p pods × IsPodPort name n p)
resolve_named_port_iff pods name n =
    let (f, g) = resolve_named_ports-IsAdded name n pods [] in
    (λ h. elim (f h) [ inl r ↦ r | inr z ↦ elim z [ ] ], λ h. g (inl h))

numbered_iff :
    (pods : List Pod) (name t : Text) (nums : List ℕ)
    → ((n : ℕ) → Has n nums ↔ ((p : Pod) × Has p pods × IsPodPort name n p))
    → Has t (numbered nums) ↔ IsPortOf pods t (some (named name))
numbered_iff pods name t [] iff = (
  λ h. elim h [ inl e ↦ inr (λ n p m w. (iff n).1 (p, m, w), e) | inr z ↦ elim z [ ] ],
  λ h. elim h [ inl r ↦ let (n, w, _) = r in elim ((iff n).1 w) [ ] | inr r ↦ inl r.1 ],
)
numbered_iff pods name t (m ∷ nums) iff = (
  λ h. let (n, k, e) = Has-of_map decimal t (m ∷ nums) h in inl (n, (iff n).0 k, e),
  λ h. elim h [
    | inl r ↦
        let (n, w, e) = r in
        subst (λ x. Has x (map decimal (m ∷ nums))) (sym e)
          (Has-map decimal n (m ∷ nums) ((iff n).1 w))
    | inr r ↦ let (p, k, w) = (iff m).0 (inl refl) in elim (r.0 m p k w) [ ]
  ],
)

single_iff : (t u : Text) → Has t (u ∷ []) ↔ (t ≡ u)
single_iff t u = (λ h. elim h [ inl e ↦ e | inr z ↦ elim z [ ] ], λ h. inl h)

port_texts_iff :
    (pods : List Pod) (t : Text) (o : Option IntOrString)
    → Has t (port_texts pods o) ↔ IsPortOf pods t o
port_texts_iff pods t none = single_iff t (codes "*")
port_texts_iff pods t (some (number n)) = single_iff t (decimal n)
port_texts_iff pods t (some (named name)) =
    numbered_iff pods name t (resolve_named_port pods name) (resolve_named_port_iff pods name)

add_ports-IsAdded :
    (pods : List Pod) (t : Text) (ports : List (Option IntOrString)) (out : List Text)
    → IsAdded
        (λ s. Has t s)
        ((o : Option IntOrString) × Has o ports × IsPortOf pods t o)
        out
        (add_ports pods ports out)
unfolding add_ports
add_ports-IsAdded pods t ports out =
    loop-IsAdded (λ s. Has t s) (IsPortOf pods t) (λ o s. add_all (port_texts pods o) s)
      (add_ports pods) (λ r. refl) (λ o os r. refl)
      (λ o s.
        IsAdded-as (λ s. Has t s) s (add_all (port_texts pods o) s) (port_texts_iff pods t o).0
          (port_texts_iff pods t o).1 (add_all_iff (port_texts pods o) t s))
      ports out

-- The ports of a rule are "*" where it lists none, and otherwise those of its entries: the number
-- of a numeric port, the numbers that the containers of the destination pods give a named port,
-- and "*" for an entry without a port or with a name that none of these pods has.
pub port_strings_iff :
    (ports : List (Option IntOrString)) (pods : List Pod) (t : Text)
    → Has t (port_strings ports pods) ↔ (
        ((ports ≡ []) × (t ≡ codes "*"))
        ⊎ ((o : Option IntOrString) × Has o ports × IsPortOf pods t o))
unfolding port_strings
port_strings_iff [] pods t = (
  λ h. inl (refl, (single_iff t (codes "*")).0 h),
  λ h. elim h [ inl p ↦ inl p.1 | inr (_, z, _) ↦ elim z [ ] ],
)
port_strings_iff (o ∷ ports) pods t =
    let (f, g) = add_ports-IsAdded pods t (o ∷ ports) [] in
    (
      λ h. elim (f h) [ inl r ↦ inr r | inr z ↦ elim z [ ] ],
      λ h. elim h [ inl p ↦ absurd (ground (arith, p.0)) | inr r ↦ g (inl r) ],
    )
