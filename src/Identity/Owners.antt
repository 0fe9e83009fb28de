-- ===== src/Identity/Owners.antt =====
-- controllers/identity_producer.go: which pod an IP belongs to.
use moat_operator.Base.{
  ℕ, Bool, true, false, not, ◌&&◌, Option, none, some, List, [], ◌∷◌, ◌≤◌, Text, lookup, insert,
  lookup-insert, ◌==◌, eq_iff, if◌then◌else◌, Has, ◌≡◌, refl, arith, ◌⊎◌, inl, inr, ap, sym, ◌∙◌,
  Bool-cases, subst, eq-false_of_ne, eq_refl,
}
use moat_operator.Kube.Pods.{Pod}
use moat_operator.Identity.{
  Entry, Claims, is_beaten, entry_of, started, claim_ips, is_counted, claim_pods, pod_ips_of,
}

-- A pod that is counted holds the IP.
abbrev pub IsHolder : Text → Pod → Type 0
IsHolder ip p = (is_counted p ≡ true) × Has ip (pod_ips_of p)

claimed-lookup :
    (b : Bool) (x ip : Text) (v : ℕ × Entry) (m : Claims)
    → lookup ip (if b then m else insert x v m)
      ≡ (if not b && (x == ip) then some v else lookup ip m)
claimed-lookup true x ip v m = refl
claimed-lookup false x ip v m = lookup-insert x ip v m

-- What an IP maps to after a pod that lists it has claimed it.
abbrev owner_after : Pod → Text → Option (ℕ × Entry) → Option (ℕ × Entry)
owner_after p ip before =
    if is_beaten (started p) before then before else some (started p, entry_of p ip)

owner_after_again :
    (p : Pod) (ip : Text) (o : Option (ℕ × Entry))
    → owner_after p ip (owner_after p ip o) ≡ owner_after p ip o
owner_after_again p ip none = ground arith
owner_after_again p ip (some (t, e)) = ground arith

claim_ips-other :
    (p : Pod) (ips : List Text) (m : Claims) (ip : Text)
    → (Has ip ips → ⊥)
    → lookup ip (claim_ips p ips m) ≡ lookup ip m
unfolding claim_ips
claim_ips-other p [] m ip h = refl
claim_ips-other p (x ∷ ips) m ip h =
    let b = is_beaten (started p) (lookup x m) in
    let v : ℕ × Entry = (started p, entry_of p x) in
    let ne : (x == ip) ≡ false = eq-false_of_ne x ip (λ e. h (inl (sym e))) in
    claim_ips-other p ips (if b then m else insert x v m) ip (λ k. h (inr k))
    ∙ claimed-lookup b x ip v m
    ∙ (rw ne (ground arith))

claim_one-lookup :
    (p : Pod) (x ip : Text) (m : Claims)
    → lookup ip
        (if is_beaten (started p) (lookup x m) then m else insert x (started p, entry_of p x) m)
      ≡ (if x == ip then owner_after p ip (lookup ip m) else lookup ip m)
claim_one-lookup p x ip m = elim (Bool-cases (x == ip)) [
  | inl e ↦
      let same : x ≡ ip = (eq_iff x ip).0 e in
      subst
        (λ y.
          lookup ip
            (if is_beaten (started p) (lookup y m) then m else insert y (started p, entry_of p y) m)
          ≡ (if y == ip then owner_after p ip (lookup ip m) else lookup ip m))
        (sym same)
        (claimed-lookup (is_beaten (started p) (lookup ip m)) ip ip (started p, entry_of p ip) m
          ∙ (rw (eq_refl ip) (ground arith)))
  | inr e ↦
      claimed-lookup (is_beaten (started p) (lookup x m)) x ip (started p, entry_of p x) m
      ∙ (rw e (ground arith))
]

claim_ips-either :
    (p : Pod) (ips : List Text) (m : Claims) (ip : Text)
    → (lookup ip (claim_ips p ips m) ≡ lookup ip m)
      ⊎ (lookup ip (claim_ips p ips m) ≡ owner_after p ip (lookup ip m))
unfolding claim_ips
claim_ips-either p [] m ip = inl refl
claim_ips-either p (x ∷ ips) m ip =
    let one = claim_one-lookup p x ip m in
    let again = owner_after_again p ip (lookup ip m) in
    elim (claim_ips-either p ips _ ip) [
      | inl e ↦ elim (Bool-cases (x == ip)) [
        | inl q ↦ inr (e ∙ (rw q at one))
        | inr q ↦ inl (e ∙ (rw q at one))
      ]
      | inr e ↦ elim (Bool-cases (x == ip)) [
        | inl q ↦ inr (e ∙ ap (owner_after p ip) (rw q at one) ∙ again)
        | inr q ↦ inr (e ∙ ap (owner_after p ip) (rw q at one))
      ]
    ]

claim_ips-held :
    (p : Pod) (ips : List Text) (m : Claims) (ip : Text)
    → Has ip ips
    → lookup ip (claim_ips p ips m) ≡ owner_after p ip (lookup ip m)
unfolding claim_ips
claim_ips-held p [] m ip h = elim h [ ]
claim_ips-held p (x ∷ ips) m ip (inl q) =
    let one = claim_one-lookup p x ip m in
    let same : (x == ip) ≡ true = (eq_iff x ip).1 (sym q) in
    let again = owner_after_again p ip (lookup ip m) in
    elim (claim_ips-either p ips _ ip) [
      | inl e ↦ e ∙ (rw same at one)
      | inr e ↦ e ∙ ap (owner_after p ip) (rw same at one) ∙ again
    ]
claim_ips-held p (x ∷ ips) m ip (inr h) =
    let one = claim_one-lookup p x ip m in
    let again = owner_after_again p ip (lookup ip m) in
    let rest = claim_ips-held p ips _ ip h in
    elim (Bool-cases (x == ip)) [
      | inl q ↦ rest ∙ ap (owner_after p ip) (rw q at one) ∙ again
      | inr q ↦ rest ∙ ap (owner_after p ip) (rw q at one)
    ]

Has-decided : (ip : Text) (xs : List Text) → Has ip xs ⊎ (Has ip xs → ⊥)
Has-decided ip [] = inr (λ h. h)
Has-decided ip (x ∷ xs) = elim (Bool-cases (ip == x)) [
  | inl e ↦ inl (inl ((eq_iff ip x).0 e))
  | inr n ↦ elim (Has-decided ip xs) [
    | inl h ↦ inl (inr h)
    | inr h ↦ inr (λ k. elim k [ inl e ↦ absurd (ground (arith, (eq_iff ip x).1 e)) | inr j ↦ h j ])
  ]
]

-- The IP is held, by a pod that started at the time or later.
abbrev pub IsSince : ℕ → Option (ℕ × Entry) → Type 0
IsSince st o = (t : ℕ) × (e : Entry) × (o ≡ some (t, e)) × (st ≤ t)

owner_after-IsSince :
    (p : Pod) (ip : Text) (o : Option (ℕ × Entry)) → IsSince (started p) (owner_after p ip o)
owner_after-IsSince p ip none = (started p, entry_of p ip, refl, omega arith)
owner_after-IsSince p ip (some (t, e)) = elim (Bool-cases (is_beaten (started p) (some (t, e)))) [
  | inl b ↦ rw b (t, e, refl, ground (arith))
  | inr b ↦ rw b (started p, entry_of p ip, refl, omega arith)
]

owner_after-later :
    (p : Pod) (ip : Text) (st : ℕ) (o : Option (ℕ × Entry))
    → IsSince st o
    → IsSince st (owner_after p ip o)
owner_after-later p ip st none (t, e, h, n) = absurd (ground arith)
owner_after-later p ip st (some (u, f)) (t, e, h, n) =
    elim (Bool-cases (is_beaten (started p) (some (u, f)))) [
      | inl b ↦ rw b (t, e, h, n)
      | inr b ↦ rw b (started p, entry_of p ip, refl, ground arith)
    ]

-- What one pod does to one IP.
pod_step : Pod → Claims → Claims
pod_step p m = if is_counted p then claim_ips p (pod_ips_of p) m else m

pod_step-lookup :
    (p : Pod) (m : Claims) (ip : Text)
    → (IsHolder ip p × (lookup ip (pod_step p m) ≡ owner_after p ip (lookup ip m)))
      ⊎ ((IsHolder ip p → ⊥) × (lookup ip (pod_step p m) ≡ lookup ip m))
unfolding pod_step
pod_step-lookup p m ip = elim (Bool-cases (is_counted p)) [
  | inl c ↦ elim (Has-decided ip (pod_ips_of p)) [
    | inl h ↦ inl ((c, h), rw c (claim_ips-held p (pod_ips_of p) m ip h))
    | inr n ↦ inr (λ k. n k.1, rw c (claim_ips-other p (pod_ips_of p) m ip n))
  ]
  | inr c ↦ inr (λ k. absurd (ground (arith, k.0)), rw c refl)
]

abbrev IsFrom : List Pod → Text → Option (ℕ × Entry) → Option (ℕ × Entry) → Type 0
IsFrom ps ip before o =
    (o ≡ before) ⊎ ((p : Pod) × Has p ps × IsHolder ip p × (o ≡ some (started p, entry_of p ip)))

owner_after-either :
    (p : Pod) (ip : Text) (o : Option (ℕ × Entry))
    → (owner_after p ip o ≡ o) ⊎ (owner_after p ip o ≡ some (started p, entry_of p ip))
owner_after-either p ip o = elim (Bool-cases (is_beaten (started p) o)) [
  | inl b ↦ inl (rw b refl)
  | inr b ↦ inr (rw b refl)
]

pod_step-IsFrom :
    (p : Pod) (ps : List Pod) (m : Claims) (ip : Text)
    → IsFrom (p ∷ ps) ip (lookup ip m) (lookup ip (pod_step p m))
pod_step-IsFrom p ps m ip = elim (pod_step-lookup p m ip) [
  | inl (h, e) ↦ elim (owner_after-either p ip (lookup ip m)) [
    | inl k ↦ inl (e ∙ k)
    | inr k ↦ inr (p, inl refl, h, e ∙ k)
  ]
  | inr (n, e) ↦ inl e
]

claim_pods-IsFrom :
    (ps : List Pod) (m : Claims) (ip : Text)
    → IsFrom ps ip (lookup ip m) (lookup ip (claim_pods ps m))
unfolding claim_pods pod_step
claim_pods-IsFrom [] m ip = inl refl
claim_pods-IsFrom (p ∷ ps) m ip = elim (claim_pods-IsFrom ps (pod_step p m) ip) [
  | inl e ↦ elim (pod_step-IsFrom p ps m ip) [
    | inl k ↦ inl (e ∙ k)
    | inr (q, h, i, k) ↦ inr (q, h, i, e ∙ k)
  ]
  | inr (q, h, i, k) ↦ inr (q, inr h, i, k)
]

pod_step-later :
    (p : Pod) (m : Claims) (ip : Text) (st : ℕ)
    → IsSince st (lookup ip m)
    → IsSince st (lookup ip (pod_step p m))
pod_step-later p m ip st h = elim (pod_step-lookup p m ip) [
  | inl (i, e) ↦ subst (IsSince st) (sym e) (owner_after-later p ip st (lookup ip m) h)
  | inr (n, e) ↦ subst (IsSince st) (sym e) h
]

pod_step-IsSince :
    (p : Pod) (m : Claims) (ip : Text)
    → IsHolder ip p
    → IsSince (started p) (lookup ip (pod_step p m))
pod_step-IsSince p m ip h = elim (pod_step-lookup p m ip) [
  | inl (i, e) ↦ subst (IsSince (started p)) (sym e) (owner_after-IsSince p ip (lookup ip m))
  | inr (n, e) ↦ elim (n h) [ ]
]

claim_pods-later :
    (ps : List Pod) (m : Claims) (ip : Text) (st : ℕ)
    → IsSince st (lookup ip m)
    → IsSince st (lookup ip (claim_pods ps m))
unfolding claim_pods pod_step
claim_pods-later [] m ip st h = h
claim_pods-later (p ∷ ps) m ip st h =
    claim_pods-later ps (pod_step p m) ip st (pod_step-later p m ip st h)

claim_pods-IsSince :
    (ps : List Pod) (m : Claims) (ip : Text) (q : Pod)
    → Has q ps
    → IsHolder ip q
    → IsSince (started q) (lookup ip (claim_pods ps m))
unfolding claim_pods pod_step
claim_pods-IsSince [] m ip q h k = elim h [ ]
claim_pods-IsSince (p ∷ ps) m ip q (inl e) k = claim_pods-later ps (pod_step p m) ip (started q) (
    subst (λ (x : Pod). IsSince (started q) (lookup ip (pod_step x m))) e
      (pod_step-IsSince q m ip k))
claim_pods-IsSince (p ∷ ps) m ip q (inr h) k = claim_pods-IsSince ps (pod_step p m) ip q h k

IsSince-of_owner :
    (ps : List Pod) (ip : Text) (st : ℕ) (o : Option (ℕ × Entry))
    → IsFrom ps ip none o
    → IsSince st o
    → (p : Pod) × Has p ps
      × IsHolder ip p
      × (o ≡ some (started p, entry_of p ip))
      × (st ≤ started p)
IsSince-of_owner ps ip st o (inl n) (t, e, h, le) = absurd (ground arith)
IsSince-of_owner ps ip st o (inr (p, m, k, q)) (t, e, h, le) =
    let same : some t ≡ some (started p) =
      ap (λ x. elim x [ none ↦ none | some v ↦ some v.0 ]) (sym h ∙ q) in
    (p, m, k, q, ground (arith, le, same))

-- If a counted pod of the list lists an IP, the IP is mapped to the entry of a counted pod of the
-- list that lists it too and started no earlier.
pub claim_pods-owner :
    (ps : List Pod) (ip : Text) (q : Pod)
    → Has q ps
    → IsHolder ip q
    → (p : Pod) × Has p ps
      × IsHolder ip p
      × (lookup ip (claim_pods ps []) ≡ some (started p, entry_of p ip))
      × (started q ≤ started p)
unfolding lookup
claim_pods-owner ps ip q h k =
    IsSince-of_owner ps ip (started q) (lookup ip (claim_pods ps [])) (claim_pods-IsFrom ps [] ip)
      (claim_pods-IsSince ps [] ip q h k)

-- An IP is mapped to nothing, or to the entry of a counted pod of the list that lists it.
pub claim_pods-source :
    (ps : List Pod) (ip : Text)
    → (lookup ip (claim_pods ps []) ≡ none)
      ⊎ ((p : Pod) × Has p ps
          × IsHolder ip p
          × (lookup ip (claim_pods ps []) ≡ some (started p, entry_of p ip)))
unfolding lookup
claim_pods-source ps ip = claim_pods-IsFrom ps [] ip
