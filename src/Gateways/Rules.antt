-- ===== src/Gateways/Rules.antt =====
-- controllers/gateway.go: the pool and the paths of one HTTPRoute rule.
use moat_operator.Base.{
  ℕ, Bool, true, false, Option, none, some, List, [], ◌∷◌, ◌++◌, ◌+◌, Text, if◌then◌else◌, is_nil,
  option_or, length, Has, Has-append_right, ◌≡◌, ◌↔◌, refl, arith, ◌⊎◌, inl, inr, eqb, Bool-cases,
  ap, ap₂, sym, subst, ◌∙◌,
}
use moat_operator.Kube.GatewayApi.{
  HttpBackendRef, HttpRouteMatch, HttpRouteRule, PathMatchType, exact_path, path_prefix,
  regular_expression,
}
use moat_operator.Routes.{Backend}
use moat_operator.Gateways.{
  gw_backend, any_weight, pooled, pool_step, backend_pool, rule_backends, RulePaths, match_step,
  match_paths, rule_paths, path_type, path_value,
}

-- A reference gives a server: it resolves to the server's address, and the server has its weight
-- (1 where it is unset, never 0) if the rule is weighted, and no weight if it is not.
abbrev pub IsPooled : Text → Text → Bool → HttpBackendRef → Backend → Type 0
IsPooled domain ns weighted b s =
    (gw_backend domain ns b ≡ some s.addr)
    × (s.weight ≡ (if weighted then option_or b.weight 1 else 0))
    × ((weighted ≡ true) → eqb s.weight 0 ≡ false)

backend-eq :
    (s : Backend) (a : Text) (k : ℕ)
    → s.addr ≡ a
    → s.weight ≡ k
    → s ≡ record { addr = a; weight = k }
backend-eq s a k e f =
    let build : (t : Text) (n : ℕ) → Backend = λ t n. record { addr = t; weight = n } in
    ap₂ build e f

module _ (domain ns : Text) (s : Backend) where
  pooled-Has :
      (w : Bool) (b : HttpBackendRef) (addr : Text)
      → gw_backend domain ns b ≡ some addr
      → (rest : List Backend) → Has s (pooled w b addr ++ rest)
      → IsPooled domain ns w b s ⊎ Has s rest
  pooled-Has false b addr e rest (inl h) = inl (
    e ∙ ap (λ (x : Backend). some x.addr) (sym h),
    ap (λ (x : Backend). x.weight) h,
    λ u. absurd (ground arith),
  )
  pooled-Has false b addr e rest (inr h) = inr h
  pooled-Has true b addr e rest h = elim (Bool-cases (eqb (option_or b.weight 1) 0)) [
    | inl z ↦ inr (rw z at h)
    | inr z ↦ elim (rw z at h) [
      | inl k ↦ inl (
        e ∙ ap (λ (x : Backend). some x.addr) (sym k),
        ap (λ (x : Backend). x.weight) k,
        λ u. ap (λ (x : Backend). eqb x.weight 0) k ∙ z,
      )
      | inr k ↦ inr k
    ]
  ]

  Has-pooled :
      (w : Bool) (b : HttpBackendRef) (addr : Text)
      → gw_backend domain ns b ≡ some addr
      → (rest : List Backend) → IsPooled domain ns w b s ⊎ Has s rest
      → Has s (pooled w b addr ++ rest)
  Has-pooled w b addr e rest (inr h) = Has-append_right s (pooled w b addr) rest h
  Has-pooled false b addr e rest (inl (a, k, n)) =
      let same : s.addr ≡ addr = ground arith in inl (backend-eq s addr 0 same k)
  Has-pooled true b addr e rest (inl (a, k, n)) =
      let same : s.addr ≡ addr = ground arith in
      let z : eqb (option_or b.weight 1) 0 ≡ false = ap (λ x. eqb x 0) (sym k) ∙ n refl in
      rw z (inl (backend-eq s addr (option_or b.weight 1) same k))

  pool_step-Has :
      (w : Bool) (b : HttpBackendRef) (o : Option Text)
      → gw_backend domain ns b ≡ o
      → (rest : List Backend)
      → Has s (pool_step w b o rest) ↔ (IsPooled domain ns w b s ⊎ Has s rest)
  pool_step-Has w b none e rest =
      (λ h. inr h, λ h. elim h [ inl (a, k, n) ↦ absurd (ground arith) | inr k ↦ k ])
  pool_step-Has w b (some addr) e rest = (pooled-Has w b addr e rest, Has-pooled w b addr e rest)

  backend_pool-Has :
      (w : Bool) (bs : List HttpBackendRef)
      → Has s (backend_pool domain ns w bs)
        ↔ ((b : HttpBackendRef) × Has b bs × IsPooled domain ns w b s)
  unfolding backend_pool
  backend_pool-Has w [] = (λ h. elim h [ ], λ (b, h, p). elim h [ ])
  backend_pool-Has w (b ∷ bs) =
      let (f, g) = pool_step-Has w b (gw_backend domain ns b) refl (backend_pool domain ns w bs) in
      let (i, j) = backend_pool-Has w bs in
      (
        λ h. elim (f h) [ inl p ↦ (b, inl refl, p) | inr k ↦ let (c, m, p) = i k in (c, inr m, p) ],
        λ (c, m, p). g (elim m [
          | inl e ↦ inl (subst (λ x. IsPooled domain ns w x s) e p)
          | inr k ↦ inr (j (c, k, p))
        ]),
      )

-- The pool of a rule holds exactly the servers of the references that resolve: without a weight
-- where no reference of the rule sets one; otherwise with their weights, 1 where it is unset, and
-- without the references of weight 0.
pub rule_backends_iff :
    (domain ns : Text) (rule : HttpRouteRule) (s : Backend)
    → Has s (rule_backends domain ns rule) ↔ (
        (b : HttpBackendRef) × Has b rule.backend_refs
        × IsPooled domain ns (any_weight rule.backend_refs) b s)
unfolding rule_backends
rule_backends_iff domain ns rule s =
    backend_pool-Has domain ns s (any_weight rule.backend_refs) rule.backend_refs

match_step-length :
    (is_print : ℕ → Bool) (t : PathMatchType) (v : Text) (r : RulePaths)
    → let q = match_step is_print t v r in
      length q.paths + length q.regexes ≡ length r.paths + length r.regexes + 1
match_step-length is_print exact_path v r = omega arith
match_step-length is_print path_prefix v r = omega arith
match_step-length is_print regular_expression v r = omega arith

match_paths-length :
    (is_print : ℕ → Bool) (mts : List HttpRouteMatch)
    → let r = match_paths is_print mts in length r.paths + length r.regexes ≡ length mts
unfolding match_paths
match_paths-length is_print [] = refl
match_paths-length is_print (mt ∷ mts) = ground (
  arith,
  match_step-length is_print (path_type mt.path) (path_value mt.path) (match_paths is_print mts),
  match_paths-length is_print mts,
)

-- No match of a rule is dropped: each gives one path or one regex, and a rule without matches
-- gives one path.
pub rule_paths-length :
    (is_print : ℕ → Bool) (rule : HttpRouteRule)
    → let r = rule_paths is_print rule in
      length r.paths + length r.regexes ≡ (if is_nil rule.matches then 1 else length rule.matches)
unfolding rule_paths
rule_paths-length is_print rule = ground (arith, match_paths-length is_print rule.matches)
