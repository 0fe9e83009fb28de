-- ===== src/Ingress/Growth.antt =====
-- controllers/ingress_controller.go: the model before and after the Ingresses.
use moat_operator.Base.{
  ℕ, Bool, true, false, Option, none, some, List, [], ◌∷◌, ◌≡◌, refl, Text, is_nil, if◌then◌else◌,
  has_prefix, sort_by, Has, Has-append_left, ◌++◌,
}
use moat_operator.Kube.{
  NamespacedName, Ingress, IngressRule, IngressTls, HttpIngressPath, PathType, Api,
}
use moat_operator.Endpoints.{backend_addr, backend_servers}
use moat_operator.Routes.{Backend, AnnSettings, RenderModel}
use moat_operator.Routes.Annotations.{parse_annotations}
use moat_operator.Routes.Model.Invariant.{IsWellFormed, IsWellFormed-new}
use moat_operator.Routes.Model.Growth.{
  IsGrowth, IsGrowth-refl, IsGrowth-trans, add_cert-grows, add_route-grows, add_regex_route-grows,
  add_passthrough_host-grows, set_acme-grows, set_sticky-grows,
}
use moat_operator.Ingress.{
  Options, Notice, backend_unresolved, unsupported_match, Pass, ingress_key, ingress_leb, claimed,
  rule_hosts, add_host_certs, add_tls_certs, add_tls, passthrough_rule, claim_host, claim_aliases,
  claim_all, note_exact, is_exact, note_acme, path_or_root, resolved_path, path_step, render_paths,
  rule_step, render_rules, render_ingress, is_ours, render_ingresses, new_pass, ingress_pass,
  acme_challenge_prefix, default_class_is_ours,
}

-- A pass that holds the model and the notices of an earlier one.
pub record Grows (p q : Pass) : Type 0 where
  pub held : IsGrowth p.model q.model
  pub noticed : (n : Notice) → Has n p.notices → Has n q.notices

Grows-refl : (p : Pass) → Grows p p
Grows-refl p = record { held = IsGrowth-refl p.model; noticed = λ n h. h }

Grows-trans : {p q r : Pass} → Grows p q → Grows q r → Grows p r
Grows-trans f g = record {
  held = IsGrowth-trans f.held g.held;
  noticed = λ n h. g.noticed n (f.noticed n h);
}

model-Grows : (p : Pass) (m : RenderModel) → IsGrowth p.model m → Grows p (record p { model = m })
model-Grows p m g = record { held = g; noticed = λ n h. h }

noted-Grows : (p : Pass) (ns : List Notice) → Grows p (record p { notices = p.notices ++ ns })
noted-Grows p ns = record {
  held = IsGrowth-refl p.model;
  noticed = λ n h. Has-append_left n p.notices ns h;
}

claimed-Grows :
    (p : Pass) (c : Notice) (r : RenderModel × Bool)
    → IsGrowth p.model r.0
    → Grows p (claimed c p.notices r)
claimed-Grows p c (m, true) g = record { held = g; noticed = λ n h. h }
claimed-Grows p c (m, false) g = record {
  held = g;
  noticed = λ n h. Has-append_left n p.notices (c ∷ []) h;
}

module _ (ns secret : Text) where
  add_host_certs-grows :
      (hs : List Text) (m : RenderModel) → IsGrowth m (add_host_certs ns secret hs m)
  unfolding add_host_certs
  add_host_certs-grows [] m = IsGrowth-refl m
  add_host_certs-grows (h ∷ hs) m =
      IsGrowth-trans (add_cert-grows _ _ ns secret m) (add_host_certs-grows hs _)

  add_tls_certs-grows :
      (hs : List Text) (m : RenderModel) → IsGrowth m (add_tls_certs ns secret hs m)
  unfolding add_tls_certs
  add_tls_certs-grows [] m = add_cert-grows [] _ ns secret m
  add_tls_certs-grows (h ∷ hs) m = add_host_certs-grows (h ∷ hs) m

pub if-grows :
    (b : Bool) (m x y : RenderModel) → IsGrowth m x → IsGrowth m y → IsGrowth m (if b then x else y)
if-grows true m x y f g = f
if-grows false m x y f g = g

if_granted-grows :
    (b : Bool) (m : RenderModel) (x y : RenderModel × Bool)
    → IsGrowth m x.0
    → IsGrowth m y.0
    → IsGrowth m (if b then x else y).0
if_granted-grows true m x y f g = f
if_granted-grows false m x y f g = g

Grows-if : (b : Bool) (p x y : Pass) → Grows p x → Grows p y → Grows p (if b then x else y)
Grows-if true p x y f g = f
Grows-if false p x y f g = g

pub add_tls-grows :
    (ing : Ingress) (ts : List IngressTls) (m : RenderModel) → IsGrowth m (add_tls ing ts m)
unfolding add_tls
add_tls-grows ing [] m = IsGrowth-refl m
add_tls-grows ing (t ∷ ts) m =
    IsGrowth-trans
      (if-grows (is_nil t.secret_name) m _ _ (IsGrowth-refl m) (
        add_tls_certs-grows ing.namespace t.secret_name
          (if is_nil t.hosts then rule_hosts ing.rules else t.hosts) m))
      (add_tls-grows ing ts _)

note_exact-Grows :
    (src : NamespacedName) (host path : Text) (t : Option PathType) (p : Pass)
    → Grows p (note_exact src host path t p)
note_exact-Grows src host path t p =
    Grows-if (is_exact t) p _ _ (noted-Grows p (unsupported_match src host path ∷ []))
      (Grows-refl p)

empty_acme-Grows :
    (b : Bool) (addr : Text) (p : Pass)
    → is_nil p.model.acme ≡ b
    → Grows p (if b then record p { model = record p.model { acme = addr } } else p)
empty_acme-Grows true addr p e =
    model-Grows p (record p.model { acme = addr }) (set_acme-grows addr p.model e)
empty_acme-Grows false addr p e = Grows-refl p

note_acme-Grows : (addr : Option Text) (p : Pass) → Grows p (note_acme addr p)
note_acme-Grows none p = Grows-refl p
note_acme-Grows (some addr) p = empty_acme-Grows (is_nil p.model.acme) addr p refl

module _ (is_print : ℕ → Bool) (api : Api) (o : Options) where
  passthrough_rule-Grows :
      (src : NamespacedName) (host : Text) (ps : List HttpIngressPath) (p : Pass)
      → Grows p (passthrough_rule is_print api o src host ps p)
  unfolding passthrough_rule
  passthrough_rule-Grows src host ps p =
      Grows-if _ p _ _ (noted-Grows p (backend_unresolved src host ∷ []))
        (claimed-Grows p _ _ (add_passthrough_host-grows host _ p.model))

  module _ (src : NamespacedName) (a : AnnSettings) (servers : List Backend) where
    pub claim_host-Grows :
        (host path : Text) (p : Pass)
        → Grows p (claim_host is_print api o src a servers host path p)
    unfolding claim_host
    claim_host-Grows host path p = claimed-Grows p _ _ (
        if_granted-grows a.use_regex p.model _ _
          (add_regex_route-grows is_print host path servers a [] [] p.model)
          (add_route-grows host path servers a [] [] p.model))

    pub claim_aliases-Grows :
        (host path : Text) (aliases : List Text) (p : Pass)
        → Grows p (claim_aliases is_print api o src a servers host path aliases p)
    unfolding claim_aliases
    claim_aliases-Grows host path [] p = Grows-refl p
    claim_aliases-Grows host path (alias ∷ aliases) p =
        Grows-trans (Grows-if _ p _ _ (Grows-refl p) (claim_host-Grows alias path p))
          (claim_aliases-Grows host path aliases _)

    claim_all-Grows :
        (host path : Text) (p : Pass) → Grows p (claim_all is_print api o src a servers host path p)
    unfolding claim_all
    claim_all-Grows host path p = Grows-trans (claim_host-Grows host path p) (
        claim_aliases-Grows host path a.server_aliases
          (claim_host is_print api o src a servers host path p))

  resolved_path-Grows :
      (src : NamespacedName) (a : AnnSettings) (host : Text) (x : HttpIngressPath)
      (servers : List Backend) (p : Pass)
      → Grows p (resolved_path is_print api o src a host x servers p)
  unfolding resolved_path
  resolved_path-Grows src a host x servers p =
      let path = path_or_root x.path in
      let noted = note_exact src host path x.path_type p in
      Grows-if a.use_regex p _ _ (claim_all-Grows src a servers host path p) (
        Grows-trans (note_exact-Grows src host path x.path_type p) (
          Grows-if (has_prefix path acme_challenge_prefix) noted _ _
            (note_acme-Grows (backend_addr api o.resolution src.namespace x.backend) noted)
            (claim_all-Grows src a servers host path noted)))

  path_step-Grows :
      (src : NamespacedName) (a : AnnSettings) (host : Text) (x : HttpIngressPath)
      (servers : Option (List Backend)) (p : Pass)
      → Grows p (path_step is_print api o src a host x servers p)
  path_step-Grows src a host x none p = noted-Grows p (backend_unresolved src host ∷ [])
  path_step-Grows src a host x (some servers) p = resolved_path-Grows src a host x servers p

  pub render_paths-Grows :
      (src : NamespacedName) (a : AnnSettings) (host : Text) (xs : List HttpIngressPath) (p : Pass)
      → Grows p (render_paths is_print api o src a host xs p)
  unfolding render_paths
  render_paths-Grows src a host [] p = Grows-refl p
  render_paths-Grows src a host (x ∷ xs) p =
      Grows-trans
        (path_step-Grows src a host x (backend_servers api o.resolution src.namespace x.backend) p)
        (render_paths-Grows src a host xs _)

  rule_step-Grows :
      (src : NamespacedName) (a : AnnSettings) (host : Text) (xs : Option (List HttpIngressPath))
      (p : Pass)
      → Grows p (rule_step is_print api o src a host xs p)
  rule_step-Grows src a host none p = Grows-refl p
  rule_step-Grows src a host (some xs) p = Grows-if (is_nil host) p _ _ (Grows-refl p) (
      Grows-if a.passthrough p _ _ (passthrough_rule-Grows src host xs p)
        (render_paths-Grows src a host xs p))

  pub render_rules-Grows :
      (src : NamespacedName) (a : AnnSettings) (rls : List IngressRule) (p : Pass)
      → Grows p (render_rules is_print api o src a rls p)
  unfolding render_rules
  render_rules-Grows src a [] p = Grows-refl p
  render_rules-Grows src a (rl ∷ rls) p =
      Grows-trans (rule_step-Grows src a rl.host rl.http p) (render_rules-Grows src a rls _)

  render_ingress-Grows : (ing : Ingress) (p : Pass) → Grows p (render_ingress is_print api o ing p)
  unfolding render_ingress
  render_ingress-Grows ing p =
      let a = parse_annotations ing.annotations in
      Grows-trans
        (model-Grows p _
          (IsGrowth-trans (set_sticky-grows a.sticky p.model) (add_tls-grows ing ing.tls _)))
        (render_rules-Grows (ingress_key ing) a ing.rules _)

  pub render_ingresses-Grows :
      (ours : Bool) (ings : List Ingress) (p : Pass)
      → Grows p (render_ingresses is_print api o ours ings p)
  unfolding render_ingresses
  render_ingresses-Grows ours [] p = Grows-refl p
  render_ingresses-Grows ours (ing ∷ ings) p =
      Grows-trans
        (Grows-if (is_ours o.ingress_class_name ing ours) p _ _ (render_ingress-Grows ing p)
          (Grows-refl p))
        (render_ingresses-Grows ours ings _)

  -- What the Ingresses already rendered have put in the model stays there, with the same values,
  -- whatever Ingresses follow; and a well-formed model stays well formed.
  pub render_ingresses-grows :
      (ours : Bool) (ings : List Ingress) (p : Pass)
      → IsGrowth p.model (render_ingresses is_print api o ours ings p).model
  render_ingresses-grows ours ings p = (render_ingresses-Grows ours ings p).held

  -- The model that a pass over any list of Ingresses builds is well formed.
  pub ingress_pass-IsWellFormed :
      (items : List Ingress) → IsWellFormed (ingress_pass is_print api o items).model
  unfolding ingress_pass
  ingress_pass-IsWellFormed items =
      (render_ingresses-grows (default_class_is_ours api) (sort_by ingress_leb items)
          new_pass).valid
        IsWellFormed-new
