-- ===== src/Ingress/Accounted.antt =====
-- controllers/ingress_controller.go: what becomes of the routes that the Ingresses ask for, over
-- the loops of `render`.
use moat_operator.Base.{
  ℕ, Bool, true, false, some, List, [], ◌∷◌, ◌≡◌, inl, inr, arith, Text, is_nil, has_prefix, Has,
  sort_by, sort_by-Has,
}
use moat_operator.Kube.{NamespacedName, Ingress, IngressRule, HttpIngressPath, Api}
use moat_operator.Endpoints.{backend_servers}
use moat_operator.Routes.{Backend, AnnSettings}
use moat_operator.Routes.Annotations.{parse_annotations}
use moat_operator.Ingress.{
  Options, Pass, ingress_key, ingress_leb, note_exact, path_or_root, resolved_path, path_step,
  render_paths, rule_step, render_rules, render_ingress, is_ours, render_ingresses, new_pass,
  ingress_pass, acme_challenge_prefix, default_class_is_ours,
}
use moat_operator.Ingress.Growth.{render_paths-Grows, render_rules-Grows, render_ingresses-Grows}
use moat_operator.Ingress.Claims.{
  if-holds, IsRouted, IsAccounted, Accounted, Accounted-Grows, claim_all-Accounted,
}

module _ (is_print : ℕ → Bool) (api : Api) (o : Options) (h : Text) (n : is_nil h ≡ false)
    (servers : List Backend) where
  module _ (src : NamespacedName) (a : AnnSettings) where
    resolved_path-Accounted :
        (host : Text) (x : HttpIngressPath) (p : Pass)
        → Has h (host ∷ a.server_aliases)
        → IsRouted a (path_or_root x.path)
        → Accounted is_print api o h n servers src a
            (path_or_root x.path)
            (resolved_path is_print api o src a host x servers p)
    unfolding resolved_path
    resolved_path-Accounted host x p k routed =
        let path = path_or_root x.path in
        let noted = note_exact src host path x.path_type p in
        if-holds (Accounted is_print api o h n servers src a path) a.use_regex _ _
          (λ u. claim_all-Accounted is_print api o h n servers src a host path p k)
          (λ u.
            if-holds (Accounted is_print api o h n servers src a path)
              (has_prefix path acme_challenge_prefix) _ _
              (λ c. absurd (ground (arith, routed, u, c)))
              (λ c. claim_all-Accounted is_print api o h n servers src a host path noted k))

    module _ (x : HttpIngressPath)
        (found : backend_servers api o.resolution src.namespace x.backend ≡ some servers)
        (routed : IsRouted a (path_or_root x.path)) where
      path_step-Accounted :
          (host : Text) (y : HttpIngressPath) (p : Pass)
          → Has h (host ∷ a.server_aliases)
          → x ≡ y
          → Accounted is_print api o h n servers src a (path_or_root x.path) (
              path_step is_print api o src a host y
                (backend_servers api o.resolution src.namespace y.backend)
                p)
      path_step-Accounted host y p k e = rw (← e, found) (resolved_path-Accounted host x p k routed)

      render_paths-Accounted :
          (host : Text) (ys : List HttpIngressPath) (p : Pass)
          → Has h (host ∷ a.server_aliases)
          → Has x ys
          → Accounted is_print api o h n servers src a
              (path_or_root x.path)
              (render_paths is_print api o src a host ys p)
      unfolding render_paths
      render_paths-Accounted host [] p k m = elim m [ ]
      render_paths-Accounted host (y ∷ ys) p k (inl e) =
          Accounted-Grows is_print api o h n servers src a (path_or_root x.path)
            (render_paths-Grows is_print api o src a host ys _) (path_step-Accounted host y p k e)
      render_paths-Accounted host (y ∷ ys) p k (inr m) = render_paths-Accounted host ys _ k m

      module _ (rl : IngressRule) (paths : List HttpIngressPath) (http : rl.http ≡ some paths)
          (named : is_nil rl.host ≡ false) (terminated : a.passthrough ≡ false)
          (on : Has h (rl.host ∷ a.server_aliases)) (within : Has x paths) where
        rule_step-Accounted :
            (other : IngressRule) (p : Pass)
            → rl ≡ other
            → Accounted is_print api o h n servers src a
                (path_or_root x.path)
                (rule_step is_print api o src a other.host other.http p)
        rule_step-Accounted other p e =
            rw (← e, http)
              (if-holds (Accounted is_print api o h n servers src a (path_or_root x.path))
                (is_nil rl.host) _ _ (λ t. absurd (ground (arith, t, named)))
                (λ t.
                  if-holds (Accounted is_print api o h n servers src a (path_or_root x.path))
                    a.passthrough _ _ (λ u. absurd (ground (arith, u, terminated)))
                    (λ u. render_paths-Accounted rl.host paths p on within)))

        render_rules-Accounted :
            (rls : List IngressRule) (p : Pass)
            → Has rl rls
            → Accounted is_print api o h n servers src a
                (path_or_root x.path)
                (render_rules is_print api o src a rls p)
        unfolding render_rules
        render_rules-Accounted [] p m = elim m [ ]
        render_rules-Accounted (other ∷ rls) p (inl e) =
            Accounted-Grows is_print api o h n servers src a (path_or_root x.path)
              (render_rules-Grows is_print api o src a rls _) (rule_step-Accounted other p e)
        render_rules-Accounted (other ∷ rls) p (inr m) = render_rules-Accounted rls _ m

  -- An Ingress that is rendered accounts for a route, and what follows keeps that.
  render_ingresses-Accounted :
      (ing : Ingress) (path : Text) (ours : Bool) (ings : List Ingress) (p : Pass)
      → let a = parse_annotations ing.annotations in
        ((q : Pass)
          → Accounted is_print api o h n servers
              (ingress_key ing)
              a
              path
              (render_ingress is_print api o ing q))
        → is_ours o.ingress_class_name ing ours ≡ true
        → Has ing ings
        → Accounted is_print api o h n servers
            (ingress_key ing)
            a
            path
            (render_ingresses is_print api o ours ings p)
  unfolding render_ingresses
  render_ingresses-Accounted ing path ours [] p f mine m = elim m [ ]
  render_ingresses-Accounted ing path ours (other ∷ ings) p f mine (inl e) =
      Accounted-Grows is_print api o h n servers (ingress_key ing)
        (parse_annotations ing.annotations) path (render_ingresses-Grows is_print api o ours ings _)
        (rw (← e, mine) (f p))
  render_ingresses-Accounted ing path ours (other ∷ ings) p f mine (inr m) =
      render_ingresses-Accounted ing path ours ings _ f mine m

  render_ingress-Accounted :
      (ing : Ingress) (rl : IngressRule) (paths : List HttpIngressPath) (x : HttpIngressPath)
      → let a = parse_annotations ing.annotations in
        Has rl ing.rules
        → rl.http ≡ some paths
        → Has x paths
        → is_nil rl.host ≡ false
        → a.passthrough ≡ false
        → IsRouted a (path_or_root x.path)
        → backend_servers api o.resolution ing.namespace x.backend ≡ some servers
        → Has h (rl.host ∷ a.server_aliases)
        → (q : Pass)
        → Accounted is_print api o h n servers
            (ingress_key ing)
            a
            (path_or_root x.path)
            (render_ingress is_print api o ing q)
  unfolding render_ingress
  render_ingress-Accounted ing rl paths x m http within named terminated routed found on q =
      render_rules-Accounted (ingress_key ing) (parse_annotations ing.annotations) x found routed rl
        paths http named terminated on within ing.rules _ m

-- A route is never dropped in silence. Take a path of a rule of an Ingress that is listed and
-- ours, where the rule has a host, the Ingress is not passed through, the backend resolves to
-- servers, and the path is a regex or is not the ACME solver's; and take the host of the rule or
-- an alias that is not empty. After the pass, the model holds under that host and path the route
-- that the servers and annotations give, or a conflict of that Ingress, host and path is among
-- the notices.
pub ingress_pass-IsAccounted :
    (is_print : ℕ → Bool) (api : Api) (o : Options) (items : List Ingress) (ing : Ingress)
    (rl : IngressRule) (paths : List HttpIngressPath) (x : HttpIngressPath) (servers : List Backend)
    (h : Text)
    → Has ing items
    → is_ours o.ingress_class_name ing (default_class_is_ours api) ≡ true
    → Has rl ing.rules
    → rl.http ≡ some paths
    → Has x paths
    → is_nil rl.host ≡ false
    → (parse_annotations ing.annotations).passthrough ≡ false
    → IsRouted (parse_annotations ing.annotations) (path_or_root x.path)
    → backend_servers api o.resolution ing.namespace x.backend ≡ some servers
    → Has h (rl.host ∷ (parse_annotations ing.annotations).server_aliases)
    → is_nil h ≡ false
    → IsAccounted is_print
        (ingress_key ing)
        (parse_annotations ing.annotations)
        servers
        h
        (path_or_root x.path)
        (ingress_pass is_print api o items)
unfolding ingress_pass
ingress_pass-IsAccounted is_print api o items ing rl paths x servers h m mine r http within named
      terminated routed found on n =
    render_ingresses-Accounted is_print api o h n servers ing (path_or_root x.path)
      (default_class_is_ours api) (sort_by ingress_leb items) new_pass
      (render_ingress-Accounted is_print api o h n servers ing rl paths x r http within named
        terminated routed found on)
      mine (sort_by-Has ingress_leb ing items m)
