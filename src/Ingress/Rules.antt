-- ===== src/Ingress/Rules.antt =====
-- controllers/ingress_controller.go: what becomes of one path of a rule.
use moat_operator.Base.{
  ℕ, Bool, true, false, some, List, [], ◌∷◌, ◌++◌, ◌≡◌, ◌⊎◌, inr, refl, arith, Text, if◌then◌else◌,
  eq_refl, lookup-insert, insert,
}
use moat_operator.Kube.{NamespacedName, Api}
use moat_operator.Routes.{Backend, AnnSettings, RouteCfg, RenderModel}
use moat_operator.Routes.Model.{
  claim_route, paths_of, add_route, route_key, route_cfg, add_regex_route, regex_route_key,
  path_regex_expr,
}
use moat_operator.Routes.Model.Wins.{route_at}
use moat_operator.Ingress.{Options, Notice, Pass, claim_host, claimed, route_conflict}

-- Where `claim_host` stores its route, and the route.
abbrev pub host_key : AnnSettings → Text → Text
host_key a path = if a.use_regex then regex_route_key path else route_key path

abbrev pub host_route : (ℕ → Bool) → AnnSettings → List Backend → Text → RouteCfg
host_route is_print a servers path =
    route_cfg servers a [] [] (if a.use_regex then path_regex_expr is_print path else [])

-- A claim's route is stored and nothing is noted, or the model stays and the conflict is noted.
abbrev pub IsSettled : Text → Text → RouteCfg → Notice → Pass → Pass → Type 0
IsSettled host key rc conflict p q =
    ((route_at host key q.model ≡ some rc) × (q.notices ≡ p.notices))
    ⊎ ((q.model ≡ p.model) × (q.notices ≡ p.notices ++ conflict ∷ []))

claim_route-IsSettled :
    (host key : Text) (rc : RouteCfg) (sticky : Bool) (c : Notice) (p : Pass)
    → IsSettled host key rc c p (claimed c p.notices (claim_route host key rc sticky p.model))
claim_route-IsSettled host key rc sticky c p =
    unfold claim_route in
    ground (
      arith,
      eq_refl host,
      eq_refl key,
      lookup-insert host host (insert key rc (paths_of host p.model)) p.model.hosts,
      lookup-insert key key rc (paths_of host p.model),
    )

add_regex_route-IsSettled :
    (is_print : ℕ → Bool) (host path : Text) (servers : List Backend) (a : AnnSettings) (c : Notice)
    (p : Pass)
    → IsSettled host
        (regex_route_key path)
        (route_cfg servers a [] [] (path_regex_expr is_print path))
        c
        p
        (claimed c p.notices (add_regex_route is_print host path servers a [] [] p.model))
unfolding add_regex_route
add_regex_route-IsSettled is_print host [] servers a c p = inr (refl, refl)
add_regex_route-IsSettled is_print host (x ∷ path) servers a c p =
    claim_route-IsSettled host _ _ a.sticky c p

if-IsSettled :
    (b : Bool) (host k l : Text) (f : Text → RouteCfg) (x y : Text) (c : Notice) (p : Pass)
    (r s : RenderModel × Bool)
    → IsSettled host k (f x) c p (claimed c p.notices r)
    → IsSettled host l (f y) c p (claimed c p.notices s)
    → IsSettled host
        (if b then k else l)
        (f (if b then x else y))
        c
        p
        (claimed c p.notices (if b then r else s))
if-IsSettled true host k l f x y c p r s u v = u
if-IsSettled false host k l f x y c p r s u v = v

-- One claim of a route. Either the model afterwards holds under the host and path exactly the
-- route that the backends and annotations give, and no notice is added; or the model is as it was,
-- and the one notice added is a route conflict with the Ingress, the host and the path.
pub claim_host-IsSettled :
    (is_print : ℕ → Bool) (api : Api) (o : Options) (src : NamespacedName) (a : AnnSettings)
    (servers : List Backend) (host path : Text) (p : Pass)
    → IsSettled host
        (host_key a path)
        (host_route is_print a servers path)
        (route_conflict src host path)
        p
        (claim_host is_print api o src a servers host path p)
unfolding claim_host
claim_host-IsSettled is_print api o src a servers host path p =
    let c = route_conflict src host path in
    if-IsSettled a.use_regex host (regex_route_key path) (route_key path)
      (route_cfg servers a [] []) (path_regex_expr is_print path) [] c p _ _
      (add_regex_route-IsSettled is_print host path servers a c p)
      (unfold add_route in claim_route-IsSettled host (route_key path) _ a.sticky c p)
