-- ===== src/Ingress/Claims.antt =====
-- controllers/ingress_controller.go: what becomes of a route under a host and its aliases.
use moat_operator.Base.{
  ℕ, Bool, true, false, ◌||◌, some, List, [], ◌∷◌, ◌≡◌, ◌⊎◌, inl, inr, refl, arith, Text,
  if◌then◌else◌, is_nil, ◌==◌, eq_iff, has_prefix, Bool-cases, Has, Has-append_right,
}
use moat_operator.Kube.{NamespacedName, Api}
use moat_operator.Routes.{Backend, AnnSettings}
use moat_operator.Routes.Model.Wins.{route_at}
use moat_operator.Ingress.{
  Options, Pass, claim_host, claim_aliases, claim_all, acme_challenge_prefix, route_conflict,
}
use moat_operator.Ingress.Rules.{host_key, host_route, claim_host-IsSettled}
use moat_operator.Ingress.Growth.{Grows, claim_aliases-Grows}

pub if-holds :
    (P : Pass → Type 0) (b : Bool) (x y : Pass)
    → (b ≡ true → P x)
    → (b ≡ false → P y)
    → P (if b then x else y)
if-holds P true x y f g = f refl
if-holds P false x y f g = g refl

-- A path becomes a route: it is a regex, or it is not the ACME solver's.
abbrev pub IsRouted : AnnSettings → Text → Type 0
IsRouted a path = (a.use_regex ≡ true) ⊎ (has_prefix path acme_challenge_prefix ≡ false)

-- The model holds the route for the host, or the conflict is among the notices.
abbrev pub IsAccounted :
    (ℕ → Bool) → NamespacedName → AnnSettings → List Backend → Text → Text → Pass → Type 0
IsAccounted is_print src a servers h path q =
    (route_at h (host_key a path) q.model ≡ some (host_route is_print a servers path))
    ⊎ Has (route_conflict src h path) q.notices

module _ (is_print : ℕ → Bool) (api : Api) (o : Options) (h : Text) (n : is_nil h ≡ false)
    (servers : List Backend) where
  module _ (src : NamespacedName) (a : AnnSettings) where
    abbrev pub Accounted : Text → Pass → Type 0
    Accounted path q = IsAccounted is_print src a servers h path q

    pub Accounted-Grows :
        (path : Text) {p q : Pass} → Grows p q → Accounted path p → Accounted path q
    Accounted-Grows path g (inl e) =
        inl (g.held.routes h (host_key a path) (host_route is_print a servers path) e)
    Accounted-Grows path g (inr k) = inr (g.noticed (route_conflict src h path) k)

    claim_host-Accounted :
        (path : Text) (p : Pass) → Accounted path (claim_host is_print api o src a servers h path p)
    claim_host-Accounted path p =
        elim (claim_host-IsSettled is_print api o src a servers h path p) [
          | inl (e, _) ↦ inl e
          | inr (_, e) ↦
              inr (rw e (Has-append_right (route_conflict src h path) p.notices _ (inl refl)))
        ]

    -- The alias, where it is not the host of the rule.
    alias-Accounted :
        (host path alias : Text) (p : Pass)
        → (h == host) ≡ false
        → h ≡ alias
        → Accounted path (
            if is_nil alias || (alias == host)
            then p
            else claim_host is_print api o src a servers alias path p)
    alias-Accounted host path alias p d e =
        if-holds (Accounted path) (is_nil alias || (alias == host)) p _
          (λ t. absurd (ground (arith, rw (← e) at t, n, d)))
          (λ t. rw (← e) (claim_host-Accounted path p))

    claim_aliases-Accounted :
        (host path : Text) (aliases : List Text) (p : Pass)
        → Has h aliases
        → (h == host) ≡ false
        → Accounted path (claim_aliases is_print api o src a servers host path aliases p)
    unfolding claim_aliases
    claim_aliases-Accounted host path [] p k d = elim k [ ]
    claim_aliases-Accounted host path (alias ∷ aliases) p (inl e) d =
        Accounted-Grows path (claim_aliases-Grows is_print api o src a servers host path aliases _)
          (alias-Accounted host path alias p d e)
    claim_aliases-Accounted host path (alias ∷ aliases) p (inr k) d =
        claim_aliases-Accounted host path aliases _ k d

    pub claim_all-Accounted :
        (host path : Text) (p : Pass)
        → Has h (host ∷ a.server_aliases)
        → Accounted path (claim_all is_print api o src a servers host path p)
    unfolding claim_all
    claim_all-Accounted host path p k =
        let first : (h ≡ host)
            → Accounted path (claim_all is_print api o src a servers host path p) =
          λ e.
            Accounted-Grows path
              (claim_aliases-Grows is_print api o src a servers host path a.server_aliases _)
              (rw (← e) (claim_host-Accounted path p)) in
        elim k [
          | inl e ↦ first e
          | inr m ↦ elim (Bool-cases (h == host)) [
            | inl t ↦ first ((eq_iff h host).0 t)
            | inr d ↦ claim_aliases-Accounted host path a.server_aliases _ m d
          ]
        ]
