-- ===== src/Routes/Model/Invariant.antt =====
-- controllers/routes.go: the invariant of the render model.
use moat_operator.Base.{
  ℕ, Bool, true, false, some, List, [], ◌∷◌, Text, Map, lookup, insert, lookup-insert, has_key,
  eq_iff, is_nil, ◌≡◌, refl, arith,
}
use moat_operator.Routes.{Backend, RouteCfg, AnnSettings, CertProjection, RenderModel}
use moat_operator.Routes.Model.{
  paths_of, claim_route, add_cert, add_route, add_regex_route, add_passthrough_host,
  new_render_model,
}

-- No host is both terminated and passed through, each host with routes has at least one, each
-- passthrough target is an address, and each host's certificate is one that is projected.
pub record IsWellFormed (m : RenderModel) : Type 0 where
  pub disjoint : (h : Text) → has_key h m.passthrough_hosts ≡ true → has_key h m.hosts ≡ false
  pub routed : (h : Text) → has_key h m.hosts ≡ true → is_nil (paths_of h m) ≡ false
  pub addressed : (h u : Text) → lookup h m.passthrough_hosts ≡ some u → is_nil u ≡ false
  pub projected :
      (h stem : Text) → lookup h m.host_cert ≡ some stem → has_key stem m.cert_projections ≡ true
  pub named :
      (stem : Text) (cp : CertProjection)
      → lookup stem m.cert_projections ≡ some cp
      → (cp.stem ≡ stem)
        × (is_nil cp.stem ≡ false)
        × (is_nil cp.ns ≡ false)
        × (is_nil cp.name ≡ false)

is_nil-insert {ℓ} : {V : Type ℓ} (k : Text) (v : V) (m : Map V) → is_nil (insert k v m) ≡ false
unfolding insert
is_nil-insert k v [] = refl
is_nil-insert k v ((j, w) ∷ m) = ground arith

pub IsWellFormed-new : IsWellFormed new_render_model
unfolding lookup
IsWellFormed-new = record {
  disjoint = λ h e. refl;
  routed = λ h e. cc;
  addressed = λ h u e. cc;
  projected = λ h s e. cc;
  named = λ s cp e. absurd (cc);
}

claim_route-IsWellFormed :
    (host key : Text) (rc : RouteCfg) (sticky : Bool) (m : RenderModel)
    → IsWellFormed m
    → IsWellFormed (claim_route host key rc sticky m).0
unfolding claim_route
claim_route-IsWellFormed host key rc sticky m v =
    let paths = insert key rc (paths_of host m) in
    record {
      disjoint =
          λ h e. ground (arith, v.disjoint h, lookup-insert host h paths m.hosts, eq_iff host h);
      routed = λ h e. ground (
        arith,
        v.routed h,
        lookup-insert host h paths m.hosts,
        eq_iff host h,
        is_nil-insert key rc (paths_of host m),
      );
      addressed = λ h u e. ground (arith, v.addressed h u);
      projected = λ h s e. ground (arith, v.projected h s);
      named = λ s cp e. ground (arith, v.named s cp);
    }

pub add_route-IsWellFormed :
    (host path : Text) (servers : List Backend) (a : AnnSettings) (req resp : List Text)
    (m : RenderModel)
    → IsWellFormed m
    → IsWellFormed (add_route host path servers a req resp m).0
unfolding add_route
add_route-IsWellFormed host path servers a req resp m = claim_route-IsWellFormed host _ _ a.sticky m

pub add_regex_route-IsWellFormed :
    (ip : ℕ → Bool) (host regex : Text) (servers : List Backend) (a : AnnSettings)
    (req resp : List Text) (m : RenderModel)
    → IsWellFormed m
    → IsWellFormed (add_regex_route ip host regex servers a req resp m).0
unfolding add_regex_route
add_regex_route-IsWellFormed ip host [] servers a req resp m v = v
add_regex_route-IsWellFormed ip host (c ∷ regex) servers a req resp m v =
    claim_route-IsWellFormed host _ _ a.sticky m v

pub add_passthrough_host-IsWellFormed :
    (host upstream : Text) (m : RenderModel)
    → IsWellFormed m
    → IsWellFormed (add_passthrough_host host upstream m).0
unfolding add_passthrough_host
add_passthrough_host-IsWellFormed host upstream m v = record {
  disjoint = λ h e. ground (
    arith,
    v.disjoint h,
    v.routed host,
    lookup-insert host h upstream m.passthrough_hosts,
    eq_iff host h,
  );
  routed = λ h e. ground (arith, v.routed h);
  addressed = λ h u e.
      ground
        (arith, v.addressed h u, lookup-insert host h upstream m.passthrough_hosts, eq_iff host h);
  projected = λ h s e. ground (arith, v.projected h s);
  named = λ s cp e. ground (arith, v.named s cp);
}

pub add_cert-IsWellFormed :
    (host stem ns name : Text) (m : RenderModel)
    → IsWellFormed m
    → IsWellFormed (add_cert host stem ns name m)
unfolding add_cert
add_cert-IsWellFormed host stem ns name m v =
    let cp : CertProjection = record { stem = stem; ns = ns; name = name } in
    record {
      disjoint = λ h e. ground (arith, v.disjoint h);
      routed = λ h e. ground (arith, v.routed h);
      addressed = λ h u e. ground (arith, v.addressed h u);
      projected = λ h s e. ground (
        arith,
        v.projected h s,
        lookup-insert stem s cp m.cert_projections,
        lookup-insert host h stem m.host_cert,
        eq_iff stem s,
        eq_iff host h,
      );
      named = λ s p e.
          ground (arith, v.named s p, lookup-insert stem s cp m.cert_projections, eq_iff stem s);
    }
