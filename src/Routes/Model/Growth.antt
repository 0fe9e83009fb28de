-- ===== src/Routes/Model/Growth.antt =====
-- controllers/routes.go: the order in which one render model holds all that another one holds.
use moat_operator.Base.{
  ◌∷◌, [], ℕ, Bool, true, false, ◌||◌, some, List, Text, lookup, lookup-insert, eq_iff, is_nil, ◌≡◌,
  refl, ◌∙◌, arith,
}
use moat_operator.Routes.{Backend, RouteCfg, AnnSettings, CertProjection, RenderModel}
use moat_operator.Routes.Model.{
  claim_route, add_cert, add_route, add_regex_route, add_passthrough_host,
}
use moat_operator.Routes.Model.Wins.{route_at, claim_route-keeps}
use moat_operator.Routes.Model.Invariant.{
  IsWellFormed, add_cert-IsWellFormed, add_route-IsWellFormed, add_regex_route-IsWellFormed,
  add_passthrough_host-IsWellFormed,
}

-- `n` holds all that `m` holds, with the same values, and is well formed if `m` is.
pub record IsGrowth (m n : RenderModel) : Type 0 where
  pub routes : (h k : Text) (rc : RouteCfg) → route_at h k m ≡ some rc → route_at h k n ≡ some rc
  pub passthrough :
      (h u : Text) → lookup h m.passthrough_hosts ≡ some u → lookup h n.passthrough_hosts ≡ some u
  pub certs : (h s : Text) → lookup h m.host_cert ≡ some s → lookup h n.host_cert ≡ some s
  pub projections :
      (s : Text) (cp : CertProjection)
      → lookup s m.cert_projections ≡ some cp
      → lookup s n.cert_projections ≡ some cp
  pub acme : is_nil m.acme ≡ false → n.acme ≡ m.acme
  pub sticky : m.sticky ≡ true → n.sticky ≡ true
  pub valid : IsWellFormed m → IsWellFormed n

pub IsGrowth-refl : (m : RenderModel) → IsGrowth m m
IsGrowth-refl m = record {
  routes = λ h k rc e. e;
  passthrough = λ h u e. e;
  certs = λ h s e. e;
  projections = λ s cp e. e;
  acme = λ e. refl;
  sticky = λ e. e;
  valid = λ v. v;
}

acme_trans :
    (a b c : Text)
    → (is_nil a ≡ false → b ≡ a)
    → (is_nil b ≡ false → c ≡ b)
    → is_nil a ≡ false
    → c ≡ a
acme_trans a b c f g e = let same = f e in g (rw same e) ∙ same

pub IsGrowth-trans : {m n o : RenderModel} → IsGrowth m n → IsGrowth n o → IsGrowth m o
IsGrowth-trans {m} {n} {o} f g = record {
  routes = λ h k rc e. g.routes h k rc (f.routes h k rc e);
  passthrough = λ h u e. g.passthrough h u (f.passthrough h u e);
  certs = λ h s e. g.certs h s (f.certs h s e);
  projections = λ s cp e. g.projections s cp (f.projections s cp e);
  acme = acme_trans m.acme n.acme o.acme f.acme g.acme;
  sticky = λ e. g.sticky (f.sticky e);
  valid = λ v. g.valid (f.valid v);
}

claim_route-grows :
    (host key : Text) (rc : RouteCfg) (sticky : Bool) (m : RenderModel)
    → (IsWellFormed m → IsWellFormed (claim_route host key rc sticky m).0)
    → IsGrowth m (claim_route host key rc sticky m).0
claim_route-grows host key rc sticky m valid =
    unfold claim_route in
    record {
      routes = λ h k old e. claim_route-keeps host key rc sticky m h k old e;
      passthrough = λ h u e. ground arith;
      certs = λ h s e. ground arith;
      projections = λ s cp e. ground arith;
      acme = λ e. ground arith;
      sticky = λ e. ground arith;
      valid = valid;
    }

pub add_route-grows :
    (host path : Text) (servers : List Backend) (a : AnnSettings) (req resp : List Text)
    (m : RenderModel)
    → IsGrowth m (add_route host path servers a req resp m).0
add_route-grows host path servers a req resp m =
    unfold add_route in
    claim_route-grows host _ _ a.sticky m (add_route-IsWellFormed host path servers a req resp m)

pub add_regex_route-grows :
    (ip : ℕ → Bool) (host regex : Text) (servers : List Backend) (a : AnnSettings)
    (req resp : List Text) (m : RenderModel)
    → IsGrowth m (add_regex_route ip host regex servers a req resp m).0
add_regex_route-grows ip host [] servers a req resp m = unfold add_regex_route in IsGrowth-refl m
add_regex_route-grows ip host (c ∷ regex) servers a req resp m =
    unfold add_regex_route in
    claim_route-grows host _ _ a.sticky m
      (add_regex_route-IsWellFormed ip host (c ∷ regex) servers a req resp m)

pub add_passthrough_host-grows :
    (host upstream : Text) (m : RenderModel) → IsGrowth m (add_passthrough_host host upstream m).0
unfolding add_passthrough_host
add_passthrough_host-grows host upstream m = record {
  routes = λ h k rc e. ground arith;
  passthrough =
      λ h u e. ground (arith, lookup-insert host h upstream m.passthrough_hosts, eq_iff host h);
  certs = λ h s e. ground arith;
  projections = λ s cp e. ground arith;
  acme = λ e. ground arith;
  sticky = λ e. ground arith;
  valid = add_passthrough_host-IsWellFormed host upstream m;
}

pub add_cert-grows :
    (host stem ns name : Text) (m : RenderModel) → IsGrowth m (add_cert host stem ns name m)
unfolding add_cert
add_cert-grows host stem ns name m =
    let new : CertProjection = record { stem = stem; ns = ns; name = name } in
    record {
      routes = λ h k rc e. ground arith;
      passthrough = λ h u e. ground arith;
      certs = λ h s e. ground (arith, lookup-insert host h stem m.host_cert, eq_iff host h);
      projections =
          λ s cp e. ground (arith, lookup-insert stem s new m.cert_projections, eq_iff stem s);
      acme = λ e. ground arith;
      sticky = λ e. ground arith;
      valid = add_cert-IsWellFormed host stem ns name m;
    }

-- Assignments outside the methods: the ACME address where none is set, and the sticky flag.
pub set_acme-grows :
    (addr : Text) (m : RenderModel) → is_nil m.acme ≡ true → IsGrowth m (record m { acme = addr })
set_acme-grows addr m h = record {
  routes = λ s k rc e. e;
  passthrough = λ s u e. e;
  certs = λ s t e. e;
  projections = λ s cp e. e;
  acme = λ e. absurd (ground arith);
  sticky = λ e. e;
  valid = λ v. record {
    disjoint = v.disjoint;
    routed = v.routed;
    addressed = v.addressed;
    projected = v.projected;
    named = v.named;
  };
}

pub set_sticky-grows :
    (b : Bool) (m : RenderModel) → IsGrowth m (record m { sticky = m.sticky || b })
set_sticky-grows b m = record {
  routes = λ s k rc e. e;
  passthrough = λ s u e. e;
  certs = λ s t e. e;
  projections = λ s cp e. e;
  acme = λ e. refl;
  sticky = λ e. ground arith;
  valid = λ v. record {
    disjoint = v.disjoint;
    routed = v.routed;
    addressed = v.addressed;
    projected = v.projected;
    named = v.named;
  };
}
