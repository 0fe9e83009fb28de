-- ===== src/Routes/Model/Wins.antt =====
-- controllers/routes.go: what `addRoute` and `addRegexRoute` change in the model.
use moat_operator.Base.{
  ◌⊎◌, inl, inr, true, Bool-cases, [], Bool, false, not, ◌&&◌, Option, some, List, Text, lookup,
  insert, lookup-insert, has_key, is_some, ◌==◌, eq_iff, if◌then◌else◌, ◌≡◌, arith,
}
use moat_operator.Routes.{Backend, RouteCfg, AnnSettings, RenderModel}
use moat_operator.Routes.Model.{paths_of, claim_route, route_cfg, route_key, add_route}

-- The route that the model holds for a host and a key.
abbrev pub route_at : Text → Text → RenderModel → Option RouteCfg
route_at host key m = lookup key (paths_of host m)

-- The routes after a claim: the new one if it was granted, and every other one as before.
pub claim_route-routes :
    (host key : Text) (rc : RouteCfg) (sticky : Bool) (m : RenderModel) (h k : Text)
    → route_at h k (claim_route host key rc sticky m).0 ≡ (
        if (claim_route host key rc sticky m).1 && (host == h) && (key == k)
        then some rc
        else route_at h k m)
unfolding claim_route
claim_route-routes host key rc sticky m h k = ground (
  arith,
  lookup-insert host h (insert key rc (paths_of host m)) m.hosts,
  lookup-insert key k rc (paths_of host m),
  eq_iff host h,
  eq_iff key k,
)

-- A claim is granted exactly when the host is no passthrough host and the key is free.
pub claim_route-granted :
    (host key : Text) (rc : RouteCfg) (sticky : Bool) (m : RenderModel)
    → (claim_route host key rc sticky m).1
      ≡ (not (has_key host m.passthrough_hosts) && not (is_some (route_at host key m)))
unfolding claim_route
claim_route-granted host key rc sticky m = ground arith

-- A refused claim leaves the whole model as it was.
pub claim_route-refused :
    (host key : Text) (rc : RouteCfg) (sticky : Bool) (m : RenderModel)
    → (claim_route host key rc sticky m).1 ≡ false
    → (claim_route host key rc sticky m).0 ≡ m
unfolding claim_route
claim_route-refused host key rc sticky m h = ground arith

-- A route that is there stays, whatever is claimed later.
pub claim_route-keeps :
    (host key : Text) (rc : RouteCfg) (sticky : Bool) (m : RenderModel) (h k : Text)
    (old : RouteCfg)
    → route_at h k m ≡ some old
    → route_at h k (claim_route host key rc sticky m).0 ≡ some old
claim_route-keeps host key rc sticky m h k old e = ground (
  arith,
  claim_route-routes host key rc sticky m h k,
  claim_route-granted host key rc sticky m,
  eq_iff host h,
  eq_iff key k,
)

module _ (servers : List Backend) (a : AnnSettings) (req resp : List Text) where
  -- `addRoute` grants a route exactly when the host is not claimed for passthrough and its
  -- normalised path is free on that host. A granted route is stored under that path, and every
  -- other route is as before; a refused call leaves the whole model as it was.
  pub add_route-first_wins :
      (host path : Text) (m : RenderModel)
      → let r = add_route host path servers a req resp m in
        (r.1 ≡ (
          not (has_key host m.passthrough_hosts)
          && not (is_some (route_at host (route_key path) m))))
        × ((h k : Text)
            → route_at h k r.0 ≡ (
                if r.1 && (host == h) && (route_key path == k)
                then some (route_cfg servers a req resp [])
                else route_at h k m))
        × ((r.1 ≡ true) ⊎ (r.0 ≡ m))
  unfolding add_route
  add_route-first_wins host path m =
      let rc = route_cfg servers a req resp [] in
      (
        claim_route-granted host (route_key path) rc a.sticky m,
        claim_route-routes host (route_key path) rc a.sticky m,
        elim (Bool-cases (claim_route host (route_key path) rc a.sticky m).1) [
          | inl e ↦ inl e
          | inr e ↦ inr (claim_route-refused host (route_key path) rc a.sticky m e)
        ],
      )
