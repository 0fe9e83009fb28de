-- ===== src/Routes/Render/Order.antt =====
-- controllers/routes.go: the documents, and the order in which Go ranges over a map.
use mathlib.Core.Path.{fun_ext}
use mathlib.Core.List.Perm
use moat_operator.Base.{
  ℕ, Bool, [], ◌++◌, ◌≡◌, ap₂, Perm, Text, Map, lookup, keys, sort-perm, option_or,
}
use moat_operator.Routes.{Paths, RenderModel}
use moat_operator.Routes.Render.{route_blocks, host_block, render_upstreams}
use moat_operator.Routes.Render.V2.{
  terminate_block, route_blocks_v2, host_block_v2, render_upstreams_v2,
}

-- Two association lists that stand for one Go map.
pub record SameMap {ℓ} {V : Type ℓ} (m n : Map V) : Type ℓ where
  pub ranges : Perm (keys m) (keys n)
  pub reads : (k : Text) → lookup k m ≡ lookup k n

-- Two render models that differ in the order of their maps only.
pub record SameModel (m n : RenderModel) : Type 0 where
  pub hosts : Perm (keys m.hosts) (keys n.hosts)
  pub paths :
      (h : Text) → SameMap (option_or (lookup h m.hosts) []) (option_or (lookup h n.hosts) [])
  pub acme : m.acme ≡ n.acme
  pub host_cert : (h : Text) → lookup h m.host_cert ≡ lookup h n.host_cert
  pub passthrough : SameMap m.passthrough_hosts n.passthrough_hosts
  pub sticky : m.sticky ≡ n.sticky

keys-same :
    {m n : RenderModel}
    → SameModel m n
    → Perm (keys m.hosts ++ keys m.passthrough_hosts) (keys n.hosts ++ keys n.passthrough_hosts)
keys-same same = Perm.append same.hosts same.passthrough.ranges

module _ (is_print : ℕ → Bool) where
  terminate_block-same :
      (stem : Text) (p q : Paths)
      → SameMap p q
      → terminate_block is_print stem p ≡ terminate_block is_print stem q
  unfolding terminate_block
  terminate_block-same stem p q s =
      rw (ap₂ (route_blocks_v2 is_print) (fun_ext s.reads) (sort-perm s.ranges))

  module _ (m n : RenderModel) (same : SameModel m n) where
    host_block-same : (h : Text) → host_block is_print m h ≡ host_block is_print n h
    unfolding host_block
    host_block-same h =
        let s = same.paths h in
        rw (ap₂ (route_blocks is_print) (fun_ext s.reads) (sort-perm s.ranges), same.host_cert h)

    host_block_v2-same : (h : Text) → host_block_v2 is_print m h ≡ host_block_v2 is_print n h
    unfolding host_block_v2
    host_block_v2-same h = rw (
      terminate_block-same (option_or (lookup h m.host_cert) []) _ _ (same.paths h),
      same.passthrough.reads h,
      same.host_cert h,
    )

    -- Two models that differ in the order of their maps only render to the same v1 document and
    -- to the same v2 document.
    pub render-order :
        (render_upstreams is_print m ≡ render_upstreams is_print n)
        × (render_upstreams_v2 is_print m ≡ render_upstreams_v2 is_print n)
    unfolding render_upstreams render_upstreams_v2
    render-order = (
      rw (sort-perm same.hosts, fun_ext host_block-same, same.acme, same.sticky),
      rw (sort-perm (keys-same same), fun_ext host_block_v2-same, same.acme, same.sticky),
    )
