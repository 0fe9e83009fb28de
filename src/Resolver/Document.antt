-- ===== src/Resolver/Document.antt =====
-- `resolveYAML` of controllers/upstreams_resolver.go.
pub mod Counts
pub mod Keys
pub mod Servers
use moat_operator.Base.{
  ℕ, Bool, true, false, not, ◌&&◌, ◌||◌, Option, none, some, List, [], ◌∷◌, ◌++◌, ◌+◌, Text, codes,
  Map, lookup, insert, ◌==◌, if◌then◌else◌, is_nil, option_or, ◌>>=◌, ◌>>◌,
}
use moat_operator.Kube.{NamespacedName, Service}
use moat_operator.Resolver.{rewrite_server}

-- What `yaml.Unmarshal` into `any` builds.
mutual
  pub data Value : Type 0 where
    scalar : (printed : Text) → Value
    str : (text : Text) → Value
    seq : (items : Values) → Value
    table : (fields : Fields) → Value

  pub data Values : Type 0 where
    no_values : Values
    more_values : (item : Value) (rest : Values) → Values

  pub data Fields : Type 0 where
    no_fields : Fields
    more_fields : (key : Text) (value : Value) (rest : Fields) → Fields

-- `resolutionSummary`
pub record Summary : Type 0 where
  pub total : ℕ
  pub resolved : ℕ
  pub passthrough : ℕ

unfoldable pub field : Text → Fields → Option Value
field k no_fields = none
field k (more_fields j v fs) = if k == j then some v else field k fs

-- `m[k] = v` for a key that is there.
unfoldable pub set_field : Text → Value → Fields → Fields
set_field k v no_fields = no_fields
set_field k v (more_fields j w fs) =
    let rest = set_field k v fs in if k == j then more_fields j v fs else more_fields j w rest

abbrev pub counted : Text × Bool → Summary → Summary
counted (t, true) s = record {
  total = s.total + 1;
  resolved = s.resolved + 1;
  passthrough = s.passthrough;
}
counted (t, false) s = record {
  total = s.total + 1;
  resolved = s.resolved;
  passthrough = s.passthrough + 1;
}

module _ (get : NamespacedName → Option Service) (domain ns : Text) where
  -- The loop over `servers`.
  unfoldable pub resolve_servers : Values → Summary → Values × Summary
  resolve_servers no_values s = (no_values, s)
  resolve_servers (more_values (str addr) vs) s =
      let r = rewrite_server get domain ns addr in
      let (rest, t) = resolve_servers vs (counted r s) in (more_values (str r.0) rest, t)
  resolve_servers (more_values v vs) s =
      let (rest, t) = resolve_servers vs s in (more_values v rest, t)

  abbrev pub resolve_path_servers : Fields → Option Value → Summary → Value × Summary
  resolve_path_servers path (some (seq servers)) s =
      let (vs, t) = resolve_servers servers s in
      (table (set_field (codes "servers") (seq vs) path), t)
  resolve_path_servers path v s = (table path, s)

  abbrev pub resolve_path : Value → Summary → Value × Summary
  resolve_path (table path) s = resolve_path_servers path (field (codes "servers") path) s
  resolve_path v s = (v, s)

  -- The loop over `paths`.
  unfoldable pub resolve_paths : Fields → Summary → Fields × Summary
  unfolding resolve_servers field set_field
  resolve_paths no_fields s = (no_fields, s)
  resolve_paths (more_fields k v fs) s =
      let (w, t) = resolve_path v s in
      let (rest, u) = resolve_paths fs t in (more_fields k w rest, u)

  abbrev pub resolve_host_paths : Fields → Option Value → Summary → Value × Summary
  resolve_host_paths host (some (table paths)) s =
      let (ps, t) = resolve_paths paths s in (table (set_field (codes "paths") (table ps) host), t)
  resolve_host_paths host v s = (table host, s)

  abbrev pub resolve_host : Value → Summary → Value × Summary
  resolve_host (table host) s = resolve_host_paths host (field (codes "paths") host) s
  resolve_host v s = (v, s)

  -- The loop over `upstreams`.
  unfoldable pub resolve_hosts : Fields → Summary → Fields × Summary
  unfolding resolve_paths
  resolve_hosts no_fields s = (no_fields, s)
  resolve_hosts (more_fields k v fs) s =
      let (w, t) = resolve_host v s in
      let (rest, u) = resolve_hosts fs t in (more_fields k w rest, u)

abbrev pub no_summary : Summary
no_summary = record { total = 0; resolved = 0; passthrough = 0 }

module _ (unmarshal : Text → Option Fields) (marshal : Fields → Option Text)
    (get : NamespacedName → Option Service) (domain : Text) where
  abbrev pub resolve_upstreams : Text → Text → Fields → Option Value → Option (Text × Summary)
  resolve_upstreams ns doc root (some (table upstreams)) = do
    let (hosts, s) = resolve_hosts get domain ns upstreams no_summary
    out ← marshal (set_field (codes "upstreams") (table hosts) root)
    some (out, s)
  resolve_upstreams ns doc root v = some (doc, no_summary)

  unfoldable pub resolve_yaml : Text → Text → Option (Text × Summary)
  unfolding resolve_hosts
  resolve_yaml ns doc = do
    root ← unmarshal doc
    resolve_upstreams ns doc root (field (codes "upstreams") root)
