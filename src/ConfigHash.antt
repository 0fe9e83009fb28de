-- ===== src/ConfigHash.antt =====
-- controllers/configmap_controller.go: the hash over the configuration sources of a namespace.
pub mod Rollout
pub mod Order
pub mod References
pub mod Unreferenced
pub mod Stamped
pub mod Settled
pub mod Reloaded
use moat_operator.Base.{
  ℕ, Bool, true, false, not, ◌&&◌, Option, none, some, List, [], ◌∷◌, ◌++◌, Text, codes, Map,
  lookup, keys, ◌==◌, if◌then◌else◌, is_nil, option_or, length, ltb, has_prefix, sort, sort_by, map,
  text_leb,
}
use moat_operator.Kube.Workloads.{ConfigMap, Secret}
use moat_operator.ConfigSync.{in_set}
use moat_operator.Resolver.Document.{
  Value, scalar, str, seq, table, Fields, no_fields, more_fields, field, set_field,
}

-- The hex digest of SHA-256, and the YAML library: no document where it fails or is null.
pub record Libraries : Type 0 where
  pub sha256_hex : Text → Text
  pub unmarshal : Text → Option Fields
  pub marshal : Fields → Option Text

-- The fields of `ConfigMapReconciler`.
pub record Settings : Type 0 where
  pub annotation : Text
  pub ignored_config_map_keys : List Text
  pub ignored_secret_keys : List Text
  pub exclude_hot_reload_ids_fields : Bool
  pub per_workload_config_hash : Bool

abbrev pub synapse_config_key : Text
synapse_config_key = codes "config.yaml"

abbrev pub hot_reload_ids_fields : List Text
hot_reload_ids_fields =
    codes "address_vars"
    ∷ codes "enforce_block"
    ∷ codes "rule_paths"
    ∷ codes "port_vars"
    ∷ codes "flow_timeout_secs"
    ∷ codes "max_flows"
    ∷ []

-- `delete(m, k)`
unfoldable pub delete_field : Text → Fields → Fields
delete_field k no_fields = no_fields
delete_field k (more_fields j v fs) =
    let rest = delete_field k fs in if k == j then rest else more_fields j v rest

unfoldable pub delete_fields : List Text → Fields → Fields
unfolding delete_field
delete_fields [] fs = fs
delete_fields (k ∷ ks) fs = delete_fields ks (delete_field k fs)

unfoldable pub strip_hot_reload_ids_fields : Fields → Fields
unfolding delete_fields
strip_hot_reload_ids_fields ids = delete_fields hot_reload_ids_fields ids

-- The map under "ids" of the parent is stripped, where it is a map.
abbrev pub strip_subtree : Fields → Option Value → Fields
strip_subtree parent (some (table ids)) =
    set_field (codes "ids") (table (strip_hot_reload_ids_fields ids)) parent
strip_subtree parent v = parent

unfoldable pub strip_ids : Fields → Fields
unfolding strip_hot_reload_ids_fields set_field field
strip_ids parent = strip_subtree parent (field (codes "ids") parent)

abbrev pub strip_firewall : Fields → Option Value → Fields
strip_firewall root (some (table fw)) = set_field (codes "firewall") (table (strip_ids fw)) root
strip_firewall root v = root

unfoldable pub strip_root : Fields → Fields
unfolding strip_ids
strip_root root = strip_firewall (strip_ids root) (field (codes "firewall") (strip_ids root))

unfoldable pub should_ignore_key : Text → List Text → Bool
unfolding in_set
should_ignore_key k ignored = if is_nil ignored then false else in_set k ignored

-- The keys that are hashed, with the prefix that tells where they are from.
unfoldable pub kept_keys : List Text → Text → List Text → List Text
unfolding should_ignore_key
kept_keys ignored tag [] = []
kept_keys ignored tag (k ∷ ks) =
    let rest = kept_keys ignored tag ks in
    if should_ignore_key k ignored then rest else (tag ++ k) ∷ rest

abbrev pub without_tag : Text → Text
without_tag [] = []
without_tag (a ∷ []) = []
without_tag (a ∷ b ∷ k) = k

-- A field of the hashed text: a tag, a key, a zero byte, a value.
abbrev pub framed : Text → Text → Text → Text
framed tag k v = tag ++ k ++ 0 ∷ v

-- The hex digest over the entries, each closed by a zero byte.
unfoldable pub each_closed : (Text → Text) → List Text → Text
each_closed f [] = []
each_closed f (k ∷ ks) = f k ++ 0 ∷ each_closed f ks

abbrev pub secret_entry : Secret → Text → Text
secret_entry secret k =
    let key = without_tag k in framed (codes "d") key (option_or (lookup key secret.contents) [])

-- `hashEntry`: a key, and a hash that is not empty.
abbrev pub with_entry : Text → Text → List (Text × Text) → List (Text × Text)
with_entry key hash rest = if is_nil hash then rest else (key, hash) ∷ rest

abbrev pub entry_leb : Text × Text → Text × Text → Bool
entry_leb a b = text_leb a.0 b.0

unfoldable pub hashed_text : List (Text × Text) → Text
hashed_text [] = []
hashed_text ((key, hash) ∷ es) = key ++ 0 ∷ hash ++ 0 ∷ hashed_text es

module _ (lib : Libraries) where
  abbrev pub canonical_root : Text → Option Fields → Text
  canonical_root raw none = raw
  canonical_root raw (some root) = option_or (lib.marshal (strip_root root)) raw

  unfoldable pub canonical_config_sans_hot_reload_ids : Text → Text
  unfolding strip_root
  canonical_config_sans_hot_reload_ids raw = canonical_root raw (lib.unmarshal raw)

  abbrev pub config_value : Bool → Text → Text → Text
  config_value exclude key value =
      if exclude && (key == synapse_config_key)
      then canonical_config_sans_hot_reload_ids value
      else value

  abbrev pub config_map_entry : Bool → ConfigMap → Text → Text
  config_map_entry exclude cfg k =
      let key = without_tag k in
      if ltb 2 (length k) && has_prefix k (codes "s:")
      then framed (codes "s") key (config_value exclude key (option_or (lookup key cfg.texts) []))
      else if ltb 2 (length k) && has_prefix k (codes "b:")
      then framed (codes "b") key (option_or (lookup key cfg.binaries) [])
      else []

  abbrev pub config_map_keys : ConfigMap → List Text → List Text
  config_map_keys cfg ignored =
      kept_keys ignored (codes "s:") (keys cfg.texts)
      ++ kept_keys ignored (codes "b:") (keys cfg.binaries)

  unfoldable pub hash_config_map_content : ConfigMap → List Text → Bool → Text
  unfolding kept_keys each_closed canonical_config_sans_hot_reload_ids
  hash_config_map_content cfg ignored exclude =
      let ks = config_map_keys cfg ignored in
      if is_nil cfg.texts && is_nil cfg.binaries
      then []
      else if is_nil ks
      then []
      else lib.sha256_hex (each_closed (config_map_entry exclude cfg) (sort ks))

  unfoldable pub hash_secret_content : Secret → List Text → Text
  unfolding kept_keys each_closed
  hash_secret_content secret ignored =
      let ks = kept_keys ignored (codes "d:") (keys secret.contents) in
      if is_nil secret.contents
      then []
      else if is_nil ks
      then []
      else lib.sha256_hex (each_closed (secret_entry secret) (sort ks))

  module _ (r : Settings) where
    unfoldable pub config_map_entries : List ConfigMap → List (Text × Text)
    unfolding hash_config_map_content
    config_map_entries [] = []
    config_map_entries (cfg ∷ cms) =
        with_entry (codes "configmap/" ++ cfg.name)
          (hash_config_map_content cfg r.ignored_config_map_keys r.exclude_hot_reload_ids_fields)
          (config_map_entries cms)

    unfoldable pub secret_entries : List Secret → List (Text × Text)
    unfolding hash_secret_content
    secret_entries [] = []
    secret_entries (secret ∷ secrets) =
        with_entry (codes "secret/" ++ secret.name)
          (hash_secret_content secret r.ignored_secret_keys) (secret_entries secrets)

    unfoldable pub hash_config_sources : List ConfigMap → List Secret → Text
    unfolding config_map_entries secret_entries hashed_text
    hash_config_sources cms secrets =
        let es = config_map_entries cms ++ secret_entries secrets in
        if is_nil es then [] else lib.sha256_hex (hashed_text (sort_by entry_leb es))
