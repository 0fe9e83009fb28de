-- ===== src/NetVars.antt =====
-- controllers/netvars_resolver.go: HOME_NET and EXTERNAL_NET of the IDS in config.yaml. The YAML
-- library is a parameter: `unmarshal` gives none for an error and no document for null.
pub mod Addresses
pub mod Documents
pub mod Settled
use moat_operator.Base.{
  ℕ, Bool, true, false, not, ◌&&◌, ◌||◌, Option, none, some, List, [], ◌∷◌, ◌++◌, Text, codes, Map,
  lookup, insert, ◌==◌, if◌then◌else◌, is_nil, option_or, trim_space, equal_fold, sort, join,
  add_once, add_all,
}
use moat_operator.Identity.{value_of}
use moat_operator.Resolver.Document.{
  Value, scalar, str, seq, table, Fields, no_fields, more_fields, field,
}
use moat_operator.NetVars.Addresses.{parse_addr, has_4_bytes, is_cidr, Addr}

pub data NodeAddressType : Type 0 where
  internal_ip external_ip other_address : NodeAddressType

pub record NodeAddress : Type 0 where
  pub type : NodeAddressType
  pub address : Text

pub record Node : Type 0 where
  pub addresses : List NodeAddress
  pub pod_cidr : Text
  pub pod_cidrs : List Text

-- The addresses of a Service.
pub record ServiceIps : Type 0 where
  pub ingress_ips : List Text
  pub external_ips : List Text
  pub load_balancer_ip : Text

-- A source ConfigMap.
pub record Source : Type 0 where
  pub labels : Map Text
  pub annotations : Map Text
  pub contents : Map Text

abbrev pub source_label : Text
source_label = codes "synapse.gen0sec.com/resolve-netvars"

abbrev pub override_annotation : Text
override_annotation = codes "synapse.gen0sec.com/home-net"

abbrev pub managed_annotation : Text
managed_annotation = codes "synapse.gen0sec.com/netvars-managed"

abbrev pub managed_text : Bool → Text
managed_text manual = if manual then codes "manual" else codes "auto"

abbrev pub config_key : Text
config_key = codes "config.yaml"

abbrev pub internal_supernets : List Text
internal_supernets =
    codes "10.0.0.0/8"
    ∷ codes "172.16.0.0/12"
    ∷ codes "192.168.0.0/16"
    ∷ codes "100.64.0.0/10"
    ∷ codes "fc00::/7"
    ∷ codes "fe80::/10"
    ∷ []

abbrev pub cidr_of : Text → Option Addr → Text
cidr_of ip none = []
cidr_of ip (some a) = if has_4_bytes a then ip ++ codes "/32" else ip ++ codes "/128"

unfoldable pub host_cidr : Text → Text
unfolding parse_addr
host_cidr ip = cidr_of ip (parse_addr ip)

-- `if cidr != "" { set[cidr] = struct{}{} }`
abbrev pub add_cidr : Text → List Text → List Text
add_cidr cidr set = if is_nil cidr then set else add_once cidr set

abbrev pub is_node_ip : NodeAddressType → Bool
is_node_ip other_address = false
is_node_ip t = true

unfoldable pub add_addresses : List NodeAddress → List Text → List Text
unfolding host_cidr add_once
add_addresses [] set = set
add_addresses (a ∷ addrs) set =
    add_addresses addrs (if is_node_ip a.type then add_cidr (host_cidr a.address) set else set)

unfoldable pub add_pod_cidrs : List Text → List Text → List Text
unfolding is_cidr add_once
add_pod_cidrs [] set = set
add_pod_cidrs (c ∷ cidrs) set = add_pod_cidrs cidrs (if is_cidr c then add_once c set else set)

abbrev pub add_pod_cidr : Text → List Text → List Text
add_pod_cidr c set = if is_nil c then set else if is_cidr c then add_once c set else set

unfoldable pub add_nodes : List Node → List Text → List Text
unfolding add_addresses add_pod_cidrs
add_nodes [] set = set
add_nodes (n ∷ nodes) set =
    add_nodes nodes
      (add_pod_cidrs n.pod_cidrs (add_pod_cidr n.pod_cidr (add_addresses n.addresses set)))

unfoldable pub add_ips : List Text → List Text → List Text
unfolding host_cidr add_once trim_space
add_ips [] set = set
add_ips (ip ∷ ips) set = add_ips ips (add_cidr (host_cidr (trim_space ip)) set)

unfoldable pub add_load_balancer_ips : List ServiceIps → List Text → List Text
unfolding add_ips
add_load_balancer_ips [] set = set
add_load_balancer_ips (s ∷ svcs) set =
    let listed = add_ips s.external_ips (add_ips s.ingress_ips set) in
    add_load_balancer_ips svcs
      (if is_nil s.load_balancer_ip then listed else add_ips (s.load_balancer_ip ∷ []) listed)

-- The lists of nodes and Services; none where one cannot be read.
unfoldable pub auto_home_net : Option (List Node) → Option (List ServiceIps) → Option Text
unfolding add_nodes add_load_balancer_ips add_all
auto_home_net none svcs = none
auto_home_net (some nodes) none = none
auto_home_net (some nodes) (some svcs) =
    let set = add_load_balancer_ips svcs (add_nodes nodes (add_all internal_supernets [])) in
    some (codes "[" ++ join (codes ",") (sort set) ++ codes "]")

-- `m[k] = v`
unfoldable pub put_field : Text → Value → Fields → Fields
put_field k v no_fields = more_fields k v no_fields
put_field k v (more_fields j w fs) =
    let rest = put_field k v fs in if k == j then more_fields j v fs else more_fields j w rest

-- `m[k].(map[string]any)`, where no map is an empty one, and `m[k].(string)`.
abbrev pub as_map : Option Value → Fields
as_map (some (table fs)) = fs
as_map v = no_fields

abbrev pub as_text : Option Value → Text
as_text (some (str t)) = t
as_text v = []

abbrev pub address_vars : Fields → Fields
address_vars root = as_map (field (codes "address_vars") (as_map (field (codes "ids") root)))

abbrev pub with_vars : Text → Text → Fields → Fields
with_vars home external root =
    let ids = as_map (field (codes "ids") root) in
    let vars =
      put_field (codes "EXTERNAL_NET") (str external)
        (put_field (codes "HOME_NET") (str home) (address_vars root)) in
    put_field (codes "ids") (table (put_field (codes "address_vars") (table vars) ids)) root

module _ (unmarshal : Text → Option (Option Fields)) (marshal : Fields → Option Text) where
  abbrev pub home_of : Option (Option Fields) → Text
  home_of none = []
  home_of (some none) = []
  home_of (some (some root)) = trim_space (as_text (field (codes "HOME_NET") (address_vars root)))

  unfoldable pub current_home_net : Text → Text
  unfolding trim_space field
  current_home_net raw = home_of (unmarshal raw)

  -- The text and whether it changed, or none for an error.
  abbrev pub marshalled : Option Text → Option (Text × Bool)
  marshalled none = none
  marshalled (some out) = some (out, true)

  abbrev pub set_vars : Text → Text → Text → Fields → Option (Text × Bool)
  set_vars raw home external root =
      let vars = address_vars root in
      if (as_text (field (codes "HOME_NET") vars) == home)
        && (as_text (field (codes "EXTERNAL_NET") vars) == external)
      then some (raw, false)
      else marshalled (marshal (with_vars home external root))

  abbrev pub set_parsed : Text → Text → Text → Option (Option Fields) → Option (Text × Bool)
  set_parsed raw home external none = none
  set_parsed raw home external (some none) = set_vars raw home external no_fields
  set_parsed raw home external (some (some root)) = set_vars raw home external root

  unfoldable pub set_ids_address_vars : Text → Text → Text → Option (Text × Bool)
  unfolding field put_field
  set_ids_address_vars raw home external = set_parsed raw home external (unmarshal raw)

  module _ (nodes : Option (List Node)) (svcs : Option (List ServiceIps)) where
    abbrev pub is_pinned : Source → Text → Bool
    is_pinned cm cur =
        not (is_nil cur)
        && not (equal_fold cur (codes "any"))
        && not (value_of managed_annotation cm.annotations == codes "auto")

    abbrev pub unpinned : Option Text → Option (Text × Bool)
    unpinned none = none
    unpinned (some auto) = some (auto, false)

    -- HOME_NET and whether it is managed by hand, or none for an error.
    unfoldable pub desired_home_net : Source → Text → Option (Text × Bool)
    unfolding current_home_net auto_home_net equal_fold trim_space lookup
    desired_home_net cm raw =
        let override = trim_space (value_of override_annotation cm.annotations) in
        let cur = current_home_net raw in
        if not (is_nil override)
        then some (override, true)
        else if is_pinned cm cur
        then some (cur, true)
        else unpinned (auto_home_net nodes svcs)

    -- The source after a pass, whether it was updated, and whether the pass returned an error.
    pub record Pass : Type 0 where
      pub source : Source
      pub updated : Bool
      pub failed : Bool

    abbrev pub unchanged : Source → Pass
    unchanged cm = record { source = cm; updated = false; failed = false }

    abbrev pub errored : Source → Pass
    errored cm = record { source = cm; updated = false; failed = true }

    abbrev pub recorded : Source → Text → Bool → Source
    recorded cm raw manual = record cm {
      annotations = insert managed_annotation (managed_text manual) cm.annotations;
      contents = insert config_key raw cm.contents;
    }

    abbrev pub rewritten : Bool → Source → Bool → Option (Text × Bool) → Pass
    rewritten update_fails cm manual none = errored cm
    rewritten update_fails cm manual (some (raw, config_changed)) =
        if not config_changed && (value_of managed_annotation cm.annotations == managed_text manual)
        then unchanged cm
        else if update_fails
        then errored cm
        else record { source = recorded cm raw manual; updated = true; failed = false }

    abbrev pub decided : Bool → Source → Text → Option (Text × Bool) → Pass
    decided update_fails cm raw none = errored cm
    decided update_fails cm raw (some (home, manual)) =
        if is_nil home
        then unchanged cm
        else rewritten update_fails cm manual (set_ids_address_vars raw home (codes "!$HOME_NET"))

    abbrev pub with_config : Bool → Source → Option Text → Pass
    with_config update_fails cm none = unchanged cm
    with_config update_fails cm (some raw) = decided update_fails cm raw (desired_home_net cm raw)

    -- `Reconcile` on a ConfigMap that could be read.
    unfoldable pub reconcile : Bool → Source → Pass
    unfolding desired_home_net set_ids_address_vars insert
    reconcile update_fails cm =
        if not (value_of source_label cm.labels == codes "true")
        then unchanged cm
        else with_config update_fails cm (lookup config_key cm.contents)
