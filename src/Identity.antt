-- ===== src/Identity.antt =====
-- controllers/identity_producer.go: which workload an IP belongs to.
pub mod Owners
pub mod Stream
pub mod Applied
use moat_operator.Base.{
  ℕ, Bool, true, false, not, ◌&&◌, ◌||◌, Option, none, some, List, [], ◌∷◌, ◌++◌, ◌-◌, Text, codes,
  Map, lookup, insert, has_key, ◌==◌, eqb, leb, ltb, if◌then◌else◌, is_nil, option_or, length,
  contains, trim_prefix, trim_space, map, seen_in,
}
use moat_operator.Kube.Pods.{OwnerReference, PodCondition, Pod}
use moat_operator.Resolver.{split_last}

-- `identityEntry`
pub record Entry : Type 0 where
  pub ip : Text
  pub workload : Text
  pub namespace : Text
  pub app : Text
  pub labels : Map Text
  pub internet_exposed : Bool
  pub control_plane : Bool

-- `name[k]` of a map of strings: "" where the key is missing.
abbrev pub value_of : Text → Map Text → Text
value_of k m = option_or (lookup k m) []

unfoldable pub all_in : (ℕ → Bool) → Text → Bool
all_in f [] = true
all_in f (c ∷ s) = f c && all_in f s

abbrev pub is_digit : ℕ → Bool
is_digit c = leb b'0' c && leb c b'9'

abbrev pub is_hash_char : ℕ → Bool
is_hash_char c = (leb b'a' c && leb c b'z') || is_digit c

-- The name before a suffix, if the suffix looks like a pod-template hash.
abbrev pub hash_trimmed : Text → Option (Text × Text) → Text
hash_trimmed name none = name
hash_trimmed name (some (stem, suffix)) =
    if is_nil stem
    then name
    else if ltb (length suffix) 5 || ltb 10 (length suffix)
    then name
    else if all_in is_hash_char suffix
    then stem
    else name

unfoldable pub trim_replica_set_hash : Text → Text
unfolding split_last all_in
trim_replica_set_hash name = hash_trimmed name (split_last b'-' name)

unfoldable pub is_ordinal_pod : Text → Text → Bool
unfolding all_in
is_ordinal_pod pod_name controller_name =
    let suffix = trim_prefix pod_name (controller_name ++ codes "-") in
    if (suffix == pod_name) || is_nil suffix then false else all_in is_digit suffix

abbrev pub owner_name : Text → OwnerReference → Text
owner_name pod_name o =
    if o.kind == codes "ReplicaSet"
    then trim_replica_set_hash o.name
    else if is_ordinal_pod pod_name o.name
    then pod_name
    else o.name

-- The name by the first controller among the owners, or "".
unfoldable pub controller_workload : Text → List OwnerReference → Text
unfolding trim_replica_set_hash is_ordinal_pod
controller_workload pod_name [] = []
controller_workload pod_name (o ∷ os) =
    if option_or o.controller false then owner_name pod_name o else controller_workload pod_name os

abbrev pub app_label : Pod → Text
app_label p =
    let named = value_of (codes "app.kubernetes.io/name") p.labels in
    if is_nil named then value_of (codes "app") p.labels else named

-- The workload and the app.
unfoldable pub workload_identity : Pod → Text × Text
unfolding controller_workload
workload_identity p =
    let app = app_label p in
    let controlled = controller_workload p.name p.owner_references in
    let workload = if is_nil controlled then (if is_nil app then p.name else app) else controlled in
    (workload, if is_nil app then workload else app)

-- The first condition of type Ready decides.
unfoldable pub is_ready : List PodCondition → Bool
is_ready [] = false
is_ready (c ∷ cs) = if c.type == codes "Ready" then c.status == codes "True" else is_ready cs

unfoldable pub pod_serving : Pod → Bool
unfolding is_ready
pod_serving p =
    if p.is_deleting
    then false
    else if not (p.phase == codes "Running")
    then false
    else is_ready p.conditions

-- `add` of `podIPs`, over a list; the first argument is what has been added.
unfoldable pub add_ips : List Text → List Text → List Text
unfolding seen_in
add_ips acc [] = acc
add_ips acc (x ∷ xs) =
    let ip = trim_space x in
    add_ips (if is_nil ip || seen_in ip acc then acc else acc ++ ip ∷ []) xs

unfoldable pub pod_ips_of : Pod → List Text
unfolding add_ips
pod_ips_of p = add_ips [] (p.pod_ip ∷ p.pod_ips)

abbrev pub instance_labels : List Text
instance_labels =
    codes "pod-template-hash"
    ∷ codes "controller-revision-hash"
    ∷ codes "pod-template-generation"
    ∷ codes "statefulset.kubernetes.io/pod-name"
    ∷ codes "apps.kubernetes.io/pod-index"
    ∷ codes "controller-uid"
    ∷ codes "batch.kubernetes.io/controller-uid"
    ∷ codes "batch.kubernetes.io/job-name"
    ∷ codes "job-name"
    ∷ []

unfoldable pub filter_labels : Map Text → Map Text
unfolding seen_in
filter_labels [] = []
filter_labels ((k, v) ∷ m) =
    let rest = filter_labels m in if seen_in k instance_labels then rest else (k, v) ∷ rest

-- `byIP` and `start` together: each IP with its entry and the start time of the pod.
abbrev pub Claims : Type 0
Claims = Map (ℕ × Entry)

abbrev pub is_beaten : ℕ → Option (ℕ × Entry) → Bool
is_beaten st none = false
is_beaten st (some (prev, e)) = not (ltb prev st)

abbrev pub entry_of : Pod → Text → Entry
entry_of p ip = record {
  ip = ip;
  workload = (workload_identity p).0;
  namespace = p.namespace;
  app = (workload_identity p).1;
  labels = filter_labels p.labels;
  internet_exposed = false;
  control_plane = false;
}

abbrev pub started : Pod → ℕ
started p = option_or p.start_time 0

unfoldable pub claim_ips : Pod → List Text → Claims → Claims
unfolding workload_identity filter_labels
claim_ips p [] m = m
claim_ips p (ip ∷ ips) m =
    claim_ips p ips
      (if is_beaten (started p) (lookup ip m) then m else insert ip (started p, entry_of p ip) m)

-- The pod takes part: not on the host's network, serving, and with a workload.
abbrev pub is_counted : Pod → Bool
is_counted p = not p.host_network && pod_serving p && not (is_nil (workload_identity p).0)

unfoldable pub claim_pods : List Pod → Claims → Claims
unfolding claim_ips pod_serving pod_ips_of
claim_pods [] m = m
claim_pods (p ∷ ps) m = claim_pods ps (if is_counted p then claim_ips p (pod_ips_of p) m else m)

unfoldable pub resolve_identity_entries : List Pod → List Entry
unfolding claim_pods
resolve_identity_entries pods = map (λ (kv : Text × (ℕ × Entry)). kv.1.1) (claim_pods pods [])
