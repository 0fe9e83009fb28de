-- ===== src/Identity/Stream.antt =====
-- controllers/identity_producer.go: the state of the producer, its deltas and its baselines. The
-- encoder of a delta and the writer of an MMDB are parameters, with none where they fail, as are
-- the HTTP client and the hex digest of SHA-256.
use moat_operator.Base.{
  ℕ, Bool, true, false, not, ◌&&◌, Option, none, some, List, [], ◌∷◌, ◌++◌, Text, codes, Map,
  lookup, insert, has_key, ◌==◌, eqb, if◌then◌else◌, is_nil, option_or, length, map, sort, join,
  seen_in,
}
use moat_operator.Kube.{Service, Ingress}
use moat_operator.Kube.Pods.{Pod}
use moat_operator.Classify.{internet_exposed_refs, is_control_plane}
use moat_operator.Edges.{workload_ref}
use moat_operator.Edges.Lines.{first_chars}
use moat_operator.Edges.Stream.{next_seq}
use moat_operator.Relay.{HttpClient, Target, post_delta, upload}
use moat_operator.Identity.{Entry, value_of, resolve_identity_entries}

-- `IdentityEntry`
pub record WireEntry : Type 0 where
  pub ip : Text
  pub workload : Text
  pub namespace : Text
  pub app : Text
  pub labels : Map Text

pub record IdentityDelta : Type 0 where
  pub epoch : ℕ
  pub seq : ℕ
  pub cluster : Text
  pub upserts : List WireEntry
  pub removes : List Text

pub record IdentityProducer : Type 0 where
  pub target : Target
  pub epoch : ℕ
  pub seq : ℕ
  pub index : Map Entry
  pub last_version : Text

unfoldable pub same_labels : Map Text → Map Text → Bool
same_labels [] o = true
same_labels ((k, v) ∷ labels) o = let rest = same_labels labels o in (value_of k o == v) && rest

abbrev pub eq_flag : Bool → Bool → Bool
eq_flag true b = b
eq_flag false b = not b

unfoldable pub equal_to : Entry → Entry → Bool
unfolding same_labels
equal_to e o =
    (e.ip == o.ip)
    && (e.workload == o.workload)
    && (e.namespace == o.namespace)
    && (e.app == o.app)
    && eq_flag e.internet_exposed o.internet_exposed
    && eq_flag e.control_plane o.control_plane
    && eqb (length e.labels) (length o.labels)
    && same_labels e.labels o.labels

unfoldable pub index_entries : List Entry → Map Entry → Map Entry
unfolding insert
index_entries [] m = m
index_entries (e ∷ es) m = index_entries es (insert e.ip e m)

abbrev pub wire : Entry → WireEntry
wire e = record {
  ip = e.ip;
  workload = e.workload;
  namespace = e.namespace;
  app = e.app;
  labels = e.labels;
}

abbrev pub is_same : Option Entry → Entry → Bool
is_same none e = false
is_same (some prev) e = equal_to prev e

unfoldable pub changed_entries : Map Entry → Map Entry → List WireEntry
unfolding equal_to lookup
changed_entries index [] = []
changed_entries index ((ip, e) ∷ m) =
    let rest = changed_entries index m in
    if is_same (lookup ip index) e then rest else wire e ∷ rest

unfoldable pub removed_ips : Map Entry → Map Entry → List Text
unfolding lookup
removed_ips new_index [] = []
removed_ips new_index ((ip, e) ∷ m) =
    let rest = removed_ips new_index m in if has_key ip new_index then rest else ip ∷ rest

abbrev pub delta_to : IdentityProducer → Map Entry → IdentityDelta
delta_to r new_index = record {
  epoch = r.epoch;
  seq = next_seq r.seq;
  cluster = r.target.cluster_id;
  upserts = changed_entries r.index new_index;
  removes = removed_ips new_index r.index;
}

abbrev pub flag_text : Bool → Text
flag_text true = codes "true"
flag_text false = codes "false"

abbrev pub version_row : Entry → Text
version_row e = join (codes "|") (
    e.ip
    ∷ e.namespace
    ∷ e.workload
    ∷ e.app
    ∷ flag_text e.internet_exposed
    ∷ flag_text e.control_plane
    ∷ [])

unfoldable pub identity_version : (Text → Text) → List Entry → Text
unfolding join sort
identity_version sha256_hex entries =
    codes "id-" ++ first_chars 16 (sha256_hex (join (codes "\n") (sort (map version_row entries))))

abbrev pub classified : List Text → Entry → Entry
classified exposed e = record e {
  internet_exposed = seen_in (workload_ref e.namespace e.workload) exposed;
  control_plane = is_control_plane e.workload;
}

module _ (encode : IdentityDelta → Option Text) (sha256_hex : Text → Text)
    (build_identity_mmdb : List Entry → Option Text) where
  abbrev pub table_of : List Pod → Map Entry
  table_of pods = index_entries (resolve_identity_entries pods) []

  unfoldable pub flush_delta :
      HttpClient → Option (List Pod) → IdentityProducer → IdentityProducer × Option IdentityDelta
  unfolding index_entries resolve_identity_entries changed_entries removed_ips post_delta
  flush_delta client none r = (r, none)
  flush_delta client (some pods) r =
      let new_index = table_of pods in
      let delta = delta_to r new_index in
      if is_nil delta.upserts && is_nil delta.removes
      then (r, none)
      else if post_delta client r.target (codes "/identity/delta") (encode delta)
      then (record r { seq = delta.seq; index = new_index }, some delta)
      else (r, none)

  abbrev pub upload_table :
      HttpClient
      → List Entry
      → IdentityProducer
      → Option Text
      → IdentityProducer × Option (List Entry)
  upload_table client entries r none = (r, none)
  upload_table client entries r (some mmdb) =
      let version = identity_version sha256_hex entries in
      if upload client r.target (codes "/identity/upload") (codes "application/octet-stream")
        version mmdb
      then (record r { last_version = version }, some entries)
      else (r, none)

  -- Services and Ingresses that cannot be listed count as none.
  unfoldable pub build_and_upload :
      HttpClient
      → Option (List Pod)
      → Option (List Service)
      → Option (List Ingress)
      → IdentityProducer
      → IdentityProducer × Option (List Entry)
  unfolding index_entries resolve_identity_entries internet_exposed_refs is_control_plane
      identity_version upload seen_in
  build_and_upload client none svcs ings r = (r, none)
  build_and_upload client (some pods) svcs ings r =
      let entries = resolve_identity_entries pods in
      let reseeded : IdentityProducer = record r { index = index_entries entries [] } in
      let exposed = internet_exposed_refs pods (option_or svcs []) (option_or ings []) in
      let rows = map (classified exposed) entries in
      if is_nil entries
      then (reseeded, none)
      else if identity_version sha256_hex rows == r.last_version
      then (reseeded, none)
      else upload_table client rows reseeded (build_identity_mmdb rows)
