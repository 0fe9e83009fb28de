-- ===== src/Edges/Stream.antt =====
-- controllers/edge_producer.go: the state of the producer, its deltas and its baselines. The
-- encoder of a delta is a parameter, as are the HTTP client and the hex digest of SHA-256.
use moat_operator.Base.{
  ℕ, Option, none, some, List, [], ◌∷◌, ◌+◌, ◌%◌, ◌^◌, Text, codes, ◌==◌, if◌then◌else◌, is_nil,
  ◌>>=◌, seen_in, add_all, ◌&&◌,
}
use moat_operator.Kube.Pods.{Pod}
use moat_operator.Kube.Policies.{LabelSelector, NetworkPolicy, Namespace}
use moat_operator.Edges.{Selector}
use moat_operator.Edges.Lines.{compute_edge_lines, build_edge_doc}
use moat_operator.Relay.{HttpClient, Target, post_delta, upload}

pub record EdgeDelta : Type 0 where
  pub epoch : ℕ
  pub seq : ℕ
  pub cluster : Text
  pub upserts : List Text
  pub removes : List Text

pub record EdgeInputs : Type 0 where
  pub policies : List NetworkPolicy
  pub pods : List Pod
  pub namespaces : List Namespace

-- `edgeInputs`: none where one of the three lists cannot be read.
unfoldable pub edge_inputs :
    Option (List NetworkPolicy) → Option (List Pod) → Option (List Namespace) → Option EdgeInputs
edge_inputs nps pods nss = do
  policies ← nps
  all_pods ← pods
  namespaces ← nss
  some (record { policies = policies; pods = all_pods; namespaces = namespaces })

-- The fields of `EdgeProducerReconciler` that change, and its target.
pub record Producer : Type 0 where
  pub target : Target
  pub epoch : ℕ
  pub seq : ℕ
  pub index : List Text
  pub last_version : Text

unfoldable pub line_set : List Text → List Text
unfolding add_all
line_set lines = add_all lines []

-- The members of a set that another one lacks.
unfoldable pub missing_from : List Text → List Text → List Text
unfolding seen_in
missing_from other [] = []
missing_from other (l ∷ ls) =
    let rest = missing_from other ls in if seen_in l other then rest else l ∷ rest

-- The sequence number is a uint64.
abbrev pub next_seq : ℕ → ℕ
next_seq n = (n + 1) % 2 ^ 64

abbrev pub delta_to : Producer → List Text → EdgeDelta
delta_to r new_set = record {
  epoch = r.epoch;
  seq = next_seq r.seq;
  cluster = r.target.cluster_id;
  upserts = missing_from r.index new_set;
  removes = missing_from new_set r.index;
}

module _ (as_selector : LabelSelector → Option Selector) (encode : EdgeDelta → Option Text)
    (sha256_hex : Text → Text) where
  abbrev pub lines_of : EdgeInputs → List Text
  lines_of i = (compute_edge_lines as_selector i.policies i.pods i.namespaces).0

  abbrev pub doc_of : EdgeInputs → Text × Text × ℕ
  doc_of i = build_edge_doc as_selector sha256_hex i.policies i.pods i.namespaces

  -- The producer afterwards, and the delta if the server took it.
  unfoldable pub flush_delta :
      HttpClient → Option EdgeInputs → Producer → Producer × Option EdgeDelta
  unfolding compute_edge_lines line_set missing_from post_delta
  flush_delta client none r = (r, none)
  flush_delta client (some i) r =
      let new_set = line_set (lines_of i) in
      let delta = delta_to r new_set in
      if is_nil delta.upserts && is_nil delta.removes
      then (r, none)
      else if post_delta client r.target (codes "/policy-edges/delta") (encode delta)
      then (record r { seq = delta.seq; index = new_set }, some delta)
      else (r, none)

  -- The producer afterwards, and the lines of the baseline if the server took it.
  unfoldable pub build_and_upload :
      HttpClient → Option EdgeInputs → Producer → Producer × Option (List Text)
  unfolding build_edge_doc line_set upload
  build_and_upload client none r = (r, none)
  build_and_upload client (some i) r =
      let (doc, version, edges) = doc_of i in
      let lines = lines_of i in
      let reseeded : Producer = record r { index = line_set lines } in
      if version == r.last_version
      then (reseeded, none)
      else if upload client r.target (codes "/policy-edges/upload") (codes "text/plain") version doc
      then (record reseeded { last_version = version }, some lines)
      else (reseeded, none)
