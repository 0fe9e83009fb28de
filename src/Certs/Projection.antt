-- ===== src/Certs/Projection.antt =====
-- controllers/certs.go: the projection of the Secrets of a render model into the certificates
-- directory, which is a map from file names to contents, or into one Secret.
use moat_operator.Base.{
  ℕ, Bool, true, false, not, ◌&&◌, ◌||◌, Option, none, some, List, [], ◌∷◌, ◌++◌, ◌+◌, ◌/◌, Text,
  codes, Map, lookup, insert, keys, eqb, if◌then◌else◌, is_nil, option_or, length, sort, seen_in,
  is_some,
}
use moat_operator.Kube.{NamespacedName}
use moat_operator.Routes.{CertProjection, RenderModel}
use moat_operator.ConfigSync.{WriteEnd, done, partial, refused, is_content, remove}
use moat_operator.Identity.{value_of}
use moat_operator.Resolver.{has_suffix, trim_suffix}

abbrev pub Dir : Type 0
Dir = Map Text

-- The calls on the directory that fail.
pub record DirFaults : Type 0 where
  pub mkdir_fails : Bool
  pub read_dir_fails : Bool
  pub write : Text → WriteEnd
  pub remove_fails : Text → Bool

-- `os.WriteFile` in place: where it fails it may have left a part of the content.
abbrev pub write_in_place : Text → Text → Dir → WriteEnd → Dir × Option Bool
write_in_place name content d refused = (d, none)
write_in_place name content d (partial some_of) = (insert name some_of d, none)
write_in_place name content d done = (insert name content d, some true)

unfoldable pub write_file_if_changed : DirFaults → Text → Text → Dir → Dir × Option Bool
unfolding is_content
write_file_if_changed f name content d =
    if is_content content (lookup name d)
    then (d, some false)
    else write_in_place name content d (f.write name)

abbrev pub crt_file : Text → Text
crt_file stem = stem ++ codes ".crt"

abbrev pub key_file : Text → Text
key_file stem = stem ++ codes ".key"

-- An operator-managed file that no wanted stem backs, or a stray temporary file.
unfoldable pub is_stale : List Text → Text → Bool
unfolding has_suffix trim_suffix seen_in
is_stale want n =
    if has_suffix n (codes ".crt")
    then not (seen_in (trim_suffix n (codes ".crt")) want)
    else if has_suffix n (codes ".key")
    then not (seen_in (trim_suffix n (codes ".key")) want)
    else has_suffix n (codes ".tmp")

-- The loop over the entries of the directory, with the count of removals.
unfoldable pub prune_names : DirFaults → List Text → List Text → Dir → Dir × ℕ
unfolding is_stale remove
prune_names f want [] d = (d, 0)
prune_names f want (n ∷ ns) d =
    let gone = is_stale want n && not (f.remove_fails n) in
    let (e, count) = prune_names f want ns (if gone then remove n d else d) in
    (e, if gone then count + 1 else count)

unfoldable pub prune_certs : DirFaults → List Text → Dir → Dir × ℕ
unfolding prune_names
prune_certs f want d = if f.read_dir_fails then (d, 0) else prune_names f want (keys d) d

-- The stems that are wanted so far, and whether a write has failed.
pub record Projecting : Type 0 where
  pub dir : Dir
  pub changed : Bool
  pub want : List Text
  pub failed : Bool

-- What `projectCerts` returns, with the directory.
pub record Projected : Type 0 where
  pub dir : Dir
  pub changed : Bool
  pub count : ℕ
  pub failed : Bool

abbrev pub no_projection : CertProjection
no_projection = record { stem = []; ns = []; name = [] }

abbrev pub tls_crt : Map Text → Text
tls_crt contents = value_of (codes "tls.crt") contents

abbrev pub tls_key : Map Text → Text
tls_key contents = value_of (codes "tls.key") contents

abbrev pub usable : Option (Map Text) → Option (Text × Text)
usable none = none
usable (some contents) =
    if is_nil (tls_crt contents) || is_nil (tls_key contents)
    then none
    else some (tls_crt contents, tls_key contents)

-- The write of the certificate, after that of its key.
abbrev pub crt_written : Text → Bool → Projecting → Dir × Option Bool → Projecting
crt_written stem kch p (d, none) = record p { dir = d; failed = true }
crt_written stem kch p (d, some cch) = record {
  dir = d;
  changed = kch || cch || p.changed;
  want = p.want ++ stem ∷ [];
  failed = false;
}

abbrev pub key_written : DirFaults → Text → Text → Projecting → Dir × Option Bool → Projecting
key_written f stem crt p (d, none) = record p { dir = d; failed = true }
key_written f stem crt p (d, some kch) =
    crt_written stem kch p (write_file_if_changed f (crt_file stem) crt d)

-- The key is written before the certificate, which makes the pair loadable.
abbrev pub project_pair : DirFaults → Text → Option (Text × Text) → Projecting → Projecting
project_pair f stem none p = p
project_pair f stem (some (crt, key)) p =
    key_written f stem crt p (write_file_if_changed f (key_file stem) key p.dir)

module _ (get : NamespacedName → Option (Map Text)) (m : RenderModel) where
  -- The certificate and the key of a stem, if its Secret has both.
  abbrev pub pair_of : Text → Option (Text × Text)
  pair_of stem =
      let cp = option_or (lookup stem m.cert_projections) no_projection in
      usable (get (record { namespace = cp.ns; name = cp.name }))

abbrev pub pruned : Projecting → Dir × ℕ → Projected
pruned p (d, count) = record {
  dir = d;
  changed = if eqb count 0 then p.changed else true;
  count = length p.want;
  failed = false;
}

abbrev pub start_projecting : Dir → Projecting
start_projecting d = record { dir = d; changed = false; want = []; failed = false }

module _ (get : NamespacedName → Option (Map Text)) (f : DirFaults) (m : RenderModel) where
  unfoldable pub project_stems : List Text → Projecting → Projecting
  unfolding write_file_if_changed
  project_stems [] p = p
  project_stems (stem ∷ stems) p =
      let q = project_pair f stem (pair_of get m stem) p in
      let rest = project_stems stems q in if q.failed then q else rest

  -- `certs_out_dir` is whether `CertsOutDir` is set.
  unfoldable pub project_certs : Bool → Dir → Projected
  unfolding project_stems prune_certs
  project_certs certs_out_dir d =
      let p = project_stems (sort (keys m.cert_projections)) (start_projecting d) in
      if not certs_out_dir
      then record { dir = d; changed = false; count = 0; failed = false }
      else if f.mkdir_fails
      then record { dir = d; changed = false; count = 0; failed = true }
      else if p.failed
      then record { dir = p.dir; changed = p.changed; count = length p.want; failed = true }
      else pruned p (prune_certs f p.want p.dir)

unfoldable pub has_all : Map Text → Map Text → Bool
has_all b [] = true
has_all b ((k, v) ∷ a) = let rest = has_all b a in is_content v (lookup k b) && rest

unfoldable pub bytes_map_equal : Map Text → Map Text → Bool
unfolding has_all
bytes_map_equal a b = if eqb (length a) (length b) then has_all b a else false

-- The Secret that receives the certificates.
pub record OutSecret : Type 0 where
  pub labels : Map Text
  pub type : Text
  pub contents : Map Text

pub record SecretProjected : Type 0 where
  pub secret : Option OutSecret
  pub changed : Bool
  pub count : ℕ
  pub failed : Bool

abbrev pub with_pair : Text → Option (Text × Text) → Map Text → Map Text
with_pair stem none out = out
with_pair stem (some (crt, key)) out = insert (key_file stem) key (insert (crt_file stem) crt out)

abbrev pub managed_label : Text
managed_label = codes "synapse.gen0sec.com/ingress-certs"

-- The mutation that `CreateOrUpdate` applies to the Secret that is there, or to an empty one.
abbrev pub mutated : Map Text → OutSecret → OutSecret
mutated contents out = record {
  labels = insert managed_label (codes "true") out.labels;
  type = codes "Opaque";
  contents = if bytes_map_equal out.contents contents then out.contents else contents;
}

module _ (get : NamespacedName → Option (Map Text)) (m : RenderModel) where
  unfoldable pub secret_pairs : List Text → Map Text → Map Text
  unfolding insert
  secret_pairs [] out = out
  secret_pairs (stem ∷ stems) out = secret_pairs stems (with_pair stem (pair_of get m stem) out)

  abbrev pub stored : Option OutSecret → Map Text → SecretProjected
  stored existing contents =
      let out = option_or existing (record { labels = []; type = []; contents = [] }) in
      record {
        secret = some (mutated contents out);
        changed = not (bytes_map_equal out.contents contents) || not (is_some existing);
        count = length contents / 2;
        failed = false;
      }

  -- `is_named` is whether `CertsOutSecret` is set, and `is_refused` whether the API server fails.
  unfoldable pub project_certs_to_secret : Bool → Bool → Option OutSecret → SecretProjected
  unfolding secret_pairs bytes_map_equal
  project_certs_to_secret is_named is_refused existing =
      if not is_named
      then record { secret = existing; changed = false; count = 0; failed = false }
      else if is_refused
      then record { secret = existing; changed = false; count = 0; failed = true }
      else stored existing (secret_pairs (sort (keys m.cert_projections)) [])
