-- ===== src/ConfigSync.antt =====
-- controllers/configsync_controller.go: ConfigMap keys projected as files, with
-- controllers/ingress_controller.go's `writeIfChanged`. The volume is a map from paths to
-- contents; each system call of a write may fail, as `Faults` says by the path it is given. The
-- directory exists and is cleaned, so `filepath.Join` with a key that `safe_key` admits is
-- `<dir>/<key>`.
pub mod Safe
pub mod Sync
use moat_operator.Base.{
  ℕ, Bool, true, false, not, ◌&&◌, ◌||◌, Option, none, some, List, [], ◌∷◌, ◌++◌, ◌+◌, Text, codes,
  Map, lookup, insert, keys, has_key, ◌==◌, if◌then◌else◌, is_nil, option_or, contains_char,
  contains, trim_space, sort, ltb, is_some,
}
use moat_operator.Kube.{NamespacedName}
use moat_operator.Routes.Model.{new_render_model}
use moat_operator.Routes.Render.{render_upstreams}

-- How the write of a temporary file ends: `partial` has left some content of it behind.
pub data WriteEnd : Type 0 where
  done : WriteEnd
  partial : (content : Text) → WriteEnd
  refused : WriteEnd

-- The calls that fail, by the path they are given.
pub record Faults : Type 0 where
  pub write : Text → WriteEnd
  pub rename : Text → Bool

abbrev pub Disk : Type 0
Disk = Map Text

-- The volume after a write, and its result: whether it wrote, or none for an error.
abbrev pub Written : Type 0
Written = Disk × Option Bool

abbrev pub tmp_file : Text → Text
tmp_file path = path ++ codes ".tmp"

unfoldable pub remove : Text → Disk → Disk
remove k [] = []
remove k ((j, v) ∷ d) = let rest = remove k d in if k == j then rest else (j, v) ∷ rest

-- What `os.ReadFile` returned is the content.
unfoldable pub is_content : Text → Option Text → Bool
is_content content none = false
is_content content (some cur) = cur == content

-- What follows the write of the temporary file.
abbrev pub rename_into : Faults → Text → Text → Disk → WriteEnd → Written
rename_into f path content d refused = (d, none)
rename_into f path content d (partial some_of) = (insert (tmp_file path) some_of d, none)
rename_into f path content d done =
    if f.rename path
    then (remove (tmp_file path) d, none)
    else (insert path content (remove (tmp_file path) d), some true)

unfoldable pub write_if_changed : Faults → Text → Text → Disk → Written
unfolding is_content remove
write_if_changed f path content d =
    if is_content content (lookup path d)
    then (d, some false)
    else rename_into f path content d (f.write (tmp_file path))

-- No separator, no "..", and neither empty nor ".".
unfoldable pub safe_key : Text → Bool
safe_key k =
    if is_nil k || (k == codes ".") || (k == codes "..")
    then false
    else not (contains_char b'/' k || contains_char b'\\' k) && not (contains (codes "..") k)

abbrev pub out_file : Text → Text → Text
out_file dir k = dir ++ b'/' ∷ k

-- The fields of `ConfigSyncReconciler`; `signals` is whether a signaler is set.
pub record Syncer : Type 0 where
  pub out_dir : Text
  pub only : List Text
  pub signals : Bool

unfoldable pub in_set : Text → List Text → Bool
in_set k [] = false
in_set k (x ∷ xs) = (k == x) || in_set k xs

abbrev pub selected : Syncer → Text → Bool
selected r k = if is_nil r.only then true else in_set k r.only

-- The loop over the sorted names of the ConfigMap's data, with the count of changed files.
-- A `none` beside the count is the error of the write that stopped it.
pub record Projection : Type 0 where
  pub disk : Disk
  pub changed : ℕ
  pub failed : Bool

module _ (r : Syncer) (f : Faults) where
  abbrev pub counted : ℕ → Written → Projection
  counted n (d, none) = record { disk = d; changed = n; failed = true }
  counted n (d, some wrote) = record {
    disk = d;
    changed = if wrote then n + 1 else n;
    failed = false;
  }

  abbrev pub sync_key : Map Text → Text → Projection → Projection
  sync_key contents k p =
      if not (selected r k)
      then p
      else if not (safe_key k)
      then p
      else counted p.changed
          (write_if_changed f (out_file r.out_dir k) (option_or (lookup k contents) []) p.disk)

  unfoldable pub sync_keys : Map Text → List Text → Projection → Projection
  sync_keys contents [] p = p
  sync_keys contents (k ∷ ks) p =
      let q = sync_key contents k p in
      let rest = sync_keys contents ks q in if q.failed then q else rest

-- `r.Get` of a ConfigMap: its data, not found, or another error.
pub data Got : Type 0 where
  found : (data_of : Map Text) → Got
  not_found : Got
  get_failed : Got

module _ (r : Syncer) (f : Faults) (get : NamespacedName → Got) where
  abbrev pub sync_got : Disk → Got → Projection
  sync_got d not_found = record { disk = d; changed = 0; failed = false }
  sync_got d get_failed = record { disk = d; changed = 0; failed = true }
  sync_got d (found data_of) =
      sync_keys r f data_of (sort (keys data_of)) (record { disk = d; changed = 0; failed = false })

  unfoldable pub sync_one : NamespacedName → Disk → Projection
  unfolding sync_keys
  sync_one key d = sync_got d (get key)

  -- `Reconcile`: the projection, whether synapse is signalled, and the readiness flag after it.
  unfoldable pub reconcile : NamespacedName → Disk → Bool → Projection × Bool × Bool
  unfolding sync_one
  reconcile key d ready =
      let p = sync_one key d in
      if p.failed then (p, false, ready) else (p, ltb 0 p.changed && r.signals, true)

  -- The loop of `SyncAll`.
  unfoldable pub sync_all : List NamespacedName → Projection → Projection
  unfolding sync_one
  sync_all [] p = p
  sync_all (s ∷ ss) p =
      let q = sync_one s p.disk in
      let total : Projection = record {
        disk = q.disk;
        changed = p.changed + q.changed;
        failed = q.failed;
      } in
      let rest = sync_all ss total in if q.failed then total else rest

-- `EnsureFiles`: the disk, and whether it returned an error.
unfoldable pub ensure_files : (ℕ → Bool) → Faults → Text → List Text → Disk → Disk × Bool
unfolding write_if_changed safe_key
ensure_files is_print f dir [] d = (d, false)
ensure_files is_print f dir (n ∷ ns) d =
    let name = trim_space n in
    let path = out_file dir name in
    let (wrote, res) = write_if_changed f path (render_upstreams is_print new_render_model) d in
    let skip = is_nil name || (safe_key name && has_key path d) in
    let rest = ensure_files is_print f dir ns (if skip then d else wrote) in
    if skip
    then rest
    else if not (safe_key name)
    then (d, true)
    else if is_some res
    then rest
    else (wrote, true)
