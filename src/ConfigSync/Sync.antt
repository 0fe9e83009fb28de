-- ===== src/ConfigSync/Sync.antt =====
-- controllers/configsync_controller.go: what a projection leaves on the volume.
use moat_operator.Base.{
  ℕ, Bool, true, false, not, ◌&&◌, none, some, List, [], ◌∷◌, ◌++◌, append_assoc, Text, codes, Map,
  lookup, ◌==◌, eq_iff, eq_refl, if◌then◌else◌, option_or, ◌≡◌, refl, arith, inl, inr, ◌∙◌, sort,
  keys, is_some, Has, sort-Has, Has-sort, Bool-cases, ap, sym,
}
use moat_operator.Kube.{NamespacedName}
use moat_operator.ConfigSync.{
  Faults, Disk, Written, tmp_file, write_if_changed, safe_key, out_file, Syncer, selected,
  Projection, counted, sync_key, sync_keys, Got, found, sync_one, is_content,
}
use moat_operator.ConfigSync.Safe.{write_if_changed-atomic}

append-eq : (a s t : Text) → ((a ++ s) == (a ++ t)) ≡ (s == t)
append-eq [] s t = refl
append-eq (x ∷ a) s t =
    ground (arith, append-eq a s t, eq_iff (x ∷ (a ++ s)) (x ∷ (a ++ t)), eq_iff (a ++ s) (a ++ t))

write_if_changed-same :
    (f : Faults) (path content : Text) (d : Disk)
    → lookup path d ≡ some content
    → write_if_changed f path content d ≡ (d, some false)
unfolding write_if_changed is_content
write_if_changed-same f path content d h = rw (h, eq_refl content) refl

module _ (r : Syncer) (f : Faults) (contents : Map Text) where
  abbrev content_of : Text → Text
  content_of k = option_or (lookup k contents) []

  abbrev file_of : Text → Text
  file_of k = out_file r.out_dir k

  -- The key is projected.
  abbrev is_wanted : Text → Bool
  is_wanted k = selected r k && safe_key k

  abbrev IsHeld : Text → Disk → Type 0
  IsHeld k d = lookup (file_of k) d ≡ some (content_of k)

  counted-disk : (n : ℕ) (w : Written) → (counted r f n w).disk ≡ w.0
  counted-disk n (d, none) = refl
  counted-disk n (d, some b) = refl

  counted-failed : (n : ℕ) (w : Written) → (counted r f n w).failed ≡ not (is_some w.1)
  counted-failed n (d, none) = refl
  counted-failed n (d, some b) = refl

  sync_key-lookup :
      (k : Text) (p : Projection) (q : Text)
      → (is_wanted k ≡ true → (tmp_file (file_of k) == q) ≡ false)
      → lookup q (sync_key r f contents k p).disk ≡ (
          if is_wanted k && not (sync_key r f contents k p).failed && (file_of k == q)
          then some (content_of k)
          else lookup q p.disk)
  sync_key-lookup k p q h =
      let w = write_if_changed f (file_of k) (content_of k) p.disk in
      ground (
        arith,
        counted-disk p.changed w,
        counted-failed p.changed w,
        write_if_changed-atomic f (file_of k) (content_of k) p.disk q,
      )

  -- A file is written only for a wanted key, under the key's path or that path with ".tmp".
  sync_keys-lookup_other :
      (ks : List Text) (p : Projection) (q : Text)
      → ((k : Text)
          → Has k ks
          → is_wanted k ≡ true
          → ((file_of k == q) ≡ false) × ((tmp_file (file_of k) == q) ≡ false))
      → lookup q (sync_keys r f contents ks p).disk ≡ lookup q p.disk
  unfolding sync_keys
  sync_keys-lookup_other [] p q h = refl
  sync_keys-lookup_other (k ∷ ks) p q h =
      let one = h k (inl refl) in
      ground (
        arith,
        one,
        sync_key-lookup k p q,
        sync_keys-lookup_other ks (sync_key r f contents k p) q (λ j e. h j (inr e)),
      )

  out_file-eq : (j k : Text) → (file_of j == file_of k) ≡ (j == k)
  out_file-eq j k = append-eq r.out_dir (b'/' ∷ j) (b'/' ∷ k) ∙ append-eq (codes "/") j k

  tmp_file-eq : (j k : Text) → (tmp_file (file_of j) == file_of k) ≡ (tmp_file j == k)
  tmp_file-eq j k =
      ap (λ t. t == file_of k) (append_assoc r.out_dir (b'/' ∷ j) (codes ".tmp"))
      ∙ append-eq r.out_dir (b'/' ∷ (j ++ codes ".tmp")) (b'/' ∷ k)
      ∙ append-eq (codes "/") (j ++ codes ".tmp") k

  sync_key-keeps :
      (j k : Text) (p : Projection)
      → (tmp_file j == k) ≡ false
      → IsHeld k p.disk
      → IsHeld k (sync_key r f contents j p).disk
  sync_key-keeps j k p n h =
      ground (arith, sync_key-lookup j p (file_of k), out_file-eq j k, tmp_file-eq j k, eq_iff j k)

  sync_key-holds :
      (k : Text) (p : Projection)
      → (tmp_file k == k) ≡ false
      → is_wanted k ≡ true
      → (sync_key r f contents k p).failed ≡ false
      → IsHeld k (sync_key r f contents k p).disk
  sync_key-holds k p n w e =
      ground (arith, sync_key-lookup k p (file_of k), tmp_file-eq k k, eq_refl (file_of k))

  unfailed-eq : (p : Projection) → p.failed ≡ false → counted r f p.changed (p.disk, some false) ≡ p
  unfailed-eq p e =
      let same : (b : Bool) → Projection =
        λ b. record { disk = p.disk; changed = p.changed; failed = b } in
      ap same (sym e)

  sync_key-stays :
      (k : Text) (p : Projection)
      → p.failed ≡ false
      → (is_wanted k ≡ true → IsHeld k p.disk)
      → sync_key r f contents k p ≡ p
  sync_key-stays k p e h = elim (Bool-cases (is_wanted k)) [
    | inl w ↦
        let same = write_if_changed-same f (file_of k) (content_of k) p.disk (h w) in
        ground (arith, ap (counted r f p.changed) same ∙ unfailed-eq p e)
    | inr w ↦ ground arith
  ]

  -- No key is a key of the list with ".tmp" behind it.
  abbrev IsApart : List Text → Type 0
  IsApart ks = (j k : Text) → Has j ks → Has k ks → (tmp_file j == k) ≡ false

  sync_keys-keeps :
      (ks : List Text) (p : Projection) (k : Text)
      → ((j : Text) → Has j ks → (tmp_file j == k) ≡ false)
      → IsHeld k p.disk
      → IsHeld k (sync_keys r f contents ks p).disk
  unfolding sync_keys
  sync_keys-keeps [] p k n h = h
  sync_keys-keeps (j ∷ ks) p k n h =
      let one = sync_key-keeps j k p (n j (inl refl)) h in
      let more = sync_keys-keeps ks (sync_key r f contents j p) k (λ i e. n i (inr e)) one in
      ground (arith, one, more)

  sync_keys-IsHeld :
      (ks : List Text) (p : Projection)
      → IsApart ks
      → (sync_keys r f contents ks p).failed ≡ false
      → (k : Text) → Has k ks
      → is_wanted k ≡ true
      → IsHeld k (sync_keys r f contents ks p).disk
  unfolding sync_keys
  sync_keys-IsHeld [] p n e k h w = elim h [ ]
  sync_keys-IsHeld (j ∷ ks) p n e k (inl q) w =
      let one : (sync_key r f contents k p).failed ≡ false
          → IsHeld k (sync_key r f contents k p).disk =
        sync_key-holds k p (n k k (inl q) (inl q)) w in
      let more = sync_keys-keeps ks (sync_key r f contents j p) k (λ i g. n i k (inr g) (inl q)) in
      ground (arith, one, more, q)
  sync_keys-IsHeld (j ∷ ks) p n e k (inr q) w =
      let next = sync_key r f contents j p in
      let more : (sync_keys r f contents ks next).failed ≡ false
          → IsHeld k (sync_keys r f contents ks next).disk =
        λ u. sync_keys-IsHeld ks next (λ i l g m. n i l (inr g) (inr m)) u k q w in
      ground (arith, more)

  sync_keys-stays :
      (ks : List Text) (p : Projection)
      → p.failed ≡ false
      → ((k : Text) → Has k ks → is_wanted k ≡ true → IsHeld k p.disk)
      → sync_keys r f contents ks p ≡ p
  unfolding sync_keys
  sync_keys-stays [] p e h = refl
  sync_keys-stays (k ∷ ks) p e h =
      let one = sync_key-stays k p e (h k (inl refl)) in
      let rest = sync_keys-stays ks p e (λ j g. h j (inr g)) in rw one (ground (arith, rest))

  module _ (get : NamespacedName → Got) (key : NamespacedName) (d : Disk)
      (at : get key ≡ found contents) where
    -- If no data key is another one with ".tmp" behind it and the projection does not fail, then
    -- afterwards the file of a selected safe key of the data holds the key's value, and a second
    -- projection succeeds, counts no change and leaves the volume as it is.
    pub sync_one-settles :
        IsApart (keys contents)
        → (sync_one r f get key d).failed ≡ false
        → (k : Text) → Has k (keys contents)
        → is_wanted k ≡ true
        → let p = sync_one r f get key d in
          IsHeld k p.disk
          × (sync_one r f get key p.disk ≡ record { disk = p.disk; changed = 0; failed = false })
    unfolding sync_one
    sync_one-settles n e k g w =
        let ks = sort (keys contents) in
        let start : Projection = record { disk = d; changed = 0; failed = false } in
        let end = sync_keys r f contents ks start in
        let apart : IsApart ks =
          λ i j u v. n i j (Has-sort i (keys contents) u) (Has-sort j (keys contents) v) in
        let held : (k : Text) → Has k ks → is_wanted k ≡ true → IsHeld k end.disk =
          sync_keys-IsHeld ks start apart (rw at at e) in
        let again : Projection = record { disk = end.disk; changed = 0; failed = false } in
        rw at (held k (sort-Has k (keys contents) g) w, sync_keys-stays ks again refl held)

    -- A file that is neither that of a selected safe key nor that file's temporary one is not
    -- touched, whether the projection succeeds or fails.
    pub sync_one-confined :
        (q : Text)
        → ((k : Text)
            → Has k (keys contents)
            → is_wanted k ≡ true
            → ((file_of k == q) ≡ false) × ((tmp_file (file_of k) == q) ≡ false))
        → lookup q (sync_one r f get key d).disk ≡ lookup q d
    unfolding sync_one
    sync_one-confined q h = rw at (
        sync_keys-lookup_other (sort (keys contents))
          (record { disk = d; changed = 0; failed = false }) q
          (λ k g. h k (Has-sort k (keys contents) g)))
