-- ===== src/Certs/Written.antt =====
-- controllers/certs.go: what the writes and the removals of a projection do to one file.
use moat_operator.Base.{
  true, false, not, ◌&&◌, none, some, List, [], ◌∷◌, ◌++◌, Text, codes, lookup, keys, is_some,
  lookup-insert, ◌==◌, eq_iff, eq-false_of_ne, if◌then◌else◌, length, length-append, ◌≡◌, refl, sym,
  ap, ◌∙◌, arith, Bool-cases, seen_in, inl, inr,
}
use moat_operator.ConfigSync.{WriteEnd, done, partial, refused, is_content, remove}
use moat_operator.ConfigSync.Safe.{lookup-remove, is_content-eq}
use moat_operator.Resolver.{has_suffix, trim_suffix}
use moat_operator.Resolver.Fqdn.{has_suffix-append, trim_suffix-append}
use moat_operator.Certs.Projection.{
  Dir, DirFaults, write_in_place, write_file_if_changed, crt_file, key_file, is_stale, prune_names,
  prune_certs,
}

-- Another end of the same length is no suffix.
not_suffix :
    (s u v : Text) → length u ≡ length v → has_suffix u v ≡ false → has_suffix (s ++ u) v ≡ false
unfolding has_suffix
not_suffix [] u v n h = h
not_suffix (c ∷ s) u v n h =
    let behind = not_suffix s u v n h in
    let longer : ((c ∷ (s ++ u)) == v) ≡ false = eq-false_of_ne _ _ (λ e.
      let k : length (c ∷ (s ++ u)) ≡ length v = ap length e in
      ground (arith, length-append s u)) in
    ground (arith, behind, longer)

key-no_crt : has_suffix (codes ".key") (codes ".crt") ≡ false
unfolding has_suffix ◌==◌
key-no_crt = refl

pub key_file-no_crt : (s : Text) → has_suffix (key_file s) (codes ".crt") ≡ false
key_file-no_crt s = not_suffix s (codes ".key") (codes ".crt") refl key-no_crt

pub key_file-ne_crt : (s t : Text) → (key_file s == crt_file t) ≡ false
key_file-ne_crt s t = eq-false_of_ne _ _ (λ e.
    let a = key_file-no_crt s in
    let b = has_suffix-append t (codes ".crt") in
    let c : has_suffix (key_file s) (codes ".crt") ≡ has_suffix (crt_file t) (codes ".crt") =
      ap (λ x. has_suffix x (codes ".crt")) e in
    ground (arith, a, b, c))

pub crt_file-ne_key : (s t : Text) → (crt_file s == key_file t) ≡ false
crt_file-ne_key s t =
    let h = key_file-ne_crt t s in
    ground (arith, h, eq_iff (key_file t) (crt_file s), eq_iff (crt_file s) (key_file t))

append_eq : (s t suffix : Text) → ((s ++ suffix) == (t ++ suffix)) ≡ (s == t)
append_eq s t suffix =
    let f : s ++ suffix ≡ t ++ suffix → s ≡ t = λ e.
      sym (trim_suffix-append s suffix)
      ∙ ap (λ x. trim_suffix x suffix) e
      ∙ trim_suffix-append t suffix in
    let g : s ≡ t → s ++ suffix ≡ t ++ suffix = λ e. ap (λ x. x ++ suffix) e in
    ground (arith, eq_iff (s ++ suffix) (t ++ suffix), eq_iff s t, f, g)

pub key_file-eq : (s t : Text) → (key_file s == key_file t) ≡ (s == t)
key_file-eq s t = append_eq s t (codes ".key")

pub crt_file-eq : (s t : Text) → (crt_file s == crt_file t) ≡ (s == t)
crt_file-eq s t = append_eq s t (codes ".crt")

-- A file is stale where its stem is not wanted.
pub is_stale-crt : (want : List Text) (s : Text) → is_stale want (crt_file s) ≡ not (seen_in s want)
unfolding is_stale
is_stale-crt want s =
    rw (has_suffix-append s (codes ".crt"), trim_suffix-append s (codes ".crt")) refl

pub is_stale-key : (want : List Text) (s : Text) → is_stale want (key_file s) ≡ not (seen_in s want)
unfolding is_stale
is_stale-key want s =
    rw (key_file-no_crt s, has_suffix-append s (codes ".key"), trim_suffix-append s (codes ".key"))
      refl

write_in_place-lookup :
    (name content : Text) (d : Dir) (w : WriteEnd) (q : Text)
    → let r = write_in_place name content d w in
      (is_some r.1 ≡ true → lookup q r.0 ≡ (if name == q then some content else lookup q d))
      × ((name == q) ≡ false → lookup q r.0 ≡ lookup q d)
write_in_place-lookup name content d refused q = (λ h. ground (arith, h), λ h. refl)
write_in_place-lookup name content d (partial c) q =
    (λ h. ground (arith, h), λ h. lookup-insert name q c d ∙ (rw h refl))
write_in_place-lookup name content d done q =
    (λ h. lookup-insert name q content d, λ h. lookup-insert name q content d ∙ (rw h refl))

-- The read of a file after a write that succeeds, and of another file after any write.
pub write_file-lookup :
    (f : DirFaults) (name content : Text) (d : Dir) (q : Text)
    → let r = write_file_if_changed f name content d in
      (is_some r.1 ≡ true → lookup q r.0 ≡ (if name == q then some content else lookup q d))
      × ((name == q) ≡ false → lookup q r.0 ≡ lookup q d)
unfolding write_file_if_changed
write_file-lookup f name content d q = elim (Bool-cases (is_content content (lookup name d))) [
  | inl e ↦
      let there = is_content-eq content (lookup name d) e in
      rw e (λ h. ground (arith, there, eq_iff name q), λ h. refl)
  | inr e ↦ rw e (write_in_place-lookup name content d (f.write name) q)
]

prune_names-lookup :
    (f : DirFaults) (want ns : List Text) (d : Dir) (q : Text)
    → lookup q (prune_names f want ns d).0
      ≡ (if seen_in q ns && is_stale want q && not (f.remove_fails q) then none else lookup q d)
unfolding prune_names seen_in
prune_names-lookup f want [] d q = refl
prune_names-lookup f want (n ∷ ns) d q =
    let gone = is_stale want n && not (f.remove_fails n) in
    let behind = prune_names-lookup f want ns (if gone then remove n d else d) q in
    let removed = lookup-remove n q d in
    elim (Bool-cases gone) [
      | inl e ↦ rw (behind, e, removed) (ground (arith, eq_iff n q, e))
      | inr e ↦ rw (behind, e) (ground (arith, eq_iff n q, e))
    ]

lookup-unseen : (q : Text) (d : Dir) → seen_in q (keys d) ≡ false → lookup q d ≡ none
unfolding seen_in lookup
lookup-unseen q [] h = refl
lookup-unseen q ((k, v) ∷ d) h = ground (arith, lookup-unseen q d)

-- Where the directory can be listed, the removals take the stale files that can be removed.
pub prune_certs-lookup :
    (f : DirFaults) (want : List Text) (d : Dir) (q : Text)
    → f.read_dir_fails ≡ false
    → lookup q (prune_certs f want d).0
      ≡ (if is_stale want q && not (f.remove_fails q) then none else lookup q d)
unfolding prune_certs
prune_certs-lookup f want d q h =
    let names = prune_names-lookup f want (keys d) d q in
    let unseen = lookup-unseen q d in rw h (ground (arith, names, unseen))
