-- ===== src/ConfigSync/Safe.antt =====
-- `writeIfChanged` of controllers/ingress_controller.go: the files after a write.
use moat_operator.Base.{
  true, false, ◌&&◌, Option, none, some, [], ◌∷◌, ◌++◌, Text, codes, lookup, lookup-insert, ◌==◌,
  eq_iff, if◌then◌else◌, ◌≡◌, refl, arith, length, length-append, ap, ◌+◌, eq-false_of_ne, is_some,
}
use moat_operator.ConfigSync.{
  Faults, WriteEnd, done, partial, refused, Disk, tmp_file, remove, is_content, rename_into,
  write_if_changed,
}

pub lookup-remove :
    (k q : Text) (d : Disk) → lookup q (remove k d) ≡ (if k == q then none else lookup q d)
unfolding remove lookup
lookup-remove k q [] = ground arith
lookup-remove k q ((j, v) ∷ d) =
    ground (arith, lookup-remove k q d, eq_iff k j, eq_iff k q, eq_iff j q)

-- What a write may do to a file that is not its temporary file.
pub rename_into-lookup :
    (f : Faults) (path content : Text) (d : Disk) (w : WriteEnd) (q : Text)
    → (tmp_file path == q) ≡ false
    → let r = rename_into f path content d w in
      lookup q r.0 ≡ (if is_some r.1 && (path == q) then some content else lookup q d)
rename_into-lookup f path content d done q h = ground (
  arith,
  lookup-insert path q content (remove (tmp_file path) d),
  lookup-remove (tmp_file path) q d,
  eq_iff path q,
)
rename_into-lookup f path content d (partial c) q h =
    ground (arith, lookup-insert (tmp_file path) q c d, eq_iff (tmp_file path) q)
rename_into-lookup f path content d refused q h = refl

tmp_file-ne : (path : Text) → (tmp_file path == path) ≡ false
tmp_file-ne path = eq-false_of_ne _ _ (λ e.
    let n : length (path ++ codes ".tmp") ≡ length path = ap length e in
    let l : length (path ++ codes ".tmp") ≡ length path + 4 = length-append path (codes ".tmp") in
    ground arith)

pub is_content-eq :
    (content : Text) (o : Option Text) → is_content content o ≡ true → o ≡ some content
unfolding is_content
is_content-eq content none h = ground arith
is_content-eq content (some cur) h = ap some ((eq_iff cur content).0 h)

-- A write either gives the file its new content and succeeds, or fails and leaves the file as it
-- was, at whichever call it fails; no file but this one and its temporary one is ever changed.
pub write_if_changed-atomic :
    (f : Faults) (path content : Text) (d : Disk) (q : Text)
    → (tmp_file path == q) ≡ false
    → let r = write_if_changed f path content d in
      lookup q r.0 ≡ (if is_some r.1 && (path == q) then some content else lookup q d)
unfolding write_if_changed
write_if_changed-atomic f path content d q h = ground (
  arith,
  rename_into-lookup f path content d (f.write (tmp_file path)) q h,
  eq_iff path q,
  is_content-eq content (lookup path d),
)
