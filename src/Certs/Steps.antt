-- ===== src/Certs/Steps.antt =====
-- controllers/certs.go: the certificates directory after one stem.
use moat_operator.Base.{
  Bool, false, ◌&&◌, ◌||◌, Option, none, some, List, [], ◌∷◌, ◌++◌, Text, lookup, is_some,
  first_some, ◌==◌, if◌then◌else◌, ◌≡◌, refl, sym, ap, ◌∙◌, arith, seen_in,
}
use moat_operator.Certs.Projection.{
  Dir, DirFaults, write_file_if_changed, crt_file, key_file, Projecting, project_pair, key_written,
  crt_written,
}
use moat_operator.Certs.Written.{
  write_file-lookup, key_file-eq, crt_file-eq, key_file-ne_crt, crt_file-ne_key,
}

-- What a pair puts in a file.
abbrev pub crt_of : Option (Text × Text) → Option Text
crt_of none = none
crt_of (some (crt, key)) = some crt

abbrev pub key_of : Option (Text × Text) → Option Text
key_of none = none
key_of (some (crt, key)) = some key

module _ (f : DirFaults) where
  -- A step that does not fail, for a stem that has a pair.
  pub pair_written :
      (s crt key : Text) (p : Projecting)
      → let q = project_pair f s (some (crt, key)) p in
        q.failed ≡ false
        → ((n : Text)
            → lookup n q.dir ≡ (
                if crt_file s == n
                then some crt
                else if key_file s == n
                then some key
                else lookup n p.dir))
          × (q.want ≡ p.want ++ s ∷ [])
  pair_written s crt key p = at (write_file_if_changed f (key_file s) key p.dir) refl
    where
      second :
          (kch : Bool) (d : Dir) (w : Dir × Option Bool)
          → w ≡ write_file_if_changed f (crt_file s) crt d
          → ((n : Text) → lookup n d ≡ (if key_file s == n then some key else lookup n p.dir))
          → let q = crt_written s kch p w in
            q.failed ≡ false
            → ((n : Text)
                → lookup n q.dir ≡ (
                    if crt_file s == n
                    then some crt
                    else if key_file s == n
                    then some key
                    else lookup n p.dir))
              × (q.want ≡ p.want ++ s ∷ [])
      second kch d (e, none) same h k = absurd (ground (arith, k))
      second kch d (e, some cch) same h k = (
        λ n.
            let (ok, _) = write_file-lookup f (crt_file s) crt d n in
            let now = ok (rw (sym same) refl) in
            let before = h n in ap (λ x. lookup n x.0) same ∙ now ∙ (rw before refl),
        refl,
      )

      at :
          (w : Dir × Option Bool)
          → w ≡ write_file_if_changed f (key_file s) key p.dir
          → let q = key_written f s crt p w in
            q.failed ≡ false
            → ((n : Text)
                → lookup n q.dir ≡ (
                    if crt_file s == n
                    then some crt
                    else if key_file s == n
                    then some key
                    else lookup n p.dir))
              × (q.want ≡ p.want ++ s ∷ [])
      at (d, none) same k = absurd (ground (arith, k))
      at (d, some kch) same k =
          second kch d (write_file_if_changed f (crt_file s) crt d) refl
            (λ n.
              let (ok, _) = write_file-lookup f (key_file s) key p.dir n in
              ap (λ x. lookup n x.0) same ∙ ok (rw (sym same) refl))
            k

  -- The files of a stem after a step for this stem or another one.
  pub pair-crt :
      (s t : Text) (o : Option (Text × Text)) (p : Projecting)
      → p.failed ≡ false
      → (project_pair f s o p).failed ≡ false
      → lookup (crt_file t) (project_pair f s o p).dir ≡ (
          if s == t
          then first_some (crt_of o) (lookup (crt_file t) p.dir)
          else lookup (crt_file t) p.dir)
  pair-crt s t none p g h = ground arith
  pair-crt s t (some (crt, key)) p g h =
      let (read, _) = pair_written s crt key p h in
      read (crt_file t) ∙ (rw (crt_file-eq s t, key_file-ne_crt s t) refl)

  pub pair-key :
      (s t : Text) (o : Option (Text × Text)) (p : Projecting)
      → p.failed ≡ false
      → (project_pair f s o p).failed ≡ false
      → lookup (key_file t) (project_pair f s o p).dir ≡ (
          if s == t
          then first_some (key_of o) (lookup (key_file t) p.dir)
          else lookup (key_file t) p.dir)
  pair-key s t none p g h = ground arith
  pair-key s t (some (crt, key)) p g h =
      let (read, _) = pair_written s crt key p h in
      read (key_file t) ∙ (rw (key_file-eq s t, crt_file-ne_key s t) refl)

  seen_in-append :
      (t s : Text) (xs : List Text) → seen_in t (xs ++ s ∷ []) ≡ seen_in t xs || (s == t)
  unfolding seen_in
  seen_in-append t s [] = ground arith
  seen_in-append t s (x ∷ xs) = ground (arith, seen_in-append t s xs)

  pub pair-want :
      (s t : Text) (o : Option (Text × Text)) (p : Projecting)
      → (project_pair f s o p).failed ≡ false
      → seen_in t (project_pair f s o p).want ≡ seen_in t p.want || ((s == t) && is_some o)
  pair-want s t none p h = ground arith
  pair-want s t (some (crt, key)) p h =
      let (_, want) = pair_written s crt key p h in
      rw want (seen_in-append t s p.want ∙ (ground arith))

  -- Another file that no certificate or key has the name of.
  pub pair-other :
      (s n : Text) (o : Option (Text × Text)) (p : Projecting)
      → ((t : Text) → ((crt_file t == n) ≡ false) × ((key_file t == n) ≡ false))
      → (project_pair f s o p).failed ≡ false
      → lookup n (project_pair f s o p).dir ≡ lookup n p.dir
  pair-other s n none p h k = refl
  pair-other s n (some (crt, key)) p h k =
      let (read, _) = pair_written s crt key p k in read n ∙ (rw ((h s).0, (h s).1) refl)
