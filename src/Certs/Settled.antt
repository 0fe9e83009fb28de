-- ===== src/Certs/Settled.antt =====
-- controllers/certs.go: the certificates directory after a projection that succeeds.
use moat_operator.Base.{
  Bool, true, false, not, ◌&&◌, Option, none, some, List, ◌++◌, Text, codes, Map, lookup, keys,
  is_some, first_some, ◌==◌, eq-false_of_ne, if◌then◌else◌, ◌≡◌, refl, sym, ap, ◌∙◌, inl, inr,
  arith, Bool-cases, seen_in, seen_in_iff, sort, Has-sort, sort-Has,
}
use moat_operator.Kube.{NamespacedName}
use moat_operator.Routes.{RenderModel}
use moat_operator.Resolver.{has_suffix, trim_suffix}
use moat_operator.Resolver.Fqdn.{has_suffix-append, trim_suffix-join}
use moat_operator.Certs.Projection.{
  Dir, DirFaults, crt_file, key_file, is_stale, prune_certs, Projecting, pair_of, project_stems,
  start_projecting, project_certs,
}
use moat_operator.Certs.Written.{prune_certs-lookup, is_stale-crt, is_stale-key}
use moat_operator.Certs.Steps.{crt_of, key_of, pair-crt, pair-key}
use moat_operator.Certs.Stems.{stems-want, stems-other, stems-file}

module _ (get : NamespacedName → Option (Map Text)) (f : DirFaults) (m : RenderModel) where
  -- The pair of a stem that the model projects.
  abbrev pub projected_pair : Text → Option (Text × Text)
  projected_pair t = if seen_in t (keys m.cert_projections) then pair_of get m t else none

  seen_in-sort : (t : Text) (xs : List Text) → seen_in t (sort xs) ≡ seen_in t xs
  seen_in-sort t xs =
      let (a, b) = seen_in_iff t (sort xs) in
      let (c, d) = seen_in_iff t xs in
      elim (Bool-cases (seen_in t xs)) [
        | inl e ↦ b (sort-Has t xs (c e)) ∙ sym e
        | inr e ↦ elim (Bool-cases (seen_in t (sort xs))) [
          | inl q ↦ let bad = d (Has-sort t xs (a q)) in absurd (ground (arith, e, bad))
          | inr q ↦ q ∙ sym e
        ]
      ]

  module _ (d : Dir) (listed : f.read_dir_fails ≡ false)
      (removed : (n : Text) → f.remove_fails n ≡ false)
      (ok : (project_certs get f m true d).failed ≡ false) where
    abbrev looped : Projecting
    looped = project_stems get f m (sort (keys m.cert_projections)) (start_projecting d)

    certs_ok :
        (looped.failed ≡ false)
        × ((project_certs get f m true d).dir ≡ (prune_certs f looped.want looped.dir).0)
    unfolding project_certs
    certs_ok = elim (Bool-cases f.mkdir_fails) [
      | inl e ↦ absurd (ground (arith, e, ok))
      | inr e ↦ elim (Bool-cases looped.failed) [
        | inl q ↦ absurd (ground (arith, e, q, ok))
        | inr q ↦ (q, rw (e, q) refl)
      ]
    ]

    crt_finish :
        (seen : Bool) (o : Option (Text × Text)) (old : Option Text)
        → (if not (seen && is_some o) && not false
            then none
            else if seen
            then first_some (crt_of o) old
            else old)
          ≡ crt_of (if seen then o else none)
    crt_finish true none old = refl
    crt_finish true (some (crt, key)) old = refl
    crt_finish false o old = refl

    key_finish :
        (seen : Bool) (o : Option (Text × Text)) (old : Option Text)
        → (if not (seen && is_some o) && not false
            then none
            else if seen
            then first_some (key_of o) old
            else old)
          ≡ key_of (if seen then o else none)
    key_finish true none old = refl
    key_finish true (some (crt, key)) old = refl
    key_finish false o old = refl

    wanted :
        (t : Text)
        → seen_in t looped.want ≡ seen_in t (keys m.cert_projections) && is_some (pair_of get m t)
    unfolding seen_in
    wanted t =
        stems-want get f m t (sort (keys m.cert_projections)) (start_projecting d) certs_ok.0
        ∙ (rw (seen_in-sort t (keys m.cert_projections)) refl)

    certs-crt :
        (t : Text)
        → lookup (crt_file t) (project_certs get f m true d).dir ≡ crt_of (projected_pair t)
    certs-crt t =
        let kept = prune_certs-lookup f looped.want looped.dir (crt_file t) listed in
        let written =
          stems-file get f m crt_file crt_of (pair-crt f) t (sort (keys m.cert_projections))
            (start_projecting d) refl certs_ok.0 in
        ap (λ x. lookup (crt_file t) x) certs_ok.1
        ∙ kept
        ∙ (rw
            (
              written,
              is_stale-crt looped.want t,
              wanted t,
              removed (crt_file t),
              seen_in-sort t (keys m.cert_projections),
            )
            (crt_finish (seen_in t (keys m.cert_projections)) (pair_of get m t)
              (lookup (crt_file t) d)))

    certs-key :
        (t : Text)
        → lookup (key_file t) (project_certs get f m true d).dir ≡ key_of (projected_pair t)
    certs-key t =
        let kept = prune_certs-lookup f looped.want looped.dir (key_file t) listed in
        let written =
          stems-file get f m key_file key_of (pair-key f) t (sort (keys m.cert_projections))
            (start_projecting d) refl certs_ok.0 in
        ap (λ x. lookup (key_file t) x) certs_ok.1
        ∙ kept
        ∙ (rw
            (
              written,
              is_stale-key looped.want t,
              wanted t,
              removed (key_file t),
              seen_in-sort t (keys m.cert_projections),
            )
            (key_finish (seen_in t (keys m.cert_projections)) (pair_of get m t)
              (lookup (key_file t) d)))

    certs-other :
        (n : Text)
        → has_suffix n (codes ".crt") ≡ false
        → has_suffix n (codes ".key") ≡ false
        → lookup n (project_certs get f m true d).dir
          ≡ (if has_suffix n (codes ".tmp") then none else lookup n d)
    unfolding is_stale
    certs-other n c k =
        let apart : (t : Text) → ((crt_file t == n) ≡ false) × ((key_file t == n) ≡ false) =
          λ t. (not_file (codes ".crt") c t, not_file (codes ".key") k t) in
        let kept = prune_certs-lookup f looped.want looped.dir n listed in
        let same =
          stems-other get f m n (sort (keys m.cert_projections)) (start_projecting d) apart
            certs_ok.0 in
        ap (λ x. lookup n x) certs_ok.1 ∙ kept ∙ (rw (same, c, k, removed n) (ground arith))
      where
        not_file :
            (suffix : Text)
            → has_suffix n suffix ≡ false
            → (t : Text) → ((t ++ suffix) == n) ≡ false
        not_file suffix h t = eq-false_of_ne _ _ (λ e.
            let a = has_suffix-append t suffix in
            let b : has_suffix (t ++ suffix) suffix ≡ has_suffix n suffix =
              ap (λ x. has_suffix x suffix) e in
            ground (arith, a, b, h))

    -- What the file is meant to hold.
    abbrev pub meant : Text → Option Text
    meant n =
        if has_suffix n (codes ".crt")
        then crt_of (projected_pair (trim_suffix n (codes ".crt")))
        else if has_suffix n (codes ".key")
        then key_of (projected_pair (trim_suffix n (codes ".key")))
        else if has_suffix n (codes ".tmp")
        then none
        else lookup n d

    -- After a projection into the directory that succeeds, where the directory can be listed and
    -- its files removed, a file that ends in ".crt" or ".key" is there exactly if the model projects
    -- its stem and the stem's Secret has both a certificate and a key, and then it holds that part
    -- of the Secret; no file that ends in ".tmp" is there; and any other file is as it was.
    pub project_certs-settles : (n : Text) → lookup n (project_certs get f m true d).dir ≡ meant n
    project_certs-settles n = elim (Bool-cases (has_suffix n (codes ".crt"))) [
      | inl c ↦
          let named = trim_suffix-join n (codes ".crt") c in
          rw c (
            ap (λ x. lookup x (project_certs get f m true d).dir) (sym named)
            ∙ certs-crt (trim_suffix n (codes ".crt")))
      | inr c ↦ elim (Bool-cases (has_suffix n (codes ".key"))) [
        | inl k ↦
            let named = trim_suffix-join n (codes ".key") k in
            rw (c, k)
              (ap (λ x. lookup x (project_certs get f m true d).dir) (sym named)
                ∙ certs-key (trim_suffix n (codes ".key")))
        | inr k ↦ rw (c, k) (certs-other n c k)
      ]
    ]
