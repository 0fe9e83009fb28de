-- ===== src/Certs/Stems.antt =====
-- controllers/certs.go: the certificates directory after the loop over the stems.
use moat_operator.Base.{
  true, false, ◌&&◌, ◌||◌, Option, none, some, List, [], ◌∷◌, Text, Map, lookup, is_some,
  first_some, ◌==◌, eq_iff, if◌then◌else◌, ◌≡◌, refl, ap, subst, ◌∙◌, inl, inr, arith, Bool-cases,
  seen_in,
}
use moat_operator.Kube.{NamespacedName}
use moat_operator.Routes.{RenderModel}
use moat_operator.Certs.Projection.{
  DirFaults, crt_file, key_file, Projecting, project_pair, pair_of, project_stems,
}
use moat_operator.Certs.Steps.{pair-want, pair-other}

module _ (get : NamespacedName → Option (Map Text)) (f : DirFaults) (m : RenderModel) where
  abbrev stepped : Text → Projecting → Projecting
  stepped s p = project_pair f s (pair_of get m s) p

  -- A loop that does not fail has not failed on the way.
  stems_ok :
      (s : Text) (ss : List Text) (p : Projecting)
      → (project_stems get f m (s ∷ ss) p).failed ≡ false
      → ((stepped s p).failed ≡ false)
        × (project_stems get f m (s ∷ ss) p ≡ project_stems get f m ss (stepped s p))
  unfolding project_stems
  stems_ok s ss p h = elim (Bool-cases (stepped s p).failed) [
    | inl e ↦ let bad = (rw e at h) in absurd (ground (arith, e, bad))
    | inr e ↦ (e, rw e refl)
  ]

  -- A file of each stem, and the part of the pair that goes there.
  module _ (file : Text → Text) (part : Option (Text × Text) → Option Text)
      (step : (s t : Text) (o : Option (Text × Text)) (p : Projecting)
        → p.failed ≡ false
        → (project_pair f s o p).failed ≡ false
        → lookup (file t) (project_pair f s o p).dir ≡ (
            if s == t
            then first_some (part o) (lookup (file t) p.dir)
            else lookup (file t) p.dir)) where
    first_again : (o q : Option Text) → first_some o (first_some o q) ≡ first_some o q
    first_again none q = refl
    first_again (some x) q = refl

    pub stems-file :
        (t : Text) (ss : List Text) (p : Projecting)
        → p.failed ≡ false
        → (project_stems get f m ss p).failed ≡ false
        → lookup (file t) (project_stems get f m ss p).dir ≡ (
            if seen_in t ss
            then first_some (part (pair_of get m t)) (lookup (file t) p.dir)
            else lookup (file t) p.dir)
    unfolding seen_in project_stems
    stems-file t [] p g h = refl
    stems-file t (s ∷ ss) p g h =
        let (e, same) = stems_ok s ss p h in
        let behind = stems-file t ss (stepped s p) e (subst (λ x. x.failed ≡ false) same h) in
        let now = step s t (pair_of get m s) p g e in
        let again = first_again (part (pair_of get m t)) (lookup (file t) p.dir) in
        ap (λ x. lookup (file t) x.dir) same ∙ behind ∙ elim (Bool-cases (s == t)) [
          | inl q ↦
              let stem : s ≡ t = (eq_iff s t).0 q in
              let mine =
                ap (λ x. first_some (part (pair_of get m x)) (lookup (file t) p.dir)) stem in
              let here : lookup (file t) (stepped s p).dir
                  ≡ first_some (part (pair_of get m t)) (lookup (file t) p.dir) =
                (rw q at now) ∙ mine in
              rw (here, q, again) (ground arith)
          | inr q ↦
              let here : lookup (file t) (stepped s p).dir ≡ lookup (file t) p.dir =
                (rw q at now) in
              rw (here, q) refl
        ]

  pub stems-want :
      (t : Text) (ss : List Text) (p : Projecting)
      → (project_stems get f m ss p).failed ≡ false
      → seen_in t (project_stems get f m ss p).want
        ≡ seen_in t p.want || (seen_in t ss && is_some (pair_of get m t))
  unfolding seen_in project_stems
  stems-want t [] p h = ground arith
  stems-want t (s ∷ ss) p h =
      let (e, same) = stems_ok s ss p h in
      let behind = stems-want t ss (stepped s p) (subst (λ x. x.failed ≡ false) same h) in
      let now = pair-want f s t (pair_of get m s) p e in
      let stem : (s == t) ≡ true → is_some (pair_of get m s) ≡ is_some (pair_of get m t) =
        λ q. ap (λ x. is_some (pair_of get m x)) ((eq_iff s t).0 q) in
      ap (λ x. seen_in t x.want) same ∙ behind ∙ (ground (arith, now, stem))

  pub stems-other :
      (n : Text) (ss : List Text) (p : Projecting)
      → ((t : Text) → ((crt_file t == n) ≡ false) × ((key_file t == n) ≡ false))
      → (project_stems get f m ss p).failed ≡ false
      → lookup n (project_stems get f m ss p).dir ≡ lookup n p.dir
  unfolding project_stems
  stems-other n [] p u h = refl
  stems-other n (s ∷ ss) p u h =
      let (e, same) = stems_ok s ss p h in
      ap (λ x. lookup n x.dir) same
      ∙ stems-other n ss (stepped s p) u (subst (λ x. x.failed ≡ false) same h)
      ∙ pair-other f s n (pair_of get m s) p u e
