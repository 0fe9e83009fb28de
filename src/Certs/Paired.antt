-- ===== src/Certs/Paired.antt =====
-- controllers/certs.go: no certificate without its key, whichever write fails.
use moat_operator.Base.{
  Bool, true, Option, none, some, List, [], ◌∷◌, Text, Map, lookup, has_key, lookup-insert_self,
  subst, is_some, ◌==◌, eq_iff, ◌≡◌, refl, sym, ap, ◌∙◌, inl, inr, arith, Bool-cases,
}
use moat_operator.Kube.{NamespacedName}
use moat_operator.Routes.{RenderModel}
use moat_operator.ConfigSync.{WriteEnd, done, partial, refused, is_content}
use moat_operator.ConfigSync.Safe.{is_content-eq}
use moat_operator.Certs.Projection.{
  Dir, DirFaults, write_in_place, write_file_if_changed, crt_file, key_file, Projecting,
  project_pair, key_written, crt_written, pair_of, project_stems,
}
use moat_operator.Certs.Written.{
  write_file-lookup, key_file-eq, crt_file-eq, key_file-ne_crt, crt_file-ne_key,
}

has_key-written :
    (f : DirFaults) (name content : Text) (d : Dir)
    → let r = write_file_if_changed f name content d in
      (has_key name d ≡ true → has_key name r.0 ≡ true)
      × (is_some r.1 ≡ true → has_key name r.0 ≡ true)
unfolding write_file_if_changed
has_key-written f name content d = elim (Bool-cases (is_content content (lookup name d))) [
  | inl e ↦
      let there = is_content-eq content (lookup name d) e in rw e (λ h. h, λ h. ap is_some there)
  | inr e ↦ rw e (at (f.write name))
]
  where
    at :
        (w : WriteEnd)
        → let r = write_in_place name content d w in
          (has_key name d ≡ true → has_key name r.0 ≡ true)
          × (is_some r.1 ≡ true → has_key name r.0 ≡ true)
    at refused = (λ h. h, λ h. absurd (ground (arith, h)))
    at (partial c) = (
      λ h. ap is_some (lookup-insert_self name c d),
      λ h. ap is_some (lookup-insert_self name c d),
    )
    at done = (
      λ h. ap is_some (lookup-insert_self name content d),
      λ h. ap is_some (lookup-insert_self name content d),
    )

-- Every certificate has its key beside it.
abbrev pub IsPaired : Dir → Type 0
IsPaired d = (t : Text) → has_key (crt_file t) d ≡ true → has_key (key_file t) d ≡ true

module _ (f : DirFaults) where
  key_write-IsPaired :
      (s key : Text) (d : Dir)
      → IsPaired d
      → IsPaired (write_file_if_changed f (key_file s) key d).0
  key_write-IsPaired s key d h t c =
      let (_, other) = write_file-lookup f (key_file s) key d (crt_file t) in
      let before : has_key (crt_file t) d ≡ true =
        sym (ap is_some (other (key_file-ne_crt s t))) ∙ c in
      elim (Bool-cases (s == t)) [
        | inl e ↦
            let (keeps, _) = has_key-written f (key_file s) key d in
            subst (λ x. has_key (key_file x) (write_file_if_changed f (key_file s) key d).0 ≡ true)
              ((eq_iff s t).0 e)
              (keeps
                (subst (λ x. has_key (key_file x) d ≡ true) (sym ((eq_iff s t).0 e)) (h t before)))
        | inr e ↦
            let (_, same) = write_file-lookup f (key_file s) key d (key_file t) in
            ap is_some (same (key_file-eq s t ∙ e)) ∙ h t before
      ]

  crt_write-IsPaired :
      (s crt : Text) (d : Dir)
      → has_key (key_file s) d ≡ true
      → IsPaired d
      → IsPaired (write_file_if_changed f (crt_file s) crt d).0
  crt_write-IsPaired s crt d k h t c =
      let (_, key_same) = write_file-lookup f (crt_file s) crt d (key_file t) in
      let after = ap is_some (key_same (crt_file-ne_key s t)) in
      elim (Bool-cases (s == t)) [
        | inl e ↦ after ∙ subst (λ x. has_key (key_file x) d ≡ true) ((eq_iff s t).0 e) k
        | inr e ↦
            let (_, same) = write_file-lookup f (crt_file s) crt d (crt_file t) in
            after ∙ h t (sym (ap is_some (same (crt_file-eq s t ∙ e))) ∙ c)
      ]

  project_pair-IsPaired :
      (s : Text) (o : Option (Text × Text)) (p : Projecting)
      → IsPaired p.dir
      → IsPaired (project_pair f s o p).dir
  project_pair-IsPaired s none p h = h
  project_pair-IsPaired s (some (crt, key)) p h =
      at (write_file_if_changed f (key_file s) key p.dir) (key_write-IsPaired s key p.dir h)
        (has_key-written f (key_file s) key p.dir).1
    where
      second :
          (kch : Bool) (w : Dir × Option Bool) → IsPaired w.0 → IsPaired (crt_written s kch p w).dir
      second kch (d, none) g = g
      second kch (d, some cch) g = g

      at :
          (w : Dir × Option Bool)
          → IsPaired w.0
          → (is_some w.1 ≡ true → has_key (key_file s) w.0 ≡ true)
          → IsPaired (key_written f s crt p w).dir
      at (d, none) g k = g
      at (d, some kch) g k =
          second kch (write_file_if_changed f (crt_file s) crt d)
            (crt_write-IsPaired s crt d (k refl) g)

module _ (get : NamespacedName → Option (Map Text)) (f : DirFaults) (m : RenderModel) where
  -- If every certificate in the directory has its key beside it, then so it is after the writes of
  -- a projection, at whichever write it stops and whatever that write leaves behind.
  pub project_stems-IsPaired :
      (stems : List Text) (p : Projecting)
      → IsPaired p.dir
      → IsPaired (project_stems get f m stems p).dir
  unfolding project_stems
  project_stems-IsPaired [] p h = h
  project_stems-IsPaired (s ∷ stems) p h =
      let q = project_pair f s (pair_of get m s) p in
      let one = project_pair-IsPaired f s (pair_of get m s) p h in
      elim (Bool-cases q.failed) [
        | inl e ↦ rw e one
        | inr e ↦ rw e (project_stems-IsPaired stems q one)
      ]
