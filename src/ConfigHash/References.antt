-- ===== src/ConfigHash/References.antt =====
-- controllers/configmap_controller.go: which sources a pod spec refers to.
use moat_operator.Base.{
  true, ◌||◌, Option, none, some, List, [], ◌∷◌, ◌++◌, Text, ◌≡◌, refl, ap, sym, subst, ◌∙◌, arith,
  ◌⊎◌, ◌↔◌, inl, inr, Has, Has-append, Has-append_left, Has-append_right, ◌==◌, eq_iff, Bool-cases,
  option_or, IsAdded, IsAdded-as, IsAdded-then, loop-IsAdded,
}
use moat_operator.Kube.Workloads.{SourceRefs, Volume, Container, PodSpec}
use moat_operator.ConfigSync.{in_set}
use moat_operator.ConfigHash.Rollout.{
  References, with_name, refer, refer_all, refer_volumes, refer_env, refer_containers,
  referenced_sources,
}

-- A container reads the sources by `envFrom` or by the value of a variable.
abbrev pub IsReadBy : SourceRefs → Container → Type 0
IsReadBy s c = Has s c.env_from ⊎ Has (some s) c.env

-- A volume mounts the sources, itself or projected.
abbrev pub IsMountedBy : SourceRefs → Volume → Type 0
IsMountedBy s v = (s ≡ v.refs) ⊎ Has s (option_or v.projected [])

-- The pod uses the sources: in a volume, in an init container or in a container.
abbrev pub IsUsed : SourceRefs → PodSpec → Type 0
IsUsed s spec =
    ((v : Volume) × Has v spec.volumes × IsMountedBy s v)
    ⊎ ((c : Container) × (Has c spec.init_containers ⊎ Has c spec.containers) × IsReadBy s c)

in_set-cons : (n m : Text) (l : List Text) → in_set n (m ∷ l) ≡ (n == m) || in_set n l
unfolding in_set
in_set-cons n m l = refl

with_name_iff :
    (n : Text) (o : Option Text) (l : List Text)
    → (in_set n (with_name o l) ≡ true) ↔ ((o ≡ some n) ⊎ (in_set n l ≡ true))
with_name_iff n none l = (inr, λ h. elim h [ inl e ↦ absurd (ground (arith, e)) | inr k ↦ k ])
with_name_iff n (some m) l = (
  λ h. elim (Bool-cases (n == m)) [
    | inl e ↦ inl (ap some (sym ((eq_iff n m).0 e)))
    | inr e ↦ inr (ground (arith, in_set-cons n m l))
  ],
  λ h. elim h [
    | inl e ↦ ground (arith, in_set-cons n m l, eq_iff n m, e)
    | inr k ↦ ground (arith, in_set-cons n m l)
  ],
)

-- The name that sources hold, and the set that it goes to: both kinds are treated alike.
module _ (name : SourceRefs → Option Text) (names : References → List Text)
    (names-refer : (s : SourceRefs) (r : References)
      → names (refer s r) ≡ with_name (name s) (names r))
    (n : Text) where
  abbrev IsNamed : References → Type 0
  IsNamed r = in_set n (names r) ≡ true

  -- Some sources that the predicate admits hold the name.
  abbrev IsHeldBy : (SourceRefs → Type 0) → Type 0
  IsHeldBy IsOf = (s : SourceRefs) × IsOf s × (name s ≡ some n)

  -- The set gains the name where some sources that the predicate admits hold it.
  abbrev IsGained : (SourceRefs → Type 0) → References → References → Type 0
  IsGained IsOf r q = IsAdded IsNamed (IsHeldBy IsOf) r q

  refer_iff : (x : SourceRefs) (r : References) → IsGained (λ s. s ≡ x) r (refer x r)
  refer_iff x r =
      let (f, g) = with_name_iff n (name x) (names r) in
      rw (names-refer x r) (
        λ h. elim (f h) [ inl e ↦ inl (x, refl, e) | inr k ↦ inr k ],
        λ h. elim h [ inl (s, q, e) ↦ g (inl (ap name (sym q) ∙ e)) | inr k ↦ g (inr k) ],
      )

  -- Some sources that one of the values admits, or one of the values and sources that it admits.
  held_of_one :
      {A : Type 0} (IsOf : SourceRefs → A → Type 0) (xs : List A)
      → (a : A) × Has a xs × IsHeldBy (λ s. IsOf s a)
      → IsHeldBy (λ s. (a : A) × Has a xs × IsOf s a)
  held_of_one IsOf xs (a, m, (s, o, e)) = (s, (a, m, o), e)

  one_of_held :
      {A : Type 0} (IsOf : SourceRefs → A → Type 0) (xs : List A)
      → IsHeldBy (λ s. (a : A) × Has a xs × IsOf s a)
      → (a : A) × Has a xs × IsHeldBy (λ s. IsOf s a)
  one_of_held IsOf xs (s, (a, m, o), e) = (a, m, (s, o, e))

  loop_iff :
      {A : Type 0} (IsOf : SourceRefs → A → Type 0) (step : A → References → References)
      (go : List A → References → References)
      → ((r : References) → go [] r ≡ r)
      → ((a : A) (xs : List A) (r : References) → go (a ∷ xs) r ≡ go xs (step a r))
      → ((a : A) (r : References) → IsGained (λ s. IsOf s a) r (step a r))
      → (xs : List A) (r : References) → IsGained (λ s. (a : A) × Has a xs × IsOf s a) r (go xs r)
  loop_iff IsOf step go on_nil on_cons one xs r =
      IsAdded-as IsNamed r (go xs r) (held_of_one IsOf xs) (one_of_held IsOf xs)
        (loop-IsAdded IsNamed (λ a. IsHeldBy (λ s. IsOf s a)) step go on_nil on_cons one xs r)

  IsGained-as :
      {IsP IsQ : SourceRefs → Type 0} (r q : References)
      → ((s : SourceRefs) → IsP s → IsQ s)
      → ((s : SourceRefs) → IsQ s → IsP s)
      → IsGained IsP r q
      → IsGained IsQ r q
  IsGained-as r q to from g =
      IsAdded-as IsNamed r q (λ h. let (s, p, e) = h in (s, to s p, e))
        (λ h. let (s, p, e) = h in (s, from s p, e)) g

  held_of_either :
      {IsP IsQ : SourceRefs → Type 0} → IsHeldBy IsP ⊎ IsHeldBy IsQ → IsHeldBy (λ s. IsP s ⊎ IsQ s)
  held_of_either (inl (s, p, e)) = (s, inl p, e)
  held_of_either (inr (s, p, e)) = (s, inr p, e)

  either_of_held :
      {IsP IsQ : SourceRefs → Type 0} → IsHeldBy (λ s. IsP s ⊎ IsQ s) → IsHeldBy IsP ⊎ IsHeldBy IsQ
  either_of_held (s, inl p, e) = inl (s, p, e)
  either_of_held (s, inr p, e) = inr (s, p, e)

  IsGained-then :
      {IsP IsQ : SourceRefs → Type 0} (r q t : References)
      → IsGained IsP r q
      → IsGained IsQ q t
      → IsGained (λ s. IsP s ⊎ IsQ s) r t
  IsGained-then r q t f g =
      IsAdded-as IsNamed r t held_of_either either_of_held (IsAdded-then IsNamed r q t f g)

  Has-of_member :
      {A : Type 0} (f : SourceRefs → A) (s : SourceRefs) (xs : List A)
      → (a : A) × Has a xs × (f s ≡ a)
      → Has (f s) xs
  Has-of_member f s xs (a, m, e) = subst (λ b. Has b xs) (sym e) m

  refer_all_iff :
      (xs : List SourceRefs) (r : References) → IsGained (λ s. Has s xs) r (refer_all xs r)
  unfolding refer_all
  refer_all_iff xs r =
      IsGained-as _ _ (λ s. Has-of_member (λ s. s) s xs) (λ s m. (s, m, refl))
        (loop_iff (λ s a. s ≡ a) refer refer_all (λ r. refl) (λ a xs r. refl) refer_iff xs r)

  abbrev refer_some : Option SourceRefs → References → References
  refer_some none r = r
  refer_some (some s) r = refer s r

  refer_some_iff :
      (o : Option SourceRefs) (r : References) → IsGained (λ s. some s ≡ o) r (refer_some o r)
  refer_some_iff none r =
      (inr, λ h. elim h [ inl (s, e, _) ↦ absurd (ground (arith, e)) | inr k ↦ k ])
  refer_some_iff (some x) r =
      IsGained-as _ _ (λ s e. ap some e) (λ s e. ground (arith, e)) (refer_iff x r)

  refer_env-cons :
      (o : Option SourceRefs) (es : List (Option SourceRefs)) (r : References)
      → refer_env (o ∷ es) r ≡ refer_env es (refer_some o r)
  unfolding refer_env
  refer_env-cons none es r = refl
  refer_env-cons (some s) es r = refl

  refer_env_iff :
      (es : List (Option SourceRefs)) (r : References)
      → IsGained (λ s. Has (some s) es) r (refer_env es r)
  unfolding refer_env
  refer_env_iff es r =
      IsGained-as _ _ (λ s. Has-of_member some s es) (λ s m. (some s, m, refl))
        (loop_iff (λ s o. some s ≡ o) refer_some refer_env (λ r. refl) refer_env-cons refer_some_iff
          es r)

  refer_volumes_iff :
      (vs : List Volume) (r : References)
      → IsGained (λ s. (v : Volume) × Has v vs × IsMountedBy s v) r (refer_volumes vs r)
  unfolding refer_volumes
  refer_volumes_iff vs r =
      loop_iff IsMountedBy (λ v r. refer_all (option_or v.projected []) (refer v.refs r))
        refer_volumes (λ r. refl) (λ v vs r. refl)
        (λ v r.
          IsGained-then _ _ _ (refer_iff v.refs r) (refer_all_iff (option_or v.projected []) _))
        vs r

  refer_containers_iff :
      (cs : List Container) (r : References)
      → IsGained (λ s. (c : Container) × Has c cs × IsReadBy s c) r (refer_containers cs r)
  unfolding refer_containers
  refer_containers_iff cs r =
      loop_iff IsReadBy (λ c r. refer_env c.env (refer_all c.env_from r)) refer_containers
        (λ r. refl) (λ c cs r. refl)
        (λ c r. IsGained-then _ _ _ (refer_all_iff c.env_from r) (refer_env_iff c.env _)) cs r

  referenced_iff :
      (spec : PodSpec)
      → names (record { config_maps = []; secrets = [] }) ≡ []
      → IsNamed (referenced_sources spec) ↔ IsHeldBy (λ s. IsUsed s spec)
  unfolding referenced_sources in_set
  referenced_iff spec z =
      let no_refs : References = record { config_maps = []; secrets = [] } in
      let both =
        IsGained-then _ _ _ (refer_volumes_iff spec.volumes no_refs)
          (refer_containers_iff (spec.init_containers ++ spec.containers) _) in
      (
        λ h. elim (both.0 h) [
          | inl (s, inl v, e) ↦ (s, inl v, e)
          | inl (s, inr (c, m, k), e) ↦
              (s, inr (c, Has-append c spec.init_containers spec.containers m, k), e)
          | inr k ↦ absurd (ground (arith, k, z))
        ],
        λ h. let (s, used, e) = h in both.1 (inl (s, use_of s used, e)),
      )
    where
      use_of :
          (s : SourceRefs)
          → IsUsed s spec
          → ((v : Volume) × Has v spec.volumes × IsMountedBy s v)
            ⊎ ((c : Container) × Has c (spec.init_containers ++ spec.containers) × IsReadBy s c)
      use_of s (inl v) = inl v
      use_of s (inr (c, inl m, k)) =
          inr (c, Has-append_left c spec.init_containers spec.containers m, k)
      use_of s (inr (c, inr m, k)) =
          inr (c, Has-append_right c spec.init_containers spec.containers m, k)

-- The names of ConfigMaps that `referencedSources` collects of a pod spec are those that a volume,
-- a projected volume, or the environment of an init container or a container refers to; and so
-- are the names of Secrets.
pub referenced_sources_iff :
    (spec : PodSpec) (n : Text)
    → let refs = referenced_sources spec in
      ((in_set n refs.config_maps ≡ true)
        ↔ ((s : SourceRefs) × IsUsed s spec × (s.config_map ≡ some n)))
      × ((in_set n refs.secrets ≡ true) ↔ ((s : SourceRefs) × IsUsed s spec × (s.secret ≡ some n)))
referenced_sources_iff spec n = (
  referenced_iff (λ s. s.config_map) (λ r. r.config_maps) (λ s r. refl) n spec refl,
  referenced_iff (λ s. s.secret) (λ r. r.secrets) (λ s r. refl) n spec refl,
)
