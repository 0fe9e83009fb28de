-- ===== src/Resolver/Fqdn.antt =====
-- controllers/upstreams_resolver.go: the hosts that `parseClusterFQDN` reads.
use moat_operator.Base.{
  ℕ, true, false, some, List, [], ◌∷◌, ◌++◌, append_assoc, Text, codes, ◌==◌, eq_iff, eq_refl, eqb,
  eqb_iff, if◌then◌else◌, is_nil, contains_char, ◌≡◌, refl, arith, ap, ◌∙◌, sym, split, push_head,
  join, All, length, length-append, eq-false_of_ne, Bool-cases, inl, inr, ◌↔◌,
}
use moat_operator.Kube.{NamespacedName}
use moat_operator.Resolver.{
  has_suffix, trim_suffix, two_labels, cluster_domain_or_default, parse_cluster_fqdn,
}

is_nil-eq : (s : Text) → is_nil s ≡ true → s ≡ []
is_nil-eq [] h = refl
is_nil-eq (c ∷ s) h = ground arith

pub trim_suffix-join :
    (s suffix : Text) → has_suffix s suffix ≡ true → trim_suffix s suffix ++ suffix ≡ s
unfolding has_suffix trim_suffix
trim_suffix-join [] suffix h = is_nil-eq suffix h
trim_suffix-join (c ∷ s) suffix h = elim (Bool-cases ((c ∷ s) == suffix)) [
  | inl e ↦ rw e (sym ((eq_iff (c ∷ s) suffix).0 e))
  | inr e ↦ rw e (ap (λ t. c ∷ t) (trim_suffix-join s suffix (rw e at h)))
]

longer-ne : (c : ℕ) (a suffix : Text) → ((c ∷ (a ++ suffix)) == suffix) ≡ false
longer-ne c a suffix = eq-false_of_ne _ _ (λ e.
    let n : length (c ∷ (a ++ suffix)) ≡ length suffix = ap length e in
    ground (arith, length-append a suffix))

pub has_suffix-append : (a suffix : Text) → has_suffix (a ++ suffix) suffix ≡ true
unfolding has_suffix
has_suffix-append [] [] = refl
has_suffix-append [] (c ∷ suffix) = ground (arith, eq_refl (c ∷ suffix))
has_suffix-append (c ∷ a) suffix = ground (arith, has_suffix-append a suffix)

pub trim_suffix-append : (a suffix : Text) → trim_suffix (a ++ suffix) suffix ≡ a
unfolding trim_suffix
trim_suffix-append [] [] = refl
trim_suffix-append [] (c ∷ suffix) = rw (eq_refl (c ∷ suffix)) refl
trim_suffix-append (c ∷ a) suffix =
    rw (longer-ne c a suffix) (ap (λ t. c ∷ t) (trim_suffix-append a suffix))

module _ (sep : ℕ) where
  abbrev IsClear : Text → Type 0
  IsClear s = contains_char sep s ≡ false

  split-clear : (s : Text) → IsClear s → split sep s ≡ s ∷ []
  unfolding split contains_char
  split-clear [] h = refl
  split-clear (c ∷ s) h =
      let n : eqb c sep ≡ false = ground arith in
      rw n (ap (push_head c) (split-clear s (rw n at h)))

  split-two : (a b : Text) → IsClear a → IsClear b → split sep (a ++ sep ∷ b) ≡ a ∷ b ∷ []
  unfolding split contains_char
  split-two [] b h k =
      let e : eqb sep sep ≡ true = ground arith in rw e (ap (λ ps. [] ∷ ps) (split-clear b k))
  split-two (c ∷ a) b h k =
      let n : eqb c sep ≡ false = ground arith in
      rw n (ap (push_head c) (split-two a b (rw n at h) k))

  push_head-join :
      (c : ℕ) (ps : List Text)
      → is_nil ps ≡ false
      → join (sep ∷ []) (push_head c ps) ≡ c ∷ join (sep ∷ []) ps
  unfolding join
  push_head-join c [] h = ground arith
  push_head-join c (p ∷ []) h = refl
  push_head-join c (p ∷ q ∷ ps) h = refl

  split-nonempty : (s : Text) → is_nil (split sep s) ≡ false
  unfolding split
  split-nonempty [] = refl
  split-nonempty (c ∷ s) = elim (split sep s) [ [] ↦ ground arith | p ∷ ps ↦ ground arith ]

  empty-join :
      (ps : List Text) → is_nil ps ≡ false → join (sep ∷ []) ([] ∷ ps) ≡ sep ∷ join (sep ∷ []) ps
  unfolding join
  empty-join [] n = ground arith
  empty-join (p ∷ ps) n = refl

  add_char-join :
      (c : ℕ) (ps : List Text)
      → is_nil ps ≡ false
      → join (sep ∷ []) (if eqb c sep then [] ∷ ps else push_head c ps) ≡ c ∷ join (sep ∷ []) ps
  add_char-join c ps n = elim (Bool-cases (eqb c sep)) [
    | inl e ↦ rw e (empty-join ps n ∙ ap (λ d. d ∷ join (sep ∷ []) ps) (sym ((eqb_iff c sep).0 e)))
    | inr e ↦ rw e (push_head-join c ps n)
  ]

  split-join : (s : Text) → join (sep ∷ []) (split sep s) ≡ s
  unfolding split
  split-join [] = unfold join in refl
  split-join (c ∷ s) =
      add_char-join c (split sep s) (split-nonempty s) ∙ ap (λ t. c ∷ t) (split-join s)

  add_char-All :
      (c : ℕ) (ps : List Text)
      → All IsClear ps
      → All IsClear (if eqb c sep then [] ∷ ps else push_head c ps)
  unfolding contains_char
  add_char-All c [] h = elim (Bool-cases (eqb c sep)) [
    | inl e ↦ rw e (refl, tt)
    | inr e ↦ rw e (ground arith, tt)
  ]
  add_char-All c (p ∷ ps) h = elim (Bool-cases (eqb c sep)) [
    | inl e ↦ rw e (refl, h)
    | inr e ↦ rw e (ground (arith, h.0), h.1)
  ]

  split-All : (s : Text) → All IsClear (split sep s)
  unfolding split contains_char
  split-All [] = (refl, tt)
  split-All (c ∷ s) = add_char-All c (split sep s) (split-All s)

  two_labels_sound :
      (ps : List Text) (key : NamespacedName)
      → two_labels ps ≡ some key
      → ps ≡ key.name ∷ key.namespace ∷ []
  two_labels_sound [] key h = ground arith
  two_labels_sound (a ∷ []) key h = ground arith
  two_labels_sound (a ∷ b ∷ []) key h = ground arith
  two_labels_sound (a ∷ b ∷ c ∷ ps) key h = ground arith

abbrev pub cluster_suffix : Text → Text
cluster_suffix domain = codes ".svc." ++ cluster_domain_or_default domain

fqdn_sound :
    (domain host : Text) (key : NamespacedName)
    → parse_cluster_fqdn domain host ≡ some key
    → (host ≡ (key.name ++ b'.' ∷ key.namespace) ++ cluster_suffix domain)
      × (contains_char b'.' key.name ≡ false)
      × (contains_char b'.' key.namespace ≡ false)
unfolding parse_cluster_fqdn join
fqdn_sound domain host key h = elim (Bool-cases (has_suffix host (cluster_suffix domain))) [
  | inl e ↦
      let suffix = cluster_suffix domain in
      let stem = trim_suffix host suffix in
      let labels = two_labels_sound b'.' (split b'.' stem) key (rw e at h) in
      let clear : All (IsClear b'.') (key.name ∷ key.namespace ∷ []) =
        rw labels at (split-All b'.' stem) in
      let joined : stem ≡ key.name ++ b'.' ∷ key.namespace =
        sym (split-join b'.' stem)
        ∙ ap (join (codes ".")) labels
        ∙ append_assoc key.name (codes ".") key.namespace in
      (sym (trim_suffix-join host suffix e) ∙ ap (λ t. t ++ suffix) joined, clear.0, clear.1.0)
  | inr e ↦ ground arith
]

fqdn_complete :
    (domain name ns : Text)
    → contains_char b'.' name ≡ false
    → contains_char b'.' ns ≡ false
    → parse_cluster_fqdn domain ((name ++ b'.' ∷ ns) ++ cluster_suffix domain)
      ≡ some (record { namespace = ns; name = name })
unfolding parse_cluster_fqdn
fqdn_complete domain name ns h k =
    let stem = name ++ b'.' ∷ ns in
    rw
      (
        has_suffix-append stem (cluster_suffix domain),
        trim_suffix-append stem (cluster_suffix domain),
        split-two b'.' name ns h k,
      )
      refl

-- A host is read as a Service's name exactly when it is the Service's name, a dot, its namespace,
-- ".svc." and the cluster domain, where neither the name nor the namespace holds a dot.
pub parse_cluster_fqdn_iff :
    (domain host : Text) (key : NamespacedName)
    → (parse_cluster_fqdn domain host ≡ some key) ↔ (
        (host ≡ (key.name ++ b'.' ∷ key.namespace) ++ cluster_suffix domain)
        × (contains_char b'.' key.name ≡ false)
        × (contains_char b'.' key.namespace ≡ false))
parse_cluster_fqdn_iff domain host key = (
  fqdn_sound domain host key,
  λ (e, h, k). ap (parse_cluster_fqdn domain) e ∙ fqdn_complete domain key.name key.namespace h k,
)
