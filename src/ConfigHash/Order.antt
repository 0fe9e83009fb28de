-- ===== src/ConfigHash/Order.antt =====
-- controllers/configmap_controller.go: the order in which the API server lists the sources.
use mathlib.Core.List.Permᴰ
use moat_operator.Base.{
  true, List, [], ◌∷◌, ◌++◌, Text, codes, ◌≡◌, refl, sym, ap, ◌∙◌, arith, ◌⊎◌, inl, inr, Permᴰ,
  sort_by, sort_by-perm, IsKeyed, IsKeyed-append, IsOrder, Has, text_leb_total, text_leb_trans,
  text_leb_antisym, is_nil, if◌then◌else◌, Bool-cases,
}
use moat_operator.Kube.Workloads.{ConfigMap, Secret}
use moat_operator.ConfigHash.{
  Libraries, Settings, with_entry, entry_leb, config_map_entries, secret_entries,
  hash_config_map_content, hash_secret_content, hash_config_sources, hashed_text,
}

append_cancel : (a : Text) {s t : Text} → a ++ s ≡ a ++ t → s ≡ t
append_cancel [] h = h
append_cancel (x ∷ a) h = append_cancel a (ground (arith, h))

Has-with_entry :
    (e : Text × Text) (key hash : Text) (rest : List (Text × Text))
    → Has e (with_entry key hash rest)
    → (e ≡ (key, hash)) ⊎ Has e rest
Has-with_entry e key hash rest h = elim (Bool-cases (is_nil hash)) [
  | inl b ↦ inr (rw b at h)
  | inr b ↦ (rw b at h)
]

with_entry-perm :
    (key hash : Text) {xs ys : List (Text × Text)}
    → Permᴰ xs ys
    → Permᴰ (with_entry key hash xs) (with_entry key hash ys)
with_entry-perm key [] p = p
with_entry-perm key (c ∷ hash) p = Permᴰ.cons refl p

with_entry-swap :
    (k h k' h' : Text) (xs : List (Text × Text))
    → Permᴰ (with_entry k h (with_entry k' h' xs)) (with_entry k' h' (with_entry k h xs))
with_entry-swap k [] k' h' xs = Permᴰ.refl _
with_entry-swap k (c ∷ h) k' [] xs = Permᴰ.refl _
with_entry-swap k (c ∷ h) k' (c' ∷ h') xs = Permᴰ.swap refl refl

is_nil-perm : {A : Type 0} {xs ys : List A} → Permᴰ xs ys → is_nil xs ≡ is_nil ys
is_nil-perm Permᴰ.nil = refl
is_nil-perm (Permᴰ.cons e p) = refl
is_nil-perm (Permᴰ.swap e f) = refl
is_nil-perm (Permᴰ.trans p q) = is_nil-perm p ∙ is_nil-perm q

-- No two listed objects of a kind have one name.
abbrev pub IsNamed : {A : Type 0} → (A → Text) → List A → Type 0
IsNamed {A} name xs = (a b : A) → Has a xs → Has b xs → name a ≡ name b → a ≡ b

-- A loop that adds an entry for each object under a prefix of its name.
module _ {A : Type 0} (name content : A → Text) (prefix : Text)
    (entries : List A → List (Text × Text)) (on_nil : entries [] ≡ [])
    (on_cons : (a : A) (xs : List A)
      → entries (a ∷ xs) ≡ with_entry (prefix ++ name a) (content a) (entries xs)) where
  entries-perm : {xs ys : List A} → Permᴰ xs ys → Permᴰ (entries xs) (entries ys)
  entries-perm Permᴰ.nil = Permᴰ.refl _
  entries-perm (Permᴰ.cons {a = a} {b = b} {l₁ = xs} {l₂ = ys} e p) =
      rw (on_cons a xs, on_cons b ys, e) (with_entry-perm _ _ (entries-perm p))
  entries-perm (Permᴰ.swap {a = a} {b = b} {a' = a'} {b' = b'} {l = l} e f) =
      rw (e, f, on_cons b' (a' ∷ l), on_cons a' l, on_cons a' (b' ∷ l), on_cons b' l)
        (with_entry-swap _ _ _ _ (entries l))
  entries-perm (Permᴰ.trans p q) = Permᴰ.trans (entries-perm p) (entries-perm q)

  Has-entries :
      (e : Text × Text) (xs : List A)
      → Has e (entries xs)
      → (a : A) × Has a xs × (e ≡ (prefix ++ name a, content a))
  Has-entries e [] h = elim (rw on_nil at h) [ ]
  Has-entries e (x ∷ xs) h =
      elim (Has-with_entry e (prefix ++ name x) (content x) (entries xs) (rw (on_cons x xs) at h)) [
        | inl k ↦ (x, inl refl, k)
        | inr k ↦ let (a, m, q) = Has-entries e xs k in (a, inr m, q)
      ]

  entries-IsKeyed : (xs : List A) → IsNamed name xs → IsKeyed entry_leb (entries xs)
  entries-IsKeyed xs n d e m k h g =
      let (a, ha, p) = Has-entries d xs m in
      let (b, hb, q) = Has-entries e xs k in
      let same = text_leb_antisym d.0 e.0 h g in
      let names = append_cancel prefix (sym (ap (λ x. x.0) p) ∙ same ∙ ap (λ x. x.0) q) in
      p ∙ ap (λ x. (prefix ++ name x, content x)) (n a b ha hb names) ∙ sym q

module _ (lib : Libraries) (r : Settings) where
  entry_leb-IsOrder : IsOrder entry_leb
  entry_leb-IsOrder = record {
    total = λ a b. text_leb_total a.0 b.0;
    trans = λ a b c. text_leb_trans a.0 b.0 c.0;
  }

  abbrev config_hash : ConfigMap → Text
  config_hash c =
      hash_config_map_content lib c r.ignored_config_map_keys r.exclude_hot_reload_ids_fields

  abbrev secret_hash : Secret → Text
  secret_hash s = hash_secret_content lib s r.ignored_secret_keys

  on_cons_configs :
      (c : ConfigMap) (cms : List ConfigMap)
      → config_map_entries lib r (c ∷ cms)
        ≡ with_entry (codes "configmap/" ++ c.name) (config_hash c) (config_map_entries lib r cms)
  unfolding config_map_entries
  on_cons_configs c cms = refl

  on_nil_configs : config_map_entries lib r [] ≡ []
  unfolding config_map_entries
  on_nil_configs = refl

  on_cons_secrets :
      (s : Secret) (secrets : List Secret)
      → secret_entries lib r (s ∷ secrets)
        ≡ with_entry (codes "secret/" ++ s.name) (secret_hash s) (secret_entries lib r secrets)
  unfolding secret_entries
  on_cons_secrets s secrets = refl

  on_nil_secrets : secret_entries lib r [] ≡ []
  unfolding secret_entries
  on_nil_secrets = refl

  across :
      (cms : List ConfigMap) (secrets : List Secret) (a b : Text × Text)
      → Has a (config_map_entries lib r cms)
      → Has b (secret_entries lib r secrets)
      → entry_leb a b ≡ true
      → entry_leb b a ≡ true
      → a ≡ b
  across cms secrets a b m n h k =
      let (c, _, p) =
        Has-entries (λ c. c.name) config_hash (codes "configmap/") (config_map_entries lib r)
          on_nil_configs on_cons_configs a cms m in
      let (s, _, q) =
        Has-entries (λ s. s.name) secret_hash (codes "secret/") (secret_entries lib r)
          on_nil_secrets on_cons_secrets b secrets n in
      let same : a.0 ≡ b.0 = text_leb_antisym a.0 b.0 h k in
      let bad : codes "configmap/" ++ c.name ≡ codes "secret/" ++ s.name =
        sym (ap (λ x. x.0) p) ∙ same ∙ ap (λ x. x.0) q in
      absurd (ground (arith, bad))

  -- If no two of the listed ConfigMaps have one name and no two of the Secrets do, then lists of
  -- the same objects in another order have the same hash.
  pub hash_config_sources-order :
      {cms cms' : List ConfigMap} {secrets secrets' : List Secret}
      → Permᴰ cms cms'
      → Permᴰ secrets secrets'
      → IsNamed (λ (c : ConfigMap). c.name) cms
      → IsNamed (λ (s : Secret). s.name) secrets
      → hash_config_sources lib r cms secrets ≡ hash_config_sources lib r cms' secrets'
  unfolding hash_config_sources
  hash_config_sources-order {cms} {cms'} {secrets} {secrets'} p q n m =
      let configs-perm =
        entries-perm (λ c. c.name) config_hash (codes "configmap/") (config_map_entries lib r)
          on_nil_configs on_cons_configs p in
      let secrets-perm =
        entries-perm (λ s. s.name) secret_hash (codes "secret/") (secret_entries lib r)
          on_nil_secrets on_cons_secrets q in
      let both =
        Permᴰ.trans (Permᴰ.append_right (secret_entries lib r secrets) configs-perm)
          (Permᴰ.append_left (config_map_entries lib r cms') secrets-perm) in
      let keyed =
        IsKeyed-append entry_leb (config_map_entries lib r cms) (secret_entries lib r secrets)
          (entries-IsKeyed (λ c. c.name) config_hash (codes "configmap/") (config_map_entries lib r)
            on_nil_configs on_cons_configs cms n)
          (entries-IsKeyed (λ s. s.name) secret_hash (codes "secret/") (secret_entries lib r)
            on_nil_secrets on_cons_secrets secrets m)
          (across cms secrets) in
      hashed_once both (sort_by-perm entry_leb entry_leb-IsOrder both keyed)
    where
      hashed_once :
          {xs ys : List (Text × Text)}
          → Permᴰ xs ys
          → sort_by entry_leb xs ≡ sort_by entry_leb ys
          → (if is_nil xs then [] else lib.sha256_hex (hashed_text (sort_by entry_leb xs)))
            ≡ (if is_nil ys then [] else lib.sha256_hex (hashed_text (sort_by entry_leb ys)))
      hashed_once {xs} {ys} p e = rw (e, is_nil-perm p) refl
