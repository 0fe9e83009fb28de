-- ===== src/NetVars/Documents.antt =====
-- controllers/netvars_resolver.go: the variables of a document after they have been set.
use moat_operator.Base.{
  Bool, false, ◌&&◌, Option, none, some, [], Text, codes, ◌==◌, eq_iff, eq_refl, ◌≡◌, refl, sym, ap,
  ◌∙◌, inl, inr, arith, Bool-cases, trim_space,
}
use moat_operator.Resolver.Document.{Value, str, Fields, no_fields, more_fields, field}
use moat_operator.NetVars.{
  put_field, as_map, as_text, address_vars, with_vars, current_home_net, home_of, marshalled,
  set_vars, set_parsed, set_ids_address_vars,
}

field-put_field : (k : Text) (v : Value) (fs : Fields) → field k (put_field k v fs) ≡ some v
unfolding field put_field
field-put_field k v no_fields = ground (arith, eq_refl k)
field-put_field k v (more_fields j w fs) = ground (arith, field-put_field k v fs)

field-put_field_other :
    (k l : Text) (v : Value) (fs : Fields)
    → (k == l) ≡ false
    → field k (put_field l v fs) ≡ field k fs
unfolding field put_field
field-put_field_other k l v no_fields h = ground arith
field-put_field_other k l v (more_fields j w fs) h =
    ground (arith, field-put_field_other k l v fs, eq_iff k j, eq_iff l j, eq_iff k l)

home-ne-external : (codes "HOME_NET" == codes "EXTERNAL_NET") ≡ false
unfolding ◌==◌
home-ne-external = refl

abbrev pub home_in : Fields → Text
home_in root = as_text (field (codes "HOME_NET") (address_vars root))

abbrev pub external_in : Fields → Text
external_in root = as_text (field (codes "EXTERNAL_NET") (address_vars root))

with_vars-address_vars :
    (home external : Text) (root : Fields)
    → address_vars (with_vars home external root)
      ≡ put_field
          (codes "EXTERNAL_NET")
          (str external)
          (put_field (codes "HOME_NET") (str home) (address_vars root))
with_vars-address_vars home external root =
    rw
      (
        field-put_field (codes "ids") _ root,
        field-put_field (codes "address_vars") _ (as_map (field (codes "ids") root)),
      )
      refl

pub with_vars-home :
    (home external : Text) (root : Fields) → home_in (with_vars home external root) ≡ home
with_vars-home home external root =
    rw
      (
        with_vars-address_vars home external root,
        field-put_field_other (codes "HOME_NET") (codes "EXTERNAL_NET") (str external)
            (put_field (codes "HOME_NET") (str home) (address_vars root)) home-ne-external,
        field-put_field (codes "HOME_NET") (str home) (address_vars root),
      )
      refl

pub with_vars-external :
    (home external : Text) (root : Fields) → external_in (with_vars home external root) ≡ external
with_vars-external home external root =
    rw
      (
        with_vars-address_vars home external root,
        field-put_field (codes "EXTERNAL_NET") (str external)
            (put_field (codes "HOME_NET") (str home) (address_vars root)),
      )
      refl

-- What is printed is read back with the same variables.
abbrev pub KeepsVars : (Text → Option (Option Fields)) → (Fields → Option Text) → Type 0
KeepsVars unmarshal marshal =
    (root : Fields) (out : Text)
    → marshal root ≡ some out
    → (g : Fields) × (unmarshal out ≡ some (some g))
      × (home_in g ≡ home_in root)
      × (external_in g ≡ external_in root)

module _ (unmarshal : Text → Option (Option Fields)) (marshal : Fields → Option Text)
    (keeps : KeepsVars unmarshal marshal) where
  -- The document holds the two values.
  abbrev pub IsHeldIn : Text → Text → Text → Type 0
  IsHeldIn raw home external =
      (set_ids_address_vars unmarshal marshal raw home external ≡ some (raw, false))
      × (current_home_net unmarshal marshal raw ≡ trim_space home)

  marshalled-some :
      (o : Option Text) (raw' : Text) (b : Bool)
      → marshalled unmarshal marshal o ≡ some (raw', b)
      → o ≡ some raw'
  marshalled-some none raw' b h = absurd (ground (arith, h))
  marshalled-some (some out) raw' b h = ground (arith, h)

  set_vars-IsHeldIn :
      (raw home external : Text) (o : Option (Option Fields)) (root : Fields) (raw' : Text)
      (b : Bool)
      → unmarshal raw ≡ o
      → set_parsed unmarshal marshal raw home external o
        ≡ set_vars unmarshal marshal raw home external root
      → home_of unmarshal marshal o ≡ trim_space (home_in root)
      → set_vars unmarshal marshal raw home external root ≡ some (raw', b)
      → IsHeldIn raw' home external
  unfolding set_ids_address_vars current_home_net
  set_vars-IsHeldIn raw home external o root raw' b u same cur h =
      elim (Bool-cases ((home_in root == home) && (external_in root == external))) [
        | inl e ↦
            let got = (rw e at h) in
            let whole : raw' ≡ raw = ground (arith, got) in
            let mine : home_in root ≡ home = (eq_iff (home_in root) home).0 (ground (arith, e)) in
            rw (whole, u) (same ∙ (rw e refl), cur ∙ ap trim_space mine)
        | inr e ↦
            let got = (rw e at h) in
            let (g, back, hg, eg) =
              keeps (with_vars home external root) raw'
                (marshalled-some (marshal (with_vars home external root)) raw' b got) in
            let home_back : home_in g ≡ home = hg ∙ with_vars-home home external root in
            let external_back : external_in g ≡ external =
              eg ∙ with_vars-external home external root in
            rw (back, home_back, external_back, eq_refl home, eq_refl external) (refl, refl)
      ]

  no_vars : home_in no_fields ≡ []
  unfolding field
  no_vars = refl

  trim_nothing : trim_space [] ≡ []
  unfolding trim_space
  trim_nothing = refl

  -- What the code returns is a text that holds the values.
  pub set_ids_address_vars-IsHeldIn :
      (raw home external raw' : Text) (b : Bool)
      → set_ids_address_vars unmarshal marshal raw home external ≡ some (raw', b)
      → IsHeldIn raw' home external
  unfolding set_ids_address_vars
  set_ids_address_vars-IsHeldIn raw home external raw' b h = at (unmarshal raw) refl h
    where
      at :
          (o : Option (Option Fields))
          → unmarshal raw ≡ o
          → set_parsed unmarshal marshal raw home external o ≡ some (raw', b)
          → IsHeldIn raw' home external
      at none u k = absurd (ground (arith, k))
      at (some none) u k =
          set_vars-IsHeldIn raw home external (some none) no_fields raw' b u refl
            (sym (ap trim_space no_vars ∙ trim_nothing)) k
      at (some (some root)) u k =
          set_vars-IsHeldIn raw home external (some (some root)) root raw' b u refl refl k
