-- ===== src/ConfigHash/Reloaded.antt =====
-- controllers/configmap_controller.go: a change of the fields that the agent reloads in process.
use moat_operator.Base.{
  true, false, Option, none, some, List, [], ◌∷◌, Text, codes, Map, lookup, insert, keys, ◌≡◌, refl,
  sym, ◌∙◌, arith, inl, inr, if◌then◌else◌, Bool-cases, is_nil, ◌==◌, eq_iff, eq_refl,
  lookup-insert, lookup-insert_self, eq-false_of_ne, subst, sort, option_or,
}
use moat_operator.Kube.Workloads.{ConfigMap}
use moat_operator.ConfigSync.{in_set}
use moat_operator.Resolver.Document.{
  Value, scalar, str, seq, table, Fields, no_fields, more_fields, field, set_field,
}
use moat_operator.Resolver.Document.Keys.{field-set_field}
use moat_operator.ConfigHash.{
  Libraries, synapse_config_key, hot_reload_ids_fields, delete_field, delete_fields,
  strip_hot_reload_ids_fields, strip_subtree, strip_ids, strip_root,
  canonical_config_sans_hot_reload_ids, hash_config_map_content, config_map_entry, each_closed,
  config_map_keys, config_value, without_tag,
}

-- Two maps that differ in fields of the given names only: each may have such fields where the
-- other has none, or another value.
pub data SameBut (names : List Text) : Fields → Fields → Type 0 where
  same_end : SameBut names no_fields no_fields
  same_field :
      {k : Text} {v : Value} {fs gs : Fields}
      → SameBut names fs gs
      → SameBut names (more_fields k v fs) (more_fields k v gs)
  left_field :
      {k : Text} {v : Value} {fs gs : Fields}
      → in_set k names ≡ true
      → SameBut names fs gs
      → SameBut names (more_fields k v fs) gs
  right_field :
      {k : Text} {v : Value} {fs gs : Fields}
      → in_set k names ≡ true
      → SameBut names fs gs
      → SameBut names fs (more_fields k v gs)

delete_fields-nil : (ks : List Text) → delete_fields ks no_fields ≡ no_fields
unfolding delete_fields delete_field
delete_fields-nil [] = refl
delete_fields-nil (k ∷ ks) = delete_fields-nil ks

-- What is deleted of a map, field by field.
delete_fields-cons :
    (ks : List Text) (k : Text) (v : Value) (fs : Fields)
    → delete_fields ks (more_fields k v fs)
      ≡ (if in_set k ks then delete_fields ks fs else more_fields k v (delete_fields ks fs))
unfolding delete_fields delete_field in_set
delete_fields-cons [] k v fs = refl
delete_fields-cons (j ∷ ks) k v fs =
    ground (arith, delete_fields-cons ks k v (delete_field j fs), eq_iff j k, eq_iff k j)

delete_fields-same :
    (names : List Text) (fs gs : Fields)
    → SameBut names fs gs
    → delete_fields names fs ≡ delete_fields names gs
delete_fields-same names _ _ same_end = refl
delete_fields-same names _ _ (same_field {k} {v} {fs} {gs} s) =
    rw
      (
        delete_fields-cons names k v fs,
        delete_fields-cons names k v gs,
        delete_fields-same names fs gs s,
      )
      refl
delete_fields-same names _ _ (left_field {k} {v} {fs} {gs} e s) =
    rw (delete_fields-cons names k v fs, e) (delete_fields-same names fs gs s)
delete_fields-same names _ _ (right_field {k} {v} {fs} {gs} e s) =
    rw (delete_fields-cons names k v gs, e) (delete_fields-same names fs gs s)

set_field_again :
    (k : Text) (v w : Value) (fs : Fields) → set_field k v (set_field k w fs) ≡ set_field k v fs
unfolding set_field
set_field_again k v w no_fields = refl
set_field_again k v w (more_fields j x fs) = ground (arith, set_field_again k v w fs)

set_field_comm :
    (k l : Text) (v w : Value) (fs : Fields)
    → (k == l) ≡ false
    → set_field k v (set_field l w fs) ≡ set_field l w (set_field k v fs)
unfolding set_field
set_field_comm k l v w no_fields h = refl
set_field_comm k l v w (more_fields j x fs) h =
    ground (arith, set_field_comm k l v w fs, eq_iff k j, eq_iff l j, eq_iff k l)

field-set_field_other :
    (k l : Text) (v : Value) (fs : Fields)
    → (k == l) ≡ false
    → field k (set_field l v fs) ≡ field k fs
unfolding field set_field
field-set_field_other k l v no_fields h = refl
field-set_field_other k l v (more_fields j x fs) h =
    ground (arith, field-set_field_other k l v fs, eq_iff k j, eq_iff l j, eq_iff k l)

ids-ne-firewall : (codes "ids" == codes "firewall") ≡ false
unfolding ◌==◌
ids-ne-firewall = refl

firewall-ne-ids : (codes "firewall" == codes "ids") ≡ false
unfolding ◌==◌
firewall-ne-ids = refl

abbrev ids_set : Fields → Fields → Fields
ids_set ids parent = set_field (codes "ids") (table ids) parent

strip_ids-same :
    (parent ids ids' : Fields)
    → field (codes "ids") parent ≡ some (table ids)
    → SameBut hot_reload_ids_fields ids ids'
    → strip_ids (ids_set ids' parent) ≡ strip_ids parent
unfolding strip_ids strip_hot_reload_ids_fields
strip_ids-same parent ids ids' e s =
    rw
      (
        field-set_field (codes "ids") (table ids') (table ids) parent e,
        e,
        set_field_again (codes "ids") (table (delete_fields hot_reload_ids_fields ids'))
            (table ids') parent,
        delete_fields-same hot_reload_ids_fields ids ids' s,
      )
      refl

strip_ids-firewall :
    (v : Value) (root : Fields)
    → strip_ids (set_field (codes "firewall") v root)
      ≡ set_field (codes "firewall") v (strip_ids root)
unfolding strip_ids
strip_ids-firewall v root =
    rw (field-set_field_other (codes "ids") (codes "firewall") v root ids-ne-firewall)
      (at (field (codes "ids") root))
  where
    at :
        (o : Option Value)
        → strip_subtree (set_field (codes "firewall") v root) o
          ≡ set_field (codes "firewall") v (strip_subtree root o)
    at none = refl
    at (some (scalar x)) = refl
    at (some (str x)) = refl
    at (some (seq x)) = refl
    at (some (table ids)) = set_field_comm (codes "ids") (codes "firewall") _ v root ids-ne-firewall

field-strip_ids :
    (root : Fields) → field (codes "firewall") (strip_ids root) ≡ field (codes "firewall") root
unfolding strip_ids
field-strip_ids root = at (field (codes "ids") root)
  where
    at :
        (o : Option Value)
        → field (codes "firewall") (strip_subtree root o) ≡ field (codes "firewall") root
    at none = refl
    at (some (scalar x)) = refl
    at (some (str x)) = refl
    at (some (seq x)) = refl
    at (some (table ids)) =
        field-set_field_other (codes "firewall") (codes "ids") _ root firewall-ne-ids

-- The second document is the first one with another map under "ids", or with another one under
-- "ids" of "firewall", that differs in reloadable fields only.
pub data IsReload : Fields → Fields → Type 0 where
  at_root :
      {root ids ids' : Fields}
      → field (codes "ids") root ≡ some (table ids)
      → SameBut hot_reload_ids_fields ids ids'
      → IsReload root (ids_set ids' root)
  at_firewall :
      {root fw ids ids' : Fields}
      → field (codes "firewall") root ≡ some (table fw)
      → field (codes "ids") fw ≡ some (table ids)
      → SameBut hot_reload_ids_fields ids ids'
      → IsReload root (set_field (codes "firewall") (table (ids_set ids' fw)) root)

strip_root-reload : (root root' : Fields) → IsReload root root' → strip_root root' ≡ strip_root root
unfolding strip_root
strip_root-reload _ _ (at_root {root} {ids} {ids'} e s) = rw (strip_ids-same root ids ids' e s) refl
strip_root-reload _ _ (at_firewall {root} {fw} {ids} {ids'} e i s) =
    let X : Value = table (ids_set ids' fw) in
    let there : field (codes "firewall") (strip_ids root) ≡ some (table fw) =
      field-strip_ids root ∙ e in
    rw
      (
        strip_ids-firewall X root,
        field-set_field (codes "firewall") X (table fw) (strip_ids root) there,
        there,
        strip_ids-same fw ids ids' i s,
        set_field_again (codes "firewall") (table (strip_ids fw)) X (strip_ids root),
      )
      refl

keys-insert :
    (k : Text) (v w : Text) (m : Map Text) → lookup k m ≡ some w → keys (insert k v m) ≡ keys m
unfolding insert lookup
keys-insert k v w [] h = ground arith
keys-insert k v w ((j, x) ∷ m) h = ground (arith, keys-insert k v w m, eq_iff j k)

is_nil-insert :
    (k : Text) (v w : Text) (m : Map Text) → lookup k m ≡ some w → is_nil (insert k v m) ≡ is_nil m
unfolding insert lookup
is_nil-insert k v w [] h = ground arith
is_nil-insert k v w ((j, x) ∷ m) h = ground arith

module _ (lib : Libraries) where
  canonical-reload :
      (raw raw' out : Text) (root root' : Fields)
      → lib.unmarshal raw ≡ some root
      → lib.unmarshal raw' ≡ some root'
      → IsReload root root'
      → lib.marshal (strip_root root) ≡ some out
      → canonical_config_sans_hot_reload_ids lib raw' ≡ canonical_config_sans_hot_reload_ids lib raw
  unfolding canonical_config_sans_hot_reload_ids
  canonical-reload raw raw' out root root' e e' s m =
      rw (e, e', strip_root-reload root root' s, m) refl

  module _ (cfg : ConfigMap) (raw raw' : Text) (at : lookup synapse_config_key cfg.texts ≡ some raw)
      (same : canonical_config_sans_hot_reload_ids lib raw'
        ≡ canonical_config_sans_hot_reload_ids lib raw) where
    abbrev updated : ConfigMap
    updated = record cfg { texts = insert synapse_config_key raw' cfg.texts }

    value_at : Map Text → Text → Text
    value_at m key = config_value lib true key (option_or (lookup key m) [])

    value_at-updated : (key : Text) → value_at updated.texts key ≡ value_at cfg.texts key
    unfolding value_at
    value_at-updated key = elim (Bool-cases (key == synapse_config_key)) [
      | inl e ↦
          subst (λ k. value_at updated.texts k ≡ value_at cfg.texts k)
            (sym ((eq_iff key synapse_config_key).0 e))
            (rw
              (lookup-insert_self synapse_config_key raw' cfg.texts, at, eq_refl synapse_config_key)
              same)
      | inr e ↦
          let other : (synapse_config_key == key) ≡ false =
            eq-false_of_ne _ _
              (λ q. absurd (ground (arith, eq_iff key synapse_config_key, e, sym q))) in
          rw (lookup-insert synapse_config_key key raw' cfg.texts, other) refl
    ]

    config_map_entry-updated :
        (k : Text) → config_map_entry lib true updated k ≡ config_map_entry lib true cfg k
    unfolding value_at
    config_map_entry-updated k = rw (value_at-updated (without_tag k)) refl

    entries-updated :
        (ks : List Text)
        → each_closed (config_map_entry lib true updated) ks
          ≡ each_closed (config_map_entry lib true cfg) ks
    unfolding each_closed
    entries-updated [] = refl
    entries-updated (k ∷ ks) = rw (config_map_entry-updated k, entries-updated ks) refl

    hash-updated :
        (ignored : List Text)
        → hash_config_map_content lib updated ignored true
          ≡ hash_config_map_content lib cfg ignored true
    unfolding hash_config_map_content
    hash-updated ignored =
        rw
          (
            keys-insert synapse_config_key raw' raw cfg.texts at,
            is_nil-insert synapse_config_key raw' raw cfg.texts at,
            entries-updated (sort (config_map_keys lib cfg ignored)),
          )
          refl

  -- With the exclusion of the reloadable fields on, a ConfigMap whose config.yaml is replaced by
  -- one that parses to a document with other reloadable IDS fields only, under "ids" or under
  -- "firewall.ids", keeps its hash, provided that the canonical document can be printed.
  pub hash_config_map_content-reload :
      (cfg : ConfigMap) (ignored : List Text) (raw raw' out : Text) (root root' : Fields)
      → lookup synapse_config_key cfg.texts ≡ some raw
      → lib.unmarshal raw ≡ some root
      → lib.unmarshal raw' ≡ some root'
      → IsReload root root'
      → lib.marshal (strip_root root) ≡ some out
      → hash_config_map_content lib
          (record cfg { texts = insert synapse_config_key raw' cfg.texts })
          ignored
          true
        ≡ hash_config_map_content lib cfg ignored true
  hash_config_map_content-reload cfg ignored raw raw' out root root' at e e' s m =
      hash-updated cfg raw raw' at (canonical-reload raw raw' out root root' e e' s m) ignored
