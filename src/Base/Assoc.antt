-- ===== src/Base/Assoc.antt =====
-- A Go map with string keys: an association list, whose order is the order of a `range` over it.
use mathlib.Core.Path.{◌≡◌, refl}
use mathlib.Core.Bool.{Bool, false}
use mathlib.Core.Option.{Option, none, some}
use mathlib.Core.List.{List, [], ◌∷◌}
use native.Mathlib.Omega.{arith}
use moat_operator.Base.Tests.{if◌then◌else◌, is_some}
use moat_operator.Base.Strings.{Text, ◌==◌, eq_iff, eq_refl}

abbrev pub Map {ℓ} : Type ℓ → Type ℓ
Map V = List (Text × V)

module _ {ℓ} {V : Type ℓ} where
  -- `v, ok := m[k]`
  unfoldable pub lookup : Text → Map V → Option V
  lookup wanted [] = none
  lookup wanted (entry ∷ rest) = if entry.0 == wanted then some entry.1 else lookup wanted rest

  -- `m[k] = v`
  unfoldable pub insert : Text → V → Map V → Map V
  insert key value [] = (key, value) ∷ []
  insert key value (entry ∷ rest) =
      let kept = entry ∷ insert key value rest in
      if entry.0 == key then (key, value) ∷ rest else kept

  -- The keys in the order of a `range`.
  abbrev pub keys : Map V → List Text
  keys [] = []
  keys ((k, v) ∷ m) = k ∷ keys m

  abbrev pub has_key : Text → Map V → Bool
  has_key k m = is_some (lookup k m)

  -- A read after an assignment.
  pub lookup-insert :
      (key read : Text) (value : V) (entries : Map V)
      → lookup read (insert key value entries)
        ≡ (if key == read then some value else lookup read entries)
  unfolding insert lookup
  lookup-insert key read value [] = refl
  lookup-insert key read value (entry ∷ rest) =
      let behind = lookup-insert key read value rest in
      ground (arith, behind, eq_iff entry.0 read, eq_iff entry.0 key, eq_iff key read)

  pub lookup-insert_self :
      (key : Text) (value : V) (entries : Map V)
      → lookup key (insert key value entries) ≡ some value
  lookup-insert_self key value entries =
      let read = lookup-insert key key value entries in ground (arith, read, eq_refl key)

  -- A binding behind the guard that the key is free keeps the others.
  pub lookup-insert_new :
      (k j : Text) (v w : V) (m : Map V)
      → has_key k m ≡ false
      → lookup j m ≡ some w
      → lookup j (insert k v m) ≡ some w
  lookup-insert_new k j v w m h e = rw lookup-insert (ground (arith, eq_iff k j))
