-- ===== src/Base/Members.antt =====
-- Membership by recursion: it computes to a sum, which can be taken apart into data.
use mathlib.Core.Path.{◌≡◌, refl, ap}
use mathlib.Core.Logic.{◌⊎◌, inl, inr}
use mathlib.Core.List.{List, [], ◌∷◌, ◌++◌, map}
use moat_operator.Base.Tests.{Bool-cases}
use moat_operator.Base.Strings.{Text, text_leb}
use moat_operator.Base.Sort.{insert_sorted, sort}

abbrev pub Has : {A : Type 0} → A → List A → Type 0
Has a [] = ⊥
Has a (x ∷ xs) = (a ≡ x) ⊎ Has a xs

module _ {A : Type 0} where
  pub Has-append_left : (a : A) (xs ys : List A) → Has a xs → Has a (xs ++ ys)
  Has-append_left a [] ys h = elim h [ ]
  Has-append_left a (x ∷ xs) ys (inl e) = inl e
  Has-append_left a (x ∷ xs) ys (inr h) = inr (Has-append_left a xs ys h)

  pub Has-append_right : (a : A) (xs ys : List A) → Has a ys → Has a (xs ++ ys)
  Has-append_right a [] ys h = h
  Has-append_right a (x ∷ xs) ys h = inr (Has-append_right a xs ys h)

  pub Has-append : (a : A) (xs ys : List A) → Has a (xs ++ ys) → Has a xs ⊎ Has a ys
  Has-append a [] ys h = inr h
  Has-append a (x ∷ xs) ys (inl e) = inl (inl e)
  Has-append a (x ∷ xs) ys (inr h) = elim (Has-append a xs ys h) [
    | inl k ↦ inl (inr k)
    | inr k ↦ inr k
  ]

module _ {A B : Type 0} (f : A → B) where
  pub Has-map : (a : A) (xs : List A) → Has a xs → Has (f a) (map f xs)
  Has-map a [] h = elim h [ ]
  Has-map a (x ∷ xs) (inl e) = inl (ap f e)
  Has-map a (x ∷ xs) (inr h) = inr (Has-map a xs h)

  pub Has-of_map : (b : B) (xs : List A) → Has b (map f xs) → (a : A) × Has a xs × (b ≡ f a)
  Has-of_map b [] h = elim h [ ]
  Has-of_map b (x ∷ xs) (inl e) = (x, inl refl, e)
  Has-of_map b (x ∷ xs) (inr h) = let (a, k, e) = Has-of_map b xs h in (a, inr k, e)

module _ (a : Text) where
  pull :
      (k x : Text) (xs ys : List Text)
      → (Has a xs → Has a (k ∷ ys))
      → Has a (x ∷ xs)
      → Has a (k ∷ x ∷ ys)
  pull k x xs ys f (inl p) = inr (inl p)
  pull k x xs ys f (inr q) = elim (f q) [ inl p ↦ inl p | inr r ↦ inr (inr r) ]

  Has-insert_sorted : (k : Text) (xs : List Text) → Has a (insert_sorted k xs) → Has a (k ∷ xs)
  unfolding insert_sorted
  Has-insert_sorted k [] h = h
  Has-insert_sorted k (x ∷ xs) h = elim (Bool-cases (text_leb k x)) [
    | inl e ↦ rw e at h
    | inr e ↦ pull k x (insert_sorted k xs) xs (Has-insert_sorted k xs) (rw e at h)
  ]

  push :
      (k x : Text) (xs ys : List Text)
      → (Has a (k ∷ ys) → Has a xs)
      → Has a (k ∷ x ∷ ys)
      → Has a (x ∷ xs)
  push k x xs ys f (inl p) = inr (f (inl p))
  push k x xs ys f (inr (inl p)) = inl p
  push k x xs ys f (inr (inr q)) = inr (f (inr q))

  insert_sorted-Has : (k : Text) (xs : List Text) → Has a (k ∷ xs) → Has a (insert_sorted k xs)
  unfolding insert_sorted
  insert_sorted-Has k [] h = h
  insert_sorted-Has k (x ∷ xs) h = elim (Bool-cases (text_leb k x)) [
    | inl e ↦ rw e h
    | inr e ↦ rw e (push k x (insert_sorted k xs) xs (insert_sorted-Has k xs) h)
  ]

  -- Sorting keeps the members.
  pub Has-sort : (xs : List Text) → Has a (sort xs) → Has a xs
  unfolding sort
  Has-sort [] h = h
  Has-sort (x ∷ xs) h = elim (Has-insert_sorted x (sort xs) h) [
    | inl e ↦ inl e
    | inr k ↦ inr (Has-sort xs k)
  ]

  pub sort-Has : (xs : List Text) → Has a xs → Has a (sort xs)
  unfolding sort
  sort-Has [] h = h
  sort-Has (x ∷ xs) (inl e) = insert_sorted-Has x (sort xs) (inl e)
  sort-Has (x ∷ xs) (inr k) = insert_sorted-Has x (sort xs) (inr (sort-Has xs k))
