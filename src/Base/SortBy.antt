-- ===== src/Base/SortBy.antt =====
-- `sort.Slice` by a comparison, as insertion sort. Go's sort is not stable: between values that
-- compare equal its order is not determined.
use mathlib.Core.Path.{◌≡◌, refl, ap₂, ◌∙◌, sym}
use mathlib.Core.Bool.{Bool, true, false}
use mathlib.Core.List.{List, [], ◌∷◌, ◌++◌, Permᴰ}
use mathlib.Core.Logic.{inl, inr}
use native.Mathlib.Omega.{arith}
use moat_operator.Base.Tests.{if◌then◌else◌, Bool-cases}
use moat_operator.Base.Members.{Has, Has-append}

module _ {A : Type 0} (before : A → A → Bool) where
  unfoldable pub insert_by : A → List A → List A
  insert_by k [] = k ∷ []
  insert_by k (x ∷ xs) = if before k x then k ∷ x ∷ xs else x ∷ insert_by k xs

  unfoldable pub sort_by : List A → List A
  unfolding insert_by
  sort_by [] = []
  sort_by (x ∷ xs) = insert_by x (sort_by xs)

behind :
    {A : Type 0} (a k x : A) (xs ys : List A)
    → (Has a (k ∷ xs) → Has a ys)
    → Has a (k ∷ x ∷ xs)
    → Has a (x ∷ ys)
behind a k x xs ys f (inl p) = inr (f (inl p))
behind a k x xs ys f (inr (inl p)) = inl p
behind a k x xs ys f (inr (inr q)) = inr (f (inr q))

insert_by-Has :
    {A : Type 0} (before : A → A → Bool) (a k : A) (xs : List A)
    → Has a (k ∷ xs)
    → Has a (insert_by before k xs)
unfolding insert_by
insert_by-Has before a k [] h = h
insert_by-Has before a k (x ∷ xs) h = elim (Bool-cases (before k x)) [
  | inl e ↦ rw e h
  | inr e ↦ rw e (behind a k x xs _ (insert_by-Has before a k xs) h)
]

-- Sorting keeps the members.
pub sort_by-Has :
    {A : Type 0} (before : A → A → Bool) (a : A) (xs : List A)
    → Has a xs
    → Has a (sort_by before xs)
unfolding sort_by
sort_by-Has before a [] h = h
sort_by-Has before a (x ∷ xs) (inl e) = insert_by-Has before a x (sort_by before xs) (inl e)
sort_by-Has before a (x ∷ xs) (inr h) =
    insert_by-Has before a x (sort_by before xs) (inr (sort_by-Has before a xs h))

-- A total order up to equal keys.
pub record IsOrder {A : Type 0} (before : A → A → Bool) : Type 0 where
  pub total : (a b : A) → before a b ≡ false → before b a ≡ true
  pub trans : (a b c : A) → before a b ≡ true → before b c ≡ true → before a c ≡ true

-- Two members that neither precedes are one value.
abbrev pub IsKeyed : {A : Type 0} → (A → A → Bool) → List A → Type 0
IsKeyed {A} before xs =
    (a b : A) → Has a xs → Has b xs → before a b ≡ true → before b a ≡ true → a ≡ b

Has-of_perm : {A : Type 0} (a : A) {xs ys : List A} → Permᴰ xs ys → Has a ys → Has a xs
Has-of_perm a Permᴰ.nil h = h
Has-of_perm a (Permᴰ.cons e p) (inl k) = inl (k ∙ sym e)
Has-of_perm a (Permᴰ.cons e p) (inr k) = inr (Has-of_perm a p k)
Has-of_perm a (Permᴰ.swap e f) (inl k) = inr (inl (k ∙ sym f))
Has-of_perm a (Permᴰ.swap e f) (inr (inl k)) = inl (k ∙ sym e)
Has-of_perm a (Permᴰ.swap e f) (inr (inr k)) = inr (inr k)
Has-of_perm a (Permᴰ.trans p q) h = Has-of_perm a p (Has-of_perm a q h)

module _ {A : Type 0} (before : A → A → Bool) (o : IsOrder before) where
  insert_by_comm :
      (a b : A) (l : List A)
      → (before a b ≡ true → before b a ≡ true → a ≡ b)
      → insert_by before a (insert_by before b l) ≡ insert_by before b (insert_by before a l)
  unfolding insert_by
  insert_by_comm a b [] same = ground (arith, o.total a b, o.total b a)
  insert_by_comm a b (x ∷ xs) same =
      ground
        (arith, insert_by_comm a b xs same, o.total a b, o.total b a, o.trans a b x, o.trans b a x)

  pub sort_by-perm :
      {xs ys : List A} → Permᴰ xs ys → IsKeyed before xs → sort_by before xs ≡ sort_by before ys
  unfolding sort_by
  sort_by-perm Permᴰ.nil k = refl
  sort_by-perm (Permᴰ.cons e p) k =
      ap₂ (insert_by before) e (sort_by-perm p (λ a b m n. k a b (inr m) (inr n)))
  sort_by-perm (Permᴰ.swap {a = a} {b = b} {l = l} e f) k =
      rw (← e, ← f) (insert_by_comm a b (sort_by before l) (k a b (inl refl) (inr (inl refl))))
  sort_by-perm (Permᴰ.trans p q) k =
      sort_by-perm p k ∙ sort_by-perm q (λ a b m n. k a b (Has-of_perm a p m) (Has-of_perm b p n))

-- A value of the front beside one of the back, in the list of both.
pub IsKeyed-append :
    {A : Type 0} (before : A → A → Bool) (xs ys : List A)
    → IsKeyed before xs
    → IsKeyed before ys
    → ((a b : A) → Has a xs → Has b ys → before a b ≡ true → before b a ≡ true → a ≡ b)
    → IsKeyed before (xs ++ ys)
IsKeyed-append before xs ys f g across a b m n h k = elim (Has-append a xs ys m) [
  | inl p ↦ elim (Has-append b xs ys n) [ inl q ↦ f a b p q h k | inr q ↦ across a b p q h k ]
  | inr p ↦ elim (Has-append b xs ys n) [ inl q ↦ sym (across b a q p k h) | inr q ↦ g a b p q h k ]
]
