-- ===== src/Base/Sets.antt =====
-- A Go set of strings, as the list of its members in the order in which they came.
use mathlib.Core.Path.{◌≡◌, sym, subst}
use mathlib.Core.Logic.{◌↔◌, ◌⊎◌, inl, inr}
use mathlib.Core.Bool.{Bool, true, false, ◌||◌}
use mathlib.Core.List.{List, [], ◌∷◌, ◌++◌}
use native.Mathlib.Omega.{arith}
use moat_operator.Base.Tests.{if◌then◌else◌, Bool-cases}
use moat_operator.Base.Strings.{Text, ◌==◌, eq_iff}
use moat_operator.Base.Members.{Has, Has-append, Has-append_left, Has-append_right}

unfoldable pub seen_in : Text → List Text → Bool
seen_in x [] = false
seen_in x (y ∷ ys) = (y == x) || seen_in x ys

-- `set[x] = struct{}{}`
unfoldable pub add_once : Text → List Text → List Text
unfolding seen_in
add_once x s = if seen_in x s then s else s ++ x ∷ []

unfoldable pub add_all : List Text → List Text → List Text
unfolding add_once
add_all [] s = s
add_all (x ∷ xs) s = add_all xs (add_once x s)

pub seen_in_iff : (x : Text) (s : List Text) → (seen_in x s ≡ true) ↔ Has x s
unfolding seen_in
seen_in_iff x [] = (λ h. absurd (ground (arith, h)), λ h. elim h [ ])
seen_in_iff x (y ∷ ys) =
    let (f, g) = seen_in_iff x ys in
    (
      λ h. elim (Bool-cases (y == x)) [
        | inl e ↦ inl (sym ((eq_iff y x).0 e))
        | inr e ↦ inr (f (ground (arith, h, e)))
      ],
      λ h. elim h [ inl e ↦ ground (arith, eq_iff y x, e) | inr k ↦ ground (arith, g k) ],
    )

-- What a set has after an addition.
pub add_once_iff : (x y : Text) (s : List Text) → Has y (add_once x s) ↔ ((y ≡ x) ⊎ Has y s)
unfolding add_once
add_once_iff x y s = elim (Bool-cases (seen_in x s)) [
  | inl e ↦ rw e (
    λ h. inr h,
    λ h. elim h [ inl q ↦ subst (λ z. Has z s) (sym q) ((seen_in_iff x s).0 e) | inr k ↦ k ],
  )
  | inr e ↦ rw e (
    λ h. elim (Has-append y s (x ∷ []) h) [
      | inl k ↦ inr k
      | inr k ↦ elim k [ inl q ↦ inl q | inr z ↦ elim z [ ] ]
    ],
    λ h. elim h [
      | inl q ↦ Has-append_right y s (x ∷ []) (inl q)
      | inr k ↦ Has-append_left y s (x ∷ []) k
    ],
  )
]

pub add_all_iff :
    (xs : List Text) (y : Text) (s : List Text) → Has y (add_all xs s) ↔ (Has y xs ⊎ Has y s)
unfolding add_all
add_all_iff [] y s = (λ h. inr h, λ h. elim h [ inl z ↦ elim z [ ] | inr k ↦ k ])
add_all_iff (x ∷ xs) y s =
    let (f, g) = add_all_iff xs y (add_once x s) in
    let (f₁, g₁) = add_once_iff x y s in
    (
      λ h. elim (f h) [
        | inl k ↦ inl (inr k)
        | inr k ↦ elim (f₁ k) [ inl q ↦ inl (inl q) | inr j ↦ inr j ]
      ],
      λ h. elim h [
        | inl (inl q) ↦ g (inr (g₁ (inl q)))
        | inl (inr k) ↦ g (inl k)
        | inr k ↦ g (inr (g₁ (inr k)))
      ],
    )
