-- ===== src/Base/Added.antt =====
-- What a loop adds to a state, given what its steps add.
use mathlib.Core.Path.{◌≡◌, refl, subst, sym}
use mathlib.Core.Logic.{◌↔◌, ◌⊎◌, inl, inr}
use mathlib.Core.List.{List, [], ◌∷◌}
use moat_operator.Base.Members.{Has}

-- The fact holds of the second state where the reason does or where it holds of the first.
abbrev pub IsAdded : {S : Type 0} → (S → Type 0) → Type 0 → S → S → Type 0
IsAdded IsIn Reason r q = IsIn q ↔ (Reason ⊎ IsIn r)

module _ {S : Type 0} (IsIn : S → Type 0) where
  pub nothing-IsAdded : {Reason : Type 0} (r : S) → (Reason → ⊥) → IsAdded IsIn Reason r r
  nothing-IsAdded r never = (λ h. inr h, λ h. elim h [ inl p ↦ absurd (never p) | inr k ↦ k ])

  pub IsAdded-as :
      {P Q : Type 0} (r q : S) → (P → Q) → (Q → P) → IsAdded IsIn P r q → IsAdded IsIn Q r q
  IsAdded-as r q to from (f, g) = (
    λ h. elim (f h) [ inl p ↦ inl (to p) | inr k ↦ inr k ],
    λ h. elim h [ inl p ↦ g (inl (from p)) | inr k ↦ g (inr k) ],
  )

  pub IsAdded-then :
      {P Q : Type 0} (r q t : S)
      → IsAdded IsIn P r q
      → IsAdded IsIn Q q t
      → IsAdded IsIn (P ⊎ Q) r t
  IsAdded-then r q t (f, g) (f₁, g₁) = (
    λ h. elim (f₁ h) [
      | inl p ↦ inl (inr p)
      | inr k ↦ elim (f k) [ inl p ↦ inl (inl p) | inr j ↦ inr j ]
    ],
    λ h. elim h [
      | inl (inl p) ↦ g₁ (inr (g (inl p)))
      | inl (inr p) ↦ g₁ (inl p)
      | inr k ↦ g₁ (inr (g (inr k)))
    ],
  )

  -- A loop over a list from the front.
  module _ {A : Type 0} (Reason : A → Type 0) (step : A → S → S) (go : List A → S → S)
      (on_nil : (r : S) → go [] r ≡ r)
      (on_cons : (a : A) (xs : List A) (r : S) → go (a ∷ xs) r ≡ go xs (step a r))
      (one : (a : A) (r : S) → IsAdded IsIn (Reason a) r (step a r)) where
    pub loop-IsAdded :
        (xs : List A) (r : S) → IsAdded IsIn ((a : A) × Has a xs × Reason a) r (go xs r)
    loop-IsAdded [] r =
        subst (λ q. IsAdded IsIn ((a : A) × Has a [] × Reason a) r q) (sym (on_nil r))
          (nothing-IsAdded r (λ h. let (a, g, _) = h in elim g [ ]))
    loop-IsAdded (x ∷ xs) r =
        subst (λ q. IsAdded IsIn ((a : A) × Has a (x ∷ xs) × Reason a) r q) (sym (on_cons x xs r))
          (IsAdded-as r (go xs (step x r)) front_or_back either
            (IsAdded-then r (step x r) (go xs (step x r)) (one x r) (loop-IsAdded xs (step x r))))
      where
        front_or_back :
            Reason x ⊎ ((a : A) × Has a xs × Reason a) → (a : A) × Has a (x ∷ xs) × Reason a
        front_or_back (inl p) = (x, inl refl, p)
        front_or_back (inr (a, m, p)) = (a, inr m, p)

        either : (a : A) × Has a (x ∷ xs) × Reason a → Reason x ⊎ ((a : A) × Has a xs × Reason a)
        either (a, inl e, p) = inl (subst Reason e p)
        either (a, inr m, p) = inr (a, m, p)
