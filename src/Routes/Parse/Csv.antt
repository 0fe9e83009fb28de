-- ===== src/Routes/Parse/Csv.antt =====
-- controllers/routes.go: the items that `csv` returns.
use moat_operator.Base.{
  ℕ, Bool, false, List, [], ◌∷◌, ◌≡◌, inl, inr, refl, arith, Text, eqb, if◌then◌else◌, is_nil,
  trim_left_by, trim_right_by, trim_space, is_space, split, push_head, contains_char, All,
  Bool-cases,
}
use moat_operator.Routes.Parse.{trimmed_items, csv, last_char}

unfoldable pub starts_with_space : Text → Bool
starts_with_space [] = false
starts_with_space (c ∷ s) = is_space c

unfoldable pub ends_with_space : Text → Bool
ends_with_space [] = false
ends_with_space (c ∷ s) = is_space (last_char (c ∷ s))

-- An item as the settings hold it.
pub record IsItem (t : Text) : Type 0 where
  pub present : is_nil t ≡ false
  pub comma_free : contains_char b',' t ≡ false
  pub no_space_before : starts_with_space t ≡ false
  pub no_space_after : ends_with_space t ≡ false

trim_left_by-comma :
    (p : ℕ → Bool) (s : Text)
    → contains_char b',' s ≡ false
    → contains_char b',' (trim_left_by p s) ≡ false
unfolding trim_left_by contains_char
trim_left_by-comma p [] h = refl
trim_left_by-comma p (c ∷ s) h = ground (arith, trim_left_by-comma p s)

trim_right_by-comma :
    (p : ℕ → Bool) (s : Text)
    → contains_char b',' s ≡ false
    → contains_char b',' (trim_right_by p s) ≡ false
unfolding trim_right_by contains_char
trim_right_by-comma p [] h = refl
trim_right_by-comma p (c ∷ s) h = ground (arith, trim_right_by-comma p s)

pub trim_left_by-start : (s : Text) → starts_with_space (trim_left_by is_space s) ≡ false
unfolding trim_left_by starts_with_space
trim_left_by-start [] = refl
trim_left_by-start (c ∷ s) = ground (arith, trim_left_by-start s)

pub trim_right_by-end : (s : Text) → ends_with_space (trim_right_by is_space s) ≡ false
unfolding trim_right_by ends_with_space last_char
trim_right_by-end [] = refl
trim_right_by-end (c ∷ s) = ground (arith, trim_right_by-end s)

pub trim_left_by-end :
    (s : Text) → ends_with_space s ≡ false → ends_with_space (trim_left_by is_space s) ≡ false
unfolding trim_left_by ends_with_space last_char
trim_left_by-end [] h = refl
trim_left_by-end (c ∷ []) h = ground arith
trim_left_by-end (c ∷ d ∷ s) h = ground (arith, trim_left_by-end (d ∷ s))

NoComma : Text → Type 0
NoComma t = contains_char b',' t ≡ false

push-NoComma :
    (c : ℕ) (ps : List Text)
    → All NoComma ps
    → All NoComma (if eqb c b',' then [] ∷ ps else push_head c ps)
unfolding contains_char NoComma
push-NoComma c [] h = ground arith
push-NoComma c (p ∷ ps) h = ground arith

split-NoComma : (s : Text) → All NoComma (split b',' s)
unfolding split contains_char NoComma
split-NoComma [] = (refl, tt)
split-NoComma (c ∷ s) = push-NoComma c (split b',' s) (split-NoComma s)

trim_space-IsItem : (s : Text) → NoComma s → is_nil (trim_space s) ≡ false → IsItem (trim_space s)
unfolding trim_space NoComma
trim_space-IsItem s h k = record {
  present = k;
  comma_free =
      trim_left_by-comma is_space (trim_right_by is_space s) (trim_right_by-comma is_space s h);
  no_space_before = trim_left_by-start (trim_right_by is_space s);
  no_space_after = trim_left_by-end (trim_right_by is_space s) (trim_right_by-end s);
}

trimmed_items-IsItem : (ps : List Text) → All NoComma ps → All IsItem (trimmed_items ps)
unfolding trimmed_items
trimmed_items-IsItem [] h = tt
trimmed_items-IsItem (p ∷ ps) (h, hs) = elim (Bool-cases (is_nil (trim_space p))) [
  | inl e ↦ rw e (trimmed_items-IsItem ps hs)
  | inr e ↦ rw e (trim_space-IsItem p h e, trimmed_items-IsItem ps hs)
]

-- Every item of a list annotation is a non-empty text without a comma, and with no white space
-- at either end.
pub csv-IsItem : (s : Text) → All IsItem (csv s)
unfolding csv
csv-IsItem s = trimmed_items-IsItem _ (split-NoComma s)
