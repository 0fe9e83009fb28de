-- ===== src/Routes/Parse/Size.antt =====
-- controllers/routes.go: the values of `parseSize` and `parseUint`.
use moat_operator.Base.{
  ℕ, ◌+◌, ◌-◌, ◌*◌, ◌^◌, ◌≤◌, ◌<◌, false, Option, none, some, [], ◌∷◌, ◌≡◌, inl, inr, refl, arith,
  Text, ltb, if◌then◌else◌, is_nil, is_space, trim_space, All, Bool-cases, option_or,
}
use native.Mathlib.Nat.{le-div_iff_mul-le, mod-eq_of_lt}
use moat_operator.Routes.Parse.{
  digits_value, go_parse_uint, scale, scale_parsed, suffixed_size, size_unit, last_char, drop_last,
  parse_size,
}

abbrev pub IsDigit : ℕ → Type 0
IsDigit c = (b'0' ≤ c) × (c ≤ b'9')

-- The number that digits spell behind `n`, with no bound.
abbrev pub spelled : ℕ → Text → ℕ
spelled n [] = n
spelled n (c ∷ s) = spelled (n * 10 + (c - b'0')) s

digits_value_sound :
    (s : Text) (n r : ℕ) → digits_value n s ≡ some r → All IsDigit s × (r ≡ spelled n s)
unfolding digits_value
digits_value_sound [] n r h = ground arith
digits_value_sound (c ∷ s) n r h = ground (arith, digits_value_sound s (n * 10 + (c - b'0')) r)

pub go_parse_uint_sound :
    (s : Text) (r : ℕ)
    → go_parse_uint s ≡ some r
    → (is_nil s ≡ false) × All IsDigit s × (r ≡ spelled 0 s) × (r < 2 ^ 64)
unfolding go_parse_uint
go_parse_uint_sound [] r h = absurd (cc)
go_parse_uint_sound (c ∷ s) r h = ground (arith, digits_value_sound (c ∷ s) 0 r)

digits_value_complete : (s : Text) (n : ℕ) → All IsDigit s → digits_value n s ≡ some (spelled n s)
unfolding digits_value
digits_value_complete [] n _ = refl
digits_value_complete (c ∷ s) n (h, hs) =
    ground (arith, digits_value_complete s (n * 10 + (c - b'0')) hs)

pub go_parse_uint_complete :
    (s : Text)
    → is_nil s ≡ false
    → All IsDigit s
    → go_parse_uint s ≡ (if ltb (spelled 0 s) (2 ^ 64) then some (spelled 0 s) else none)
unfolding go_parse_uint
go_parse_uint_complete [] h d = absurd (cc)
go_parse_uint_complete (c ∷ s) h d = ground (arith, digits_value_complete (c ∷ s) 0 d)

-- The multiplication neither wraps around nor is refused where it fits, for the units in use.
pub scale-exact :
    (n mul : ℕ)
    → 0 < mul
    → n < 2 ^ 64
    → scale n mul ≡ (if ltb (n * mul) (2 ^ 64) then some (n * mul) else none)
unfolding scale
scale-exact n mul p h = ground (
  arith,
  le-div_iff_mul-le {k = mul} {x = n} {y = 2 ^ 64 - 1} p,
  mod-eq_of_lt {n = n * mul} {m = 2 ^ 64},
)

pub size_unit_pos : (c mul : ℕ) → size_unit c ≡ some mul → (0 < mul) × (is_space c ≡ false)
unfolding size_unit is_space
size_unit_pos c mul h = ground arith

scale_sound :
    (n mul r : ℕ) → 0 < mul → n < 2 ^ 64 → scale n mul ≡ some r → (r ≡ n * mul) × (r < 2 ^ 64)
scale_sound n mul r p q h = ground (arith, scale-exact n mul p q)

-- A text of digits, read as a number and multiplied within 64 bits.
pub record IsScaled (digits : Text) (mul r : ℕ) : Type 0 where
  pub present : is_nil digits ≡ false
  pub digital : All IsDigit digits
  pub exact : r ≡ spelled 0 digits * mul
  pub fits : r < 2 ^ 64

parsed-IsScaled :
    (t : Text) (o : Option ℕ) (mul r : ℕ)
    → go_parse_uint t ≡ o
    → 0 < mul
    → scale_parsed o mul ≡ some r
    → IsScaled t mul r
parsed-IsScaled t none mul r e p h = absurd (cc)
parsed-IsScaled t (some n) mul r e p h =
    let (present, digital, same, fits) = go_parse_uint_sound t n e in
    let (exact, small) = scale_sound n mul r p fits h in
    record { present = present; digital = digital; exact = rw (← same) exact; fits = small }

-- The digits that a size holds, behind the switch on its last character.
abbrev pub size_digits : Option ℕ → Text → Text
size_digits none t = trim_space t
size_digits (some mul) t = trim_space (drop_last t)

suffixed_size-IsScaled :
    (o : Option ℕ) (c : ℕ) (t : Text) (r : ℕ)
    → size_unit c ≡ o
    → suffixed_size o t ≡ some r
    → IsScaled (size_digits o t) (option_or o 1) r
suffixed_size-IsScaled none c t r e h =
    parsed-IsScaled (trim_space t) (go_parse_uint (trim_space t)) 1 r refl (omega arith) h
suffixed_size-IsScaled (some mul) c t r e h =
    parsed-IsScaled (trim_space (drop_last t)) (go_parse_uint (trim_space (drop_last t))) mul r refl
      (size_unit_pos c mul e).0 h

-- An accepted size is the number that its digits spell times the unit of its suffix (1 if there is
-- none), and that product is below 2^64: nothing wraps around.
pub parse_size_sound :
    (s : Text) (r : ℕ)
    → parse_size s ≡ some r
    → let unit = size_unit (last_char (trim_space s)) in
      IsScaled (size_digits unit (trim_space s)) (option_or unit 1) r
unfolding parse_size
parse_size_sound s r h = elim (Bool-cases (is_nil (trim_space s))) [
  | inl e ↦ absurd (ground arith)
  | inr e ↦
      suffixed_size-IsScaled (size_unit (last_char (trim_space s))) (last_char (trim_space s))
        (trim_space s) r refl (rw e at h)
]
