-- ===== src/Routes/Quote/Decimal.antt =====
-- controllers/routes.go: decimal output, and the parsers of annotation values.
use moat_operator.Base.{
  ℕ, zero, suc, ◌+◌, ◌*◌, ◌/◌, ◌%◌, ◌^◌, ◌<◌, false, none, some, [], ◌∷◌, ◌++◌, ◌≡◌, refl, arith,
  Text, ltb, if◌then◌else◌, is_nil, is_space, trim_space, trim_left_by, trim_right_by, All,
  All-append, lt→ltb,
}
use native.Mathlib.Decide.{dec_lt}
use moat_operator.Routes.Parse.{
  digits_value, go_parse_uint, scale_parsed, scaled_uint, size_unit, last_char, drop_last,
  parse_size,
}
use moat_operator.Routes.Parse.Size.{IsDigit, scale-exact, size_unit_pos}
use moat_operator.Routes.Quote.{decimal_from, decimal}

digits_value-decimal_from :
    (f n : ℕ) (out : Text) → n < f → digits_value 0 (decimal_from f n out) ≡ digits_value n out
unfolding digits_value decimal_from
digits_value-decimal_from zero n out h = absurd (omega arith)
digits_value-decimal_from (suc f) n out h =
    ground (arith, digits_value-decimal_from f (n / 10) ((b'0' + n % 10) ∷ out))

decimal_from-IsDigit : (f n : ℕ) (out : Text) → All IsDigit out → All IsDigit (decimal_from f n out)
unfolding decimal_from
decimal_from-IsDigit zero n out h = h
decimal_from-IsDigit (suc f) n out h =
    ground (arith, decimal_from-IsDigit f (n / 10) ((b'0' + n % 10) ∷ out))

decimal_from-ne-nil : (f n : ℕ) (c : ℕ) (out : Text) → is_nil (decimal_from f n (c ∷ out)) ≡ false
unfolding decimal_from
decimal_from-ne-nil zero n c out = refl
decimal_from-ne-nil (suc f) n c out =
    ground (arith, decimal_from-ne-nil f (n / 10) (b'0' + n % 10) (c ∷ out))

pub decimal-ne-nil : (n : ℕ) → is_nil (decimal n) ≡ false
unfolding decimal
decimal-ne-nil n = ground (arith, decimal_from-ne-nil n (n / 10) (b'0' + n % 10) [])

pub decimal-IsDigit : (n : ℕ) → All IsDigit (decimal n)
unfolding decimal
decimal-IsDigit n = decimal_from-IsDigit (suc n) n [] tt

go_parse_uint-digits :
    (s : Text) (n : ℕ)
    → is_nil s ≡ false
    → digits_value 0 s ≡ some n
    → go_parse_uint s ≡ (if ltb n (2 ^ 64) then some n else none)
unfolding go_parse_uint
go_parse_uint-digits [] n h e = absurd (cc)
go_parse_uint-digits (c ∷ s) n h e = ground arith

-- Every uint64 is read back from its decimal print; a larger number is refused.
pub go_parse_uint-decimal :
    (n : ℕ) → go_parse_uint (decimal n) ≡ (if ltb n (2 ^ 64) then some n else none)
go_parse_uint-decimal n =
    go_parse_uint-digits (decimal n) n (decimal-ne-nil n)
      (unfold decimal digits_value in digits_value-decimal_from (suc n) n [] (omega arith))

abbrev IsInk : ℕ → Type 0
IsInk c = is_space c ≡ false

trim_left_by-ink : (s : Text) → All IsInk s → trim_left_by is_space s ≡ s
unfolding trim_left_by
trim_left_by-ink [] h = refl
trim_left_by-ink (c ∷ s) (h, hs) = rw h

trim_right_by-ink : (s : Text) → All IsInk s → trim_right_by is_space s ≡ s
unfolding trim_right_by
trim_right_by-ink [] h = refl
trim_right_by-ink (c ∷ s) (h, hs) = ground (arith, trim_right_by-ink s hs)

-- A text without white space is its own trimming.
pub trim_space-ink : (s : Text) → All IsInk s → trim_space s ≡ s
unfolding trim_space
trim_space-ink s h = rw (trim_right_by-ink s h) (trim_left_by-ink s h)

digits-IsInk : (s : Text) → All IsDigit s → All IsInk s
unfolding is_space
digits-IsInk [] h = tt
digits-IsInk (c ∷ s) (h, hs) = (ground arith, digits-IsInk s hs)

is_nil-append : (s : Text) (c : ℕ) → is_nil (s ++ c ∷ []) ≡ false
is_nil-append [] c = refl
is_nil-append (a ∷ s) c = refl

last_char-append : (s : Text) (c : ℕ) → last_char (s ++ c ∷ []) ≡ c
unfolding last_char
last_char-append [] c = refl
last_char-append (a ∷ []) c = refl
last_char-append (a ∷ b ∷ s) c = last_char-append (b ∷ s) c

drop_last-append : (s : Text) (c : ℕ) → drop_last (s ++ c ∷ []) ≡ s
unfolding drop_last
drop_last-append [] c = refl
drop_last-append (a ∷ []) c = refl
drop_last-append (a ∷ b ∷ s) c = rw (drop_last-append (b ∷ s) c)

scale_parsed-exact :
    (n mul : ℕ)
    → 0 < mul
    → scale_parsed (if ltb n (2 ^ 64) then some n else none) mul
      ≡ (if ltb (n * mul) (2 ^ 64) then some (n * mul) else none)
scale_parsed-exact n mul h = elim (dec_lt n (2 ^ 64)) [
  | yes p ↦ rw (lt→ltb n (2 ^ 64) p) (scale-exact n mul h p)
  | no p ↦ grind arith
]

scaled_uint-decimal :
    (n mul : ℕ)
    → 0 < mul
    → scaled_uint (decimal n) mul ≡ (if ltb (n * mul) (2 ^ 64) then some (n * mul) else none)
scaled_uint-decimal n mul h =
    rw (trim_space-ink (decimal n) (digits-IsInk _ (decimal-IsDigit n)), go_parse_uint-decimal n)
      (scale_parsed-exact n mul h)

-- A number printed before a size suffix is read as their product, exactly when that is a uint64.
pub parse_size-decimal :
    (n u mul : ℕ)
    → size_unit u ≡ some mul
    → parse_size (decimal n ++ u ∷ []) ≡ (if ltb (n * mul) (2 ^ 64) then some (n * mul) else none)
unfolding parse_size
parse_size-decimal n u mul h =
    let (positive, ink) = size_unit_pos u mul h in
    let whole : trim_space (decimal n ++ u ∷ []) ≡ decimal n ++ u ∷ [] =
      trim_space-ink _
        (All-append IsInk (decimal n) (u ∷ []) (digits-IsInk _ (decimal-IsDigit n)) (ink, tt)) in
    rw (whole, is_nil-append (decimal n) u, last_char-append, h, drop_last-append)
      (scaled_uint-decimal n mul positive)
