-- ===== src/Routes/Quote.antt =====
-- `strconv.Quote` (the verb %q) and decimal output (%d), which the renderers use for every value.
-- The Unicode table behind `unicode.IsPrint` is the parameter `is_print`, above ASCII only.
pub mod Decimal
pub mod Scalar
use moat_operator.Base.{
  ℕ, zero, suc, ◌+◌, ◌-◌, ◌/◌, ◌%◌, Bool, ◌&&◌, ◌||◌, Option, none, some, [], ◌∷◌, ◌++◌, Text, ltb,
  leb, eqb, if◌then◌else◌,
}

abbrev hex_digit : ℕ → ℕ
hex_digit d = if ltb d 10 then b'0' + d else b'a' + (d - 10)

-- `w` hexadecimal digits, the highest first.
unfoldable pub hex : ℕ → ℕ → Text
hex zero n = []
hex (suc w) n = hex w (n / 16) ++ hex_digit (n % 16) ∷ []

unfoldable pub decimal_from : ℕ → ℕ → Text → Text
decimal_from zero n out = out
decimal_from (suc f) n out =
    let more = decimal_from f (n / 10) ((b'0' + n % 10) ∷ out) in
    if ltb n 10 then (b'0' + n) ∷ out else more

-- `strconv.FormatUint(n, 10)`; a number has fewer digits than its value plus one.
unfoldable pub decimal : ℕ → Text
unfolding decimal_from
decimal n = decimal_from (suc n) n []

unfoldable pub short_escape : ℕ → Option ℕ
short_escape c =
    if eqb c 7
    then some b'a'
    else if eqb c 8
    then some b'b'
    else if eqb c 12
    then some b'f'
    else if eqb c 10
    then some b'n'
    else if eqb c 13
    then some b'r'
    else if eqb c 9
    then some b't'
    else if eqb c 11
    then some b'v'
    else none

module _ (is_print : ℕ → Bool) where
  unfoldable pub prints : ℕ → Bool
  prints c = if ltb c 0x80 then leb 0x20 c && leb c 0x7e else is_print c

  unfoldable pub long_escape : ℕ → Text
  unfolding hex
  long_escape c =
      if ltb c 0x20 || eqb c 0x7f
      then b'x' ∷ hex 2 c
      else if ltb c 0x10000
      then b'u' ∷ hex 4 c
      else b'U' ∷ hex 8 c

  unfoldable pub quote_char : ℕ → Text
  unfolding prints long_escape short_escape
  quote_char c =
      if eqb c b'"' || eqb c b'\\'
      then b'\\' ∷ c ∷ []
      else if prints c
      then c ∷ []
      else elim (short_escape c) [ some e ↦ b'\\' ∷ e ∷ [] | none ↦ b'\\' ∷ long_escape c ]

  unfoldable pub quote_body : Text → Text
  unfolding quote_char
  quote_body [] = []
  quote_body (c ∷ s) = quote_char c ++ quote_body s

  unfoldable pub quote : Text → Text
  unfolding quote_body
  quote s = b'"' ∷ quote_body s ++ b'"' ∷ []
