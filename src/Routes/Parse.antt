-- ===== src/Routes/Parse.antt =====
-- controllers/routes.go: the parsers of single annotation values. `nil` is `none`.
pub mod Size
pub mod Csv
use moat_operator.Base.{
  ℕ, ◌+◌, ◌-◌, ◌*◌, ◌/◌, ◌%◌, ◌^◌, Bool, true, false, ◌&&◌, ◌||◌, Option, none, some, List, [], ◌∷◌,
  Text, codes, ltb, leb, eqb, if◌then◌else◌, is_nil, trim_space, equal_fold, split,
}

unfoldable pub parse_bool : Text → Option Bool
parse_bool s =
    if equal_fold (trim_space s) (codes "true")
    then some true
    else if equal_fold (trim_space s) (codes "false")
    then some false
    else none

-- `strconv.ParseUint(s, 10, 64)`: one or more digits, and a value below 2^64.
unfoldable pub digits_value : ℕ → Text → Option ℕ
digits_value n [] = some n
digits_value n (c ∷ s) =
    let rest = digits_value (n * 10 + (c - b'0')) s in
    if leb b'0' c && leb c b'9' then rest else none

abbrev pub below_u64 : ℕ → Option ℕ
below_u64 n = if ltb n (2 ^ 64) then some n else none

unfoldable pub go_parse_uint : Text → Option ℕ
unfolding digits_value
go_parse_uint [] = none
go_parse_uint (c ∷ s) = elim (digits_value 0 (c ∷ s)) [ none ↦ none | some n ↦ below_u64 n ]

unfoldable pub parse_uint : Text → Option ℕ
unfolding go_parse_uint
parse_uint s = go_parse_uint (trim_space s)

-- `t[len(t)-1]` and `t[:len(t)-1]` of a text that is not empty.
unfoldable pub last_char : Text → ℕ
last_char [] = 0
last_char (c ∷ []) = c
last_char (_ ∷ c ∷ s) = last_char (c ∷ s)

unfoldable pub drop_last : Text → Text
drop_last [] = []
drop_last (_ ∷ []) = []
drop_last (a ∷ c ∷ s) = a ∷ drop_last (c ∷ s)

-- The multiplier of a suffix; `none` for any other last character.
unfoldable pub size_unit : ℕ → Option ℕ
size_unit c =
    if eqb c b'k' || eqb c b'K'
    then some 1024
    else if eqb c b'm' || eqb c b'M'
    then some (1024 * 1024)
    else if eqb c b'g' || eqb c b'G'
    then some (1024 * 1024 * 1024)
    else none

-- `n * mul` in uint64, with the guard before it.
unfoldable pub scale : ℕ → ℕ → Option ℕ
scale n mul = if ltb 1 mul && ltb ((2 ^ 64 - 1) / mul) n then none else some ((n * mul) % 2 ^ 64)

abbrev pub scale_parsed : Option ℕ → ℕ → Option ℕ
scale_parsed none mul = none
scale_parsed (some n) mul = scale n mul

abbrev pub scaled_uint : Text → ℕ → Option ℕ
scaled_uint t mul = scale_parsed (go_parse_uint (trim_space t)) mul

-- The `switch` on the last character, and what follows it.
abbrev pub suffixed_size : Option ℕ → Text → Option ℕ
suffixed_size none t = scaled_uint t 1
suffixed_size (some mul) t = scaled_uint (drop_last t) mul

unfoldable pub parse_size : Text → Option ℕ
unfolding go_parse_uint last_char drop_last size_unit scale
parse_size s =
    let t = trim_space s in if is_nil t then none else suffixed_size (size_unit (last_char t)) t

-- The loop of `csv`.
unfoldable pub trimmed_items : List Text → List Text
trimmed_items [] = []
trimmed_items (p ∷ ps) =
    let t = trim_space p in if is_nil t then trimmed_items ps else t ∷ trimmed_items ps

unfoldable pub csv : Text → List Text
unfolding trimmed_items
csv s = trimmed_items (split b',' s)
