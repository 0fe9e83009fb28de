-- ===== src/NetVars/Addresses.antt =====
-- Go's `net.ParseIP` and `net.ParseCIDR`, as far as controllers/netvars_resolver.go reads their
-- results: whether a text parses, and whether the address has a 4-byte form.
use moat_operator.Base.{
  ℕ, zero, suc, Bool, true, false, not, ◌&&◌, ◌||◌, Option, none, some, List, [], ◌∷◌, ◌++◌, ◌+◌,
  ◌-◌, ◌*◌, Text, eqb, leb, ltb, if◌then◌else◌, is_nil, length, contains_char,
}
use moat_operator.Identity.{is_digit}

-- `parseIPv4Fields`: the fields that are read, the field at hand and its digits.
unfoldable pub ipv4_fields : Text → List ℕ → ℕ → ℕ → Option (List ℕ)
ipv4_fields [] fields val digits =
    if eqb (length fields) 3 && not (eqb digits 0) then some (fields ++ val ∷ []) else none
ipv4_fields (c ∷ s) fields val digits =
    let next = val * 10 + (c - b'0') in
    let more = ipv4_fields s fields next (digits + 1) in
    let closed = ipv4_fields s (fields ++ val ∷ []) 0 0 in
    if is_digit c
    then (if (eqb digits 1 && eqb val 0) || ltb 255 next then none else more)
    else if eqb c b'.'
    then (if eqb digits 0 || eqb (length fields) 3 then none else closed)
    else none

abbrev pub is_hex : ℕ → Bool
is_hex c = is_digit c || (leb b'a' c && leb c b'f') || (leb b'A' c && leb c b'F')

abbrev pub hex_value : ℕ → ℕ
hex_value c =
    if is_digit c then c - b'0' else if leb b'a' c then (c - b'a') + 10 else (c - b'A') + 10

-- The value of the hex digits at the front, their number, and the rest.
unfoldable pub hex_group : Text → ℕ → ℕ → ℕ × ℕ × Text
hex_group [] acc off = (acc, off, [])
hex_group (c ∷ s) acc off =
    let more = hex_group s (acc * 16 + hex_value c) (off + 1) in
    if is_hex c then more else (acc, off, c ∷ s)

-- The groups of 16 bits that are read, where the "::" stood, and the rest.
abbrev pub Groups : Type 0
Groups = List ℕ × Option ℕ × Text

abbrev pub with_ipv4 : List ℕ → Option ℕ → Option (List ℕ) → Option Groups
with_ipv4 groups ellipsis (some (a ∷ b ∷ c ∷ d ∷ [])) =
    some (groups ++ (a * 256 + b) ∷ (c * 256 + d) ∷ [], ellipsis, [])
with_ipv4 groups ellipsis fields = none

-- An IPv4 address at the end of an IPv6 one.
abbrev pub embedded : List ℕ → Option ℕ → Text → Option Groups
embedded groups none s =
    if eqb (length groups) 6 then with_ipv4 groups none (ipv4_fields s [] 0 0) else none
embedded groups (some e) s =
    if ltb 6 (length groups) then none else with_ipv4 groups (some e) (ipv4_fields s [] 0 0)

-- What follows a group of digits: the end, or a colon and how the loop goes on.
abbrev pub after_colon :
    List ℕ → Option ℕ → Text → (Option ℕ → Text → Option Groups) → Option Groups
after_colon groups ellipsis [] more = none
after_colon groups ellipsis (c ∷ s) more =
    if not (eqb c b':') then more ellipsis (c ∷ s) else elim ellipsis [
      | some e ↦ none
      | none ↦
          if is_nil s
          then some (groups, some (length groups), [])
          else more (some (length groups)) s
    ]

abbrev pub after_group :
    List ℕ → Option ℕ → Text → (Option ℕ → Text → Option Groups) → Option Groups
after_group groups ellipsis [] more = some (groups, ellipsis, [])
after_group groups ellipsis (c ∷ s) more =
    if eqb c b':' then after_colon groups ellipsis s more else none

abbrev pub starts_with_dot : Text → Bool
starts_with_dot [] = false
starts_with_dot (c ∷ s) = eqb c b'.'

-- The loop of `parseIPv6`, over the groups that are left.
unfoldable pub ipv6_groups : ℕ → List ℕ → Option ℕ → Text → Option Groups
unfolding hex_group ipv4_fields
ipv6_groups zero groups ellipsis s = some (groups, ellipsis, s)
ipv6_groups (suc left) groups ellipsis s =
    let (acc, off, rest) = hex_group s 0 0 in
    let read = groups ++ acc ∷ [] in
    let more : Option ℕ → Text → Option Groups = λ e t. ipv6_groups left read e t in
    if eqb off 0 || ltb 4 off
    then none
    else if starts_with_dot rest
    then embedded groups ellipsis s
    else after_group read ellipsis rest more

unfoldable pub zeros : ℕ → List ℕ
zeros zero = []
zeros (suc n) = 0 ∷ zeros n

unfoldable pub put_zeros : ℕ → ℕ → List ℕ → List ℕ
unfolding zeros
put_zeros zero n groups = zeros n ++ groups
put_zeros (suc at) n [] = []
put_zeros (suc at) n (g ∷ groups) = g ∷ put_zeros at n groups

-- Eight groups, where "::" stands for at least one of zeros.
abbrev pub expanded : Option Groups → Option (List ℕ)
expanded none = none
expanded (some (groups, ellipsis, rest)) = if not (is_nil rest) then none else elim ellipsis [
  | none ↦ if eqb (length groups) 8 then some groups else none
  | some e ↦ if ltb (length groups) 8 then some (put_zeros e (8 - length groups) groups) else none
]

abbrev pub ipv6_text : Text → Option Groups
ipv6_text [] = ipv6_groups 8 [] none []
ipv6_text (a ∷ []) = ipv6_groups 8 [] none (a ∷ [])
ipv6_text (a ∷ b ∷ s) =
    if eqb a b':' && eqb b b':'
    then (if is_nil s then some ([], some 0, []) else ipv6_groups 8 [] (some 0) s)
    else ipv6_groups 8 [] none (a ∷ b ∷ s)

-- `netip.Addr`, without a zone.
pub data Addr : Type 0 where
  addr4 : (fields : List ℕ) → Addr
  addr6 : (groups : List ℕ) → Addr

abbrev pub as_addr4 : Option (List ℕ) → Option Addr
as_addr4 none = none
as_addr4 (some fields) = some (addr4 fields)

abbrev pub as_addr6 : Option (List ℕ) → Option Addr
as_addr6 none = none
as_addr6 (some groups) = some (addr6 groups)

-- The first "." or ":" decides.
unfoldable pub parse_by : Text → Text → Option Addr
unfolding ipv4_fields ipv6_groups put_zeros
parse_by whole [] = none
parse_by whole (c ∷ s) =
    let more = parse_by whole s in
    if eqb c b'.'
    then as_addr4 (ipv4_fields whole [] 0 0)
    else if eqb c b':'
    then as_addr6 (expanded (ipv6_text whole))
    else more

-- `netip.ParseAddr`, where a zone is an error.
unfoldable pub parse_addr : Text → Option Addr
unfolding parse_by
parse_addr s = if contains_char b'%' s then none else parse_by s s

-- `ip.To4() != nil`
abbrev pub has_4_bytes : Addr → Bool
has_4_bytes (addr4 fields) = true
has_4_bytes (addr6 (a ∷ b ∷ c ∷ d ∷ e ∷ f ∷ rest)) =
    eqb a 0 && eqb b 0 && eqb c 0 && eqb d 0 && eqb e 0 && eqb f 0xffff
has_4_bytes (addr6 groups) = false

abbrev pub bit_length : Addr → ℕ
bit_length (addr4 fields) = 32
bit_length (addr6 groups) = 128

unfoldable pub mask_value : Text → ℕ → Option ℕ
mask_value [] n = some n
mask_value (c ∷ s) n =
    let more = mask_value s (n * 10 + (c - b'0')) in if is_digit c then more else none

unfoldable pub cut_slash : Text → Option (Text × Text)
cut_slash [] = none
cut_slash (c ∷ s) = let rest = cut_slash s in if eqb c b'/' then some ([], s) else with_char c rest
  where
    with_char : ℕ → Option (Text × Text) → Option (Text × Text)
    with_char c none = none
    with_char c (some (a, m)) = some (c ∷ a, m)

abbrev pub within : Option Addr → Option ℕ → Bool
within (some a) (some n) = leb n (bit_length a)
within a n = false

abbrev pub valid_cidr : Option (Text × Text) → Bool
valid_cidr none = false
valid_cidr (some (addr, mask)) = not (is_nil mask) && within (parse_addr addr) (mask_value mask 0)

-- Whether `net.ParseCIDR` returns no error.
unfoldable pub is_cidr : Text → Bool
unfolding parse_addr cut_slash mask_value
is_cidr s = valid_cidr (cut_slash s)
