-- ===== src/Tests/Networks.antt =====
-- A source whose HOME_NET is derived from one node, and addresses as Go parses them.
use moat_operator.Base.{
  ℕ, zero, suc, true, false, none, some, [], ◌∷◌, ◌++◌, Text, codes, lookup, ◌≡◌, refl, ap, ◌∙◌,
  arith, length, Option, ◌==◌, trim_space, equal_fold, contains_char,
}
use moat_operator.Resolver.Document.{Fields, no_fields, field}
use moat_operator.NetVars.{
  Node, Source, internal_ip, with_vars, reconcile, host_cidr, source_label, config_key,
}
use moat_operator.NetVars.Addresses.{ipv6_groups, is_cidr}
use moat_operator.NetVars.Documents.{
  home_in, external_in, with_vars-home, with_vars-external, KeepsVars,
}
use moat_operator.NetVars.Settled.{reconcile-repeats}

-- A mapped IPv4 address has a 4-byte form, an embedded one elsewhere has none.
host_cidr-mapped : host_cidr (codes "::ffff:10.0.0.1") ≡ codes "::ffff:10.0.0.1/32"
unfolding host_cidr ipv6_groups contains_char
host_cidr-mapped = refl

host_cidr-embedded : host_cidr (codes "64:ff9b::10.0.0.1") ≡ codes "64:ff9b::10.0.0.1/128"
unfolding host_cidr ipv6_groups contains_char
host_cidr-embedded = refl

host_cidr-leading_zero : host_cidr (codes "10.0.0.01") ≡ []
unfolding host_cidr ipv6_groups contains_char
host_cidr-leading_zero = refl

is_cidr-mask : is_cidr (codes "fd00::/129") ≡ false
unfolding is_cidr contains_char
is_cidr-mask = refl

is_cidr-ok : is_cidr (codes "10.42.0.0/16") ≡ true
unfolding is_cidr contains_char
is_cidr-ok = refl

-- A printer of the two variables, with the length of the first one in front.
abbrev first_part : ℕ → Text → Text
first_part zero s = []
first_part (suc n) [] = []
first_part (suc n) (c ∷ s) = c ∷ first_part n s

abbrev last_part : ℕ → Text → Text
last_part zero s = s
last_part (suc n) [] = []
last_part (suc n) (c ∷ s) = last_part n s

abbrev unmarshal : Text → Option (Option Fields)
unmarshal [] = some none
unmarshal (n ∷ s) = some (some (with_vars (first_part n s) (last_part n s) no_fields))

abbrev marshal : Fields → Option Text
marshal root = some (length (home_in root) ∷ (home_in root ++ external_in root))

first_part-append : (a b : Text) → first_part (length a) (a ++ b) ≡ a
first_part-append [] b = refl
first_part-append (c ∷ a) b = ap (λ s. c ∷ s) (first_part-append a b)

last_part-append : (a b : Text) → last_part (length a) (a ++ b) ≡ b
last_part-append [] b = refl
last_part-append (c ∷ a) b = last_part-append a b

keeps : KeepsVars unmarshal marshal
keeps root out h =
    let home = home_in root in
    let external = external_in root in
    let printed : out ≡ length home ∷ (home ++ external) = ground (arith, h) in
    let n = length home in
    let s = home ++ external in
    (
      with_vars (first_part n s) (last_part n s) no_fields,
      ap unmarshal printed,
      with_vars-home (first_part n s) (last_part n s) no_fields ∙ first_part-append home external,
      with_vars-external (first_part n s) (last_part n s) no_fields
          ∙ last_part-append home external,
    )

abbrev node : Node
node = record {
  addresses = record { type = internal_ip; address = codes "203.0.113.9" } ∷ [];
  pod_cidr = codes "10.42.0.0/16";
  pod_cidrs = [];
}

abbrev config : Source
config = record {
  labels = (source_label, codes "true") ∷ [];
  annotations = [];
  contents = (config_key, []) ∷ [];
}

config-ok : (reconcile unmarshal marshal (some (node ∷ [])) (some []) false config).failed ≡ false
unfolding reconcile lookup ◌==◌ trim_space equal_fold field
config-ok = refl

reconcile-repeats_example :
    let p = reconcile unmarshal marshal (some (node ∷ [])) (some []) false config in
    reconcile unmarshal marshal (some (node ∷ [])) (some []) true p.source
    ≡ record { source = p.source; updated = false; failed = false }
reconcile-repeats_example =
    reconcile-repeats unmarshal marshal keeps (some (node ∷ [])) (some []) config false config-ok
