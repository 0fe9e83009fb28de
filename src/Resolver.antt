-- ===== src/Resolver.antt =====
-- controllers/upstreams_resolver.go: backend names in an upstreams document replaced by the
-- ClusterIPs of their Services. `sigs.k8s.io/yaml` is a parameter: `unmarshal` reads a document
-- as the fields of a map, and `marshal` prints them. The Go loops over maps write in place; here
-- they return the map.
pub mod Rewrite
pub mod Fqdn
pub mod Document
use moat_operator.Base.{
  ℕ, Bool, true, false, not, ◌&&◌, ◌||◌, Option, none, some, List, [], ◌∷◌, ◌++◌, ◌+◌, Text, codes,
  Map, lookup, insert, ◌==◌, eqb, leb, if◌then◌else◌, is_nil, option_or, contains_char, contains,
  trim_prefix, split,
}
use moat_operator.Kube.{NamespacedName, Service}

-- `s[:i]` and `s[i+1:]` for `i = strings.LastIndex(s, sep)`.
abbrev pub cons_before : ℕ → ℕ → Text → Option (Text × Text) → Option (Text × Text)
cons_before sep c s (some (a, b)) = some (c ∷ a, b)
cons_before sep c s none = if eqb c sep then some ([], s) else none

unfoldable pub split_last : ℕ → Text → Option (Text × Text)
split_last sep [] = none
split_last sep (c ∷ s) = cons_before sep c s (split_last sep s)

-- `strings.HasSuffix` and `strings.TrimSuffix`
unfoldable pub has_suffix : Text → Text → Bool
has_suffix [] suffix = is_nil suffix
has_suffix (c ∷ s) suffix = ((c ∷ s) == suffix) || has_suffix s suffix

unfoldable pub trim_suffix : Text → Text → Text
trim_suffix [] suffix = []
trim_suffix (c ∷ s) suffix =
    let rest = trim_suffix s suffix in if (c ∷ s) == suffix then [] else c ∷ rest

unfoldable pub count_char : ℕ → Text → ℕ
count_char c [] = 0
count_char c (d ∷ s) = if eqb d c then count_char c s + 1 else count_char c s

abbrev pub unbracketed : Text → Text
unbracketed host = trim_prefix (trim_suffix host (codes "]")) (codes "[")

abbrev pub host_and_port : Option (Text × Text) → Option (Text × Text)
host_and_port none = none
host_and_port (some (h, port)) =
    let host = unbracketed h in
    if not (is_nil host) && not (is_nil port) then some (host, port) else none

unfoldable pub split_host_port : Text → Option (Text × Text)
unfolding split_last trim_suffix
split_host_port addr = host_and_port (split_last b':' addr)

unfoldable pub dots_and_digits : Text → Bool
dots_and_digits [] = true
dots_and_digits (c ∷ s) = (eqb c b'.' || (leb b'0' c && leb c b'9')) && dots_and_digits s

unfoldable pub is_ip_literal : Text → Bool
unfolding dots_and_digits count_char
is_ip_literal host =
    if contains_char b':' host then true else dots_and_digits host && eqb (count_char b'.' host) 3

-- Two labels before the suffix: the Service and its namespace.
abbrev pub two_labels : List Text → Option NamespacedName
two_labels (name ∷ ns ∷ []) = some (record { namespace = ns; name = name })
two_labels _ = none

abbrev pub cluster_domain_or_default : Text → Text
cluster_domain_or_default domain = if is_nil domain then codes "cluster.local" else domain

unfoldable pub parse_cluster_fqdn : Text → Text → Option NamespacedName
unfolding has_suffix trim_suffix
parse_cluster_fqdn domain host =
    let suffix = codes ".svc." ++ cluster_domain_or_default domain in
    if has_suffix host suffix then two_labels (split b'.' (trim_suffix host suffix)) else none

-- The Service that a host names: by its cluster name, or by a single label in the namespace.
abbrev pub or_short_name : Text → Text → Option NamespacedName → Option NamespacedName
or_short_name ns host (some key) = some key
or_short_name ns host none =
    if contains_char b'.' host then none else some (record { namespace = ns; name = host })

unfoldable pub service_of : Text → Text → Text → Option NamespacedName
unfolding parse_cluster_fqdn
service_of domain ns host = or_short_name ns host (parse_cluster_fqdn domain host)

unfoldable pub substituted : Text → Text → Option Service → Text × Bool
substituted addr port none = (addr, false)
substituted addr port (some svc) =
    if is_nil svc.cluster_ip || (svc.cluster_ip == codes "None")
    then (addr, false)
    else (svc.cluster_ip ++ b':' ∷ port, true)

module _ (get : NamespacedName → Option Service) (domain ns : Text) where
  abbrev pub rewrite_named : Text → Text → Option NamespacedName → Text × Bool
  rewrite_named addr port none = (addr, false)
  rewrite_named addr port (some key) = substituted addr port (get key)

  abbrev pub rewrite_parts : Text → Option (Text × Text) → Text × Bool
  rewrite_parts addr none = (addr, false)
  rewrite_parts addr (some (host, port)) =
      if is_ip_literal host
      then (addr, false)
      else rewrite_named addr port (service_of domain ns host)

  unfoldable pub rewrite_server : Text → Text × Bool
  unfolding split_host_port is_ip_literal service_of substituted
  rewrite_server addr = rewrite_parts addr (split_host_port addr)
