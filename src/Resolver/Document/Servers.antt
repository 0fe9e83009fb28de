-- ===== src/Resolver/Document/Servers.antt =====
-- controllers/upstreams_resolver.go: the servers that a document names, and what the loops of
-- `resolveYAML` make of them.
use mathlib.Core.List.{map-append}
use moat_operator.Base.{
  ℕ, suc, Bool, true, false, not, Option, none, some, List, [], ◌∷◌, ◌++◌, ◌+◌, Text, codes, map,
  length, length-append, if◌then◌else◌, ◌≡◌, refl, arith, ap, ap₂, sym, ◌∙◌,
}
use moat_operator.Kube.{NamespacedName, Service}
use moat_operator.Resolver.{rewrite_server}
use moat_operator.Resolver.Document.Keys.{field-set_field}
use moat_operator.Resolver.Document.{
  Value, scalar, str, seq, table, Values, no_values, more_values, Fields, no_fields, more_fields,
  Summary, field, counted, resolve_servers, resolve_path_servers, resolve_path, resolve_paths,
  resolve_host_paths, resolve_host, resolve_hosts,
}

-- The strings of a list.
abbrev texts_of : Values → List Text
texts_of no_values = []
texts_of (more_values (str t) vs) = t ∷ texts_of vs
texts_of (more_values (scalar t) vs) = texts_of vs
texts_of (more_values (seq t) vs) = texts_of vs
texts_of (more_values (table t) vs) = texts_of vs

abbrev list_texts : Option Value → List Text
list_texts (some (seq vs)) = texts_of vs
list_texts _ = []

-- The servers of a path, of a map of paths, of a host and of a map of hosts.
abbrev path_servers : Value → List Text
path_servers (table path) = list_texts (field (codes "servers") path)
path_servers _ = []

abbrev each_servers : (Value → List Text) → Fields → List Text
each_servers f no_fields = []
each_servers f (more_fields k v fs) = f v ++ each_servers f fs

abbrev table_servers : Option Value → List Text
table_servers (some (table ps)) = each_servers path_servers ps
table_servers _ = []

abbrev host_servers : Value → List Text
host_servers (table host) = table_servers (field (codes "paths") host)
host_servers _ = []

abbrev pub servers_in : Fields → List Text
servers_in fs = each_servers host_servers fs

abbrev pub count_if : (Text → Bool) → List Text → ℕ
count_if p [] = 0
count_if p (t ∷ ts) = (if p t then 1 else 0) + count_if p ts

count_if-append :
    (p : Text → Bool) (xs ys : List Text) → count_if p (xs ++ ys) ≡ count_if p xs + count_if p ys
count_if-append p [] ys = omega arith
count_if-append p (x ∷ xs) ys = omega (arith, count_if-append p xs ys)

module _ (get : NamespacedName → Option Service) (domain ns : Text) where
  -- What `rewriteServer` makes of a server, and whether it resolves it.
  abbrev pub as_rewritten : Text → Text
  as_rewritten t = (rewrite_server get domain ns t).0

  abbrev pub is_resolved : Text → Bool
  is_resolved t = (rewrite_server get domain ns t).1

  -- The summary after the servers of a list have been counted.
  abbrev IsTally : List Text → Summary → Summary → Type 0
  IsTally ts s t =
      (t.total ≡ s.total + length ts)
      × (t.resolved ≡ s.resolved + count_if is_resolved ts)
      × (t.passthrough ≡ s.passthrough + count_if (λ x. not (is_resolved x)) ts)

  IsTally-nil : (s : Summary) → IsTally [] s s
  IsTally-nil s = (omega arith, omega arith, omega arith)

  IsTally-append :
      (xs ys : List Text) (s t u : Summary)
      → IsTally xs s t
      → IsTally ys t u
      → IsTally (xs ++ ys) s u
  IsTally-append xs ys s t u (a, b, c) (d, e, f) = (
    omega (arith, a, d, length-append xs ys),
    omega (arith, b, e, count_if-append is_resolved xs ys),
    omega (arith, c, f, count_if-append (λ x. not (is_resolved x)) xs ys),
  )

  IsTally-cons :
      (addr : Text) (ts : List Text) (s u : Summary)
      → IsTally ts (counted (rewrite_server get domain ns addr) s) u
      → IsTally (addr ∷ ts) s u
  IsTally-cons addr ts s u h = at (rewrite_server get domain ns addr) h
    where
      at :
          (r : Text × Bool)
          → IsTally ts (counted r s) u
          → (u.total ≡ s.total + suc (length ts))
            × (u.resolved ≡ s.resolved + ((if r.1 then 1 else 0) + count_if is_resolved ts))
            × (u.passthrough
                ≡ s.passthrough
                  + ((if not r.1 then 1 else 0) + count_if (λ x. not (is_resolved x)) ts))
      at (x, true) (a, b, c) = (omega (arith, a), omega (arith, b), omega (arith, c))
      at (x, false) (a, b, c) = (omega (arith, a), omega (arith, b), omega (arith, c))

  -- A pass rewrites the servers in place and counts them.
  abbrev pub IsPassed {ℓ} :
      {A : Type ℓ} → (A → List Text) → (A → Summary → A × Summary) → A → Summary → Type 0
  IsPassed servers pass a s =
      (servers (pass a s).0 ≡ map as_rewritten (servers a)) × IsTally (servers a) s (pass a s).1

  resolve_servers-IsPassed :
      (vs : Values) (s : Summary) → IsPassed texts_of (resolve_servers get domain ns) vs s
  unfolding resolve_servers
  resolve_servers-IsPassed no_values s = (refl, IsTally-nil s)
  resolve_servers-IsPassed (more_values (str addr) vs) s =
      let t = counted (rewrite_server get domain ns addr) s in
      let (e, n) = resolve_servers-IsPassed vs t in
      (ap (λ l. as_rewritten addr ∷ l) e, IsTally-cons addr (texts_of vs) s _ n)
  resolve_servers-IsPassed (more_values (scalar t) vs) s = resolve_servers-IsPassed vs s
  resolve_servers-IsPassed (more_values (seq t) vs) s = resolve_servers-IsPassed vs s
  resolve_servers-IsPassed (more_values (table t) vs) s = resolve_servers-IsPassed vs s

  resolve_path-IsPassed :
      (v : Value) (s : Summary) → IsPassed path_servers (resolve_path get domain ns) v s
  resolve_path-IsPassed (scalar x) s = (refl, IsTally-nil s)
  resolve_path-IsPassed (str x) s = (refl, IsTally-nil s)
  resolve_path-IsPassed (seq x) s = (refl, IsTally-nil s)
  resolve_path-IsPassed (table path) s = at (field (codes "servers") path) refl
    where
      at :
          (o : Option Value)
          → field (codes "servers") path ≡ o
          → let r = resolve_path_servers get domain ns path o s in
            (path_servers r.0 ≡ map as_rewritten (list_texts o)) × IsTally (list_texts o) s r.1
      at none e = rw e (refl, IsTally-nil s)
      at (some (scalar x)) e = rw e (refl, IsTally-nil s)
      at (some (str x)) e = rw e (refl, IsTally-nil s)
      at (some (table x)) e = rw e (refl, IsTally-nil s)
      at (some (seq vs)) e =
          let new = seq (resolve_servers get domain ns vs s).0 in
          rw (field-set_field (codes "servers") new (seq vs) path e) (resolve_servers-IsPassed vs s)

  -- Two passes, one after the other.
  passed-append :
      (xs ys xs' ys' : List Text) (s t u : Summary)
      → (xs' ≡ map as_rewritten xs) × IsTally xs s t
      → (ys' ≡ map as_rewritten ys) × IsTally ys t u
      → (xs' ++ ys' ≡ map as_rewritten (xs ++ ys)) × IsTally (xs ++ ys) s u
  passed-append xs ys xs' ys' s t u (e, m) (f, n) = (
    ap₂ (λ a b. a ++ b) e f ∙ sym (map-append as_rewritten xs ys),
    IsTally-append xs ys s t u m n,
  )

  resolve_paths-IsPassed :
      (fs : Fields) (s : Summary)
      → IsPassed (each_servers path_servers) (resolve_paths get domain ns) fs s
  unfolding resolve_paths
  resolve_paths-IsPassed no_fields s = (refl, IsTally-nil s)
  resolve_paths-IsPassed (more_fields k v fs) s =
      passed-append (path_servers v) (each_servers path_servers fs) _ _ s _ _
        (resolve_path-IsPassed v s) (resolve_paths-IsPassed fs (resolve_path get domain ns v s).1)

  resolve_host-IsPassed :
      (v : Value) (s : Summary) → IsPassed host_servers (resolve_host get domain ns) v s
  resolve_host-IsPassed (scalar x) s = (refl, IsTally-nil s)
  resolve_host-IsPassed (str x) s = (refl, IsTally-nil s)
  resolve_host-IsPassed (seq x) s = (refl, IsTally-nil s)
  resolve_host-IsPassed (table host) s = at (field (codes "paths") host) refl
    where
      at :
          (o : Option Value)
          → field (codes "paths") host ≡ o
          → let r = resolve_host_paths get domain ns host o s in
            (host_servers r.0 ≡ map as_rewritten (table_servers o))
            × IsTally (table_servers o) s r.1
      at none e = rw e (refl, IsTally-nil s)
      at (some (scalar x)) e = rw e (refl, IsTally-nil s)
      at (some (str x)) e = rw e (refl, IsTally-nil s)
      at (some (seq x)) e = rw e (refl, IsTally-nil s)
      at (some (table ps)) e =
          let new = table (resolve_paths get domain ns ps s).0 in
          rw (field-set_field (codes "paths") new (table ps) host e) (resolve_paths-IsPassed ps s)

  pub resolve_hosts-IsPassed :
      (fs : Fields) (s : Summary) → IsPassed servers_in (resolve_hosts get domain ns) fs s
  unfolding resolve_hosts
  resolve_hosts-IsPassed no_fields s = (refl, IsTally-nil s)
  resolve_hosts-IsPassed (more_fields k v fs) s =
      passed-append (host_servers v) (servers_in fs) _ _ s _ _ (resolve_host-IsPassed v s)
        (resolve_hosts-IsPassed fs (resolve_host get domain ns v s).1)
