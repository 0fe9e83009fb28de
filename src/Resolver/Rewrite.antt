-- ===== src/Resolver/Rewrite.antt =====
-- controllers/upstreams_resolver.go: a server and its rewritten form.
use moat_operator.Base.{
  ℕ, Bool, true, false, ◌||◌, Option, none, some, [], ◌∷◌, ◌++◌, Text, codes, ◌==◌, if◌then◌else◌,
  is_nil, contains_char, ◌≡◌, refl, arith, ap, ◌⊎◌, inl, inr,
}
use moat_operator.Kube.{NamespacedName, Service}
use moat_operator.Resolver.{
  cons_before, split_last, host_and_port, unbracketed, split_host_port, is_ip_literal, service_of,
  substituted, rewrite_named, rewrite_parts, rewrite_server,
}

split_last-none : (sep : ℕ) (b : Text) → contains_char sep b ≡ false → split_last sep b ≡ none
unfolding split_last contains_char
split_last-none sep [] h = refl
split_last-none sep (c ∷ b) h = ground (arith, split_last-none sep b)

split_last-join :
    (sep : ℕ) (a b : Text)
    → contains_char sep b ≡ false
    → split_last sep (a ++ sep ∷ b) ≡ some (a, b)
unfolding split_last
split_last-join sep [] b h = ground (arith, split_last-none sep b h)
split_last-join sep (c ∷ a) b h = ap (cons_before sep c _) (split_last-join sep a b h)

cons_before_sound :
    (sep c : ℕ) (s : Text) (o : Option (Text × Text)) (a b : Text)
    → split_last sep s ≡ o
    → ((x y : Text) → o ≡ some (x, y) → contains_char sep y ≡ false)
    → (o ≡ none → contains_char sep s ≡ false)
    → cons_before sep c s o ≡ some (a, b)
    → contains_char sep b ≡ false
cons_before_sound sep c s none a b e f n h = ground (arith, n)
cons_before_sound sep c s (some (x, y)) a b e f n h = ground (arith, f x y)

split_last-clear : (sep : ℕ) (s : Text) → split_last sep s ≡ none → contains_char sep s ≡ false
unfolding split_last contains_char
split_last-clear sep [] h = refl
split_last-clear sep (c ∷ s) h = ground (arith, split_last-clear sep s)

split_last_sound :
    (sep : ℕ) (s a b : Text) → split_last sep s ≡ some (a, b) → contains_char sep b ≡ false
unfolding split_last contains_char
split_last_sound sep [] a b h = ground arith
split_last_sound sep (c ∷ s) a b h =
    cons_before_sound sep c s (split_last sep s) a b refl (split_last_sound sep s)
      (split_last-clear sep s) h

host_and_port-port :
    (host port : Text) (o : Option (Text × Text))
    → ((a b : Text) → o ≡ some (a, b) → contains_char b':' b ≡ false)
    → host_and_port o ≡ some (host, port)
    → (contains_char b':' port ≡ false) × (is_nil port ≡ false)
host_and_port-port host port none f h = ground arith
host_and_port-port host port (some (a, b)) f h = let c = f a b refl in ground (arith, c)

-- The port that a server is split into holds no colon and is not empty.
split_host_port-port :
    (addr host port : Text)
    → split_host_port addr ≡ some (host, port)
    → (contains_char b':' port ≡ false) × (is_nil port ≡ false)
unfolding split_host_port
split_host_port-port addr host port h =
    host_and_port-port host port (split_last b':' addr) (split_last_sound b':' addr) h

split_host_port-join :
    (host port : Text)
    → unbracketed host ≡ host
    → is_nil host ≡ false
    → is_nil port ≡ false
    → contains_char b':' port ≡ false
    → split_host_port (host ++ b':' ∷ port) ≡ some (host, port)
unfolding split_host_port
split_host_port-join host port u n m c = rw (split_last-join b':' host port c) (ground (arith, u))

-- A ClusterIP that is given is an address that has no brackets.
abbrev pub HasLiteralIp : (NamespacedName → Option Service) → Type 0
HasLiteralIp get =
    (key : NamespacedName) (svc : Service)
    → get key ≡ some svc
    → is_nil svc.cluster_ip ≡ false
    → (svc.cluster_ip == codes "None") ≡ false
    → (is_ip_literal svc.cluster_ip ≡ true) × (unbracketed svc.cluster_ip ≡ svc.cluster_ip)

module _ (get : NamespacedName → Option Service) (domain ns : Text) (lit : HasLiteralIp get) where
  -- The entry is left alone by the resolver.
  abbrev IsKept : Text → Type 0
  IsKept addr = rewrite_server get domain ns addr ≡ (addr, false)

  literal-IsKept :
      (ip port : Text)
      → is_ip_literal ip ≡ true
      → unbracketed ip ≡ ip
      → is_nil ip ≡ false
      → (contains_char b':' port ≡ false) × (is_nil port ≡ false)
      → IsKept (ip ++ b':' ∷ port)
  unfolding rewrite_server
  literal-IsKept ip port l u n (c, m) = rw (split_host_port-join ip port u n m c, l) refl

  -- The rewrite has done nothing, or what it gives is left alone.
  abbrev IsSettled : Text → Text × Bool → Type 0
  IsSettled addr r = (r ≡ (addr, false)) ⊎ IsKept r.0

  if-IsSettled :
      (b : Bool) (addr : Text) (r : Text × Bool)
      → (b ≡ false → IsSettled addr r)
      → IsSettled addr (if b then (addr, false) else r)
  if-IsSettled true addr r f = inl refl
  if-IsSettled false addr r f = f refl

  substituted-IsSettled :
      (addr port : Text) (key : NamespacedName) (o : Option Service)
      → get key ≡ o
      → (contains_char b':' port ≡ false) × (is_nil port ≡ false)
      → IsSettled addr (substituted addr port o)
  unfolding substituted
  substituted-IsSettled addr port key none e c = inl refl
  substituted-IsSettled addr port key (some svc) e c =
      let ip = svc.cluster_ip in
      if-IsSettled (is_nil ip || (ip == codes "None")) addr (ip ++ b':' ∷ port, true)
        (λ h.
          let n : is_nil ip ≡ false = ground arith in
          let l = lit key svc e n (ground arith) in inr (literal-IsKept ip port l.0 l.1 n c))

  rewrite_named-IsSettled :
      (addr port : Text) (k : Option NamespacedName)
      → (contains_char b':' port ≡ false) × (is_nil port ≡ false)
      → IsSettled addr (rewrite_named get domain ns addr port k)
  rewrite_named-IsSettled addr port none c = inl refl
  rewrite_named-IsSettled addr port (some key) c =
      substituted-IsSettled addr port key (get key) refl c

  rewrite_parts-IsSettled :
      (addr : Text) (o : Option (Text × Text))
      → split_host_port addr ≡ o
      → IsSettled addr (rewrite_parts get domain ns addr o)
  rewrite_parts-IsSettled addr none e = inl refl
  rewrite_parts-IsSettled addr (some (host, port)) e =
      if-IsSettled (is_ip_literal host) addr _ (λ h.
        rewrite_named-IsSettled addr port (service_of domain ns host)
          (split_host_port-port addr host port e))

  rewrite_server-IsSettled : (addr : Text) → IsSettled addr (rewrite_server get domain ns addr)
  unfolding rewrite_server
  rewrite_server-IsSettled addr = rewrite_parts-IsSettled addr (split_host_port addr) refl

  -- Where the ClusterIPs are addresses, resolving a server a second time changes nothing: the
  -- result of `rewriteServer` is returned as it is, and is not counted as resolved.
  pub rewrite_server-idempotent :
      (addr : Text)
      → let r = (rewrite_server get domain ns addr).0 in rewrite_server get domain ns r ≡ (r, false)
  rewrite_server-idempotent addr = elim (rewrite_server-IsSettled addr) [ inl e ↦ cc e | inr k ↦ k ]
