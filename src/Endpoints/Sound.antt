-- ===== src/Endpoints/Sound.antt =====
-- controllers/endpoints.go: the addresses in the server list of a route.
use moat_operator.Base.{
  ℕ, true, false, Option, none, some, List, [], ◌∷◌, ◌≡◌, inl, inr, refl, arith, map, Text,
  if◌then◌else◌, is_nil, Has, Has-append, Has-append_left, Has-append_right, Has-map, Has-of_map,
  Has-sort, sort-Has, Bool-cases, Option-cases, sort, ◌↔◌, ◌>>=◌,
}
use moat_operator.Kube.{
  AddressType, ipv4, ipv6, Endpoint, EndpointSlice, ServiceBackend, IngressBackend, Api,
}
use moat_operator.Routes.{Backend}
use moat_operator.Endpoints.{
  Resolution, endpoint_usable, join_host_port, is_family, addrs_at_port, slice_port,
  endpoint_addrs_at, family_addrs, slice_endpoint_addrs, some_nonempty, endpoint_addrs,
  fallback_servers, endpoint_servers, backend_servers,
}

-- An address of a usable endpoint, joined with its slice's port.
pub record IsServed (family : AddressType) (slices : List EndpointSlice) (port_name : Text)
    (svc_port : ℕ) (a : Text) : Type 0 where
  pub slice : EndpointSlice
  pub listed : Has slice slices
  pub right_family : is_family family slice.address_type ≡ true
  pub port : ℕ
  pub at : slice_port slice port_name svc_port ≡ some port
  pub endpoint : Endpoint
  pub member : Has endpoint slice.endpoints
  pub usable : endpoint_usable endpoint ≡ true
  pub addr : Text
  pub address : Has addr endpoint.addresses
  pub joined : a ≡ join_host_port addr port

-- What one endpoint list contributes at a port.
abbrev AtPort : List Endpoint → ℕ → Text → Type 0
AtPort eps port a =
    (ep : Endpoint) × Has ep eps
    × (endpoint_usable ep ≡ true)
    × (addr : Text) × Has addr ep.addresses
    × (a ≡ join_host_port addr port)

AtPort-cons :
    (ep : Endpoint) (eps : List Endpoint) (port : ℕ) (a : Text)
    → AtPort eps port a
    → AtPort (ep ∷ eps) port a
AtPort-cons ep eps port a (e, m, u, d, n, j) = (e, inr m, u, d, n, j)

endpoint_addrs_at-here :
    (ep : Endpoint) (eps : List Endpoint) (port : ℕ) (a : Text)
    → Has a (if endpoint_usable ep then map (λ d. join_host_port d port) ep.addresses else [])
    → AtPort (ep ∷ eps) port a
endpoint_addrs_at-here ep eps port a h = elim (Bool-cases (endpoint_usable ep)) [
  | inl u ↦
      let (d, n, j) = Has-of_map (λ d. join_host_port d port) a ep.addresses (rw u at h) in
      (ep, inl refl, u, d, n, j)
  | inr u ↦ absurd (rw u at h)
]

endpoint_addrs_at_sound :
    (eps : List Endpoint) (port : ℕ) (a : Text)
    → Has a (endpoint_addrs_at eps port)
    → AtPort eps port a
unfolding endpoint_addrs_at
endpoint_addrs_at_sound [] port a h = elim h [ ]
endpoint_addrs_at_sound (ep ∷ eps) port a h = elim (Has-append a _ (endpoint_addrs_at eps port) h) [
  | inl k ↦ endpoint_addrs_at-here ep eps port a k
  | inr k ↦ AtPort-cons ep eps port a (endpoint_addrs_at_sound eps port a k)
]

endpoint_addrs_at_complete :
    (eps : List Endpoint) (port : ℕ) (ep : Endpoint) (addr : Text)
    → Has ep eps
    → endpoint_usable ep ≡ true
    → Has addr ep.addresses
    → Has (join_host_port addr port) (endpoint_addrs_at eps port)
unfolding endpoint_addrs_at
endpoint_addrs_at_complete [] port ep addr m u n = elim m [ ]
endpoint_addrs_at_complete (e ∷ eps) port ep addr (inl p) u n =
    Has-append_left _ _ (endpoint_addrs_at eps port)
      (rw (← p, u) (Has-map (λ d. join_host_port d port) addr ep.addresses n))
endpoint_addrs_at_complete (e ∷ eps) port ep addr (inr m) u n =
    Has-append_right _ _ (endpoint_addrs_at eps port)
      (endpoint_addrs_at_complete eps port ep addr m u n)

module _ (family : AddressType) (port_name : Text) (svc_port : ℕ) where
  IsServed-here :
      (s : EndpointSlice) (ss : List EndpointSlice) (a : Text) (o : Option ℕ)
      → is_family family s.address_type ≡ true
      → slice_port s port_name svc_port ≡ o
      → Has a (addrs_at_port o s.endpoints)
      → IsServed family (s ∷ ss) port_name svc_port a
  IsServed-here s ss a none f e h = elim h [ ]
  IsServed-here s ss a (some port) f e h =
      let (ep, m, u, d, n, j) = endpoint_addrs_at_sound s.endpoints port a h in
      record {
        slice = s;
        listed = inl refl;
        right_family = f;
        port = port;
        at = e;
        endpoint = ep;
        member = m;
        usable = u;
        addr = d;
        address = n;
        joined = j;
      }

  IsServed-later :
      (s : EndpointSlice) (ss : List EndpointSlice) (a : Text)
      → IsServed family ss port_name svc_port a
      → IsServed family (s ∷ ss) port_name svc_port a
  IsServed-later s ss a v = record {
    slice = v.slice;
    listed = inr v.listed;
    right_family = v.right_family;
    port = v.port;
    at = v.at;
    endpoint = v.endpoint;
    member = v.member;
    usable = v.usable;
    addr = v.addr;
    address = v.address;
    joined = v.joined;
  }

  family_addrs_sound :
      (ss : List EndpointSlice) (a : Text)
      → Has a (family_addrs family ss port_name svc_port)
      → IsServed family ss port_name svc_port a
  unfolding family_addrs
  family_addrs_sound [] a h = elim h [ ]
  family_addrs_sound (s ∷ ss) a h =
      elim (Has-append a _ (family_addrs family ss port_name svc_port) h) [
        | inl k ↦ elim (Bool-cases (is_family family s.address_type)) [
          | inl f ↦ IsServed-here s ss a (slice_port s port_name svc_port) f refl (rw f at k)
          | inr f ↦ absurd (rw f at k)
        ]
        | inr k ↦ IsServed-later s ss a (family_addrs_sound ss a k)
      ]

  family_addrs_complete :
      (ss : List EndpointSlice) (slice : EndpointSlice) (port : ℕ) (ep : Endpoint) (addr : Text)
      → Has slice ss
      → is_family family slice.address_type ≡ true
      → slice_port slice port_name svc_port ≡ some port
      → Has ep slice.endpoints
      → endpoint_usable ep ≡ true
      → Has addr ep.addresses
      → Has (join_host_port addr port) (family_addrs family ss port_name svc_port)
  unfolding family_addrs
  family_addrs_complete [] slice port ep addr l f e m u n = elim l [ ]
  family_addrs_complete (s ∷ ss) slice port ep addr (inl p) f e m u n =
      Has-append_left _ _ (family_addrs family ss port_name svc_port)
        (rw (← p, f, e) (endpoint_addrs_at_complete slice.endpoints port ep addr m u n))
  family_addrs_complete (s ∷ ss) slice port ep addr (inr l) f e m u n =
      Has-append_right _ _ (family_addrs family ss port_name svc_port)
        (family_addrs_complete ss slice port ep addr l f e m u n)

  family_addrs_iff :
      (ss : List EndpointSlice) (a : Text)
      → Has a (family_addrs family ss port_name svc_port) ↔ IsServed family ss port_name svc_port a
  family_addrs_iff ss a = (
    family_addrs_sound ss a,
    λ v. rw v.joined (
        family_addrs_complete ss v.slice v.port v.endpoint v.addr v.listed v.right_family v.at
          v.member v.usable v.address),
  )

-- The family that is rendered: IPv4 where any usable IPv4 endpoint has an address, else IPv6.
abbrev pub rendered_family : List EndpointSlice → Text → ℕ → AddressType
rendered_family slices port_name svc_port =
    if is_nil (family_addrs ipv4 slices port_name svc_port) then ipv6 else ipv4

-- A server address is in the list exactly when it joins an address of a usable endpoint of a slice
-- of the rendered family with that slice's port.
pub slice_endpoint_addrs_iff :
    (slices : List EndpointSlice) (port_name : Text) (svc_port : ℕ) (a : Text)
    → Has a (slice_endpoint_addrs slices port_name svc_port)
      ↔ IsServed (rendered_family slices port_name svc_port) slices port_name svc_port a
unfolding slice_endpoint_addrs
slice_endpoint_addrs_iff slices port_name svc_port a =
    elim (Bool-cases (is_nil (family_addrs ipv4 slices port_name svc_port))) [
      | inl e ↦ rw e (through ipv6)
      | inr e ↦ rw e (through ipv4)
    ]
  where
    through :
        (family : AddressType)
        → Has a (sort (family_addrs family slices port_name svc_port))
          ↔ IsServed family slices port_name svc_port a
    through family =
        let (to, from) = family_addrs_iff family port_name svc_port slices a in
        (λ h. to (Has-sort a _ h), λ v. sort-Has a _ (from v))

-- What a lookup that may fail returns is not empty.
pub record IsNeverEmpty {ℓ} {A : Type ℓ} (o : Option (List A)) : Type ℓ where
  pub at : (xs : List A) → o ≡ some xs → is_nil xs ≡ false

IsNeverEmpty-bind {ℓ κ} :
    {A : Type ℓ} {B : Type κ} (m : Option A) (f : A → Option (List B))
    → ((a : A) → IsNeverEmpty (f a))
    → IsNeverEmpty (m >>= f)
IsNeverEmpty-bind none f h = record { at = λ xs e. cc }
IsNeverEmpty-bind (some a) f h = h a

some_nonempty-IsNeverEmpty : (xs : List Text) → IsNeverEmpty (some_nonempty xs)
some_nonempty-IsNeverEmpty [] = record { at = λ ys e. cc }
some_nonempty-IsNeverEmpty (x ∷ xs) = record { at = λ ys e. ground arith }

fallback_servers-IsNeverEmpty : (o : Option Text) → IsNeverEmpty (fallback_servers o)
fallback_servers-IsNeverEmpty none = record { at = λ ys e. cc }
fallback_servers-IsNeverEmpty (some a) = record { at = λ ys e. ground arith }

endpoint_servers-IsNeverEmpty :
    (o : Option (List Text)) (addr : Option Text)
    → IsNeverEmpty o
    → IsNeverEmpty (endpoint_servers o addr)
endpoint_servers-IsNeverEmpty none addr h = fallback_servers-IsNeverEmpty addr
endpoint_servers-IsNeverEmpty (some []) addr h = record {
  at = λ xs e. absurd (ground (arith, h.at [] refl));
}
endpoint_servers-IsNeverEmpty (some (a ∷ addrs)) addr h = record { at = λ xs e. ground arith }

module _ (api : Api) (r : Resolution) (ns : Text) where
  endpoint_addrs-IsNeverEmpty : (b : ServiceBackend) → IsNeverEmpty (endpoint_addrs api r ns b)
  unfolding endpoint_addrs
  endpoint_addrs-IsNeverEmpty b = search (IsNeverEmpty-bind, some_nonempty-IsNeverEmpty)

  pub backend_servers-IsNeverEmpty :
      (b : IngressBackend) → IsNeverEmpty (backend_servers api r ns b)
  unfolding backend_servers
  backend_servers-IsNeverEmpty b = elim (Option-cases b.service) [
    | inl e ↦ rw (e, backend_servers) (fallback_servers-IsNeverEmpty _)
    | inr (s, e) ↦ elim (Bool-cases r.resolve_backend_endpoints) [
      | inl on ↦ rw (e, on) (endpoint_servers-IsNeverEmpty _ _ (endpoint_addrs-IsNeverEmpty s))
      | inr off ↦ rw (e, off) (fallback_servers-IsNeverEmpty _)
    ]
  ]

  -- `backendServers` never succeeds with an empty server list.
  pub backend_servers-nonempty :
      (b : IngressBackend) (servers : List Backend)
      → backend_servers api r ns b ≡ some servers
      → is_nil servers ≡ false
  backend_servers-nonempty b = (backend_servers-IsNeverEmpty b).at
