-- ===== src/Endpoints.antt =====
-- controllers/endpoints.go, and `backendAddr` of controllers/ingress_controller.go: from a backend
-- of an Ingress to the servers of its route. Ports are numbers (the API server admits 1 to 65535).
pub mod Order
pub mod Sound
use moat_operator.Base.{
  ℕ, Bool, true, false, not, ◌&&◌, ◌||◌, Option, none, some, List, [], ◌∷◌, ◌++◌, map, Text, codes,
  ◌==◌, eqb, if◌then◌else◌, is_nil, option_or, contains_char, sort, ◌>>=◌, ◌>>◌, guard,
}
use moat_operator.Kube.{
  NamespacedName, Service, ServicePort, external_name, AddressType, ipv4, ipv6, fqdn, Endpoint,
  EndpointPort, EndpointSlice, ServiceBackend, IngressBackend, Api,
}
use moat_operator.Routes.{Backend}
use moat_operator.Routes.Quote.{decimal}

-- The options of `IngressReconciler` that backend resolution reads.
pub record Resolution : Type 0 where
  pub cluster_domain : Text
  pub resolve_backend_cluster_ips : Bool
  pub resolve_backend_endpoints : Bool

unfoldable pub service_port_name : List ServicePort → Text → ℕ → Option (Text × ℕ)
service_port_name [] port_name port_number = none
service_port_name (sp ∷ sps) port_name port_number =
    if not (is_nil port_name) && (sp.name == port_name)
    then some (sp.name, sp.port)
    else if is_nil port_name && not (eqb port_number 0) && eqb sp.port port_number
    then some (sp.name, sp.port)
    else service_port_name sps port_name port_number

unfoldable pub endpoint_usable : Endpoint → Bool
endpoint_usable ep = option_or ep.ready true && not (option_or ep.terminating false)

-- `net.JoinHostPort`
unfoldable pub join_host_port : Text → ℕ → Text
join_host_port host port =
    if contains_char b':' host
    then codes "[" ++ host ++ codes "]:" ++ decimal port
    else host ++ codes ":" ++ decimal port

-- The loop over the ports of one slice.
unfoldable pub matched_port : List EndpointPort → Text → ℕ → Option ℕ
matched_port [] port_name svc_port = none
matched_port (p ∷ ps) port_name svc_port =
    if option_or p.name [] == port_name
    then some (option_or p.port svc_port)
    else matched_port ps port_name svc_port

-- The port of a slice; `none` skips the slice.
unfoldable pub slice_port : EndpointSlice → Text → ℕ → Option ℕ
unfolding matched_port
slice_port slice port_name svc_port =
    elim (if is_nil slice.ports
      then some svc_port
      else matched_port slice.ports port_name svc_port) [
        | none ↦ none
        | some port ↦ if eqb port 0 then none else some port
      ]

unfoldable pub endpoint_addrs_at : List Endpoint → ℕ → List Text
unfolding endpoint_usable join_host_port
endpoint_addrs_at [] port = []
endpoint_addrs_at (ep ∷ eps) port =
    (if endpoint_usable ep then map (λ addr. join_host_port addr port) ep.addresses else [])
    ++ endpoint_addrs_at eps port

-- What one slice of the wanted family contributes.
abbrev pub addrs_at_port : Option ℕ → List Endpoint → List Text
addrs_at_port none eps = []
addrs_at_port (some port) eps = endpoint_addrs_at eps port

abbrev pub is_family : AddressType → AddressType → Bool
is_family ipv4 ipv4 = true
is_family ipv6 ipv6 = true
is_family _ _ = false

-- The addresses of one family, `v4` or `v6`, over all slices.
unfoldable pub family_addrs : AddressType → List EndpointSlice → Text → ℕ → List Text
unfolding slice_port endpoint_addrs_at
family_addrs family [] port_name svc_port = []
family_addrs family (slice ∷ slices) port_name svc_port =
    (if is_family family slice.address_type
      then addrs_at_port (slice_port slice port_name svc_port) slice.endpoints
      else [])
    ++ family_addrs family slices port_name svc_port

unfoldable pub slice_endpoint_addrs : List EndpointSlice → Text → ℕ → List Text
unfolding family_addrs
slice_endpoint_addrs slices port_name svc_port =
    let v4 = family_addrs ipv4 slices port_name svc_port in
    sort (if is_nil v4 then family_addrs ipv6 slices port_name svc_port else v4)

abbrev pub some_nonempty : List Text → Option (List Text)
some_nonempty [] = none
some_nonempty (a ∷ addrs) = some (a ∷ addrs)

abbrev pub is_external_name : Service → Bool
is_external_name svc = elim svc.type [ external_name ↦ true | _ ↦ false ]

-- The port that a Service gives a name.
unfoldable pub port_named : List ServicePort → Text → Option ℕ
port_named [] name = none
port_named (sp ∷ sps) name = if sp.name == name then some sp.port else port_named sps name

abbrev pub at_port : Text → ℕ → Text
at_port host port = host ++ codes ":" ++ decimal port

abbrev pub unweighted : Text → Backend
unweighted addr = record { addr = addr; weight = 0 }

abbrev pub fallback_servers : Option Text → Option (List Backend)
fallback_servers none = none
fallback_servers (some addr) = some (unweighted addr ∷ [])

abbrev pub endpoint_servers : Option (List Text) → Option Text → Option (List Backend)
endpoint_servers none addr = fallback_servers addr
endpoint_servers (some addrs) addr = some (map unweighted addrs)

module _ (api : Api) (r : Resolution) (ns : Text) where
  unfoldable pub endpoint_addrs : ServiceBackend → Option (List Text)
  unfolding slice_endpoint_addrs service_port_name
  endpoint_addrs b = do
    svc ← api.get_service (record { namespace = ns; name = b.name })
    guard (not (is_external_name svc))
    port ← service_port_name svc.ports b.port_name b.port_number
    slices ← api.list_slices ns b.name
    some_nonempty (slice_endpoint_addrs slices port.0 port.1)

  abbrev pub domain : Text
  domain = if is_nil r.cluster_domain then codes "cluster.local" else r.cluster_domain

  unfoldable pub service_fqdn : ServiceBackend → Text
  service_fqdn b = b.name ++ codes "." ++ ns ++ codes ".svc." ++ domain

  -- The host part: the Service's ClusterIP where it is wanted and there, else the FQDN.
  unfoldable pub backend_host : Service → ServiceBackend → Text
  unfolding service_fqdn
  backend_host svc b =
      if r.resolve_backend_cluster_ips
        && not (is_nil svc.cluster_ip)
        && not (svc.cluster_ip == codes "None")
      then svc.cluster_ip
      else service_fqdn b

  -- The address behind the lookup.
  unfoldable pub addressed : Service → ServiceBackend → Option Text
  unfolding backend_host port_named
  addressed svc b =
      if not (eqb b.port_number 0)
      then some (at_port (backend_host svc b) b.port_number)
      else if not (is_nil b.port_name)
      then elim (port_named svc.ports b.port_name) [
        | none ↦ none
        | some port ↦ some (at_port (backend_host svc b) port)
      ]
      else none

  -- Where the lookup fails: a port number can still be paired with the FQDN.
  unfoldable pub unlooked : ServiceBackend → Option Text
  unfolding service_fqdn
  unlooked b =
      if not (eqb b.port_number 0) then some (at_port (service_fqdn b) b.port_number) else none

  abbrev pub looked_up : Option Service → ServiceBackend → Option Text
  looked_up none b = unlooked b
  looked_up (some svc) b = addressed svc b

  unfoldable pub service_addr : ServiceBackend → Option Text
  unfolding addressed unlooked
  service_addr b =
      if not (is_nil b.port_name) || r.resolve_backend_cluster_ips
      then looked_up (api.get_service (record { namespace = ns; name = b.name })) b
      else unlooked b

  unfoldable pub backend_addr : IngressBackend → Option Text
  unfolding service_addr
  backend_addr b = elim b.service [ none ↦ none | some s ↦ service_addr s ]

  -- Ready endpoints first, else the address of the Service.
  unfoldable pub backend_servers : IngressBackend → Option (List Backend)
  unfolding endpoint_addrs backend_addr
  backend_servers b = elim b.service [
    | none ↦ fallback_servers (backend_addr b)
    | some s ↦
        if r.resolve_backend_endpoints
        then endpoint_servers (endpoint_addrs s) (backend_addr b)
        else fallback_servers (backend_addr b)
  ]
