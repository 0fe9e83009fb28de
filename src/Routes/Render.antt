-- ===== src/Routes/Render.antt =====
-- controllers/routes.go: `renderUpstreams`, the v1 schema. The document is the text that the
-- builder holds at the end; keys are sorted, and a missing key reads as Go's zero value.
pub mod V2
pub mod Order
use moat_operator.Base.{
  ℕ, Bool, true, false, ◌&&◌, ◌||◌, Option, none, some, List, [], ◌∷◌, ◌++◌, Text, codes, Map,
  lookup, keys, sort, ltb, if◌then◌else◌, is_nil, option_or,
}
use moat_operator.Routes.{Backend, RouteCfg, Paths, RenderModel}
use moat_operator.Routes.Quote.{decimal, quote}

-- Successive writes to the builder.
abbrev pub written : List Text → Text
written [] = []
written (s ∷ ss) = s ++ written ss

unfoldable pub each {ℓ} : {A : Type ℓ} → (A → Text) → List A → Text
each f [] = []
each f (x ∷ xs) = f x ++ each f xs

-- `if p != nil { … }` and `if s != "" { … }`
abbrev pub if_set {ℓ} : {A : Type ℓ} → Option A → (A → Text) → Text
if_set none f = []
if_set (some a) f = f a

abbrev pub if_text : Text → (Text → Text) → Text
if_text [] f = []
if_text (c ∷ s) f = f (c ∷ s)

-- %t
abbrev pub bool_text : Bool → Text
bool_text true = codes "true"
bool_text false = codes "false"

abbrev pub generated_header : Text
generated_header = codes "# Generated by synapse-operator ingress controller. Do not edit.\n"

abbrev pub bool_line : Text → Bool → Text
bool_line key b = key ++ bool_text b ++ codes "\n"

abbrev pub uint_line : Text → ℕ → Text
uint_line key n = key ++ decimal n ++ codes "\n"

module _ (is_print : ℕ → Bool) where
  abbrev pub quote_line : Text → Text → Text
  quote_line key s = key ++ quote is_print s ++ codes "\n"

  -- `if rc.redirectStatus != nil && rc.redirectLocation != ""`
  unfoldable pub redirect_block : RouteCfg → Text
  redirect_block rc = if_set rc.redirect_status λ status. if_text rc.redirect_location λ location.
      uint_line (codes "        redirect:\n          status: ") status
      ++ quote_line (codes "          location: ") location

  unfoldable pub server_line : Text → Backend → Text
  server_line field sv =
      if ltb 0 sv.weight
      then codes "          - { "
        ++ field
        ++ quote is_print sv.addr
        ++ codes ", weight: "
        ++ decimal sv.weight
        ++ codes " }\n"
      else quote_line (codes "          - ") sv.addr

  unfoldable pub write_header_list : Text → List Text → Text
  write_header_list key hs =
      if is_nil hs
      then []
      else codes "        " ++ key ++ codes ":\n" ++ each (quote_line (codes "          - ")) hs

  -- One route of the v1 schema.
  unfoldable pub route_block : Text → RouteCfg → Text
  unfolding server_line redirect_block write_header_list
  route_block p rc = written (
      (codes "      " ++ quote is_print p ++ codes ":\n        servers:\n")
      ∷ each (server_line (codes "address: ")) rc.servers
      ∷ if_text rc.match_expr (quote_line (codes "        match_expr: "))
      ∷ bool_line (codes "        ssl_enabled: ") (option_or rc.ssl false)
      ∷ if_set rc.http2 (bool_line (codes "        http2_enabled: "))
      ∷ if_set rc.force_https (bool_line (codes "        https_proxy_enabled: "))
      ∷ if_set rc.healthcheck (bool_line (codes "        healthcheck: "))
      ∷ if_set rc.disable_access_log (bool_line (codes "        disable_access_log: "))
      ∷ if_set rc.connect_timeout (uint_line (codes "        connection_timeout: "))
      ∷ if_set rc.read_timeout (uint_line (codes "        read_timeout: "))
      ∷ if_set rc.write_timeout (uint_line (codes "        write_timeout: "))
      ∷ if_set rc.idle_timeout (uint_line (codes "        idle_timeout: "))
      ∷ if_set rc.max_body_size (uint_line (codes "        max_body_size: "))
      ∷ redirect_block rc
      ∷ write_header_list (codes "request_headers") rc.req_headers
      ∷ write_header_list (codes "response_headers") rc.resp_headers
      ∷ [])

  -- The loop over the sorted path keys.
  unfoldable pub route_blocks : (Text → Option RouteCfg) → List Text → Text
  unfolding route_block
  route_blocks paths = each λ p. if_set (paths p) (route_block p)

  unfoldable pub host_block : RenderModel → Text → Text
  unfolding route_blocks
  host_block m h =
      let paths = option_or (lookup h m.hosts) [] in
      written (
        (codes "  " ++ quote is_print h ++ codes ":\n")
        ∷ if_text (option_or (lookup h m.host_cert) []) (quote_line (codes "    certificate: "))
        ∷ codes "    paths:\n"
        ∷ route_blocks (λ p. lookup p paths) (sort (keys paths))
        ∷ [])

  unfoldable pub render_upstreams : RenderModel → Text
  unfolding host_block
  render_upstreams m = written (
      generated_header
      ∷ if_text m.acme (λ acme.
        quote_line
          (codes "internal_paths:\n  \"/.well-known/acme-challenge/*\":\n    servers:\n      - ")
          acme
        ++ codes "    ssl_enabled: false\n")
      ∷ (if m.sticky then codes "sticky_sessions: true\n" else [])
      ∷ codes "upstreams:\n"
      ∷ each (host_block m) (sort (keys m.hosts))
      ∷ [])
