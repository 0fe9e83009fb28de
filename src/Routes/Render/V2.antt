-- ===== src/Routes/Render/V2.antt =====
-- controllers/routes.go: `renderUpstreamsV2` and `writeRouteV2`.
use moat_operator.Base.{
  ℕ, Bool, false, ◌&&◌, ◌||◌, Option, none, some, List, [], ◌∷◌, ◌++◌, Text, codes, lookup, keys,
  sort, eqb, if◌then◌else◌, is_nil, option_or, is_some,
}
use moat_operator.Routes.{Backend, RouteCfg, Paths, RenderModel}
use moat_operator.Routes.Quote.{quote}
use moat_operator.Routes.Render.{
  written, each, if_set, if_text, generated_header, bool_line, uint_line, quote_line,
  redirect_block, server_line,
}

abbrev timeouts_set : RouteCfg → Bool
timeouts_set rc =
    is_some rc.connect_timeout
    || is_some rc.read_timeout
    || is_some rc.write_timeout
    || is_some rc.idle_timeout

module _ (is_print : ℕ → Bool) where
  -- `len(rc.servers) == 1 && rc.servers[0].weight == 0`, or the list form.
  unfoldable pub upstreams_v2 : List Backend → Text
  upstreams_v2 [] = codes "        upstreams:\n"
  upstreams_v2 (sv ∷ []) =
      if eqb sv.weight 0
      then quote_line is_print (codes "        upstream: ") sv.addr
      else codes "        upstreams:\n" ++ server_line is_print (codes "addr: ") sv
  upstreams_v2 (sv ∷ tv ∷ svs) =
      codes "        upstreams:\n" ++ each (server_line is_print (codes "addr: ")) (sv ∷ tv ∷ svs)

  unfoldable pub timeouts_v2 : RouteCfg → Text
  timeouts_v2 rc =
      if timeouts_set rc
      then written (
          codes "        timeouts:\n"
          ∷ if_set rc.connect_timeout (uint_line (codes "          connect: "))
          ∷ if_set rc.read_timeout (uint_line (codes "          read: "))
          ∷ if_set rc.write_timeout (uint_line (codes "          write: "))
          ∷ if_set rc.idle_timeout (uint_line (codes "          idle: "))
          ∷ [])
      else []

  unfoldable pub header_group_v2 : Text → List Text → Text
  header_group_v2 title hs =
      if is_nil hs then [] else title ++ each (quote_line is_print (codes "            - ")) hs

  unfoldable pub headers_v2 : RouteCfg → Text
  unfolding header_group_v2
  headers_v2 rc =
      if is_nil rc.req_headers && is_nil rc.resp_headers
      then []
      else codes "        headers:\n"
        ++ header_group_v2 (codes "          request:\n") rc.req_headers
        ++ header_group_v2 (codes "          response:\n") rc.resp_headers

  unfoldable pub write_route_v2 : RouteCfg → Text
  unfolding upstreams_v2 timeouts_v2 headers_v2
  write_route_v2 rc = written (
      upstreams_v2 rc.servers
      ∷ if_text rc.match_expr (quote_line is_print (codes "        match_expr: "))
      ∷ if_set rc.ssl (bool_line (codes "        ssl_enabled: "))
      ∷ if_set rc.http2 (bool_line (codes "        http2_enabled: "))
      ∷ (if option_or rc.force_https false then codes "        force_https: true\n" else [])
      ∷ (if option_or rc.healthcheck false
          then codes "        health_check:\n          type: tcp\n"
          else [])
      ∷ if_set rc.disable_access_log (bool_line (codes "        disable_access_log: "))
      ∷ if_set rc.max_body_size (uint_line (codes "        max_body_size: "))
      ∷ redirect_block is_print rc
      ∷ timeouts_v2 rc
      ∷ headers_v2 rc
      ∷ [])

  -- The loop over the sorted path keys.
  unfoldable pub route_blocks_v2 : (Text → Option RouteCfg) → List Text → Text
  unfolding write_route_v2
  route_blocks_v2 paths =
      each λ p. codes "      " ++ quote is_print p ++ codes ":\n" ++ if_set (paths p) write_route_v2

  unfoldable pub terminate_block : Text → Paths → Text
  unfolding route_blocks_v2
  terminate_block stem paths = written (
      codes "    tls:\n      terminate:\n"
      ∷ if_text stem (quote_line is_print (codes "        cert: "))
      ∷ codes "    paths:\n"
      ∷ route_blocks_v2 (λ p. lookup p paths) (sort (keys paths))
      ∷ [])

  -- The body of a host: a passthrough target, or the routes that the host terminates.
  abbrev pub host_body_v2 : Option Text → Text → Text
  host_body_v2 (some upstream) terminated =
      codes "    tls:\n      passthrough: true\n"
      ++ quote_line is_print (codes "    upstream: ") upstream
  host_body_v2 none terminated = terminated

  unfoldable pub host_block_v2 : RenderModel → Text → Text
  unfolding terminate_block
  host_block_v2 m h =
      codes "  "
      ++ quote is_print h
      ++ codes ":\n"
      ++ host_body_v2 (lookup h m.passthrough_hosts)
          (terminate_block (option_or (lookup h m.host_cert) []) (option_or (lookup h m.hosts) []))

  unfoldable pub render_upstreams_v2 : RenderModel → Text
  unfolding host_block_v2
  render_upstreams_v2 m =
      let host_keys = sort (keys m.hosts ++ keys m.passthrough_hosts) in
      written (
        generated_header
        ∷ codes "version: 2\n"
        ∷ (if m.sticky then codes "proxy:\n  sticky_sessions:\n    enabled: true\n" else [])
        ∷ if_text m.acme (
            quote_line is_print
              (codes "internal:\n  - path: \"/.well-known/acme-challenge/*\"\n    upstream: "))
        ∷ (if is_nil host_keys then [] else codes "hosts:\n" ++ each (host_block_v2 m) host_keys)
        ∷ [])
