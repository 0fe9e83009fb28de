-- ===== src/Routes.antt =====
-- controllers/routes.go: the data that one render pass builds. A pointer that may be nil is an
-- `Option`; a Go map is an association list; a nil slice or map is the empty list.
pub mod Parse
pub mod Annotations
pub mod Model
pub mod Quote
pub mod Render
use moat_operator.Base.{ℕ, Bool, Option, List, Text, Map, codes}

abbrev pub ann_prefix : Text
ann_prefix = codes "synapse.gen0sec.com/"

abbrev pub nginx_prefix : Text
nginx_prefix = codes "nginx.ingress.kubernetes.io/"

-- Weight 0 is unweighted.
pub record Backend : Type 0 where
  pub addr : Text
  pub weight : ℕ

pub record RouteCfg : Type 0 where
  pub servers : List Backend
  pub ssl : Option Bool
  pub http2 : Option Bool
  pub force_https : Option Bool
  pub healthcheck : Option Bool
  pub disable_access_log : Option Bool
  pub connect_timeout : Option ℕ
  pub read_timeout : Option ℕ
  pub write_timeout : Option ℕ
  pub idle_timeout : Option ℕ
  pub max_body_size : Option ℕ
  pub req_headers : List Text
  pub resp_headers : List Text
  pub redirect_status : Option ℕ
  pub redirect_location : Text
  pub match_expr : Text

pub record AnnSettings : Type 0 where
  pub ssl : Option Bool
  pub http2 : Option Bool
  pub force_https : Option Bool
  pub healthcheck : Option Bool
  pub disable_access_log : Option Bool
  pub connect_timeout : Option ℕ
  pub read_timeout : Option ℕ
  pub write_timeout : Option ℕ
  pub idle_timeout : Option ℕ
  pub max_body_size : Option ℕ
  pub req_headers : List Text
  pub resp_headers : List Text
  pub server_aliases : List Text
  pub passthrough : Bool
  pub redirect_status : Option ℕ
  pub redirect_location : Text
  pub sticky : Bool
  pub use_regex : Bool

pub record CertProjection : Type 0 where
  pub stem : Text
  pub ns : Text
  pub name : Text

abbrev pub Paths : Type 0
Paths = Map RouteCfg

pub record RenderModel : Type 0 where
  pub hosts : Map Paths
  pub acme : Text
  pub host_cert : Map Text
  pub cert_projections : Map CertProjection
  pub passthrough_hosts : Map Text
  pub sticky : Bool
