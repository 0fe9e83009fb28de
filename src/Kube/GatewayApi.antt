-- ===== src/Kube/GatewayApi.antt =====
-- The objects of the Gateway API, cut to the fields that the controllers read. Weights and ports,
-- which the API's schema keeps from being negative, are natural numbers.
use moat_operator.Base.{ℕ, Option, List, Text, Map}

pub record GatewayClass : Type 0 where
  pub name : Text
  pub controller_name : Text

pub data TlsMode : Type 0 where
  terminate tls_passthrough : TlsMode

pub record CertificateRef : Type 0 where
  pub kind : Option Text
  pub namespace : Option Text
  pub name : Text

pub record ListenerTls : Type 0 where
  pub mode : Option TlsMode
  pub certificate_refs : List CertificateRef

pub record Listener : Type 0 where
  pub hostname : Option Text
  pub tls : Option ListenerTls

pub record Gateway : Type 0 where
  pub namespace : Text
  pub name : Text
  pub class_name : Text
  pub listeners : List Listener

pub record ParentReference : Type 0 where
  pub kind : Option Text
  pub namespace : Option Text
  pub name : Text

pub data PathMatchType : Type 0 where
  exact_path path_prefix regular_expression : PathMatchType

pub record HttpPathMatch : Type 0 where
  pub type : Option PathMatchType
  pub value : Option Text

pub record HttpRouteMatch : Type 0 where
  pub path : Option HttpPathMatch
  pub headers : List Text
  pub method : Option Text
  pub query_params : List Text

pub record HttpHeader : Type 0 where
  pub name : Text
  pub value : Text

pub record HttpHeaderFilter : Type 0 where
  pub set : List HttpHeader
  pub add : List HttpHeader

-- A filter by its type; a nil modifier is `none`.
pub data HttpRouteFilter : Type 0 where
  request_header_modifier : (modifier : Option HttpHeaderFilter) → HttpRouteFilter
  response_header_modifier : (modifier : Option HttpHeaderFilter) → HttpRouteFilter
  other_filter : HttpRouteFilter

pub record HttpBackendRef : Type 0 where
  pub kind : Option Text
  pub namespace : Option Text
  pub name : Text
  pub port : Option ℕ
  pub weight : Option ℕ

pub record HttpRouteRule : Type 0 where
  pub matches : List HttpRouteMatch
  pub filters : List HttpRouteFilter
  pub backend_refs : List HttpBackendRef

pub record HttpRoute : Type 0 where
  pub namespace : Text
  pub name : Text
  pub annotations : Map Text
  pub parent_refs : List ParentReference
  pub hostnames : List Text
  pub rules : List HttpRouteRule

-- The lists that the client returns; `none` is an error.
pub record GatewayApi : Type 0 where
  pub list_classes : Option (List GatewayClass)
  pub list_gateways : Option (List Gateway)
  pub list_routes : Option (List HttpRoute)
