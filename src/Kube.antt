-- ===== src/Kube.antt =====
-- The Kubernetes objects, cut to the fields that the controllers read, and the reads of the API
-- server. Nil slices and maps are empty lists, and a pointer that may be nil is an `Option`.
pub mod GatewayApi
pub mod Pods
pub mod Policies
pub mod Workloads
use moat_operator.Base.{ℕ, Bool, Option, List, Text, Map}

-- types.NamespacedName
pub record NamespacedName : Type 0 where
  pub namespace : Text
  pub name : Text

pub data ServiceType : Type 0 where
  cluster_ip node_port load_balancer external_name : ServiceType

pub record ServicePort : Type 0 where
  pub name : Text
  pub port : ℕ

pub record Service : Type 0 where
  pub namespace : Text
  pub name : Text
  pub type : ServiceType
  pub cluster_ip : Text
  pub selector : Map Text
  pub ports : List ServicePort

pub data AddressType : Type 0 where
  ipv4 ipv6 fqdn : AddressType

pub record Endpoint : Type 0 where
  pub addresses : List Text
  pub ready : Option Bool
  pub terminating : Option Bool

pub record EndpointPort : Type 0 where
  pub name : Option Text
  pub port : Option ℕ

pub record EndpointSlice : Type 0 where
  pub address_type : AddressType
  pub ports : List EndpointPort
  pub endpoints : List Endpoint

-- A port given by name or by number; 0 and "" are unset.
pub record ServiceBackend : Type 0 where
  pub name : Text
  pub port_name : Text
  pub port_number : ℕ

pub record IngressBackend : Type 0 where
  pub service : Option ServiceBackend

pub data PathType : Type 0 where
  exact prefix implementation_specific : PathType

pub record HttpIngressPath : Type 0 where
  pub path : Text
  pub path_type : Option PathType
  pub backend : IngressBackend

pub record IngressRule : Type 0 where
  pub host : Text
  pub http : Option (List HttpIngressPath)

pub record IngressTls : Type 0 where
  pub hosts : List Text
  pub secret_name : Text

pub record Ingress : Type 0 where
  pub namespace : Text
  pub name : Text
  pub annotations : Map Text
  pub ingress_class_name : Option Text
  pub default_backend : Option IngressBackend
  pub tls : List IngressTls
  pub rules : List IngressRule

pub record IngressClass : Type 0 where
  pub controller : Text
  pub annotations : Map Text

-- Reads through the client; `none` is an error of any kind.
pub record Api : Type 0 where
  pub get_service : NamespacedName → Option Service
  pub list_slices : Text → Text → Option (List EndpointSlice)
  pub list_ingress_classes : Option (List IngressClass)
