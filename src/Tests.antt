-- ===== src/Tests.antt =====
-- Concrete objects, and the theorems of the library applied to them.
pub mod Models
pub mod Servers
pub mod Texts
pub mod Files
pub mod Owners
pub mod Rollouts
pub mod Policies
pub mod Certificates
pub mod Networks
use moat_operator.Base.{
  ℕ, Bool, true, false, ◌&&◌, Option, none, some, List, [], ◌∷◌, Text, codes, Map, leb, ◌==◌,
  if◌then◌else◌,
}
use moat_operator.Kube.{
  NamespacedName, Service, ServicePort, cluster_ip, ipv4, ipv6, Endpoint, EndpointPort,
  EndpointSlice, ServiceBackend, IngressBackend, prefix, HttpIngressPath, IngressRule, IngressTls,
  Ingress, IngressClass, Api,
}
use moat_operator.Kube.GatewayApi.{
  GatewayClass, Gateway, HttpRouteRule, HttpRoute, HttpBackendRef, ParentReference, GatewayApi,
}
use moat_operator.Endpoints.{Resolution}
use moat_operator.Ingress.{Options, controller_name}

abbrev pub is_ascii_print : ℕ → Bool
is_ascii_print c = leb 32 c && leb c 126

abbrev pub web : Service
web = record {
  namespace = codes "shop";
  name = codes "web";
  type = cluster_ip;
  cluster_ip = codes "10.0.0.1";
  selector = (codes "app", codes "web") ∷ [];
  ports = record { name = codes "http"; port = 80 } ∷ [];
}

abbrev pub ready_endpoint : Endpoint
ready_endpoint = record { addresses = codes "10.1.0.5" ∷ []; ready = some true; terminating = none }

abbrev pub leaving_endpoint : Endpoint
leaving_endpoint = record {
  addresses = codes "10.1.0.6" ∷ [];
  ready = some true;
  terminating = some true;
}

abbrev pub web_slice : EndpointSlice
web_slice = record {
  address_type = ipv4;
  ports = record { name = some (codes "http"); port = some 8080 } ∷ [];
  endpoints = ready_endpoint ∷ leaving_endpoint ∷ [];
}

abbrev pub other_slice : EndpointSlice
other_slice = record {
  address_type = ipv4;
  ports = record { name = some (codes "http"); port = some 8080 } ∷ [];
  endpoints = record { addresses = codes "10.1.0.4" ∷ []; ready = none; terminating = none } ∷ [];
}

unfoldable pub find_service : NamespacedName → Option Service
find_service key = if key.name == codes "web" then some web else none

abbrev pub api : Api
api = record {
  get_service = find_service;
  list_slices = λ ns name. some (web_slice ∷ []);
  list_ingress_classes = some [];
}

abbrev pub resolution : Resolution
resolution = record {
  cluster_domain = [];
  resolve_backend_cluster_ips = true;
  resolve_backend_endpoints = true;
}

abbrev pub options : Options
options = record { ingress_class_name = codes "synapse"; resolution = resolution }

abbrev pub web_backend : IngressBackend
web_backend = record {
  service = some (record { name = codes "web"; port_name = []; port_number = 80 });
}

abbrev pub shop : Text → Ingress
shop name = record {
  namespace = codes "shop";
  name = name;
  annotations = [];
  ingress_class_name = some (codes "synapse");
  default_backend = none;
  tls = record { hosts = codes "shop.example" ∷ []; secret_name = codes "shop-tls" } ∷ [];
  rules =
      record {
        host = codes "shop.example";
        http =
            some (record { path = codes "/"; path_type = some prefix; backend = web_backend } ∷ []);
      }
      ∷ [];
}

abbrev pub web_ref : HttpBackendRef
web_ref = record {
  kind = none;
  namespace = none;
  name = codes "web";
  port = some 80;
  weight = some 3;
}

abbrev pub web_rule : HttpRouteRule
web_rule = record { matches = []; filters = []; backend_refs = web_ref ∷ [] }

abbrev pub web_route : HttpRoute
web_route = record {
  namespace = codes "shop";
  name = codes "web";
  annotations = [];
  parent_refs = record { kind = none; namespace = none; name = codes "edge" } ∷ [];
  hostnames = codes "shop.example" ∷ codes "www.example" ∷ [];
  rules = web_rule ∷ [];
}

abbrev pub gateways : GatewayApi
gateways = record {
  list_classes = some (record { name = codes "synapse"; controller_name = controller_name } ∷ []);
  list_gateways = some (
      record {
        namespace = codes "shop";
        name = codes "edge";
        class_name = codes "synapse";
        listeners = [];
      }
      ∷ []);
  list_routes = some (web_route ∷ []);
}
