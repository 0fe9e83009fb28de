-- ===== src/Tests/Servers.antt =====
-- Servers of a route, by the Ingress, the Gateway API and the resolver.
use moat_operator.Base.{
  map, length, not, Bool, true, false, none, some, List, [], ◌∷◌, ◌++◌, Text, codes, Has, ◌==◌,
  if◌then◌else◌, is_nil, ◌≡◌, ◌↔◌, refl, Permᴰ, contains_char, arith, ap, sym, subst, trim_prefix,
  option_or, sort,
}
use moat_operator.Kube.{NamespacedName, Service}
use moat_operator.Kube.GatewayApi.{HttpBackendRef}
use moat_operator.Routes.{Backend}
use moat_operator.Routes.Quote.{decimal}
use moat_operator.Endpoints.{slice_endpoint_addrs, backend_servers}
use moat_operator.Endpoints.Order.{slice_endpoint_addrs-order}
use moat_operator.Endpoints.Sound.{
  IsServed, rendered_family, slice_endpoint_addrs_iff, backend_servers-nonempty,
}
use moat_operator.Gateways.{any_weight, rule_backends}
use moat_operator.Gateways.Rules.{IsPooled, rule_backends_iff}
use moat_operator.Resolver.{
  trim_suffix, rewrite_server, parse_cluster_fqdn, is_ip_literal, unbracketed,
}
use moat_operator.Resolver.Rewrite.{HasLiteralIp, rewrite_server-idempotent}
use moat_operator.Resolver.Fqdn.{cluster_suffix, parse_cluster_fqdn_iff}
use moat_operator.Resolver.Document.{
  Fields, no_fields, more_fields, table, seq, str, more_values, no_values, resolve_hosts,
  no_summary,
}
use moat_operator.Resolver.Document.Counts.{resolve_hosts-settles}
use moat_operator.Resolver.Document.Servers.{servers_in, as_rewritten, is_resolved, count_if}
use moat_operator.Tests.{
  web, api, resolution, web_slice, other_slice, web_backend, web_rule, find_service,
}

slice_endpoint_addrs_iff_example :
    Has
      (codes "10.1.0.5:8080")
      (slice_endpoint_addrs (web_slice ∷ other_slice ∷ []) (codes "http") 80)
    ↔ IsServed
        (rendered_family (web_slice ∷ other_slice ∷ []) (codes "http") 80)
        (web_slice ∷ other_slice ∷ [])
        (codes "http")
        80
        (codes "10.1.0.5:8080")
slice_endpoint_addrs_iff_example =
    slice_endpoint_addrs_iff (web_slice ∷ other_slice ∷ []) (codes "http") 80
      (codes "10.1.0.5:8080")

slice_endpoint_addrs-order_example :
    slice_endpoint_addrs (web_slice ∷ other_slice ∷ []) (codes "http") 80
    ≡ slice_endpoint_addrs (other_slice ∷ web_slice ∷ []) (codes "http") 80
slice_endpoint_addrs-order_example =
    slice_endpoint_addrs-order (codes "http") 80 ∣ Permᴰ.swap refl refl ∣₁

abbrev web_servers : List Backend
web_servers = record { addr = codes "10.1.0.5:8080"; weight = 0 } ∷ []

web_backend-servers : backend_servers api resolution (codes "shop") web_backend ≡ some web_servers
unfolding backend_servers find_service ◌==◌ sort contains_char decimal
web_backend-servers = refl

backend_servers-nonempty_example : is_nil web_servers ≡ false
backend_servers-nonempty_example =
    backend_servers-nonempty api resolution (codes "shop") web_backend web_servers
      web_backend-servers

abbrev web_pooled : Backend
web_pooled = record { addr = codes "web.shop.svc.cluster.local:80"; weight = 3 }

rule_backends_iff_example : Has web_pooled (rule_backends [] (codes "shop") web_rule) ↔ (
    (b : HttpBackendRef) × Has b web_rule.backend_refs
    × IsPooled [] (codes "shop") (any_weight web_rule.backend_refs) b web_pooled)
rule_backends_iff_example = rule_backends_iff [] (codes "shop") web_rule web_pooled

abbrev web_key : NamespacedName
web_key = record { namespace = codes "shop"; name = codes "web" }

parse_cluster_fqdn_iff_example :
    (parse_cluster_fqdn [] (codes "web.shop.svc.cluster.local") ≡ some web_key) ↔ (
      (codes "web.shop.svc.cluster.local"
        ≡ (web_key.name ++ b'.' ∷ web_key.namespace) ++ cluster_suffix [])
      × (contains_char b'.' web_key.name ≡ false)
      × (contains_char b'.' web_key.namespace ≡ false))
parse_cluster_fqdn_iff_example =
    parse_cluster_fqdn_iff [] (codes "web.shop.svc.cluster.local") web_key

web_ip-literal : is_ip_literal web.cluster_ip ≡ true
unfolding is_ip_literal contains_char
web_ip-literal = refl

web_ip-unbracketed : unbracketed web.cluster_ip ≡ web.cluster_ip
unfolding trim_suffix trim_prefix ◌==◌
web_ip-unbracketed = refl

if-web : (b : Bool) (svc : Service) → (if b then some web else none) ≡ some svc → svc ≡ web
if-web true svc h = ap (λ o. option_or o web) (sym h)
if-web false svc h = absurd (ground arith)

find_service-web : (key : NamespacedName) (svc : Service) → find_service key ≡ some svc → svc ≡ web
unfolding find_service
find_service-web key svc h = if-web (key.name == codes "web") svc h

find_service-HasLiteralIp : HasLiteralIp find_service
find_service-HasLiteralIp key svc h n m =
    subst
      (λ (s : Service).
        (is_ip_literal s.cluster_ip ≡ true) × (unbracketed s.cluster_ip ≡ s.cluster_ip))
      (sym (find_service-web key svc h)) (web_ip-literal, web_ip-unbracketed)

abbrev web_server : Text
web_server = codes "web.shop.svc.cluster.local:80"

rewrite_server-idempotent_example :
    rewrite_server find_service []
      (codes "shop")
      (rewrite_server find_service [] (codes "shop") web_server).0
    ≡ ((rewrite_server find_service [] (codes "shop") web_server).0, false)
rewrite_server-idempotent_example =
    rewrite_server-idempotent find_service [] (codes "shop") find_service-HasLiteralIp web_server

abbrev external_server : Text
external_server = codes "example.com:443"

abbrev hosts : Fields
hosts =
    more_fields (codes "shop.example")
      (table (
        more_fields (codes "paths")
          (table (
            more_fields (codes "/")
              (table (
                more_fields (codes "servers")
                  (seq (more_values (str web_server) (more_values (str external_server) no_values)))
                  no_fields))
              no_fields))
          no_fields))
      no_fields

abbrev resolve_once : Fields → Fields × moat_operator.Resolver.Document.Summary
resolve_once fs = resolve_hosts find_service [] (codes "shop") fs no_summary

resolve_hosts-settles_example :
    (servers_in (resolve_once hosts).0
      ≡ map (as_rewritten find_service [] (codes "shop")) (servers_in hosts))
    × ((resolve_once hosts).1.total ≡ length (servers_in hosts))
    × ((resolve_once hosts).1.resolved
        ≡ count_if (λ t. is_resolved find_service [] (codes "shop") t) (servers_in hosts))
    × ((resolve_once hosts).1.passthrough
        ≡ count_if (λ t. not (is_resolved find_service [] (codes "shop") t)) (servers_in hosts))
    × ((resolve_once (resolve_once hosts).0).0 ≡ (resolve_once hosts).0)
    × ((resolve_once (resolve_once hosts).0).1.resolved ≡ 0)
resolve_hosts-settles_example =
    resolve_hosts-settles find_service [] (codes "shop") find_service-HasLiteralIp hosts
