-- ===== src/Tests/Owners.antt =====
-- Pods that share an IP.
use moat_operator.Base.{
  ◌↔◌, refl, inl, inr, ◌≤◌, trim_space, ◌==◌, ℕ, false, none, some, List, [], ◌∷◌, Text, codes,
  lookup, Has, ◌≡◌, ◌⊎◌,
}
use moat_operator.Kube.Pods.{Pod}
use moat_operator.Classify.{ingress_backed, internet_exposed_refs}
use moat_operator.Classify.Exposed.{IsExposed, internet_exposed_refs_iff}
use moat_operator.Tests.{web, shop}
use moat_operator.Identity.{
  pod_serving, pod_ips_of, workload_identity, entry_of, started, claim_pods,
}
use moat_operator.Relay.{HttpClient}
use moat_operator.Edges.Stream.{next_seq}
use moat_operator.Identity.{Entry}
use moat_operator.Identity.Stream.{IdentityDelta, IdentityProducer, table_of, delta_to, flush_delta}
use moat_operator.Identity.Applied.{apply_delta, told, row_of, flush_delta-applied}
use moat_operator.Base.{Option}
use moat_operator.Identity.Owners.{IsHolder, claim_pods-owner, claim_pods-source}

abbrev pub cart : Text → ℕ → Pod
cart name start = record {
  namespace = codes "shop";
  name = name;
  labels = (codes "app", codes "web") ∷ [];
  owner_references = [];
  is_deleting = false;
  host_network = false;
  phase = codes "Running";
  conditions = record { type = codes "Ready"; status = codes "True" } ∷ [];
  pod_ip = codes "10.1.0.5";
  pod_ips = codes "10.1.0.5" ∷ [];
  start_time = some start;
  container_ports = (record { name = codes "http"; container_port = 8080 } ∷ []) ∷ [];
}

abbrev carts : List Pod
carts = cart (codes "cart-a") 20 ∷ cart (codes "cart-b") 10 ∷ []

cart-IsHolder : IsHolder (codes "10.1.0.5") (cart (codes "cart-b") 10)
unfolding pod_serving pod_ips_of workload_identity trim_space lookup ◌==◌
cart-IsHolder = (refl, inl refl)

claim_pods-owner_example :
    (p : Pod) × Has p carts
    × IsHolder (codes "10.1.0.5") p
    × (lookup (codes "10.1.0.5") (claim_pods carts [])
        ≡ some (started p, entry_of p (codes "10.1.0.5")))
    × (started (cart (codes "cart-b") 10) ≤ started p)
claim_pods-owner_example =
    claim_pods-owner carts (codes "10.1.0.5") (cart (codes "cart-b") 10) (inr (inl refl))
      cart-IsHolder

claim_pods-source_example :
    (lookup (codes "10.1.0.5") (claim_pods carts []) ≡ none)
    ⊎ ((p : Pod) × Has p carts
        × IsHolder (codes "10.1.0.5") p
        × (lookup (codes "10.1.0.5") (claim_pods carts [])
            ≡ some (started p, entry_of p (codes "10.1.0.5"))))
claim_pods-source_example = claim_pods-source carts (codes "10.1.0.5")

internet_exposed_refs_iff_example :
    Has (codes "shop/cart-a") (internet_exposed_refs carts (web ∷ []) (shop (codes "a") ∷ [])) ↔ (
      (p : Pod) × Has p carts
      × IsExposed (ingress_backed (shop (codes "a") ∷ [])) (web ∷ []) (codes "shop/cart-a") p)
internet_exposed_refs_iff_example =
    internet_exposed_refs_iff carts (web ∷ []) (shop (codes "a") ∷ []) (codes "shop/cart-a")

abbrev encode : IdentityDelta → Option Text
encode d = some (codes "{}")

abbrev digest : Text → Text
digest t = t

abbrev mmdb : List Entry → Option Text
mmdb es = some (codes "m")

abbrev accepting : HttpClient
accepting q = some 200

abbrev producer : IdentityProducer
producer = record {
  target = record { upload_url = codes "https://api/v1/"; api_key = []; cluster_id = [] };
  epoch = 7;
  seq = 0;
  index = [];
  last_version = [];
}

abbrev change : IdentityDelta
change = delta_to producer (table_of encode digest mmdb carts)

carts-taken : (flush_delta encode digest mmdb accepting (some carts) producer).1 ≡ some change
unfolding flush_delta pod_serving pod_ips_of workload_identity trim_space lookup ◌==◌
carts-taken = refl

no_rows : (ip : Text) → none ≡ row_of (lookup ip producer.index)
unfolding lookup
no_rows ip = refl

flush_delta-applied_example :
    let new = table_of encode digest mmdb carts in
    let after = (flush_delta encode digest mmdb accepting (some carts) producer).0 in
    (apply_delta change (λ ip. none) (codes "10.1.0.5")
      ≡ told (lookup (codes "10.1.0.5") producer.index) (lookup (codes "10.1.0.5") new))
    × (after.index ≡ new)
    × (after.seq ≡ next_seq 0)
flush_delta-applied_example =
    flush_delta-applied encode digest mmdb accepting carts producer change (λ ip. none) no_rows
      carts-taken (codes "10.1.0.5")
