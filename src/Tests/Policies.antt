-- ===== src/Tests/Policies.antt =====
-- A policy that admits one peer on a named port, and a producer of its edges.
use moat_operator.Base.{
  false, none, some, List, [], ◌∷◌, Text, codes, ◌≡◌, ◌⊎◌, ◌↔◌, refl, inl, Has, Option, seen_in,
  ◌++◌,
}
use moat_operator.Kube.Pods.{Pod}
use moat_operator.Kube.Policies.{
  LabelSelector, IntOrString, named, Peer, PolicyRule, NetworkPolicy, ingress_type,
}
use moat_operator.Classify.{selector_matches}
use moat_operator.Edges.{Selector, port_strings, rule_refs, policy_has_ingress, policy_has_egress}
use moat_operator.Edges.Lines.{compute_edge_lines}
use moat_operator.Edges.Ports.{IsPortOf, port_strings_iff}
use moat_operator.Edges.Peers.{IsPeerPod}
use moat_operator.Edges.Refs.{IsRefOf, rule_refs_iff}
use moat_operator.Edges.Allowed.{IsEdgeLine, IsGoverned, compute_edge_lines_iff}
use moat_operator.Edges.Stream.{EdgeDelta, EdgeInputs, Producer, lines_of, flush_delta}
use moat_operator.Edges.Refined.{Held, Agrees, after_delta, flush_delta-converges}
use moat_operator.Edges.Run.{
  Event, flushed, based, run, consume, IsNumbered, run-Agrees, run-IsNumbered,
}
use moat_operator.Relay.{HttpClient}
use moat_operator.Tests.Owners.{cart}

abbrev as_selector : LabelSelector → Option Selector
as_selector ls = some (λ lbls. selector_matches ls.match_labels lbls)

abbrev web_pods : LabelSelector
web_pods = record { match_labels = (codes "app", codes "web") ∷ []; match_expressions = [] }

abbrev from_web : PolicyRule
from_web = record {
  ports = some (named (codes "http")) ∷ [];
  peers = record { ip_block = false; namespace_selector = none; pod_selector = some web_pods } ∷ [];
}

abbrev policy : NetworkPolicy
policy = record {
  namespace = codes "shop";
  name = codes "allow-web";
  pod_selector = web_pods;
  policy_types = ingress_type ∷ [];
  ingress = from_web ∷ [];
  egress = [];
}

abbrev pods : List Pod
pods = cart (codes "cart-a") 20 ∷ []

abbrev inputs : EdgeInputs
inputs = record { policies = policy ∷ []; pods = pods; namespaces = [] }

port_strings_iff_example : Has (codes "8080") (port_strings from_web.ports pods) ↔ (
    ((from_web.ports ≡ []) × (codes "8080" ≡ codes "*"))
    ⊎ ((o : Option IntOrString) × Has o from_web.ports × IsPortOf pods (codes "8080") o))
port_strings_iff_example = port_strings_iff from_web.ports pods (codes "8080")

rule_refs_iff_example :
    Has (codes "shop/cart-a") (rule_refs as_selector from_web (codes "shop") pods []) ↔ (
      ((from_web.peers ≡ []) × (codes "shop/cart-a" ≡ codes "*/*"))
      ⊎ ((peer : Peer) × Has peer from_web.peers
          × ((p : Pod) × IsPeerPod as_selector pods [] peer (codes "shop") p
              × IsRefOf as_selector pods [] (codes "shop/cart-a") p)))
rule_refs_iff_example =
    rule_refs_iff as_selector pods [] from_web (codes "shop") (codes "shop/cart-a")

compute_edge_lines_iff_example :
    Has (codes "G shop/cart-a") (compute_edge_lines as_selector (policy ∷ []) pods []).0 ↔ (
      IsEdgeLine as_selector (policy ∷ []) pods [] (codes "G shop/cart-a")
      ⊎ (((ref : Text) × IsGoverned as_selector (policy ∷ []) pods [] policy_has_ingress ref
            × (codes "G shop/cart-a" ≡ codes "G " ++ ref))
          ⊎ ((ref : Text) × IsGoverned as_selector (policy ∷ []) pods [] policy_has_egress ref
              × (codes "G shop/cart-a" ≡ codes "S " ++ ref))))
compute_edge_lines_iff_example =
    compute_edge_lines_iff as_selector (policy ∷ []) pods [] (codes "G shop/cart-a")

abbrev encode : EdgeDelta → Option Text
encode d = some (codes "{}")

abbrev digest : Text → Text
digest t = t

abbrev accepting : HttpClient
accepting q = some 200

abbrev failing : HttpClient
failing q = none

abbrev producer : Producer
producer = record {
  target = record { upload_url = codes "https://api/v1/"; api_key = []; cluster_id = codes "c1" };
  epoch = 7;
  seq = 0;
  index = codes "G shop/old" ∷ [];
  last_version = [];
}

abbrev held : Held
held l = seen_in l (codes "G shop/old" ∷ [])

flush_delta-converges_example :
    let out = flush_delta as_selector encode digest accepting (some inputs) producer in
    (after_delta as_selector encode digest out.1 held (codes "G shop/old")
      ≡ seen_in (codes "G shop/old") (lines_of as_selector encode digest inputs))
    × (seen_in (codes "G shop/old") out.0.index
        ≡ seen_in (codes "G shop/old") (lines_of as_selector encode digest inputs))
flush_delta-converges_example =
    flush_delta-converges as_selector encode digest accepting inputs producer held (λ q. refl)
      (λ d. refl) (λ l. refl) (codes "G shop/old")

abbrev events : List Event
events =
    flushed failing (some inputs)
    ∷ flushed accepting (some inputs)
    ∷ based failing none
    ∷ flushed accepting (some (record inputs { policies = [] }))
    ∷ []

run-Agrees_example :
    Agrees
      (run as_selector encode digest events producer).0
      (consume (run as_selector encode digest events producer).1 held)
run-Agrees_example =
    run-Agrees as_selector encode digest events producer held (inl refl, tt) (λ l. refl)

run-IsNumbered_example :
    IsNumbered as_selector encode digest 7 0
      (run as_selector encode digest events producer).1
      (run as_selector encode digest events producer).0.seq
run-IsNumbered_example = run-IsNumbered as_selector encode digest events producer
