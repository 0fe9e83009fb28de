-- ===== src/Tests/Rollouts.antt =====
-- A namespace with two ConfigMaps, and a workload that mounts one of them.
use mathlib.Core.List.Permᴰ
use moat_operator.Base.{
  true, false, none, some, [], ◌∷◌, Text, codes, lookup, insert, ◌≡◌, ◌≢◌, ◌↔◌, refl, sym, ap,
  subst, ◌∙◌, inl, inr, arith, Has, ◌==◌, Option, sort, text_leb, sort_by, option_or, has_prefix,
}
use moat_operator.Kube.Workloads.{ConfigMap, Secret, SourceRefs, Volume, PodSpec, Workload}
use moat_operator.ConfigSync.{in_set}
use moat_operator.Resolver.Document.{
  scalar, table, Fields, no_fields, more_fields, field, set_field,
}
use moat_operator.ConfigHash.{
  Libraries, Settings, hot_reload_ids_fields, hash_config_sources, hash_config_map_content,
  synapse_config_key, strip_root,
}
use moat_operator.ConfigHash.Rollout.{
  Server, Cluster, deployment, there, absent, referenced_sources, hash_for_workload,
  patch_workloads, reconcile, patch_hash,
}
use moat_operator.ConfigHash.Order.{hash_config_sources-order, IsNamed}
use moat_operator.ConfigHash.References.{IsUsed, referenced_sources_iff}
use moat_operator.ConfigHash.Unreferenced.{hash_for_workload-unreferenced}
use moat_operator.ConfigHash.Stamped.{IsPrefix, patch_workloads-IsPrefix}
use moat_operator.ConfigHash.Settled.{IsSettled, reconcile-settles}
use moat_operator.ConfigHash.Reloaded.{
  SameBut, same_end, left_field, right_field, at_root, hash_config_map_content-reload,
}

abbrev mode : Text → Fields
mode m = more_fields (codes "enforce_block") (scalar m) no_fields

abbrev old_root : Fields
old_root = more_fields (codes "ids") (table (mode (codes "true"))) no_fields

abbrev new_root : Fields
new_root = set_field (codes "ids") (table (mode (codes "false"))) old_root

abbrev parsed : Text → Option Fields
parsed raw = elim raw [
  | [] ↦ none
  | c ∷ rest ↦ elim rest [ [] ↦ some old_root | d ∷ more ↦ some new_root ]
]

-- A digest that keeps everything.
abbrev lib : Libraries
lib = record { sha256_hex = λ t. t; unmarshal = parsed; marshal = λ fs. some (codes "out") }

abbrev per_workload : Settings
per_workload = record {
  annotation = codes "config-hash";
  ignored_config_map_keys = [];
  ignored_secret_keys = [];
  exclude_hot_reload_ids_fields = true;
  per_workload_config_hash = true;
}

abbrev agent : ConfigMap
agent = record {
  name = codes "agent";
  texts = (codes "config.yaml", codes "a") ∷ [];
  binaries = [];
}

abbrev rules : ConfigMap
rules = record { name = codes "rules"; texts = (codes "r", codes "1") ∷ []; binaries = [] }

no_secrets_IsNamed : IsNamed (λ (s : Secret). s.name) []
no_secrets_IsNamed a b m n e = elim m [ ]

two_IsNamed : IsNamed (λ (c : ConfigMap). c.name) (agent ∷ rules ∷ [])
two_IsNamed a b (inl p) (inl q) e = p ∙ sym q
two_IsNamed a b (inl p) (inr (inl q)) e =
    let bad : codes "agent" ≡ codes "rules" =
      sym (ap (λ (c : ConfigMap). c.name) p) ∙ e ∙ ap (λ (c : ConfigMap). c.name) q in
    absurd (ground (arith, bad))
two_IsNamed a b (inr (inl p)) (inl q) e =
    let bad : codes "rules" ≡ codes "agent" =
      sym (ap (λ (c : ConfigMap). c.name) p) ∙ e ∙ ap (λ (c : ConfigMap). c.name) q in
    absurd (ground (arith, bad))
two_IsNamed a b (inr (inl p)) (inr (inl q)) e = p ∙ sym q
two_IsNamed a b (inl p) (inr (inr z)) e = elim z [ ]
two_IsNamed a b (inr (inl p)) (inr (inr z)) e = elim z [ ]
two_IsNamed a b (inr (inr z)) n e = elim z [ ]

hash_config_sources-order_example :
    hash_config_sources lib per_workload (agent ∷ rules ∷ []) []
    ≡ hash_config_sources lib per_workload (rules ∷ agent ∷ []) []
hash_config_sources-order_example =
    hash_config_sources-order lib per_workload (Permᴰ.swap refl refl) (Permᴰ.nil) two_IsNamed
      no_secrets_IsNamed

abbrev mounted : SourceRefs
mounted = record { config_map = some (codes "agent"); secret = none }

abbrev spec : PodSpec
spec = record {
  volumes = record { refs = mounted; projected = none } ∷ [];
  init_containers = [];
  containers = [];
}

referenced_sources_iff_example :
    let refs = referenced_sources spec in
    ((in_set (codes "agent") refs.config_maps ≡ true)
      ↔ ((s : SourceRefs) × IsUsed s spec × (s.config_map ≡ some (codes "agent"))))
    × ((in_set (codes "agent") refs.secrets ≡ true)
        ↔ ((s : SourceRefs) × IsUsed s spec × (s.secret ≡ some (codes "agent"))))
referenced_sources_iff_example = referenced_sources_iff spec (codes "agent")

rules-unused : (s : SourceRefs) → IsUsed s spec → s.config_map ≢ some (codes "rules")
rules-unused s (inl (v, inl e, inl q)) k =
    let named : s.config_map ≡ some (codes "agent") =
      ap (λ (x : SourceRefs). x.config_map) q ∙ ap (λ (x : Volume). x.refs.config_map) e in
    ground (arith, named, k)
rules-unused s (inl (v, inl e, inr m)) k =
    let none_there = subst (λ (x : Volume). Has s (option_or x.projected [])) e m in
    elim none_there [ ]
rules-unused s (inl (v, inr z, m)) k = elim z [ ]
rules-unused s (inr (c, inl z, m)) k = elim z [ ]
rules-unused s (inr (c, inr z, m)) k = elim z [ ]

hash_for_workload-unreferenced_example :
    hash_for_workload lib per_workload (agent ∷ rules ∷ []) [] (codes "x") spec
    ≡ hash_for_workload lib per_workload (agent ∷ []) [] (codes "y") spec
hash_for_workload-unreferenced_example =
    hash_for_workload-unreferenced lib per_workload spec refl (agent ∷ []) [] rules [] (codes "x")
      (codes "y") rules-unused

abbrev server : Server
server = record {
  get_config_map = there;
  get_secret = absent;
  list_config_maps = some (agent ∷ rules ∷ []);
  list_secrets = some [];
  list_fails = λ kind. false;
  patch_fails = λ kind name. false;
}

abbrev worker : Workload
worker = record { name = codes "agent"; spec = spec; annotations = [] }

abbrev cluster : Cluster
cluster = record { deployments = worker ∷ []; daemon_sets = []; stateful_sets = [] }

patch_workloads-IsPrefix_example :
    IsPrefix lib per_workload (agent ∷ rules ∷ []) [] (codes "x") server deployment (worker ∷ []) (
      patch_workloads lib per_workload server
        (agent ∷ rules ∷ [])
        []
        (codes "x")
        deployment
        (worker ∷ []))
patch_workloads-IsPrefix_example =
    patch_workloads-IsPrefix lib per_workload (agent ∷ rules ∷ []) [] (codes "x") server deployment
      (worker ∷ [])

reconcile-ok : (reconcile lib per_workload server cluster).1 ≡ false
unfolding reconcile hash_config_sources referenced_sources in_set sort text_leb sort_by ◌==◌ lookup
    patch_hash strip_root insert has_prefix
reconcile-ok = refl

reconcile-settles_example :
    let d = (reconcile lib per_workload server cluster).0 in
    IsSettled lib per_workload
      (agent ∷ rules ∷ [])
      []
      (hash_config_sources lib per_workload (agent ∷ rules ∷ []) [])
      d
    × (reconcile lib per_workload (record server { patch_fails = λ kind name. true }) d
        ≡ (d, false))
reconcile-settles_example =
    reconcile-settles lib per_workload (agent ∷ rules ∷ []) [] server cluster (λ kind name. true)
      refl refl reconcile-ok

ids-there : field (codes "ids") old_root ≡ some (table (mode (codes "true")))
unfolding field ◌==◌
ids-there = refl

mode-reloads : in_set (codes "enforce_block") hot_reload_ids_fields ≡ true
unfolding in_set ◌==◌
mode-reloads = refl

modes-SameBut : SameBut hot_reload_ids_fields (mode (codes "true")) (mode (codes "false"))
modes-SameBut = left_field mode-reloads (right_field mode-reloads same_end)

config-there : lookup synapse_config_key agent.texts ≡ some (codes "a")
unfolding lookup ◌==◌
config-there = refl

hash_config_map_content-reload_example :
    hash_config_map_content lib
      (record agent { texts = insert synapse_config_key (codes "bb") agent.texts })
      []
      true
    ≡ hash_config_map_content lib agent [] true
hash_config_map_content-reload_example =
    hash_config_map_content-reload lib agent [] (codes "a") (codes "bb") (codes "out") old_root
      new_root config-there refl refl (at_root ids-there modes-SameBut) refl
