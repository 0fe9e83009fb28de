-- ===== src/ConfigHash/Rollout.antt =====
-- controllers/configmap_controller.go: which sources a workload mounts, and the annotation of
-- its pod template.
use moat_operator.Base.{
  Bool, true, false, not, ◌&&◌, Option, none, some, List, [], ◌∷◌, ◌++◌, Text, insert, ◌==◌,
  if◌then◌else◌, is_nil, option_or,
}
use moat_operator.Kube.Workloads.{
  ConfigMap, Secret, SourceRefs, Volume, Container, PodSpec, Workload,
}
use moat_operator.ConfigSync.{in_set}
use moat_operator.Identity.{value_of}
use moat_operator.ConfigHash.{Libraries, Settings, hash_config_sources}

-- The sets of names that `referencedSources` collects.
pub record References : Type 0 where
  pub config_maps : List Text
  pub secrets : List Text

abbrev pub with_name : Option Text → List Text → List Text
with_name none names = names
with_name (some n) names = n ∷ names

abbrev pub refer : SourceRefs → References → References
refer s r = record {
  config_maps = with_name s.config_map r.config_maps;
  secrets = with_name s.secret r.secrets;
}

unfoldable pub refer_all : List SourceRefs → References → References
refer_all [] r = r
refer_all (s ∷ ss) r = refer_all ss (refer s r)

unfoldable pub refer_volumes : List Volume → References → References
unfolding refer_all
refer_volumes [] r = r
refer_volumes (v ∷ vs) r = refer_volumes vs (refer_all (option_or v.projected []) (refer v.refs r))

unfoldable pub refer_env : List (Option SourceRefs) → References → References
refer_env [] r = r
refer_env (none ∷ es) r = refer_env es r
refer_env (some s ∷ es) r = refer_env es (refer s r)

unfoldable pub refer_containers : List Container → References → References
unfolding refer_all refer_env
refer_containers [] r = r
refer_containers (c ∷ cs) r = refer_containers cs (refer_env c.env (refer_all c.env_from r))

unfoldable pub referenced_sources : PodSpec → References
unfolding refer_volumes refer_containers
referenced_sources spec =
    refer_containers (spec.init_containers ++ spec.containers)
      (refer_volumes spec.volumes (record { config_maps = []; secrets = [] }))

unfoldable pub filter_config_maps : List ConfigMap → List Text → List ConfigMap
unfolding in_set
filter_config_maps [] names = []
filter_config_maps (c ∷ cms) names =
    let rest = filter_config_maps cms names in if in_set c.name names then c ∷ rest else rest

unfoldable pub filter_secrets : List Secret → List Text → List Secret
unfolding in_set
filter_secrets [] names = []
filter_secrets (s ∷ secrets) names =
    let rest = filter_secrets secrets names in if in_set s.name names then s ∷ rest else rest

-- What the API server does: an object is there, is not, or the read fails.
pub data Read : Type 0 where
  there : Read
  absent : Read
  unread : Read

pub data Kind : Type 0 where
  deployment daemon_set stateful_set : Kind

pub record Server : Type 0 where
  pub get_config_map : Read
  pub get_secret : Read
  pub list_config_maps : Option (List ConfigMap)
  pub list_secrets : Option (List Secret)
  pub list_fails : Kind → Bool
  pub patch_fails : Kind → Text → Bool

-- The labelled workloads of the namespace, as the API server has them.
pub record Cluster : Type 0 where
  pub deployments : List Workload
  pub daemon_sets : List Workload
  pub stateful_sets : List Workload

-- Workloads after a loop, and whether it ended in an error.
abbrev pub Patched : Type 0
Patched = List Workload × Bool

abbrev pub set_annotation : Text → Text → Workload → Workload
set_annotation key hash w = record w { annotations = insert key hash w.annotations }

-- The workload with the hash, or `none` where it has it.
unfoldable pub patch_hash : Text → Text → Workload → Option Workload
patch_hash key hash w =
    if value_of key w.annotations == hash then none else some (set_annotation key hash w)

abbrev pub kept : Workload → Patched → Patched
kept w (ws, failed) = (w ∷ ws, failed)

module _ (lib : Libraries) (r : Settings) (cms : List ConfigMap) (secrets : List Secret)
    (combined : Text) where
  unfoldable pub hash_for_workload : PodSpec → Text
  unfolding referenced_sources filter_config_maps filter_secrets
  hash_for_workload spec =
      if not r.per_workload_config_hash
      then combined
      else hash_config_sources lib r (filter_config_maps cms (referenced_sources spec).config_maps)
          (filter_secrets secrets (referenced_sources spec).secrets)

module _ (lib : Libraries) (r : Settings) (api : Server) (cms : List ConfigMap)
    (secrets : List Secret) (combined : Text) where
  -- What is done with one workload, before the rest of the loop.
  abbrev pub patch_step : Kind → Workload → List Workload → Option Workload → Patched → Patched
  patch_step kind w ws none rest = kept w rest
  patch_step kind w ws (some patched) rest =
      if api.patch_fails kind w.name then (w ∷ ws, true) else kept patched rest

  -- The loop over the workloads of one kind: the first patch that fails ends it.
  unfoldable pub patch_workloads : Kind → List Workload → Patched
  unfolding hash_for_workload patch_hash
  patch_workloads kind [] = ([], false)
  patch_workloads kind (w ∷ ws) =
      let hash = hash_for_workload lib r cms secrets combined w.spec in
      let rest = patch_workloads kind ws in
      if is_nil hash
      then kept w rest
      else patch_step kind w ws (patch_hash r.annotation hash w) rest

  unfoldable pub patch_deployments : List Workload → Patched
  unfolding patch_workloads
  patch_deployments ws =
      if api.list_fails deployment then (ws, true) else patch_workloads deployment ws

  unfoldable pub patch_daemon_sets : List Workload → Patched
  unfolding patch_workloads
  patch_daemon_sets ws =
      if api.list_fails daemon_set then (ws, true) else patch_workloads daemon_set ws

  unfoldable pub patch_stateful_sets : List Workload → Patched
  unfolding patch_workloads
  patch_stateful_sets ws =
      if api.list_fails stateful_set then (ws, true) else patch_workloads stateful_set ws

  -- The three kinds in order; an error leaves the later ones alone.
  unfoldable pub patch_cluster : Cluster → Cluster × Bool
  unfolding patch_deployments patch_daemon_sets patch_stateful_sets
  patch_cluster c =
      let (ds, failed) = patch_deployments c.deployments in
      let (ss, failed_too) = patch_daemon_sets c.daemon_sets in
      let (ts, failed_last) = patch_stateful_sets c.stateful_sets in
      if failed
      then (record c { deployments = ds }, true)
      else if failed_too
      then (record c { deployments = ds; daemon_sets = ss }, true)
      else (record { deployments = ds; daemon_sets = ss; stateful_sets = ts }, failed_last)

module _ (lib : Libraries) (r : Settings) (api : Server) where
  -- The object of the request could be read, or is known to be absent.
  abbrev pub is_read : Read → Read → Bool
  is_read there s = true
  is_read unread s = false
  is_read absent unread = false
  is_read absent s = true

  abbrev pub roll_out : Option (List ConfigMap) → Option (List Secret) → Cluster → Cluster × Bool
  roll_out none secrets c = (c, true)
  roll_out (some cms) none c = (c, true)
  roll_out (some cms) (some secrets) c =
      let combined = hash_config_sources lib r cms secrets in
      if is_nil combined && not r.per_workload_config_hash
      then (c, false)
      else patch_cluster lib r api cms secrets combined c

  -- `Reconcile`: the workloads after it, and whether it returned an error.
  unfoldable pub reconcile : Cluster → Cluster × Bool
  unfolding patch_cluster
  reconcile c =
      if is_read api.get_config_map api.get_secret
      then roll_out api.list_config_maps api.list_secrets c
      else (c, true)
