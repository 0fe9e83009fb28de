-- ===== src/Kube/Workloads.antt =====
-- ConfigMaps, Secrets and the workloads that mount them, cut to the fields that the controllers
-- read. The bytes of a value are a list of numbers. A reference is the name that it holds.
use moat_operator.Base.{Option, List, Text, Map}

pub record ConfigMap : Type 0 where
  pub name : Text
  pub texts : Map Text
  pub binaries : Map Text

pub record Secret : Type 0 where
  pub name : Text
  pub contents : Map Text

pub record SourceRefs : Type 0 where
  pub config_map : Option Text
  pub secret : Option Text

pub record Volume : Type 0 where
  pub refs : SourceRefs
  pub projected : Option (List SourceRefs)

pub record Container : Type 0 where
  pub env_from : List SourceRefs
  pub env : List (Option SourceRefs)

pub record PodSpec : Type 0 where
  pub volumes : List Volume
  pub init_containers : List Container
  pub containers : List Container

-- A Deployment, DaemonSet or StatefulSet; the annotations are those of its pod template.
pub record Workload : Type 0 where
  pub name : Text
  pub spec : PodSpec
  pub annotations : Map Text
