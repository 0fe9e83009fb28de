-- ===== src/Kube/Pods.antt =====
-- Pods, cut to the fields that the producers read. A start time is in nanoseconds since the zero
-- time of Go; `container_ports` has the ports of each container.
use moat_operator.Base.{ℕ, Bool, Option, List, Text, Map}

pub record OwnerReference : Type 0 where
  pub kind : Text
  pub name : Text
  pub controller : Option Bool

pub record PodCondition : Type 0 where
  pub type : Text
  pub status : Text

pub record ContainerPort : Type 0 where
  pub name : Text
  pub container_port : ℕ

pub record Pod : Type 0 where
  pub namespace : Text
  pub name : Text
  pub labels : Map Text
  pub owner_references : List OwnerReference
  pub is_deleting : Bool
  pub host_network : Bool
  pub phase : Text
  pub conditions : List PodCondition
  pub pod_ip : Text
  pub pod_ips : List Text
  pub start_time : Option ℕ
  pub container_ports : List (List ContainerPort)
