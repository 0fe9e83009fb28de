-- ===== src/Kube/Policies.antt =====
-- NetworkPolicies and namespaces, cut to the fields that the edge producer reads.
use moat_operator.Base.{ℕ, Bool, Option, List, Text, Map}

pub record Requirement : Type 0 where
  pub key : Text
  pub operator : Text
  pub values : List Text

pub record LabelSelector : Type 0 where
  pub match_labels : Map Text
  pub match_expressions : List Requirement

-- intstr.IntOrString
pub data IntOrString : Type 0 where
  number : (n : ℕ) → IntOrString
  named : (name : Text) → IntOrString

-- `from` or `to` of a rule; `ip_block` is whether the peer has one.
pub record Peer : Type 0 where
  pub ip_block : Bool
  pub namespace_selector : Option LabelSelector
  pub pod_selector : Option LabelSelector

-- An ingress rule or an egress rule; a port may be missing from its entry.
pub record PolicyRule : Type 0 where
  pub ports : List (Option IntOrString)
  pub peers : List Peer

pub data PolicyType : Type 0 where
  ingress_type egress_type : PolicyType

pub record NetworkPolicy : Type 0 where
  pub namespace : Text
  pub name : Text
  pub pod_selector : LabelSelector
  pub policy_types : List PolicyType
  pub ingress : List PolicyRule
  pub egress : List PolicyRule

pub record Namespace : Type 0 where
  pub name : Text
  pub labels : Map Text
