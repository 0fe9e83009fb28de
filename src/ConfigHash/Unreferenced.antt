-- ===== src/ConfigHash/Unreferenced.antt =====
-- controllers/configmap_controller.go: the hash of a workload and the sources that its pod spec
-- does not refer to.
use moat_operator.Base.{
  true, false, some, List, [], ◌∷◌, ◌++◌, Text, ◌≡◌, ◌≢◌, refl, inl, inr, Bool-cases,
}
use moat_operator.Kube.Workloads.{ConfigMap, Secret, SourceRefs, PodSpec}
use moat_operator.ConfigSync.{in_set}
use moat_operator.ConfigHash.{Libraries, Settings}
use moat_operator.ConfigHash.Rollout.{
  referenced_sources, filter_config_maps, filter_secrets, hash_for_workload,
}
use moat_operator.ConfigHash.References.{IsUsed, referenced_sources_iff}

filter_config_maps-without :
    (front back : List ConfigMap) (c : ConfigMap) (names : List Text)
    → in_set c.name names ≡ false
    → filter_config_maps (front ++ c ∷ back) names ≡ filter_config_maps (front ++ back) names
unfolding filter_config_maps
filter_config_maps-without [] back c names h = rw h refl
filter_config_maps-without (d ∷ front) back c names h =
    rw (filter_config_maps-without front back c names h) refl

filter_secrets-without :
    (front back : List Secret) (s : Secret) (names : List Text)
    → in_set s.name names ≡ false
    → filter_secrets (front ++ s ∷ back) names ≡ filter_secrets (front ++ back) names
unfolding filter_secrets
filter_secrets-without [] back s names h = rw h refl
filter_secrets-without (d ∷ front) back s names h =
    rw (filter_secrets-without front back s names h) refl

module _ (lib : Libraries) (r : Settings) (spec : PodSpec)
    (per_workload : r.per_workload_config_hash ≡ true) where
  -- With a hash per workload, a listed ConfigMap whose name the pod spec does not refer to has no
  -- part in the workload's hash: it is the hash without it, whatever the ConfigMap holds and
  -- whatever the combined hash of the namespace is.
  pub hash_for_workload-unreferenced :
      (front back : List ConfigMap) (c : ConfigMap) (secrets : List Secret)
      (combined combined' : Text)
      → ((s : SourceRefs) → IsUsed s spec → s.config_map ≢ some c.name)
      → hash_for_workload lib r (front ++ c ∷ back) secrets combined spec
        ≡ hash_for_workload lib r (front ++ back) secrets combined' spec
  unfolding hash_for_workload
  hash_for_workload-unreferenced front back c secrets combined combined' h =
      let names = (referenced_sources spec).config_maps in
      let (of_named, _) = (referenced_sources_iff spec c.name).0 in
      elim (Bool-cases (in_set c.name names)) [
        | inl e ↦ let (s, used, q) = of_named e in absurd (h s used q)
        | inr e ↦ rw (per_workload, filter_config_maps-without front back c names e) refl
      ]

  -- With a hash per workload, a listed Secret whose name the pod spec does not refer to has no
  -- part in the workload's hash either.
  pub hash_for_workload-unreferenced_secret :
      (cms : List ConfigMap) (front back : List Secret) (c : Secret) (combined combined' : Text)
      → ((s : SourceRefs) → IsUsed s spec → s.secret ≢ some c.name)
      → hash_for_workload lib r cms (front ++ c ∷ back) combined spec
        ≡ hash_for_workload lib r cms (front ++ back) combined' spec
  unfolding hash_for_workload
  hash_for_workload-unreferenced_secret cms front back c combined combined' h =
      let names = (referenced_sources spec).secrets in
      let (of_named, _) = (referenced_sources_iff spec c.name).1 in
      elim (Bool-cases (in_set c.name names)) [
        | inl e ↦ let (s, used, q) = of_named e in absurd (h s used q)
        | inr e ↦ rw (per_workload, filter_secrets-without front back c names e) refl
      ]
