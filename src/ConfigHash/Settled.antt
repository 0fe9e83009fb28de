-- ===== src/ConfigHash/Settled.antt =====
-- controllers/configmap_controller.go: what `Reconcile` leaves where it returns no error.
use moat_operator.Base.{
  Bool, true, false, not, ◌&&◌, some, List, [], ◌∷◌, Text, ◌≡◌, refl, ap, sym, ◌∙◌, arith, inl, inr,
  if◌then◌else◌, Bool-cases, is_nil, subst, All,
}
use moat_operator.Kube.Workloads.{ConfigMap, Secret, Workload}
use moat_operator.ConfigHash.{Libraries, Settings, hash_config_sources}
use moat_operator.ConfigHash.Rollout.{
  Kind, deployment, daemon_set, stateful_set, Server, Cluster, Patched, hash_for_workload,
  patch_workloads, patch_cluster, is_read, roll_out, reconcile,
}
use moat_operator.ConfigHash.Stamped.{
  IsStamped, patch_of, patch_workloads-stays, patch_workloads-IsStamped,
}

module _ (lib : Libraries) (r : Settings) (cms : List ConfigMap) (secrets : List Secret)
    (combined : Text) where
  abbrev listed : Server → Kind → List Workload → Patched
  listed api kind ws =
      if api.list_fails kind
      then (ws, true)
      else patch_workloads lib r api cms secrets combined kind ws

  listed-IsStamped :
      (api : Server) (kind : Kind) (ws : List Workload)
      → (listed api kind ws).1 ≡ false
      → (api.list_fails kind ≡ false)
        × All (IsStamped lib r cms secrets combined) (listed api kind ws).0
  listed-IsStamped api kind ws h = at (api.list_fails kind) refl h
    where
      at :
          (b : Bool)
          → api.list_fails kind ≡ b
          → (if b then (ws, true) else patch_of lib r cms secrets combined api kind ws).1 ≡ false
          → (api.list_fails kind ≡ false)
            × All
                (IsStamped lib r cms secrets combined)
                (if b then (ws, true) else patch_of lib r cms secrets combined api kind ws).0
      at true e k = absurd (ground (arith, k))
      at false e k = (e, (patch_workloads-IsStamped lib r cms secrets combined api kind ws k).1)

  listed-stays :
      (api : Server) (kind : Kind) (ws : List Workload)
      → api.list_fails kind ≡ false
      → All (IsStamped lib r cms secrets combined) ws
      → listed api kind ws ≡ (ws, false)
  listed-stays api kind ws e h =
      rw (e, patch_workloads-stays lib r cms secrets combined api kind ws h) refl

  -- Every workload carries its hash, if it has one.
  abbrev pub IsSettled : Cluster → Type 0
  IsSettled c =
      All (IsStamped lib r cms secrets combined) c.deployments
      × All (IsStamped lib r cms secrets combined) c.daemon_sets
      × All (IsStamped lib r cms secrets combined) c.stateful_sets

  abbrev joined : Cluster → Patched → Patched → Patched → Cluster × Bool
  joined c (ds, failed) (ss, failed_too) (ts, failed_last) =
      if failed
      then (record c { deployments = ds }, true)
      else if failed_too
      then (record c { deployments = ds; daemon_sets = ss }, true)
      else (record { deployments = ds; daemon_sets = ss; stateful_sets = ts }, failed_last)

  patch_cluster-joined :
      (api : Server) (c : Cluster)
      → patch_cluster lib r api cms secrets combined c
        ≡ joined c
            (listed api deployment c.deployments)
            (listed api daemon_set c.daemon_sets)
            (listed api stateful_set c.stateful_sets)
  unfolding patch_cluster
  patch_cluster-joined api c = refl

  joined-ok :
      (c : Cluster) (p q t : Patched)
      → (joined c p q t).1 ≡ false
      → (p.1 ≡ false)
        × (q.1 ≡ false)
        × (t.1 ≡ false)
        × ((joined c p q t).0
            ≡ record { deployments = p.0; daemon_sets = q.0; stateful_sets = t.0 })
  joined-ok c (ds, true) q t h = absurd (ground (arith, h))
  joined-ok c (ds, false) (ss, true) t h = absurd (ground (arith, h))
  joined-ok c (ds, false) (ss, false) (ts, b) h = (refl, refl, h, refl)

  patch_cluster-settles :
      (api other : Server) (c : Cluster)
      → other.list_fails ≡ api.list_fails
      → (patch_cluster lib r api cms secrets combined c).1 ≡ false
      → let d = (patch_cluster lib r api cms secrets combined c).0 in
        IsSettled d × (patch_cluster lib r other cms secrets combined d ≡ (d, false))
  patch_cluster-settles api other c same h =
      let p = listed api deployment c.deployments in
      let q = listed api daemon_set c.daemon_sets in
      let t = listed api stateful_set c.stateful_sets in
      let as_joined = patch_cluster-joined api c in
      let (hp, hq, ht, e) = joined-ok c p q t (rw as_joined at h) in
      let (fp, sp) = listed-IsStamped api deployment c.deployments hp in
      let (fq, sq) = listed-IsStamped api daemon_set c.daemon_sets hq in
      let (ft, st) = listed-IsStamped api stateful_set c.stateful_sets ht in
      let d : Cluster = record { deployments = p.0; daemon_sets = q.0; stateful_sets = t.0 } in
      let again : patch_cluster lib r other cms secrets combined d ≡ (d, false) =
        patch_cluster-joined other d
        ∙ (rw
            (
              listed-stays other deployment p.0 (rw same fp) sp,
              listed-stays other daemon_set q.0 (rw same fq) sq,
              listed-stays other stateful_set t.0 (rw same ft) st,
            )
            refl) in
      subst (λ x. IsSettled x × (patch_cluster lib r other cms secrets combined x ≡ (x, false)))
        (sym (ap (λ x. x.0) as_joined ∙ e)) ((sp, sq, st), again)

module _ (lib : Libraries) (r : Settings) (cms : List ConfigMap) (secrets : List Secret) where
  abbrev all_hash : Text
  all_hash = hash_config_sources lib r cms secrets

  abbrev skips : Bool
  skips = is_nil all_hash && not r.per_workload_config_hash

  skipped-IsStamped :
      skips ≡ true → (ws : List Workload) → All (IsStamped lib r cms secrets all_hash) ws
  unfolding hash_for_workload
  skipped-IsStamped h [] = tt
  skipped-IsStamped h (w ∷ ws) = (ground (arith, h), skipped-IsStamped h ws)

  roll_out-settles :
      (api other : Server) (c : Cluster)
      → other.list_fails ≡ api.list_fails
      → (roll_out lib r api (some cms) (some secrets) c).1 ≡ false
      → let d = (roll_out lib r api (some cms) (some secrets) c).0 in
        IsSettled lib r cms secrets all_hash d
        × (roll_out lib r other (some cms) (some secrets) d ≡ (d, false))
  roll_out-settles api other c same h = elim (Bool-cases skips) [
    | inl e ↦ rw e (
      (
        skipped-IsStamped e c.deployments,
        skipped-IsStamped e c.daemon_sets,
        skipped-IsStamped e c.stateful_sets,
      ),
      refl,
    )
    | inr e ↦ rw e (patch_cluster-settles lib r cms secrets all_hash api other c same (rw e at h))
  ]

  -- If `Reconcile` returns no error, then afterwards every Deployment, DaemonSet and StatefulSet
  -- carries the hash of its sources as the annotation, unless it has no hash; and a second pass
  -- over the same sources returns no error and leaves the workloads as they are, even where the
  -- server refuses every patch.
  pub reconcile-settles :
      (api : Server) (c : Cluster) (refuse : Kind → Text → Bool)
      → api.list_config_maps ≡ some cms
      → api.list_secrets ≡ some secrets
      → (reconcile lib r api c).1 ≡ false
      → let d = (reconcile lib r api c).0 in
        IsSettled lib r cms secrets (hash_config_sources lib r cms secrets) d
        × (reconcile lib r (record api { patch_fails = refuse }) d ≡ (d, false))
  unfolding reconcile
  reconcile-settles api c refuse e q h =
      elim (Bool-cases (is_read lib r api api.get_config_map api.get_secret)) [
        | inl k ↦
            rw (k, e, q)
              (roll_out-settles api (record api { patch_fails = refuse }) c refl
                (rw (k, e, q) at h))
        | inr k ↦ absurd (ground (arith, k, h))
      ]
