-- ===== src/ConfigHash/Stamped.antt =====
-- controllers/configmap_controller.go: what the loop over the workloads of a kind leaves, where it
-- succeeds and where a patch fails.
use moat_operator.Base.{
  Bool, true, false, ◌||◌, List, [], ◌∷◌, ◌++◌, Text, ◌≡◌, refl, ap, ap₂, sym, ◌∙◌, arith, ◌⊎◌, inl,
  inr, if◌then◌else◌, Bool-cases, map, is_nil, append-nil, subst, ◌==◌, eq_refl, All,
  lookup-insert_self,
}
use moat_operator.Kube.Workloads.{ConfigMap, Secret, Workload}
use moat_operator.Identity.{value_of}
use moat_operator.ConfigHash.{Libraries, Settings}
use moat_operator.ConfigHash.Rollout.{
  Kind, Server, Patched, set_annotation, patch_hash, kept, hash_for_workload, patch_workloads,
}

value_of-set_annotation :
    (key hash : Text) (w : Workload) → value_of key (set_annotation key hash w).annotations ≡ hash
value_of-set_annotation key hash w = rw (lookup-insert_self key hash w.annotations) refl

module _ (lib : Libraries) (r : Settings) (cms : List ConfigMap) (secrets : List Secret)
    (combined : Text) where
  abbrev pub hash_of : Workload → Text
  hash_of w = hash_for_workload lib r cms secrets combined w.spec

  -- The workload has no hash to carry, or carries it.
  abbrev pub is_stamped : Workload → Bool
  is_stamped w = is_nil (hash_of w) || (value_of r.annotation w.annotations == hash_of w)

  -- The workload as it is meant to be.
  abbrev pub stamp : Workload → Workload
  stamp w = if is_stamped w then w else set_annotation r.annotation (hash_of w) w

  abbrev pub IsStamped : Workload → Type 0
  IsStamped w = is_stamped w ≡ true

  stamp-IsStamped : (w : Workload) → IsStamped (stamp w)
  stamp-IsStamped w =
      let read = value_of-set_annotation r.annotation (hash_of w) w in
      elim (Bool-cases (is_stamped w)) [
        | inl e ↦ rw e e
        | inr e ↦ rw (e, read, eq_refl (hash_of w)) (ground arith)
      ]

  module _ (api : Server) where
    -- One turn of the loop, by what is meant.
    patch_workloads-cons :
        (kind : Kind) (w : Workload) (ws : List Workload)
        → let rest = patch_workloads lib r api cms secrets combined kind ws in
          patch_workloads lib r api cms secrets combined kind (w ∷ ws) ≡ (
            if is_stamped w
            then kept w rest
            else if api.patch_fails kind w.name
            then (w ∷ ws, true)
            else kept (stamp w) rest)
    unfolding patch_workloads patch_hash
    patch_workloads-cons kind w ws = elim (Bool-cases (is_nil (hash_of w))) [
      | inl e ↦ rw e refl
      | inr e ↦ elim (Bool-cases (value_of r.annotation w.annotations == hash_of w)) [
        | inl q ↦ rw (e, q) refl
        | inr q ↦ rw (e, q) refl
      ]
    ]

    abbrev pub patch_of : Kind → List Workload → Patched
    patch_of kind ws = patch_workloads lib r api cms secrets combined kind ws

    -- The workload needs no patch, or the server takes its patch.
    abbrev pub IsTaken : Kind → Workload → Type 0
    IsTaken kind w = (is_stamped w ≡ true) ⊎ (api.patch_fails kind w.name ≡ false)

    -- The loop goes from the front: the workloads before the first patch that fails are as they
    -- are meant to be, that one and those behind it are as they were.
    abbrev pub IsPrefix : Kind → List Workload → Patched → Type 0
    IsPrefix kind ws p =
        (front : List Workload) × (back : List Workload) × (ws ≡ front ++ back)
        × (p.0 ≡ map stamp front ++ back)
        × All (IsTaken kind) front
        × (((p.1 ≡ false) × (back ≡ []))
            ⊎ ((p.1 ≡ true)
                × ((w : Workload) × (rest : List Workload) × (back ≡ w ∷ rest)
                    × (api.patch_fails kind w.name ≡ true)
                    × (is_stamped w ≡ false))))

    kept-IsPrefix :
        (kind : Kind) (w v : Workload) (ws : List Workload) (p : Patched)
        → v ≡ stamp w
        → IsTaken kind w
        → IsPrefix kind ws p
        → IsPrefix kind (w ∷ ws) (kept v p)
    kept-IsPrefix kind w v ws (vs, failed) same taken (front, back, e, q, all, end) =
        (w ∷ front, back, ap (λ l. w ∷ l) e, ap₂ (λ x l. x ∷ l) same q, (taken, all), end)

    turn-IsPrefix :
        (kind : Kind) (w : Workload) (ws : List Workload) (p : Patched) (b fails : Bool)
        → is_stamped w ≡ b
        → api.patch_fails kind w.name ≡ fails
        → IsPrefix kind ws p
        → IsPrefix kind
            (w ∷ ws)
            (if b then kept w p else if fails then (w ∷ ws, true) else kept (stamp w) p)
    turn-IsPrefix kind w ws p true fails e q before =
        kept-IsPrefix kind w w ws p (rw e refl) (inl e) before
    turn-IsPrefix kind w ws p false true e q before =
        ([], w ∷ ws, refl, refl, tt, inr (refl, (w, ws, refl, q, e)))
    turn-IsPrefix kind w ws p false false e q before =
        kept-IsPrefix kind w (stamp w) ws p refl (inr q) before

    patch_workloads-nil : (kind : Kind) → patch_of kind [] ≡ ([], false)
    unfolding patch_workloads
    patch_workloads-nil kind = refl

    -- The loop over the workloads of a kind splits their list in two. Each workload of the front
    -- carries its hash already, or has none to carry, or the server takes its patch: afterwards it
    -- carries the hash, if it has one, and is otherwise as it was. Those of the back are as they
    -- were. Either the back is empty and there is no error; or there is an error, and the back
    -- begins with a workload that does not carry its hash and whose patch the server refuses.
    pub patch_workloads-IsPrefix :
        (kind : Kind) (ws : List Workload)
        → IsPrefix kind ws (patch_workloads lib r api cms secrets combined kind ws)
    patch_workloads-IsPrefix kind [] =
        rw (patch_workloads-nil kind) ([], [], refl, refl, tt, inl (refl, refl))
    patch_workloads-IsPrefix kind (w ∷ ws) =
        subst (IsPrefix kind (w ∷ ws)) (sym (patch_workloads-cons kind w ws)) (
          turn-IsPrefix kind w ws (patch_of kind ws) (is_stamped w) (api.patch_fails kind w.name)
            refl refl (patch_workloads-IsPrefix kind ws))

    -- Where every workload carries its hash, no patch is sent: the server may refuse them all.
    pub patch_workloads-stays :
        (kind : Kind) (ws : List Workload) → All IsStamped ws → patch_of kind ws ≡ (ws, false)
    patch_workloads-stays kind [] h = patch_workloads-nil kind
    patch_workloads-stays kind (w ∷ ws) (h, hs) =
        patch_workloads-cons kind w ws ∙ (rw (h, patch_workloads-stays kind ws hs) refl)

    stamped : (ws : List Workload) → All IsStamped (map stamp ws)
    stamped [] = tt
    stamped (w ∷ ws) = (stamp-IsStamped w, stamped ws)

    pub patch_workloads-IsStamped :
        (kind : Kind) (ws : List Workload)
        → (patch_of kind ws).1 ≡ false
        → ((patch_of kind ws).0 ≡ map stamp ws) × All IsStamped (patch_of kind ws).0
    patch_workloads-IsStamped kind ws h =
        let (front, back, e, q, all, end) = patch_workloads-IsPrefix kind ws in
        elim end [
          | inl (_, none_left) ↦
              let whole : front ≡ ws = sym (e ∙ rw none_left (append-nil front)) in
              let same : (patch_of kind ws).0 ≡ map stamp ws =
                q ∙ (rw none_left (append-nil (map stamp front))) ∙ ap (map stamp) whole in
              (same, rw same (stamped ws))
          | inr (f, _) ↦ absurd (ground (arith, f, h))
        ]
