-- ===== src/NetVars/Settled.antt =====
-- controllers/netvars_resolver.go: a pass over a source that a pass has written.
use moat_operator.Base.{
  Bool, true, false, not, ◌&&◌, Option, none, some, List, [], ◌∷◌, Text, codes, Map, lookup, insert,
  lookup-insert, lookup-insert_self, ◌==◌, eq_refl, is_nil, ◌≡◌, refl, sym, ap, subst, ◌∙◌, inl,
  inr, arith, Bool-cases, Option-cases, trim_space, trim_left_by, trim_right_by, is_space,
}
use moat_operator.Identity.{value_of}
use moat_operator.Resolver.Document.{Fields}
use moat_operator.Routes.Parse.{last_char}
use moat_operator.Routes.Parse.Csv.{
  starts_with_space, ends_with_space, trim_left_by-start, trim_right_by-end, trim_left_by-end,
}
use moat_operator.NetVars.{
  Node, ServiceIps, Source, source_label, override_annotation, managed_annotation, managed_text,
  config_key, auto_home_net, current_home_net, set_ids_address_vars, home_of, is_pinned, unpinned,
  desired_home_net, Pass, unchanged, recorded, rewritten, reconcile,
}
use moat_operator.NetVars.Documents.{KeepsVars, home_in, IsHeldIn, set_ids_address_vars-IsHeldIn}

trim_right_by-same : (s : Text) → ends_with_space s ≡ false → trim_right_by is_space s ≡ s
unfolding trim_right_by ends_with_space last_char
trim_right_by-same [] h = refl
trim_right_by-same (c ∷ []) h = ground arith
trim_right_by-same (c ∷ d ∷ s) h = ground (arith, trim_right_by-same (d ∷ s))

trim_left_by-same : (s : Text) → starts_with_space s ≡ false → trim_left_by is_space s ≡ s
unfolding trim_left_by starts_with_space
trim_left_by-same [] h = refl
trim_left_by-same (c ∷ s) h = ground arith

trimmed_nothing : trim_space [] ≡ []
unfolding trim_space
trimmed_nothing = refl

trim_space-again : (s : Text) → trim_space (trim_space s) ≡ trim_space s
unfolding trim_space
trim_space-again s =
    let inner = trim_right_by is_space s in
    let ended = trim_left_by-end inner (trim_right_by-end s) in
    rw (trim_right_by-same (trim_left_by is_space inner) ended)
      (trim_left_by-same (trim_left_by is_space inner) (trim_left_by-start inner))

managed-ne-override : (managed_annotation == override_annotation) ≡ false
unfolding ◌==◌
managed-ne-override = refl

manual-ne-auto : (codes "manual" == codes "auto") ≡ false
unfolding ◌==◌
manual-ne-auto = refl

override-recorded :
    (text : Text) (ann : Map Text)
    → value_of override_annotation (insert managed_annotation text ann)
      ≡ value_of override_annotation ann
override-recorded text ann =
    rw (lookup-insert managed_annotation override_annotation text ann, managed-ne-override) refl

managed-recorded :
    (text : Text) (ann : Map Text)
    → value_of managed_annotation (insert managed_annotation text ann) ≡ text
managed-recorded text ann = rw (lookup-insert_self managed_annotation text ann) refl

module _ (unmarshal : Text → Option (Option Fields)) (marshal : Fields → Option Text)
    (keeps : KeepsVars unmarshal marshal) (nodes : Option (List Node))
    (svcs : Option (List ServiceIps)) where
  abbrev desired : Source → Text → Option (Text × Bool)
  desired cm raw = desired_home_net unmarshal marshal nodes svcs cm raw

  abbrev pass : Bool → Source → Pass unmarshal marshal nodes svcs
  pass update_fails cm = reconcile unmarshal marshal nodes svcs update_fails cm

  abbrev after : Source → Text → Bool → Source
  after cm raw manual = recorded unmarshal marshal nodes svcs cm raw manual

  abbrev current : Text → Text
  current raw = current_home_net unmarshal marshal raw

  current-trimmed : (raw : Text) → trim_space (current raw) ≡ current raw
  unfolding current_home_net
  current-trimmed raw = at (unmarshal raw)
    where
      at :
          (o : Option (Option Fields))
          → trim_space (home_of unmarshal marshal o) ≡ home_of unmarshal marshal o
      at none = trimmed_nothing
      at (some none) = trimmed_nothing
      at (some (some root)) = trim_space-again (home_in root)

  unpinned-some :
      (o : Option Text) (home : Text) (manual : Bool)
      → unpinned unmarshal marshal nodes svcs o ≡ some (home, manual)
      → (o ≡ some home) × (manual ≡ false)
  unpinned-some none home manual h = absurd (ground (arith, h))
  unpinned-some (some auto) home manual h = (ground (arith, h), ground (arith, h))

  abbrev pinned : Source → Text → Bool
  pinned cm cur = is_pinned unmarshal marshal nodes svcs cm cur

  pinned-recorded :
      (cm : Source) (raw' home : Text)
      → pinned cm home ≡ true
      → pinned (after cm raw' true) home ≡ true
  pinned-recorded cm raw' home q =
      rw (managed-recorded (codes "manual") cm.annotations, manual-ne-auto) (ground (arith, q))

  unpinned-recorded : (cm : Source) (raw' cur : Text) → pinned (after cm raw' false) cur ≡ false
  unpinned-recorded cm raw' cur =
      rw (managed-recorded (codes "auto") cm.annotations, eq_refl (codes "auto")) (ground arith)

  -- The decision is the same after it has been recorded.
  desired-recorded :
      (cm : Source) (raw raw' home : Text) (manual : Bool)
      → desired cm raw ≡ some (home, manual)
      → current raw' ≡ trim_space home
      → desired (after cm raw' manual) raw' ≡ some (home, manual)
  unfolding desired_home_net
  desired-recorded cm raw raw' home manual h cur =
      let override = trim_space (value_of override_annotation cm.annotations) in
      let read = override-recorded (managed_text manual) cm.annotations in
      elim (Bool-cases (is_nil override)) [
        | inr e ↦ let got = (rw e at h) in rw (read, e) got
        | inl e ↦ elim (Bool-cases (pinned cm (current raw))) [
          | inl q ↦
              let got = (rw (e, q) at h) in
              let same : current raw ≡ home = ground (arith, got) in
              let by_hand : true ≡ manual = ground (arith, got) in
              let kept : current raw' ≡ home =
                cur ∙ ap trim_space (sym same) ∙ current-trimmed raw ∙ same in
              let still = pinned-recorded cm raw' home (subst (λ x. pinned cm x ≡ true) same q) in
              subst (λ m. desired (after cm raw' m) raw' ≡ some (home, m)) by_hand
                (rw (override-recorded (codes "manual") cm.annotations, e, kept, still) refl)
          | inr q ↦
              let got = (rw (e, q) at h) in
              let (auto, derived) = unpinned-some (auto_home_net nodes svcs) home manual got in
              let still = unpinned-recorded cm raw' (current raw') in
              subst (λ m. desired (after cm raw' m) raw' ≡ some (home, m)) (sym derived)
                (rw (override-recorded (codes "auto") cm.annotations, e, still, auto) refl)
        ]
      ]

  abbrev written : Bool → Source → Bool → Option (Text × Bool) → Pass unmarshal marshal nodes svcs
  written update_fails cm manual o = rewritten unmarshal marshal nodes svcs update_fails cm manual o

  abbrev same : Source → Pass unmarshal marshal nodes svcs
  same cm = unchanged unmarshal marshal nodes svcs cm

  -- A pass over a source whose decision and document are known.
  pass-decided :
      (cm : Source) (update_fails : Bool) (raw home : Text) (manual : Bool)
      → (value_of source_label cm.labels == codes "true") ≡ true
      → lookup config_key cm.contents ≡ some raw
      → desired cm raw ≡ some (home, manual)
      → is_nil home ≡ false
      → pass update_fails cm
        ≡ written update_fails cm manual
            (set_ids_address_vars unmarshal marshal raw home (codes "!$HOME_NET"))
  unfolding reconcile
  pass-decided cm update_fails raw home manual l c h n = rw (l, c, h, n) refl

  -- A pass over what a pass has recorded.
  pass-recorded :
      (cm : Source) (raw home raw' : Text) (manual : Bool)
      → (value_of source_label cm.labels == codes "true") ≡ true
      → desired cm raw ≡ some (home, manual)
      → is_nil home ≡ false
      → IsHeldIn unmarshal marshal keeps raw' home (codes "!$HOME_NET")
      → pass true (after cm raw' manual) ≡ same (after cm raw' manual)
  pass-recorded cm raw home raw' manual l h n (again, cur) =
      let c : lookup config_key (after cm raw' manual).contents ≡ some raw' =
        lookup-insert_self config_key raw' cm.contents in
      pass-decided (after cm raw' manual) true raw' home manual l c
        (desired-recorded cm raw raw' home manual h cur) n
      ∙ (rw
          (
            again,
            managed-recorded (managed_text manual) cm.annotations,
            eq_refl (managed_text manual),
          )
          refl)

  written-repeats :
      (cm : Source) (update_fails : Bool) (raw home : Text) (manual : Bool)
      (o : Option (Text × Bool))
      → (value_of source_label cm.labels == codes "true") ≡ true
      → lookup config_key cm.contents ≡ some raw
      → desired cm raw ≡ some (home, manual)
      → is_nil home ≡ false
      → set_ids_address_vars unmarshal marshal raw home (codes "!$HOME_NET") ≡ o
      → (written update_fails cm manual o).failed ≡ false
      → let p = written update_fails cm manual o in pass true p.source ≡ same p.source
  written-repeats cm update_fails raw home manual none l c h n s ok = absurd (ground (arith, ok))
  written-repeats cm update_fails raw home manual (some (raw', changed)) l c h n s ok =
      let settled =
        not changed && (value_of managed_annotation cm.annotations == managed_text manual) in
      elim (Bool-cases settled) [
        | inl e ↦ rw e (pass-decided cm true raw home manual l c h n ∙ (rw (s, e) refl))
        | inr e ↦ elim (Bool-cases update_fails) [
          | inl u ↦ let bad = (rw (e, u) at ok) in absurd (ground (arith, bad))
          | inr u ↦
              rw (e, u)
                (pass-recorded cm raw home raw' manual l h n (
                  set_ids_address_vars-IsHeldIn unmarshal marshal keeps raw home
                    (codes "!$HOME_NET") raw' changed s))
        ]
      ]

  -- The early returns.
  pass-early :
      (cm : Source) (update_fails : Bool)
      → ((value_of source_label cm.labels == codes "true") ≡ false → pass update_fails cm ≡ same cm)
        × (lookup config_key cm.contents ≡ none → pass update_fails cm ≡ same cm)
  unfolding reconcile
  pass-early cm update_fails = (
    λ l. rw l refl,
    λ c. elim (Bool-cases (value_of source_label cm.labels == codes "true")) [
      | inl l ↦ rw (l, c) refl
      | inr l ↦ rw l refl
    ],
  )

  pass-undecided :
      (cm : Source) (update_fails : Bool) (raw : Text)
      → (value_of source_label cm.labels == codes "true") ≡ true
      → lookup config_key cm.contents ≡ some raw
      → desired cm raw ≡ none
      → (pass update_fails cm).failed ≡ true
  unfolding reconcile
  pass-undecided cm update_fails raw l c h = rw (l, c, h) refl

  pass-empty :
      (cm : Source) (update_fails : Bool) (raw home : Text) (manual : Bool)
      → (value_of source_label cm.labels == codes "true") ≡ true
      → lookup config_key cm.contents ≡ some raw
      → desired cm raw ≡ some (home, manual)
      → is_nil home ≡ true
      → pass update_fails cm ≡ same cm
  unfolding reconcile
  pass-empty cm update_fails raw home manual l c h n = rw (l, c, h, n) refl

  abbrev Repeats : Pass unmarshal marshal nodes svcs → Type 0
  Repeats p = pass true p.source ≡ same p.source

  stays :
      (cm : Source) (update_fails : Bool)
      → ((u : Bool) → pass u cm ≡ same cm)
      → Repeats (pass update_fails cm)
  stays cm update_fails e = rw (e update_fails) (e true)

  decided-Repeats :
      (cm : Source) (update_fails : Bool) (raw : Text) (o : Option (Text × Bool))
      → (value_of source_label cm.labels == codes "true") ≡ true
      → lookup config_key cm.contents ≡ some raw
      → desired cm raw ≡ o
      → (pass update_fails cm).failed ≡ false
      → Repeats (pass update_fails cm)
  decided-Repeats cm update_fails raw none l c h ok =
      let bad = pass-undecided cm update_fails raw l c h in absurd (ground (arith, bad, ok))
  decided-Repeats cm update_fails raw (some (home, manual)) l c h ok =
      elim (Bool-cases (is_nil home)) [
        | inl n ↦ stays cm update_fails (λ u. pass-empty cm u raw home manual l c h n)
        | inr n ↦
            let whole = pass-decided cm update_fails raw home manual l c h n in
            subst Repeats (sym whole) (
              written-repeats cm update_fails raw home manual _ l c h n refl
                (subst (λ p. p.failed ≡ false) whole ok))
      ]

  -- If the YAML library reads back the two variables that it prints, then after a pass that
  -- returns no error a second pass over the same nodes and Services leaves the source as it is and
  -- updates nothing, even where the server refuses updates: a value that was derived is derived
  -- again and equal, and one that was pinned stays.
  pub reconcile-repeats :
      (cm : Source) (update_fails : Bool)
      → (reconcile unmarshal marshal nodes svcs update_fails cm).failed ≡ false
      → let p = reconcile unmarshal marshal nodes svcs update_fails cm in
        reconcile unmarshal marshal nodes svcs true p.source
        ≡ record { source = p.source; updated = false; failed = false }
  reconcile-repeats cm update_fails ok =
      elim (Bool-cases (value_of source_label cm.labels == codes "true")) [
        | inr l ↦ stays cm update_fails (λ u. (pass-early cm u).0 l)
        | inl l ↦ elim (Option-cases (lookup config_key cm.contents)) [
          | inl c ↦ stays cm update_fails (λ u. (pass-early cm u).1 c)
          | inr c ↦ decided-Repeats cm update_fails c.0 (desired cm c.0) l c.1 refl ok
        ]
      ]
