-- ===== src/Tests/Files.antt =====
-- A projection, and the debouncer.
use moat_operator.Base.{
  ◌<◌, ◌≢◌, ℕ, true, false, ◌&&◌, some, [], ◌∷◌, ◌+◌, ◌≤◌, Text, codes, Map, lookup, insert, keys,
  option_or, is_some, ◌==◌, if◌then◌else◌, Has, ◌≡◌, refl, ◌⊎◌, inl, inr, arith, sort, contains,
  sym, subst, contains_char, text_leb,
}
use moat_operator.Kube.{NamespacedName}
use moat_operator.ConfigSync.{
  Faults, done, Disk, tmp_file, write_if_changed, safe_key, out_file, Syncer, selected, Got, found,
  Projection, sync_one,
}
use moat_operator.ConfigSync.Safe.{write_if_changed-atomic}
use moat_operator.ConfigSync.Sync.{sync_one-settles, sync_one-confined}
use moat_operator.Signal.{trigger, expire, calls_do}
use moat_operator.Signal.Trace.{
  Run, Reachable, started, stepped, triggered, expired, IsDue, Reachable-served,
}

abbrev no_faults : Faults
no_faults = record { write = λ path. done; rename = λ path. false }

abbrev syncer : Syncer
syncer = record { out_dir = codes "/etc/synapse"; only = []; signals = true }

abbrev contents : Map Text
contents = (codes "upstreams.yaml", codes "new") ∷ (codes "../passwd", codes "x") ∷ []

abbrev source : NamespacedName
source = record { namespace = codes "shop"; name = codes "config" }

abbrev get : NamespacedName → Got
get key = found contents

abbrev disk : Disk
disk = (codes "/etc/synapse/upstreams.yaml", codes "old") ∷ (codes "/etc/hosts", codes "h") ∷ []

abbrev target : Text
target = codes "/etc/synapse/upstreams.yaml"

not_tmp : (tmp_file target == codes "/etc/hosts") ≡ false
unfolding ◌==◌
not_tmp = refl

write_if_changed-atomic_example :
    lookup (codes "/etc/hosts") (write_if_changed no_faults target (codes "new") disk).0 ≡ (
      if is_some (write_if_changed no_faults target (codes "new") disk).1
        && (target == codes "/etc/hosts")
      then some (codes "new")
      else lookup (codes "/etc/hosts") disk)
write_if_changed-atomic_example =
    write_if_changed-atomic no_faults target (codes "new") disk (codes "/etc/hosts") not_tmp

apart_keys :
    (j k : Text) → Has j (keys contents) → Has k (keys contents) → (tmp_file j == k) ≡ false
unfolding ◌==◌
apart_keys j k (inl e) (inl f) = rw (e, f) refl
apart_keys j k (inl e) (inr (inl f)) = rw (e, f) refl
apart_keys j k (inr (inl e)) (inl f) = rw (e, f) refl
apart_keys j k (inr (inl e)) (inr (inl f)) = rw (e, f) refl
apart_keys j k (inl e) (inr (inr g)) = elim g [ ]
apart_keys j k (inr (inl e)) (inr (inr g)) = elim g [ ]
apart_keys j k (inr (inr g)) h = elim g [ ]

sync-ok : (sync_one syncer no_faults get source disk).failed ≡ false
unfolding sync_one sort ◌==◌ contains contains_char lookup insert text_leb safe_key write_if_changed
sync-ok = refl

abbrev synced : Projection
synced = sync_one syncer no_faults get source disk

upstreams-wanted :
    (selected syncer (codes "upstreams.yaml") && safe_key (codes "upstreams.yaml")) ≡ true
unfolding safe_key contains contains_char ◌==◌
upstreams-wanted = refl

sync_one-settles_example :
    (lookup (out_file syncer.out_dir (codes "upstreams.yaml")) synced.disk
      ≡ some (option_or (lookup (codes "upstreams.yaml") contents) []))
    × (sync_one syncer no_faults get source synced.disk
        ≡ record { disk = synced.disk; changed = 0; failed = false })
sync_one-settles_example =
    sync_one-settles syncer no_faults contents get source disk refl apart_keys sync-ok
      (codes "upstreams.yaml") (inl refl) upstreams-wanted

abbrev IsNotHosts : Text → Type 0
IsNotHosts k =
    ((out_file syncer.out_dir k == codes "/etc/hosts") ≡ false)
    × ((tmp_file (out_file syncer.out_dir k) == codes "/etc/hosts") ≡ false)

upstreams-IsNotHosts : IsNotHosts (codes "upstreams.yaml")
unfolding ◌==◌
upstreams-IsNotHosts = (refl, refl)

passwd-IsNotHosts : IsNotHosts (codes "../passwd")
unfolding ◌==◌
passwd-IsNotHosts = (refl, refl)

not_hosts :
    (k : Text)
    → Has k (keys contents)
    → (selected syncer k && safe_key k) ≡ true
    → ((out_file syncer.out_dir k == codes "/etc/hosts") ≡ false)
      × ((tmp_file (out_file syncer.out_dir k) == codes "/etc/hosts") ≡ false)
not_hosts k (inl e) w = subst IsNotHosts (sym e) upstreams-IsNotHosts
not_hosts k (inr (inl e)) w = subst IsNotHosts (sym e) passwd-IsNotHosts
not_hosts k (inr (inr g)) w = elim g [ ]

sync_one-confined_example :
    lookup (codes "/etc/hosts") synced.disk ≡ lookup (codes "/etc/hosts") disk
sync_one-confined_example =
    sync_one-confined syncer no_faults contents get source disk refl (codes "/etc/hosts") not_hosts

-- A signal, a second one within the window, the timer that it sets, and a third signal.
abbrev last_run : Run
last_run = record {
  state = record { last = 1100; pending = true };
  timers = 1200 ∷ [];
  clock = 1140;
  asked = 1140;
  done = 1100;
}

last_run-Reachable : Reachable 100 last_run
unfolding trigger expire
last_run-Reachable =
    stepped
      (stepped
        (stepped (stepped started (triggered 1000 (omega arith))) (triggered 1040 (omega arith)))
        (expired 1100 1100 [] [] refl (omega arith) (omega arith)))
      (triggered 1140 (omega arith))

Reachable-served_example :
    (((last_run.timers ≡ []) × (last_run.asked ≤ last_run.done))
      ⊎ ((due : ℕ) × IsDue 100 last_run due))
    × ((now : ℕ)
        → last_run.clock ≤ now
        → now < last_run.done + 100
        → (trigger 100 now last_run.state).1 ≢ calls_do)
Reachable-served_example = Reachable-served 100 last_run last_run-Reachable
