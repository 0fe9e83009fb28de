-- ===== src/Signal/Trace.antt =====
-- controllers/signal.go: the runs of the debouncer, with the timers of the runtime beside it.
use moat_operator.Base.{
  ℕ, Bool, true, false, List, [], ◌∷◌, ◌++◌, ◌+◌, ◌-◌, ◌≤◌, ◌<◌, ◌≡◌, ◌≢◌, refl, arith, ◌⊎◌, inl,
  inr, ap, sym, ◌∙◌, Bool-cases, eqb, leb, ◌||◌,
}
use moat_operator.Signal.{Debouncer, Effect, calls_do, nothing, sets_timer, trigger, expire}

-- What a run has seen: the debouncer, the times at which the timers set are due, the clock, and
-- the last trigger and the last call of `do`, each 0 before the first.
pub record Run : Type 0 where
  pub state : Debouncer
  pub timers : List ℕ
  pub clock : ℕ
  pub asked : ℕ
  pub done : ℕ

abbrev pub asked_at : ℕ → Debouncer × Effect → Run → Run
asked_at now (d, calls_do) r = record r { state = d; clock = now; asked = now; done = now }
asked_at now (d, nothing) r = record r { state = d; clock = now; asked = now }
asked_at now (d, sets_timer due) r = record r {
  state = d;
  timers = due ∷ r.timers;
  clock = now;
  asked = now;
}

abbrev pub expired_at : ℕ → List ℕ → Run → Run
expired_at now left r = record r {
  state = expire now r.state;
  timers = left;
  clock = now;
  done = now;
}

-- Time passes between steps. A timer runs once, when it is due or later, and is then gone; nothing
-- says that the debouncer knows of it.
pub data Step (window : ℕ) : Run → Run → Type 0 where
  triggered :
      {r : Run} (now : ℕ)
      → r.clock ≤ now
      → Step window r (asked_at now (trigger window now r.state) r)
  expired :
      {r : Run} (now due : ℕ) (front back : List ℕ)
      → r.timers ≡ front ++ due ∷ back
      → r.clock ≤ now
      → due ≤ now
      → Step window r (expired_at now (front ++ back) r)

abbrev pub new_run : Run
new_run = record {
  state = record { last = 0; pending = false };
  timers = [];
  clock = 0;
  asked = 0;
  done = 0;
}

pub data Reachable (window : ℕ) : Run → Type 0 where
  started : Reachable window new_run
  stepped : {r s : Run} → Reachable window r → Step window r s → Reachable window s

-- No timer is set and the last trigger has been followed by a call of `do`; or one timer is set,
-- due at most one window after the last call.
abbrev pub IsServed : ℕ → Bool → Run → Type 0
IsServed window false r = (r.timers ≡ []) × (r.asked ≤ r.done)
IsServed window true r = (due : ℕ) × (r.timers ≡ due ∷ []) × (due ≤ r.done + window)

-- The flag `pending` says which, and `last` is the time of the last call.
abbrev pub IsKept : ℕ → Run → Type 0
IsKept window r =
    IsServed window r.state.pending r
    × (r.state.last ≡ r.done)
    × (r.done ≤ r.clock)
    × (r.asked ≤ r.clock)

-- The test of `trigger`: the window after the last call of `do` is over.
abbrev pub is_over : ℕ → ℕ → ℕ → Bool
is_over window last now = eqb window 0 || leb (last + window) now

module _ (window last : ℕ) (timers : List ℕ) (clock asked done now : ℕ) where
  abbrev run_of : Bool → Run
  run_of p = record {
    state = record { last = last; pending = p };
    timers = timers;
    clock = clock;
    asked = asked;
    done = done;
  }

  trigger-IsKept :
      (p : Bool)
      → IsServed window p (run_of p)
      → last ≡ done
      → done ≤ clock
      → asked ≤ clock
      → clock ≤ now
      → IsKept window (asked_at now (trigger window now (run_of p).state) (run_of p))
  unfolding trigger
  trigger-IsKept false (s, a) e d q t = elim (Bool-cases (is_over window last now)) [
    | inl over ↦ rw over ((s, omega arith), refl, omega arith, omega arith)
    | inr over ↦ rw over (
      (
        now + (window - (now - last)),
        ap (λ l. (now + (window - (now - last))) ∷ l) s,
        ground (arith, over, e, d, t),
      ),
      e,
      omega (arith, d, t),
      omega arith,
    )
  ]
  trigger-IsKept true (due, s, b) e d q t = elim (Bool-cases (is_over window last now)) [
    | inl over ↦ rw over ((due, s, omega (arith, b, d, t)), refl, omega arith, omega arith)
    | inr over ↦ rw over ((due, s, b), e, omega (arith, d, t), omega arith)
  ]

-- A timer that is set is the only one.
only_timer :
    (front back : List ℕ) (due set : ℕ) → set ∷ [] ≡ front ++ due ∷ back → front ++ back ≡ []
only_timer [] back due set h = ground (arith, h)
only_timer (x ∷ []) back due set h = absurd (ground (arith, h))
only_timer (x ∷ y ∷ front) back due set h = absurd (ground (arith, h))

expire-IsServed :
    (window : ℕ) (p : Bool) (r : Run) (now due : ℕ) (front back : List ℕ)
    → IsServed window p r
    → r.timers ≡ front ++ due ∷ back
    → front ++ back ≡ []
expire-IsServed window false r now due [] back (s, a) e = absurd (ground (arith, s, e))
expire-IsServed window false r now due (x ∷ front) back (s, a) e = absurd (ground (arith, s, e))
expire-IsServed window true r now due front back (set, s, b) e =
    only_timer front back due set (sym s ∙ e)

Step-IsKept : (window : ℕ) {r s : Run} → Step window r s → IsKept window r → IsKept window s
unfolding expire
Step-IsKept window (triggered {r} now t) (s, e, d, q) =
    trigger-IsKept window r.state.last r.timers r.clock r.asked r.done now r.state.pending s e d q t
Step-IsKept window (expired {r} now due front back e t u) (s, l, d, q) = (
  (expire-IsServed window r.state.pending r now due front back s e, omega (arith, q, t)),
  refl,
  omega arith,
  omega (arith, q, t),
)

Reachable-IsKept : (window : ℕ) {r : Run} → Reachable window r → IsKept window r
Reachable-IsKept window started = ((refl, omega arith), refl, omega arith, omega arith)
Reachable-IsKept window (stepped h s) = Step-IsKept window s (Reachable-IsKept window h)

-- Wherever the clock stands, the timer can run once it is due, and then all is served.
abbrev pub IsDue : ℕ → Run → ℕ → Type 0
IsDue window r due =
    (r.timers ≡ due ∷ [])
    × (due ≤ r.done + window)
    × ((now : ℕ)
        → r.clock ≤ now
        → due ≤ now
        → (s : Run) × Step window r s × (s.clock ≡ now) × (s.timers ≡ []) × (s.asked ≤ s.done))

served_by :
    (window : ℕ) (p : Bool) (r : Run)
    → IsServed window p r
    → r.asked ≤ r.clock
    → ((r.timers ≡ []) × (r.asked ≤ r.done)) ⊎ ((due : ℕ) × IsDue window r due)
served_by window false r s q = inl s
served_by window true r (due, e, b) q =
    inr (due, (e, b, λ now t u. (_, expired now due [] [] e t u, refl, refl, omega (arith, q, t))))

quiet :
    (window : ℕ) (d : Debouncer) (now : ℕ)
    → d.last ≤ now
    → now < d.last + window
    → (trigger window now d).1 ≢ calls_do
unfolding trigger
quiet window d now g h k = ground (arith, g, h, k)

-- In every run of triggers and timers, either no timer is set and the last trigger has been
-- followed by a call of `do`; or exactly one timer is set, due at most one window after the last
-- call of `do`, and whenever it runs, at the run's clock or later and not before it is due, all
-- triggers have been followed by a call and no timer is left. And a trigger at the run's clock or
-- later, less than a window after the last call of `do`, does not call `do` itself. Before the
-- first call, the time of the last call is 0.
pub Reachable-served :
    (window : ℕ) (r : Run)
    → Reachable window r
    → (((r.timers ≡ []) × (r.asked ≤ r.done)) ⊎ ((due : ℕ) × IsDue window r due))
      × ((now : ℕ)
          → r.clock ≤ now
          → now < r.done + window
          → (trigger window now r.state).1 ≢ calls_do)
Reachable-served window r h =
    let (s, e, d, q) = Reachable-IsKept window h in
    (
      served_by window r.state.pending r s q,
      λ now t u. quiet window r.state now (omega (arith, e, d, t)) (rw e u),
    )
