-- ===== src/Signal.antt =====
-- controllers/signal.go: the debouncer of reload signals. Times are in nanoseconds since Go's
-- zero time, at which `last` starts; a window of 0 stands for any that is not positive.
pub mod Trace
use moat_operator.Base.{ℕ, Bool, true, false, ◌||◌, ◌+◌, ◌-◌, eqb, leb, if◌then◌else◌}

-- `reloadDebouncer`: the fields that change.
pub record Debouncer : Type 0 where
  pub last : ℕ
  pub pending : Bool

-- What `trigger` does besides: it calls `do`, or nothing, or sets a timer that is due then.
pub data Effect : Type 0 where
  calls_do : Effect
  nothing : Effect
  sets_timer : (due : ℕ) → Effect

-- `trigger` at a time.
unfoldable pub trigger : ℕ → ℕ → Debouncer → Debouncer × Effect
trigger window now d =
    if eqb window 0 || leb (d.last + window) now
    then (record d { last = now }, calls_do)
    else if d.pending
    then (d, nothing)
    else (record d { pending = true }, sets_timer (now + (window - (now - d.last))))

-- The function that `time.AfterFunc` runs; it always calls `do`.
unfoldable pub expire : ℕ → Debouncer → Debouncer
expire now d = record { last = now; pending = false }
