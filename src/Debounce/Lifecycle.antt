-- ===== src/Debounce/Lifecycle.antt =====
-- The runs of the debouncer of crates/synchrotron-reconcile/src/debounce.rs: producers enqueue, timers
-- wake once they are due, in any order, the owner flushes, and the pool does its own steps between.
use synchrotron.Base.{ℕ, ◌≤◌, ◌≡◌, List, ◌∷◌, ◌++◌, String}
use synchrotron.Pool.{Pool, Trigger}
use synchrotron.Pool.Lifecycle.{Step as PoolStep}
use synchrotron.Debounce.{Debouncer, Timer, enqueue, wake, flush_now}

pub data Step (d : Debouncer) : Debouncer → Type 0 where
  arrives : (app : String) (trigger : Trigger) (now : ℕ) → Step d (enqueue d app trigger now)
  wakes :
      (before : List Timer) (t : Timer) (later : List Timer) (now : ℕ)
      → d.timers ≡ before ++ t ∷ later
      → t.due ≤ now
      → Step d (wake d t (before ++ later) now)
  flushes : (now : ℕ) → Step d (flush_now d now)
  pool_steps : (q : Pool) → PoolStep d.pool q → Step d (record d { pool = q })

pub data Reach (d : Debouncer) : Debouncer → Type 0 where
  start : Reach d d
  step : {e f : Debouncer} → Reach d e → Step e f → Reach d f
