-- ===== src/Debounce/Owed.antt =====
-- What the debouncer owes the pool, crates/synchrotron-reconcile/src/debounce.rs.
use synchrotron.Base.{
  ℕ, ◌≡◌, Option, none, some, List, [], ◌∷◌, ◌++◌, String, ◌==◌, String_eq, if◌then◌else◌,
}
use synchrotron.Base.Map.{Map, get, KeysNodup}
use synchrotron.Pool.{Pool, Trigger, enqueue_coalesce}
use synchrotron.Pool.Lifecycle.{Step as PoolStep}
use synchrotron.Debounce.{Debouncer, PendingEntry, current}
use synchrotron.Debounce.Lifecycle.{Step, arrives, wakes, flushes, pool_steps, Reach, start, step}

-- What a run shows from outside: events that arrive, and enqueues made on the pool.
pub data Event : Type 0 where
  arrived fired : String → Trigger → Event

abbrev pub fired_by : String → Option Trigger → List Event
fired_by app none = []
fired_by app (some trigger) = fired app trigger ∷ []

abbrev pub flushed_by : Map String PendingEntry → List Event
flushed_by [] = []
flushed_by ((app, entry) ∷ m) = fired app entry.trigger ∷ flushed_by m

abbrev pub events_of : {d e : Debouncer} → Step d e → List Event
events_of (arrives app trigger now) = arrived app trigger ∷ []
events_of {d} (wakes before t later now split due) =
    fired_by t.app_id (current (get d.pending t.app_id) t.generation)
events_of {d} (flushes now) = flushed_by d.pending
events_of (pool_steps q s) = []

abbrev pub log : {d e : Debouncer} → Reach d e → List Event
log start = []
log (step r s) = log r ++ events_of s

-- The enqueues on the pool that the events stand for, at one instant.
abbrev pub enqueue_each : ℕ → List Event → Pool → Pool
enqueue_each now [] p = p
enqueue_each now (arrived app trigger ∷ es) p = enqueue_each now es p
enqueue_each now (fired app trigger ∷ es) p =
    enqueue_each now es (enqueue_coalesce p app trigger now).1

-- The step does to the pool what its events say, or is a step of the pool's own.
abbrev pub Sends : {d e : Debouncer} → Step d e → Type 0
Sends {d} {e} (arrives app trigger now) = e.pool ≡ d.pool
Sends {d} {e} (wakes before t later now split due) =
    e.pool
    ≡ enqueue_each now (fired_by t.app_id (current (get d.pending t.app_id) t.generation)) d.pool
Sends {d} {e} (flushes now) = e.pool ≡ enqueue_each now (flushed_by d.pending) d.pool
Sends {d} {e} (pool_steps q s) = PoolStep d.pool e.pool

abbrev pub AllSend : {d e : Debouncer} → Reach d e → Type 0
AllSend start = Unit {0}
AllSend (step r s) = AllSend r × Sends s

-- The specification: the trigger owed for each app is that of its last event since it was fired.
abbrev pub Owed : Type 0
Owed = String → Option Trigger

abbrev pub note : Owed → Event → Owed
note w (arrived app trigger) a = if app == a then some trigger else w a
note w (fired app trigger) a = if app == a then none else w a

abbrev pub owed_after : Owed → List Event → Owed
owed_after w [] = w
owed_after w (e ∷ es) = owed_after (note w e) es

-- Every enqueue on the pool was owed, with that very trigger.
abbrev Allowed : Owed → Event → Type 0
Allowed w (arrived app trigger) = Unit {0}
Allowed w (fired app trigger) = w app ≡ some trigger

abbrev pub PaysOwed : Owed → List Event → Type 0
PaysOwed w [] = Unit {0}
PaysOwed w (e ∷ es) = Allowed w e × PaysOwed (note w e) es

abbrev pub owes : Option PendingEntry → Option Trigger
owes none = none
owes (some entry) = some entry.trigger

-- The debouncer's table refines the specification.
record Refines (w : Owed) (m : Map String PendingEntry) : Type 0 where
  keys : KeysNodup m
  agrees : (a : String) → w a ≡ owes (get m a)

abbrev pub nothing_owed : Owed
nothing_owed a = none
