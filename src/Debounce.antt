-- ===== src/Debounce.antt =====
-- crates/synchrotron-reconcile/src/debounce.rs: the trailing debounce in front of the worker pool.
-- A spawned timer task that still sleeps is an element of `timers`; waking it is a step of its own.
-- The instant of a call is an argument, in microseconds.
pub mod Lifecycle
pub mod Owed
pub mod Timers
pub mod Flush
pub mod Samples
use synchrotron.Base.{
  ℕ, ◌+◌, ◌*◌, ◌%◌, ◌^◌, ◌≡◌, Option, none, some, List, [], ◌∷◌, ◌++◌, String, String_eq,
  if◌then◌else◌, nat_eq,
}
use synchrotron.Base.Map.{Map, get, insert, remove}
use synchrotron.Pool.{Pool, Trigger, fetch_add, enqueue_coalesce}

pub record DebounceConfig : Type 0 where
  pub window : ℕ

abbrev pub default_config : DebounceConfig
default_config = record { window = 500 * 1000 }

pub record DebounceStats : Type 0 where
  pub accepted : ℕ
  pub fired : ℕ

pub record PendingEntry : Type 0 where
  pub trigger : Trigger
  pub generation : ℕ

-- What the task spawned by `enqueue` captures, and when its sleep ends.
pub record Timer : Type 0 where
  pub app_id : String
  pub generation : ℕ
  pub due : ℕ

pub record Debouncer : Type 0 where
  pub pool : Pool
  pub window : ℕ
  pub pending : Map String PendingEntry
  pub counters : DebounceStats
  pub timers : List Timer

abbrev pub new : Pool → DebounceConfig → Debouncer
new pool config = record {
  pool = pool;
  window = config.window;
  pending = [];
  counters = record { accepted = 0; fired = 0 };
  timers = [];
}

-- `entry(app_id).or_insert(...)` and then the two assignments.
abbrev pub bump : Option PendingEntry → Trigger → PendingEntry
bump none trigger = record { trigger = trigger; generation = 1 }
bump (some entry) trigger = record {
  trigger = trigger;
  generation = (entry.generation + 1) % 2 ^ 64;
}

unfoldable pub enqueue : Debouncer → String → Trigger → ℕ → Debouncer
enqueue d app trigger now =
    let entry = bump (get d.pending app) trigger in
    record d {
      counters = record d.counters { accepted = fetch_add d.counters.accepted 1 };
      pending = insert d.pending app entry;
      timers =
          d.timers
          ++ record { app_id = app; generation = entry.generation; due = now + d.window } ∷ [];
    }

-- `counters.fired.fetch_add(1)` and `pool.enqueue_coalesce(app, trigger)`, whose answer is only logged.
abbrev pub send : Debouncer → String → Trigger → ℕ → Debouncer
send d app trigger now = record d {
  counters = record d.counters { fired = fetch_add d.counters.fired 1 };
  pool = (enqueue_coalesce d.pool app trigger now).1;
}

-- The trigger to fire, if the entry is still that of the timer.
abbrev pub current : Option PendingEntry → ℕ → Option Trigger
current none generation = none
current (some entry) generation =
    if nat_eq entry.generation generation then some entry.trigger else none

abbrev pub fire : Debouncer → String → ℕ → Option Trigger → Debouncer
fire d app now none = d
fire d app now (some trigger) = send (record d { pending = remove d.pending app }) app trigger now

unfoldable pub fire_if_current : Debouncer → String → ℕ → ℕ → Debouncer
fire_if_current d app generation now = fire d app now (current (get d.pending app) generation)

-- The rest of a timer's task once its sleep is over; the others go on.
unfoldable pub wake : Debouncer → Timer → List Timer → ℕ → Debouncer
unfolding fire_if_current
wake d t others now = fire_if_current (record d { timers = others }) t.app_id t.generation now

unfoldable pub send_all : Debouncer → Map String PendingEntry → ℕ → Debouncer
send_all d [] now = d
send_all d ((app, entry) ∷ drained) now = send_all (send d app entry.trigger now) drained now

unfoldable pub flush_now : Debouncer → ℕ → Debouncer
unfolding send_all
flush_now d now = send_all (record d { pending = [] }) d.pending now

abbrev pub stats : Debouncer → DebounceStats
stats d = d.counters
