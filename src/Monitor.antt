-- ===== src/Monitor.antt =====
-- crates/synchrotron-kube/src/health/state.rs: the state machine of a cluster's probe loop. Durations are
-- nanoseconds.
pub mod Backoff
pub mod Samples
use synchrotron.Base.{
  ℕ, zero, suc, ◌+◌, ◌-◌, ◌*◌, ◌%◌, ◌^◌, min, Bool, true, false, ◌&&◌, String, if◌then◌else◌,
  nat_eq, ltb, List, [], ◌∷◌,
}

pub data HealthState : Type 0 where
  unknown up : HealthState
  down : ℕ → String → HealthState

pub record HealthConfig : Type 0 where
  pub interval : ℕ
  pub probe_timeout : ℕ
  pub reconnect_after : ℕ
  pub initial_backoff : ℕ
  pub max_backoff : ℕ

abbrev seconds : ℕ
seconds = 1000000000

abbrev pub default_config : HealthConfig
default_config = record {
  interval = 15 * seconds;
  probe_timeout = 5 * seconds;
  reconnect_after = 5;
  initial_backoff = 1 * seconds;
  max_backoff = 60 * seconds;
}

-- `Duration::MAX`
abbrev pub duration_max : ℕ
duration_max = (2 ^ 64 - 1) * 1000000000 + 999999999

pub record Tracker : Type 0 where
  pub state : HealthState
  pub config : HealthConfig
  pub backoff : ℕ

abbrev pub new : HealthConfig → Tracker
new config = record { state = unknown; config = config; backoff = 0 }

unfoldable pub record_success : Tracker → Tracker
record_success t = record t { backoff = 0; state = up }

abbrev pub prev_failures : HealthState → ℕ
prev_failures unknown = 0
prev_failures up = 0
prev_failures (down failures error) = failures

abbrev pub next_backoff : HealthConfig → ℕ → ℕ
next_backoff config backoff =
    if nat_eq backoff 0
    then config.initial_backoff
    else min (min (backoff * 2) duration_max) config.max_backoff

unfoldable pub record_failure : Tracker → String → Tracker
record_failure t error = record t {
  backoff = next_backoff t.config t.backoff;
  state = down (min (prev_failures t.state + 1) (2 ^ 32 - 1)) error;
}

unfoldable pub is_up : HealthState → Bool
is_up up = true
is_up _ = false

unfoldable pub is_down : HealthState → Bool
is_down (down failures error) = true
is_down _ = false

abbrev pub sleep_in : HealthState → ℕ → ℕ → ℕ
sleep_in (down failures error) backoff interval = backoff
sleep_in _ backoff interval = interval

unfoldable pub sleep_duration : Tracker → ℕ
sleep_duration t = sleep_in t.state t.backoff t.config.interval

abbrev pub reconnect_in : HealthState → ℕ → Bool
reconnect_in (down failures error) after =
    ltb 0 failures && ltb 0 after && nat_eq (failures % after) 0
reconnect_in _ after = false

unfoldable pub should_reconnect : Tracker → Bool
should_reconnect t = reconnect_in t.state t.config.reconnect_after
