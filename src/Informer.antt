-- ===== src/Informer.antt =====
-- crates/synchrotron-kube/src/informer: one watched kind of resource. `session` is the loop of
-- `spawn_session` over the items of the watch stream, `supervise` the loop of `supervisor` over the health
-- states that it observes; the stream and the states are the inputs.
pub mod Protocol
pub mod Supervision
pub mod Samples
use synchrotron.Base.{Bool, true, false, Option, none, some, List, [], ◌∷◌, ◌++◌}
use synchrotron.Base.Options.{unwrap_or}
use synchrotron.Base.Result.{Result, ok, err}
use synchrotron.Monitor.{HealthState, unknown, is_up}

pub data InformerEvent (K : Type 0) : Type 0 where
  applied : K → InformerEvent K
  deleted : K → InformerEvent K
  restarted : List K → InformerEvent K

-- The kube crate's `watcher::Event`
pub data WatchEvent (K : Type 0) : Type 0 where
  apply : K → WatchEvent K
  delete : K → WatchEvent K
  init : WatchEvent K
  init_apply : K → WatchEvent K
  init_done : WatchEvent K

module _ {K : Type 0} where
  -- An object of a list that was never begun is passed on.
  abbrev pub buffered : Option (List K) → K → Option (List K) × List (InformerEvent K)
  buffered none obj = (none, applied obj ∷ [])
  buffered (some buf) obj = (some (buf ++ obj ∷ []), [])

  -- The buffer after an event of the watch, and what is sent.
  abbrev pub watch_event : Option (List K) → WatchEvent K → Option (List K) × List (InformerEvent K)
  watch_event init_buf (apply obj) = (init_buf, applied obj ∷ [])
  watch_event init_buf (delete obj) = (init_buf, deleted obj ∷ [])
  watch_event init_buf init = (some [], [])
  watch_event init_buf (init_apply obj) = buffered init_buf obj
  watch_event init_buf init_done = (none, restarted (unwrap_or [] init_buf) ∷ [])

  unfoldable pub session :
      {E : Type 0} → Option (List K) → List (Result (WatchEvent K) E) → List (InformerEvent K)
  session init_buf [] = []
  session init_buf (err e ∷ items) = []
  session init_buf (ok event ∷ items) =
      (watch_event init_buf event).1 ++ session (watch_event init_buf event).0 items

-- What the supervisor does to the watch session.
pub data Action : Type 0 where
  start abort : Action

pub record Supervisor : Type 0 where
  pub has_session : Bool
  pub last_state : HealthState

abbrev pub idle : Supervisor
idle = record { has_session = false; last_state = unknown }

-- `session.take()` and the abort of what it holds
abbrev pub take_session : Bool → List Action
take_session true = abort ∷ []
take_session false = []

abbrev pub on_state : (has_session was_up now_up : Bool) → Bool × List Action
on_state has_session false true = (true, start ∷ [])
on_state has_session true false = (false, take_session has_session)
on_state has_session false false = (has_session, [])
on_state has_session true true = (has_session, [])

abbrev pub observe : Supervisor → HealthState → Supervisor × List Action
observe s current =
    let (has_session, actions) = on_state s.has_session (is_up s.last_state) (is_up current) in
    (record { has_session = has_session; last_state = current }, actions)

-- The states end when their sender is dropped.
unfoldable pub supervise : Supervisor → List HealthState → List Action
supervise s [] = take_session s.has_session
supervise s (current ∷ states) = (observe s current).1 ++ supervise (observe s current).0 states
