-- ===== src/Informer/Supervision.antt =====
-- When the supervisor of crates/synchrotron-kube/src/informer/runner.rs starts and aborts sessions.
use synchrotron.Base.{Bool, true, false, List, [], ◌∷◌}
use synchrotron.Monitor.{HealthState, is_up}
use synchrotron.Informer.{Action, start, abort, Supervisor}

-- A start for every rise and an abort for every fall.
pub edges : Bool → List Bool → List Action
edges up [] = []
edges false (true ∷ ups) = start ∷ edges true ups
edges true (false ∷ ups) = abort ∷ edges false ups
edges false (false ∷ ups) = edges false ups
edges true (true ∷ ups) = edges true ups

-- A supervisor has a session exactly as long as the last state is up.
abbrev after : HealthState → Supervisor
after last = record { has_session = is_up last; last_state = last }
