-- ===== src/EventTrigger.antt =====
-- crates/synchrotron-reconcile/src/trigger.rs: which apps an event of the bus
-- (crates/synchrotron-core/src/events.rs) enqueues. The resolver is a parameter, and so is `clock`, the
-- instant that the enqueue after one at the given instant reads.
-- Nothing else acts on the pool between the enqueues of one event.
pub mod Dispatch
pub mod Samples
use synchrotron.Base.{ℕ, Option, none, some, List, [], ◌∷◌, String}
use synchrotron.Health.{HealthStatusCode}
use synchrotron.Reconcile.Report.{SyncOutcome}
use synchrotron.Pool.{Pool, Trigger, poll, webhook, manual, enqueue_coalesce}

pub data WebhookSource : Type 0 where
  github gitlab bitbucket : WebhookSource

pub data SystemEvent : Type 0 where
  repo_changed : (repo new_head : String) → SystemEvent
  repo_unchanged : (repo head : String) → SystemEvent
  repo_fetch_failed : (repo error : String) → SystemEvent
  webhook_triggered : (repo : String) → WebhookSource → SystemEvent
  sync_outcome : SyncOutcome → SystemEvent
  manual_sync_requested : (app : String) → SystemEvent
  app_changed : (app repo : String) → SystemEvent
  app_health_assessed : (app cluster : String) → HealthStatusCode → Option String → SystemEvent

module _ (apps_for_repo : String → List String) where
  -- The apps that an event is for, and the trigger of their jobs.
  abbrev pub targets : SystemEvent → Option (List String × Trigger)
  targets (repo_changed repo new_head) = some (apps_for_repo repo, poll)
  targets (webhook_triggered repo source) = some (apps_for_repo repo, webhook)
  targets (manual_sync_requested app) = some (app ∷ [], manual)
  targets (repo_unchanged repo head) = none
  targets (repo_fetch_failed repo error) = none
  targets (sync_outcome outcome) = none
  targets (app_health_assessed app cluster status message) = none
  targets (app_changed app repo) = none

-- The loop over the apps; what an enqueue answers is only logged.
unfoldable pub enqueue_all : (ℕ → ℕ) → List String → Trigger → ℕ → Pool → Pool
enqueue_all clock [] trigger now p = p
enqueue_all clock (app ∷ apps) trigger now p =
    enqueue_all clock apps trigger (clock now) (enqueue_coalesce p app trigger now).1

abbrev pub enqueue_targets : (ℕ → ℕ) → Option (List String × Trigger) → ℕ → Pool → Pool
enqueue_targets clock none now p = p
enqueue_targets clock (some (apps, trigger)) now p = enqueue_all clock apps trigger now p

unfoldable pub dispatch_event : (String → List String) → (ℕ → ℕ) → SystemEvent → ℕ → Pool → Pool
unfolding enqueue_all
dispatch_event apps_for_repo clock event now p =
    enqueue_targets clock (targets apps_for_repo event) now p
