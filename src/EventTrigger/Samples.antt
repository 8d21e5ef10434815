-- ===== src/EventTrigger/Samples.antt =====
-- Tests of the event trigger, and its theorem at a concrete event.
use synchrotron.Base.{
  ℕ, ◌+◌, ◌≡◌, refl, List, [], ◌∷◌, String, String_eq, ◌==◌, arith, if◌then◌else◌,
}
use synchrotron.Base.Map.{get, insert}
use synchrotron.Pool.{Pool, default_config, new, poll, enqueue_coalesce, enqueue_impl}
use synchrotron.Pool.Validity.{new-IsValid}
use synchrotron.AutoHeal.Ticks.{Takes}
use synchrotron.EventTrigger.{
  repo_changed, webhook_triggered, app_changed, github, enqueue_all, dispatch_event,
}
use synchrotron.EventTrigger.Dispatch.{
  queue_of, Schedules, is_for, trigger_for, dispatch_event-Schedules,
}

abbrev resolver : String → List String
resolver repo = if repo == "infra" then "guestbook" ∷ "billing" ∷ [] else []

abbrev next : ℕ → ℕ
next now = now + 1

abbrev idle : Pool
idle = new default_config

polled_then_hooked :
    queue_of
      (dispatch_event resolver next
        (webhook_triggered "infra" github)
        7
        (dispatch_event resolver next (repo_changed "infra" "abc123") 5 idle))
      "billing"
    ≡ record { app_id = "billing"; trigger = poll; enqueued_at = 6 } ∷ []
unfolding dispatch_event enqueue_all enqueue_coalesce enqueue_impl get insert
polled_then_hooked = refl

changed_app_waits : dispatch_event resolver next (app_changed "guestbook" "infra") 5 idle ≡ idle
unfolding dispatch_event
changed_app_waits = refl

dispatch_event-Schedules_example :
    Takes (dispatch_event resolver next (repo_changed "infra" "abc123") 5 idle)
    × ((app : String)
        → Schedules
            (is_for resolver (repo_changed "infra" "abc123") app)
            (trigger_for (repo_changed "infra" "abc123"))
            app
            idle
            (dispatch_event resolver next (repo_changed "infra" "abc123") 5 idle))
dispatch_event-Schedules_example =
    dispatch_event-Schedules resolver next (repo_changed "infra" "abc123") 5 idle
      (new-IsValid default_config, refl, omega arith)
