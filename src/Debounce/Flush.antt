-- ===== src/Debounce/Flush.antt =====
-- A flush between two events of one app, crates/synchrotron-reconcile/src/debounce.rs.
use mathlib.Core.List.{append_assoc}
use synchrotron.Base.{
  ℕ, ◌+◌, ◌<◌, ◌≡◌, refl, ap, ◌∙◌, none, some, List, [], ◌∷◌, ◌++◌, String, String_eq, eq_self,
  arith,
}
use synchrotron.Base.Map.{Map, get, get-insert, get-remove}
use synchrotron.Pool.{Trigger, enqueue_coalesce}
use synchrotron.Debounce.{
  Debouncer, Timer, PendingEntry, bump, enqueue, current, fire, fire_if_current, wake, send,
  send_all, flush_now,
}
use synchrotron.Debounce.Timers.{send_all_pending}

send_all_window :
    (d : Debouncer) (m : Map String PendingEntry) (now : ℕ) → (send_all d m now).window ≡ d.window
unfolding send_all
send_all_window d [] now = refl
send_all_window d ((app, entry) ∷ m) now = send_all_window (send d app entry.trigger now) m now

-- The first event of a burst.
first_event :
    (d : Debouncer) (app : String) (trigger : Trigger) (now : ℕ)
    → get d.pending app ≡ none
    → ((enqueue d app trigger now).timers
        ≡ d.timers ++ record { app_id = app; generation = 1; due = now + d.window } ∷ [])
      × (get (enqueue d app trigger now).pending app
          ≡ some (record { trigger = trigger; generation = 1 }))
unfolding enqueue
first_event d app trigger now none_pending =
    let fresh : bump (get d.pending app) trigger ≡ record { trigger = trigger; generation = 1 } =
      ap (λ o. bump o trigger) none_pending in
    (
      ap
          (λ (x : PendingEntry).
            d.timers
            ++ record { app_id = app; generation = x.generation; due = now + d.window } ∷ [])
          fresh,
      rw (get-insert, eq_self app) (ap some fresh),
    )

wake_fires :
    (e : Debouncer) (t : Timer) (others : List Timer) (now : ℕ) (trigger : Trigger)
    → current (get e.pending t.app_id) t.generation ≡ some trigger
    → (get (wake e t others now).pending t.app_id ≡ none)
      × ((wake e t others now).pool ≡ (enqueue_coalesce e.pool t.app_id trigger now).1)
unfolding wake fire_if_current
wake_fires e t others now trigger h = (
  ap (λ o. get (fire (record e { timers = others }) t.app_id now o).pending t.app_id) h
      ∙ get-remove e.pending t.app_id t.app_id
      ∙ rw (eq_self t.app_id) refl,
  ap (λ o. (fire (record e { timers = others }) t.app_id now o).pool) h,
)

-- A flush leaves the timer of the first event asleep, and the next event of the app starts again at
-- the same generation: when that old timer wakes it enqueues the new event on the pool and takes it
-- from the pending ones, before the new event's own window has passed.
pub flush_fires_early :
    (d : Debouncer) (app : String) (first second : Trigger) (t1 flushed t2 : ℕ)
    → get d.pending app ≡ none
    → t1 < t2
    → let e = enqueue (flush_now (enqueue d app first t1) flushed) app second t2 in
      let old : Timer = record { app_id = app; generation = 1; due = t1 + d.window } in
      let own : Timer = record { app_id = app; generation = 1; due = t2 + d.window } in
      (e.timers ≡ d.timers ++ old ∷ own ∷ [])
      × (old.due < own.due)
      × (current (get e.pending app) old.generation ≡ some second)
      × (get (wake e old (d.timers ++ own ∷ []) old.due).pending app ≡ none)
      × ((wake e old (d.timers ++ own ∷ []) old.due).pool
          ≡ (enqueue_coalesce e.pool app second old.due).1)
flush_fires_early d app first second t1 flushed t2 none_pending before =
    (sleeping, omega arith, would_fire, gone.0, gone.1)
  where
    a : Debouncer
    a = enqueue d app first t1

    b : Debouncer
    b = flush_now a flushed

    b_keeps : (b.pending ≡ []) × (b.timers ≡ a.timers) × (b.window ≡ a.window)
    b_keeps =
        unfold flush_now in
        (
          (send_all_pending (record a { pending = [] }) a.pending flushed).0,
          (send_all_pending (record a { pending = [] }) a.pending flushed).1,
          send_all_window (record a { pending = [] }) a.pending flushed,
        )

    b_window : b.window ≡ d.window
    b_window = b_keeps.2 ∙ unfold enqueue in refl

    b_empty : get b.pending app ≡ none
    b_empty = ap (λ m. get m app) b_keeps.0 ∙ unfold get in refl

    sleeping :
        (enqueue b app second t2).timers
        ≡ d.timers
          ++ record { app_id = app; generation = 1; due = t1 + d.window }
            ∷ record { app_id = app; generation = 1; due = t2 + d.window }
            ∷ []
    sleeping =
        (first_event b app second t2 b_empty).0
        ∙ ap (λ w. b.timers ++ record { app_id = app; generation = 1; due = t2 + w } ∷ []) b_window
        ∙ ap (λ ts. ts ++ record { app_id = app; generation = 1; due = t2 + d.window } ∷ [])
            (b_keeps.1 ∙ (first_event d app first t1 none_pending).0)
        ∙ append_assoc d.timers _ _

    would_fire : current (get (enqueue b app second t2).pending app) 1 ≡ some second
    would_fire = ap (λ o. current o 1) (first_event b app second t2 b_empty).1

    woken : Debouncer
    woken =
        wake (enqueue b app second t2)
          (record { app_id = app; generation = 1; due = t1 + d.window })
          (d.timers ++ record { app_id = app; generation = 1; due = t2 + d.window } ∷ [])
          (t1 + d.window)

    gone :
        (get woken.pending app ≡ none)
        × (woken.pool
            ≡ (enqueue_coalesce (enqueue b app second t2).pool app second (t1 + d.window)).1)
    gone =
        wake_fires (enqueue b app second t2)
          (record { app_id = app; generation = 1; due = t1 + d.window }) _ _ second would_fire
