-- ===== src/Debounce/Samples.antt =====
-- Tests of the debouncer, and its theorems at concrete inputs.
use synchrotron.Base.{◌<◌, ◌≡◌, refl, true, none, some, [], ◌∷◌, ◌++◌, String_eq, arith}
use synchrotron.Base.Map.{get, insert}
use synchrotron.Pool.{webhook, poll, manual, auto_heal, enqueue_coalesce, enqueue_impl}
use synchrotron.Pool as Pool
use synchrotron.Debounce.{Debouncer, Timer, default_config, new, enqueue, current, wake, flush_now}
use synchrotron.Debounce.Lifecycle.{Reach, start, step, arrives, wakes}
use synchrotron.Debounce.Owed.{arrived, fired, log}
use synchrotron.Debounce.Timers.{armed, Reach-IsArmed}
use synchrotron.Debounce.Flush.{flush_fires_early}

abbrev quiet : Debouncer
quiet = new (Pool.new Pool.default_config) default_config

abbrev poked : Debouncer
poked = enqueue (enqueue quiet "guestbook" webhook 100) "guestbook" poll 300

abbrev second_timer : Timer
second_timer = record { app_id = "guestbook"; generation = 2; due = 500300 }

poked_timers :
    poked.timers ≡ record { app_id = "guestbook"; generation = 1; due = 500100 } ∷ second_timer ∷ []
unfolding enqueue insert get
poked_timers = refl

abbrev woken : Debouncer
woken =
    wake poked second_timer (record { app_id = "guestbook"; generation = 1; due = 500100 } ∷ [])
      500300

burst_run : Reach quiet woken
burst_run =
    step (step (step start (arrives "guestbook" webhook 100)) (arrives "guestbook" poll 300)) (
      wakes (record { app_id = "guestbook"; generation = 1; due = 500100 } ∷ []) second_timer []
        500300 poked_timers (omega arith))

-- Two events make one enqueue, with the trigger of the last.
burst_collapses :
    log burst_run
    ≡ arrived "guestbook" webhook ∷ arrived "guestbook" poll ∷ fired "guestbook" poll ∷ []
unfolding burst_run enqueue insert get
burst_collapses = refl

guestbook_entry : get poked.pending "guestbook" ≡ some (record { trigger = poll; generation = 2 })
unfolding enqueue insert get
guestbook_entry = refl

Reach-IsArmed_example : armed poked.timers "guestbook" 2 ≡ true
Reach-IsArmed_example =
    Reach-IsArmed (Pool.new Pool.default_config) default_config poked
      (step (step start (arrives "guestbook" webhook 100)) (arrives "guestbook" poll 300))
      "guestbook" (record { trigger = poll; generation = 2 }) guestbook_entry

nothing_pending : get quiet.pending "guestbook" ≡ none
unfolding get
nothing_pending = refl

flush_fires_early_example :
    let e = enqueue (flush_now (enqueue quiet "guestbook" webhook 100) 200) "guestbook" poll 300 in
    let old : Timer = record { app_id = "guestbook"; generation = 1; due = 500100 } in
    let own : Timer = record { app_id = "guestbook"; generation = 1; due = 500300 } in
    (e.timers ≡ quiet.timers ++ old ∷ own ∷ [])
    × (old.due < own.due)
    × (current (get e.pending "guestbook") old.generation ≡ some poll)
    × (get (wake e old (quiet.timers ++ own ∷ []) old.due).pending "guestbook" ≡ none)
    × ((wake e old (quiet.timers ++ own ∷ []) old.due).pool
        ≡ (enqueue_coalesce e.pool "guestbook" poll 500100).1)
flush_fires_early_example =
    flush_fires_early quiet "guestbook" webhook poll 100 200 300 nothing_pending (omega arith)
