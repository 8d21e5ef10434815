-- ===== src/AutoHeal/Samples.antt =====
-- Tests of the auto-heal tick, and its theorems at concrete inputs.
use synchrotron.Base.{All, ℕ, ◌+◌, ◌≡◌, refl, true, List, [], ◌∷◌, String, arith, length, map}
use synchrotron.Base.Map.{get, insert}
use synchrotron.Pool.{Pool, default_config, new, enqueue_coalesce, enqueue_impl}
use synchrotron.Pool.Validity.{new-IsValid}
use synchrotron.Pool.Coalescing.{is_scheduled}
use synchrotron.AutoHeal.{AutoHealConfig, zero_stats, per_app_delay, heal, tick}
use synchrotron.AutoHeal.Ticks.{left_by, moments, tick_visits_each}

abbrev every_three_minutes : AutoHealConfig
every_three_minutes = record { interval = 180000000; jitter_window = 18000000 }

abbrev apps : List String
apps = "guestbook" ∷ "billing" ∷ "guestbook" ∷ []

-- Nothing else happens to the pool, and each sleep takes its exact time.
abbrev undisturbed : ℕ → ℕ → Pool → ℕ × Pool
undisturbed sleep now p = (now + sleep, p)

-- The second enqueue of guestbook is skipped.
two_enqueued :
    (tick undisturbed every_three_minutes apps 0 (new default_config) zero_stats).1
    ≡ record { ticks = 1; enqueued = 2; skipped = 1 }
unfolding tick heal per_app_delay enqueue_coalesce enqueue_impl get insert
two_enqueued = refl

tick_visits_each_example :
    let d = (tick undisturbed every_three_minutes apps 0 (new default_config) zero_stats).1 in
    let seen =
      moments undisturbed (per_app_delay 18000000 (length apps)) apps 0 (new default_config) in
    (map (λ m. m.0) seen ≡ apps)
    × All (λ m. is_scheduled m.1 m.0 ≡ true) seen
    × ((tick undisturbed every_three_minutes apps 0 (new default_config) zero_stats).0
        ≡ left_by (new default_config) seen)
    × (d.ticks ≡ 0 + 1)
    × (d.enqueued + d.skipped ≡ 0 + 0 + length apps)
tick_visits_each_example =
    tick_visits_each undisturbed every_three_minutes apps 0 (new default_config) zero_stats
      (λ sleep t q k. k) (new-IsValid default_config, refl, omega arith) (omega arith) (omega arith)
