-- ===== src/AutoHeal.antt =====
-- crates/synchrotron-reconcile/src/auto_heal.rs: one tick of the periodic scheduler. What other tasks do
-- to the pool, and how far the clock moves, between two enqueues is the parameter `pause`: it is given
-- the length of the sleep (0 where there is none), the instant and the pool.
pub mod Ticks
pub mod Samples
use synchrotron.Base.{
  ℕ, ◌+◌, ◌*◌, ◌/◌, ◌%◌, ◌^◌, ◌≡◌, Bool, true, false, ◌&&◌, ◌||◌, List, [], ◌∷◌, String,
  if◌then◌else◌, length, nat_eq, ltb, leb, is_empty, not,
}
use synchrotron.Pool.{Pool, Result, ok, err, auto_heal, fetch_add, enqueue_coalesce}

-- The fraction, a float, is taken together with the interval: `jitter_window` stands for
-- `interval.mul_f64(jitter_fraction.clamp(0.0, 1.0))`.
pub record AutoHealConfig : Type 0 where
  pub interval : ℕ
  pub jitter_window : ℕ

pub record AutoHealStats : Type 0 where
  pub ticks : ℕ
  pub enqueued : ℕ
  pub skipped : ℕ

abbrev pub zero_stats : AutoHealStats
zero_stats = record { ticks = 0; enqueued = 0; skipped = 0 }

-- The divisor is `apps.len() as u32`.
unfoldable pub per_app_delay : ℕ → ℕ → ℕ
per_app_delay jitter_window apps =
    if nat_eq jitter_window 0 || leb apps 1 then 0 else jitter_window / (apps % 2 ^ 32)

abbrev pub counted : AutoHealStats → Result Bool → AutoHealStats
counted c (ok true) = record c { enqueued = fetch_add c.enqueued 1 }
counted c (ok false) = record c { skipped = fetch_add c.skipped 1 }
counted c (err e) = c

module _ (pause : ℕ → ℕ → Pool → ℕ × Pool) where
  -- The loop over the apps, from the instant `now`; no sleep after the last.
  unfoldable pub heal : ℕ → List String → ℕ → Pool → AutoHealStats → Pool × AutoHealStats
  heal delay [] now p c = (p, c)
  heal delay (app ∷ apps) now p c =
      let (answer, q) = enqueue_coalesce p app auto_heal now in
      let (later, r) = pause (if is_empty apps then 0 else delay) now q in
      heal delay apps later r (counted c answer)

  unfoldable pub tick :
      AutoHealConfig → List String → ℕ → Pool → AutoHealStats → Pool × AutoHealStats
  unfolding heal per_app_delay
  tick config apps now p c =
      let begun = record c { ticks = fetch_add c.ticks 1 } in
      if is_empty apps
      then (p, begun)
      else heal (per_app_delay config.jitter_window (length apps)) apps now p begun
