-- ===== src/AutoHeal/Ticks.antt =====
-- What a tick of crates/synchrotron-reconcile/src/auto_heal.rs reaches.
use synchrotron.Base.{
  All, map, ℕ, ◌+◌, ◌⊎◌, ◌-◌, ◌*◌, ◌%◌, ◌^◌, ◌≤◌, ◌<◌, ◌≡◌, refl, sym, ap, ◌∙◌, subst, Bool, true,
  false, not, ◌||◌, List, [], ◌∷◌, ◌++◌, String, String_eq, arith, if◌then◌else◌, length, is_empty,
  contains, eq_self, if_cases, inl, inr,
}
use synchrotron.Base.Map.{get, get-insert}
use synchrotron.Pool.{
  Pool, JobCtx, Trigger, Result, ok, auto_heal, or_default, accept, fetch_add, enqueue_coalesce,
}
use synchrotron.Pool.Validity.{IsValid}
use synchrotron.Pool.Validity.Enqueue.{enqueue_impl-IsValid}
use native.Mathlib.Nat.{mul-div-le}
use synchrotron.Pool.Coalescing.{is_scheduled, enqueue_coalesce_exact}
use synchrotron.AutoHeal.{AutoHealConfig, AutoHealStats, per_app_delay, counted, heal, tick}

-- The enqueues of a tick are spread over the jitter window: the last comes at its end or before.
pub spread-within_window :
    (jitter_window apps : ℕ)
    → 0 < apps
    → apps < 2 ^ 32
    → (apps - 1) * per_app_delay jitter_window apps ≤ jitter_window
unfolding per_app_delay
spread-within_window jitter_window apps pos small =
    let whole : apps % 2 ^ 32 ≡ apps = omega arith in
    rw whole (grind (arith, mul-div-le jitter_window apps))

-- A pool that takes work: valid, open, with room for at least one job of each app.
abbrev pub Takes : Pool → Type 0
Takes p = IsValid p × (p.state.is_shutdown ≡ false) × (0 < p.config.per_app_queue_cap)

-- What an enqueue of a tick answers and leaves.
record Visited (p : Pool) (app : String) (r : Result Bool × Pool) : Type 0 where
  takes : Takes r.1
  scheduled : is_scheduled r.1 app ≡ true
  answered : (r.0 ≡ ok true) ⊎ (r.0 ≡ ok false)

accept-is_scheduled :
    (p : Pool) (app : String) (trigger : Trigger) (now : ℕ)
    → is_scheduled (accept p app trigger now) app ≡ true
unfolding accept
accept-is_scheduled p app trigger now =
    rw (get-insert, eq_self app) (nonempty (or_default (get p.state.apps app)) _)
  where
    nonempty :
        (q : List JobCtx) (job : JobCtx)
        → (contains p.state.in_flight app || not (is_empty (q ++ job ∷ []))) ≡ true
    nonempty [] job = ground arith
    nonempty (x ∷ q) job = ground arith

visit :
    (p : Pool) (app : String) (now : ℕ)
    → Takes p
    → Visited p app (enqueue_coalesce p app auto_heal now)
visit p app now t = record {
  takes = (
    unfold enqueue_coalesce in enqueue_impl-IsValid p app auto_heal true now t.2 t.0,
    stays.0,
    stays.1,
  );
  scheduled = stays.2;
  answered = stays.3;
}
  where
    Stays : Result Bool × Pool → Type 0
    Stays r =
        (r.1.state.is_shutdown ≡ false)
        × (0 < r.1.config.per_app_queue_cap)
        × (is_scheduled r.1 app ≡ true)
        × ((r.0 ≡ ok true) ⊎ (r.0 ≡ ok false))

    stays : Stays (enqueue_coalesce p app auto_heal now)
    stays = subst Stays (sym (enqueue_coalesce_exact p app auto_heal now t.0 t.1 t.2)) (
        if_cases Stays (is_scheduled p app) (ok false, p) (ok true, accept p app auto_heal now)
          (λ h. (t.1, t.2, h, inr refl))
          (λ _. unfold accept in (t.1, t.2, accept-is_scheduled p app auto_heal now, inl refl)))

counted_once :
    (c : AutoHealStats) (answer : Result Bool)
    → (answer ≡ ok true) ⊎ (answer ≡ ok false)
    → c.enqueued + c.skipped + 1 < 2 ^ 64
    → ((counted c answer).ticks ≡ c.ticks)
      × ((counted c answer).enqueued + (counted c answer).skipped ≡ c.enqueued + c.skipped + 1)
counted_once c answer (inl taken) small = rw taken (refl, omega arith)
counted_once c answer (inr merged) small = rw merged (refl, omega arith)

-- The pool of the last moment, or that at the start where there is none.
abbrev pub left_by : Pool → List (String × Pool × Pool) → Pool
left_by p [] = p
left_by p ((app, q, r) ∷ later) = left_by r later

module _ (pause : ℕ → ℕ → Pool → ℕ × Pool) where
  -- Each app of the loop with the pool right after its enqueue, and the pool after the pause that
  -- follows.
  pub moments : ℕ → List String → ℕ → Pool → List (String × Pool × Pool)
  moments delay [] now p = []
  moments delay (app ∷ apps) now p =
      let q = (enqueue_coalesce p app auto_heal now).1 in
      let (later, r) = pause (if is_empty apps then 0 else delay) now q in
      (app, q, r) ∷ moments delay apps later r

  names :
      (delay : ℕ) (apps : List String) (now : ℕ) (p : Pool)
      → map (λ m. m.0) (moments delay apps now p) ≡ apps
  unfolding moments
  names delay [] now p = refl
  names delay (app ∷ apps) now p =
      let moved =
        pause (if is_empty apps then 0 else delay) now (enqueue_coalesce p app auto_heal now).1 in
      ap (λ l. app ∷ l) (names delay apps moved.0 moved.1)

  heal_visits :
      (delay : ℕ) (apps : List String) (now : ℕ) (p : Pool) (c : AutoHealStats)
      → ((sleep t : ℕ) (q : Pool) → Takes q → Takes (pause sleep t q).1)
      → Takes p
      → c.enqueued + c.skipped + length apps < 2 ^ 64
      → All (λ m. is_scheduled m.1 m.0 ≡ true) (moments delay apps now p)
        × ((heal pause delay apps now p c).0 ≡ left_by p (moments delay apps now p))
        × (let d = (heal pause delay apps now p c).1 in
            (d.ticks ≡ c.ticks) × (d.enqueued + d.skipped ≡ c.enqueued + c.skipped + length apps))
  unfolding heal moments
  heal_visits delay [] now p c keeps t small = (tt, refl, (refl, omega arith))
  heal_visits delay (app ∷ apps) now p c keeps t small =
      let v = visit p app now t in
      let answer = (enqueue_coalesce p app auto_heal now).0 in
      let moved =
        pause (if is_empty apps then 0 else delay) now (enqueue_coalesce p app auto_heal now).1 in
      let one = counted_once c answer v.answered (omega arith) in
      let rest =
        heal_visits delay apps moved.0 moved.1 (counted c answer) keeps (keeps _ _ _ v.takes)
          (omega (arith, one.1)) in
      ((v.scheduled, rest.0), rest.1, (rest.2.0 ∙ one.0, omega (arith, one.1, rest.2.1)))

-- A tick of an open pool, whatever else happens to it as long as it stays valid, open and of positive
-- cap, enqueues the listed apps one after the other, in their order: right after its enqueue an app has
-- a job that waits or runs, and the pool that the last pause leaves is that of the tick. The tick adds one to the ticks, and the accepted and the skipped enqueues add up to the number of apps, as
-- long as the counters stay below 2 ^ 64.
pub tick_visits_each :
    (pause : ℕ → ℕ → Pool → ℕ × Pool) (config : AutoHealConfig) (apps : List String) (now : ℕ)
    (p : Pool) (c : AutoHealStats)
    → ((sleep t : ℕ) (q : Pool) → Takes q → Takes (pause sleep t q).1)
    → Takes p
    → c.ticks + 1 < 2 ^ 64
    → c.enqueued + c.skipped + length apps < 2 ^ 64
    → let d = (tick pause config apps now p c).1 in
      let seen = moments pause (per_app_delay config.jitter_window (length apps)) apps now p in
      (map (λ m. m.0) seen ≡ apps)
      × All (λ m. is_scheduled m.1 m.0 ≡ true) seen
      × ((tick pause config apps now p c).0 ≡ left_by p seen)
      × (d.ticks ≡ c.ticks + 1)
      × (d.enqueued + d.skipped ≡ c.enqueued + c.skipped + length apps)
unfolding tick moments
tick_visits_each pause config [] now p c keeps t ticks small =
    (refl, tt, refl, omega arith, omega arith)
tick_visits_each pause config (app ∷ apps) now p c keeps t ticks small =
    let begun = record c { ticks = fetch_add c.ticks 1 } in
    let delay = per_app_delay config.jitter_window (length (app ∷ apps)) in
    let (visited, pool, (same, total)) =
      heal_visits pause delay (app ∷ apps) now p begun keeps t small in
    (names pause delay (app ∷ apps) now p, visited, pool, same ∙ omega arith, total)
