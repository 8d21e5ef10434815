-- ===== src/Pool/Draining.antt =====
-- What a pool that was shut down still does, crates/synchrotron-reconcile/src/worker_pool.rs.
use synchrotron.Base.{
  ℕ, ◌≤◌, ◌≡◌, refl, ◌∙◌, ap, Bool, true, none, List, [], ◌++◌, String, String_eq, arith, length,
  length-set_remove-le,
}
use synchrotron.Pool.{
  Pool, JobCtx, Trigger, err, shutdown, enqueue_impl, next_dispatch, dispatch, counted, complete,
  close,
}
use synchrotron.Pool.Lifecycle.{Step, enqueues, dispatches, completes, closes, Reach, here, next}
use synchrotron.Pool.Fifo.{accepted_by, started_by, accepted, started}

closed_enqueue :
    (p : Pool) (app : String) (trigger : Trigger) (coalesce : Bool) (now : ℕ)
    → p.state.is_shutdown ≡ true
    → enqueue_impl p app trigger coalesce now ≡ (err shutdown, p)
unfolding enqueue_impl
closed_enqueue p app trigger coalesce now h = ground arith

closed_dispatch : (p : Pool) (now : ℕ) → p.state.is_shutdown ≡ true → dispatch p now ≡ (none, p)
unfolding dispatch next_dispatch counted
closed_dispatch p now h = ap (counted now) (closed p h)
  where
    closed : (p : Pool) → p.state.is_shutdown ≡ true → next_dispatch p ≡ (none, p)
    closed p h = ground arith

-- What a step of a closed pool leaves: closed, nothing taken in or started, no new handler.
abbrev Drains : Pool → Pool → List JobCtx → List JobCtx → Type 0
Drains p q taken begun =
    (q.state.is_shutdown ≡ true)
    × (taken ≡ [])
    × (begun ≡ [])
    × (length q.state.in_flight ≤ length p.state.in_flight)

Step-Drains :
    {p q : Pool} (s : Step p q)
    → p.state.is_shutdown ≡ true
    → Drains p q (accepted_by s) (started_by s)
unfolding complete close
Step-Drains {p} (enqueues app trigger coalesce now) h =
    rw (closed_enqueue p app trigger coalesce now h) (h, refl, refl, omega arith)
Step-Drains {p} (dispatches now) h = rw (closed_dispatch p now h) (h, refl, refl, omega arith)
Step-Drains {p} (completes app running) h =
    (h, refl, refl, length-set_remove-le p.state.in_flight app)
Step-Drains {p} closes h = (refl, refl, refl, omega arith)

-- Once a pool is shut down it stays so along every run, accepts and starts no job, and the number of
-- running handlers never grows.
pub closed_pool_drains :
    (p q : Pool) (r : Reach p q)
    → p.state.is_shutdown ≡ true
    → (q.state.is_shutdown ≡ true)
      × (accepted r ≡ [])
      × (started r ≡ [])
      × (length q.state.in_flight ≤ length p.state.in_flight)
closed_pool_drains p q here h = (h, refl, refl, omega arith)
closed_pool_drains p q (next {q = m} r s) h =
    let before = closed_pool_drains p m r h in
    let step = Step-Drains s before.0 in
    (
      step.0,
      ap (λ l. l ++ accepted_by s) before.1 ∙ step.1,
      ap (λ l. l ++ started_by s) before.2 ∙ step.2,
      omega (arith, before.3, step.3),
    )
