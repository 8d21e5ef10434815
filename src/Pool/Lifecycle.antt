-- ===== src/Pool/Lifecycle.antt =====
-- The states that a pool of crates/synchrotron-reconcile/src/worker_pool.rs reaches: producers
-- enqueue, the dispatcher starts jobs, handlers of running apps finish, the owner closes.
use synchrotron.Base.{ℕ, ◌≡◌, Bool, true, String, String_eq, contains}
use synchrotron.Pool.{Pool, Trigger, enqueue_impl, dispatch, complete, close}

pub data Step (p : Pool) : Pool → Type 0 where
  enqueues :
      (app : String) (trigger : Trigger) (coalesce : Bool) (now : ℕ)
      → Step p (enqueue_impl p app trigger coalesce now).1
  dispatches : (now : ℕ) → Step p (dispatch p now).1
  completes : (app : String) → contains p.state.in_flight app ≡ true → Step p (complete p app)
  closes : Step p (close p)

pub data Reach (p : Pool) : Pool → Type 0 where
  here : Reach p p
  next : {q r : Pool} → Reach p q → Step q r → Reach p r
