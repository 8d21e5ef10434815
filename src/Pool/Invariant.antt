-- ===== src/Pool/Invariant.antt =====
-- The invariant along every run of the worker pool, crates/synchrotron-reconcile/src/worker_pool.rs.
use synchrotron.Base.{◌<◌, ◌≡◌, refl, ◌∙◌, subst, sym}
use synchrotron.Pool.{
  Pool, PoolConfig, JobCtx, Trigger, Result, ok, err, new, enqueue_impl, next_dispatch, dispatch,
  record_started, complete, close,
}
use synchrotron.Pool.Lifecycle.{Step, enqueues, dispatches, completes, closes, Reach, here, next}
use synchrotron.Pool.Validity.{IsValid, new-IsValid}
use synchrotron.Pool.Validity.Enqueue.{enqueue_impl-IsValid, enqueue_impl_cases}
use synchrotron.Pool.Validity.Dispatch.{dispatch-IsValid, dispatch_config}
use synchrotron.Pool.Validity.Complete.{complete-IsValid}

close-IsValid : (p : Pool) → IsValid p → IsValid (close p)
unfolding close
close-IsValid p v = record {
  shape = v.shape;
  keys = v.keys;
  ready_once = v.ready_once;
  running_once = v.running_once;
  bounded = v.bounded;
  depth = v.depth;
}

Step-IsValid : {p q : Pool} → Step p q → 0 < p.config.per_app_queue_cap → IsValid p → IsValid q
Step-IsValid (enqueues app trigger coalesce now) pos v =
    enqueue_impl-IsValid _ app trigger coalesce now pos v
Step-IsValid (dispatches now) pos v = dispatch-IsValid _ now v
Step-IsValid (completes app running) pos v = complete-IsValid _ app v running
Step-IsValid {p} closes pos v = close-IsValid p v

config-Step : {p q : Pool} → Step p q → q.config ≡ p.config
unfolding complete close
config-Step {p} (enqueues app trigger coalesce now) =
    enqueue_impl_cases (λ r. r.1.config ≡ p.config) p app trigger coalesce now refl refl
      (λ _. unfold synchrotron.Pool.reject_full in refl)
      (λ _. unfold synchrotron.Pool.accept in refl)
config-Step {p} (dispatches now) = dispatch_config p now
config-Step (completes app running) = refl
config-Step closes = refl

pub config-Reach : {p q : Pool} → Reach p q → q.config ≡ p.config
config-Reach here = refl
config-Reach (next r s) = config-Step s ∙ config-Reach r

Reach-IsValid : {p q : Pool} → 0 < p.config.per_app_queue_cap → IsValid p → Reach p q → IsValid q
Reach-IsValid pos v here = v
Reach-IsValid pos v (next r s) =
    Step-IsValid s (subst (λ c. 0 < c.per_app_queue_cap) (sym (config-Reach r)) pos)
      (Reach-IsValid pos v r)

-- After any sequence of enqueues, dispatches, completions and a shutdown, in any order, a pool with
-- a positive queue cap is valid: no app is in two handlers or twice in the ready list, an app with
-- waiting jobs is ready or running, no queue passes its cap, no more handlers run than the bound,
-- and the cached depth is the number of queued jobs.
pub Reach-new-IsValid :
    (c : PoolConfig) (p : Pool) → 0 < c.per_app_queue_cap → Reach (new c) p → IsValid p
Reach-new-IsValid c p pos r = Reach-IsValid pos (new-IsValid c) r
