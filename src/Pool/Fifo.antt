-- ===== src/Pool/Fifo.antt =====
-- The order in which the jobs of one app start, crates/synchrotron-reconcile/src/worker_pool.rs.
use mathlib.Core.List.{append-nil, append_assoc}
use text.Mathlib.TextEquality.{eq_iff}
use synchrotron.Base.{
  ℕ, ◌<◌, ◌≡◌, refl, sym, ap, ◌∙◌, Bool, true, Option, none, some, List, [], ◌∷◌, ◌++◌, String,
  ◌==◌, String_eq, arith, filter, filter-append, Bool-cases, inl, inr,
}
use synchrotron.Base.Map.{Map, get, insert, get-insert, get-remove}
use synchrotron.Pool.{
  Pool, PoolConfig, JobCtx, Trigger, Result, ok, or_default, new, reject_full, accept, enqueue_impl,
  next_dispatch, dispatch, counted, complete, close,
}
use synchrotron.Pool.Lifecycle.{Step, enqueues, dispatches, completes, closes, Reach, here, next}
use synchrotron.Pool.Validity.{IsValid}
use synchrotron.Pool.Validity.Enqueue.{enqueue_impl_cases}
use synchrotron.Pool.Dispatching.{Outcome, next_dispatch-Outcome}
use synchrotron.Pool.Invariant.{Reach-new-IsValid}

abbrev pub queue_of : Pool → String → List JobCtx
queue_of p a = or_default (get p.state.apps a)

abbrev pub for_app : String → List JobCtx → List JobCtx
for_app a = filter (λ job. job.app_id == a)

abbrev accepted_job : String → Trigger → ℕ → Result Bool → List JobCtx
accepted_job app trigger now (ok true) =
    record { app_id = app; trigger = trigger; enqueued_at = now } ∷ []
accepted_job app trigger now _ = []

abbrev started_job : Option JobCtx → List JobCtx
started_job none = []
started_job (some job) = job ∷ []

-- The jobs that a step takes in, and those that it starts.
abbrev pub accepted_by : {p q : Pool} → Step p q → List JobCtx
accepted_by {p} (enqueues app trigger coalesce now) =
    accepted_job app trigger now (enqueue_impl p app trigger coalesce now).0
accepted_by (dispatches now) = []
accepted_by (completes app running) = []
accepted_by closes = []

abbrev pub started_by : {p q : Pool} → Step p q → List JobCtx
started_by (enqueues app trigger coalesce now) = []
started_by {p} (dispatches now) = started_job (dispatch p now).0
started_by (completes app running) = []
started_by closes = []

-- Over a whole run, oldest first.
abbrev pub accepted : {p q : Pool} → Reach p q → List JobCtx
accepted here = []
accepted (next r s) = accepted r ++ accepted_by s

abbrev pub started : {p q : Pool} → Reach p q → List JobCtx
started here = []
started (next r s) = started r ++ started_by s

queue_of-enqueue :
    (p : Pool) (app : String) (trigger : Trigger) (coalesce : Bool) (now : ℕ) (a : String)
    → queue_of (enqueue_impl p app trigger coalesce now).1 a
      ≡ queue_of p a
        ++ for_app a (accepted_job app trigger now (enqueue_impl p app trigger coalesce now).0)
queue_of-enqueue p app trigger coalesce now a =
    enqueue_impl_cases
      (λ r. queue_of r.1 a ≡ queue_of p a ++ for_app a (accepted_job app trigger now r.0)) p app
      trigger coalesce now (sym (append-nil _)) (sym (append-nil _)) (λ _. rejected) (λ _. taken)
  where
    rejected : queue_of (reject_full p app) a ≡ queue_of p a ++ []
    rejected =
        unfold reject_full in
        ground (
          arith,
          get-insert p.state.apps app (queue_of p app) a,
          append-nil (queue_of p a),
          eq_iff app a,
        )

    taken :
        queue_of (accept p app trigger now) a
        ≡ queue_of p a
          ++ for_app a (record { app_id = app; trigger = trigger; enqueued_at = now } ∷ [])
    taken =
        unfold accept in
        ground (
          arith,
          get-insert p.state.apps app
              (queue_of p app ++ record { app_id = app; trigger = trigger; enqueued_at = now } ∷ [])
              a,
          append-nil (queue_of p a),
          eq_iff app a,
        )

started_queue :
    (m : Map String (List JobCtx)) (job : JobCtx) (jobs : List JobCtx) (a : String)
    → get m job.app_id ≡ some (job ∷ jobs)
    → or_default (get m a) ≡ for_app a (job ∷ []) ++ or_default (get (insert m job.app_id jobs) a)
started_queue m job jobs a e = elim (Bool-cases (job.app_id == a)) [
  | inl same ↦
      rw (get-insert, same) (ap or_default (ap (get m) (sym ((eq_iff job.app_id a).0 same)) ∙ e))
  | inr other ↦ rw (get-insert, other)
]

queue_of-dispatch :
    (p : Pool) (now : ℕ) (a : String)
    → IsValid p
    → queue_of p a ≡ for_app a (started_job (dispatch p now).0) ++ queue_of (dispatch p now).1 a
unfolding dispatch
queue_of-dispatch p now a v = go (next_dispatch p) (next_dispatch-Outcome p v)
  where
    go :
        (r : Option JobCtx × Pool)
        → Outcome p r
        → queue_of p a ≡ for_app a (started_job (counted now r).0) ++ queue_of (counted now r).1 a
    go (none, q) o = ap (λ (s : Pool). queue_of s a) (sym o.1)
    go (some job, q) o =
        let (jobs, found, apps) = o.oldest in
        started_queue p.state.apps job jobs a found
        ∙ ap (λ m. for_app a (job ∷ []) ++ or_default (get m a)) (sym apps)

queue_of-complete : (p : Pool) (app a : String) → queue_of (complete p app) a ≡ queue_of p a
unfolding complete
queue_of-complete p app a = ground (arith, get-remove p.state.apps app a, eq_iff app a)

-- One step: what was queued and is taken in is what starts and stays queued.
queue_of-Step :
    {p q : Pool} (s : Step p q) (a : String)
    → IsValid p
    → queue_of p a ++ for_app a (accepted_by s) ≡ for_app a (started_by s) ++ queue_of q a
unfolding close
queue_of-Step {p} (enqueues app trigger coalesce now) a v =
    sym (queue_of-enqueue p app trigger coalesce now a)
queue_of-Step {p} (dispatches now) a v = append-nil _ ∙ queue_of-dispatch p now a v
queue_of-Step {p} (completes app running) a v = append-nil _ ∙ sym (queue_of-complete p app a)
queue_of-Step {p} closes a v = append-nil _

-- Over any run of a new pool with a positive cap, the jobs of an app that were accepted are, in
-- order, the jobs of that app that were started and then those still queued: no job is lost or
-- started twice, and none overtakes another.
pub accepted-eq-started_append_queue :
    (c : PoolConfig) (p : Pool) (r : Reach (new c) p) (a : String)
    → 0 < c.per_app_queue_cap
    → for_app a (accepted r) ≡ for_app a (started r) ++ queue_of p a
unfolding get
accepted-eq-started_append_queue c p here a pos = refl
accepted-eq-started_append_queue c p (next {q} r s) a pos = cc (
  filter-append (λ job. job.app_id == a) (accepted r) (accepted_by s),
  filter-append (λ job. job.app_id == a) (started r) (started_by s),
  accepted-eq-started_append_queue c q r a pos,
  append_assoc (for_app a (started r)) (queue_of q a) (for_app a (accepted_by s)),
  queue_of-Step s a (Reach-new-IsValid c q pos r),
  append_assoc (for_app a (started r)) (for_app a (started_by s)) (queue_of p a),
)
