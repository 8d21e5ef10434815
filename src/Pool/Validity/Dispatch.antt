-- ===== src/Pool/Validity/Dispatch.antt =====
-- Dispatching keeps the pool valid, crates/synchrotron-reconcile/src/worker_pool.rs.
use synchrotron.Base.{
  ℕ, ◌<◌, ◌≡◌, refl, ap, ◌∙◌, subst, Bool, true, false, Option, none, some, List, [], ◌∷◌, String,
  ◌==◌, String_eq, arith, length, leb, contains, contains-set_insert, Distinct, set_insert-Distinct,
  length-set_insert-le, if_cases, eq_self,
}
use synchrotron.Base.Map.{get, get-insert, insert-KeysNodup}
use synchrotron.Pool.{
  Pool, JobCtx, or_default, take_job, pop_ready, next_dispatch, counted, dispatch,
}
use synchrotron.Pool.Depth.{total-insert}
use synchrotron.Pool.Validity.{Shape, ShapeOf, IsValid, for_apps, ready_waits}

pop_other :
    (app a : String) (rest : List String)
    → (app == a) ≡ false
    → contains (app ∷ rest) a ≡ contains rest a
pop_other app a rest h = ground arith

shrink-Shape :
    (cap : ℕ) (a : String) (job : JobCtx) (jobs : List JobCtx) (ready running : Bool)
    → Shape cap a (some (job ∷ jobs)) ready running
    → Shape cap a (some jobs) false true
shrink-Shape cap a job jobs ready running s = (omega arith, s.1.1, (λ h. refl), (λ h. cc))

Distinct-tail :
    {l rest : List String} {app : String} → l ≡ app ∷ rest → Distinct l → contains rest app ≡ false
Distinct-tail e d = (subst Distinct e d).0

take_job-IsValid :
    (p : Pool) (app : String) (rest : List String) (o : Option (List JobCtx))
    → IsValid p
    → p.state.ready ≡ app ∷ rest
    → get p.state.apps app ≡ o
    → length p.state.in_flight < p.config.max_concurrent
    → IsValid (take_job p app rest o).1
unfolding take_job
take_job-IsValid p app rest none v e g room = absurd (rw g at (ready_waits p app rest v e))
take_job-IsValid p app rest (some []) v e g room = absurd (rw g at (ready_waits p app rest v e))
take_job-IsValid p app rest (some (job ∷ jobs)) v e g room = record {
  shape =
      for_apps (ShapeOf (take_job p app rest (some (job ∷ jobs))).1) app
        (rw (get-insert, eq_self app, contains-set_insert, eq_self app, ready_no_more)
          (shrink-Shape _ app job jobs _ _ (rw g at (v.shape app))))
        (λ a other.
          rw (get-insert, other, contains-set_insert, other)
            (rw (ap (λ l. contains l a) e ∙ pop_other app a rest other) at (v.shape a)));
  keys = insert-KeysNodup p.state.apps app jobs v.keys;
  ready_once = (rw e at v.ready_once).1;
  running_once = set_insert-Distinct p.state.in_flight app v.running_once;
  bounded = omega (arith, length-set_insert-le p.state.in_flight app, room);
  depth =
      omega (arith, total-insert p.state.apps app jobs, ap (λ o. length (or_default o)) g, v.depth);
}
  where
    ready_no_more : contains rest app ≡ false
    ready_no_more = (Distinct-tail e v.ready_once)

pop_ready-IsValid :
    (p : Pool) (l : List String)
    → IsValid p
    → p.state.ready ≡ l
    → length p.state.in_flight < p.config.max_concurrent
    → IsValid (pop_ready p l).1
unfolding pop_ready
pop_ready-IsValid p [] v e room = v
pop_ready-IsValid p (app ∷ rest) v e room = take_job-IsValid p app rest _ v e refl room

next_dispatch-IsValid : (p : Pool) → IsValid p → IsValid (next_dispatch p).1
unfolding next_dispatch
next_dispatch-IsValid p v =
    if_cases (λ (r : Option JobCtx × Pool). IsValid r.1) p.state.is_shutdown _ _ (λ _. v)
      λ _.
        if_cases (λ (r : Option JobCtx × Pool). IsValid r.1)
          (leb p.config.max_concurrent (length p.state.in_flight)) _ _ (λ _. v)
          (λ f. pop_ready-IsValid p p.state.ready v refl (ground arith))

-- A round of the dispatcher keeps the pool valid.
pub dispatch-IsValid : (p : Pool) (now : ℕ) → IsValid p → IsValid (dispatch p now).1
unfolding dispatch
dispatch-IsValid p now v = go (next_dispatch p) (next_dispatch-IsValid p v)
  where
    go : (r : Option JobCtx × Pool) → IsValid r.1 → IsValid (counted now r).1
    go (none, q) w = w
    go (some ctx, q) w = record {
      shape = w.shape;
      keys = w.keys;
      ready_once = w.ready_once;
      running_once = w.running_once;
      bounded = w.bounded;
      depth = w.depth;
    }

take_job_config :
    (p : Pool) (app : String) (rest : List String) (o : Option (List JobCtx))
    → (take_job p app rest o).1.config ≡ p.config
unfolding take_job
take_job_config p app rest none = refl
take_job_config p app rest (some []) = refl
take_job_config p app rest (some (job ∷ jobs)) = refl

next_dispatch_config : (p : Pool) → (next_dispatch p).1.config ≡ p.config
unfolding next_dispatch pop_ready
next_dispatch_config p =
    if_cases (λ (r : Option JobCtx × Pool). r.1.config ≡ p.config) p.state.is_shutdown _ _
      (λ _. refl)
      λ _.
        if_cases (λ (r : Option JobCtx × Pool). r.1.config ≡ p.config)
          (leb p.config.max_concurrent (length p.state.in_flight)) _ _ (λ _. refl)
          (λ _. popped p.state.ready)
  where
    popped : (l : List String) → (pop_ready p l).1.config ≡ p.config
    popped [] = refl
    popped (app ∷ rest) = take_job_config p app rest _

pub dispatch_config : (p : Pool) (now : ℕ) → (dispatch p now).1.config ≡ p.config
unfolding dispatch
dispatch_config p now = go (next_dispatch p) (next_dispatch_config p)
  where
    go : (r : Option JobCtx × Pool) → r.1.config ≡ p.config → (counted now r).1.config ≡ p.config
    go (none, q) e = e
    go (some ctx, q) e = e
