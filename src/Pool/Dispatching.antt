-- ===== src/Pool/Dispatching.antt =====
-- Which job starts and when, crates/synchrotron-reconcile/src/worker_pool.rs.
use synchrotron.Base.{
  ◌≤◌, ◌<◌, ◌≡◌, ◌≢◌, ◌⊎◌, inl, inr, refl, sym, ap, ◌∙◌, subst, true, false, Option, none, some,
  List, [], ◌∷◌, String, ◌==◌, String_eq, arith, length, leb, contains, if_cases, Bool-cases,
  Option-cases, set_insert, eq_self, leb→le,
}
use synchrotron.Base.Map.{Map, get, insert, contains_key, is_some, KeysNodup}
use text.Mathlib.TextEquality.{eq_iff}
use synchrotron.Pool.{Pool, JobCtx, take_job, pop_ready, next_dispatch}
use synchrotron.Pool.Depth.{total}
use synchrotron.Pool.Validity.{IsValid, ready_waits, Shape}

-- Where a dispatch finds nothing to do.
abbrev pub Idle : Pool → Type 0
Idle p =
    (p.state.is_shutdown ≡ true)
    ⊎ (p.config.max_concurrent ≤ length p.state.in_flight)
    ⊎ (p.state.ready ≡ [])

-- A job that starts: the oldest of the first ready app, which had no handler and has one now.
pub record Started (p : Pool) (job : JobCtx) (q : Pool) : Type 0 where
  pub open_pool : p.state.is_shutdown ≡ false
  pub room : length p.state.in_flight < p.config.max_concurrent
  pub first_ready :
      (rest : List String) × (p.state.ready ≡ job.app_id ∷ rest) × (q.state.ready ≡ rest)
  pub oldest :
      (jobs : List JobCtx) × (get p.state.apps job.app_id ≡ some (job ∷ jobs))
      × (q.state.apps ≡ insert p.state.apps job.app_id jobs)
  pub was_not_running : contains p.state.in_flight job.app_id ≡ false
  pub runs : q.state.in_flight ≡ set_insert p.state.in_flight job.app_id

abbrev pub Outcome : Pool → Option JobCtx × Pool → Type 0
Outcome p (none, q) = Idle p × (q ≡ p)
Outcome p (some job, q) = Started p job q

take_job-Outcome :
    (p : Pool) (app : String) (rest : List String) (o : Option (List JobCtx))
    → IsValid p
    → p.state.is_shutdown ≡ false
    → length p.state.in_flight < p.config.max_concurrent
    → p.state.ready ≡ app ∷ rest
    → get p.state.apps app ≡ o
    → Outcome p (take_job p app rest o)
unfolding take_job
take_job-Outcome p app rest none v h room e g = absurd (rw g at (ready_waits p app rest v e))
take_job-Outcome p app rest (some []) v h room e g = absurd (rw g at (ready_waits p app rest v e))
take_job-Outcome p app rest (some (job ∷ jobs)) v h room e g =
    let w = rw g at (ready_waits p app rest v e) in
    record {
      open_pool = h;
      room = room;
      first_ready = (rest, e ∙ ap (λ a. a ∷ rest) (sym w.1), refl);
      oldest =
          (jobs, ap (get p.state.apps) w.1 ∙ g, ap (λ a. insert p.state.apps a jobs) (sym w.1));
      was_not_running = ap (contains p.state.in_flight) w.1 ∙ w.0;
      runs = ap (set_insert p.state.in_flight) (sym w.1);
    }

pop_ready-Outcome :
    (p : Pool) (l : List String)
    → IsValid p
    → p.state.is_shutdown ≡ false
    → length p.state.in_flight < p.config.max_concurrent
    → p.state.ready ≡ l
    → Outcome p (pop_ready p l)
unfolding pop_ready
pop_ready-Outcome p [] v h room e = (inr (inr e), refl)
pop_ready-Outcome p (app ∷ rest) v h room e = take_job-Outcome p app rest _ v h room e refl

-- In a valid pool a dispatch starts the oldest job of the app that was ready first, and never for
-- an app that already has a handler; it starts none, and changes nothing, only if the pool is shut
-- down, the bound is reached, or no app is ready.
pub next_dispatch-Outcome : (p : Pool) → IsValid p → Outcome p (next_dispatch p)
unfolding next_dispatch
next_dispatch-Outcome p v =
    if_cases (Outcome p) p.state.is_shutdown _ _ (λ h. (inl h, refl))
      λ h.
        if_cases (Outcome p) (leb p.config.max_concurrent (length p.state.in_flight)) _ _
          (λ f. (inr (inl (leb→le _ _ f)), refl))
          (λ f. pop_ready-Outcome p p.state.ready v h (ground arith) refl)

-- An app that has a job in its queue.
abbrev HasJob : Map String (List JobCtx) → Type 0
HasJob m = (a : String) × (job : JobCtx) × (jobs : List JobCtx) × (get m a ≡ some (job ∷ jobs))

HasJob-cons :
    (b : String) (q : List JobCtx) (m : Map String (List JobCtx))
    → contains_key m b ≡ false
    → HasJob m
    → HasJob ((b, q) ∷ m)
unfolding get
HasJob-cons b q m absent (a, job, jobs, e) = (a, job, jobs, kept (Bool-cases (b == a)))
  where
    kept : ((b == a) ≡ true) ⊎ ((b == a) ≡ false) → get ((b, q) ∷ m) a ≡ some (job ∷ jobs)
    kept (inl same) =
        absurd
          (clash (get m a) e (subst (λ c. contains_key m c ≡ false) ((eq_iff b a).0 same) absent))
      where
        clash : (o : Option (List JobCtx)) → o ≡ some (job ∷ jobs) → is_some o ≡ false → ⊥
        clash none f g = cc f
        clash (some x) f g = cc g
    kept (inr other) = rw other e

HasJob-exists : (m : Map String (List JobCtx)) → KeysNodup m → 0 < total m → HasJob m
unfolding total
HasJob-exists [] u h = absurd (omega arith)
HasJob-exists ((b, []) ∷ m) u h = HasJob-cons b [] m u.0 (HasJob-exists m u.1 (omega arith))
HasJob-exists ((b, job ∷ jobs) ∷ m) u h = (b, job, jobs, unfold get in (rw (eq_self b)))

nonempty_of_contains : (l : List String) (a : String) → contains l a ≡ true → l ≢ []
nonempty_of_contains [] a h e = cc h
nonempty_of_contains (x ∷ l) a h e = cc e

waiting_app :
    (p : Pool)
    → IsValid p
    → 0 < p.state.queue_depth
    → (p.state.in_flight ≢ []) ⊎ (p.state.ready ≢ [])
waiting_app p v h =
    let (a, job, jobs, e) = HasJob-exists p.state.apps v.keys (subst (λ n. 0 < n) v.depth h) in
    busy a job jobs (rw e at (v.shape a)) (Bool-cases (contains p.state.in_flight a))
  where
    busy :
        (a : String) (job : JobCtx) (jobs : List JobCtx)
        → Shape p.config.per_app_queue_cap a
            (some (job ∷ jobs))
            (contains p.state.ready a)
            (contains p.state.in_flight a)
        → (contains p.state.in_flight a ≡ true) ⊎ (contains p.state.in_flight a ≡ false)
        → (p.state.in_flight ≢ []) ⊎ (p.state.ready ≢ [])
    busy a job jobs s (inl running) = inl (nonempty_of_contains p.state.in_flight a running)
    busy a job jobs s (inr resting) = inr (nonempty_of_contains p.state.ready a (s.3 resting).0)

Idle-of_none : (p : Pool) (r : Option JobCtx × Pool) → Outcome p r → r.0 ≡ none → Idle p
Idle-of_none p (none, q) o e = o.0
Idle-of_none p (some job, q) o e = cc e

runs_of_Idle :
    (p : Pool)
    → p.state.is_shutdown ≡ false
    → 0 < p.config.max_concurrent
    → p.state.ready ≢ []
    → Idle p
    → p.state.in_flight ≢ []
runs_of_Idle p open_pool pos ready (inl shut) e = cc (open_pool, shut)
runs_of_Idle p open_pool pos ready (inr (inl full)) e = omega (arith, ap length e)
runs_of_Idle p open_pool pos ready (inr (inr empty)) e = ready empty

-- No job is stranded: while jobs wait in a valid open pool whose bound is positive, the next
-- dispatch starts one, or some handler is running.
pub dispatch_progress :
    (p : Pool)
    → IsValid p
    → p.state.is_shutdown ≡ false
    → 0 < p.config.max_concurrent
    → 0 < p.state.queue_depth
    → (p.state.in_flight ≢ []) ⊎ ((next_dispatch p).0 ≢ none)
dispatch_progress p v open_pool pos waiting =
    go (waiting_app p v waiting) (Option-cases (next_dispatch p).0)
  where
    go :
        (p.state.in_flight ≢ []) ⊎ (p.state.ready ≢ [])
        → ((next_dispatch p).0 ≡ none) ⊎ ((job : JobCtx) × ((next_dispatch p).0 ≡ some job))
        → (p.state.in_flight ≢ []) ⊎ ((next_dispatch p).0 ≢ none)
    go (inl running) _ = inl running
    go (inr ready) (inl nothing) = inl (
        runs_of_Idle p open_pool pos ready
          (Idle-of_none p (next_dispatch p) (next_dispatch-Outcome p v) nothing))
    go (inr ready) (inr (job, e)) = inr (λ n. cc (e, n))
