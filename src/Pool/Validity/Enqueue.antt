-- ===== src/Pool/Validity/Enqueue.antt =====
-- Enqueues keep the pool valid, crates/synchrotron-reconcile/src/worker_pool.rs.
use synchrotron.Base.{
  ℕ, ◌≤◌, ◌<◌, ◌≡◌, refl, Bool, true, false, not, ◌&&◌, Option, none, some, List, [], ◌∷◌, ◌++◌,
  String, String_eq, arith, if◌then◌else◌, length, length-append, leb, leb→le, All, if_cases,
  eq_self,
}
use synchrotron.Base.Map.{contains_key, get, get-insert, insert-KeysNodup}
use synchrotron.Pool.{
  Pool, JobCtx, Trigger, Result, ok, err, shutdown, queue_full, or_default, enqueue_impl,
  reject_full, accept,
}
use synchrotron.Pool.Depth.{total-insert}
use synchrotron.Pool.Validity.{
  Shape, ShapeOf, IsValid, for_apps, push_self, push_other, push-Distinct,
}

All-append {ℓ κ} :
    {A : Type ℓ} (P : A → Type κ) (xs ys : List A) → All P xs → All P ys → All P (xs ++ ys)
All-append P [] ys h k = k
All-append P (x ∷ xs) ys h k = (h.0, All-append P xs ys h.1 k)

-- One more job of the app; it becomes ready unless it runs.
grow-Shape :
    (cap : ℕ) (job : JobCtx) (o : Option (List JobCtx)) (ready running ready' : Bool)
    → length (or_default o) < cap
    → ready' ≡ (if not running && not ready then true else ready)
    → Shape cap job.app_id o ready running
    → Shape cap job.app_id (some (or_default o ++ job ∷ [])) ready' running
grow-Shape cap job none ready running ready' room e s =
    (omega arith, (refl, tt), (λ h. ground arith), (λ h. (ground arith, omega arith)))
grow-Shape cap job (some q) ready running ready' room e s = (
  omega (arith, length-append q (job ∷ [])),
  All-append _ q (job ∷ []) s.1 (refl, tt),
  (λ h. ground (arith, s.2)),
  (λ h. (ground (arith, s.3), omega (arith, length-append q (job ∷ [])))),
)

accept-IsValid :
    (p : Pool) (app : String) (trigger : Trigger) (now : ℕ)
    → IsValid p
    → length (or_default (get p.state.apps app)) < p.config.per_app_queue_cap
    → IsValid (accept p app trigger now)
unfolding accept
accept-IsValid p app trigger now v room = record {
  shape =
      for_apps (ShapeOf (accept p app trigger now)) app
        (rw (get-insert, eq_self app)
          (grow-Shape _ (record { app_id = app; trigger = trigger; enqueued_at = now }) _ _ _ _ room
            (push_self _ p.state.ready app) (v.shape app)))
        (λ a other. rw (get-insert, other, push_other _ p.state.ready app a other) (v.shape a));
  keys = insert-KeysNodup p.state.apps app _ v.keys;
  ready_once = push-Distinct _ p.state.ready app (λ h. ground arith) v.ready_once;
  running_once = v.running_once;
  bounded = v.bounded;
  depth = omega (
    arith,
    total-insert p.state.apps app (
        or_default (get p.state.apps app)
        ++ record { app_id = app; trigger = trigger; enqueued_at = now } ∷ []),
    length-append (or_default (get p.state.apps app))
        (record { app_id = app; trigger = trigger; enqueued_at = now } ∷ []),
    v.depth,
  );
}

full-Shape :
    (cap : ℕ) (a : String) (o : Option (List JobCtx)) (ready running : Bool)
    → 0 < cap
    → cap ≤ length (or_default o)
    → Shape cap a o ready running
    → Shape cap a (some (or_default o)) ready running
full-Shape cap a none ready running pos full s = absurd (omega arith)
full-Shape cap a (some q) ready running pos full s = s

-- A rejection leaves no trace but its count, as long as the cap is positive.
reject_full-IsValid :
    (p : Pool) (app : String)
    → IsValid p
    → 0 < p.config.per_app_queue_cap
    → p.config.per_app_queue_cap ≤ length (or_default (get p.state.apps app))
    → IsValid (reject_full p app)
unfolding reject_full
reject_full-IsValid p app v pos full = record {
  shape =
      for_apps (ShapeOf (reject_full p app)) app
        (rw (get-insert, eq_self app) (full-Shape _ app _ _ _ pos full (v.shape app)))
        (λ a other. rw (get-insert, other) (v.shape a));
  keys = insert-KeysNodup p.state.apps app _ v.keys;
  ready_once = v.ready_once;
  running_once = v.running_once;
  bounded = v.bounded;
  depth = omega (arith, total-insert p.state.apps app (or_default (get p.state.apps app)), v.depth);
}

-- The outcomes of an enqueue, each under the test that leads to it.
pub enqueue_impl_cases {ℓ} :
    (P : Result Bool × Pool → Type ℓ) (p : Pool) (app : String) (trigger : Trigger)
    (coalesce : Bool) (now : ℕ)
    → P (err shutdown, p)
    → P (ok false, p)
    → (p.config.per_app_queue_cap ≤ length (or_default (get p.state.apps app))
        → P (err (queue_full app p.config.per_app_queue_cap), reject_full p app))
    → (length (or_default (get p.state.apps app)) < p.config.per_app_queue_cap
        → P (ok true, accept p app trigger now))
    → P (enqueue_impl p app trigger coalesce now)
unfolding enqueue_impl
enqueue_impl_cases P p app trigger coalesce now closed skipped full accepted =
    if_cases P p.state.is_shutdown _ _ (λ _. closed)
      λ _.
        if_cases P (coalesce && contains_key p.state.apps app) _ _ (λ _. skipped)
          λ _.
            if_cases P (leb p.config.per_app_queue_cap (length (or_default (get p.state.apps app))))
              _ _ (λ f. full (leb→le _ _ f)) (λ f. accepted (ground arith))

-- An enqueue keeps the pool valid, accepted or not.
pub enqueue_impl-IsValid :
    (p : Pool) (app : String) (trigger : Trigger) (coalesce : Bool) (now : ℕ)
    → 0 < p.config.per_app_queue_cap
    → IsValid p
    → IsValid (enqueue_impl p app trigger coalesce now).1
enqueue_impl-IsValid p app trigger coalesce now pos v =
    enqueue_impl_cases (λ r. IsValid r.1) p app trigger coalesce now v v
      (reject_full-IsValid p app v pos) (accept-IsValid p app trigger now v)
