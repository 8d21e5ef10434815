-- ===== src/Pool/Coalescing.antt =====
-- What a producer is told, crates/synchrotron-reconcile/src/worker_pool.rs.
use synchrotron.Base.{
  ℕ, ◌<◌, ◌≡◌, refl, sym, ap, ◌∙◌, Bool, true, false, ◌||◌, Option, none, some, List, [], ◌∷◌,
  String, String_eq, arith, if◌then◌else◌, contains, is_empty, not, eq_self, subst,
}
use synchrotron.Base.Map.{get, contains_key, is_some, get-insert}
use synchrotron.Pool.{
  Pool, JobCtx, Trigger, ok, or_default, reject_full, accept, enqueue_impl, enqueue_coalesce,
  enqueue,
}
use synchrotron.Pool.Validity.{IsValid, Shape}

-- The app has a job in its queue or in a handler.
abbrev pub is_scheduled : Pool → String → Bool
is_scheduled p app =
    contains p.state.in_flight app || not (is_empty (or_default (get p.state.apps app)))

contains_key-eq-is_scheduled :
    (p : Pool) (app : String) → IsValid p → contains_key p.state.apps app ≡ is_scheduled p app
contains_key-eq-is_scheduled p app v = go (get p.state.apps app) _ _ (v.shape app)
  where
    go :
        (o : Option (List JobCtx)) (ready running : Bool)
        → Shape p.config.per_app_queue_cap app o ready running
        → is_some o ≡ (running || not (is_empty (or_default o)))
    go none ready running s = ground (arith, s.1)
    go (some []) ready true s = refl
    go (some []) ready false s = absurd (omega (arith, (s.3 refl).1))
    go (some (job ∷ jobs)) ready running s = ground arith

-- In a valid open pool with a positive cap, a coalescing enqueue never reports a full queue: it
-- takes the job if and only if no job of the app waits or runs, and otherwise changes nothing.
pub enqueue_coalesce_exact :
    (p : Pool) (app : String) (trigger : Trigger) (now : ℕ)
    → IsValid p
    → p.state.is_shutdown ≡ false
    → 0 < p.config.per_app_queue_cap
    → enqueue_coalesce p app trigger now
      ≡ (if is_scheduled p app then (ok false, p) else (ok true, accept p app trigger now))
unfolding enqueue_coalesce
enqueue_coalesce_exact p app trigger now v open_pool pos =
    ground (arith, contains_key-eq-is_scheduled p app v, open_pool)

full_at_zero :
    (p : Pool) (app : String) (trigger : Trigger) (now : ℕ)
    → p.state.is_shutdown ≡ false
    → p.config.per_app_queue_cap ≡ 0
    → (enqueue p app trigger now).1 ≡ reject_full p app
unfolding enqueue enqueue_impl
full_at_zero p app trigger now open_pool zero_cap = ground (arith, open_pool, zero_cap)

-- In an open pool with a cap of zero, a plain enqueue of an app that has no entry and does not run is
-- refused and leaves a state in which a coalescing enqueue of that app answers that it is
-- scheduled, though none of its jobs waits or runs.
pub zero_cap_blocks :
    (p : Pool) (app : String) (trigger later : Trigger) (now then' : ℕ)
    → p.state.is_shutdown ≡ false
    → p.config.per_app_queue_cap ≡ 0
    → get p.state.apps app ≡ none
    → contains p.state.in_flight app ≡ false
    → let q = (enqueue p app trigger now).1 in
      ((enqueue_coalesce q app later then').0 ≡ ok false) × (is_scheduled q app ≡ false)
zero_cap_blocks p app trigger later now then' open_pool zero_cap unknown idle =
    subst (λ q. ((enqueue_coalesce q app later then').0 ≡ ok false) × (is_scheduled q app ≡ false))
      (sym (full_at_zero p app trigger now open_pool zero_cap)) (blocked, unscheduled)
  where
    found : get (reject_full p app).state.apps app ≡ some (or_default (get p.state.apps app))
    found =
        unfold reject_full in
        ground
          (arith, get-insert p.state.apps app (or_default (get p.state.apps app)) app, eq_self app)

    still_open : (reject_full p app).state.is_shutdown ≡ false
    still_open = unfold reject_full in open_pool

    blocked : (enqueue_coalesce (reject_full p app) app later then').0 ≡ ok false
    blocked = unfold enqueue_coalesce enqueue_impl in ground (arith, found, still_open)

    not_running : contains (reject_full p app).state.in_flight app ≡ false
    not_running = unfold reject_full in idle

    empty_queue : or_default (get (reject_full p app).state.apps app) ≡ []
    empty_queue = ap or_default (found ∙ ap (λ o. some (or_default o)) unknown)

    unscheduled : is_scheduled (reject_full p app) app ≡ false
    unscheduled = ground (arith, not_running, ap is_empty empty_queue)
