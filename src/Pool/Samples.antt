-- ===== src/Pool/Samples.antt =====
-- Tests of the worker pool, and its theorems at concrete inputs.
use synchrotron.Base.{
  arith, ◌<◌, ◌≡◌, ◌≢◌, ◌⊎◌, refl, true, false, none, [], ◌∷◌, ◌++◌, String_eq, if◌then◌else◌,
  contains,
}
use synchrotron.Base.Map.{get, insert, remove}
use synchrotron.Base.Equality.{set_insert, set_remove}
use synchrotron.Pool.{
  PoolConfig, Pool, webhook, poll, manual, ok, err, queue_full, new, accept, enqueue, enqueue_impl,
  enqueue_coalesce, next_dispatch, dispatch, complete, close,
}
use synchrotron.Pool.Lifecycle.{enqueues, dispatches, completes, Reach, here, next}
use synchrotron.Pool.Validity.{IsValid}
use synchrotron.Pool.Invariant.{Reach-new-IsValid}
use synchrotron.Pool.Dispatching.{dispatch_progress}
use synchrotron.Pool.Fifo.{queue_of, for_app, accepted, started, accepted-eq-started_append_queue}
use synchrotron.Pool.Coalescing.{is_scheduled, enqueue_coalesce_exact, zero_cap_blocks}

abbrev small : PoolConfig
small = record { max_concurrent = 1; per_app_queue_cap = 2 }

abbrev one_queued : Pool
one_queued = (enqueue_impl (new small) "guestbook" webhook false 5).1

abbrev two_queued : Pool
two_queued = (enqueue_impl one_queued "billing" poll true 7).1

abbrev one_running : Pool
one_running = (dispatch two_queued 9).1

abbrev queued_again : Pool
queued_again = (enqueue_impl one_running "guestbook" manual false 11).1

abbrev rotated : Pool
rotated = complete queued_again "guestbook"

queued_run : Reach (new small) two_queued
queued_run =
    next (next here (enqueues "guestbook" webhook false 5)) (enqueues "billing" poll true 7)

guestbook_runs : contains queued_again.state.in_flight "guestbook" ≡ true
unfolding enqueue_impl dispatch next_dispatch get insert set_insert
guestbook_runs = refl

rotated_run : Reach (new small) rotated
rotated_run =
    next (next (next queued_run (dispatches 9)) (enqueues "guestbook" manual false 11))
      (completes "guestbook" guestbook_runs)

-- After its first job guestbook is behind billing.
rotated_order : rotated.state.ready ≡ "billing" ∷ "guestbook" ∷ []
unfolding enqueue_impl dispatch next_dispatch complete insert get remove set_insert set_remove
rotated_order = refl

third_is_refused :
    (enqueue (enqueue one_queued "guestbook" poll 6).1 "guestbook" poll 6).0
    ≡ err (queue_full "guestbook" 2)
unfolding enqueue enqueue_impl insert get
third_is_refused = refl

Reach-new-IsValid_example : IsValid rotated
Reach-new-IsValid_example = Reach-new-IsValid small rotated (omega arith) rotated_run

two_open : two_queued.state.is_shutdown ≡ false
unfolding enqueue_impl get insert
two_open = refl

two_bounded : 0 < two_queued.config.max_concurrent
unfolding enqueue_impl get insert
two_bounded = omega arith

two_wait : 0 < two_queued.state.queue_depth
unfolding enqueue_impl get insert
two_wait = omega arith

two_capped : 0 < two_queued.config.per_app_queue_cap
unfolding enqueue_impl get insert
two_capped = omega arith

dispatch_progress_example :
    (two_queued.state.in_flight ≢ []) ⊎ ((next_dispatch two_queued).0 ≢ none)
dispatch_progress_example =
    dispatch_progress two_queued (Reach-new-IsValid small two_queued (omega arith) queued_run)
      two_open two_bounded two_wait

accepted-eq-started_append_queue_example :
    for_app "guestbook" (accepted rotated_run)
    ≡ for_app "guestbook" (started rotated_run) ++ queue_of rotated "guestbook"
accepted-eq-started_append_queue_example =
    accepted-eq-started_append_queue small rotated rotated_run "guestbook" (omega arith)

enqueue_coalesce_exact_example : enqueue_coalesce two_queued "guestbook" poll 8 ≡ (
    if is_scheduled two_queued "guestbook"
    then (ok false, two_queued)
    else (ok true, accept two_queued "guestbook" poll 8))
enqueue_coalesce_exact_example =
    enqueue_coalesce_exact two_queued "guestbook" poll 8
      (Reach-new-IsValid small two_queued (omega arith) queued_run) two_open two_capped

abbrev unusable : Pool
unusable = new (record { max_concurrent = 1; per_app_queue_cap = 0 })

nothing_known : get unusable.state.apps "guestbook" ≡ none
unfolding get
nothing_known = refl

zero_cap_blocks_example :
    let q = (enqueue unusable "guestbook" webhook 5).1 in
    ((enqueue_coalesce q "guestbook" poll 9).0 ≡ ok false) × (is_scheduled q "guestbook" ≡ false)
zero_cap_blocks_example =
    zero_cap_blocks unusable "guestbook" webhook poll 5 9 refl refl nothing_known refl

closed_run : Reach (close one_running) (complete (close one_running) "guestbook")
closed_run = next here (completes "guestbook" still_runs)
  where
    still_runs : contains (close one_running).state.in_flight "guestbook" ≡ true
    still_runs = unfold enqueue_impl dispatch next_dispatch close get insert set_insert in refl

closed : (close one_running).state.is_shutdown ≡ true
unfolding close
closed = refl
