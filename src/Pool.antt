-- ===== src/Pool.antt =====
-- crates/synchrotron-reconcile/src/worker_pool.rs: the scheduling state of the worker pool. Each
-- function here is what the source does under one hold of the state's lock, so an interleaving of
-- producers, the dispatcher and the finishing handlers is a sequence of these steps. The
-- instant of a call is an argument, in microseconds.
pub mod Lifecycle
pub mod Depth
pub mod Validity
pub mod Invariant
pub mod Dispatching
pub mod Fifo
pub mod Coalescing
pub mod Draining
pub mod Samples
use synchrotron.Base.{
  ℕ, ◌+◌, ◌-◌, ◌%◌, ◌^◌, ◌≡◌, Bool, true, false, not, ◌&&◌, ◌||◌, Option, none, some, List, [], ◌∷◌,
  ◌++◌, String, PartialEq, String_eq, if◌then◌else◌, length, leb, contains, set_insert, set_remove,
}
use synchrotron.Base.Map.{Map, get, insert, remove, contains_key}

pub record PoolConfig : Type 0 where
  pub max_concurrent : ℕ
  pub per_app_queue_cap : ℕ

abbrev pub default_config : PoolConfig
default_config = record { max_concurrent = 16; per_app_queue_cap = 8 }

pub data Trigger : Type 0 where
  webhook poll auto_heal manual : Trigger

pub record JobCtx : Type 0 where
  pub app_id : String
  pub trigger : Trigger
  pub enqueued_at : ℕ

pub data EnqueueError : Type 0 where
  shutdown : EnqueueError
  queue_full : String → ℕ → EnqueueError

pub data Result {ℓ} (A : Type ℓ) : Type ℓ where
  ok : A → Result A
  err : EnqueueError → Result A

pub record State : Type 0 where
  pub apps : Map String (List JobCtx)
  pub ready : List String
  pub in_flight : List String
  pub queue_depth : ℕ
  pub is_shutdown : Bool

-- Atomic counters of 64 bits.
pub record Counters : Type 0 where
  pub enqueued : ℕ
  pub rejected_full : ℕ
  pub started : ℕ
  pub completed : ℕ
  pub total_wait_micros : ℕ

-- `fetch_add`
abbrev pub fetch_add : ℕ → ℕ → ℕ
fetch_add counter n = (counter + n) % 2 ^ 64

pub record Pool : Type 0 where
  pub state : State
  pub config : PoolConfig
  pub counters : Counters

abbrev pub new : PoolConfig → Pool
new config = record {
  state = record { apps = []; ready = []; in_flight = []; queue_depth = 0; is_shutdown = false };
  config = config;
  counters = record {
    enqueued = 0;
    rejected_full = 0;
    started = 0;
    completed = 0;
    total_wait_micros = 0;
  };
}

-- `apps.entry(app_id).or_default()`
abbrev pub or_default : Option (List JobCtx) → List JobCtx
or_default none = []
or_default (some q) = q

pub reject_full : Pool → String → Pool
reject_full p app = record p {
  state = record p.state { apps = insert p.state.apps app (or_default (get p.state.apps app)) };
  counters = record p.counters { rejected_full = fetch_add p.counters.rejected_full 1 };
}

unfoldable pub accept : Pool → String → Trigger → ℕ → Pool
accept p app trigger now = record p {
  state = record p.state {
    apps = insert p.state.apps app (
        or_default (get p.state.apps app)
        ++ record { app_id = app; trigger = trigger; enqueued_at = now } ∷ []);
    queue_depth = p.state.queue_depth + 1;
    ready =
        if not (contains p.state.in_flight app) && not (contains p.state.ready app)
        then p.state.ready ++ app ∷ []
        else p.state.ready;
  };
  counters = record p.counters { enqueued = fetch_add p.counters.enqueued 1 };
}

unfoldable pub enqueue_impl : Pool → String → Trigger → Bool → ℕ → Result Bool × Pool
unfolding reject_full accept
enqueue_impl p app trigger coalesce now =
    if p.state.is_shutdown
    then (err shutdown, p)
    else if coalesce && contains_key p.state.apps app
    then (ok false, p)
    else if leb p.config.per_app_queue_cap (length (or_default (get p.state.apps app)))
    then (err (queue_full app p.config.per_app_queue_cap), reject_full p app)
    else (ok true, accept p app trigger now)

abbrev forget : Result Bool → Result (Unit {0})
forget (ok b) = ok tt
forget (err e) = err e

unfoldable pub enqueue : Pool → String → Trigger → ℕ → Result (Unit {0}) × Pool
unfolding enqueue_impl
enqueue p app trigger now = let (r, q) = enqueue_impl p app trigger false now in (forget r, q)

unfoldable pub enqueue_coalesce : Pool → String → Trigger → ℕ → Result Bool × Pool
unfolding enqueue_impl
enqueue_coalesce p app trigger now = enqueue_impl p app trigger true now

-- What is taken from the queue of an app that was ready.
take_job : Pool → String → List String → Option (List JobCtx) → Option JobCtx × Pool
take_job p app rest (some (job ∷ jobs)) = (
  some job,
  record p {
    state = record p.state {
      apps = insert p.state.apps app jobs;
      ready = rest;
      queue_depth = p.state.queue_depth - 1;
      in_flight = set_insert p.state.in_flight app;
    };
  },
)
take_job p app rest _ = (none, record p { state = record p.state { ready = rest } })

pop_ready : Pool → List String → Option JobCtx × Pool
unfolding take_job
pop_ready p [] = (none, p)
pop_ready p (app ∷ rest) = take_job p app rest (get p.state.apps app)

unfoldable pub next_dispatch : Pool → Option JobCtx × Pool
unfolding pop_ready
next_dispatch p =
    if p.state.is_shutdown
    then (none, p)
    else if leb p.config.max_concurrent (length p.state.in_flight)
    then (none, p)
    else pop_ready p p.state.ready

unfoldable pub record_started : Pool → ℕ → Pool
record_started p wait = record p {
  counters = record p.counters {
    started = fetch_add p.counters.started 1;
    total_wait_micros = fetch_add p.counters.total_wait_micros wait;
  };
}

-- `elapsed` is zero if the clock is behind.
counted : ℕ → Option JobCtx × Pool → Option JobCtx × Pool
unfolding record_started
counted now (none, q) = (none, q)
counted now (some ctx, q) = (some ctx, record_started q (now - ctx.enqueued_at))

-- One round of the dispatcher's inner loop.
unfoldable pub dispatch : Pool → ℕ → Option JobCtx × Pool
unfolding next_dispatch counted
dispatch p now = counted now (next_dispatch p)

abbrev has_more : Option (List JobCtx) → Bool
has_more (some (job ∷ jobs)) = true
has_more _ = false

-- The end of a handler's task.
unfoldable pub complete : Pool → String → Pool
complete p app = record p {
  state = record p.state {
    in_flight = set_remove p.state.in_flight app;
    ready = if has_more (get p.state.apps app) then p.state.ready ++ app ∷ [] else p.state.ready;
    apps = if has_more (get p.state.apps app) then p.state.apps else remove p.state.apps app;
  };
  counters = record p.counters { completed = fetch_add p.counters.completed 1 };
}

-- The flag that `shutdown` sets.
unfoldable pub close : Pool → Pool
close p = record p { state = record p.state { is_shutdown = true } }

pub record PoolStats : Type 0 where
  pub enqueued : ℕ
  pub rejected_full : ℕ
  pub started : ℕ
  pub completed : ℕ
  pub in_flight : ℕ
  pub queue_depth : ℕ
  pub total_wait_micros : ℕ

pub stats_snapshot : Pool → PoolStats
stats_snapshot p = record {
  enqueued = p.counters.enqueued;
  rejected_full = p.counters.rejected_full;
  started = p.counters.started;
  completed = p.counters.completed;
  in_flight = length p.state.in_flight;
  queue_depth = p.state.queue_depth;
  total_wait_micros = p.counters.total_wait_micros;
}
