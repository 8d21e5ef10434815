-- ===== src/Pool/Validity.antt =====
-- The invariant of the worker pool, crates/synchrotron-reconcile/src/worker_pool.rs.
pub mod Enqueue
pub mod Dispatch
pub mod Complete
use synchrotron.Base.{
  ℕ, suc, ◌+◌, ◌-◌, ◌≤◌, ◌<◌, ◌≡◌, ◌⊎◌, inl, inr, refl, ap, ◌∙◌, subst, Bool, true, false, not,
  ◌&&◌, Option, none, some, List, [], ◌∷◌, ◌++◌, String, PartialEq, ◌==◌, String_eq, arith,
  if◌then◌else◌, length, length-append, leb, contains, contains-append, contains-set_remove,
  contains-set_insert, set_insert, set_remove, Distinct, append-Distinct, set_remove-Distinct,
  length-set_remove-le, All, Bool-cases, eq_self,
}
use synchrotron.Base.Map.{
  Map, get, insert, remove, get-insert, get-remove, KeysNodup, insert-KeysNodup, remove-KeysNodup,
}
use text.Mathlib.TextEquality.{eq_iff}
use synchrotron.Pool.{
  Pool, PoolConfig, State, JobCtx, Trigger, Result, ok, err, or_default, new, enqueue_impl,
  reject_full, accept, take_job, pop_ready, next_dispatch, record_started, dispatch, has_more,
  complete, close,
}
use synchrotron.Pool.Depth.{total, total-insert, total-remove}

-- What the three collections say of one app: nothing, or a queue of its own jobs within the cap. A
-- running app is not ready; one that is not running has work and is ready.
abbrev pub Shape : ℕ → String → Option (List JobCtx) → Bool → Bool → Type 0
Shape cap a none ready running = (ready ≡ false) × (running ≡ false)
Shape cap a (some q) ready running =
    (length q ≤ cap)
    × All (λ j. j.app_id ≡ a) q
    × (running ≡ true → ready ≡ false)
    × (running ≡ false → (ready ≡ true) × (0 < length q))

pub record IsValid (p : Pool) : Type 0 where
  pub shape :
      (a : String)
      → Shape p.config.per_app_queue_cap a
          (get p.state.apps a)
          (contains p.state.ready a)
          (contains p.state.in_flight a)
  pub keys : KeysNodup p.state.apps
  pub ready_once : Distinct p.state.ready
  pub running_once : Distinct p.state.in_flight
  pub bounded : length p.state.in_flight ≤ p.config.max_concurrent
  pub depth : p.state.queue_depth ≡ total p.state.apps

pub new-IsValid : (c : PoolConfig) → IsValid (new c)
unfolding get total
new-IsValid c = record {
  shape = λ a. (refl, refl);
  keys = tt;
  ready_once = tt;
  running_once = tt;
  bounded = omega arith;
  depth = refl;
}

-- A property of every app, by the app that a step is about and the others.
pub for_apps {ℓ} :
    (P : String → Type ℓ) (app : String)
    → P app
    → ((a : String) → (app == a) ≡ false → P a)
    → (a : String) → P a
for_apps P app at_app at_others a = elim (Bool-cases (app == a)) [
  | inl same ↦ subst P ((eq_iff app a).0 same) at_app
  | inr other ↦ at_others a other
]

-- `ready.push_back(app)` under a test, seen from the app and from another.
pub push_self :
    (test : Bool) (ready : List String) (app : String)
    → contains (if test then ready ++ app ∷ [] else ready) app
      ≡ (if test then true else contains ready app)
push_self test ready app = ground (arith, contains-append ready (app ∷ []) app, eq_self app)

pub push_other :
    (test : Bool) (ready : List String) (app a : String)
    → (app == a) ≡ false
    → contains (if test then ready ++ app ∷ [] else ready) a ≡ contains ready a
push_other test ready app a h = ground (arith, contains-append ready (app ∷ []) a)

pub push-Distinct :
    (test : Bool) (ready : List String) (app : String)
    → (test ≡ true → contains ready app ≡ false)
    → Distinct ready
    → Distinct (if test then ready ++ app ∷ [] else ready)
push-Distinct true ready app h d = append-Distinct ready app (h refl) d
push-Distinct false ready app h d = d

abbrev pub ShapeOf : Pool → String → Type 0
ShapeOf p a =
    Shape p.config.per_app_queue_cap a (get p.state.apps a) (contains p.state.ready a)
      (contains p.state.in_flight a)

-- What a ready app has: a job that waits, and no running handler.
abbrev pub Waiting : String → Option (List JobCtx) → Bool → Type 0
Waiting a none running = ⊥
Waiting a (some []) running = ⊥
Waiting a (some (job ∷ jobs)) running = (running ≡ false) × (job.app_id ≡ a)

Waiting-of-Shape :
    (cap : ℕ) (a : String) (o : Option (List JobCtx)) (running : Bool)
    → Shape cap a o true running
    → Waiting a o running
Waiting-of-Shape cap a none running s = cc s.0
Waiting-of-Shape cap a (some []) true s = cc (s.2 refl)
Waiting-of-Shape cap a (some []) false s = absurd (omega (arith, (s.3 refl).1))
Waiting-of-Shape cap a (some (job ∷ jobs)) true s = cc (s.2 refl)
Waiting-of-Shape cap a (some (job ∷ jobs)) false s = (refl, s.1.0)

pub contains_head : (app : String) (rest : List String) → contains (app ∷ rest) app ≡ true
contains_head app rest = ground (arith, eq_self app)

pub ready_waits :
    (p : Pool) (app : String) (rest : List String)
    → IsValid p
    → p.state.ready ≡ app ∷ rest
    → Waiting app (get p.state.apps app) (contains p.state.in_flight app)
ready_waits p app rest v e =
    Waiting-of-Shape p.config.per_app_queue_cap app _ _
      (rw (ap (λ l. contains l app) e ∙ contains_head app rest) at (v.shape app))
