-- ===== src/Pool/Validity/Complete.antt =====
-- The end of a handler keeps the pool valid, crates/synchrotron-reconcile/src/worker_pool.rs.
use synchrotron.Base.{
  ℕ, ◌≡◌, refl, sym, ◌∙◌, Bool, true, false, Option, none, some, List, [], ◌∷◌, String, ◌==◌,
  String_eq, arith, if◌then◌else◌, contains, contains-set_remove, set_remove-Distinct,
  length-set_remove-le, eq_self,
}
use synchrotron.Base.Map.{Map, get, remove, get-remove, KeysNodup, remove-KeysNodup}
use synchrotron.Pool.{Pool, JobCtx, has_more, complete}
use synchrotron.Pool.Depth.{total, total-remove}
use synchrotron.Pool.Validity.{
  Shape, ShapeOf, IsValid, for_apps, push_self, push_other, push-Distinct,
}

-- What is left of an app whose handler has ended.
after_complete-Shape :
    (cap : ℕ) (a : String) (o : Option (List JobCtx)) (ready : Bool)
    → Shape cap a o ready true
    → Shape cap a (if has_more o then o else none) (if has_more o then true else ready) false
after_complete-Shape cap a none ready s = cc s.1
after_complete-Shape cap a (some []) ready s = (s.2 refl, refl)
after_complete-Shape cap a (some (job ∷ jobs)) ready s =
    (s.0, s.1, (λ h. cc), (λ h. (refl, omega arith)))

get_after :
    (more : Bool) (m : Map String (List JobCtx)) (app a : String)
    → get (if more then m else remove m app) a
      ≡ (if app == a then (if more then get m a else none) else get m a)
get_after true m app a = ground arith
get_after false m app a = get-remove m app a

keys_after :
    (more : Bool) (m : Map String (List JobCtx)) (app : String)
    → KeysNodup m
    → KeysNodup (if more then m else remove m app)
keys_after true m app u = u
keys_after false m app u = remove-KeysNodup m app u

total_after :
    (m : Map String (List JobCtx)) (app : String)
    → KeysNodup m
    → total (if has_more (get m app) then m else remove m app) ≡ total m
total_after m app u = ground (arith, total-remove m app u)

not_ready :
    (cap : ℕ) (a : String) (o : Option (List JobCtx)) (ready : Bool)
    → Shape cap a o ready true
    → ready ≡ false
not_ready cap a none ready s = s.0
not_ready cap a (some q) ready s = s.2 refl

-- The end of a running handler keeps the pool valid.
pub complete-IsValid :
    (p : Pool) (app : String)
    → IsValid p
    → contains p.state.in_flight app ≡ true
    → IsValid (complete p app)
unfolding complete
complete-IsValid p app v running = record {
  shape =
      for_apps (ShapeOf (complete p app)) app
        (rw
          (get_after, eq_self app, push_self _ p.state.ready app, contains-set_remove, eq_self app)
          (after_complete-Shape _ app _ _ own))
        (λ a other.
          rw (get_after, other, push_other _ p.state.ready app a other, contains-set_remove, other)
            (v.shape a));
  keys = keys_after _ p.state.apps app v.keys;
  ready_once = push-Distinct _ p.state.ready app (λ _. not_ready _ app _ _ own) v.ready_once;
  running_once = set_remove-Distinct p.state.in_flight app v.running_once;
  bounded = omega (arith, length-set_remove-le p.state.in_flight app, v.bounded);
  depth = v.depth ∙ sym (total_after p.state.apps app v.keys);
}
  where
    own :
        Shape p.config.per_app_queue_cap app
          (get p.state.apps app)
          (contains p.state.ready app)
          true
    own = rw running at (v.shape app)
