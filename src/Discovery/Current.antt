-- ===== src/Discovery/Current.antt =====
-- What the diff reads of the cache of crates/synchrotron-kube/src/scaler_discovery.rs.
use synchrotron.Base.{
  ◌≡◌, ◌∙◌, refl, ap, Bool, true, false, Option, none, some, List, [], ◌∷◌, arith, filter, length,
  option_beq_iff,
}
use synchrotron.Base.Map.{get, insert_self, remove-absent}
use synchrotron.Manifest.{Yaml}
use synchrotron.Informer.{InformerEvent, applied, deleted, restarted}
use synchrotron.Diff.AutoIgnore.{
  ControllerKind, TargetRef, ScalerEntry, empty_cache, entries_for, cache_len, replace_with,
}
use synchrotron.Diff.AutoIgnore.Scalers.{aims_at, entries_for-replace_with}
use synchrotron.Discovery.{
  ScalerEntry_eq, SourceKey, SourceKey_eq, Sources, store_entry, apply_to, delete_from,
  source_key_of, entry_of, on_event, values, Shared, spawned, after_event, Received, event, lagged,
  finish, consume,
}

-- What does not count as a change leaves the sources as they were.
abbrev IsUnchanged : Sources → Sources × Bool → Type 0
IsUnchanged m r = r.1 ≡ false → r.0 ≡ m

store_entry-IsUnchanged :
    (m : Sources) (key : SourceKey) (entry : Option ScalerEntry)
    → IsUnchanged m (store_entry m key entry)
store_entry-IsUnchanged m key (some entry) h =
    insert_self m key entry ((option_beq_iff (get m key) (some entry)).0 (ground arith))
store_entry-IsUnchanged m key none h = remove-absent m key h

apply_to-IsUnchanged :
    (m : Sources) (key : Option SourceKey) (entry : Option ScalerEntry)
    → IsUnchanged m (apply_to m key entry)
apply_to-IsUnchanged m none entry h = refl
apply_to-IsUnchanged m (some key) entry h = store_entry-IsUnchanged m key entry h

delete_from-IsUnchanged : (m : Sources) (key : Option SourceKey) → IsUnchanged m (delete_from m key)
delete_from-IsUnchanged m none h = refl
delete_from-IsUnchanged m (some key) h = remove-absent m key h

-- The cache is made of the sources as they are.
abbrev pub IsCurrent : Shared → Type 0
IsCurrent s = s.cache ≡ replace_with empty_cache (values s.sources)

spawned-IsCurrent : IsCurrent spawned
unfolding replace_with
spawned-IsCurrent = refl

finish-IsCurrent :
    (s : Shared) (r : Sources × Bool)
    → IsUnchanged s.sources r
    → IsCurrent s
    → IsCurrent (finish (record s { sources = r.0 }, after_event r.1))
unfolding replace_with
finish-IsCurrent s (m, true) u h = refl
finish-IsCurrent s (m, false) u h = rw (u refl) h

module _ {Y : Yaml} where
  on_event-IsUnchanged :
      (controller : ControllerKind) (e : InformerEvent _) (m : Sources)
      → IsUnchanged m (on_event {Y = Y} controller e m)
  unfolding on_event
  on_event-IsUnchanged controller (applied obj) m =
      apply_to-IsUnchanged m (source_key_of obj controller) (entry_of obj)
  on_event-IsUnchanged controller (deleted obj) m =
      delete_from-IsUnchanged m (source_key_of obj controller)
  on_event-IsUnchanged controller (restarted list) m = λ h. cc

  consume-IsCurrent :
      (controller : ControllerKind) (received : Received Y) (s : Shared)
      → IsCurrent s
      → IsCurrent (consume controller received s)
  unfolding consume
  consume-IsCurrent controller lagged s h = h
  consume-IsCurrent controller (event e) s h =
      finish-IsCurrent s (on_event controller e s.sources)
        (on_event-IsUnchanged controller e s.sources) h

  -- The consumers one after the other, each message of a channel handled to its end
  pub consume_all : List (ControllerKind × Received Y) → Shared → Shared
  consume_all [] s = s
  consume_all ((controller, received) ∷ messages) s =
      consume_all messages (consume controller received s)

  consume_all-IsCurrent :
      (messages : List (ControllerKind × Received Y)) (s : Shared)
      → IsCurrent s
      → IsCurrent (consume_all messages s)
  unfolding consume_all
  consume_all-IsCurrent [] s h = h
  consume_all-IsCurrent ((controller, received) ∷ messages) s h =
      consume_all-IsCurrent messages (consume controller received s)
        (consume-IsCurrent controller received s h)

  -- As long as no two consumers handle messages at the same time, the cache has, after any messages,
  -- for every workload just the sources' autoscalers that aim at it, and none else.
  pub consume_all-current :
      (messages : List (ControllerKind × Received Y))
      → ((target : TargetRef)
          → entries_for (consume_all messages spawned).cache target
            ≡ filter (aims_at target) (values (consume_all messages spawned).sources))
        × (cache_len (consume_all messages spawned).cache
            ≡ length (values (consume_all messages spawned).sources))
  consume_all-current messages =
      let now = consume_all-IsCurrent messages spawned spawned-IsCurrent in
      let held =
        entries_for-replace_with empty_cache (values (consume_all messages spawned).sources) in
      (λ target. ap (λ c. entries_for c target) now ∙ held.0 target, ap cache_len now ∙ held.1)
