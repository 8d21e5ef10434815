-- ===== src/Discovery/Samples.antt =====
-- The cache of autoscalers on the objects of Diff.Pipeline.Samples, and its theorems at concrete inputs.
use synchrotron.Base.{◌≡◌, refl, ap, true, some, List, [], ◌∷◌, length, filter}
use synchrotron.Base.Map.{get}
use synchrotron.Manifest.Samples.{Sample}
use synchrotron.Manifest.{value}
use synchrotron.Manifest.Stream.{parse_gvk}
use synchrotron.Informer.{applied, deleted, restarted}
use synchrotron.Diff.AutoIgnore.{
  ControllerKind, hpa, keda_scaled_object, TargetRef, empty_cache, entries_for, cache_len,
  replace_with, parse_scaler,
}
use synchrotron.Diff.AutoIgnore.Scalers.{aims_at}
use synchrotron.Diff.Pipeline.Samples.{autoscaler}
use synchrotron.Discovery.{
  SourceKey, SourceKey_eq, DynamicObject, on_event, values, spawned, Received, event, lagged,
  to_read, to_write, after_event, receive, rebuild,
}
use synchrotron.Discovery.Sources.{told, on_event-told}
use synchrotron.Discovery.Current.{consume_all, consume_all-current}
use synchrotron.Discovery.Tasks.{
  Tasks, spawned_tasks, Reach, here, next, stepped, receives, reads, writes,
}
use synchrotron.Discovery.Stale.{IsPast, reach-IsPast}
use synchrotron.Discovery.Race.{AtRest, race-stale}

abbrev scaler_object : DynamicObject Sample
scaler_object = record {
  types = some ("autoscaling/v1", "HorizontalPodAutoscaler");
  namespace = some "app";
  name = some "web";
  body = some autoscaler.body;
}

abbrev keda_object : DynamicObject Sample
keda_object = record scaler_object {
  types = some ("keda.sh/v1", "ScaledObject");
  name = some "queue";
}

abbrev scaler_key : SourceKey
scaler_key = record { controller = hpa; namespace = some "app"; name = "web" }

on_event-told_example :
    get (on_event hpa (restarted (scaler_object ∷ [])) []).0 scaler_key
    ≡ told hpa (restarted (scaler_object ∷ [])) (get []) scaler_key
on_event-told_example = on_event-told hpa (restarted (scaler_object ∷ [])) [] scaler_key

abbrev messages : List (ControllerKind × Received Sample)
messages =
    (hpa, event (applied scaler_object))
    ∷ (keda_scaled_object, lagged)
    ∷ (hpa, event (deleted scaler_object))
    ∷ []

consume_all-current_example :
    ((target : TargetRef)
      → entries_for (consume_all messages spawned).cache target
        ≡ filter (aims_at target) (values (consume_all messages spawned).sources))
    × (cache_len (consume_all messages spawned).cache
        ≡ length (values (consume_all messages spawned).sources))
consume_all-current_example = consume_all-current messages

-- One task through an event, its reading and its writing.
abbrev heard : Tasks
heard = stepped spawned_tasks hpa (receive hpa (event (applied scaler_object)) spawned)

abbrev has_read : Tasks
has_read = stepped heard hpa (rebuild to_read heard.shared)

abbrev has_written : Tasks
has_written =
    stepped has_read hpa (rebuild (to_write (values heard.shared.sources)) has_read.shared)

changed : (on_event hpa (applied scaler_object) []).1 ≡ true
unfolding on_event get parse_scaler parse_gvk value
changed = refl

changed_again :
    (on_event keda_scaled_object
      (applied keda_object)
      (on_event hpa (applied scaler_object) []).0).1
    ≡ true
unfolding on_event get parse_scaler parse_gvk value
changed_again = refl

three_steps : Reach Sample spawned_tasks has_written
three_steps =
    next
      (next (next here (receives hpa (event (applied scaler_object)) refl))
        (reads hpa (ap after_event changed)))
      (writes hpa (values heard.shared.sources) refl)

reach-IsPast_example : IsPast Sample has_written
reach-IsPast_example = reach-IsPast Sample has_written three_steps

race-stale_example :
    (u : Tasks) × Reach Sample spawned_tasks u
    × AtRest u
    × (u.shared.sources
        ≡ (on_event keda_scaled_object
            (applied keda_object)
            (on_event hpa (applied scaler_object) []).0).0)
    × (u.shared.cache
        ≡ replace_with empty_cache (values (on_event hpa (applied scaler_object) []).0))
race-stale_example =
    race-stale spawned_tasks hpa keda_scaled_object (applied scaler_object) (applied keda_object)
      (λ k. refl) refl changed changed_again
