-- ===== src/Discovery.antt =====
-- crates/synchrotron-kube/src/scaler_discovery.rs: the cache of autoscalers that the diff reads, kept up to
-- date by one consumer task for each kind of autoscaler. What a DynamicObject becomes as a YAML body is
-- a field of the object.
pub mod Sources
pub mod Current
pub mod Tasks
pub mod Stale
pub mod Race
pub mod Samples
use text.Mathlib.TextEquality.{eq_iff}
use synchrotron.Base.{
  ◌≡◌, ◌↔◌, Bool, true, false, not, ◌&&◌, Option, none, some, List, [], ◌∷◌, String, String_eq,
  Option_eq, List_eq, ◌==◌, PartialEq, arith, option_beq_iff, list_beq_iff, filter, map,
}
use synchrotron.Base.Map.{Map, get, insert, remove, is_some}
use synchrotron.Base.Options.{and_then}
use synchrotron.Manifest.{Yaml, Manifest, ManifestBody}
use synchrotron.Manifest.Stream.{parse_gvk}
use synchrotron.Informer.{InformerEvent, applied, deleted, restarted}
use synchrotron.Diff.AutoIgnore.{
  ControllerKind, hpa, vpa, keda_scaled_object, TargetRef_eq, target_beq_iff, ScalerEntry,
  ScalerCache, empty_cache, replace_with, parse_scaler,
}

abbrev pub controller_beq : ControllerKind → ControllerKind → Bool
controller_beq hpa hpa = true
controller_beq vpa vpa = true
controller_beq keda_scaled_object keda_scaled_object = true
controller_beq _ _ = false

pub controller_beq_iff : (a b : ControllerKind) → (controller_beq a b ≡ true) ↔ (a ≡ b)
controller_beq_iff a b = ground arith

instance abbrev pub ControllerKind_eq : PartialEq ControllerKind
ControllerKind_eq = record { tests = controller_beq; decides = controller_beq_iff }

abbrev pub entry_beq : ScalerEntry → ScalerEntry → Bool
entry_beq a b =
    a.controller == b.controller && a.target == b.target && a.ignored_paths == b.ignored_paths

pub entry_beq_iff : (a b : ScalerEntry) → (entry_beq a b ≡ true) ↔ (a ≡ b)
entry_beq_iff a b = ground (
  arith,
  controller_beq_iff a.controller b.controller,
  target_beq_iff a.target b.target,
  list_beq_iff a.ignored_paths b.ignored_paths,
)

instance abbrev pub ScalerEntry_eq : PartialEq ScalerEntry
ScalerEntry_eq = record { tests = entry_beq; decides = entry_beq_iff }

pub record SourceKey : Type 0 where
  pub controller : ControllerKind
  pub namespace : Option String
  pub name : String

abbrev pub source_beq : SourceKey → SourceKey → Bool
source_beq a b = a.controller == b.controller && a.namespace == b.namespace && a.name == b.name

pub source_beq_iff : (a b : SourceKey) → (source_beq a b ≡ true) ↔ (a ≡ b)
source_beq_iff a b = ground (
  arith,
  controller_beq_iff a.controller b.controller,
  option_beq_iff a.namespace b.namespace,
  eq_iff a.name b.name,
)

instance abbrev pub SourceKey_eq : PartialEq SourceKey
SourceKey_eq = record { tests = source_beq; decides = source_beq_iff }

-- The kube crate's type: `types` is the API version and the kind, `body` what the object becomes as a YAML
-- value by way of JSON.
pub record DynamicObject (Y : Yaml) : Type 0 where
  pub types : Option (String × String)
  pub namespace : Option String
  pub name : Option String
  pub body : Option (ManifestBody Y)

abbrev pub Sources : Type 0
Sources = Map SourceKey ScalerEntry

-- The sources after an entry is put in or taken out, and whether that changed them.
abbrev pub store_entry : Sources → SourceKey → Option ScalerEntry → Sources × Bool
store_entry m key (some entry) = (insert m key entry, not (get m key == some entry))
store_entry m key none = (remove m key, is_some (get m key))

abbrev pub apply_to : Sources → Option SourceKey → Option ScalerEntry → Sources × Bool
apply_to m none new_entry = (m, false)
apply_to m (some key) new_entry = store_entry m key new_entry

abbrev pub delete_from : Sources → Option SourceKey → Sources × Bool
delete_from m none = (m, false)
delete_from m (some key) = (remove m key, is_some (get m key))

abbrev pub insert_both : Sources → Option SourceKey → Option ScalerEntry → Sources
insert_both m (some key) (some entry) = insert m key entry
insert_both m none entry = m
insert_both m (some key) none = m

-- `retain`: the other controllers' sources
abbrev pub retain_others : ControllerKind → Sources → Sources
retain_others controller = filter (λ e. not (e.0.controller == controller))

module _ {Y : Yaml} where
  abbrev pub source_key_of : DynamicObject Y → ControllerKind → Option SourceKey
  source_key_of obj controller =
      and_then obj.name
        λ name. some (record { controller = controller; namespace = obj.namespace; name = name })

  abbrev pub manifest_of : DynamicObject Y → Option (Manifest Y)
  manifest_of obj = and_then obj.types λ types. and_then obj.name λ name. and_then obj.body λ body.
      some (record {
        gvk = parse_gvk types.0 types.1;
        name = name;
        namespace = obj.namespace;
        body = body;
      })

  abbrev pub entry_of : DynamicObject Y → Option ScalerEntry
  entry_of obj = and_then (manifest_of obj) (parse_scaler Y)

  unfoldable pub insert_listed : ControllerKind → List (DynamicObject Y) → Sources → Sources
  unfolding insert parse_scaler parse_gvk
  insert_listed controller [] m = m
  insert_listed controller (obj ∷ list) m =
      insert_listed controller list (insert_both m (source_key_of obj controller) (entry_of obj))

  -- One event of the informer: the sources, and whether the cache is rebuilt.
  unfoldable pub on_event :
      ControllerKind → InformerEvent (DynamicObject Y) → Sources → Sources × Bool
  unfolding insert_listed
  on_event controller (applied obj) m = apply_to m (source_key_of obj controller) (entry_of obj)
  on_event controller (deleted obj) m = delete_from m (source_key_of obj controller)
  on_event controller (restarted list) m =
      (insert_listed controller list (retain_others controller m), true)

abbrev pub values : Sources → List ScalerEntry
values = map (λ e. e.1)

-- The sources and the cache that the consumer tasks share.
pub record Shared : Type 0 where
  pub sources : Sources
  pub cache : ScalerCache

abbrev pub spawned : Shared
spawned = record { sources = []; cache = empty_cache }

-- What a consumer task is at: it waits for an event, it has yet to read the sources for the cache, or
-- it has read them and waits for the cache's lock.
pub data Phase : Type 0 where
  waiting to_read : Phase
  to_write : List ScalerEntry → Phase

abbrev pub after_event : Bool → Phase
after_event true = to_read
after_event false = waiting

-- What a receiver of the broadcast channel gives.
pub data Received (Y : Yaml) : Type 0 where
  event : InformerEvent (DynamicObject Y) → Received Y
  lagged : Received Y

abbrev pub receive : {Y : Yaml} → ControllerKind → Received Y → Shared → Shared × Phase
receive controller (event e) s =
    let (sources, changed) = on_event controller e s.sources in
    (record s { sources = sources }, after_event changed)
receive controller lagged s = (s, waiting)

-- `rebuild_cache` in its two halves
abbrev pub rebuild : Phase → Shared → Shared × Phase
rebuild waiting s = (s, waiting)
rebuild to_read s = (s, to_write (values s.sources))
rebuild (to_write entries) s = (record s { cache = replace_with s.cache entries }, waiting)

-- What is left of a message after its event, when no other task comes between.
abbrev pub finish : Shared × Phase → Shared
finish (s, phase) = let (s', phase') = rebuild phase s in (rebuild phase' s').0

-- The body of `consumer_task`'s loop, undisturbed.
unfoldable pub consume : {Y : Yaml} → ControllerKind → Received Y → Shared → Shared
unfolding on_event replace_with
consume controller received s = finish (receive controller received s)
