-- ===== src/Discovery/Sources.antt =====
-- What the events of an informer make of the sources of crates/synchrotron-kube/src/scaler_discovery.rs.
use synchrotron.Base.{
  ◌≡◌, ◌∙◌, refl, ap, inl, inr, Bool, false, not, ◌&&◌, Option, none, some, List, [], ◌∷◌, ◌==◌,
  PartialEq, arith, filter, if◌then◌else◌, Bool-cases,
}
use synchrotron.Base.Map.{Map, get, is_some, get-insert, get-remove}
use synchrotron.Base.Options.{and_then}
use synchrotron.Manifest.{Yaml}
use synchrotron.Informer.{InformerEvent, applied, deleted, restarted}
use synchrotron.Diff.AutoIgnore.{ControllerKind, ScalerEntry}
use synchrotron.Discovery.{
  ControllerKind_eq, controller_beq_iff, ScalerEntry_eq, SourceKey, SourceKey_eq, DynamicObject,
  Sources, source_key_of, entry_of, apply_to, delete_from, insert_both, insert_listed,
  retain_others, on_event,
}

-- A map whose keys are filtered.
get-filter {ℓ κ} :
    {K : Type ℓ} {V : Type κ} ⦃e : PartialEq K⦄ (p : K → Bool) (m : Map K V) (k : K)
    → get (filter (λ x. p x.0) m) k ≡ (if p k then get m k else none)
unfolding get
get-filter p [] k = ground arith
get-filter ⦃e⦄ p ((j, v) ∷ m) k = ground (arith, e.decides j k, get-filter p m k)

abbrev is_key : Option SourceKey → SourceKey → Bool
is_key none k = false
is_key (some key) k = key == k

get-insert_both :
    (m : Sources) (key : Option SourceKey) (entry : Option ScalerEntry) (k : SourceKey)
    → get (insert_both m key entry) k ≡ (if is_key key k && is_some entry then entry else get m k)
get-insert_both m none entry k = refl
get-insert_both m (some key) none k = ground arith
get-insert_both m (some key) (some entry) k = ground (arith, get-insert m key entry k)

get-apply_to :
    (m : Sources) (key : Option SourceKey) (entry : Option ScalerEntry) (k : SourceKey)
    → get (apply_to m key entry).0 k ≡ (if is_key key k then entry else get m k)
get-apply_to m none entry k = refl
get-apply_to m (some key) none k = get-remove m key k
get-apply_to m (some key) (some entry) k = get-insert m key entry k

get-delete_from :
    (m : Sources) (key : Option SourceKey) (k : SourceKey)
    → get (delete_from m key).0 k ≡ (if is_key key k then none else get m k)
get-delete_from m none k = refl
get-delete_from m (some key) k = get-remove m key k

module _ {Y : Yaml} where
  -- The last object of a list that stands for an autoscaler under the key.
  listed :
      ControllerKind → List (DynamicObject Y) → SourceKey → Option ScalerEntry → Option ScalerEntry
  listed controller [] k found = found
  listed controller (obj ∷ list) k found = listed controller list k (
      if is_key (source_key_of obj controller) k && is_some (entry_of obj)
      then entry_of obj
      else found)

  -- What an event says of a key: an object is the autoscaler that it describes now, a deleted one is
  -- none, and a restart tells all that there is of its controller.
  pub told :
      ControllerKind
      → InformerEvent (DynamicObject Y)
      → (SourceKey → Option ScalerEntry)
      → SourceKey
      → Option ScalerEntry
  told controller (applied obj) known k =
      if is_key (source_key_of obj controller) k then entry_of obj else known k
  told controller (deleted obj) known k =
      if is_key (source_key_of obj controller) k then none else known k
  told controller (restarted list) known k =
      if k.controller == controller then listed controller list k none else known k

  get-insert_listed :
      (controller : ControllerKind) (list : List (DynamicObject Y)) (m : Sources) (k : SourceKey)
      → get (insert_listed controller list m) k ≡ listed controller list k (get m k)
  unfolding insert_listed listed
  get-insert_listed controller [] m k = refl
  get-insert_listed controller (obj ∷ list) m k =
      get-insert_listed controller list _ k
      ∙ ap (listed controller list k)
          (get-insert_both m (source_key_of obj controller) (entry_of obj) k)

  is_key-other :
      (controller : ControllerKind) (obj : DynamicObject Y) (k : SourceKey)
      → (k.controller == controller) ≡ false
      → is_key (source_key_of obj controller) k ≡ false
  is_key-other controller obj k h = go obj.name
    where
      go :
          (name : Option _)
          → is_key
              (and_then name
                λ n. some (record { controller = controller; namespace = obj.namespace; name = n }))
              k
            ≡ false
      go none = refl
      go (some n) = ground (
        arith,
        h,
        controller_beq_iff controller k.controller,
        controller_beq_iff k.controller controller,
      )

  listed-other :
      (controller : ControllerKind) (list : List (DynamicObject Y)) (k : SourceKey)
      (found : Option ScalerEntry)
      → (k.controller == controller) ≡ false
      → listed controller list k found ≡ found
  unfolding listed
  listed-other controller [] k found h = refl
  listed-other controller (obj ∷ list) k found h =
      rw (is_key-other controller obj k h) (listed-other controller list k found h)

  -- Every event leaves the sources as it tells of each key, the keys of the other controllers
  -- untouched; after a restart the controller's own keys are those of the list, whatever was known.
  pub on_event-told :
      (controller : ControllerKind) (e : InformerEvent (DynamicObject Y)) (m : Sources)
      (k : SourceKey)
      → get (on_event controller e m).0 k ≡ told controller e (get m) k
  unfolding on_event told
  on_event-told controller (applied obj) m k = get-apply_to m _ _ k
  on_event-told controller (deleted obj) m k = get-delete_from m _ k
  on_event-told controller (restarted list) m k =
      get-insert_listed controller list (retain_others controller m) k
      ∙ ap (listed controller list k) (get-filter (λ j. not (j.controller == controller)) m k)
      ∙ by_controller
    where
      by_controller :
          listed controller list k (if not (k.controller == controller) then get m k else none)
          ≡ (if k.controller == controller then listed controller list k none else get m k)
      by_controller = elim (Bool-cases (k.controller == controller)) [
        | inl h ↦ rw h refl
        | inr h ↦ rw h (listed-other controller list k (get m k) h)
      ]
