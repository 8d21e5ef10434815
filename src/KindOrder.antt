-- ===== src/KindOrder.antt =====
-- crates/synchrotron-reconcile/src/kind_order.rs: the order of the entries within one sync wave.
pub mod Dependencies
pub mod Samples
use Prim.Native.Nat.{compare as compare_ℕ}
use Prim.Native.String.{compare as compare_str}
use synchrotron.Base.{ℕ, Option, none, some, List, [], ◌∷◌, String, String_eq}
use synchrotron.Base.Map.{Map, get}
use synchrotron.Base.Order.{Ordering, and_then, by_key, compare_option, lexicographic}
use synchrotron.Base.Sorting.{sort_by}
use synchrotron.Plan.{PlannedAction, apply, delete, noop, PlanEntry}

abbrev pub default_priority : ℕ
default_priority = 1000

-- The arms of the match on the kind.
abbrev pub priorities : Map String ℕ
priorities =
    ("Namespace", 100)
    ∷ ("NetworkPolicy", 110)
    ∷ ("ResourceQuota", 120)
    ∷ ("LimitRange", 130)
    ∷ ("PodSecurityPolicy", 140)
    ∷ ("PodDisruptionBudget", 150)
    ∷ ("ServiceAccount", 200)
    ∷ ("Secret", 210)
    ∷ ("SecretList", 210)
    ∷ ("ConfigMap", 220)
    ∷ ("StorageClass", 300)
    ∷ ("PersistentVolume", 310)
    ∷ ("PersistentVolumeClaim", 320)
    ∷ ("CustomResourceDefinition", 400)
    ∷ ("ClusterRole", 500)
    ∷ ("ClusterRoleList", 500)
    ∷ ("ClusterRoleBinding", 510)
    ∷ ("ClusterRoleBindingList", 510)
    ∷ ("Role", 520)
    ∷ ("RoleList", 520)
    ∷ ("RoleBinding", 530)
    ∷ ("RoleBindingList", 530)
    ∷ ("Service", 1500)
    ∷ ("DaemonSet", 1600)
    ∷ ("Pod", 1610)
    ∷ ("ReplicationController", 1620)
    ∷ ("ReplicaSet", 1630)
    ∷ ("Deployment", 1640)
    ∷ ("HorizontalPodAutoscaler", 1650)
    ∷ ("StatefulSet", 1660)
    ∷ ("Job", 1670)
    ∷ ("CronJob", 1680)
    ∷ ("Ingress", 1800)
    ∷ ("APIService", 1810)
    ∷ []

abbrev pub or_default_priority : Option ℕ → ℕ
or_default_priority none = default_priority
or_default_priority (some n) = n

unfoldable pub apply_priority : String → ℕ
apply_priority kind = or_default_priority (get priorities kind)

abbrev pub action_class : PlannedAction → ℕ
action_class apply = 0
action_class noop = 0
action_class delete = 1

abbrev pub priority_of : PlanEntry → ℕ
priority_of e = apply_priority e.resource.gvk.kind

-- The direction is that of the left entry's action.
abbrev pub compare_priority : PlannedAction → ℕ → ℕ → Ordering
compare_priority delete pa pb = compare_ℕ pb pa
compare_priority _ pa pb = compare_ℕ pa pb

abbrev pub compare_names : PlanEntry → PlanEntry → Ordering
compare_names = lexicographic (by_key compare_str (λ e. e.resource.gvk.kind)) (
    lexicographic (by_key (compare_option compare_str) (λ e. e.resource.namespace))
      (by_key compare_str (λ e. e.resource.name)))

abbrev pub compare_within : PlanEntry → PlanEntry → Ordering
compare_within a b =
    and_then (compare_ℕ (action_class a.action) (action_class b.action))
      (and_then (compare_priority a.action (priority_of a) (priority_of b)) (compare_names a b))

unfoldable pub sort_within_wave : List PlanEntry → List PlanEntry
sort_within_wave entries = sort_by compare_within entries
