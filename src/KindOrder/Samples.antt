-- ===== src/KindOrder/Samples.antt =====
-- Tests of the order within a wave, and its theorem at a concrete input.
use mathlib.Core.List.{Perm}
use synchrotron.Base.{◌≡◌, refl, some, List, [], ◌∷◌, String, map}
use synchrotron.Base.Map.{get}
use synchrotron.Base.Order.{IsTotalOrder}
use synchrotron.Base.Sorting.{IsSortedBy, sort_by}
use synchrotron.Plan.{PlannedAction, apply, delete, noop, PlanEntry}
use synchrotron.KindOrder.{apply_priority, compare_within, sort_within_wave}
use synchrotron.KindOrder.Dependencies.{RespectsDependencies, sort_within_wave-RespectsDependencies}

abbrev pub entry : String → String → PlannedAction → PlanEntry
entry kind name action = record {
  resource = record {
    gvk = record { group = ""; version = "v1"; kind = kind };
    namespace = some "ns";
    name = name;
  };
  action = action;
}

abbrev mixed : List PlanEntry
mixed =
    entry "Namespace" "old" delete
    ∷ entry "Ingress" "a" apply
    ∷ entry "Deployment" "old" delete
    ∷ entry "VirtualService" "a" apply
    ∷ entry "Namespace" "a" noop
    ∷ []

mixed_sorted :
    map (λ (e : PlanEntry). e.resource.gvk.kind) (sort_within_wave mixed)
    ≡ "Namespace" ∷ "VirtualService" ∷ "Ingress" ∷ "Deployment" ∷ "Namespace" ∷ []
unfolding sort_within_wave sort_by apply_priority get
mixed_sorted = refl

sort_within_wave-RespectsDependencies_example :
    RespectsDependencies (sort_within_wave mixed)
    × Perm (sort_within_wave mixed) mixed
    × IsTotalOrder compare_within
    × IsSortedBy compare_within (sort_within_wave mixed)
sort_within_wave-RespectsDependencies_example = sort_within_wave-RespectsDependencies mixed
