-- ===== src/Plan.antt =====
-- crates/synchrotron-reconcile/src/plan.rs: the pure planner. A `HashMap` is an association list;
-- `plan` sorts its entries, and the children show that the list's order does not reach the plan.
pub mod Resources
pub mod Lookup
pub mod Table
pub mod Canonical
pub mod Sync
pub mod Samples
use Prim.Native.String.{compare as compare_str}
use synchrotron.Base.{
  ℕ, ◌≡◌, Bool, true, false, not, Option, none, some, List, [], ◌∷◌, ◌++◌, String, PartialEq, ◌==◌,
  String_eq, Option_eq, if◌then◌else◌, length, is_empty, filter,
}
use synchrotron.Base.Map.{Map, get, insert, contains_key}
use synchrotron.Base.Order.{Ordering, by_key, lexicographic, compare_option}
use synchrotron.Base.Sorting.{sort_by}
use synchrotron.Manifest.{Yaml, Gvk, Gvk_eq, Manifest, body_beq}
use Resources.{ResourceRef, ResourceRef_eq, of}

-- `sort_key().cmp(..)`
abbrev pub compare_refs : ResourceRef → ResourceRef → Ordering
compare_refs = lexicographic (by_key compare_str (λ r. r.gvk.group)) (
    lexicographic (by_key compare_str (λ r. r.gvk.version)) (
      lexicographic (by_key compare_str (λ r. r.gvk.kind)) (
        lexicographic (by_key (compare_option compare_str) (λ r. r.namespace))
          (by_key compare_str (λ r. r.name)))))

pub data PlannedAction : Type 0 where
  apply delete noop : PlannedAction

pub record PlanEntry : Type 0 where
  pub resource : ResourceRef
  pub action : PlannedAction

pub record Plan : Type 0 where
  pub entries : List PlanEntry

abbrev pub is_action : PlannedAction → PlannedAction → Bool
is_action apply apply = true
is_action delete delete = true
is_action noop noop = true
is_action _ _ = false

pub plan_is_empty : Plan → Bool
plan_is_empty p = is_empty p.entries

unfoldable pub changes : Plan → ℕ
changes p = length (filter (λ e. not (is_action e.action noop)) p.entries)

count : PlannedAction → List PlanEntry → ℕ
count a es = length (filter (λ e. is_action e.action a) es)

unfoldable pub apply_count : Plan → ℕ
unfolding count
apply_count p = count apply p.entries

unfoldable pub delete_count : Plan → ℕ
unfolding count
delete_count p = count delete p.entries

unfoldable pub noop_count : Plan → ℕ
unfolding count
noop_count p = count noop p.entries

abbrev pub compare_entries : PlanEntry → PlanEntry → Ordering
compare_entries = by_key compare_refs (λ e. e.resource)

module _ {Y : Yaml} where
  -- `for m in manifests { by_ref.insert(ResourceRef::of(m), m); }`
  unfoldable pub insert_all :
      Map ResourceRef (Manifest Y) → List (Manifest Y) → Map ResourceRef (Manifest Y)
  insert_all by_ref [] = by_ref
  insert_all by_ref (m ∷ ms) = insert_all (insert by_ref (of m) m) ms

  unfoldable pub index : List (Manifest Y) → Map ResourceRef (Manifest Y)
  unfolding insert_all
  index ms = insert_all [] ms

  unfoldable pub manifest_bodies_equal : Manifest Y → Manifest Y → Bool
  manifest_bodies_equal a b = body_beq a.body b.body

  -- the action for a resource of the desired set
  abbrev pub decide : Option (Manifest Y) → Manifest Y → PlannedAction
  decide none desired = apply
  decide (some live) desired = if manifest_bodies_equal desired live then noop else apply

  pub desired_entries : Map ResourceRef (Manifest Y) → Map ResourceRef (Manifest Y) → List PlanEntry
  desired_entries live [] = []
  desired_entries live ((r, m) ∷ rest) =
      record { resource = r; action = decide (get live r) m } ∷ desired_entries live rest

  pub orphan_entries : Map ResourceRef (Manifest Y) → Map ResourceRef (Manifest Y) → List PlanEntry
  orphan_entries desired [] = []
  orphan_entries desired ((r, m) ∷ live) =
      let rest = orphan_entries desired live in
      if contains_key desired r then rest else record { resource = r; action = delete } ∷ rest

  unfoldable pub plan : List (Manifest Y) → List (Manifest Y) → Plan
  unfolding index desired_entries orphan_entries
  plan desired live =
      let desired_by_ref = index desired in
      let live_by_ref = index live in
      let entries =
        desired_entries live_by_ref desired_by_ref ++ orphan_entries desired_by_ref live_by_ref in
      record { entries = sort_by compare_entries entries }
