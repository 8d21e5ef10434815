-- ===== src/Plan/Sync.antt =====
-- When a plan has nothing to do, in crates/synchrotron-reconcile/src/plan.rs.
use synchrotron.Base.{
  ℕ, ◌+◌, ◌≡◌, ◌↔◌, refl, sym, ◌∙◌, true, not, Option, none, some, List, [], ◌∷◌, arith,
  if◌then◌else◌, length, filter,
}
use synchrotron.Manifest.{Yaml, Manifest}
use synchrotron.Plan.Resources.{ResourceRef, ResourceRef_eq, ref_beq_iff}
use synchrotron.Plan.{
  PlannedAction, apply, delete, noop, is_action, PlanEntry, Plan, changes, apply_count,
  delete_count, noop_count, manifest_bodies_equal, plan,
}
use synchrotron.Plan.Lookup.{action_at, find_last, verdict}
use synchrotron.Plan.Table.{IsUnique, plan-IsUnique, plan-eq-verdict}

abbrev pub AllNoop : List PlanEntry → Type 0
AllNoop es = (r : ResourceRef) (a : PlannedAction) → action_at es r ≡ some a → a ≡ noop

abbrev changed : List PlanEntry → ℕ
changed es = length (filter (λ e. not (is_action e.action noop)) es)

AllNoop-of_changed : (es : List PlanEntry) → changed es ≡ 0 → AllNoop es
unfolding action_at
AllNoop-of_changed [] h r a e = cc
AllNoop-of_changed (x ∷ es) h r a e = ground (arith, AllNoop-of_changed es (ground arith) r a)

changed_of-AllNoop : (es : List PlanEntry) → IsUnique es → AllNoop es → changed es ≡ 0
unfolding action_at
changed_of-AllNoop [] u h = refl
changed_of-AllNoop (x ∷ es) u h = ground (
  arith,
  h x.resource x.action,
  ref_beq_iff x.resource x.resource,
  changed_of-AllNoop es u.1 (λ r a e. h r a (ground (arith, e, u.0, ref_beq_iff x.resource r))),
)

module _ {Y : Yaml} where
  -- A resource is in sync if both sides lack it, or have it with equal bodies.
  abbrev pub InSync : Option (Manifest Y) → Option (Manifest Y) → Type 0
  InSync none none = Unit {0}
  InSync none (some live) = ⊥
  InSync (some desired) none = ⊥
  InSync (some desired) (some live) = manifest_bodies_equal desired live ≡ true

  InSync-of_verdict :
      (d l : Option (Manifest Y))
      → ((a : PlannedAction) → verdict d l ≡ some a → a ≡ noop)
      → InSync d l
  InSync-of_verdict none none h = tt
  InSync-of_verdict none (some live) h = cc (h delete refl)
  InSync-of_verdict (some desired) none h = cc (h apply refl)
  InSync-of_verdict (some desired) (some live) h =
      ground (arith, h (if manifest_bodies_equal desired live then noop else apply) refl)

  verdict_of_InSync :
      (d l : Option (Manifest Y)) (a : PlannedAction) → InSync d l → verdict d l ≡ some a → a ≡ noop
  verdict_of_InSync none none a s h = cc
  verdict_of_InSync none (some live) a s h = absurd s
  verdict_of_InSync (some desired) none a s h = absurd s
  verdict_of_InSync (some desired) (some live) a s h = ground arith

  -- A plan has no changes exactly when every resource is in sync.
  pub changes_zero_iff :
      (desired live : List (Manifest Y))
      → (changes (plan desired live) ≡ 0)
        ↔ ((r : ResourceRef) → InSync (find_last desired r) (find_last live r))
  unfolding changes
  changes_zero_iff desired live = (
    λ h r.
        InSync-of_verdict (find_last desired r) (find_last live r)
          λ a e. AllNoop-of_changed _ h r a (plan-eq-verdict desired live r ∙ e),
    λ h. changed_of-AllNoop _ (plan-IsUnique desired live) λ r a e.
        verdict_of_InSync (find_last desired r) (find_last live r) a (h r)
          (sym (plan-eq-verdict desired live r) ∙ e),
  )

counts_add :
    (es : List PlanEntry)
    → let p : Plan = record { entries = es } in
      (apply_count p + delete_count p ≡ changes p) × (changes p + noop_count p ≡ length es)
unfolding apply_count delete_count noop_count changes
counts_add [] = (refl, refl)
counts_add (e ∷ es) = ground (arith, counts_add es)

-- Every entry is counted once: the changes are the applies and the deletes, and the rest are no-ops.
pub counts_partition :
    (p : Plan)
    → (apply_count p + delete_count p ≡ changes p) × (changes p + noop_count p ≡ length p.entries)
counts_partition p = counts_add p.entries
