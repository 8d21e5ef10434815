-- ===== src/Plan/Lookup.antt =====
-- What the entries and the indices of a plan hold for one resource, in
-- crates/synchrotron-reconcile/src/plan.rs.
use synchrotron.Base.{
  ◌≡◌, inl, inr, refl, ap, ◌∙◌, true, Option, none, some, List, [], ◌∷◌, ◌++◌, arith, ◌==◌,
  if◌then◌else◌, Bool-cases,
}
use synchrotron.Base.Map.{Map, get, insert, contains_key, get-insert}
use synchrotron.Base.Options.{or_else}
use synchrotron.Manifest.{Yaml, Manifest}
use synchrotron.Plan.Resources.{ResourceRef, ResourceRef_eq, ref_beq, ref_beq_iff, of}
use synchrotron.Plan.{
  PlannedAction, apply, delete, noop, PlanEntry, insert_all, index, manifest_bodies_equal, decide,
  desired_entries, orphan_entries,
}

-- The action that the entries have for a resource: that of the first entry.
unfoldable pub action_at : List PlanEntry → ResourceRef → Option PlannedAction
action_at [] r = none
action_at (e ∷ es) r = if e.resource == r then some e.action else action_at es r

module _ {Y : Yaml} where
  -- The last manifest of a list for a resource.
  unfoldable pub find_last : List (Manifest Y) → ResourceRef → Option (Manifest Y)
  find_last [] r = none
  find_last (m ∷ ms) r = or_else (find_last ms r) (if of m == r then some m else none)

  -- What the plan should say of a resource, by its desired and live manifests.
  abbrev pub verdict : Option (Manifest Y) → Option (Manifest Y) → Option PlannedAction
  verdict none none = none
  verdict none (some live) = some delete
  verdict (some desired) none = some apply
  verdict (some desired) (some live) =
      some (if manifest_bodies_equal desired live then noop else apply)

  pub get-insert_all :
      (by_ref : Map ResourceRef (Manifest Y)) (ms : List (Manifest Y)) (r : ResourceRef)
      → get (insert_all by_ref ms) r ≡ or_else (find_last ms r) (get by_ref r)
  unfolding insert_all find_last
  get-insert_all by_ref [] r = refl
  get-insert_all by_ref (m ∷ ms) r =
      ground (arith, get-insert_all (insert by_ref (of m) m) ms r, get-insert by_ref (of m) m r)

  pub get-index : (ms : List (Manifest Y)) (r : ResourceRef) → get (index ms) r ≡ find_last ms r
  unfolding index get
  get-index ms r = ground (arith, get-insert_all [] ms r)

  pub action_at-desired_entries :
      (live desired : Map ResourceRef (Manifest Y)) (r : ResourceRef)
      → action_at (desired_entries live desired) r
        ≡ elim (get desired r) [ none ↦ none | some m ↦ some (decide (get live r) m) ]
  unfolding action_at desired_entries get
  action_at-desired_entries live [] r = refl
  action_at-desired_entries live ((k, m) ∷ desired) r = elim (Bool-cases (ref_beq k r)) [
    | inl h ↦ rw h (ap (λ q. some (decide (get live q) m)) ((ref_beq_iff k r).0 h))
    | inr h ↦ rw h (action_at-desired_entries live desired r)
  ]

  orphan_head :
      (desired : Map ResourceRef (Manifest Y)) (k : ResourceRef) (m : Manifest Y)
      (live : Map ResourceRef (Manifest Y)) (r : ResourceRef)
      → k ≡ r
      → ref_beq k r ≡ true
      → action_at (orphan_entries desired live) r ≡ (
          if contains_key desired r
          then none
          else if contains_key live r
          then some delete
          else none)
      → action_at (orphan_entries desired ((k, m) ∷ live)) r ≡ (
          if contains_key desired r
          then none
          else if contains_key ((k, m) ∷ live) r
          then some delete
          else none)
  unfolding action_at orphan_entries get
  orphan_head desired k m live r e h ih =
      let same : contains_key desired k ≡ contains_key desired r = ap (contains_key desired) e in
      elim (Bool-cases (contains_key desired r)) [
        | inl c ↦ rw (same, c) (ih ∙ rw c)
        | inr c ↦ rw (same, c, h)
      ]

  pub action_at-orphan_entries :
      (desired live : Map ResourceRef (Manifest Y)) (r : ResourceRef)
      → action_at (orphan_entries desired live) r ≡ (
          if contains_key desired r
          then none
          else if contains_key live r
          then some delete
          else none)
  unfolding action_at orphan_entries get
  action_at-orphan_entries desired [] r = ground arith
  action_at-orphan_entries desired ((k, m) ∷ live) r = elim (Bool-cases (ref_beq k r)) [
    | inl h ↦
        orphan_head desired k m live r ((ref_beq_iff k r).0 h) h
          (action_at-orphan_entries desired live r)
    | inr h ↦ ground (arith, h, action_at-orphan_entries desired live r)
  ]

pub action_at-append :
    (xs ys : List PlanEntry) (r : ResourceRef)
    → action_at (xs ++ ys) r ≡ or_else (action_at xs r) (action_at ys r)
unfolding action_at
action_at-append [] ys r = refl
action_at-append (e ∷ xs) ys r = ground (arith, action_at-append xs ys r)
