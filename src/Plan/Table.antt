-- ===== src/Plan/Table.antt =====
-- The decision table of `plan`, in crates/synchrotron-reconcile/src/plan.rs.
use synchrotron.Base.{
  ◌≡◌, ◌≢◌, inl, inr, refl, ◌∙◌, false, none, List, [], ◌∷◌, ◌++◌, arith, Bool-cases,
}
use synchrotron.Base.Map.{Map, insert, contains_key, KeysNodup, insert-KeysNodup}
use synchrotron.Base.Order.{not_gt}
use synchrotron.Base.Sorting.{sort_by, insert_by}
use synchrotron.Manifest.{Yaml, Manifest}
use synchrotron.Plan.Resources.{ResourceRef, ResourceRef_eq, ref_beq, ref_beq_iff, of}
use synchrotron.Plan.{
  PlanEntry, insert_all, index, desired_entries, orphan_entries, compare_entries, plan,
}
use synchrotron.Plan.Lookup.{
  action_at, find_last, verdict, get-index, action_at-desired_entries, action_at-orphan_entries,
  action_at-append,
}

-- Each resource stands in at most one entry.
abbrev pub IsUnique : List PlanEntry → Type 0
IsUnique [] = Unit {0}
IsUnique (e ∷ es) = (action_at es e.resource ≡ none) × IsUnique es

IsUnique-append :
    (xs ys : List PlanEntry)
    → ((r : ResourceRef) → action_at xs r ≢ none → action_at ys r ≡ none)
    → IsUnique xs
    → IsUnique ys
    → IsUnique (xs ++ ys)
unfolding action_at
IsUnique-append [] ys h u v = v
IsUnique-append (e ∷ xs) ys h u v = (
  ground (
    arith,
    action_at-append xs ys e.resource,
    h e.resource,
    u.0,
    ref_beq_iff e.resource e.resource,
  ),
  IsUnique-append xs ys (λ r n. h r (λ q. n (ground (arith, q, u.0, ref_beq_iff e.resource r)))) u.1
      v,
)

-- Sorting moves no entry of a resource past another of the same resource.
action_at-insert_by :
    (e : PlanEntry) (es : List PlanEntry) (r : ResourceRef)
    → action_at es e.resource ≡ none
    → action_at (insert_by compare_entries e es) r ≡ action_at (e ∷ es) r
unfolding action_at insert_by
action_at-insert_by e [] r h = refl
action_at-insert_by e (x ∷ es) r h = ground (
  arith,
  action_at-insert_by e es r,
  ref_beq_iff x.resource e.resource,
  ref_beq_iff x.resource r,
  ref_beq_iff e.resource r,
)

action_at-cons_none :
    (x : PlanEntry) (es : List PlanEntry) (r : ResourceRef)
    → action_at (x ∷ es) r ≡ none
    → (ref_beq x.resource r ≡ false) × (action_at es r ≡ none)
unfolding action_at
action_at-cons_none x es r h = (ground arith, ground arith)

insert_by-IsUnique :
    (e : PlanEntry) (es : List PlanEntry)
    → action_at es e.resource ≡ none
    → IsUnique es
    → IsUnique (insert_by compare_entries e es)
unfolding insert_by
insert_by-IsUnique e [] h u = (h, tt)
insert_by-IsUnique e (x ∷ es) h u =
    let (ne, rest) = action_at-cons_none x es e.resource h in
    elim (Bool-cases (not_gt (compare_entries e x))) [
      | inl first ↦ rw (first, insert_by) (h, u)
      | inr later ↦
          rw (later, insert_by)
            (
              action_at-insert_by e es x.resource rest ∙ missing ne,
              insert_by-IsUnique e es rest u.1,
            )
    ]
  where
    missing : ref_beq x.resource e.resource ≡ false → action_at (e ∷ es) x.resource ≡ none
    missing ne =
        unfold action_at in
        ground (arith, u.0, ref_beq_iff x.resource e.resource, ref_beq_iff e.resource x.resource)

action_at-cons_eq :
    (e : PlanEntry) (es fs : List PlanEntry) (r : ResourceRef)
    → action_at es r ≡ action_at fs r
    → action_at (e ∷ es) r ≡ action_at (e ∷ fs) r
unfolding action_at
action_at-cons_eq e es fs r h = ground arith

sort_by_keeps :
    (es : List PlanEntry)
    → IsUnique es
    → IsUnique (sort_by compare_entries es)
      × ((r : ResourceRef) → action_at (sort_by compare_entries es) r ≡ action_at es r)
unfolding sort_by
sort_by_keeps [] u = (tt, λ r. refl)
sort_by_keeps (e ∷ es) u =
    let (unique, same) = sort_by_keeps es u.1 in
    let absent = same e.resource ∙ u.0 in
    (
      insert_by-IsUnique e (sort_by compare_entries es) absent unique,
      λ r.
          action_at-insert_by e (sort_by compare_entries es) r absent
          ∙ action_at-cons_eq e _ es r (same r),
    )

module _ {Y : Yaml} where
  insert_all-KeysNodup :
      (by_ref : Map ResourceRef (Manifest Y)) (ms : List (Manifest Y))
      → KeysNodup by_ref
      → KeysNodup (insert_all by_ref ms)
  unfolding insert_all
  insert_all-KeysNodup by_ref [] u = u
  insert_all-KeysNodup by_ref (m ∷ ms) u =
      insert_all-KeysNodup (insert by_ref (of m) m) ms (insert-KeysNodup by_ref (of m) m u)

  index-KeysNodup : (ms : List (Manifest Y)) → KeysNodup (index ms)
  unfolding index
  index-KeysNodup ms = insert_all-KeysNodup [] ms tt

  desired_entries-IsUnique :
      (live desired : Map ResourceRef (Manifest Y))
      → KeysNodup desired
      → IsUnique (desired_entries live desired)
  unfolding desired_entries
  desired_entries-IsUnique live [] u = tt
  desired_entries-IsUnique live ((k, m) ∷ desired) u = (
    ground (arith, action_at-desired_entries live desired k, u.0),
    desired_entries-IsUnique live desired u.1,
  )

  orphan_entries-IsUnique :
      (desired live : Map ResourceRef (Manifest Y))
      → KeysNodup live
      → IsUnique (orphan_entries desired live)
  unfolding orphan_entries
  orphan_entries-IsUnique desired [] u = tt
  orphan_entries-IsUnique desired ((k, m) ∷ live) u = elim (Bool-cases (contains_key desired k)) [
    | inl h ↦ rw h (orphan_entries-IsUnique desired live u.1)
    | inr h ↦ rw h (
      ground (arith, action_at-orphan_entries desired live k, u.0),
      orphan_entries-IsUnique desired live u.1,
    )
  ]

  module _ (desired live : List (Manifest Y)) where
    abbrev unsorted : List PlanEntry
    unsorted =
        desired_entries (index live) (index desired) ++ orphan_entries (index desired) (index live)

    unsorted-IsUnique : IsUnique unsorted
    unsorted-IsUnique =
        IsUnique-append (desired_entries (index live) (index desired)) _
          (λ r n. ground (
            arith,
            action_at-desired_entries (index live) (index desired) r,
            action_at-orphan_entries (index desired) (index live) r,
            n,
          ))
          (desired_entries-IsUnique (index live) (index desired) (index-KeysNodup desired))
          (orphan_entries-IsUnique (index desired) (index live) (index-KeysNodup live))

    -- The plan has at most one entry for each resource.
    pub plan-IsUnique : IsUnique (plan desired live).entries
    unfolding plan
    plan-IsUnique = (sort_by_keeps unsorted unsorted-IsUnique).0

    -- The plan has an entry for exactly the resources of the desired and of the live set: apply
    -- where the live manifest is missing or its body differs, no-op where the bodies are equal,
    -- delete where only a live manifest exists. Of several manifests for one resource the last
    -- counts.
    pub plan-eq-verdict :
        (r : ResourceRef)
        → action_at (plan desired live).entries r ≡ verdict (find_last desired r) (find_last live r)
    unfolding plan
    plan-eq-verdict r =
        (sort_by_keeps unsorted unsorted-IsUnique).1 r
        ∙ ground (
          arith,
          action_at-append (desired_entries (index live) (index desired))
              (orphan_entries (index desired) (index live)) r,
          action_at-desired_entries (index live) (index desired) r,
          action_at-orphan_entries (index desired) (index live) r,
          get-index desired r,
          get-index live r,
        )
