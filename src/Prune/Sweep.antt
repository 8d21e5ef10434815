-- ===== src/Prune/Sweep.antt =====
-- What crates/synchrotron-kube/src/prune.rs deletes.
use Prim.Native.String.{compare as compare_str}
use mathlib.Core.List.{Perm, Mem, Pairwise}
use mathlib.Core.List.Pairwise
use synchrotron.Base.{
  ◌≡◌, ◌⊎◌, ◌∙◌, refl, sym, ap, subst, inl, inr, Bool, true, false, not, ◌&&◌, ◌||◌, List, [], ◌∷◌,
  String_eq, Option_eq, ◌==◌, arith, filter,
}
use synchrotron.Base.Order.{
  Ordering, rev, not_gt, eq_of_both, and_then, and_then-eq, compare_option, IsTotalOrder, by_key,
  descending, by_key-IsTotalOrder, descending-IsTotalOrder, lexicographic-IsTotalOrder,
}
use synchrotron.Base.Int.{ltb_ℤ, compare_ℤ, compare_ℤ-IsTotalOrder, compare_ℤ-eq}
use synchrotron.Base.Filtered.{filter_self, filter-perm, mem-All}
use synchrotron.Base.Sorting.{
  NotAfter, sort_by, sort_by-perm, sort_by-IsSortedBy, sort_by-eq_of_perm,
}
use synchrotron.Manifest.{Yaml, Manifest}
use synchrotron.Manifest.Stream.{OwnedResource}
use synchrotron.Plan.Resources.{ref_beq}
use synchrotron.Plan.{compare_refs}
use synchrotron.Plan.Canonical.{compare_refs-IsTotalOrder, compare_refs-eq}
use synchrotron.Prune.{ref_of, sweep_order, is_desired, compute_prune_set}

abbrev by_wave : OwnedResource → OwnedResource → Ordering
by_wave = by_key compare_ℤ (λ r. r.wave)

abbrev by_ref : OwnedResource → OwnedResource → Ordering
by_ref = by_key compare_refs ref_of

sweep_order-IsTotalOrder : IsTotalOrder sweep_order
sweep_order-IsTotalOrder =
    lexicographic-IsTotalOrder (descending by_wave) by_ref
      (descending-IsTotalOrder by_wave (
        by_key-IsTotalOrder compare_ℤ (λ r. r.wave) compare_ℤ-IsTotalOrder.flips
          compare_ℤ-IsTotalOrder.trans))
      (by_key-IsTotalOrder compare_refs ref_of compare_refs-IsTotalOrder.flips
        compare_refs-IsTotalOrder.trans)

-- Resources that neither stand before the other agree, but for the opt-out.
same_order :
    (a b : OwnedResource)
    → NotAfter sweep_order a b
    → NotAfter sweep_order b a
    → (a.wave ≡ b.wave) × (ref_of a ≡ ref_of b)
same_order a b h k =
    let back : not_gt (rev (sweep_order a b)) ≡ true =
      subst (λ o. not_gt o ≡ true) (sweep_order-IsTotalOrder.flips a b) k in
    let both = and_then-eq _ _ (eq_of_both (sweep_order a b) h back) in
    (sym (compare_ℤ-eq b.wave a.wave both.0), compare_refs-eq (ref_of a) (ref_of b) both.1)

same_resource :
    (a b : OwnedResource)
    → a.wave ≡ b.wave
    → ref_of a ≡ ref_of b
    → a.prune_disabled ≡ b.prune_disabled
    → a ≡ b
same_resource a b w r p = λ i. record {
  gvk = (r i).gvk;
  namespace = (r i).namespace;
  name = (r i).name;
  wave = w i;
  prune_disabled = p i;
}

-- The order of the names: by group, version, kind, namespace and name.
abbrev spelled : OwnedResource → OwnedResource → Ordering
spelled a b = and_then (compare_str a.gvk.group b.gvk.group) (
    and_then (compare_str a.gvk.version b.gvk.version) (
      and_then (compare_str a.gvk.kind b.gvk.kind) (
        and_then (compare_option compare_str a.namespace b.namespace) (compare_str a.name b.name))))

-- The first is in a higher wave, or in the same wave and not after the second by name.
abbrev pub Precedes : OwnedResource → OwnedResource → Type 0
Precedes a b = (ltb_ℤ b.wave a.wave ≡ true) ⊎ ((a.wave ≡ b.wave) × (not_gt (spelled a b) ≡ true))

sorted-Precedes : (a b : OwnedResource) → NotAfter sweep_order a b → Precedes a b
sorted-Precedes a b h = go (compare_ℤ b.wave a.wave) refl h
  where
    go :
        (o : Ordering)
        → compare_ℤ b.wave a.wave ≡ o
        → not_gt (and_then o (spelled a b)) ≡ true
        → Precedes a b
    go Ordering.lt e k = inl (ground (arith, e))
    go Ordering.eq e k = inr (sym (compare_ℤ-eq b.wave a.wave e), k)
    go Ordering.gt e k = absurd (cc k)

module _ {Y : Yaml} (desired : List (Manifest Y)) where
  -- The manifest is of the same group, version, kind, namespace and name.
  abbrev is_same : Manifest Y → OwnedResource → Bool
  is_same m r =
      (m.gvk.group == r.gvk.group && m.gvk.version == r.gvk.version && m.gvk.kind == r.gvk.kind)
      && m.namespace == r.namespace
      && m.name == r.name

  abbrev some_same : List (Manifest Y) → OwnedResource → Bool
  some_same [] r = false
  some_same (m ∷ ms) r = is_same m r || some_same ms r

  desired-same : (ms : List (Manifest Y)) (r : OwnedResource) → is_desired ms r ≡ some_same ms r
  unfolding ref_beq
  desired-same [] r = refl
  desired-same (m ∷ ms) r = ap (λ later. is_same m r || later) (desired-same ms r)

  -- Owned, not opted out, and the same as no desired manifest.
  abbrev pub is_candidate : OwnedResource → Bool
  is_candidate r = not r.prune_disabled && not (some_same desired r)

  candidates :
      (owned : List OwnedResource)
      → filter (λ r. not (is_desired desired r)) (filter (λ r. not r.prune_disabled) owned)
        ≡ filter is_candidate owned
  candidates [] = refl
  candidates (r ∷ owned) = ground (arith, candidates owned, desired-same desired r)

  compute-eq-sort :
      (owned : List OwnedResource)
      → compute_prune_set owned desired ≡ sort_by sweep_order (filter is_candidate owned)
  unfolding compute_prune_set
  compute-eq-sort owned = ap (sort_by sweep_order) (candidates owned)

  -- The sweep deletes each owned resource that is not opted out and of whose group, version, kind,
  -- namespace and name there is no desired manifest, as often as it is owned, and nothing else; the
  -- higher waves first, and within a wave by group, version, kind, namespace and name.
  pub compute_prune_set-Sweeps :
      (owned : List OwnedResource)
      → Perm (compute_prune_set owned desired) (filter is_candidate owned)
        × Pairwise Precedes (compute_prune_set owned desired)
  compute_prune_set-Sweeps owned = rw (compute-eq-sort owned) (
    sort_by-perm sweep_order (filter is_candidate owned),
    Pairwise.imp sorted-Precedes
        (sort_by-IsSortedBy sweep_order sweep_order-IsTotalOrder (filter is_candidate owned)),
  )

  kept-enabled :
      (owned : List OwnedResource) (r : OwnedResource)
      → Mem r (filter is_candidate owned)
      → r.prune_disabled ≡ false
  kept-enabled owned r m =
      let passed =
        mem-All is_candidate (filter is_candidate owned) r (filter_self is_candidate owned) m in
      ground arith

  -- The order in which the owned resources are stored does not show in the sweep.
  pub compute_prune_set-eq_of_perm :
      (owned stored : List OwnedResource)
      → Perm owned stored
      → compute_prune_set owned desired ≡ compute_prune_set stored desired
  compute_prune_set-eq_of_perm owned stored p =
      compute-eq-sort owned
      ∙ sort_by-eq_of_perm sweep_order sweep_order-IsTotalOrder (filter is_candidate owned)
          (filter is_candidate stored)
          (λ a b m n h k.
            let (wave, ref) = same_order a b h k in
            same_resource a b wave ref (kept-enabled owned a m ∙ sym (kept-enabled owned b n)))
          (filter-perm is_candidate p)
      ∙ sym (compute-eq-sort stored)
