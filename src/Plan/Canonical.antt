-- ===== src/Plan/Canonical.antt =====
-- The order of the entries of a plan, in crates/synchrotron-reconcile/src/plan.rs.
use Prim.Native.String.{compare as compare_str}
use Prim.Native.Nat.Ordering.{eq}
use mathlib.Core.List.{Mem, mem-cons_self, mem-cons_of_mem}
use text.Mathlib.TextEquality.{path_by_compare}
use synchrotron.Base.{
  ◌≡◌, inl, inr, refl, ap, ap₂, sym, subst, ◌∙◌, some, List, [], ◌∷◌, arith, Bool-cases, String,
}
use mathlib.Core.List.Pairwise
use synchrotron.Base.Order.{
  IsTotalOrder, by_key-IsTotalOrder, lexicographic-IsTotalOrder, compare_option-IsTotalOrder,
  compare_str-IsTotalOrder, compare_option-eq, by_key, compare_option, eq_of_both,
}
use synchrotron.Base.Sorting.{IsSortedBy, NotAfter, sort_by-IsSortedBy, head_le}
use synchrotron.Manifest.{Yaml, Manifest}
use synchrotron.Plan.Resources.{ResourceRef, ResourceRef_eq, ref_beq, ref_beq_iff}
use synchrotron.Plan.{PlannedAction, PlanEntry, compare_refs, compare_entries, plan}
use synchrotron.Plan.Lookup.{action_at, find_last, verdict}
use synchrotron.Plan.Table.{IsUnique, plan-IsUnique, plan-eq-verdict}

text_key-IsTotalOrder : (key : ResourceRef → String) → IsTotalOrder (by_key compare_str key)
text_key-IsTotalOrder key =
    by_key-IsTotalOrder compare_str key compare_str-IsTotalOrder.flips
      compare_str-IsTotalOrder.trans

namespace_key-IsTotalOrder :
    IsTotalOrder (by_key (compare_option compare_str) (λ (r : ResourceRef). r.namespace))
namespace_key-IsTotalOrder =
    let o = compare_option-IsTotalOrder compare_str compare_str-IsTotalOrder in
    by_key-IsTotalOrder (compare_option compare_str) (λ r. r.namespace) o.flips o.trans

-- The sort key orders the resources totally.
pub compare_refs-IsTotalOrder : IsTotalOrder compare_refs
compare_refs-IsTotalOrder =
    lexicographic-IsTotalOrder _ _ (text_key-IsTotalOrder (λ r. r.gvk.group)) (
      lexicographic-IsTotalOrder _ _ (text_key-IsTotalOrder (λ r. r.gvk.version)) (
        lexicographic-IsTotalOrder _ _ (text_key-IsTotalOrder (λ r. r.gvk.kind)) (
          lexicographic-IsTotalOrder _ _ namespace_key-IsTotalOrder
            (text_key-IsTotalOrder (λ r. r.name)))))

-- Two resources with one sort key are one resource.
pub compare_refs-eq : (a b : ResourceRef) → compare_refs a b ≡ eq → a ≡ b
compare_refs-eq a b h = ground (
  arith,
  path_by_compare a.gvk.group b.gvk.group,
  path_by_compare a.gvk.version b.gvk.version,
  path_by_compare a.gvk.kind b.gvk.kind,
  compare_option-eq a.namespace b.namespace,
  path_by_compare a.name b.name,
)

compare_entries-IsTotalOrder : IsTotalOrder compare_entries
compare_entries-IsTotalOrder =
    by_key-IsTotalOrder compare_refs (λ e. e.resource) compare_refs-IsTotalOrder.flips
      compare_refs-IsTotalOrder.trans

both_ways : (a b : ResourceRef) → NotAfter compare_refs a b → NotAfter compare_refs b a → a ≡ b
both_ways a b h k =
    compare_refs-eq a b
      (eq_of_both (compare_refs a b) h (rw (compare_refs-IsTotalOrder.flips a b) at k))

entry_eq :
    (e : PlanEntry) (r : ResourceRef) (a : PlannedAction)
    → e.resource ≡ r
    → e.action ≡ a
    → e ≡ record { resource = r; action = a }
entry_eq e r a h k = λ i. record { resource = h i; action = k i }

mem_of-action_at :
    (es : List PlanEntry) (r : ResourceRef) (a : PlannedAction)
    → action_at es r ≡ some a
    → Mem (record { resource = r; action = a }) es
unfolding action_at
mem_of-action_at [] r a h = cc
mem_of-action_at (e ∷ es) r a h = elim (Bool-cases (ref_beq e.resource r)) [
  | inl same ↦
      subst (λ x. Mem x (e ∷ es))
        (entry_eq e r a ((ref_beq_iff e.resource r).0 same) (ground arith)) mem-cons_self
  | inr other ↦ mem-cons_of_mem e (mem_of-action_at es r a (ground arith))
]

action_at_head :
    (e : PlanEntry) (es : List PlanEntry) → action_at (e ∷ es) e.resource ≡ some e.action
unfolding action_at
action_at_head e es = ground (arith, ref_beq_iff e.resource e.resource)

head_not-after :
    (a b : PlanEntry) (l r : List PlanEntry)
    → IsSortedBy compare_entries (a ∷ l)
    → action_at (a ∷ l) b.resource ≡ action_at (b ∷ r) b.resource
    → NotAfter compare_refs a.resource b.resource
head_not-after a b l r s h =
    head_le compare_entries compare_entries-IsTotalOrder a b s
      (mem_of-action_at (a ∷ l) b.resource b.action (h ∙ action_at_head b r))

tails_agree :
    (a b : PlanEntry) (l r : List PlanEntry)
    → IsUnique (a ∷ l)
    → IsUnique (b ∷ r)
    → a.resource ≡ b.resource
    → ((k : ResourceRef) → action_at (a ∷ l) k ≡ action_at (b ∷ r) k)
    → (k : ResourceRef) → action_at l k ≡ action_at r k
unfolding action_at
tails_agree a b l r u v e h k = elim (Bool-cases (ref_beq a.resource k)) [
  | inl same ↦
      let p = (ref_beq_iff a.resource k).0 same in
      subst (λ q. action_at l q ≡ action_at r q) p (u.0 ∙ sym (rw e v.0))
  | inr other ↦ ground (arith, h k, other, ap (λ q. ref_beq q k) e)
]

-- A sorted list of entries is determined by the action that it has for each resource.
pub entries_ext :
    (l r : List PlanEntry)
    → IsSortedBy compare_entries l
    → IsSortedBy compare_entries r
    → IsUnique l
    → IsUnique r
    → ((k : ResourceRef) → action_at l k ≡ action_at r k)
    → l ≡ r
entries_ext [] [] sl sr u v h = refl
entries_ext [] (b ∷ r) sl sr u v h = absurd (missing (h b.resource ∙ action_at_head b r))
  where
    missing : action_at [] b.resource ≡ some b.action → ⊥
    missing e = unfold action_at in cc e
entries_ext (a ∷ l) [] sl sr u v h = absurd (missing (sym (h a.resource) ∙ action_at_head a l))
  where
    missing : action_at [] a.resource ≡ some a.action → ⊥
    missing e = unfold action_at in cc e
entries_ext (a ∷ l) (b ∷ r) sl sr u v h =
    let e =
      both_ways a.resource b.resource (head_not-after a b l r sl (h b.resource))
        (head_not-after b a r l sr (sym (h a.resource))) in
    let heads =
      entry_eq a b.resource b.action e
        (some_inj (sym (action_at_head a l) ∙ h a.resource ∙ moved e)) in
    ap₂ ◌∷◌ heads (
      entries_ext l r (Pairwise.of_cons sl) (Pairwise.of_cons sr) u.1 v.1
        (tails_agree a b l r u v e h))
  where
    some_inj : some a.action ≡ some b.action → a.action ≡ b.action
    some_inj p = cc p

    moved : a.resource ≡ b.resource → action_at (b ∷ r) a.resource ≡ some b.action
    moved e = rw e (action_at_head b r)

module _ {Y : Yaml} where
  -- The entries of a plan ascend by the sort key of their resources.
  pub plan-IsSortedBy :
      (desired live : List (Manifest Y)) → IsSortedBy compare_entries (plan desired live).entries
  unfolding plan
  plan-IsSortedBy desired live = sort_by-IsSortedBy compare_entries compare_entries-IsTotalOrder _

  -- Two pairs of inputs with the same last manifest of each resource, among the desired ones and among
  -- the live ones, have the same plan.
  pub plan_order_independent :
      (desired desired' live live' : List (Manifest Y))
      → ((r : ResourceRef) → find_last desired r ≡ find_last desired' r)
      → ((r : ResourceRef) → find_last live r ≡ find_last live' r)
      → plan desired live ≡ plan desired' live'
  plan_order_independent desired desired' live live' hd hl =
      ap (λ es. record { entries = es })
        (entries_ext _ _ (plan-IsSortedBy desired live) (plan-IsSortedBy desired' live')
          (plan-IsUnique desired live) (plan-IsUnique desired' live')
          (λ r.
            plan-eq-verdict desired live r
            ∙ ap₂ verdict (hd r) (hl r)
            ∙ sym (plan-eq-verdict desired' live' r)))
