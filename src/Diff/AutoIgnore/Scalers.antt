-- ===== src/Diff/AutoIgnore/Scalers.antt =====
-- What the cache of crates/synchrotron-diff/src/auto_ignore.rs holds.
use mathlib.Core.List.{append_assoc, append-nil}
use synchrotron.Base.{
  ◌+◌, ◌≡◌, ◌∙◌, refl, sym, ap, inl, inr, Bool, List, [], ◌∷◌, ◌++◌, arith, ◌==◌, filter, length,
  length-append, filter-append, Bool-cases,
}
use synchrotron.Base.Map.{Map, get, insert, get-insert}
use synchrotron.Diff.AutoIgnore.{
  TargetRef, TargetRef_eq, target_beq_iff, ScalerEntry, ScalerCache, empty_cache, entries_of,
  entries_for, insert_entry, insert_entries, replace_with, total_entries, cache_len,
}

abbrev pub aims_at : TargetRef → ScalerEntry → Bool
aims_at target e = e.target == target

entries_for-insert_entry :
    (cache : ScalerCache) (e : ScalerEntry) (target : TargetRef)
    → entries_for (insert_entry cache e) target
      ≡ entries_for cache target ++ filter (aims_at target) (e ∷ [])
unfolding entries_for insert_entry
entries_for-insert_entry cache e target = elim (Bool-cases (e.target == target)) [
  | inl h ↦
      rw (get-insert, h)
        (ap (λ t. entries_of (get cache.by_target t) ++ e ∷ [])
          ((target_beq_iff e.target target).0 h))
  | inr h ↦ rw (get-insert, h) (sym (append-nil (entries_for cache target)))
]

entries_for-insert_entries :
    (cache : ScalerCache) (entries : List ScalerEntry) (target : TargetRef)
    → entries_for (insert_entries cache entries) target
      ≡ entries_for cache target ++ filter (aims_at target) entries
unfolding insert_entries
entries_for-insert_entries cache [] target = sym (append-nil (entries_for cache target))
entries_for-insert_entries cache (e ∷ entries) target =
    entries_for-insert_entries (insert_entry cache e) entries target
    ∙ ap (λ l. l ++ filter (aims_at target) entries) (entries_for-insert_entry cache e target)
    ∙ append_assoc (entries_for cache target) (filter (aims_at target) (e ∷ [])) _
    ∙ ap (λ l. entries_for cache target ++ l)
        (sym (filter-append (aims_at target) (e ∷ []) entries))

total-insert :
    (m : Map TargetRef (List ScalerEntry)) (target : TargetRef) (e : ScalerEntry)
    → total_entries (insert m target (entries_of (get m target) ++ e ∷ [])) ≡ total_entries m + 1
unfolding total_entries insert get
total-insert [] target e = refl
total-insert ((t, entries) ∷ m) target e = elim (Bool-cases (t == target)) [
  | inl h ↦ rw h (omega (arith, length-append entries (e ∷ [])))
  | inr h ↦ rw h (omega (arith, total-insert m target e))
]

cache_len-insert_entry :
    (cache : ScalerCache) (e : ScalerEntry) → cache_len (insert_entry cache e) ≡ cache_len cache + 1
unfolding insert_entry cache_len
cache_len-insert_entry cache e = total-insert cache.by_target e.target e

cache_len-insert_entries :
    (cache : ScalerCache) (entries : List ScalerEntry)
    → cache_len (insert_entries cache entries) ≡ cache_len cache + length entries
unfolding insert_entries
cache_len-insert_entries cache [] = omega arith
cache_len-insert_entries cache (e ∷ entries) =
    omega (
      arith,
      cache_len-insert_entries (insert_entry cache e) entries,
      cache_len-insert_entry cache e,
    )

cache_len-empty : cache_len empty_cache ≡ 0
unfolding cache_len
cache_len-empty = refl

-- After a refresh the cache has, for every target, just the given entries that aim at it, in their
-- order and whatever it held before, and as many entries in all as were given.
pub entries_for-replace_with :
    (cache : ScalerCache) (entries : List ScalerEntry)
    → ((target : TargetRef)
        → entries_for (replace_with cache entries) target ≡ filter (aims_at target) entries)
      × (cache_len (replace_with cache entries) ≡ length entries)
unfolding replace_with entries_for
entries_for-replace_with cache entries = (
  λ target. entries_for-insert_entries empty_cache entries target,
  omega (arith, cache_len-insert_entries empty_cache entries, cache_len-empty),
)
