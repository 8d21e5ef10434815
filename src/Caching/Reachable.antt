-- ===== src/Caching/Reachable.antt =====
-- The states that the caches of crates/synchrotron-plugins/src reach.
use synchrotron.Base.{
  ℕ, ◌+◌, ◌≤◌, max, ◌≡◌, ◌⊎◌, ◌∙◌, refl, ap, subst, inl, inr, Bool, true, false, not, Option, none,
  some, List, [], ◌∷◌, ◌==◌, PartialEq, arith, if◌then◌else◌, filter, length, length-filter-le,
  Bool-cases,
}
use synchrotron.Base.Map.{
  Map, get, remove, is_some, get-remove, remove-absent, KeysNodup, remove-KeysNodup,
}
use synchrotron.Manifest.{Yaml, Manifest, ManifestBody}
use synchrotron.Caching.{
  Entry, CacheState, estimate_bytes, usize_max, new_cache, get_manifests, answered, put, invalidate,
  clear_all,
}
use synchrotron.Caching.Lru.{LruCache, touched}
use synchrotron.Caching.Accounts.{sum_bytes, sum-remove, bytes_of, IsAccounted}
use synchrotron.Caching.Put.{put-Leads, put-SameCaps}
use synchrotron.Caching.Invalidate.{invalidate-Removes, invalidate-SameCaps}

module _ {Y : Yaml} {K : Type 0} ⦃e : PartialEq K⦄ where
  length-remove_found :
      (m : Map K (Entry Y)) (k : K)
      → KeysNodup m
      → is_some (get m k) ≡ true
      → length m ≡ length (remove m k) + 1
  unfolding get remove
  length-remove_found [] k u h = cc
  length-remove_found ((j, v) ∷ m) k u h = elim (Bool-cases (j == k)) [
    | inl c ↦
        rw (c, remove-absent m k (subst (λ i. is_some (get m i) ≡ false) ((e.decides j k).0 c) u.0))
          (omega arith)
    | inr c ↦ rw c (
        omega (
          arith,
          length-remove_found m k u.1
              (subst (λ b. is_some (if b then some v else get m k) ≡ true) c h),
        ))
  ]

  -- What a lookup leaves is as much as before.
  touched-same :
      (m : Map K (Entry Y)) (k : K) (o : Option (Entry Y))
      → get m k ≡ o
      → KeysNodup m
      → KeysNodup (touched m k o)
        × (sum_bytes (touched m k o) ≡ sum_bytes m)
        × (length (touched m k o) ≡ length m)
  unfolding sum_bytes
  touched-same m k none h u = (u, refl, refl)
  touched-same m k (some v) h u = (
    (ground (arith, get-remove m k k, e.decides k k), remove-KeysNodup m k u),
    omega (arith, sum-remove m k u, ap bytes_of h),
    omega (arith, length-remove_found m k u (ap is_some h)),
  )

  sum-filter-le :
      (p : K × Entry Y → Bool) (m : Map K (Entry Y)) → sum_bytes (filter p m) ≤ sum_bytes m
  unfolding sum_bytes
  sum-filter-le p [] = omega arith
  sum-filter-le p (x ∷ m) = ground (arith, sum-filter-le p m)

module _ {Y : Yaml} {K : Type 0} ⦃e : PartialEq K⦄ (L : LruCache K (Entry Y)) where
  abbrev pub IsWithin : CacheState L.Cache → Type 0
  IsWithin c = (c.total_bytes ≤ c.max_bytes) ⊎ (length (L.iter c.lru) ≤ 1)

  abbrev pub IsSound : CacheState L.Cache → Type 0
  IsSound c = IsAccounted L c × (1 ≤ c.max_entries) × IsWithin c

  get-IsSound : (c : CacheState L.Cache) (key : K) → IsSound c → IsSound (get_manifests L c key).1
  unfolding get_manifests
  get-IsSound c key ((u, le, total, cap), pos, within) =
      go (L.get_entry c.lru key) (L.get_iter c.lru key) (L.get_cap c.lru key)
    where
      same :
          KeysNodup (touched (L.iter c.lru) key (get (L.iter c.lru) key))
          × (sum_bytes (touched (L.iter c.lru) key (get (L.iter c.lru) key))
              ≡ sum_bytes (L.iter c.lru))
          × (length (touched (L.iter c.lru) key (get (L.iter c.lru) key)) ≡ length (L.iter c.lru))
      same = touched-same (L.iter c.lru) key _ refl u

      kept :
          (lru : L.Cache)
          → L.iter lru ≡ touched (L.iter c.lru) key (get (L.iter c.lru) key)
          → L.cap lru ≡ L.cap c.lru
          → IsSound (record c { lru = lru })
      kept lru i n =
          let (u', sum, len) = same in
          rw (i, n)
            (
              (u', omega (arith, len, le), omega (arith, total, sum), cap),
              pos,
              ground (arith, len, within),
            )

      go :
          (p : Option (Entry Y) × L.Cache)
          → L.iter p.1 ≡ touched (L.iter c.lru) key (get (L.iter c.lru) key)
          → L.cap p.1 ≡ L.cap c.lru
          → IsSound (answered L c p).1
      go (none, lru) i n = kept lru i n
      go (some entry, lru) i n = kept lru i n

  put-IsSound :
      (written : ManifestBody Y → Option ℕ) (c : CacheState L.Cache) (key : K)
      (manifests : List (Manifest Y))
      → c.total_bytes + estimate_bytes written manifests ≤ usize_max
      → IsSound c
      → IsSound (put L written c key manifests).1
  put-IsSound written c key manifests fits (a, pos, within) =
      let (a', _, fit) = put-Leads L written c key manifests a pos fits in
      let (entries, bytes) = put-SameCaps L written c key manifests in
      (a', rw entries pos, ground (arith, bytes, fit))

  invalidate-IsSound :
      (chosen : K → Bool) (c : CacheState L.Cache) → IsSound c → IsSound (invalidate L chosen c).1
  invalidate-IsSound chosen c (a, pos, within) =
      let (iter, _, a') = invalidate-Removes L chosen c a in
      let (entries, bytes) = invalidate-SameCaps L chosen c in
      let (_, _, total, _) = a in
      let (_, _, total', _) = a' in
      let fewer = length-filter-le (λ x. not (chosen x.0)) (L.iter c.lru) in
      let less = sum-filter-le (λ x. not (chosen x.0)) (L.iter c.lru) in
      (
        a',
        rw entries pos,
        ground
            (arith, bytes, total, total' ∙ ap sum_bytes iter, ap length iter, fewer, less, within),
      )

  clear-IsSound : (c : CacheState L.Cache) → IsSound c → IsSound (clear_all L c)
  unfolding sum_bytes
  clear-IsSound c ((u, le, total, cap), pos, within) =
      rw (L.clear_iter c.lru, L.clear_cap c.lru)
        ((tt, omega arith, refl, cap), pos, inl (omega arith))

  -- One operation on the cache; of a render that is put in, the bytes still fit the count.
  pub data Step (written : ManifestBody Y → Option ℕ) (c : CacheState L.Cache)
      : CacheState L.Cache → Type 0 where
    gets : (key : K) → Step written c (get_manifests L c key).1
    puts :
        (key : K) (manifests : List (Manifest Y))
        → c.total_bytes + estimate_bytes written manifests ≤ usize_max
        → Step written c (put L written c key manifests).1
    invalidates : (chosen : K → Bool) → Step written c (invalidate L chosen c).1
    clears : Step written c (clear_all L c)

  pub data Reach (written : ManifestBody Y → Option ℕ) (c : CacheState L.Cache)
      : CacheState L.Cache → Type 0 where
    here : Reach written c c
    next : {d d' : CacheState L.Cache} → Reach written c d → Step written d d' → Reach written c d'

  operate-IsSound :
      (written : ManifestBody Y → Option ℕ) (c d : CacheState L.Cache)
      → Step written c d
      → IsSound c
      → IsSound d
  operate-IsSound written c _ (gets key) s = get-IsSound c key s
  operate-IsSound written c _ (puts key manifests fits) s =
      put-IsSound written c key manifests fits s
  operate-IsSound written c _ (invalidates chosen) s = invalidate-IsSound chosen c s
  operate-IsSound written c _ clears s = clear-IsSound c s

  new-IsSound : (max_entries max_bytes : ℕ) → IsSound (new_cache L max_entries max_bytes)
  unfolding sum_bytes
  new-IsSound max_entries max_bytes =
      rw (L.iter_new (max max_entries 1), L.cap_new (max max_entries 1))
        ((tt, omega arith, refl, refl), omega arith, inl (omega arith))

  -- In every state that a new cache reaches, the counts are right, there are no more entries than
  -- the cap, and the bytes are within theirs unless a single entry is left.
  pub reach-IsSound :
      (written : ManifestBody Y → Option ℕ) (max_entries max_bytes : ℕ) (c : CacheState L.Cache)
      → Reach written (new_cache L max_entries max_bytes) c
      → IsSound c
  reach-IsSound written max_entries max_bytes _ here = new-IsSound max_entries max_bytes
  reach-IsSound written max_entries max_bytes c (next r step) =
      operate-IsSound written _ c step (reach-IsSound written max_entries max_bytes _ r)
