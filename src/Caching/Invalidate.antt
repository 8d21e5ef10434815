-- ===== src/Caching/Invalidate.antt =====
-- What `AppCache::invalidate_app` of crates/synchrotron-plugins/src/app_cache.rs takes out.
use synchrotron.Base.{
  ◌≡◌, ◌∙◌, refl, ap, inl, inr, Bool, false, not, List, [], ◌∷◌, ◌==◌, PartialEq, arith, filter,
  length, map, All, Bool-cases, eq_self, length-map,
}
use synchrotron.Base.Map.{Map, get, remove, is_some, remove-absent, KeysNodup}
use synchrotron.Manifest.{Yaml}
use synchrotron.Caching.{Entry, CacheState, popped, pop_all, keys_where, invalidate}
use synchrotron.Caching.Lru.{LruCache}
use synchrotron.Caching.Accounts.{IsAccounted, popped-IsAccounted, popped-Pops}
use synchrotron.Caching.Trim.{SameCaps}

module _ {K V : Type 0} ⦃e : PartialEq K⦄ where
  without_all : Map K V → List K → Map K V
  without_all m [] = m
  without_all m (k ∷ keys) = without_all (remove m k) keys

  without_all-skip :
      (m : Map K V) (k : K) (v : V) (keys : List K)
      → All (λ j. (k == j) ≡ false) keys
      → without_all ((k, v) ∷ m) keys ≡ (k, v) ∷ without_all m keys
  unfolding without_all remove
  without_all-skip m k v [] h = refl
  without_all-skip m k v (j ∷ keys) h = rw (h.0) (without_all-skip (remove m j) k v keys h.1)

  abbrev keys_of : (K → Bool) → Map K V → List K
  keys_of chosen m = map (λ x. x.0) (filter (λ x. chosen x.0) m)

  keys_of-differ :
      (chosen : K → Bool) (k : K) (m : Map K V)
      → chosen k ≡ false
      → All (λ j. (k == j) ≡ false) (keys_of chosen m)
  keys_of-differ chosen k [] h = tt
  keys_of-differ chosen k ((j, v) ∷ m) h = elim (Bool-cases (chosen j)) [
    | inl c ↦ rw c (ground (arith, h, c, e.decides k j), keys_of-differ chosen k m h)
    | inr c ↦ rw c (keys_of-differ chosen k m h)
  ]

  remove-first :
      (k : K) (v : V) (m : Map K V) → is_some (get m k) ≡ false → remove ((k, v) ∷ m) k ≡ m
  unfolding remove
  remove-first k v m h = rw (eq_self k) (remove-absent m k h)

  without_all-keys_of :
      (chosen : K → Bool) (m : Map K V)
      → KeysNodup m
      → without_all m (keys_of chosen m) ≡ filter (λ x. not (chosen x.0)) m
  unfolding without_all
  without_all-keys_of chosen [] u = refl
  without_all-keys_of chosen ((k, v) ∷ m) u = elim (Bool-cases (chosen k)) [
    | inl c ↦ rw c (
        ap (λ r. without_all r (keys_of chosen m)) (remove-first k v m u.0)
        ∙ without_all-keys_of chosen m u.1)
    | inr c ↦ rw c (
        without_all-skip m k v _ (keys_of-differ chosen k m c)
        ∙ ap (λ l. (k, v) ∷ l) (without_all-keys_of chosen m u.1))
  ]

module _ {Y : Yaml} {K : Type 0} ⦃e : PartialEq K⦄ (L : LruCache K (Entry Y)) where
  pop_all-iter :
      (c : CacheState L.Cache) (keys : List K)
      → L.iter (pop_all L c keys).lru ≡ without_all (L.iter c.lru) keys
  unfolding pop_all without_all
  pop_all-iter c [] = refl
  pop_all-iter c (k ∷ keys) =
      pop_all-iter (popped L c (L.pop c.lru k)) keys
      ∙ ap (λ m. without_all m keys) (popped-Pops L c k).0

  pop_all-IsAccounted :
      (c : CacheState L.Cache) (keys : List K) → IsAccounted L c → IsAccounted L (pop_all L c keys)
  unfolding pop_all
  pop_all-IsAccounted c [] a = a
  pop_all-IsAccounted c (k ∷ keys) a =
      pop_all-IsAccounted (popped L c (L.pop c.lru k)) keys (popped-IsAccounted L c k a)

  -- Exactly the entries with the chosen keys are taken out, the others keep their order, the number
  -- of those taken out is answered, and the counts stay right.
  pub invalidate-Removes :
      (chosen : K → Bool) (c : CacheState L.Cache)
      → IsAccounted L c
      → (L.iter (invalidate L chosen c).1.lru ≡ filter (λ x. not (chosen x.0)) (L.iter c.lru))
        × ((invalidate L chosen c).0 ≡ length (filter (λ x. chosen x.0) (L.iter c.lru)))
        × IsAccounted L (invalidate L chosen c).1
  unfolding invalidate
  invalidate-Removes chosen c a = (
    pop_all-iter c (keys_where L chosen c) ∙ without_all-keys_of chosen (L.iter c.lru) a.0,
    length-map _ _,
    pop_all-IsAccounted c (keys_where L chosen c) a,
  )

  pop_all-SameCaps : (c : CacheState L.Cache) (keys : List K) → SameCaps L c (pop_all L c keys)
  unfolding pop_all
  pop_all-SameCaps c [] = (refl, refl)
  pop_all-SameCaps c (k ∷ keys) =
      let (_, _, entries, bytes) = popped-Pops L c k in
      let (entries', bytes') = pop_all-SameCaps (popped L c (L.pop c.lru k)) keys in
      (entries' ∙ entries, bytes' ∙ bytes)

  pub invalidate-SameCaps :
      (chosen : K → Bool) (c : CacheState L.Cache) → SameCaps L c (invalidate L chosen c).1
  unfolding invalidate
  invalidate-SameCaps chosen c = pop_all-SameCaps c (keys_where L chosen c)
