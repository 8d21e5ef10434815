-- ===== src/Caching/Put.antt =====
-- What the caches of crates/synchrotron-plugins/src hold after an entry is put in.
use synchrotron.Base.{
  ℕ, ◌+◌, ◌≤◌, ◌≡◌, ◌⊎◌, ◌∙◌, refl, ap, subst, false, Option, none, some, List, ◌∷◌, PartialEq,
  arith, length, eq_self,
}
use synchrotron.Base.Map.{Map, get, remove, get-remove}
use synchrotron.Manifest.{Yaml, Manifest, ManifestBody}
use synchrotron.Caching.{
  Entry, CacheState, estimate_bytes, usize_max, get_manifests, answered, popped, insert_fresh,
  is_over, trim_all, put,
}
use synchrotron.Caching.Lru.{LruCache}
use synchrotron.Caching.Accounts.{IsAccounted, popped-IsAccounted, popped-Pops}
use synchrotron.Caching.Trim.{
  Leads, evicted-Evicts, insert_fresh-lem, trim_bytes-lem, trim_bytes-fits, SameCaps,
  SameCaps-trans, trim_bytes-SameCaps,
}

module _ {Y : Yaml} {K : Type 0} ⦃e : PartialEq K⦄ (L : LruCache K (Entry Y)) where
  pub put-SameCaps :
      (written : ManifestBody Y → Option ℕ) (c : CacheState L.Cache) (key : K)
      (manifests : List (Manifest Y))
      → SameCaps L c (put L written c key manifests).1
  unfolding put
  put-SameCaps written c key manifests =
      let entry : Entry Y = record {
        manifests = manifests;
        bytes = estimate_bytes written manifests;
      } in
      let without = popped L c (L.pop c.lru key) in
      let full = insert_fresh L without key entry in
      let (_, _, entries, bytes) = popped-Pops L c key in
      let (_, _, entries', bytes') =
        evicted-Evicts L without (L.push_entry without.lru key entry) in
      SameCaps-trans L c without (trim_all L full) (entries, bytes)
        (SameCaps-trans L without full (trim_all L full) (entries', bytes')
          (trim_bytes-SameCaps L (length (L.iter full.lru)) full))

  get-remove_self : (m : Map K (Entry Y)) (key : K) → get (remove m key) key ≡ none
  get-remove_self m key = rw (get-remove m key key, eq_self key) refl

  found :
      (c : CacheState L.Cache) (p : Option (Entry Y) × L.Cache) {entry : Entry Y}
      → p.0 ≡ some entry
      → (answered L c p).0 ≡ some entry.manifests
  found c (none, lru) h = cc
  found c (some old, lru) h = cc

  get-first :
      (key : K) (entry : Entry Y) (m : Map K (Entry Y)) → get ((key, entry) ∷ m) key ≡ some entry
  unfolding get
  get-first key entry m = rw (eq_self key) refl

  fitting :
      (c : CacheState L.Cache) (key : K) (entry : Entry Y) (m : Map K (Entry Y)) (max_bytes : ℕ)
      → c.max_bytes ≡ max_bytes
      → is_over L c ≡ false
      → Leads L key entry m c
      → (c.total_bytes ≤ max_bytes) ⊎ (length (L.iter c.lru) ≡ 1)
  fitting c key entry m max_bytes same fits (kept, iter, _) = ground (arith, ap length iter)

  -- An entry that is put in a cache whose counts are right, and whose bytes still fit the count,
  -- comes first; behind it stay the most recently used of the other entries, in their order, all of them
  -- unless one more would be more than the entries allowed or take the bytes above the cap. The
  -- counts are right again, and the bytes within the cap unless the new entry is the only one.
  pub put-Leads :
      (written : ManifestBody Y → Option ℕ) (c : CacheState L.Cache) (key : K)
      (manifests : List (Manifest Y))
      → IsAccounted L c
      → 1 ≤ c.max_entries
      → c.total_bytes + estimate_bytes written manifests ≤ usize_max
      → IsAccounted L (put L written c key manifests).1
        × Leads L key
            (record { manifests = manifests; bytes = estimate_bytes written manifests })
            (remove (L.iter c.lru) key)
            (put L written c key manifests).1
        × (((put L written c key manifests).1.total_bytes ≤ c.max_bytes)
            ⊎ (length (L.iter (put L written c key manifests).1.lru) ≡ 1))
  unfolding put
  put-Leads written c key manifests a pos fits =
      let entry : Entry Y = record {
        manifests = manifests;
        bytes = estimate_bytes written manifests;
      } in
      let without = popped L c (L.pop c.lru key) in
      let (iter, less, entries, _) = popped-Pops L c key in
      let absent : get (L.iter without.lru) key ≡ none =
        ap (λ m. get m key) iter ∙ get-remove_self (L.iter c.lru) key in
      let (a', l) =
        insert_fresh-lem L without key entry (popped-IsAccounted L c key a) (rw entries pos) absent
          (omega (arith, less, fits)) in
      let full = insert_fresh L without key entry in
      let (a'', l') =
        trim_bytes-lem L (length (L.iter full.lru)) full key entry (L.iter without.lru) a' l in
      let fit =
        fitting (trim_all L full) key entry (L.iter without.lru) c.max_bytes
          (put-SameCaps written c key manifests).1
          (trim_bytes-fits L (length (L.iter full.lru)) full (omega arith)) l' in
      (a'', subst (λ m. Leads L key entry m (trim_all L full)) iter l', fit)

  -- What was just put in is found.
  pub get-put :
      (written : ManifestBody Y → Option ℕ) (c : CacheState L.Cache) (key : K)
      (manifests : List (Manifest Y))
      → IsAccounted L c
      → 1 ≤ c.max_entries
      → c.total_bytes + estimate_bytes written manifests ≤ usize_max
      → (get_manifests L (put L written c key manifests).1 key).0 ≡ some manifests
  unfolding get_manifests
  get-put written c key manifests a pos fits =
      let (_, (kept, iter, _), _) = put-Leads written c key manifests a pos fits in
      found (put L written c key manifests).1
        (L.get_entry (put L written c key manifests).1.lru key)
        (L.get_found (put L written c key manifests).1.lru key
          ∙ ap (λ m. get m key) iter
          ∙ get-first key _ kept)
