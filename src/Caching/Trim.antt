-- ===== src/Caching/Trim.antt =====
-- How the caches of crates/synchrotron-plugins/src make room for an entry.
use mathlib.Core.List.{append-nil, append_assoc}
use synchrotron.Base.{
  ℕ, zero, suc, ◌+◌, ◌-◌, ◌≤◌, ◌<◌, ◌≡◌, ◌⊎◌, ◌∙◌, refl, sym, ap, subst, inl, inr, true, false,
  Option, none, some, [], ◌∷◌, ◌++◌, PartialEq, arith, ltb, ltb→lt, length, Bool-cases,
}
use synchrotron.Base.Map.{
  Map, get, is_some, contains_key, KeysNodup, KeysNodup-append, absent-append,
}
use synchrotron.Manifest.{Yaml}
use synchrotron.Caching.{Entry, CacheState, usize_max, evicted, insert_fresh, is_over, trim_bytes}
use synchrotron.Caching.Lru.{LruCache, last_of, last, init_of, drop_last}
use synchrotron.Caching.Accounts.{
  IsPrefix, init_of-last, drop_last-IsPrefix, sum_bytes, pair_bytes, sum-cons, sum-drop_last,
  length-drop_last, IsAccounted,
}

module _ {Y : Yaml} {K : Type 0} ⦃e : PartialEq K⦄ (L : LruCache K (Entry Y)) where
  -- Behind those that are kept there is none, or there is no room for one more entry, or the first of
  -- them would take the bytes above the cap.
  abbrev pub Needed : CacheState L.Cache → (kept rest : Map K (Entry Y)) → Type 0
  Needed c kept [] = Unit
  Needed c kept (x ∷ rest) =
      (c.max_entries < length kept + 2) ⊎ (c.max_bytes < c.total_bytes + x.1.bytes)

  -- The given entry is the first one, and those behind it are the front of the list, of which no more was
  -- dropped than needed.
  abbrev pub Leads : K → Entry Y → Map K (Entry Y) → CacheState L.Cache → Type 0
  Leads key entry m c =
      (kept : Map K (Entry Y)) × (L.iter c.lru ≡ (key, entry) ∷ kept)
      × ((rest : Map K (Entry Y)) × (m ≡ kept ++ rest) × Needed c kept rest)

  full-Needed :
      (c : CacheState L.Cache) (kept rest : Map K (Entry Y)) (cap : ℕ)
      → c.max_entries ≡ cap
      → (rest ≡ []) ⊎ (cap < length kept + 2)
      → Needed c kept rest
  full-Needed c kept [] cap e h = tt
  full-Needed c kept (x ∷ rest) cap e (inl h) = absurd (cc h)
  full-Needed c kept (x ∷ rest) cap e (inr h) = inl (omega (arith, e, h))

  -- What an eviction leaves of the state
  abbrev pub Evicts :
      CacheState L.Cache → Option (K × Entry Y) × L.Cache → CacheState L.Cache → Type 0
  Evicts c p c' =
      (c'.lru ≡ p.1)
      × (c'.total_bytes ≡ c.total_bytes - pair_bytes p.0)
      × (c'.max_entries ≡ c.max_entries)
      × (c'.max_bytes ≡ c.max_bytes)

  pub evicted-Evicts :
      (c : CacheState L.Cache) (p : Option (K × Entry Y) × L.Cache) → Evicts c p (evicted L c p)
  evicted-Evicts c (none, lru) = (refl, omega arith, refl, refl)
  evicted-Evicts c (some (k, old), lru) = (refl, refl, refl, refl)

  prefix-KeysNodup : (l m : Map K (Entry Y)) → IsPrefix l m → KeysNodup m → KeysNodup l
  prefix-KeysNodup l m (r, h) u = KeysNodup-append l r (subst KeysNodup h u)

  -- A push drops the last entry or none.
  abbrev Pushes : L.Cache → K → Entry Y → Option (K × Entry Y) × L.Cache → Type 0
  Pushes lru key entry p =
      (kept : Map K (Entry Y)) × (front : IsPrefix kept (L.iter lru)) × (L.iter p.1
        ≡ (key, entry) ∷ kept)
      × (sum_bytes (L.iter lru) ≡ sum_bytes kept + pair_bytes p.0)
      × (length kept < L.cap lru)
      × ((front.0 ≡ []) ⊎ (L.cap lru < length kept + 2))

  push-Pushes :
      (lru : L.Cache) (key : K) (entry : Entry Y)
      → get (L.iter lru) key ≡ none
      → length (L.iter lru) ≤ L.cap lru
      → 1 ≤ L.cap lru
      → Pushes lru key entry (L.push_entry lru key entry)
  push-Pushes lru key entry absent le pos =
      elim (Bool-cases (ltb (length (L.iter lru)) (L.cap lru))) [
        | inl h ↦
            let (nothing, pushed) = L.push_room lru key entry absent h in
            (
              L.iter lru,
              ([], sym (append-nil (L.iter lru))),
              pushed,
              omega (arith, ap pair_bytes nothing),
              ltb→lt _ _ h,
              inl refl,
            )
        | inr h ↦
            let (dropped, pushed) = L.push_full lru key entry absent h in
            (
              drop_last (L.iter lru),
              drop_last-IsPrefix (L.iter lru),
              pushed,
              sum-drop_last (L.iter lru)
                  ∙ ap (λ b. sum_bytes (drop_last (L.iter lru)) + b) (ap pair_bytes (sym dropped)),
              omega (arith, length-drop_last (L.iter lru), le, pos),
              inr (ground (arith, length-drop_last (L.iter lru), h)),
            )
      ]

  pub insert_fresh-lem :
      (c : CacheState L.Cache) (key : K) (entry : Entry Y)
      → IsAccounted L c
      → 1 ≤ c.max_entries
      → get (L.iter c.lru) key ≡ none
      → c.total_bytes + entry.bytes ≤ usize_max
      → IsAccounted L (insert_fresh L c key entry)
        × Leads key entry (L.iter c.lru) (insert_fresh L c key entry)
  insert_fresh-lem c key entry (u, le, total, cap) pos absent fits =
      let (kept, front, pushed, sum, lt, tight) =
        push-Pushes c.lru key entry absent le (omega (arith, cap, pos)) in
      let (lru, left, entries, _) = evicted-Evicts c (L.push_entry c.lru key entry) in
      let iter : L.iter (evicted L c (L.push_entry c.lru key entry)).lru ≡ (key, entry) ∷ kept =
        ap L.iter lru ∙ pushed in
      let room : L.cap (evicted L c (L.push_entry c.lru key entry)).lru ≡ L.cap c.lru =
        ap L.cap lru ∙ L.push_cap c.lru key entry in
      let fresh : contains_key kept key ≡ false =
        absent-append kept front.0 key
          (subst (λ m. contains_key m key ≡ false) front.1 (ap is_some absent)) in
      (
        rw (iter, room, left, entries, sum-cons key entry kept)
            (
              (fresh, prefix-KeysNodup kept (L.iter c.lru) front u),
              lt,
              omega (arith, total, sum, fits),
              cap,
            ),
        (
          kept,
          iter,
          (
            front.0,
            front.1,
            full-Needed (insert_fresh L c key entry) kept front.0 (L.cap c.lru) (entries ∙ sym cap)
                tight,
          ),
        ),
      )

  popped_last-iter :
      (c : CacheState L.Cache)
      → L.iter (evicted L c (L.pop_lru c.lru)).lru ≡ drop_last (L.iter c.lru)
  popped_last-iter c = ap L.iter (evicted-Evicts c (L.pop_lru c.lru)).0 ∙ L.pop_lru_iter c.lru

  popped_last-IsAccounted :
      (c : CacheState L.Cache) → IsAccounted L c → IsAccounted L (evicted L c (L.pop_lru c.lru))
  popped_last-IsAccounted c (u, le, total, cap) =
      let (lru, left, entries, _) = evicted-Evicts c (L.pop_lru c.lru) in
      let room : L.cap (evicted L c (L.pop_lru c.lru)).lru ≡ L.cap c.lru =
        ap L.cap lru ∙ L.pop_lru_cap c.lru in
      rw (popped_last-iter c, room, left, entries, L.pop_lru_found c.lru)
        (
          prefix-KeysNodup _ (L.iter c.lru) (drop_last-IsPrefix (L.iter c.lru)) u,
          omega (arith, length-drop_last (L.iter c.lru), le),
          omega (arith, total, sum-drop_last (L.iter c.lru)),
          cap,
        )

  popped_last-Leads :
      (c : CacheState L.Cache) (key : K) (entry : Entry Y) (m : Map K (Entry Y))
      → is_over L c ≡ true
      → Leads key entry m c
      → Leads key entry m (evicted L c (L.pop_lru c.lru))
  popped_last-Leads c key entry m over (kept, iter, (rest, front, _)) =
      let (_, less, _, bytes) = evicted-Evicts c (L.pop_lru c.lru) in go kept iter front less bytes
    where
      c' : CacheState L.Cache
      c' = evicted L c (L.pop_lru c.lru)

      go :
          (kept : Map K (Entry Y))
          → L.iter c.lru ≡ (key, entry) ∷ kept
          → m ≡ kept ++ rest
          → c'.total_bytes ≡ c.total_bytes - pair_bytes (L.pop_lru c.lru).0
          → c'.max_bytes ≡ c.max_bytes
          → Leads key entry m c'
      go [] iter front less bytes = absurd (ground (arith, ap length iter, over))
      go (x ∷ kept) iter front less bytes =
          let out : pair_bytes (L.pop_lru c.lru).0 ≡ pair_bytes (some (last_of x kept)) =
            ap pair_bytes (L.pop_lru_found c.lru ∙ ap last iter) in
          (
            drop_last (x ∷ kept),
            popped_last-iter c ∙ ap drop_last iter,
            (
              last_of x kept ∷ rest,
              front
                  ∙ ap (λ l. l ++ rest) (init_of-last x kept)
                  ∙ append_assoc (init_of x kept) (last_of x kept ∷ []) rest,
              inr (ground (arith, over, less, bytes, out)),
            ),
          )

  pub trim_bytes-lem :
      (fuel : ℕ) (c : CacheState L.Cache) (key : K) (entry : Entry Y) (m : Map K (Entry Y))
      → IsAccounted L c
      → Leads key entry m c
      → IsAccounted L (trim_bytes L fuel c) × Leads key entry m (trim_bytes L fuel c)
  unfolding trim_bytes
  trim_bytes-lem zero c key entry m a l = (a, l)
  trim_bytes-lem (suc fuel) c key entry m a l = elim (Bool-cases (is_over L c)) [
    | inl h ↦ rw h (
        trim_bytes-lem fuel (evicted L c (L.pop_lru c.lru)) key entry m
          (popped_last-IsAccounted c a) (popped_last-Leads c key entry m h l))
    | inr h ↦ rw h (a, l)
  ]

  pub trim_bytes-fits :
      (fuel : ℕ) (c : CacheState L.Cache)
      → length (L.iter c.lru) ≤ fuel
      → is_over L (trim_bytes L fuel c) ≡ false
  unfolding trim_bytes
  trim_bytes-fits zero c h = ground arith
  trim_bytes-fits (suc fuel) c h = elim (Bool-cases (is_over L c)) [
    | inl over ↦ rw over (
        trim_bytes-fits fuel _
          (omega (arith, ap length (popped_last-iter c), length-drop_last (L.iter c.lru), h)))
    | inr fits ↦ rw fits fits
  ]

  -- The caps stay.
  abbrev pub SameCaps : CacheState L.Cache → CacheState L.Cache → Type 0
  SameCaps c c' = (c'.max_entries ≡ c.max_entries) × (c'.max_bytes ≡ c.max_bytes)

  pub SameCaps-trans : (a b c : CacheState L.Cache) → SameCaps a b → SameCaps b c → SameCaps a c
  SameCaps-trans a b c (h, k) (h', k') = (h' ∙ h, k' ∙ k)

  pub trim_bytes-SameCaps : (fuel : ℕ) (c : CacheState L.Cache) → SameCaps c (trim_bytes L fuel c)
  unfolding trim_bytes
  trim_bytes-SameCaps zero c = (refl, refl)
  trim_bytes-SameCaps (suc fuel) c = elim (Bool-cases (is_over L c)) [
    | inl over ↦
        let (_, _, entries, bytes) = evicted-Evicts c (L.pop_lru c.lru) in
        rw over (
          SameCaps-trans c (evicted L c (L.pop_lru c.lru))
            (trim_bytes L fuel (evicted L c (L.pop_lru c.lru))) (entries, bytes)
            (trim_bytes-SameCaps fuel (evicted L c (L.pop_lru c.lru))))
    | inr fits ↦ rw fits (refl, refl)
  ]
