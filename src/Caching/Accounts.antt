-- ===== src/Caching/Accounts.antt =====
-- The byte counts of crates/synchrotron-plugins/src/cache.rs and app_cache.rs.
use mathlib.Core.List.{append_assoc}
use synchrotron.Base.{
  ℕ, suc, ◌+◌, ◌-◌, ◌≤◌, ◌≡◌, ◌∙◌, refl, ap, subst, inl, inr, false, Option, none, some, List, [],
  ◌∷◌, ◌++◌, ◌==◌, PartialEq, arith, length, Bool-cases,
}
use synchrotron.Base.Map.{Map, get, remove, is_some, remove-absent, KeysNodup, remove-KeysNodup}
use synchrotron.Manifest.{Yaml}
use synchrotron.Caching.{Entry, CacheState, popped}
use synchrotron.Caching.Lru.{LruCache, last_of, last, init_of, drop_last}

-- The list is the front of the other one.
abbrev pub IsPrefix {ℓ} : {A : Type ℓ} → List A → List A → Type ℓ
IsPrefix {A} l whole = (rest : List A) × (whole ≡ l ++ rest)

pub IsPrefix-trans {ℓ} : {A : Type ℓ} (l m n : List A) → IsPrefix l m → IsPrefix m n → IsPrefix l n
IsPrefix-trans l m n (r, e) (r', e') = (r ++ r', e' ∙ ap (λ x. x ++ r') e ∙ append_assoc l r r')

module _ {A : Type 0} where
  pub init_of-last : (a : A) (l : List A) → a ∷ l ≡ init_of a l ++ last_of a l ∷ []
  init_of-last a [] = refl
  init_of-last a (b ∷ l) = ap (λ x. a ∷ x) (init_of-last b l)

  pub drop_last-IsPrefix : (l : List A) → IsPrefix (drop_last l) l
  drop_last-IsPrefix [] = ([], refl)
  drop_last-IsPrefix (a ∷ l) = (last_of a l ∷ [], init_of-last a l)

abbrev pub bytes_of : {Y : Yaml} → Option (Entry Y) → ℕ
bytes_of none = 0
bytes_of (some entry) = entry.bytes

module _ {Y : Yaml} {K : Type 0} ⦃e : PartialEq K⦄ where
  unfoldable pub sum_bytes : Map K (Entry Y) → ℕ
  sum_bytes [] = 0
  sum_bytes ((k, entry) ∷ m) = entry.bytes + sum_bytes m

  abbrev pub pair_bytes : Option (K × Entry Y) → ℕ
  pair_bytes none = 0
  pair_bytes (some (k, entry)) = entry.bytes

  pub sum-cons :
      (key : K) (entry : Entry Y) (m : Map K (Entry Y))
      → sum_bytes ((key, entry) ∷ m) ≡ entry.bytes + sum_bytes m
  unfolding sum_bytes
  sum-cons key entry m = refl

  pub sum-append : (l r : Map K (Entry Y)) → sum_bytes (l ++ r) ≡ sum_bytes l + sum_bytes r
  unfolding sum_bytes
  sum-append [] r = omega arith
  sum-append ((k, entry) ∷ l) r = omega (arith, sum-append l r)

  pub sum-remove :
      (m : Map K (Entry Y)) (k : K)
      → KeysNodup m
      → sum_bytes m ≡ sum_bytes (remove m k) + bytes_of (get m k)
  unfolding sum_bytes remove get
  sum-remove [] k u = omega arith
  sum-remove ((j, entry) ∷ m) k u = elim (Bool-cases (j == k)) [
    | inl h ↦
        rw (h, remove-absent m k (subst (λ i. is_some (get m i) ≡ false) ((e.decides j k).0 h) u.0))
          (omega arith)
    | inr h ↦ rw h (omega (arith, sum-remove m k u.1))
  ]

  pub length-remove-le : (m : Map K (Entry Y)) (k : K) → length (remove m k) ≤ length m
  unfolding remove
  length-remove-le [] k = omega arith
  length-remove-le ((j, entry) ∷ m) k = ground (arith, length-remove-le m k)

  sum-init_of :
      (x : K × Entry Y) (m : Map K (Entry Y))
      → sum_bytes (x ∷ m) ≡ sum_bytes (init_of x m) + pair_bytes (some (last_of x m))
  unfolding sum_bytes
  sum-init_of x [] = omega arith
  sum-init_of x (y ∷ m) = omega (arith, sum-init_of y m)

  pub sum-drop_last :
      (m : Map K (Entry Y)) → sum_bytes m ≡ sum_bytes (drop_last m) + pair_bytes (last m)
  unfolding sum_bytes
  sum-drop_last [] = omega arith
  sum-drop_last (x ∷ m) = sum-init_of x m

  pub length-drop_last : (m : Map K (Entry Y)) → length (drop_last m) ≡ length m - 1
  length-drop_last [] = omega arith
  length-drop_last (x ∷ m) = go x m
    where
      go : (x : K × Entry Y) (m : Map K (Entry Y)) → length (init_of x m) ≡ suc (length m) - 1
      go x [] = omega arith
      go x (y ∷ m) = omega (arith, go y m)

-- The bytes that the state counts are those of its entries, whose keys differ and whose number is
-- within the cap.
abbrev pub IsAccounted :
    {Y : Yaml} {K : Type 0} ⦃e : PartialEq K⦄ (L : LruCache K (Entry Y))
    → CacheState L.Cache
    → Type 0
IsAccounted L c =
    KeysNodup (L.iter c.lru)
    × (length (L.iter c.lru) ≤ L.cap c.lru)
    × (c.total_bytes ≡ sum_bytes (L.iter c.lru))
    × (L.cap c.lru ≡ c.max_entries)

module _ {Y : Yaml} {K : Type 0} ⦃e : PartialEq K⦄ (L : LruCache K (Entry Y)) where
  -- An entry is popped.
  pub popped-IsAccounted :
      (c : CacheState L.Cache) (k : K)
      → IsAccounted L c
      → IsAccounted L (popped L c (L.pop c.lru k))
  popped-IsAccounted c k (u, le, total, cap) =
      go (L.pop c.lru k) (L.pop_found c.lru k) (L.pop_iter c.lru k) (L.pop_cap c.lru k)
    where
      go :
          (p : Option (Entry Y) × L.Cache)
          → p.0 ≡ get (L.iter c.lru) k
          → L.iter p.1 ≡ remove (L.iter c.lru) k
          → L.cap p.1 ≡ L.cap c.lru
          → IsAccounted L (popped L c p)
      go (none, lru) f i n =
          rw (i, n)
            (
              remove-KeysNodup _ k u,
              omega (arith, le, length-remove-le (L.iter c.lru) k),
              omega (arith, total, sum-remove (L.iter c.lru) k u, ap bytes_of f),
              cap,
            )
      go (some old, lru) f i n =
          rw (i, n)
            (
              remove-KeysNodup _ k u,
              omega (arith, le, length-remove-le (L.iter c.lru) k),
              omega (arith, total, sum-remove (L.iter c.lru) k u, ap bytes_of f),
              cap,
            )

  popped-max :
      (c : CacheState L.Cache) (p : Option (Entry Y) × L.Cache)
      → ((popped L c p).lru ≡ p.1)
        × ((popped L c p).total_bytes ≤ c.total_bytes)
        × ((popped L c p).max_entries ≡ c.max_entries)
        × ((popped L c p).max_bytes ≡ c.max_bytes)
  popped-max c (none, lru) = (refl, omega arith, refl, refl)
  popped-max c (some old, lru) = (refl, omega arith, refl, refl)

  pub popped-Pops :
      (c : CacheState L.Cache) (k : K)
      → (L.iter (popped L c (L.pop c.lru k)).lru ≡ remove (L.iter c.lru) k)
        × ((popped L c (L.pop c.lru k)).total_bytes ≤ c.total_bytes)
        × ((popped L c (L.pop c.lru k)).max_entries ≡ c.max_entries)
        × ((popped L c (L.pop c.lru k)).max_bytes ≡ c.max_bytes)
  popped-Pops c k =
      let (lru, le, entries, same) = popped-max c (L.pop c.lru k) in
      (ap L.iter lru ∙ L.pop_iter c.lru k, le, entries, same)
