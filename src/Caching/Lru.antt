-- ===== src/Caching/Lru.antt =====
-- The interface of the lru crate's `LruCache` that crates/synchrotron-plugins/src uses. `iter` lists the
-- entries from the most to the least recently used one.
use synchrotron.Base.{
  ℕ, ◌≡◌, true, false, Option, none, some, List, [], ◌∷◌, PartialEq, ltb, length,
}
use synchrotron.Base.Map.{Map, get, remove}

module _ {A : Type 0} where
  abbrev pub last_of : A → List A → A
  last_of a [] = a
  last_of a (b ∷ l) = last_of b l

  abbrev pub last : List A → Option A
  last [] = none
  last (a ∷ l) = some (last_of a l)

  abbrev pub init_of : A → List A → List A
  init_of a [] = []
  init_of a (b ∷ l) = a ∷ init_of b l

  abbrev pub drop_last : List A → List A
  drop_last [] = []
  drop_last (a ∷ l) = init_of a l

module _ {K V : Type 0} ⦃e : PartialEq K⦄ where
  -- A found entry comes to the front.
  abbrev pub touched : Map K V → K → Option V → Map K V
  touched m k none = m
  touched m k (some v) = (k, v) ∷ remove m k

pub record LruCache (K V : Type 0) ⦃e : PartialEq K⦄ : Type 1 where
  pub Cache : Type 0
  pub iter : Cache → Map K V
  pub cap : Cache → ℕ
  pub new_lru : ℕ → Cache
  pub get_entry : Cache → K → Option V × Cache
  pub pop : Cache → K → Option V × Cache
  pub push_entry : Cache → K → V → Option (K × V) × Cache
  pub pop_lru : Cache → Option (K × V) × Cache
  pub clear : Cache → Cache
  pub iter_new : (n : ℕ) → iter (new_lru n) ≡ []
  pub cap_new : (n : ℕ) → cap (new_lru n) ≡ n
  pub get_found : (c : Cache) (k : K) → (get_entry c k).0 ≡ get (iter c) k
  pub get_iter : (c : Cache) (k : K) → iter (get_entry c k).1 ≡ touched (iter c) k (get (iter c) k)
  pub get_cap : (c : Cache) (k : K) → cap (get_entry c k).1 ≡ cap c
  pub pop_found : (c : Cache) (k : K) → (pop c k).0 ≡ get (iter c) k
  pub pop_iter : (c : Cache) (k : K) → iter (pop c k).1 ≡ remove (iter c) k
  pub pop_cap : (c : Cache) (k : K) → cap (pop c k).1 ≡ cap c
  -- A new key, as long as there is room and when there is none
  pub push_room :
      (c : Cache) (k : K) (v : V)
      → get (iter c) k ≡ none
      → ltb (length (iter c)) (cap c) ≡ true
      → ((push_entry c k v).0 ≡ none) × (iter (push_entry c k v).1 ≡ (k, v) ∷ iter c)
  pub push_full :
      (c : Cache) (k : K) (v : V)
      → get (iter c) k ≡ none
      → ltb (length (iter c)) (cap c) ≡ false
      → ((push_entry c k v).0 ≡ last (iter c))
        × (iter (push_entry c k v).1 ≡ (k, v) ∷ drop_last (iter c))
  pub push_cap : (c : Cache) (k : K) (v : V) → cap (push_entry c k v).1 ≡ cap c
  pub pop_lru_found : (c : Cache) → (pop_lru c).0 ≡ last (iter c)
  pub pop_lru_iter : (c : Cache) → iter (pop_lru c).1 ≡ drop_last (iter c)
  pub pop_lru_cap : (c : Cache) → cap (pop_lru c).1 ≡ cap c
  pub clear_iter : (c : Cache) → iter (clear c) ≡ []
  pub clear_cap : (c : Cache) → cap (clear c) ≡ cap c
