-- ===== src/Base/Map.antt =====
-- `HashMap` and `HashSet`. The order of the entries stands for the order in which the table
-- happens to be iterated; a new key goes to the end and an old key keeps its place.
use mathlib.Core.Path.{◌≡◌, refl}
use mathlib.Core.Bool.{Bool, true, false}
use mathlib.Core.Option.{Option, none, some}
use mathlib.Core.List.{List, [], ◌∷◌, ◌++◌}
use native.Mathlib.Omega.{arith}
use mathlib.Core.Logic.{inl, inr}
use synchrotron.Base.Tests.{if◌then◌else◌, Bool-cases}
use synchrotron.Base.Equality.{PartialEq, ◌==◌}

abbrev pub Map {ℓ κ} : Type ℓ → Type κ → Type (ℓ ⊔ κ)
Map K V = List (K × V)

abbrev pub is_some {ℓ} : {A : Type ℓ} → Option A → Bool
is_some none = false
is_some (some a) = true

module _ {ℓ κ} {K : Type ℓ} {V : Type κ} ⦃e : PartialEq K⦄ where
  unfoldable pub get : Map K V → K → Option V
  get [] k = none
  get ((j, v) ∷ m) k = if j == k then some v else get m k

  unfoldable pub insert : Map K V → K → V → Map K V
  insert [] k v = (k, v) ∷ []
  insert ((j, w) ∷ m) k v = if j == k then (j, v) ∷ m else (j, w) ∷ insert m k v

  unfoldable pub remove : Map K V → K → Map K V
  remove [] k = []
  remove ((j, w) ∷ m) k = let rest = remove m k in if j == k then rest else (j, w) ∷ rest

  abbrev pub contains_key : Map K V → K → Bool
  contains_key m k = is_some (get m k)

  pub get-insert :
      (m : Map K V) (k : K) (v : V) (j : K)
      → get (insert m k v) j ≡ (if k == j then some v else get m j)
  unfolding get insert
  get-insert [] k v j = refl
  get-insert ((i, w) ∷ m) k v j =
      ground (arith, e.decides k j, e.decides i k, e.decides i j, get-insert m k v j)

  pub get-remove : (m : Map K V) (k j : K) → get (remove m k) j ≡ (if k == j then none else get m j)
  unfolding get remove
  get-remove [] k j = ground arith
  get-remove ((i, w) ∷ m) k j =
      ground (arith, e.decides k j, e.decides i k, e.decides i j, get-remove m k j)

  pub insert_self : (m : Map K V) (k : K) (v : V) → get m k ≡ some v → insert m k v ≡ m
  unfolding get insert
  insert_self [] k v h = cc
  insert_self ((j, w) ∷ m) k v h = ground (arith, insert_self m k v)

  pub remove-absent : (m : Map K V) (k : K) → is_some (get m k) ≡ false → remove m k ≡ m
  unfolding get remove
  remove-absent [] k h = refl
  remove-absent ((j, w) ∷ m) k h = ground (arith, remove-absent m k)

  -- Every key stands once.
  abbrev pub KeysNodup : Map K V → Type 0
  KeysNodup [] = Unit {0}
  KeysNodup ((k, v) ∷ m) = (contains_key m k ≡ false) × KeysNodup m

  pub insert-KeysNodup : (m : Map K V) (k : K) (v : V) → KeysNodup m → KeysNodup (insert m k v)
  unfolding insert
  insert-KeysNodup [] k v u = unfold get in (refl, tt)
  insert-KeysNodup ((i, w) ∷ m) k v u = elim (Bool-cases (i == k)) [
    | inl h ↦ rw h u
    | inr h ↦ rw h (fresh h, insert-KeysNodup m k v u.1)
  ]
    where
      fresh : (i == k) ≡ false → contains_key (insert m k v) i ≡ false
      fresh h = ground (arith, get-insert m k v i, e.decides k i, e.decides i k, u.0)

  pub remove-KeysNodup : (m : Map K V) (k : K) → KeysNodup m → KeysNodup (remove m k)
  unfolding remove
  remove-KeysNodup [] k u = tt
  remove-KeysNodup ((i, w) ∷ m) k u = elim (Bool-cases (i == k)) [
    | inl h ↦ rw h (remove-KeysNodup m k u.1)
    | inr h ↦ rw h (ground (arith, get-remove m k i, u.0), remove-KeysNodup m k u.1)
  ]

  pub absent-append :
      (l r : Map K V) (k : K) → contains_key (l ++ r) k ≡ false → contains_key l k ≡ false
  unfolding get
  absent-append [] r k h = refl
  absent-append ((j, w) ∷ l) r k h = ground (arith, absent-append l r k)

  pub KeysNodup-append : (l r : Map K V) → KeysNodup (l ++ r) → KeysNodup l
  KeysNodup-append [] r u = tt
  KeysNodup-append ((i, w) ∷ l) r u = (absent-append l r i u.0, KeysNodup-append l r u.1)

pub ruleset map_laws = (get-insert, get-remove)
