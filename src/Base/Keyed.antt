-- ===== src/Base/Keyed.antt =====
-- Lists whose elements carry a key that stands once, and what a sort leaves of them.
use mathlib.Core.Path.{◌≡◌, refl, ap, ◌∙◌}
use mathlib.Core.Bool.{false}
use mathlib.Core.Logic.{inl, inr}
use mathlib.Core.Option.{Option, none, some}
use mathlib.Core.List.{List, [], ◌∷◌}
use native.Mathlib.Omega.{arith}
use synchrotron.Base.Tests.{Bool-cases, if◌then◌else◌}
use synchrotron.Base.Equality.{PartialEq, ◌==◌}
use synchrotron.Base.Map.{is_some}
use synchrotron.Base.Order.{Ordering, not_gt}
use synchrotron.Base.Sorting.{insert_by, sort_by}

module _ {ℓ κ} {A : Type ℓ} {K : Type κ} ⦃e : PartialEq K⦄ (key : A → K) where
  unfoldable pub find_key : List A → K → Option A
  find_key [] k = none
  find_key (a ∷ l) k = if key a == k then some a else find_key l k

  abbrev pub KeysOnce : List A → Type 0
  KeysOnce [] = Unit
  KeysOnce (a ∷ l) = (is_some (find_key l (key a)) ≡ false) × KeysOnce l

  module _ (cmp : A → A → Ordering) where
    find_key-insert_by :
        (x : A) (l : List A) (k : K)
        → is_some (find_key l (key x)) ≡ false
        → find_key (insert_by cmp x l) k ≡ find_key (x ∷ l) k
    unfolding insert_by find_key
    find_key-insert_by x [] k u = refl
    find_key-insert_by x (y ∷ l) k u = ground (
      arith,
      find_key-insert_by x l k,
      e.decides (key x) k,
      e.decides (key y) k,
      e.decides (key y) (key x),
      u,
    )

    insert_by-KeysOnce :
        (x : A) (l : List A)
        → is_some (find_key l (key x)) ≡ false
        → KeysOnce l
        → KeysOnce (insert_by cmp x l)
    unfolding insert_by
    insert_by-KeysOnce x [] u v = (unfold find_key in refl, tt)
    insert_by-KeysOnce x (y ∷ l) u v = elim (Bool-cases (not_gt (cmp x y))) [
      | inl h ↦ rw h (u, v)
      | inr h ↦ rw h (absent, insert_by-KeysOnce x l rest v.1)
    ]
      where
        rest : is_some (find_key l (key x)) ≡ false
        rest = unfold find_key in ground (arith, u)

        absent : is_some (find_key (insert_by cmp x l) (key y)) ≡ false
        absent =
            ap is_some (find_key-insert_by x l (key y) rest)
            ∙ unfold find_key in
              ground (arith, u, v.0, e.decides (key x) (key y), e.decides (key y) (key x))

    -- A sort of elements with different keys changes no lookup.
    pub sort_by-KeysOnce :
        (l : List A)
        → KeysOnce l
        → KeysOnce (sort_by cmp l) × ((k : K) → find_key (sort_by cmp l) k ≡ find_key l k)
    unfolding sort_by
    sort_by-KeysOnce [] v = (tt, λ k. refl)
    sort_by-KeysOnce (x ∷ l) v =
        let (once, found) = sort_by-KeysOnce l v.1 in
        let absent = ap is_some (found (key x)) ∙ v.0 in
        (
          insert_by-KeysOnce x (sort_by cmp l) absent once,
          λ k. find_key-insert_by x (sort_by cmp l) k absent ∙ same_head x l k (found k),
        )
      where
        same_head :
            (x : A) (l : List A) (k : K)
            → find_key (sort_by cmp l) k ≡ find_key l k
            → find_key (x ∷ sort_by cmp l) k ≡ find_key (x ∷ l) k
        same_head x l k h = unfold find_key in ground (arith, h)
