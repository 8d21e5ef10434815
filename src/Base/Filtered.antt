-- ===== src/Base/Filtered.antt =====
-- Filters by a Boolean test, the members that they keep and rearrangements.
use mathlib.Core.Path.{◌≡◌, refl, ap}
use mathlib.Core.Bool.{Bool, true, false}
use mathlib.Core.Logic.{inl, inr, ite}
use mathlib.Core.Logic.Or
use mathlib.Core.List.{List, [], ◌∷◌, Mem, Perm, mem-cons, mem-cons_of_mem, not-mem-nil, Mem-prop}
use mathlib.Core.List.Perm
use mathlib.Core.List as List
use synchrotron.Base.Tests.{if◌then◌else◌, Bool-cases}
use synchrotron.Base.Lists.{filter, All}

true_dec : (b : Bool) → Dec (b ≡ true)
true_dec true = yes refl
true_dec false = no (λ e. cc)

module _ {ℓ} {A : Type ℓ} where
  -- What a filter keeps passes the test.
  pub filter_self : (p : A → Bool) (xs : List A) → All (λ x. p x ≡ true) (filter p xs)
  filter_self p [] = tt
  filter_self p (x ∷ xs) = elim (Bool-cases (p x)) [
    | inl e ↦ rw e (e, filter_self p xs)
    | inr e ↦ rw e (filter_self p xs)
  ]

  pub filter-All {κ} :
      (P : A → Type κ) (p : A → Bool) (xs : List A) → All P xs → All P (filter p xs)
  filter-All P p [] h = tt
  filter-All P p (x ∷ xs) h = elim (Bool-cases (p x)) [
    | inl e ↦ rw e (h.0, filter-All P p xs h.1)
    | inr e ↦ rw e (filter-All P p xs h.1)
  ]

  -- A test of every element holds of each member.
  pub mem-All :
      (p : A → Bool) (xs : List A) (a : A) → All (λ x. p x ≡ true) xs → Mem a xs → p a ≡ true
  mem-All p [] a h m = absurd (not-mem-nil m)
  mem-All p (x ∷ xs) a h m = Or.elim (hlevel) (mem-cons.0 m) (λ e. rw e h.0) (mem-All p xs a h.1)

  chosen :
      (b : Bool) (x : A) (l r : List A)
      → l ≡ r
      → (if b then x ∷ l else l) ≡ ite (true_dec b) (x ∷ r) r
  unfolding true_dec
  chosen true x l r e = ap (λ t. x ∷ t) e
  chosen false x l r e = e

  filter-eq : (p : A → Bool) (xs : List A) → filter p xs ≡ List.filter (λ x. true_dec (p x)) xs
  filter-eq p [] = refl
  filter-eq p (x ∷ xs) = chosen (p x) x _ _ (filter-eq p xs)

  pub filter-perm : (p : A → Bool) {xs ys : List A} → Perm xs ys → Perm (filter p xs) (filter p ys)
  filter-perm p {xs} {ys} h =
      rw (filter-eq p xs, filter-eq p ys) (Perm.filter (λ x. true_dec (p x)) h)
