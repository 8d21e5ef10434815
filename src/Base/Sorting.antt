-- ===== src/Base/Sorting.antt =====
-- `slice::sort_by`, which is stable, as an insertion sort.
use mathlib.Core.Path.{◌≡◌, ap₂}
use mathlib.Core.Bool.{true, false}
use mathlib.Core.Logic.{inl, inr}
use mathlib.Core.List.{
  List, [], ◌∷◌, Mem, Perm, Pairwise, Pairwise-singleton, forall_mem-cons, mem-cons_self,
  mem-cons_of_mem,
}
use mathlib.Core.List.Pairwise
use mathlib.Core.List.Perm
use native.Mathlib.Omega.{arith}
use synchrotron.Base.Tests.{Bool-cases, if◌then◌else◌}
use synchrotron.Base.Order.{Ordering, not_gt, IsTotalOrder}

module _ {ℓ} {A : Type ℓ} where
  abbrev pub NotAfter : (A → A → Ordering) → A → A → Type 0
  NotAfter cmp a b = not_gt (cmp a b) ≡ true

  abbrev pub IsSortedBy : (A → A → Ordering) → List A → Type ℓ
  IsSortedBy cmp = Pairwise (NotAfter cmp)

  -- Before the first element that is not smaller.
  unfoldable pub insert_by : (A → A → Ordering) → A → List A → List A
  insert_by cmp x [] = x ∷ []
  insert_by cmp x (y ∷ ys) = if not_gt (cmp x y) then x ∷ y ∷ ys else y ∷ insert_by cmp x ys

  unfoldable pub sort_by : (A → A → Ordering) → List A → List A
  unfolding insert_by
  sort_by cmp [] = []
  sort_by cmp (x ∷ xs) = insert_by cmp x (sort_by cmp xs)

module _ {ℓ} {A : Type ℓ} (cmp : A → A → Ordering) where
  insert_by-perm : (x : A) (l : List A) → Perm (insert_by cmp x l) (x ∷ l)
  unfolding insert_by
  insert_by-perm x [] = Perm.rfl
  insert_by-perm x (y ∷ ys) = elim (Bool-cases (not_gt (cmp x y))) [
    | inl h ↦ rw (h, insert_by) Perm.rfl
    | inr h ↦ rw (h, insert_by) (Perm.trans (Perm.cons y (insert_by-perm x ys)) (Perm.swap x y ys))
  ]

  -- A sort returns a rearrangement of its input.
  pub sort_by-perm : (l : List A) → Perm (sort_by cmp l) l
  unfolding sort_by
  sort_by-perm [] = Perm.rfl
  sort_by-perm (x ∷ xs) =
      Perm.trans (insert_by-perm x (sort_by cmp xs)) (Perm.cons x (sort_by-perm xs))

NotAfter-prop {ℓ} : {A : Type ℓ} (cmp : A → A → Ordering) (a b : A) → IsProp (NotAfter cmp a b)
NotAfter-prop cmp a b = hlevel

module _ {ℓ} {A : Type ℓ} (cmp : A → A → Ordering) (o : IsTotalOrder cmp) where
  NotAfter-total : (a b : A) → not_gt (cmp a b) ≡ false → NotAfter cmp b a
  NotAfter-total a b h = ground (arith, o.flips a b)

  NotAfter-refl : (a : A) → NotAfter cmp a a
  NotAfter-refl a = ground (arith, o.flips a a)

  abbrev IsBelow : A → List A → Type ℓ
  IsBelow a l = (x : A) → Mem x l → NotAfter cmp a x

  IsBelow-cons : (a b : A) {l : List A} → NotAfter cmp a b → IsBelow a l → IsBelow a (b ∷ l)
  IsBelow-cons a b p h = (forall_mem-cons (NotAfter-prop cmp a)).1 (p, h)

  IsBelow-head : (a b : A) {l : List A} → NotAfter cmp a b → IsBelow b l → IsBelow a (b ∷ l)
  IsBelow-head a b p h = IsBelow-cons a b p λ x m. o.trans a b x p (h x m)

  insert_by-IsSortedBy :
      (x : A) {l : List A} → IsSortedBy cmp l → IsSortedBy cmp (insert_by cmp x l)
  unfolding insert_by
  insert_by-IsSortedBy x Pairwise.nil = Pairwise-singleton _ x
  insert_by-IsSortedBy x (Pairwise.cons {a = y} {l = ys} below s) =
      elim (Bool-cases (not_gt (cmp x y))) [
        | inl h ↦
            rw (h, insert_by) (Pairwise.cons (IsBelow-head x y h below) (Pairwise.cons below s))
        | inr h ↦
            rw (h, insert_by)
              (Pairwise.cons
                (λ z m.
                  IsBelow-cons y x (NotAfter-total x y h) below z
                    ((Perm.mem_iff (insert_by-perm cmp x ys)).0 m))
                (insert_by-IsSortedBy x s))
      ]

  -- A sort by a total order returns an ascending list.
  pub sort_by-IsSortedBy : (l : List A) → IsSortedBy cmp (sort_by cmp l)
  unfolding sort_by
  sort_by-IsSortedBy [] = Pairwise.nil
  sort_by-IsSortedBy (x ∷ xs) = insert_by-IsSortedBy x (sort_by-IsSortedBy xs)

  -- On a list whose elements that compare as equal are equal.
  abbrev pub IsAntisymm : List A → Type ℓ
  IsAntisymm l = (a b : A) → Mem a l → Mem b l → NotAfter cmp a b → NotAfter cmp b a → a ≡ b

  pub head_le : (a b : A) {l : List A} → IsSortedBy cmp (a ∷ l) → Mem b (a ∷ l) → NotAfter cmp a b
  head_le a b (Pairwise.cons below s) m = IsBelow-cons a a (NotAfter-refl a) below b m

  -- There is one ascending rearrangement.
  pub IsSortedBy-eq_of_perm :
      {l r : List A} → IsSortedBy cmp l → IsSortedBy cmp r → IsAntisymm l → Perm l r → l ≡ r
  IsSortedBy-eq_of_perm {l = []} _ _ _ p = Perm.nil-eq p
  IsSortedBy-eq_of_perm {l = a ∷ l} {r = []} _ _ _ p = Perm.eq-nil p
  IsSortedBy-eq_of_perm {l = a ∷ l} {r = b ∷ r} sl sr anti p =
      let heads =
        anti a b mem-cons_self ((Perm.mem_iff p).1 mem-cons_self)
          (head_le a b sl ((Perm.mem_iff p).1 mem-cons_self))
          (head_le b a sr ((Perm.mem_iff p).0 mem-cons_self)) in
      let tails = Perm.cons_inv (Perm.trans p (Perm.symm (Perm.cons' heads Perm.rfl))) in
      ap₂ ◌∷◌ heads (
        IsSortedBy-eq_of_perm {l = l} (Pairwise.of_cons sl) (Pairwise.of_cons sr)
          (λ x y m n. anti x y (mem-cons_of_mem a m) (mem-cons_of_mem a n)) tails)

  -- So the order of the input does not show in the output.
  pub sort_by-eq_of_perm : (l r : List A) → IsAntisymm l → Perm l r → sort_by cmp l ≡ sort_by cmp r
  sort_by-eq_of_perm l r anti p =
      IsSortedBy-eq_of_perm (sort_by-IsSortedBy l) (sort_by-IsSortedBy r)
        (λ a b m n.
          anti a b ((Perm.mem_iff (sort_by-perm cmp l)).0 m)
            ((Perm.mem_iff (sort_by-perm cmp l)).0 n))
        (Perm.trans (sort_by-perm cmp l) (Perm.trans p (Perm.symm (sort_by-perm cmp r))))
