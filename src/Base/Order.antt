-- ===== src/Base/Order.antt =====
-- `Ord::cmp`: comparators as functions into `Ordering`, and the ways to build them.
use Prim.Native.Nat.{compare as compare_ℕ}
pub use Prim.Native.Nat.{Ordering}
use Prim.Native.Nat.Ordering.{lt, eq, gt}
use Prim.Native.String.{String, compare as compare_str}
use Prim.Native.String.compare
use mathlib.Core.Path.{◌≡◌, refl, ap}
use mathlib.Core.Bool.{Bool, true, false}
use mathlib.Core.Option.{Option, none, some}
use native.Mathlib.Omega.{arith}
use text.Mathlib.TextEquality.{path_by_compare}

-- `Ordering::reverse`
abbrev pub rev : Ordering → Ordering
rev lt = gt
rev eq = eq
rev gt = lt

-- `Ordering::then_with`
abbrev pub and_then : Ordering → Ordering → Ordering
and_then lt o = lt
and_then eq o = o
and_then gt o = gt

abbrev pub not_gt : Ordering → Bool
not_gt lt = true
not_gt eq = true
not_gt gt = false

module _ {ℓ} {A : Type ℓ} where
  -- A total preorder.
  pub record IsTotalOrder (cmp : A → A → Ordering) : Type ℓ where
    pub flips : (a b : A) → cmp b a ≡ rev (cmp a b)
    pub trans :
        (a b c : A) → not_gt (cmp a b) ≡ true → not_gt (cmp b c) ≡ true → not_gt (cmp a c) ≡ true

  abbrev pub by_key {κ} : {K : Type κ} → (K → K → Ordering) → (A → K) → A → A → Ordering
  by_key cmp key a b = cmp (key a) (key b)

  abbrev pub descending : (A → A → Ordering) → A → A → Ordering
  descending cmp a b = cmp b a

  abbrev pub lexicographic : (A → A → Ordering) → (A → A → Ordering) → A → A → Ordering
  lexicographic c d a b = and_then (c a b) (d a b)

  abbrev pub compare_option : (A → A → Ordering) → Option A → Option A → Ordering
  compare_option cmp none none = eq
  compare_option cmp none (some b) = lt
  compare_option cmp (some a) none = gt
  compare_option cmp (some a) (some b) = cmp a b

  pub by_key-IsTotalOrder {κ} :
      {K : Type κ} (cmp : K → K → Ordering) (key : A → K)
      → ((a b : K) → cmp b a ≡ rev (cmp a b))
      → ((a b c : K) → not_gt (cmp a b) ≡ true → not_gt (cmp b c) ≡ true → not_gt (cmp a c) ≡ true)
      → IsTotalOrder (by_key cmp key)
  by_key-IsTotalOrder cmp key f t = record {
    flips = λ a b. f (key a) (key b);
    trans = λ a b c. t (key a) (key b) (key c);
  }

  pub descending-IsTotalOrder :
      (cmp : A → A → Ordering) → IsTotalOrder cmp → IsTotalOrder (descending cmp)
  descending-IsTotalOrder cmp o = record {
    flips = λ a b. o.flips b a;
    trans = λ a b c p q. o.trans c b a q p;
  }

  pub lexicographic-IsTotalOrder :
      (c d : A → A → Ordering) → IsTotalOrder c → IsTotalOrder d → IsTotalOrder (lexicographic c d)
  lexicographic-IsTotalOrder c d o p = record {
    flips = λ a b. ground (arith, o.flips a b, p.flips a b);
    trans = λ x y z h k. ground (
      arith,
      o.flips x y,
      o.flips y z,
      o.flips x z,
      o.trans x y z,
      o.trans y z x,
      o.trans z x y,
      p.trans x y z,
    );
  }

module _ {ℓ} {A : Type ℓ} where
  pub compare_option-IsTotalOrder :
      (cmp : A → A → Ordering) → IsTotalOrder cmp → IsTotalOrder (compare_option cmp)
  compare_option-IsTotalOrder cmp o = record { flips = flips; trans = trans }
    where
      flips : (a b : Option A) → compare_option cmp b a ≡ rev (compare_option cmp a b)
      flips none none = refl
      flips none (some b) = refl
      flips (some a) none = refl
      flips (some a) (some b) = o.flips a b

      trans :
          (a b c : Option A)
          → not_gt (compare_option cmp a b) ≡ true
          → not_gt (compare_option cmp b c) ≡ true
          → not_gt (compare_option cmp a c) ≡ true
      trans none b none h k = refl
      trans none b (some c) h k = refl
      trans (some a) none c h k = cc
      trans (some a) (some b) none h k = cc
      trans (some a) (some b) (some c) h k = o.trans a b c h k

pub compare_ℕ-IsTotalOrder : IsTotalOrder compare_ℕ
compare_ℕ-IsTotalOrder = record { flips = λ a b. ground arith; trans = λ a b c h k. ground arith }

compare_str_flips : (s t : String) → compare_str t s ≡ rev (compare_str s t)
compare_str_flips String.[] String.[] = ground (arith, compare.nil-nil)
compare_str_flips String.[] (String.◌∷◌ d t) =
    ground (arith, compare.nil-cons d t, compare.cons-nil d t)
compare_str_flips (String.◌∷◌ c s) String.[] =
    ground (arith, compare.nil-cons c s, compare.cons-nil c s)
compare_str_flips (String.◌∷◌ c s) (String.◌∷◌ d t) =
    ground (arith, compare.cons-cons c d s t, compare.cons-cons d c t s, compare_str_flips s t)

compare_str_trans :
    (s t u : String)
    → not_gt (compare_str s t) ≡ true
    → not_gt (compare_str t u) ≡ true
    → not_gt (compare_str s u) ≡ true
compare_str_trans String.[] t String.[] h k = ground (arith, compare.nil-nil)
compare_str_trans String.[] t (String.◌∷◌ e u) h k = ground (arith, compare.nil-cons e u)
compare_str_trans (String.◌∷◌ c s) String.[] u h k = ground (arith, compare.cons-nil c s)
compare_str_trans (String.◌∷◌ c s) (String.◌∷◌ d t) String.[] h k =
    ground (arith, compare.cons-nil d t)
compare_str_trans (String.◌∷◌ c s) (String.◌∷◌ d t) (String.◌∷◌ e u) h k = ground (
  arith,
  compare.cons-cons c d s t,
  compare.cons-cons d e t u,
  compare.cons-cons c e s u,
  compare_str_trans s t u,
)

pub compare_str-IsTotalOrder : IsTotalOrder compare_str
compare_str-IsTotalOrder = record { flips = compare_str_flips; trans = compare_str_trans }

-- What compares as equal is equal.
pub compare_option-eq : (a b : Option String) → compare_option compare_str a b ≡ eq → a ≡ b
compare_option-eq none none h = refl
compare_option-eq none (some b) h = cc
compare_option-eq (some a) none h = cc
compare_option-eq (some a) (some b) h = ap some (path_by_compare a b h)

-- Neither is after the other.
pub eq_of_both : (o : Ordering) → not_gt o ≡ true → not_gt (rev o) ≡ true → o ≡ eq
eq_of_both lt h k = cc
eq_of_both eq h k = refl
eq_of_both gt h k = cc

pub and_then-eq : (o p : Ordering) → and_then o p ≡ eq → (o ≡ eq) × (p ≡ eq)
and_then-eq lt p h = cc
and_then-eq eq p h = (refl, h)
and_then-eq gt p h = cc
