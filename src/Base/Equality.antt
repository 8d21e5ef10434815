-- ===== src/Base/Equality.antt =====
-- `PartialEq` and `PartialEq`: a Boolean test that decides equality.
use mathlib.Core.Path.{◌≡◌, refl}
use mathlib.Core.Logic.{◌↔◌, inl, inr}
use mathlib.Core.Bool.{Bool, true, false, ◌&&◌, ◌||◌}
use mathlib.Core.Option.{Option, none, some}
use mathlib.Core.List.{List, [], ◌∷◌, ◌++◌}
use native.Mathlib.Omega.{arith}
use Prim.Native.Nat.{ℕ, ◌≤◌, ◌+◌}
use Prim.Native.String.{String}
use text.Mathlib.Text.{◌==◌ as str_eq}
use text.Mathlib.TextEquality.{eq_iff}
use synchrotron.Base.Tests.{nat_eq, nat_eq_iff, if◌then◌else◌, Bool-cases}
use synchrotron.Base.Lists.{length, length-append}

pub record PartialEq {ℓ} (A : Type ℓ) : Type ℓ where
  pub tests : A → A → Bool
  pub decides : (a b : A) → (tests a b ≡ true) ↔ (a ≡ b)

abbrev pub ◌==◌ {ℓ} : {A : Type ℓ} ⦃self : PartialEq A⦄ → A → A → Bool
◌==◌ ⦃self⦄ a b = self.tests a b

infix 50 ◌==◌
instance abbrev pub String_eq : PartialEq String
String_eq = record { tests = str_eq; decides = eq_iff }

abbrev pub option_beq {ℓ} : {A : Type ℓ} ⦃e : PartialEq A⦄ → Option A → Option A → Bool
option_beq none none = true
option_beq (some a) (some b) = a == b
option_beq _ _ = false

pub option_beq_iff {ℓ} :
    {A : Type ℓ} ⦃e : PartialEq A⦄ (a b : Option A) → (option_beq a b ≡ true) ↔ (a ≡ b)
option_beq_iff none none = ground arith
option_beq_iff ⦃e⦄ (some a) (some b) = ground (arith, e.decides a b)
option_beq_iff none (some b) = ground arith
option_beq_iff (some a) none = ground arith

instance abbrev pub ℕ_eq : PartialEq ℕ
ℕ_eq = record { tests = nat_eq; decides = nat_eq_iff }

abbrev pub bool_beq : Bool → Bool → Bool
bool_beq true true = true
bool_beq false false = true
bool_beq _ _ = false

pub bool_beq_iff : (a b : Bool) → (bool_beq a b ≡ true) ↔ (a ≡ b)
bool_beq_iff a b = ground arith

instance abbrev pub Bool_eq : PartialEq Bool
Bool_eq = record { tests = bool_beq; decides = bool_beq_iff }

instance abbrev pub Option_eq {ℓ} : {A : Type ℓ} ⦃e : PartialEq A⦄ → PartialEq (Option A)
Option_eq = record { tests = option_beq; decides = option_beq_iff }

abbrev pub list_beq {ℓ} : {A : Type ℓ} ⦃e : PartialEq A⦄ → List A → List A → Bool
list_beq [] [] = true
list_beq (a ∷ l) (b ∷ r) = a == b && list_beq l r
list_beq _ _ = false

pub list_beq_iff {ℓ} :
    {A : Type ℓ} ⦃e : PartialEq A⦄ (l r : List A) → (list_beq l r ≡ true) ↔ (l ≡ r)
list_beq_iff [] [] = ground arith
list_beq_iff [] (b ∷ r) = ground arith
list_beq_iff (a ∷ l) [] = ground arith
list_beq_iff ⦃e⦄ (a ∷ l) (b ∷ r) = ground (arith, e.decides a b, list_beq_iff l r)

instance abbrev pub List_eq {ℓ} : {A : Type ℓ} ⦃e : PartialEq A⦄ → PartialEq (List A)
List_eq = record { tests = list_beq; decides = list_beq_iff }

abbrev pub pair_beq {ℓ κ} :
    {A : Type ℓ} {B : Type κ} ⦃e : PartialEq A⦄ ⦃f : PartialEq B⦄ → A × B → A × B → Bool
pair_beq (a, b) (c, d) = a == c && b == d

pub pair_beq_iff {ℓ κ} :
    {A : Type ℓ} {B : Type κ} ⦃e : PartialEq A⦄ ⦃f : PartialEq B⦄ (p q : A × B)
    → (pair_beq p q ≡ true) ↔ (p ≡ q)
pair_beq_iff ⦃e⦄ ⦃f⦄ (a, b) (c, d) = ground (arith, e.decides a c, f.decides b d)

instance abbrev pub Pair_eq {ℓ κ} :
    {A : Type ℓ} {B : Type κ} ⦃e : PartialEq A⦄ ⦃f : PartialEq B⦄ → PartialEq (A × B)
Pair_eq = record { tests = pair_beq; decides = pair_beq_iff }

module _ {ℓ} {A : Type ℓ} ⦃e : PartialEq A⦄ where
  pub eq_self : (a : A) → (a == a) ≡ true
  eq_self a = (e.decides a a).1 refl

  pub eq_symm : (a b : A) → (a == b) ≡ (b == a)
  eq_symm a b = ground (arith, e.decides a b, e.decides b a)

  -- `iter().any(|x| x == a)`
  abbrev pub contains : List A → A → Bool
  contains [] a = false
  contains (x ∷ xs) a = x == a || contains xs a

  -- `HashSet::insert`, on a list that holds each element once
  unfoldable pub set_insert : List A → A → List A
  set_insert xs a = if contains xs a then xs else xs ++ a ∷ []

  -- `HashSet::remove`
  unfoldable pub set_remove : List A → A → List A
  set_remove [] a = []
  set_remove (x ∷ xs) a = let rest = set_remove xs a in if x == a then rest else x ∷ rest

  abbrev pub Distinct : List A → Type 0
  Distinct [] = Unit {0}
  Distinct (x ∷ xs) = (contains xs x ≡ false) × Distinct xs

  pub contains-append :
      (xs ys : List A) (a : A) → contains (xs ++ ys) a ≡ (contains xs a || contains ys a)
  contains-append [] ys a = refl
  contains-append (x ∷ xs) ys a = ground (arith, contains-append xs ys a)

  pub contains-set_remove :
      (xs : List A) (a b : A)
      → contains (set_remove xs a) b ≡ (if a == b then false else contains xs b)
  unfolding set_remove
  contains-set_remove [] a b = ground arith
  contains-set_remove (x ∷ xs) a b =
      ground (arith, contains-set_remove xs a b, e.decides x a, e.decides x b, e.decides a b)

  pub contains-set_insert :
      (xs : List A) (a b : A) → contains (set_insert xs a) b ≡ (a == b || contains xs b)
  unfolding set_insert
  contains-set_insert xs a b = ground (arith, contains-append xs (a ∷ []) b, e.decides a b)

  pub append-Distinct :
      (xs : List A) (a : A) → contains xs a ≡ false → Distinct xs → Distinct (xs ++ a ∷ [])
  append-Distinct [] a h d = (refl, tt)
  append-Distinct (x ∷ xs) a h d = (
    ground (arith, contains-append xs (a ∷ []) x, e.decides a x, e.decides x a, h, d.0),
    append-Distinct xs a (ground arith) d.1,
  )

  pub set_remove-Distinct : (xs : List A) (a : A) → Distinct xs → Distinct (set_remove xs a)
  unfolding set_remove
  set_remove-Distinct [] a d = tt
  set_remove-Distinct (x ∷ xs) a d = elim (Bool-cases (x == a)) [
    | inl h ↦ rw h (set_remove-Distinct xs a d.1)
    | inr h ↦ rw h (ground (arith, contains-set_remove xs a x, d.0), set_remove-Distinct xs a d.1)
  ]

  pub length-set_remove-le : (xs : List A) (a : A) → length (set_remove xs a) ≤ length xs
  unfolding set_remove
  length-set_remove-le [] a = omega arith
  length-set_remove-le (x ∷ xs) a = ground (arith, length-set_remove-le xs a)

  pub set_insert-Distinct : (xs : List A) (a : A) → Distinct xs → Distinct (set_insert xs a)
  unfolding set_insert
  set_insert-Distinct xs a d = elim (Bool-cases (contains xs a)) [
    | inl h ↦ rw h d
    | inr h ↦ rw h (append-Distinct xs a h d)
  ]

  pub length-set_insert-le : (xs : List A) (a : A) → length (set_insert xs a) ≤ length xs + 1
  unfolding set_insert
  length-set_insert-le xs a = ground (arith, length-append xs (a ∷ []))
