-- ===== src/Pool/Depth.antt =====
-- The summed length of the queues of crates/synchrotron-reconcile/src/worker_pool.rs.
use text.Mathlib.TextEquality.{eq_iff}
use synchrotron.Base.{
  ℕ, ◌+◌, ◌≡◌, refl, inl, inr, true, false, List, [], ◌∷◌, String, ◌==◌, String_eq, arith, length,
  Bool-cases,
}
use synchrotron.Base.Map.{Map, get, insert, remove, contains_key, KeysNodup}
use synchrotron.Pool.{JobCtx, or_default}

unfoldable pub total : Map String (List JobCtx) → ℕ
total [] = 0
total ((a, q) ∷ m) = length q + total m

pub total-insert :
    (m : Map String (List JobCtx)) (a : String) (q : List JobCtx)
    → total (insert m a q) + length (or_default (get m a)) ≡ total m + length q
unfolding total insert get
total-insert [] a q = omega arith
total-insert ((b, r) ∷ m) a q = ground (arith, total-insert m a q)

total-remove_absent :
    (m : Map String (List JobCtx)) (a : String)
    → contains_key m a ≡ false
    → total (remove m a) ≡ total m
unfolding total remove get
total-remove_absent [] a h = refl
total-remove_absent ((b, r) ∷ m) a h = ground (arith, total-remove_absent m a)

pub total-remove :
    (m : Map String (List JobCtx)) (a : String)
    → KeysNodup m
    → total (remove m a) + length (or_default (get m a)) ≡ total m
unfolding total remove get
total-remove [] a u = omega arith
total-remove ((b, r) ∷ m) a u = elim (Bool-cases (b == a)) [
  | inl h ↦ rw h (omega (arith, total-remove_absent m a (rw (eq_of b a h) at u.0)))
  | inr h ↦ rw h (omega (arith, total-remove m a u.1))
]
  where
    eq_of : (b a : String) → (b == a) ≡ true → b ≡ a
    eq_of b a h = (eq_iff b a).0 h
