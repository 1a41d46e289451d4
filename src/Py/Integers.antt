-- ===== src/Py/Integers.antt =====
-- Comparison of natural numbers as Python values.
use native.Mathlib.Nat.{mul-le-mul_left, mul-lt-mul_of_pos_left, one-le-pow}
use protocol_c.Prelude.{
  ℕ, ◌+◌, ◌*◌, ◌^◌, ◌≤◌, ◌<◌, ◌≡◌, ap, ap₂, ◌∙◌, Bool, true, ltb, leb, ◌==◌, if◌then◌else◌, arith,
  ◌⊎◌, inl, inr,
}
use protocol_c.Prelude.Int.{ℤ, pos, scale, pos_part, neg_part}
use protocol_c.Py.Result.{ok}
use protocol_c.Py.Value.{int}
use protocol_c.Py.Number.{fin, of_int, as_number, num_lt, num_eq, num_le}
use protocol_c.Py.Compare.{order, order_number, py_eq, py_lt, py_le}

scale-pos : (k n : ℕ) → scale k (pos n) ≡ pos (k * n)
scale-pos k n = grind arith

lt-or-le : (a b : ℕ) → (a < b) ⊎ (b ≤ a)
lt-or-le a b = ground arith

ltb-scaled : (k a b : ℕ) → 0 < k → ltb (k * a + 0) (k * b + 0) ≡ ltb a b
ltb-scaled k a b h = elim (lt-or-le a b) [
  | inl less ↦ ground (arith, mul-lt-mul_of_pos_left less h)
  | inr more ↦ ground (arith, mul-le-mul_left k more)
]

eqb-scaled : (k a b : ℕ) → 0 < k → (k * a + 0 == k * b + 0) ≡ (a == b)
eqb-scaled k a b h = elim (lt-or-le a b) [
  | inl less ↦ ground (arith, mul-lt-mul_of_pos_left less h)
  | inr more ↦ elim (lt-or-le b a) [
    | inl less ↦ ground (arith, mul-lt-mul_of_pos_left less h)
    | inr same ↦ let equal : a ≡ b = omega (arith, more, same) in ground (arith, equal)
  ]
]

num_lt-of_int :
    (k a b : ℕ) → 0 < k → num_lt (fin (scale k (pos a))) (fin (scale k (pos b))) ≡ ltb a b
unfolding num_lt
num_lt-of_int k a b h =
    ap₂ (λ (x y : ℤ). num_lt (fin x) (fin y)) (scale-pos k a) (scale-pos k b) ∙ ltb-scaled k a b h

num_eq-of_int :
    (k a b : ℕ) → 0 < k → num_eq (fin (scale k (pos a))) (fin (scale k (pos b))) ≡ (a == b)
unfolding num_eq
num_eq-of_int k a b h =
    ap₂ (λ (x y : ℤ). num_eq (fin x) (fin y)) (scale-pos k a) (scale-pos k b) ∙ eqb-scaled k a b h

leb_lem : (a b : ℕ) → (if ltb a b then true else a == b) ≡ leb a b
leb_lem a b = ground arith

-- `a < b` on natural numbers
pub py_lt-pos : (a b : ℕ) → py_lt (int (pos a)) (int (pos b)) ≡ ok (ltb a b)
unfolding order order_number as_number of_int
py_lt-pos a b = ap ok (num_lt-of_int (2 ^ 1074) a b (one-le-pow 1074 2 (omega arith)))

-- `a <= b` on natural numbers
pub py_le-pos : (a b : ℕ) → py_le (int (pos a)) (int (pos b)) ≡ ok (leb a b)
unfolding order order_number as_number of_int num_le
py_le-pos a b = ap ok (
    ap₂ (λ (x y : Bool). if x then true else y)
      (num_lt-of_int (2 ^ 1074) a b (one-le-pow 1074 2 (omega arith)))
      (num_eq-of_int (2 ^ 1074) a b (one-le-pow 1074 2 (omega arith)))
    ∙ leb_lem a b)

eqb_same : (n : ℕ) → (n == n) ≡ true
eqb_same n = ground arith

-- An int equals itself.
pub py_eq-int : (z : ℤ) → py_eq (int z) (int z) ≡ true
unfolding py_eq as_number of_int num_eq
py_eq-int z = let s = scale (2 ^ 1074) z in eqb_same (pos_part s + neg_part s)
