-- ===== src/Tests/Tiny.antt =====
-- A small curve of the program's shape, y ^ 2 = x ^ 3 + 7 modulo 43, whose group has 31 points. Its
-- group law is checked by computing every sum with the code's addition.
use protocol_c.Prelude.{
  ℕ, zero, suc, ◌+◌, ◌%◌, ◌^◌, ◌<◌, ◌≡◌, refl, ap, ap₂, ◌∙◌, Bool, true, false, ◌&&◌, none, some,
  List, [], ◌∷◌, ◌==◌, ==_iff, arith,
}
use protocol_c.Prelude.Int.{ℤ, pos, negsuc}
use protocol_c.Py.Result.{Result, ok, err}
use protocol_c.Curve.{Curve, MaybePoint, point_add}
use protocol_c.Curve.Inverse.{IsFermat}
use protocol_c.Curve.Order.{IsGroup}

abbrev pub tiny : Curve
tiny = record { p = 43; n = 31; gx = 2; gy = 12; a = 0; b = 7 }

abbrev at : ℕ → ℕ → MaybePoint
at x y = some (record { x = pos x; y = pos y })

abbrev pub table : List MaybePoint
table =
    none
    ∷ at 2 12
    ∷ at 7 7
    ∷ at 35 21
    ∷ at 21 18
    ∷ at 12 12
    ∷ at 29 31
    ∷ at 25 18
    ∷ at 32 40
    ∷ at 20 40
    ∷ at 42 7
    ∷ at 40 25
    ∷ at 37 36
    ∷ at 13 21
    ∷ at 34 40
    ∷ at 38 21
    ∷ at 38 22
    ∷ at 34 3
    ∷ at 13 22
    ∷ at 37 7
    ∷ at 40 18
    ∷ at 42 36
    ∷ at 20 3
    ∷ at 32 3
    ∷ at 25 25
    ∷ at 29 12
    ∷ at 12 31
    ∷ at 21 25
    ∷ at 35 22
    ∷ at 7 36
    ∷ at 2 31
    ∷ []

abbrev pub entry : List MaybePoint → ℕ → MaybePoint
entry [] i = none
entry (q ∷ qs) zero = q
entry (q ∷ qs) (suc i) = entry qs i

abbrev pub multiple : ℕ → MaybePoint
multiple i = entry table (i % 31)

-- Whether a test passes on every number under a bound.
unfoldable pub passes_under : (ℕ → Bool) → ℕ → Bool
passes_under test zero = true
passes_under test (suc bound) = passes_under test bound && test bound

pub passes_at :
    (test : ℕ → Bool) (bound i : ℕ) → i < bound → passes_under test bound ≡ true → test i ≡ true
unfolding passes_under
passes_at test zero i under passed = absurd (omega arith)
passes_at test (suc bound) i under passed = ground (arith, passes_at test bound i)

same_int : ℤ → ℤ → Bool
same_int (pos a) (pos b) = a == b
same_int (pos a) (negsuc b) = false
same_int (negsuc a) b = false

same_point : MaybePoint → MaybePoint → Bool
unfolding same_int
same_point none none = true
same_point none (some r) = false
same_point (some q) none = false
same_point (some q) (some r) = same_int q.x r.x && same_int q.y r.y

is_ok_of : Result MaybePoint → MaybePoint → Bool
unfolding same_point
is_ok_of (ok q) r = same_point q r
is_ok_of (err e) r = false

same_int_sound : (a b : ℤ) → same_int a b ≡ true → a ≡ b
unfolding same_int
same_int_sound (pos a) (pos b) h = ground arith
same_int_sound (pos a) (negsuc b) h = cc
same_int_sound (negsuc a) b h = cc

same_point_sound : (q r : MaybePoint) → same_point q r ≡ true → q ≡ r
unfolding same_point
same_point_sound none none h = refl
same_point_sound none (some r) h = cc
same_point_sound (some q) none h = cc
same_point_sound (some q) (some r) h =
    ground (arith, same_int_sound q.x r.x, same_int_sound q.y r.y)

is_ok_of_sound : (m : Result MaybePoint) (r : MaybePoint) → is_ok_of m r ≡ true → m ≡ ok r
unfolding is_ok_of
is_ok_of_sound (ok q) r h = ap ok (same_point_sound q r h)
is_ok_of_sound (err e) r h = cc

abbrev sum_checked : ℕ → ℕ → Bool
sum_checked i j = is_ok_of (point_add tiny (multiple i) (multiple j)) (multiple (i + j))

sums_checked : passes_under (λ i. passes_under (λ j. sum_checked i j) 31) 31 ≡ true
unfolding passes_under is_ok_of point_add
sums_checked = refl

sum_checked_lem : (a b : ℕ) → a < 31 → b < 31 → sum_checked a b ≡ true
sum_checked_lem a b ha hb =
    passes_at (λ j. sum_checked a j) 31 b hb
      (passes_at (λ i. passes_under (λ j. sum_checked i j) 31) 31 a ha sums_checked)

mod-twice : (i : ℕ) → i % 31 ≡ i % 31 % 31
mod-twice i = omega arith

remainder : (i j : ℕ) → (i % 31 + j % 31) % 31 ≡ (i + j) % 31
remainder i j = omega arith

tiny_additive : (i j : ℕ) → point_add tiny (multiple i) (multiple j) ≡ ok (multiple (i + j))
tiny_additive i j =
    ap₂ (λ (a b : ℕ). point_add tiny (entry table a) (entry table b)) (mod-twice i) (mod-twice j)
    ∙ is_ok_of_sound _ _ (sum_checked_lem (i % 31) (j % 31) (omega arith) (omega arith))
    ∙ ap (λ (t : ℕ). ok (entry table t)) (remainder i j)

powers_checked : passes_under (λ a. suc a ^ 30 % 31 == 1) 30 ≡ true
unfolding passes_under
powers_checked = refl

fermat_at : (a : ℕ) → 0 < a → a < 31 → a ^ 30 % 31 ≡ 1
fermat_at zero lo hi = absurd (omega arith)
fermat_at (suc a) lo hi =
    (==_iff (suc a ^ 30 % 31) 1).0
      (passes_at (λ a. suc a ^ 30 % 31 == 1) 30 a (omega arith) powers_checked)

tiny-IsFermat : IsFermat 31
tiny-IsFermat = record { above_one = omega arith; fermat = λ a lo hi. fermat_at a lo hi }

pub tiny-IsGroup : IsGroup tiny multiple
tiny-IsGroup = record {
  multiples = record { at_zero = refl; additive = tiny_additive };
  at_one = refl;
  at_order = refl;
  prime = tiny-IsFermat;
  fits = omega arith;
}
