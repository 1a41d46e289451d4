-- ===== src/Curve/Cyclic.antt =====
-- Multiples of a point, and what the scalar multiplication computes.
use native.Mathlib.Nat.{
  div-add-mod, mod-lt, mod-eq_of_lt, add-mul-mod_self_left, pow-suc, mod-one, one-le-pow, zero-mod,
}
use protocol_c.Prelude.{
  ℕ, zero, suc, ◌+◌, ◌*◌, ◌/◌, ◌%◌, ◌^◌, ◌≤◌, ◌<◌, ◌≡◌, refl, sym, ap, ap₂, ◌∙◌, true, false, none,
  some, arith, Bool-cases, inl, inr, ◌==◌,
}
use protocol_c.Prelude.Int.{ℤ, pos, negsuc, eqb_ℤ, residue}
use protocol_c.Py.Result.{ok, err, value_error}
use protocol_c.Curve.{
  Curve, Point, MaybePoint, modinv, tangent_slope, point_add, point_double, ladder_step, ladder,
  point_mul,
}

pub eqb_ℤ_refl : (z : ℤ) → eqb_ℤ z z ≡ true
eqb_ℤ_refl z = ground arith

pub modinv-zero : (a m : ℕ) → a % m ≡ 0 → modinv a m ≡ err value_error
unfolding modinv
modinv-zero a m h = ground arith

residue-zero : (m : ℕ) (z : ℤ) → eqb_ℤ z (pos 0) ≡ true → (2 * residue m z) % m ≡ 0
residue-zero m (pos n) h = let e : n ≡ 0 = ground arith in rw (e, zero-mod m) (zero-mod m)
residue-zero m (negsuc n) h = ground arith

module _ (c : Curve) where
  tangent_slope_flat : (q : Point) → eqb_ℤ q.y (pos 0) ≡ true → tangent_slope c q ≡ err value_error
  unfolding tangent_slope
  tangent_slope_flat q h = rw (modinv-zero (2 * residue c.p q.y) c.p (residue-zero c.p q.y h)) refl

  -- A point of order 2 is not doubled by `_point_add`.
  pub point_add-flat :
      (q : Point) → eqb_ℤ q.y (pos 0) ≡ true → point_add c (some q) (some q) ≡ err value_error
  unfolding point_add
  point_add-flat q flat = ground (arith, tangent_slope_flat q flat, eqb_ℤ_refl q.x, eqb_ℤ_refl q.y)

  -- Where `_point_add` of a point and itself returns, `_point_double` returns the same.
  pub double-eq-add :
      (q : MaybePoint) {r : MaybePoint} → point_add c q q ≡ ok r → point_double c q ≡ ok r
  unfolding point_add point_double
  double-eq-add none h = h
  double-eq-add (some q) h = elim (Bool-cases (eqb_ℤ q.y (pos 0))) [
    | inl flat ↦ ground (arith, tangent_slope_flat q flat, eqb_ℤ_refl q.x, eqb_ℤ_refl q.y)
    | inr steep ↦ ground (arith, eqb_ℤ_refl q.x, eqb_ℤ_refl q.y)
  ]

  -- `g i` is the `i`-th multiple of `g 1`, as the code's addition has it.
  pub record IsMultiples (g : ℕ → MaybePoint) : Type 0 where
    pub at_zero : g 0 ≡ none
    pub additive : (i j : ℕ) → point_add c (g i) (g j) ≡ ok (g (i + j))

-- The remainder by twice a number, by the parity of the quotient.
mod_twice : (k w : ℕ) → 0 < w → k % (w * 2) ≡ k / w % 2 * w + k % w
mod_twice k w h =
    ap (λ (t : ℕ). t % (w * 2)) whole
    ∙ add-mul-mod_self_left (k / w % 2 * w + k % w) (w * 2) (k / w / 2)
    ∙ mod-eq_of_lt small
  where
    bit : k / w % 2 ≤ 1
    bit = omega arith

    small : k / w % 2 * w + k % w < w * 2
    small = grind (arith, mod-lt k h, bit)

    whole : k ≡ k / w % 2 * w + k % w + w * 2 * (k / w / 2)
    whole =
        let parity : k / w ≡ 2 * (k / w / 2) + k / w % 2 = omega arith in
        sym (div-add-mod k w) ∙ ap (λ (t : ℕ). w * t + k % w) parity ∙ grind arith

-- One more bit: the multiple that the accumulator stands for.
next_multiple :
    (k i m b : ℕ)
    → k / 2 ^ i % 2 ≡ b
    → (2 * m + b) * 2 ^ i + k % 2 ^ i ≡ m * 2 ^ suc i + k % 2 ^ suc i
next_multiple k i m b e =
    let p : 0 < 2 ^ i = one-le-pow i 2 (omega arith) in
    rw (pow-suc 2 i, mod_twice k (2 ^ i) p, e) (grind arith)

module _ (c : Curve) {g : ℕ → MaybePoint} (h : IsMultiples c g) where
  pub double-multiple : (i : ℕ) → point_double c (g i) ≡ ok (g (i + i))
  double-multiple i = double-eq-add c (g i) (h.additive i i)

  -- A round goes from the multiples `m` and `m + 1` to the next pair.
  step_zero : (m : ℕ) → ladder_step c false (g m, g (m + 1)) ≡ ok (g (2 * m + 0), g (2 * m + 0 + 1))
  unfolding ladder_step
  step_zero m =
      let e : m + (m + 1) ≡ 2 * m + 0 + 1 = omega arith in
      let d : m + m ≡ 2 * m + 0 = omega arith in rw (h.additive m (m + 1), double-multiple m, e, d)

  step_one : (m : ℕ) → ladder_step c true (g m, g (m + 1)) ≡ ok (g (2 * m + 1), g (2 * m + 1 + 1))
  unfolding ladder_step
  step_one m =
      let e : m + (m + 1) ≡ 2 * m + 1 = omega arith in
      let d : m + 1 + (m + 1) ≡ 2 * m + 1 + 1 = omega arith in
      rw (h.additive m (m + 1), double-multiple (m + 1), e, d)

  -- After the rounds for the bits below `i`, the first accumulator has taken them in.
  ladder_lem : (i k m : ℕ) → ladder c i k (g m, g (m + 1)) ≡ ok (g (m * 2 ^ i + k % 2 ^ i))
  unfolding ladder
  ladder_lem zero k m =
      let e : m * 2 ^ 0 + k % 2 ^ 0 ≡ m = rw mod-one (omega arith) in
      ap (λ (t : ℕ). ok (g t)) (sym e)
  ladder_lem (suc i) k m = elim (Bool-cases (k / 2 ^ i % 2 == 1)) [
    | inl one ↦
        rw (one, step_one m)
          (ladder_lem i k (2 * m + 1)
            ∙ ap (λ (t : ℕ). ok (g t)) (next_multiple k i m 1 (ground arith)))
    | inr other ↦
        rw (other, step_zero m)
          (ladder_lem i k (2 * m + 0)
            ∙ ap (λ (t : ℕ). ok (g t)) (next_multiple k i m 0 (ground arith)))
  ]

  -- If `g 0` is infinity and `_point_add` takes `g i` and `g j` to `g (i + j)`, then `_point_mul`
  -- takes every `k` below 2 ^ 256 and `g 1` to `g k`.
  pub point_mul_lem : (k : ℕ) → k < 2 ^ 256 → point_mul c k (g 1) ≡ ok (g k)
  unfolding point_mul
  point_mul_lem k small =
      ap₂ (λ (p q : MaybePoint). ladder c 256 k (p, q)) (sym h.at_zero) refl
      ∙ ladder_lem 256 k 0
      ∙ ap (λ (t : ℕ). ok (g t)) (omega arith)
