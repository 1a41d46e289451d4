-- ===== src/Curve/Root.antt =====
-- Square roots modulo the curve's prime, which leaves 3 by 4: the power that `verify_static` takes.
use native.Mathlib.Nat.{
  mod-lt, mod-eq_of_lt, pow-suc, zero-mod, mod_self, mod-add-mod, add-mul-mod_self_left,
}
use protocol_c.Prelude.{
  ℕ, suc, ◌+◌, ◌-◌, ◌*◌, ◌/◌, ◌%◌, ◌^◌, ◌<◌, ◌≡◌, ◌≢◌, ◌⊎◌, inl, inr, refl, sym, ap, ◌∙◌, arith,
  Bool-cases, ◌==◌,
}
use protocol_c.Prelude.Mod.{Cong, Cong-mul, Cong-mod, mul-mod-mod, mod-mul-mod}
use protocol_c.Curve.Power.{pow-add, pow-square}
use protocol_c.Curve.Inverse.{IsFermat, inverse, inverse_mul}

module _ {p : ℕ} (h : IsFermat p) where
  positive : 0 < p
  positive = omega (arith, h.above_one)

  -- A factor that is no multiple of the prime is cancelled.
  pub cancel : (a b : ℕ) → a % p ≢ 0 → a * b % p ≡ 0 → b % p ≡ 0
  cancel a b ne none_left =
      let i = inverse h a in
      let one : Cong p (i * a) 1 = inverse_mul h a ne ∙ sym (mod-eq_of_lt h.above_one) in
      let unit : 1 * b ≡ b = omega arith in
      let regroup : i * a * b ≡ i * (a * b) = grind arith in
      let nothing : i * 0 ≡ 0 = omega arith in
      ap (λ (t : ℕ). t % p) (sym unit)
      ∙ sym (Cong-mul p (i * a) 1 b b one refl)
      ∙ ap (λ (t : ℕ). t % p) regroup
      ∙ sym (mul-mod-mod p i (a * b))
      ∙ ap (λ (t : ℕ). i * t % p) none_left
      ∙ ap (λ (t : ℕ). t % p) nothing
      ∙ zero-mod p

  -- A number whose successor leaves 1.
  mod-one_less : (w : ℕ) → (w + 1) % p ≡ 1 → w % p ≡ 0
  mod-one_less w e = elim (Bool-cases (w % p + 1 == p)) [
    | inl last ↦
        let whole : p ≡ w % p + 1 = ground arith in
        let vanishes : (w % p + 1) % p ≡ 0 = ap (λ (t : ℕ). t % p) (sym whole) ∙ mod_self p in
        absurd (omega (arith, mod-add-mod w p 1, vanishes, e))
    | inr early ↦
        let under : w % p + 1 < p = ground (arith, mod-lt w positive) in
        omega (arith, mod-add-mod w p 1, mod-eq_of_lt under, e)
  ]

  -- The square roots of 1.
  root_of_one : (u : ℕ) → 0 < u → u < p → u * u % p ≡ 1 → (u ≡ 1) ⊎ (u ≡ p - 1)
  root_of_one u lo hi square = elim (Bool-cases (u + 1 == p)) [
    | inl last ↦ inr (ground arith)
    | inr early ↦
        let under : u + 1 < p = ground arith in
        let (v, e) : (v : ℕ) × (u ≡ suc v) = (u - 1, omega arith) in
        let product : (u + 1) * v + 1 ≡ u * u = rw e (grind arith) in
        let left : (u + 1) * v % p ≡ 0 =
          mod-one_less ((u + 1) * v) (ap (λ (t : ℕ). t % p) product ∙ square) in
        let ne : (u + 1) % p ≢ 0 = λ z. omega (arith, mod-eq_of_lt under, z) in
        let small : v < p = omega arith in
        inl (omega (arith, cancel (u + 1) v ne left, mod-eq_of_lt small, e))
  ]

  module _ (y : ℕ) (lo : 0 < y) (hi : y < p) (three : p % 4 ≡ 3) where
    half_power : ℕ
    half_power = y ^ ((p - 1) / 2) % p

    half_power-square : half_power * half_power % p ≡ 1
    unfolding half_power
    half_power-square =
        let halves : (p - 1) / 2 + (p - 1) / 2 ≡ p - 1 = omega arith in
        Cong-mul p half_power (y ^ ((p - 1) / 2)) half_power (y ^ ((p - 1) / 2))
          (Cong-mod p (y ^ ((p - 1) / 2))) (Cong-mod p (y ^ ((p - 1) / 2)))
        ∙ ap (λ (t : ℕ). t % p) (sym (pow-add y ((p - 1) / 2) ((p - 1) / 2)))
        ∙ ap (λ (t : ℕ). y ^ t % p) halves
        ∙ h.fermat y lo hi

    -- The power of a square, by the half power.
    root_power : (y * y) ^ ((p + 1) / 4) % p ≡ half_power * y % p
    unfolding half_power
    root_power =
        let exponent : 2 * ((p + 1) / 4) ≡ suc ((p - 1) / 2) = omega arith in
        ap (λ (t : ℕ). t % p)
          (pow-square y ((p + 1) / 4) ∙ ap (λ (t : ℕ). y ^ t) exponent ∙ pow-suc y ((p - 1) / 2))
        ∙ sym (mod-mul-mod p (y ^ ((p - 1) / 2)) y)

    half_power-cases : (half_power ≡ 1) ⊎ (half_power ≡ p - 1)
    half_power-cases =
        root_of_one half_power
          (elim (Bool-cases (half_power == 0)) [
            | inl zero_power ↦
                let none_left : half_power ≡ 0 = ground arith in
                absurd (
                  omega (
                    arith,
                    sym half_power-square ∙ ap (λ (t : ℕ). t * t % p) none_left ∙ zero-mod p,
                  ))
            | inr some_power ↦ ground arith
          ])
          (unfold half_power in mod-lt _ positive) half_power-square

    opposite_mul : (p - 1) * y % p ≡ p - y
    opposite_mul =
        let (q, e) : (q : ℕ) × (p ≡ suc q) = (p - 1, omega arith) in
        let (z, e') : (z : ℕ) × (y ≡ suc z) = (y - 1, omega arith) in
        let product : (p - 1) * y + y ≡ p * z + p = rw e' (rw e (grind arith)) in
        let split : (p - 1) * y ≡ (p - y) + p * z = omega (arith, product) in
        ap (λ (t : ℕ). t % p) split ∙ add-mul-mod_self_left (p - y) p z ∙ mod-eq_of_lt (omega arith)

    -- For a prime that leaves 3 by 4, the power `(p + 1) / 4` of the square of `y` is `y` or its
    -- opposite.
    pub square_root_lem : ((y * y) ^ ((p + 1) / 4) % p ≡ y) ⊎ ((y * y) ^ ((p + 1) / 4) % p ≡ p - y)
    square_root_lem = elim half_power-cases [
      | inl one ↦ inl (
          root_power
          ∙ ap (λ (t : ℕ). t * y % p) one
          ∙ ap (λ (t : ℕ). t % p) (omega arith)
          ∙ mod-eq_of_lt hi)
      | inr minus ↦ inr (root_power ∙ ap (λ (t : ℕ). t * y % p) minus ∙ opposite_mul)
    ]
