-- ===== src/Curve/Inverse.antt =====
-- The modular inverse by Fermat's little theorem.
use native.Mathlib.Nat.{pow-suc, mod-lt}
use protocol_c.Prelude.{ℕ, suc, ◌-◌, ◌*◌, ◌%◌, ◌^◌, ◌<◌, ◌≡◌, ◌≢◌, sym, ap, ◌∙◌, arith}
use protocol_c.Prelude.Mod.{mod-mul-mod, mul-mod-mod}
use protocol_c.Py.Result.{ok}
use protocol_c.Curve.Power.{pow_mod_lem}
use protocol_c.Curve.{modinv}

-- What Fermat's little theorem says of a prime `n`, and what `_modinv` asks of its modulus.
pub record IsFermat (n : ℕ) : Type 0 where
  pub above_one : 1 < n
  pub fermat : (a : ℕ) → 0 < a → a < n → a ^ (n - 1) % n ≡ 1

module _ {n : ℕ} (h : IsFermat n) where
  unfoldable pub inverse : ℕ → ℕ
  inverse a = (a % n) ^ (n - 2) % n

  modinv-inverse : (a : ℕ) → a % n ≢ 0 → modinv a n ≡ ok (inverse a)
  unfolding modinv inverse
  modinv-inverse a ne = ground (arith, pow_mod_lem (a % n) (n - 2) n)

  pub inverse_mul : (a : ℕ) → a % n ≢ 0 → inverse a * a % n ≡ 1
  unfolding inverse
  inverse_mul a ne =
      let p : 0 < n = omega (arith, h.above_one) in
      let step : suc (n - 2) ≡ n - 1 = omega (arith, h.above_one) in
      mod-mul-mod n ((a % n) ^ (n - 2)) a
      ∙ sym (mul-mod-mod n ((a % n) ^ (n - 2)) a)
      ∙ ap (λ (t : ℕ). t % n) (sym (pow-suc (a % n) (n - 2)))
      ∙ ap (λ (t : ℕ). (a % n) ^ t % n) step
      ∙ h.fermat (a % n) (omega arith) (mod-lt a p)

  -- For a modulus that satisfies Fermat's little theorem and an operand that is no multiple of
  -- it, `_modinv` returns a number below the modulus whose product with the operand leaves 1.
  pub modinv_lem : (a : ℕ) → a % n ≢ 0 → (i : ℕ) × (modinv a n ≡ ok i) × (i < n) × (i * a % n ≡ 1)
  modinv_lem a ne =
      let p : 0 < n = omega (arith, h.above_one) in
      (inverse a, modinv-inverse a ne, unfold inverse in mod-lt _ p, inverse_mul a ne)
