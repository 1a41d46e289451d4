-- ===== src/Prelude/Mod.antt =====
-- Arithmetic modulo `m` on the native numbers.
use Prim.Native.Nat.{ℕ, zero, suc, ◌+◌, ◌*◌, ◌/◌, ◌%◌, ◌^◌, ◌<◌}
use mathlib.Core.Path.{◌≡◌, sym, ◌∙◌, ap, ap₂}
use native.Mathlib.Omega.{arith}
use native.Mathlib.Nat.{
  add-mul-mod_self_left, add-mod, mod-mod, pow-zero, pow-suc, mul_comm, mod-add-div, mod-eq_of_lt,
}

-- Two numbers with one remainder.
abbrev pub Cong : ℕ → ℕ → ℕ → Type 0
Cong m a b = a % m ≡ b % m

module _ (m : ℕ) where
  pub mod-mul-mod : (a b : ℕ) → (a % m * b) % m ≡ (a * b) % m
  mod-mul-mod a b =
      let split : a * b ≡ a % m * b + m * (a / m * b) =
        grind (arith, ap (λ (t : ℕ). t * b) (mod-add-div a m)) in
      rw split (sym (add-mul-mod_self_left (a % m * b) m (a / m * b)))

  pub mul-mod-mod : (a b : ℕ) → (a * (b % m)) % m ≡ (a * b) % m
  mul-mod-mod a b = rw (mul_comm a (b % m), mul_comm a b) (mod-mul-mod b a)

  pub Cong-mod : (a : ℕ) → Cong m (a % m) a
  Cong-mod a = mod-mod a m

  pub Cong-mul : (a b c d : ℕ) → Cong m a b → Cong m c d → Cong m (a * c) (b * d)
  Cong-mul a b c d p q =
      sym (mod-mul-mod a c)
      ∙ sym (mul-mod-mod (a % m) c)
      ∙ ap₂ (λ (x y : ℕ). (x * y) % m) p q
      ∙ mul-mod-mod (b % m) d
      ∙ mod-mul-mod b d

  pub Cong-add : (a b c d : ℕ) → Cong m a b → Cong m c d → Cong m (a + c) (b + d)
  Cong-add a b c d p q = add-mod a c m ∙ ap₂ (λ (x y : ℕ). (x + y) % m) p q ∙ sym (add-mod b d m)

  pub pow-mod : (a e : ℕ) → Cong m ((a % m) ^ e) (a ^ e)
  pow-mod a zero = ap (λ (t : ℕ). t % m) (pow-zero (a % m) ∙ sym (pow-zero a))
  pow-mod a (suc e) =
      ap (λ (t : ℕ). t % m) (pow-suc (a % m) e)
      ∙ Cong-mul ((a % m) ^ e) (a ^ e) (a % m) a (pow-mod a e) (Cong-mod a)
      ∙ ap (λ (t : ℕ). t % m) (sym (pow-suc a e))

  -- A number below the modulus is its own remainder, so congruent ones are equal.
  pub eq_of_Cong : (a b : ℕ) → a < m → b < m → Cong m a b → a ≡ b
  eq_of_Cong a b h k p = sym (mod-eq_of_lt h) ∙ p ∙ mod-eq_of_lt k
