-- ===== src/Curve/Power.antt =====
-- `pow(a, e, m)`: Python's modular power, and its value.
use native.Mathlib.Nat.{pow-zero, pow-suc, mul_comm}
use protocol_c.Prelude.{
  ℕ, zero, suc, ◌+◌, ◌*◌, ◌/◌, ◌%◌, ◌^◌, ◌≤◌, ◌≡◌, ◌≢◌, sym, ap, ◌∙◌, ◌==◌, if◌then◌else◌, arith,
  Bool-cases, inl, inr,
}
use protocol_c.Prelude.Mod.{mul-mod-mod, pow-mod}

-- By the binary digits of the exponent, which at most halves each time: `e` rounds are enough.
pow_rounds : ℕ → ℕ → ℕ → ℕ → ℕ
pow_rounds zero a e m = 1 % m
pow_rounds (suc f) a e m =
    let rest = pow_rounds f (a * a % m) (e / 2) m in
    if e == 0 then 1 % m else if e % 2 == 0 then rest else a * rest % m

unfoldable pub pow_mod : ℕ → ℕ → ℕ → ℕ
unfolding pow_rounds
pow_mod a e m = pow_rounds e a e m

pub pow-add : (a i j : ℕ) → a ^ (i + j) ≡ a ^ i * a ^ j
pow-add a i zero = let e : i + 0 ≡ i = omega arith in rw (e, pow-zero a) (omega arith)
pow-add a i (suc j) =
    let e : i + suc j ≡ suc (i + j) = omega arith in
    rw (e, pow-suc a (i + j), pow-suc a j, pow-add a i j) (grind arith)

pub pow-square : (a h : ℕ) → (a * a) ^ h ≡ a ^ (2 * h)
pow-square a zero = pow-zero (a * a) ∙ sym (pow-zero a)
pow-square a (suc h) =
    let e : 2 * suc h ≡ suc (suc (2 * h)) = omega arith in
    rw (e, pow-suc (a * a) h, pow-suc a (suc (2 * h)), pow-suc a (2 * h), pow-square a h)
      (grind arith)

-- An exponent by its half: the two rounds of the algorithm.
pow_even : (a e : ℕ) → e % 2 ≡ 0 → (a * a) ^ (e / 2) ≡ a ^ e
pow_even a e h =
    let e' : 2 * (e / 2) ≡ e = omega arith in pow-square a (e / 2) ∙ ap (λ (t : ℕ). a ^ t) e'

pow_odd : (a e : ℕ) → e % 2 ≢ 0 → a * (a * a) ^ (e / 2) ≡ a ^ e
pow_odd a e h =
    let e' : suc (2 * (e / 2)) ≡ e = omega arith in
    ap (λ (t : ℕ). a * t) (pow-square a (e / 2))
    ∙ mul_comm a (a ^ (2 * (e / 2)))
    ∙ sym (pow-suc a (2 * (e / 2)))
    ∙ ap (λ (t : ℕ). a ^ t) e'

pow_rounds_lem : (f a e m : ℕ) → e ≤ f → pow_rounds f a e m ≡ a ^ e % m
unfolding pow_rounds
pow_rounds_lem zero a e m h = let e' : e ≡ 0 = omega arith in rw (e', pow-zero a)
pow_rounds_lem (suc f) a e m h =
    let half : pow_rounds f (a * a % m) (e / 2) m ≡ (a * a) ^ (e / 2) % m =
      pow_rounds_lem f (a * a % m) (e / 2) m (omega arith) ∙ pow-mod m (a * a) (e / 2) in
    elim (Bool-cases (e == 0)) [
      | inl is_zero ↦ let e' : e ≡ 0 = ground arith in rw is_zero (rw (e', pow-zero a))
      | inr positive ↦ rw positive (elim (Bool-cases (e % 2 == 0)) [
        | inl even ↦ rw even (half ∙ ap (λ (t : ℕ). t % m) (pow_even a e (ground arith)))
        | inr odd ↦ rw odd (
            ap (λ (t : ℕ). a * t % m) half
            ∙ mul-mod-mod m a ((a * a) ^ (e / 2))
            ∙ ap (λ (t : ℕ). t % m) (pow_odd a e (ground arith)))
      ])
    ]

-- Python's documented meaning of `pow(a, e, m)`.
pub pow_mod_lem : (a e m : ℕ) → pow_mod a e m ≡ a ^ e % m
unfolding pow_mod
pow_mod_lem a e m = pow_rounds_lem e a e m (omega arith)
