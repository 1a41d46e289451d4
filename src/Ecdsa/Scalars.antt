-- ===== src/Ecdsa/Scalars.antt =====
-- The scalar identity behind the verification equation: the two multiples that the verifier adds
-- make up the nonce, or its negative where the signer took the low `s`.
use native.Mathlib.Nat.{mul-mod_left, zero-mod}
use protocol_c.Prelude.{ℕ, ◌+◌, ◌*◌, ◌%◌, ◌≡◌, refl, sym, ap, ◌∙◌, arith}
use protocol_c.Prelude.Mod.{Cong, Cong-mod, Cong-mul, Cong-add}

module _ (n z r d w k inv s0 : ℕ) where
  -- `u1 + u2 * d`
  abbrev pub total : ℕ
  total = z * w % n + r * w % n * d

  total-eq : Cong n total (w * (z + r * d))
  total-eq =
      Cong-add n (z * w % n) (z * w) (r * w % n * d) (r * w * d) (Cong-mod n (z * w))
        (Cong-mul n (r * w % n) (r * w) d d (Cong-mod n (r * w)) refl)
      ∙ ap (λ (t : ℕ). t % n) (grind arith)

  module _ (signed : s0 ≡ inv * (z + r * d) % n) (inverse : Cong n (inv * k) 1) where
    nonce_mul : Cong n (k * s0) (z + r * d)
    nonce_mul =
        ap (λ (t : ℕ). k * t % n) signed
        ∙ Cong-mul n k k (inv * (z + r * d) % n) (inv * (z + r * d)) refl (Cong-mod n _)
        ∙ ap (λ (t : ℕ). t % n) (grind arith)
        ∙ Cong-mul n (inv * k) 1 (z + r * d) (z + r * d) inverse refl
        ∙ ap (λ (t : ℕ). t % n) (omega arith)

    -- With `k * s0` for the signed number.
    total-nonce : Cong n total (k * (w * s0))
    total-nonce =
        total-eq
        ∙ Cong-mul n w w (z + r * d) (k * s0) refl (sym nonce_mul)
        ∙ ap (λ (t : ℕ). t % n) (grind arith)

    -- The signer kept `s`: the sum is the nonce.
    pub total_kept : Cong n (w * s0) 1 → Cong n total k
    total_kept p =
        total-nonce ∙ Cong-mul n k k (w * s0) 1 refl p ∙ ap (λ (t : ℕ). t % n) (omega arith)

    -- The signer took `n - s`: the sum is the nonce's negative.
    pub total_flipped : (s : ℕ) → s0 + s ≡ n → Cong n (w * s) 1 → Cong n (total + k) 0
    total_flipped s opposite p =
        Cong-add n total (k * (w * s0)) k (k * (w * s)) total-nonce
          (ap (λ (t : ℕ). t % n) (omega arith) ∙ Cong-mul n k k 1 (w * s) refl (sym p))
        ∙ ap (λ (t : ℕ). t % n) (whole ∙ ap (λ (t : ℕ). k * w * t) opposite)
        ∙ (mul-mod_left (k * w) n ∙ sym (zero-mod n))
      where
        whole : k * (w * s0) + k * (w * s) ≡ k * w * (s0 + s)
        whole = grind arith
