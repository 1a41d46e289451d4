-- ===== src/Ecdsa/RoundTrip.antt =====
-- What `_ecdsa_sign` returns, `_ecdsa_verify` accepts under the key's public point.
use native.Mathlib.Nat.{mod-lt, mod-eq_of_lt}
use protocol_c.Prelude.{
  ℕ, ◌+◌, ◌-◌, ◌*◌, ◌/◌, ◌%◌, ◌≤◌, ◌<◌, ◌≡◌, ◌≢◌, refl, sym, ap, ◌∙◌, true, some, arith, Bool-cases,
  inl, inr, ltb, ◌==◌, if◌then◌else◌, Bytes,
}
use protocol_c.Prelude.Int.{pos, residue}
use protocol_c.Prelude.Mod.{Cong}
use protocol_c.Py.Result.{ok, err, value_error, >>=-eq-ok}
use protocol_c.Py.Hex.{from_bytes}
use protocol_c.Py.Env.{Env}
use protocol_c.Curve.{Curve, Point, MaybePoint, generator, point_mul}
use protocol_c.Curve.Cyclic.{point_mul_lem, modinv-zero}
use protocol_c.Curve.Inverse.{modinv_lem}
use protocol_c.Curve.Order.{IsGroup, multiple-Cong, multiple_opposite, scaled-IsMultiples}
use protocol_c.Ecdsa.{
  low_s, scalar, sign_with, verify_in_range, ecdsa_verify, ecdsa_sign, rfc6979_k,
}
use protocol_c.Ecdsa.Nonce.{rfc6979_k-InRange}
use protocol_c.Ecdsa.Scalars.{total_kept, total_flipped}
use protocol_c.Ecdsa.Bounds.{IsSigned, sign_with-IsSigned, InRange, IsSigned-InRange}

module _ {c : Curve} {f : ℕ → MaybePoint} (g : IsGroup c f) where
  above_one : 1 < c.n
  above_one = g.prime.above_one

  positive : 0 < c.n
  positive = omega (arith, above_one)

  pub mul_generator : (k : ℕ) → k < c.n → point_mul c k (some (generator c)) ≡ ok (f k)
  mul_generator k h =
      ap (point_mul c k) (sym g.at_one) ∙ point_mul_lem c g.multiples k (omega (arith, g.fits))

  mul_public : (d k : ℕ) → k < c.n → point_mul c k (f d) ≡ ok (f (k * d))
  mul_public d k h =
      ap (λ (t : ℕ). point_mul c k (f t)) (omega arith)
      ∙ point_mul_lem c (scaled-IsMultiples g d) k (omega (arith, g.fits))

  module _ (k z d r s : ℕ) (signed : IsSigned c k z d r s) (nonce : k < c.n) where
    abbrev sum_with : ℕ → ℕ
    sum_with w = z * w % c.n + r * w % c.n * d

    Cong-one : (a : ℕ) → a % c.n ≡ 1 → Cong c.n a 1
    Cong-one a h = h ∙ sym (mod-eq_of_lt above_one)

    nonce_inverse : Cong c.n (signed.inv * k) 1
    nonce_inverse =
        let ne : k % c.n ≢ 0 = λ h. cc (signed.at_inv, modinv-zero k c.n h) in
        let (i, returned, bound, product) = modinv_lem g.prime k ne in
        let same : i ≡ signed.inv = cc (returned, signed.at_inv) in
        Cong-one (signed.inv * k) (ap (λ (t : ℕ). t * k % c.n) (sym same) ∙ product)

    nonce_point : f k ≡ some signed.point
    nonce_point = cc (mul_generator k nonce, signed.at_point)

    s0-lt : signed.s0 < c.n
    s0-lt = rw signed.s0_eq (mod-lt _ positive)

    -- That point has the first coordinate of the nonce's.
    same_x :
        (w : ℕ) → w * s % c.n ≡ 1 → (q : Point) × (f (sum_with w) ≡ some q) × (q.x ≡ signed.point.x)
    same_x w inverse = elim (Bool-cases (ltb (c.n / 2) signed.s0)) [
      | inl high ↦
          let opposite : signed.s0 + s ≡ c.n = ground (arith, signed.s_eq, s0-lt) in
          multiple_opposite g (sum_with w) k signed.point
            (total_flipped c.n z r d w k signed.inv signed.s0 signed.s0_eq nonce_inverse s opposite
              (Cong-one (w * s) inverse))
            nonce_point
      | inr low ↦
          let same : s ≡ signed.s0 = ground (arith, signed.s_eq) in
          let kept : Cong c.n (w * signed.s0) 1 =
            Cong-one (w * signed.s0) (ap (λ (t : ℕ). w * t % c.n) (sym same) ∙ inverse) in
          (
            signed.point,
            multiple-Cong g (sum_with w) k
                  (total_kept c.n z r d w k signed.inv signed.s0 signed.s0_eq nonce_inverse kept)
                ∙ nonce_point,
            refl,
          )
    ]

    accepted : InRange c (r, s) → verify_in_range c (f d) z r s ≡ ok true
    unfolding verify_in_range
    accepted (r_pos, r_lt, s_pos, s_le) =
        let s_lt : s < c.n = omega (arith, s_le, above_one) in
        let ne : s % c.n ≢ 0 = λ h. omega (arith, s_pos, sym (mod-eq_of_lt s_lt) ∙ h) in
        let (w, returned, bound, product) = modinv_lem g.prime s ne in
        let (q, at, x_eq) = same_x w product in
        let result : (residue c.n q.x == r) ≡ true =
          ground (arith, ap (residue c.n) x_eq, signed.r_eq) in
        rw (
          returned,
          mul_generator (z * w % c.n) (mod-lt _ positive),
          mul_public d (r * w % c.n) (mod-lt _ positive),
          g.multiples.additive (z * w % c.n) (r * w % c.n * d),
          at,
          result,
        )

  -- On a curve whose points `f i` are the multiples of the generator and form a group of prime
  -- order, a signature that `_ecdsa_sign` returns for the private key `d` and a hash is accepted
  -- by `_ecdsa_verify` for that hash under the `d`-th multiple.
  pub ecdsa_verify-sign :
      (e : Env) (fuel d : ℕ) (m : Bytes) (r s : ℕ)
      → ecdsa_sign e c fuel d m ≡ ok (r, s)
      → ecdsa_verify c (f d) m (pos r) (pos s) ≡ ok true
  unfolding ecdsa_sign ecdsa_verify scalar
  ecdsa_verify-sign e fuel d m r s h =
      let (k, hk, h1) = >>=-eq-ok (rfc6979_k e c fuel d m) _ h in
      let signed = sign_with-IsSigned c k (from_bytes m) d r s h1 in
      let range = IsSigned-InRange c k (from_bytes m) d r s above_one signed in
      let answer =
        accepted k (from_bytes m) d r s signed (rfc6979_k-InRange e c fuel d m k hk).1 range in
      ground (arith, range, answer)

  -- The signed number for a nonce with the inverse `i`.
  abbrev pub signed_number : ℕ → ℕ → ℕ → ℕ → ℕ
  signed_number i z r d = i * (z + r * d) % c.n

  -- The one of a number and its negative that is no more than half of `n`.
  abbrev pub low_half : ℕ → ℕ
  low_half v = if ltb c.n (2 * v) then c.n - v else v

  low_s-low_half : (v : ℕ) → low_s c v ≡ low_half v
  low_s-low_half v = ground arith

  -- On a curve with a group of prime order, for a nonce `k` in `[1, n)` whose multiple is a point,
  -- and the inverse `i` of `k`, `_ecdsa_sign` raises ValueError if `r`, the remainder of the point's
  -- `x`, or `i * (z + r * d) % n` is 0, and else returns `r` and that number, or `n` less that
  -- number where its double exceeds `n`.
  pub sign_with_total :
      (k z d : ℕ) (q : Point)
      → 1 ≤ k
      → k < c.n
      → f k ≡ some q
      → (i : ℕ) × (i * k % c.n ≡ 1)
        × (sign_with c k z d ≡ (
            let r = residue c.n q.x in
            if r == 0
            then err value_error
            else if signed_number i z r d == 0
            then err value_error
            else ok (r, low_half (signed_number i z r d))))
  unfolding sign_with
  sign_with_total k z d q pos_k lt_k at =
      let ne : k % c.n ≢ 0 = λ h. omega (arith, pos_k, sym (mod-eq_of_lt lt_k) ∙ h) in
      let (i, returned, bound, product) = modinv_lem g.prime k ne in
      let v = signed_number i z (residue c.n q.x) d in
      (i, product, rw (mul_generator k lt_k, at, returned, sym (low_s-low_half v)) (ground arith))
