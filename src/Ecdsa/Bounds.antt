-- ===== src/Ecdsa/Bounds.antt =====
-- What a successful signature holds, and its range.
use native.Mathlib.Nat.{mod-lt}
use protocol_c.Prelude.{
  ℕ, ◌+◌, ◌*◌, ◌/◌, ◌%◌, ◌≤◌, ◌<◌, ◌≡◌, ◌≢◌, refl, sym, ap, ◌∙◌, not, none, some, ◌==◌, arith,
  Bytes,
}
use protocol_c.Prelude.Int.{ℤ, pos, negsuc, residue}
use protocol_c.Py.Result.{ok, value_error, >>=-eq-ok, guard-eq-ok}
use protocol_c.Py.Hex.{from_bytes}
use protocol_c.Py.Env.{Env}
use protocol_c.Curve.{Curve, Point, MaybePoint, generator, modinv, point_mul}
use protocol_c.Ecdsa.{x_of, sign_with, low_s, rfc6979_k, ecdsa_sign}

pub residue-lt : (n : ℕ) (z : ℤ) → 0 < n → residue n z < n
residue-lt n (pos m) h = mod-lt m h
residue-lt n (negsuc m) h = omega (arith, mod-lt m h)

-- The values of a signing run that returned `(r, s)`.
pub record IsSigned (c : Curve) (k z d r s : ℕ) : Type 0 where
  pub point : Point
  pub inv : ℕ
  pub s0 : ℕ
  pub at_point : point_mul c k (some (generator c)) ≡ ok (some point)
  pub at_inv : modinv k c.n ≡ ok inv
  pub r_eq : r ≡ residue c.n point.x
  pub r_ne : r ≢ 0
  pub s0_eq : s0 ≡ inv * (z + r * d) % c.n
  pub s0_ne : s0 ≢ 0
  pub s_eq : s ≡ low_s c s0

x_of-eq-ok : (p : MaybePoint) {x : ℤ} → x_of p ≡ ok x → (q : Point) × (p ≡ some q) × (q.x ≡ x)
x_of-eq-ok none h = cc
x_of-eq-ok (some q) h = (q, refl, cc)

module _ (c : Curve) (k z d r s : ℕ) where
  pub sign_with-IsSigned : sign_with c k z d ≡ ok (r, s) → IsSigned c k z d r s
  unfolding sign_with
  sign_with-IsSigned h =
      let (p, hp, h1) = >>=-eq-ok (point_mul c k (some (generator c))) _ h in
      let (x, hx, h2) = >>=-eq-ok (x_of p) _ h1 in
      let (q, hq, hqx) = x_of-eq-ok p hx in
      let (r_test, h3) = guard-eq-ok (not (residue c.n x == 0)) value_error _ h2 in
      let (i, hi, h4) = >>=-eq-ok (modinv k c.n) _ h3 in
      let (s_test, h5) =
        guard-eq-ok (not (i * (z + residue c.n x * d) % c.n == 0)) value_error _ h4 in
      let x_eq : residue c.n x ≡ residue c.n q.x = ap (residue c.n) (sym hqx) in
      let r_eq : residue c.n x ≡ r = cc h5 in
      let total_eq : i * (z + residue c.n x * d) % c.n ≡ i * (z + r * d) % c.n =
        ap (λ (t : ℕ). i * (z + t * d) % c.n) r_eq in
      record {
        point = q;
        inv = i;
        s0 = i * (z + r * d) % c.n;
        at_point = hp ∙ ap ok hq;
        at_inv = hi;
        r_eq = sym r_eq ∙ x_eq;
        r_ne = λ e. ground (arith, r_eq, e);
        s0_eq = refl;
        s0_ne = λ e. ground (arith, total_eq, e);
        s_eq =
            let low : low_s c (i * (z + residue c.n x * d) % c.n) ≡ s = cc h5 in
            sym low ∙ ap (low_s c) total_eq;
      }

-- The numbers of a signature: `1 <= r < n`, and `1 <= s <= n // 2`.
abbrev pub InRange : Curve → ℕ × ℕ → Type 0
InRange c (r, s) = (1 ≤ r) × (r < c.n) × (1 ≤ s) × (s ≤ c.n / 2)

pub IsSigned-InRange :
    (c : Curve) (k z d r s : ℕ) → 1 < c.n → IsSigned c k z d r s → InRange c (r, s)
IsSigned-InRange c k z d r s h g =
    let positive : 0 < c.n = omega arith in
    let s0_lt : g.s0 < c.n = rw g.s0_eq (mod-lt _ positive) in
    (
      omega (arith, g.r_ne),
      rw g.r_eq (residue-lt c.n g.point.x positive),
      ground (arith, g.s_eq, g.s0_ne, s0_lt),
      ground (arith, g.s_eq, s0_lt),
    )

-- For an order above 1, every signature that `_ecdsa_sign` returns has `r` and `s` in `[1, n)`,
-- and `s` in the low half.
pub ecdsa_sign-InRange :
    (e : Env) (c : Curve) (fuel d : ℕ) (m : Bytes) (r s : ℕ)
    → 1 < c.n
    → ecdsa_sign e c fuel d m ≡ ok (r, s)
    → InRange c (r, s)
unfolding ecdsa_sign
ecdsa_sign-InRange e c fuel d m r s h signed =
    let (k, hk, h1) = >>=-eq-ok (rfc6979_k e c fuel d m) _ signed in
    IsSigned-InRange c k (from_bytes m) d r s h (sign_with-IsSigned c k (from_bytes m) d r s h1)
