-- ===== src/Curve.antt =====
-- The curve of aether_protocol_c/ephemeral_signer.py: parameters, modular inverse, points. The
-- functions take the curve as an argument, and the program's is `secp256k1`; so a small curve of
-- the same shape can be computed with.
pub mod Power
pub mod Cyclic
pub mod Inverse
pub mod Order
pub mod Root
pub mod Reduced
use protocol_c.Prelude.{
  ℕ, zero, suc, ◌+◌, ◌-◌, ◌*◌, ◌/◌, ◌%◌, ◌^◌, Bool, true, false, not, ◌&&◌, Option, none, some,
  ◌==◌, if◌then◌else◌,
}
use protocol_c.Prelude.Int.{ℤ, pos, eqb_ℤ, residue}
use protocol_c.Py.Result.{Result, ok, err, value_error, ◌>>=◌}
use Power.{pow_mod}

pub record Point : Type 0 where
  pub x : ℤ
  pub y : ℤ

-- `y ^ 2 = x ^ 3 + a * x + b` modulo `p`, with a generator and its order.
pub record Curve : Type 0 where
  pub p : ℕ
  pub n : ℕ
  pub gx : ℕ
  pub gy : ℕ
  pub a : ℕ
  pub b : ℕ

abbrev pub secp256k1 : Curve
secp256k1 = record {
  p = 0xFFFFFFFFFFFFFFFFFFFFFFFFFFFFFFFFFFFFFFFFFFFFFFFFFFFFFFFEFFFFFC2F;
  n = 0xFFFFFFFFFFFFFFFFFFFFFFFFFFFFFFFEBAAEDCE6AF48A03BBFD25E8CD0364141;
  gx = 0x79BE667EF9DCBBAC55A06295CE870B07029BFCDB2DCE28D959F2815B16F81798;
  gy = 0x483ADA7726A3C4655DA4FBFC0E1108A8FD17B448A68554199C47D08FFB10D4B8;
  a = 0;
  b = 7;
}

-- `None` is the point at infinity.
abbrev pub MaybePoint : Type 0
MaybePoint = Option Point

abbrev pub generator : Curve → Point
generator c = record { x = pos c.gx; y = pos c.gy }

-- `_modinv`, of an operand that is not negative.
unfoldable pub modinv : ℕ → ℕ → Result ℕ
unfolding pow_mod
modinv a m = let a' = a % m in if a' == 0 then err value_error else ok (pow_mod a' (m - 2) m)

-- The chord or tangent of slope `lam` through the first point: `x3` and `y3`. Each difference is
-- taken modulo `p`, where `p - z % p` stands for `-z`.
third_point : ℕ → ℕ → ℤ → ℤ → ℤ → Point
third_point p lam x1 y1 x2 =
    let x3 = (lam * lam + (p - residue p x1) + (p - residue p x2)) % p in
    let y3 = (lam * (residue p x1 + (p - x3)) + (p - residue p y1)) % p in
    record { x = pos x3; y = pos y3 }

-- `_Point.__eq__`
abbrev pub point_eq : Point → Point → Bool
point_eq p q = eqb_ℤ p.x q.x && eqb_ℤ p.y q.y

module _ (c : Curve) where
  tangent_slope : Point → Result ℕ
  unfolding modinv
  tangent_slope q = do
    inverse ← modinv (2 * residue c.p q.y) c.p
    ok ((3 * residue c.p q.x * residue c.p q.x + c.a) * inverse % c.p)

  chord_slope : Point → Point → Result ℕ
  unfolding modinv
  chord_slope q r = do
    inverse ← modinv (residue c.p r.x + (c.p - residue c.p q.x)) c.p
    ok ((residue c.p r.y + (c.p - residue c.p q.y)) * inverse % c.p)

  -- `_point_add`
  unfoldable pub point_add : MaybePoint → MaybePoint → Result MaybePoint
  unfolding tangent_slope chord_slope third_point
  point_add none q = ok q
  point_add (some q) none = ok (some q)
  point_add (some q) (some r) = if eqb_ℤ q.x r.x && not (eqb_ℤ q.y r.y) then ok none else do
    lam ← if point_eq q r then tangent_slope q else chord_slope q r
    ok (some (third_point c.p lam q.x q.y r.x))

  -- `_point_double`
  unfoldable pub point_double : MaybePoint → Result MaybePoint
  unfolding tangent_slope third_point
  point_double none = ok none
  point_double (some q) =
      if eqb_ℤ q.y (pos 0)
      then ok none
      else do lam ← tangent_slope q; ok (some (third_point c.p lam q.x q.y q.x))

  -- One round of `_point_mul`, for the bit at hand.
  ladder_step : Bool → MaybePoint × MaybePoint → Result (MaybePoint × MaybePoint)
  unfolding point_add point_double
  ladder_step false (r0, r1) = do sum ← point_add r0 r1; double ← point_double r0; ok (double, sum)
  ladder_step true (r0, r1) = do sum ← point_add r0 r1; double ← point_double r1; ok (sum, double)

  -- The rounds for the bits `i - 1`, …, 0 of `k`.
  unfoldable pub ladder : ℕ → ℕ → MaybePoint × MaybePoint → Result MaybePoint
  unfolding ladder_step
  ladder zero k acc = ok acc.0
  ladder (suc i) k acc = do next ← ladder_step (k / 2 ^ i % 2 == 1) acc; ladder i k next

  -- `_point_mul` with its default `bit_length`
  unfoldable pub point_mul : ℕ → MaybePoint → Result MaybePoint
  point_mul k q = ladder 256 k (none, q)
