-- ===== src/Ecdsa.antt =====
-- `_rfc6979_k`, `_ecdsa_sign` and `_ecdsa_verify` of aether_protocol_c/ephemeral_signer.py.
pub mod Nonce
pub mod Scalars
pub mod Bounds
pub mod RoundTrip
use protocol_c.Prelude.{
  ℕ, zero, suc, ◌+◌, ◌-◌, ◌*◌, ◌/◌, ◌%◌, Bool, true, false, not, ◌&&◌, Option, none, some, [], ◌∷◌,
  ◌++◌, Bytes, replicate, ltb, leb, ◌==◌, if◌then◌else◌,
}
use protocol_c.Prelude.Int.{ℤ, pos, negsuc, residue}
use protocol_c.Py.Result.{
  Result, ok, err, value_error, attribute_error, overflow_error, no_fuel, guard, ◌>>=◌, ◌>>◌,
}
use protocol_c.Py.Hex.{from_bytes, to_bytes_32}
use protocol_c.Py.Env.{Env}
use protocol_c.Curve.{Curve, Point, MaybePoint, generator, modinv, point_add, point_mul}

-- `point.x`: on `None` it raises AttributeError.
abbrev pub x_of : MaybePoint → Result ℤ
x_of none = err attribute_error
x_of (some q) = ok q.x

-- `1 <= m < n` for a Python int, with the number that it is.
unfoldable pub scalar : ℕ → ℤ → Option ℕ
scalar n (pos m) = if leb 1 m && ltb m n then some m else none
scalar n (negsuc m) = none

module _ (e : Env) (c : Curve) where
  -- The `while True` of `_rfc6979_k`, on fuel.
  unfoldable pub nonce_loop : ℕ → Bytes → Bytes → Result ℕ
  nonce_loop zero k v = err no_fuel
  nonce_loop (suc f) k v =
      let v' = e.hmac_sha256 k v in
      let candidate = from_bytes v' in
      let k' = e.hmac_sha256 k (v' ++ 0 ∷ []) in
      let rest = nonce_loop f k' (e.hmac_sha256 k' v') in
      if leb 1 candidate && ltb candidate c.n then ok candidate else rest

  -- The two rounds that mix the private key and the hash into `k` and `v`.
  unfoldable pub nonce_start : Bytes → Bytes → Bytes × Bytes
  nonce_start priv_bytes h1 =
      let v0 = replicate 32 1 in
      let k1 = e.hmac_sha256 (replicate 32 0) (v0 ++ (0 ∷ (priv_bytes ++ h1))) in
      let v1 = e.hmac_sha256 k1 v0 in
      let k2 = e.hmac_sha256 k1 (v1 ++ (1 ∷ (priv_bytes ++ h1))) in (k2, e.hmac_sha256 k2 v1)

  unfoldable pub rfc6979_k : ℕ → ℕ → Bytes → Result ℕ
  unfolding nonce_start
  rfc6979_k fuel privkey msg_hash = elim (to_bytes_32 privkey) [
    | none ↦ err overflow_error
    | some priv_bytes ↦
        let start = nonce_start priv_bytes msg_hash in nonce_loop fuel start.0 start.1
  ]

module _ (c : Curve) where
  -- Low-s normalisation.
  abbrev pub low_s : ℕ → ℕ
  low_s s = if ltb (c.n / 2) s then c.n - s else s

  -- `_ecdsa_sign` from the nonce on: the nonce, the hash as a number, the private key.
  unfoldable pub sign_with : ℕ → ℕ → ℕ → Result (ℕ × ℕ)
  sign_with k z privkey = do
    big_r ← point_mul c k (some (generator c))
    x ← x_of big_r
    let r = residue c.n x
    guard (not (r == 0)) value_error
    inverse ← modinv k c.n
    let s = inverse * (z + r * privkey) % c.n
    guard (not (s == 0)) value_error
    ok (r, low_s s)

  -- `_ecdsa_verify` behind its range check.
  unfoldable pub verify_in_range : MaybePoint → ℕ → ℕ → ℕ → Result Bool
  verify_in_range pubkey z r s = do
    w ← modinv s c.n
    left ← point_mul c (z * w % c.n) (some (generator c))
    right ← point_mul c (r * w % c.n) pubkey
    point ← point_add c left right
    ok (elim point [ none ↦ false | some q ↦ residue c.n q.x == r ])

  -- `_ecdsa_verify`
  unfoldable pub ecdsa_verify : MaybePoint → Bytes → ℤ → ℤ → Result Bool
  ecdsa_verify pubkey msg_hash r s = elim (scalar c.n r) [
    | none ↦ ok false
    | some r' ↦ elim (scalar c.n s) [
      | none ↦ ok false
      | some s' ↦ verify_in_range pubkey (from_bytes msg_hash) r' s'
    ]
  ]

-- `_ecdsa_sign`
unfoldable pub ecdsa_sign : Env → Curve → ℕ → ℕ → Bytes → Result (ℕ × ℕ)
ecdsa_sign e c fuel privkey msg_hash = do
  k ← rfc6979_k e c fuel privkey msg_hash
  sign_with c k (from_bytes msg_hash) privkey
