-- ===== src/Ecdsa/Nonce.antt =====
-- The loop of `_rfc6979_k`: range of the nonce, and how much fuel is enough.
use protocol_c.Prelude.{
  ℕ, zero, suc, ◌≤◌, ◌<◌, ◌≡◌, ◌&&◌, some, [], ◌∷◌, ◌++◌, Bytes, ltb, leb, arith, Bool-cases,
  Option-cases, inl, inr,
}
use protocol_c.Py.Result.{ok}
use protocol_c.Py.Hex.{from_bytes, to_bytes_32}
use protocol_c.Py.Env.{Env}
use protocol_c.Curve.{Curve}
use protocol_c.Ecdsa.{nonce_loop, nonce_start, rfc6979_k}

module _ (e : Env) (c : Curve) where
  -- The number that a round reads, and whether it is taken.
  abbrev pub candidate : Bytes × Bytes → ℕ
  candidate (k, v) = from_bytes (e.hmac_sha256 k v)

  -- The state after a round that does not take its number.
  abbrev pub next_state : Bytes × Bytes → Bytes × Bytes
  next_state (k, v) =
      let v' = e.hmac_sha256 k v in
      let k' = e.hmac_sha256 k (v' ++ 0 ∷ []) in (k', e.hmac_sha256 k' v')

  abbrev pub state_after : ℕ → Bytes × Bytes → Bytes × Bytes
  state_after zero s = s
  state_after (suc j) s = state_after j (next_state s)

  nonce_loop-InRange :
      (fuel : ℕ) (k v : Bytes) (x : ℕ) → nonce_loop e c fuel k v ≡ ok x → (1 ≤ x) × (x < c.n)
  unfolding nonce_loop
  nonce_loop-InRange zero k v x h = cc
  nonce_loop-InRange (suc f) k v x h =
      ground (arith, nonce_loop-InRange f (next_state (k, v)).0 (next_state (k, v)).1 x)

  -- A nonce lies in `[1, n)`.
  pub rfc6979_k-InRange :
      (fuel d : ℕ) (m : Bytes) (x : ℕ) → rfc6979_k e c fuel d m ≡ ok x → (1 ≤ x) × (x < c.n)
  unfolding rfc6979_k
  rfc6979_k-InRange fuel d m x h = elim (Option-cases (to_bytes_32 d)) [
    | inl large ↦ cc (large)
    | inr (b, small) ↦
        nonce_loop-InRange fuel (nonce_start e c b m).0 (nonce_start e c b m).1 x (cc (small))
  ]

  nonce_loop_total :
      (j fuel : ℕ) (s : Bytes × Bytes)
      → j < fuel
      → 1 ≤ candidate (state_after j s)
      → candidate (state_after j s) < c.n
      → (x : ℕ) × (nonce_loop e c fuel s.0 s.1 ≡ ok x) × (nonce_loop e c (suc j) s.0 s.1 ≡ ok x)
  unfolding nonce_loop
  nonce_loop_total j zero s h lo hi = absurd (omega arith)
  nonce_loop_total zero (suc f) s h lo hi = (candidate s, ground arith, ground arith)
  nonce_loop_total (suc j) (suc f) s h lo hi =
      elim (Bool-cases (leb 1 (candidate s) && ltb (candidate s) c.n)) [
        | inl taken ↦ (candidate s, rw taken, rw taken)
        | inr passed ↦ rw passed (nonce_loop_total j f (next_state s) (omega arith) lo hi)
      ]

  -- If the private key fits in 32 bytes and round `j` of the loop reads a number in `[1, n)`,
  -- then with any fuel above `j` `_rfc6979_k` returns, with the same nonce as with the fuel `j +
  -- 1`, and the nonce lies in `[1, n)`.
  pub rfc6979_k_total :
      (j fuel d : ℕ) (m b : Bytes)
      → j < fuel
      → to_bytes_32 d ≡ some b
      → 1 ≤ candidate (state_after j (nonce_start e c b m))
      → candidate (state_after j (nonce_start e c b m)) < c.n
      → (x : ℕ) × (rfc6979_k e c fuel d m ≡ ok x)
        × (rfc6979_k e c (suc j) d m ≡ ok x)
        × (1 ≤ x)
        × (x < c.n)
  unfolding rfc6979_k
  rfc6979_k_total j fuel d m b more small lo hi =
      let (x, found, exact) = nonce_loop_total j fuel (nonce_start e c b m) more lo hi in
      let range = nonce_loop-InRange fuel (nonce_start e c b m).0 (nonce_start e c b m).1 x found in
      (x, rw (small, rfc6979_k) found, rw (small, rfc6979_k) exact, range.0, range.1)
