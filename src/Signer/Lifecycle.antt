-- ===== src/Signer/Lifecycle.antt =====
-- The life of an ephemeral key: the range of the derived key, and what is left after `destroy`.
use native.Mathlib.Nat.{mod-lt}
use protocol_c.Prelude.{
  ℕ, suc, ◌≤◌, ◌<◌, ◌≡◌, refl, ap, subst, false, some, [], ◌∷◌, Bytes, Text, length, All, arith,
  Option-cases, inl, inr,
}
use protocol_c.Prelude.Int.{pos}
use protocol_c.Py.Result.{ok, err, runtime_error, >>=-eq-ok}
use protocol_c.Py.Value.{Dict}
use protocol_c.Py.Hex.{from_bytes, to_bytes_32}
use protocol_c.Py.Hex.Digits.{from_bytes-to_bytes}
use protocol_c.Py.Env.{Env}
use protocol_c.Curve.{Curve, MaybePoint, generator, point_mul}
use protocol_c.Curve.Order.{IsGroup}
use protocol_c.Ecdsa.RoundTrip.{mul_generator}
use protocol_c.Signer.{
  Signer, zero_bytearray, to_bytes, derive_privkey, create, public_key_hex, sign_manifest, destroy,
}

-- The private key that a signer holds.
abbrev pub privkey : Signer → ℕ
privkey s = from_bytes s.privkey_buf

pub derive_privkey-InRange :
    (e : Env) (c : Curve) (b : Bytes)
    → 1 < c.n
    → (1 ≤ derive_privkey e c b) × (derive_privkey e c b < c.n)
unfolding derive_privkey
derive_privkey-InRange e c b h = ground (arith, λ (x : ℕ). mod-lt x {m = c.n})

zero_bytearray-All : (b : Bytes) → All (λ x. x ≡ 0) (zero_bytearray b)
unfolding zero_bytearray
zero_bytearray-All [] = tt
zero_bytearray-All (x ∷ b) = (refl, zero_bytearray-All b)

length-zero_bytearray : (b : Bytes) → length (zero_bytearray b) ≡ length b
unfolding zero_bytearray
length-zero_bytearray [] = refl
length-zero_bytearray (x ∷ b) = ap suc (length-zero_bytearray b)

pub to_bytes-value : (n : ℕ) (b : Bytes) → to_bytes (pos n) ≡ ok b → from_bytes b ≡ n
to_bytes-value n b h = elim (Option-cases (to_bytes_32 n)) [
  | inl large ↦ ground (arith, large)
  | inr (b', small) ↦ from_bytes-to_bytes n b (ground (arith, small))
]

-- Usable and unused, with a key in range and its public point among the multiples `f`.
abbrev pub IsFresh : Curve → (ℕ → MaybePoint) → Signer → Type 0
IsFresh c f s =
    (s.destroyed ≡ false)
    × (s.sign_count ≡ 0)
    × (1 ≤ privkey s)
    × (privkey s < c.n)
    × (s.pubkey ≡ f (privkey s))

-- On a curve with a group of prime order, a signer that the constructor returns is not destroyed
-- and has signed nothing, its private key lies in `[1, n)`, and its public point is the key's
-- multiple of the generator.
pub create-IsFresh :
    {c : Curve} {f : ℕ → MaybePoint} (g : IsGroup c f) (e : Env) (now seed : ℕ) (s : Signer)
    → create e c now seed ≡ ok s
    → IsFresh c f s
unfolding create
create-IsFresh {c} {f} g e now seed s h =
    let (seed_bytes, hs, h1) = >>=-eq-ok (to_bytes (pos seed)) _ h in
    let key = derive_privkey e c seed_bytes in
    let (buf, hb, h2) = >>=-eq-ok (to_bytes (pos key)) _ h1 in
    let (q, hq, h3) = >>=-eq-ok (point_mul c (from_bytes buf) (some (generator c))) _ h2 in
    let value : from_bytes buf ≡ key = to_bytes-value key buf hb in
    let range = derive_privkey-InRange e c seed_bytes g.prime.above_one in
    let lt : from_bytes buf < c.n = rw value range.1 in
    let multiple : q ≡ f (from_bytes buf) = cc (hq, mul_generator g (from_bytes buf) lt) in
    let built : Signer = record {
      created_at = now;
      destroyed = false;
      sign_count = 0;
      privkey_buf = buf;
      pubkey = q;
    } in
    let same : built ≡ s = cc h3 in
    subst (IsFresh c f) same (refl, refl, rw value range.0, lt, multiple)

-- After `destroy` every byte of the key's buffer is 0, its length and the count are unchanged,
-- `sign_manifest` raises RuntimeError and changes nothing, and the public key raises
-- RuntimeError.
pub destroy_lem :
    (e : Env) (c : Curve) (now fuel : ℕ) (s : Signer) (signed_at : Text) (manifest : Dict)
    → let s' = (destroy e now s).1 in
      All (λ x. x ≡ 0) s'.privkey_buf
      × (length s'.privkey_buf ≡ length s.privkey_buf)
      × (s'.sign_count ≡ s.sign_count)
      × (sign_manifest e c fuel signed_at manifest s' ≡ (err runtime_error, s'))
      × (public_key_hex s' ≡ err runtime_error)
unfolding destroy sign_manifest
destroy_lem e c now fuel s signed_at manifest =
    (zero_bytearray-All s.privkey_buf, length-zero_bytearray s.privkey_buf, refl, refl, refl)
