-- ===== src/Key/Total.antt =====
-- When a key can be derived.
use protocol_c.Prelude.{
  ℕ, ◌^◌, ◌<◌, ◌≡◌, ◌↔◌, refl, sym, ap, ◌∙◌, true, false, some, none, Text, Bytes, length, ltb,
  ltb→lt, lt→ltb, ◌==◌, arith, Bool-cases, inl, inr,
}
use protocol_c.Prelude.Int.{ℤ, pos, negsuc, ◌+ℤ◌, ltb_ℤ}
use protocol_c.Py.Result.{ok, >>=-eq-ok}
use protocol_c.Py.Hex.{from_bytes, to_bytes_32, low_digits, hex}
use protocol_c.Py.Hex.Digits.{length-hex}
use protocol_c.Py.Env.{Env, IsStandard}
use protocol_c.Curve.{Curve, MaybePoint}
use protocol_c.Curve.Order.{IsGroup}
use protocol_c.Ecdsa.RoundTrip.{mul_generator}
use protocol_c.Signer.{Signer, to_bytes, derive_privkey, create}
use protocol_c.Signer.Lifecycle.{to_bytes-value, derive_privkey-InRange}
use protocol_c.Key.{
  Seed, number, raw, Readings, QuantumEphemeralKey, is_measurement_method, validated, normalise,
  signer_of, derive,
}
use protocol_c.Key.Derived.{seed_at, new_key, derive-IsDerived}

pair-inj : {p q : ℤ × Bytes} → ok p ≡ ok q → p ≡ q
pair-inj h = cc

-- A seed that 32 bytes can hold.
abbrev pub IsSeed : Seed → Type 0
IsSeed (number z) = (n : ℕ) × (z ≡ pos n) × (n < 2 ^ 256)
IsSeed (raw b) = from_bytes b < 2 ^ 256

to_bytes_32-small : (n : ℕ) → n < 2 ^ 256 → to_bytes_32 n ≡ some (low_digits 256 32 n)
unfolding to_bytes_32
to_bytes_32-small n small = rw (lt→ltb n (2 ^ 256) small) refl

to_bytes_32-large : (n : ℕ) → ltb n (2 ^ 256) ≡ false → to_bytes_32 n ≡ none
unfolding to_bytes_32
to_bytes_32-large n large = rw large refl

to_bytes_total : (n : ℕ) → n < 2 ^ 256 → (b : Bytes) × (to_bytes (pos n) ≡ ok b)
to_bytes_total n small = (low_digits 256 32 n, rw (to_bytes, to_bytes_32-small n small) refl)

to_bytes-small : (n : ℕ) (b : Bytes) → to_bytes (pos n) ≡ ok b → n < 2 ^ 256
to_bytes-small n b h = elim (Bool-cases (ltb n (2 ^ 256))) [
  | inl small ↦ ltb→lt n (2 ^ 256) small
  | inr large ↦ cc (rw (to_bytes, to_bytes_32-large n large) at h)
]

later : (n : ℕ) (z : ℤ) → ltb_ℤ (pos n) (pos n +ℤ z) ≡ ltb_ℤ (pos 0) z
unfolding ◌+ℤ◌
later n (pos m) = ground arith
later n (negsuc m) = ground arith

module _ {c : Curve} {f : ℕ → MaybePoint} (g : IsGroup c f) (e : Env) where
  create_total : (now n : ℕ) → n < 2 ^ 256 → (s : Signer) × (create e c now n ≡ ok s)
  unfolding create
  create_total now n small =
      let (seed_bytes, at_seed) = to_bytes_total n small in
      let (_, below) = derive_privkey-InRange e c seed_bytes g.prime.above_one in
      let (buf, at_key) =
        to_bytes_total (derive_privkey e c seed_bytes) (omega (arith, below, g.fits)) in
      let value = to_bytes-value (derive_privkey e c seed_bytes) buf at_key in
      let q = mul_generator g (from_bytes buf) (rw value below) in
      let s : Signer = record {
        created_at = now;
        destroyed = false;
        sign_count = 0;
        privkey_buf = buf;
        pubkey = f (from_bytes buf);
      } in
      (s, rw (create, at_seed, at_key, q) refl)

  -- A seed that fits gives its number and bytes, and a signer.
  seed_total :
      (now : ℕ) (seed : Seed)
      → IsSeed seed
      → (z : ℤ) × (b : Bytes) × (s : Signer) × (normalise seed ≡ ok (z, b))
        × (signer_of e c now z ≡ ok s)
  seed_total now (number z) (n, same, small) =
      let (b, at_b) = to_bytes_total n small in
      let (s, made) = create_total now n small in
      (pos n, b, s, rw (same, normalise, at_b) refl, made)
  seed_total now (raw b) small =
      let (s, made) = create_total now (from_bytes b) small in
      (pos (from_bytes b), b, s, refl, made)

  seed-IsSeed :
      (now : ℕ) (seed : Seed) (z : ℤ) (b : Bytes) (s : Signer)
      → normalise seed ≡ ok (z, b)
      → signer_of e c now z ≡ ok s
      → IsSeed seed
  unfolding create
  seed-IsSeed now (number (pos n)) z b s h made =
      let (b', at_b, _) = >>=-eq-ok (to_bytes (pos n)) _ h in (n, refl, to_bytes-small n b' at_b)
  seed-IsSeed now (number (negsuc n)) z b s h made = cc h
  seed-IsSeed now (raw bs) z b s h made =
      let same : pos (from_bytes bs) ≡ z = ap (λ (p : ℤ × Bytes). p.0) (pair-inj h) in
      let (b', at_b, _) = >>=-eq-ok (to_bytes (pos (from_bytes bs))) _ (rw (sym same) at made) in
      to_bytes-small (from_bytes bs) b' at_b

  module _ (std : IsStandard e) (t : Readings) (seed : Seed) (method : Text) (lifetime : ℤ) where
    validated-seed_at :
        (b : Bytes)
        → is_measurement_method method ≡ true
        → ltb_ℤ (pos 0) lifetime ≡ true
        → validated (seed_at e t b method lifetime) ≡ ok (seed_at e t b method lifetime)
    unfolding validated
    validated-seed_at b named lasting =
        let wide : (length (hex (e.sha256 b)) == 64) ≡ true =
          ground (arith, length-hex (e.sha256 b), (std.sha256_digest b).width) in
        rw (wide, named, later t.derived_at lifetime, lasting) refl

    -- On a curve with a group of prime order, and with digests of 32 bytes, the constructor returns a
    -- key if and only if the seed is a number that 32 bytes can hold, the method is one of the two
    -- that are allowed, and the lifetime is positive.
    pub derive_total :
        ((k : QuantumEphemeralKey) × (derive e c t seed method lifetime ≡ ok k))
        ↔ (IsSeed seed × (is_measurement_method method ≡ true) × (ltb_ℤ (pos 0) lifetime ≡ true))
    unfolding derive
    derive_total = (
      λ (k, made).
          let (pair, at_seed, h1) = >>=-eq-ok (normalise seed) _ made in
          let d = derive-IsDerived e c t seed method lifetime k made in
          let (q, hv, h2) = >>=-eq-ok (validated (seed_at e t pair.1 method lifetime)) _ h1 in
          let (signer, hs, h3) = >>=-eq-ok (signer_of e c t.signer_at pair.0) _ h2 in
          (
            seed-IsSeed t.signer_at seed pair.0 pair.1 signer at_seed hs,
            d.valid.1,
            sym (later t.derived_at lifetime) ∙ d.valid.2,
          ),
      λ (fits, named, lasting).
          let (z, b, s, at_seed, made) = seed_total t.signer_at seed fits in
          (
            new_key (seed_at e t b method lifetime) s,
            rw (derive, at_seed, validated-seed_at b named lasting, made) refl,
          ),
    )
