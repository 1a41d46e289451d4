-- ===== src/Key/Derived.antt =====
-- What a derived key's commitment to its seed satisfies.
use protocol_c.Prelude.{
  ◌≡◌, refl, ap, ◌∙◌, subst, true, false, none, Bytes, Text, length, ◌==◌, ==_iff,
}
use protocol_c.Prelude.Int.{ℤ, pos, ◌+ℤ◌, ltb_ℤ}
use protocol_c.Py.Result.{ok, crypto_error, >>=-eq-ok, guard-eq-ok}
use protocol_c.Py.Env.{Env}
use protocol_c.Py.Hex.{hex}
use protocol_c.Curve.{Curve}
use protocol_c.Signer.{Signer}
use protocol_c.Key.{
  Seed, Readings, QuantumSeedCommitment, QuantumEphemeralKey, is_measurement_method, validated,
  normalise, signer_of, derive,
}

-- What the constructor checks.
abbrev pub IsValidSeed : QuantumSeedCommitment → Type 0
IsValidSeed q =
    (length q.seed_hash ≡ 64)
    × (is_measurement_method q.measurement_method ≡ true)
    × (ltb_ℤ q.key_creation_timestamp q.key_expiration_timestamp ≡ true)

validated-IsValidSeed :
    (q q' : QuantumSeedCommitment) → validated q ≡ ok q' → IsValidSeed q × (q ≡ q')
unfolding validated
validated-IsValidSeed q q' h =
    let (wide, h1) = guard-eq-ok (length q.seed_hash == 64) crypto_error _ h in
    let (named, h2) = guard-eq-ok (is_measurement_method q.measurement_method) crypto_error _ h1 in
    let (later, h3) =
      guard-eq-ok (ltb_ℤ q.key_creation_timestamp q.key_expiration_timestamp) crypto_error _ h2 in
    (((==_iff (length q.seed_hash) 64).0 wide, named, later), cc h3)

-- A live key with a valid commitment to its seed, dated by the clock, of a given lifetime.
abbrev pub IsDated : Readings → Text → ℤ → QuantumEphemeralKey → Type 0
IsDated t method lifetime k =
    IsValidSeed k.seed_commitment
    × (k.seed_commitment.measurement_method ≡ method)
    × (k.seed_commitment.key_creation_timestamp ≡ pos t.derived_at)
    × (k.seed_commitment.key_expiration_timestamp ≡ pos t.derived_at +ℤ lifetime)
    × (k.destroyed ≡ false)

-- The commitment that the constructor has validated.
abbrev pub seed_at : Env → Readings → Bytes → Text → ℤ → QuantumSeedCommitment
seed_at e t seed_bytes method lifetime = record {
  seed_hash = hex (e.sha256 seed_bytes);
  measurement_timestamp = pos t.derived_at;
  measurement_method = method;
  key_creation_timestamp = pos t.derived_at;
  key_expiration_timestamp = pos t.derived_at +ℤ lifetime;
}

abbrev pub new_key : QuantumSeedCommitment → Signer → QuantumEphemeralKey
new_key q signer = record {
  seed_commitment = q;
  signer = signer;
  destroyed = false;
  pubkey_hex = none;
}

-- The parts of a key that the constructor returned.
pub record IsDerived (e : Env) (c : Curve) (t : Readings) (method : Text) (lifetime : ℤ)
    (k : QuantumEphemeralKey) : Type 0 where
  pub seed_int : ℤ
  pub seed_bytes : Bytes
  pub signer : Signer
  pub valid : IsValidSeed (seed_at e t seed_bytes method lifetime)
  pub signer_at : signer_of e c t.signer_at seed_int ≡ ok signer
  pub built : new_key (seed_at e t seed_bytes method lifetime) signer ≡ k

module _ (e : Env) (c : Curve) (t : Readings) (seed : Seed) (method : Text) (lifetime : ℤ)
    (k : QuantumEphemeralKey) where
  pub derive-IsDerived :
      derive e c t seed method lifetime ≡ ok k → IsDerived e c t method lifetime k
  unfolding derive
  derive-IsDerived h =
      let (pair, hn, h1) = >>=-eq-ok (normalise seed) _ h in
      let (q, hv, h2) = >>=-eq-ok (validated (seed_at e t pair.1 method lifetime)) _ h1 in
      let (signer, hs, h3) = >>=-eq-ok (signer_of e c t.signer_at pair.0) _ h2 in
      let (valid, same) = validated-IsValidSeed (seed_at e t pair.1 method lifetime) q hv in
      let equal : new_key q signer ≡ k = cc h3 in
      record {
        seed_int = pair.0;
        seed_bytes = pair.1;
        signer = signer;
        valid = valid;
        signer_at = hs;
        built = ap (λ (x : QuantumSeedCommitment). new_key x signer) same ∙ equal;
      }

  -- A key that the constructor returns is dated.
  pub derive-IsDated : derive e c t seed method lifetime ≡ ok k → IsDated t method lifetime k
  derive-IsDated h =
      let d = derive-IsDerived h in
      subst (IsDated t method lifetime) d.built (d.valid, refl, refl, refl, refl)
