-- ===== src/Key.antt =====
-- aether_protocol_c/crypto.py: the record of a seed, the key that signs once, and the verification
-- of a signature.
pub mod OneShot
pub mod Derived
pub mod Window
pub mod Total
pub mod Verified
pub mod Stored
use protocol_c.Prelude.{
  ℕ, ◌+◌, ◌*◌, Bool, true, false, not, ◌||◌, Option, none, some, [], Bytes, Text, codes, length,
  text_eq, ◌==◌, if◌then◌else◌,
}
use protocol_c.Prelude.Int.{ℤ, pos, negsuc, ◌+ℤ◌, ltb_ℤ, sub_ℕ, pos_part, neg_part}
use protocol_c.Py.Result.{
  Exn, Result, ok, err, crypto_error, key_destroyed_error, attribute_error, overflow_error, guard,
  ◌>>=◌, ◌>>◌,
}
use protocol_c.Py.Value.{Value, int, float, str, Dict, end, field}
use protocol_c.Py.Hex.{from_bytes, hex}
use protocol_c.Py.Env.{Env}
use protocol_c.Curve.{Curve}
use protocol_c.Signer.{
  Signer, create, to_bytes, public_key_hex, sign_manifest, destroy, verify_static,
}

abbrev pub default_key_lifetime_seconds : ℤ
default_key_lifetime_seconds = pos 3600

abbrev pub shor_earliest_attack_seconds : ℤ
shor_earliest_attack_seconds = pos (7 * 24 * 3600)

-- `method in MEASUREMENT_METHODS`
abbrev pub is_measurement_method : Text → Bool
is_measurement_method m = text_eq m (codes "CSPRNG") || text_eq m (codes "OS_URANDOM")

pub record QuantumSeedCommitment : Type 0 where
  pub seed_hash : Text
  pub measurement_timestamp : ℤ
  pub measurement_method : Text
  pub key_creation_timestamp : ℤ
  pub key_expiration_timestamp : ℤ

-- The constructor: `__post_init__` refuses a record or lets it through.
unfoldable pub validated : QuantumSeedCommitment → Result QuantumSeedCommitment
validated q = do
  guard (length q.seed_hash == 64) crypto_error
  guard (is_measurement_method q.measurement_method) crypto_error
  guard (ltb_ℤ q.key_creation_timestamp q.key_expiration_timestamp) crypto_error
  ok q

-- The window of a key created and expiring at given times.
abbrev pub window_fields : ℤ → ℤ → Dict
window_fields created expires = field "created_at" (int created) (
    field "expires_at" (int expires)
      (field "shor_earliest_attack" (int (created +ℤ shor_earliest_attack_seconds)) end))

unfoldable pub temporal_window_dict : QuantumSeedCommitment → Dict
temporal_window_dict q = window_fields q.key_creation_timestamp q.key_expiration_timestamp

-- `to_dict`
unfoldable pub seed_to_dict : Env → QuantumSeedCommitment → Dict
seed_to_dict e q = field "seed_hash" (str q.seed_hash) (
    field "measurement_timestamp" (int q.measurement_timestamp) (
      field "measurement_method" (str q.measurement_method) (
        field "key_creation_timestamp" (int q.key_creation_timestamp) (
          field "key_expiration_timestamp" (int q.key_expiration_timestamp) (
            field "temporal_window_hours"
              (float (
                e.hours (
                  sub_ℕ (pos_part q.key_expiration_timestamp + neg_part q.key_creation_timestamp)
                    (pos_part q.key_creation_timestamp + neg_part q.key_expiration_timestamp))))
              end)))))

-- `make_temporal_window` at a given time
unfoldable pub make_temporal_window : ℤ → ℤ → Dict
make_temporal_window created_at lifetime_seconds =
    window_fields created_at (created_at +ℤ lifetime_seconds)

-- A seed: `int | bytes`.
pub data Seed : Type 0 where
  number : ℤ → Seed
  raw : Bytes → Seed

-- `seed_int` and `seed_bytes`
abbrev pub normalise : Seed → Result (ℤ × Bytes)
normalise (number z) = do b ← to_bytes z; ok (z, b)
normalise (raw b) = ok (pos (from_bytes b), b)

-- The readings of the clock in the life of one key, in their order: `int(time.time())` in the
-- constructor, the signer's `time.time()`, the text of the signature's time, and `time.time()` at
-- the end.
pub record Readings : Type 0 where
  pub derived_at : ℕ
  pub signer_at : ℕ
  pub signed_at : Text
  pub destroyed_at : ℕ

pub record QuantumEphemeralKey : Type 0 where
  pub seed_commitment : QuantumSeedCommitment
  pub signer : Signer
  pub destroyed : Bool
  pub pubkey_hex : Option Text

-- `EphemeralSigner(quantum_seed=seed_int)`, whose own conversion to 32 bytes refuses the rest.
abbrev pub signer_of : Env → Curve → ℕ → ℤ → Result Signer
signer_of e c now (pos n) = create e c now n
signer_of e c now (negsuc n) = err overflow_error

module _ (e : Env) (c : Curve) where
  -- `QuantumEphemeralKey.__init__`
  unfoldable pub derive : Readings → Seed → Text → ℤ → Result QuantumEphemeralKey
  unfolding validated
  derive t seed method key_lifetime_seconds = do
    (seed_int, seed_bytes) ← normalise seed
    commitment ← validated (record {
      seed_hash = hex (e.sha256 seed_bytes);
      measurement_timestamp = pos t.derived_at;
      measurement_method = method;
      key_creation_timestamp = pos t.derived_at;
      key_expiration_timestamp = pos t.derived_at +ℤ key_lifetime_seconds;
    })
    signer ← signer_of e c t.signer_at seed_int
    ok (record {
      seed_commitment = commitment;
      signer = signer;
      destroyed = false;
      pubkey_hex = none;
    })

  -- `sign` after the signature and the reading of the public key: the signer is destroyed.
  unfoldable pub seal :
      Readings
      → QuantumEphemeralKey
      → Dict
      → Signer
      → Result Text
      → Result Dict × QuantumEphemeralKey
  seal t k signature used (err x) = (err x, record k { signer = used })
  seal t k signature used (ok pubkey) = (
    ok signature,
    record {
      seed_commitment = k.seed_commitment;
      signer = (destroy e t.destroyed_at used).1;
      destroyed = true;
      pubkey_hex = some pubkey;
    },
  )

  -- `sign` after the signer's answer.
  unfoldable pub finish :
      Readings → QuantumEphemeralKey → Result Dict × Signer → Result Dict × QuantumEphemeralKey
  unfolding seal
  finish t k (err x, used) = (err x, record k { signer = used })
  finish t k (ok signature, used) = seal t k signature used (public_key_hex used)

  -- `sign`: one signature, and the key is gone.
  unfoldable pub sign :
      ℕ → Readings → Dict → QuantumEphemeralKey → Result Dict × QuantumEphemeralKey
  unfolding finish
  sign fuel t message k =
      if k.destroyed
      then (err key_destroyed_error, k)
      else finish t k (sign_manifest e c fuel t.signed_at message k.signer)

  -- `try: signature = key.sign(signable) except Exception: raise x`, and the test that the key is
  -- destroyed.
  unfoldable pub sign_or_raise : ℕ → Readings → Exn → Dict → QuantumEphemeralKey → Result Dict
  unfolding sign
  sign_or_raise fuel t x signable key = do
    let (result, used) = sign fuel t signable key
    signature ← elim result [ err _ ↦ err x | ok s ↦ ok s ]
    guard used.destroyed x
    ok signature

  -- `verify_signature`: `verify_static` raises nothing, so the handlers here add nothing.
  unfoldable pub verify_signature : Value → Value → Bool
  verify_signature message signature = verify_static e c message signature

-- The property `public_key_hex` of a key.
unfoldable pub key_pubkey_hex : QuantumEphemeralKey → Result Text
key_pubkey_hex k =
    if not k.destroyed
    then public_key_hex k.signer
    else elim k.pubkey_hex [ none ↦ err attribute_error | some t ↦ ok t ]
