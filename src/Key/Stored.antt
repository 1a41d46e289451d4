-- ===== src/Key/Stored.antt =====
-- The rest of aether_protocol_c/crypto.py: the record of a seed read back from a dict, a seed of the
-- system's random bytes, and `verify` of a key.
use protocol_c.Prelude.{Bool, Option, none, some, Text, Bytes, codes}
use protocol_c.Prelude.Int.{ℤ, pos}
use protocol_c.Py.Result.{Result, ok, ◌>>=◌}
use protocol_c.Py.Value.{Value, int, str, Dict, item}
use protocol_c.Py.Hex.{from_bytes}
use protocol_c.Py.Env.{Env}
use protocol_c.Curve.{Curve}
use protocol_c.Key.{QuantumSeedCommitment, validated, QuantumEphemeralKey, verify_signature}

-- The fields of a record of a seed, none where one is not of the type of its field: Python would go
-- on with any value.
abbrev typed_seed : Value → Value → Value → Value → Value → Option QuantumSeedCommitment
typed_seed (str hash) (int measured) (str method) (int created) (int expires) = some (record {
  seed_hash = hash;
  measurement_timestamp = measured;
  measurement_method = method;
  key_creation_timestamp = created;
  key_expiration_timestamp = expires;
})
typed_seed h m k a b = none

-- `from_dict`: the constructor checks the record again.
unfoldable pub seed_from_dict : Dict → Result (Option QuantumSeedCommitment)
unfolding item validated
seed_from_dict d = do
  seed_hash ← item d "seed_hash"
  measured ← item d "measurement_timestamp"
  method ← item d "measurement_method"
  created ← item d "key_creation_timestamp"
  expires ← item d "key_expiration_timestamp"
  elim (typed_seed seed_hash measured method created expires) [
    | none ↦ ok none
    | some q ↦ (do v ← validated q; ok (some v))
  ]

-- `get_quantum_seed`, on the 32 bytes that `secrets` gives; the argument is ignored.
unfoldable pub get_quantum_seed : Text → Bytes → ℤ × Text
unfolding from_bytes
get_quantum_seed method random = (pos (from_bytes random), codes "CSPRNG")

-- `QuantumEphemeralKey.verify`, which does not use the key.
unfoldable pub key_verify : Env → Curve → QuantumEphemeralKey → Value → Value → Bool
unfolding verify_signature
key_verify e c k message signature = verify_signature e c message signature
