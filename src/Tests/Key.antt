-- ===== src/Tests/Key.antt =====
-- Instances of the theorems on the key that signs once.
use protocol_c.Prelude.{◌≡◌, ◌↔◌, refl, true, none, [], text_eq, codes}
use protocol_c.Prelude.Int.{pos, ◌+ℤ◌, ltb_ℤ}
use protocol_c.Py.Result.{ok, err, or_else, key_destroyed_error}
use protocol_c.Py.Value.{Dict, end, field, str}
use protocol_c.Py.Hex.{low_digits, from_bytes, to_bytes_32, hex}
use protocol_c.Curve.{point_mul, ladder}
use protocol_c.Ecdsa.{ecdsa_sign, rfc6979_k, nonce_loop, sign_with}
use protocol_c.Signer.{create, destroy, sign_manifest, public_key_hex, derive_privkey}
use protocol_c.Key.{
  number, Readings, QuantumEphemeralKey, validated, derive, seal, finish, sign,
  default_key_lifetime_seconds, is_measurement_method,
}
use protocol_c.Key.OneShot.{IsSpent, sign-IsSpent}
use protocol_c.Key.Total.{IsSeed, derive_total}
use protocol_c.Tests.Tiny.{tiny, tiny-IsGroup}
use protocol_c.Tests.Fixture.{env, checksum, show, env-IsStandard}
use protocol_c.Tests.Signer.{blank}

abbrev pub clock : Readings
clock = record { derived_at = 1000; signer_at = 1000; signed_at = codes "t"; destroyed_at = 1001 }

abbrev pub blank_key : QuantumEphemeralKey
blank_key = record {
  seed_commitment = record {
    seed_hash = [];
    measurement_timestamp = pos 0;
    measurement_method = [];
    key_creation_timestamp = pos 0;
    key_expiration_timestamp = pos 0;
  };
  signer = blank;
  destroyed = true;
  pubkey_hex = none;
}

key : QuantumEphemeralKey
key =
    or_else
      (derive env tiny clock (number (pos 12345)) (codes "CSPRNG") default_key_lifetime_seconds)
      blank_key

derives :
    derive env tiny clock (number (pos 12345)) (codes "CSPRNG") default_key_lifetime_seconds
    ≡ ok key
unfolding key derive validated create derive_privkey point_mul ladder checksum low_digits
    to_bytes_32 from_bytes hex text_eq ◌+ℤ◌
derives = refl

derive_total_example :
    ((k : QuantumEphemeralKey) × (derive env tiny clock
          (number (pos 12345))
          (codes "CSPRNG")
          default_key_lifetime_seconds
        ≡ ok k))
    ↔ (IsSeed (number (pos 12345))
        × (is_measurement_method (codes "CSPRNG") ≡ true)
        × (ltb_ℤ (pos 0) default_key_lifetime_seconds ≡ true))
derive_total_example =
    derive_total tiny-IsGroup env env-IsStandard clock (number (pos 12345)) (codes "CSPRNG")
      default_key_lifetime_seconds

abbrev message : Dict
message = field "order_id" (str (codes "o1")) end

signature : Dict
signature = or_else (sign env tiny 40 clock message key).0 end

spent : QuantumEphemeralKey
spent = (sign env tiny 40 clock message key).1

signs_once : sign env tiny 40 clock message key ≡ (ok signature, spent)
unfolding signature spent key derive validated create derive_privkey point_mul ladder checksum
    low_digits to_bytes_32 from_bytes hex text_eq ◌+ℤ◌ sign finish seal sign_manifest ecdsa_sign
    rfc6979_k nonce_loop sign_with public_key_hex destroy show
signs_once = refl

sign-IsSpent_example :
    IsSpent spent × (sign env tiny 40 clock message spent ≡ (err key_destroyed_error, spent))
sign-IsSpent_example =
    sign-IsSpent env tiny 40 40 clock clock message message signature key spent signs_once
