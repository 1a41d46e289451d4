-- ===== src/Tests/Signer.antt =====
-- Instances of the theorems on the signer, the one-shot key and the commitment.
use protocol_c.Prelude.{◌≡◌, refl, true, none, [], ◌++◌, Text, codes, All, replicate, length, arith}
use protocol_c.Prelude.Int.{pos}
use protocol_c.Py.Result.{ok, err, or_else, runtime_error, Result}
use protocol_c.Py.Value.{Dict, end, obj}
use protocol_c.Py.Hex.{low_digits, from_bytes, to_bytes_32, int16}
use protocol_c.Curve.{point_mul, ladder}
use protocol_c.Curve.Power.{pow_mod}
use protocol_c.Signer.{
  Signer, create, destroy, decompress, verify_static, sign_manifest, public_key_hex, derive_privkey,
}
use protocol_c.Signer.Lifecycle.{privkey, IsFresh, create-IsFresh, destroy_lem}
use protocol_c.Signer.OnCurve.{IsOnCurve, decompress-IsOnCurve}
use protocol_c.Signer.RoundTrip.{verify_static-sign_manifest}
use protocol_c.Tests.Field.{tiny-IsCurveGroup}
use protocol_c.Tests.Tiny.{tiny, multiple, tiny-IsGroup}
use protocol_c.Tests.Fixture.{env, checksum}

abbrev pub blank : Signer
blank = record { created_at = 0; destroyed = true; sign_count = 0; privkey_buf = []; pubkey = none }

fresh : Signer
fresh = or_else (create env tiny 0 12345) blank

creates : create env tiny 0 12345 ≡ ok fresh
unfolding fresh create derive_privkey point_mul ladder checksum low_digits to_bytes_32 from_bytes
creates = refl

create-IsFresh_example : IsFresh tiny multiple fresh
create-IsFresh_example = create-IsFresh tiny-IsGroup env 0 12345 fresh creates

destroy_lem_example :
    let s' = (destroy env 5 fresh).1 in
    All (λ x. x ≡ 0) s'.privkey_buf
    × (length s'.privkey_buf ≡ length fresh.privkey_buf)
    × (s'.sign_count ≡ fresh.sign_count)
    × (sign_manifest env tiny 40 (codes "t") end s' ≡ (err runtime_error, s'))
    × (public_key_hex s' ≡ err runtime_error)
destroy_lem_example = destroy_lem env tiny 5 40 fresh (codes "t") end

-- The generator of the small curve, (2, 12), as a compressed key.
abbrev generator_hex : Text
generator_hex = codes "02" ++ (replicate 62 b'0' ++ codes "02")

decompresses : decompress tiny generator_hex ≡ ok (record { x = pos 2; y = pos 12 })
unfolding decompress int16 pow_mod
decompresses = refl

decompress-IsOnCurve_example : IsOnCurve tiny (record { x = pos 2; y = pos 12 })
decompress-IsOnCurve_example =
    decompress-IsOnCurve tiny generator_hex (record { x = pos 2; y = pos 12 }) (omega arith)
      decompresses

-- The signer's answer for an empty manifest.
answer : Result Dict × Signer
answer = sign_manifest env tiny 40 (codes "t") end fresh

signature : Dict
signature = or_else answer.0 end

signs : sign_manifest env tiny 40 (codes "t") end fresh ≡ (ok signature, answer.1)
unfolding sign_manifest fresh create to_bytes_32 from_bytes low_digits checksum point_mul ladder
    protocol_c.Ecdsa.ecdsa_sign protocol_c.Ecdsa.rfc6979_k protocol_c.Ecdsa.nonce_loop
    protocol_c.Tests.Fixture.show protocol_c.Ecdsa.sign_with signature answer
signs = refl

owned : fresh.pubkey ≡ multiple (privkey fresh)
owned = let (_, _, _, _, o) = create-IsFresh tiny-IsGroup env 0 12345 fresh creates in o

verify_static-sign_manifest_example : verify_static env tiny (obj end) (obj signature) ≡ true
verify_static-sign_manifest_example =
    verify_static-sign_manifest tiny-IsCurveGroup env 40 (codes "t") end signature fresh answer.1
      owned signs
