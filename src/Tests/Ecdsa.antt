-- ===== src/Tests/Ecdsa.antt =====
-- Runs and instances of the curve's and the signature's theorems.
use protocol_c.Prelude.{
  ℕ, ◌*◌, ◌%◌, ◌≤◌, ◌<◌, ◌≡◌, refl, true, some, [], ◌∷◌, ◌++◌, Bytes, replicate, ◌==◌,
  if◌then◌else◌, arith,
}
use protocol_c.Prelude.Int.{pos, residue}
use protocol_c.Py.Result.{ok, err, value_error}
use protocol_c.Py.Hex.{low_digits, from_bytes, to_bytes_32}
use protocol_c.Curve.{secp256k1, generator, point_mul, ladder}
use protocol_c.Ecdsa.{ecdsa_sign, ecdsa_verify, rfc6979_k, nonce_loop, sign_with}
use protocol_c.Ecdsa.RoundTrip.{ecdsa_verify-sign, sign_with_total, signed_number, low_half}
use protocol_c.Ecdsa.Bounds.{InRange, ecdsa_sign-InRange}
use protocol_c.Ecdsa.Nonce.{rfc6979_k_total}
use protocol_c.Tests.Tiny.{tiny, multiple, tiny-IsGroup}
use protocol_c.Tests.Fixture.{env, checksum}

double_generator :
    point_mul secp256k1 2 (some (generator secp256k1))
    ≡ ok (
        some (record {
          x = pos 0xC6047F9441ED7D6D3045406E95C07CD85C778E4B8CEF3CA7ABAC09B95C709EE5;
          y = pos 0x1AE168FEA63DC339A3C58419466CEAEEF7F632653266D0E1236431A950CFE52A;
        }))
unfolding point_mul ladder
double_generator = refl

-- The hash of the run below, its signature by the private key 5, and the run.
abbrev message_hash : Bytes
message_hash = 1 ∷ 2 ∷ 3 ∷ []

signs : ecdsa_sign env tiny 40 5 message_hash ≡ ok (9, 6)
unfolding ecdsa_sign rfc6979_k nonce_loop sign_with point_mul ladder checksum low_digits to_bytes_32
    from_bytes
signs = refl

ecdsa_verify-sign_example : ecdsa_verify tiny (multiple 5) message_hash (pos 9) (pos 6) ≡ ok true
ecdsa_verify-sign_example = ecdsa_verify-sign tiny-IsGroup env 40 5 message_hash 9 6 signs

ecdsa_sign-InRange_example : InRange tiny (9, 6)
ecdsa_sign-InRange_example = ecdsa_sign-InRange env tiny 40 5 message_hash 9 6 (omega arith) signs

-- The private key 5 as bytes; the first round reads a number in range.
abbrev key_bytes : Bytes
key_bytes = replicate 31 0 ++ 5 ∷ []

rfc6979_k_total_example :
    (x : ℕ) × (rfc6979_k env tiny 40 5 message_hash ≡ ok x)
    × (rfc6979_k env tiny 1 5 message_hash ≡ ok x)
    × (1 ≤ x)
    × (x < 31)
unfolding to_bytes_32 low_digits from_bytes checksum
rfc6979_k_total_example =
    rfc6979_k_total env tiny 0 40 5 message_hash key_bytes (omega arith) refl (omega arith)
      (omega arith)

sign_with_total_example :
    (i : ℕ) × (i * 3 % 31 ≡ 1)
    × (sign_with tiny 3 6 5 ≡ (
        let r = residue 31 (pos 35) in
        if r == 0
        then err value_error
        else if signed_number tiny-IsGroup i 6 r 5 == 0
        then err value_error
        else ok (r, low_half tiny-IsGroup (signed_number tiny-IsGroup i 6 r 5))))
sign_with_total_example =
    sign_with_total tiny-IsGroup 3 6 5 (record { x = pos 35; y = pos 21 }) (omega arith)
      (omega arith) refl
