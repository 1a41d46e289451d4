-- ===== src/Timestamp/Token.antt =====
-- A token that is written as a dict and read back.
use protocol_c.Prelude.{
  ℕ, ◌+◌, ◌*◌, ◌/◌, ◌%◌, ◌<◌, ◌≡◌, refl, ap, ◌∙◌, false, some, List, [], ◌∷◌, Bytes, All, arith,
}
use protocol_c.Py.Result.{ok}
use protocol_c.Py.Value.{item, dict_get}
use protocol_c.Py.Hex.{hex, hex_digit, digit_value}
use protocol_c.Timestamp.{
  TimestampToken, token_to_dict, token_from_dict, from_hex, hex_pair, is_ascii_space,
}

digit-back : (d : ℕ) → d < 16 → digit_value (hex_digit d) ≡ some d
unfolding digit_value hex_digit
digit-back d h = ground arith

digit-not-space : (d : ℕ) → d < 16 → is_ascii_space (hex_digit d) ≡ false
unfolding hex_digit
digit-not-space d h = ground arith

from_hex-pair :
    (c d x y : ℕ) (cs : List ℕ) (bs : Bytes)
    → is_ascii_space c ≡ false
    → digit_value c ≡ some x
    → digit_value d ≡ some y
    → from_hex cs ≡ ok bs
    → from_hex (c ∷ d ∷ cs) ≡ ok ((x * 16 + y) ∷ bs)
unfolding from_hex
from_hex-pair c d x y cs bs plain first second rest =
    rw (from_hex, plain, hex_pair, first, second, rest) refl

-- `bytes.fromhex` of `bytes.hex`
pub from_hex-hex : (bs : Bytes) → All (λ b. b < 256) bs → from_hex (hex bs) ≡ ok bs
unfolding from_hex hex
from_hex-hex [] _ = refl
from_hex-hex (b ∷ bs) (byte, bytes) =
    from_hex-pair (hex_digit (b / 16)) (hex_digit (b % 16)) (b / 16) (b % 16) (hex bs) bs
      (digit-not-space (b / 16) (omega (arith, byte))) (digit-back (b / 16) (omega (arith, byte)))
      (digit-back (b % 16) (omega arith)) (from_hex-hex bs bytes)
    ∙ ap (λ (c : ℕ). ok (c ∷ bs)) (omega arith)

-- A token whose hexadecimal text is that of its bytes is read back from its dict as it was.
pub token_from_dict-to_dict :
    (t : TimestampToken)
    → All (λ b. b < 256) t.token_bytes
    → t.token_hex ≡ hex t.token_bytes
    → token_from_dict (token_to_dict t) ≡ ok t
unfolding token_from_dict token_to_dict item dict_get
token_from_dict-to_dict t bytes written = rw (written, from_hex-hex t.token_bytes bytes) refl
