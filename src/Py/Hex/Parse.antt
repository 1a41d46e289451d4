-- ===== src/Py/Hex/Parse.antt =====
-- `int(text, 16)` reads back what `format(n, "064x")` and `bytes.hex` write.
use native.Mathlib.Nat.{mod-eq_of_lt}
use protocol_c.Prelude.{
  ℕ, ◌+◌, ◌*◌, ◌/◌, ◌%◌, ◌^◌, ◌≤◌, ◌<◌, ◌≡◌, refl, sym, ap, ◌∙◌, false, some, List, [], ◌∷◌, Bytes,
  Text, length, All, ◌==◌, arith,
}
use protocol_c.Prelude.Int.{pos}
use protocol_c.Py.Hex.{
  from_bytes, hex, low_digits, hex_digit, hex_text, format_064x, digit_value, is_space, strip_left,
  digits_from, digits_of, unprefixed, signed, int16,
}
use protocol_c.Py.Hex.Digits.{
  value_onto, value-low_digits, low_digits-lt, length-low_digits, from_bytes-value,
}

digit_value-hex_digit : (d : ℕ) → d < 16 → digit_value (hex_digit d) ≡ some d
unfolding digit_value hex_digit
digit_value-hex_digit d h = ground arith

-- What a hexadecimal digit is not.
record IsPlain (c : ℕ) : Type 0 where
  no_space : is_space c ≡ false
  no_underscore : (c == b'_') ≡ false
  no_minus : (c == b'-') ≡ false
  no_plus : (c == b'+') ≡ false
  no_x : (c == b'x') ≡ false
  no_big_x : (c == b'X') ≡ false

hex_digit-IsPlain : (d : ℕ) → d < 16 → IsPlain (hex_digit d)
unfolding hex_digit is_space
hex_digit-IsPlain d h = ground arith

digits_from-hex_text :
    (acc : ℕ) (ds : List ℕ)
    → All (λ d. d < 16) ds
    → digits_from false acc (hex_text ds) ≡ some (value_onto 16 acc ds)
unfolding digits_from hex_text
digits_from-hex_text acc [] h = refl
digits_from-hex_text acc (d ∷ ds) h = ground (
  arith,
  digit_value-hex_digit d h.0,
  (hex_digit-IsPlain d h.0).no_underscore,
  digits_from-hex_text (acc * 16 + d) ds h.1,
)

digits_of-hex_text :
    (d : ℕ) (ds : List ℕ)
    → All (λ d. d < 16) (d ∷ ds)
    → digits_of (hex_text (d ∷ ds)) ≡ some (value_onto 16 d ds)
unfolding digits_of hex_text
digits_of-hex_text d ds h =
    rw (digit_value-hex_digit d h.0, digits_of) (digits_from-hex_text d ds h.1)

-- Three digits or more are read as they stand.
unprefixed-hex_text :
    (d f g : ℕ) (ds : List ℕ)
    → All (λ d. d < 16) (d ∷ f ∷ g ∷ ds)
    → unprefixed (hex_text (d ∷ f ∷ g ∷ ds)) ≡ some (value_onto 16 d (f ∷ g ∷ ds))
unfolding unprefixed hex_text
unprefixed-hex_text d f g ds h = ground (
  arith,
  (hex_digit-IsPlain f h.1.0).no_x,
  (hex_digit-IsPlain f h.1.0).no_big_x,
  digits_of-hex_text d (f ∷ g ∷ ds) h,
)

pub int16-hex_text :
    (d f g : ℕ) (ds : List ℕ)
    → All (λ d. d < 16) (d ∷ f ∷ g ∷ ds)
    → int16 (hex_text (d ∷ f ∷ g ∷ ds)) ≡ some (pos (value_onto 16 0 (d ∷ f ∷ g ∷ ds)))
unfolding int16 signed strip_left hex_text
int16-hex_text d f g ds h =
    let start : value_onto 16 d (f ∷ g ∷ ds) ≡ value_onto 16 0 (d ∷ f ∷ g ∷ ds) =
      ap (λ (t : ℕ). value_onto 16 t (f ∷ g ∷ ds)) (omega arith) in
    ground (arith, hex_digit-IsPlain d h.0, unprefixed-hex_text d f g ds h, start)

-- A list of three items or more.
int16_long :
    (ds : List ℕ)
    → 3 ≤ length ds
    → All (λ d. d < 16) ds
    → int16 (hex_text ds) ≡ some (pos (value_onto 16 0 ds))
int16_long [] n h = absurd (omega arith)
int16_long (d ∷ []) n h = absurd (omega arith)
int16_long (d ∷ f ∷ []) n h = absurd (omega arith)
int16_long (d ∷ f ∷ g ∷ ds) n h = int16-hex_text d f g ds h

-- `int(format(n, "064x"), 16) == n`
pub int16-format : (n : ℕ) → n < 16 ^ 64 → int16 (format_064x n) ≡ some (pos n)
unfolding format_064x
int16-format n h =
    int16_long (low_digits 16 64 n) (omega (arith, length-low_digits 16 64 n))
      (low_digits-lt 16 64 n (omega arith))
    ∙ ap (λ (t : ℕ). some (pos t)) (value-low_digits 16 64 n (omega arith) ∙ mod-eq_of_lt h)

-- The two digits of each byte.
nibbles : Bytes → List ℕ
nibbles [] = []
nibbles (b ∷ bs) = b / 16 ∷ b % 16 ∷ nibbles bs

hex-nibbles : (bs : Bytes) → hex bs ≡ hex_text (nibbles bs)
unfolding hex hex_text nibbles
hex-nibbles [] = refl
hex-nibbles (b ∷ bs) =
    ap (λ (t : Text). hex_digit (b / 16) ∷ hex_digit (b % 16) ∷ t) (hex-nibbles bs)

nibbles-lt : (bs : Bytes) → All (λ b. b < 256) bs → All (λ d. d < 16) (nibbles bs)
unfolding nibbles
nibbles-lt [] h = tt
nibbles-lt (b ∷ bs) h = (omega (arith, h.0), (omega arith, nibbles-lt bs h.1))

length-nibbles : (bs : Bytes) → length (nibbles bs) ≡ 2 * length bs
unfolding nibbles
length-nibbles [] = omega arith
length-nibbles (b ∷ bs) = omega (arith, length-nibbles bs)

value-nibbles : (acc : ℕ) (bs : Bytes) → value_onto 16 acc (nibbles bs) ≡ value_onto 256 acc bs
unfolding nibbles
value-nibbles acc [] = refl
value-nibbles acc (b ∷ bs) =
    ap (λ (t : ℕ). value_onto 16 t (nibbles bs)) (omega arith) ∙ value-nibbles (acc * 256 + b) bs

-- `int(bs.hex(), 16) == int.from_bytes(bs, "big")`, of two bytes or more.
pub int16-hex :
    (bs : Bytes)
    → 2 ≤ length bs
    → All (λ b. b < 256) bs
    → int16 (hex bs) ≡ some (pos (from_bytes bs))
int16-hex bs n h =
    ap int16 (hex-nibbles bs)
    ∙ int16_long (nibbles bs) (omega (arith, length-nibbles bs)) (nibbles-lt bs h)
    ∙ ap (λ (t : ℕ). some (pos t)) (value-nibbles 0 bs ∙ sym (from_bytes-value bs))
