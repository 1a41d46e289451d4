-- ===== src/Py/Hex.antt =====
-- Bytes, numbers and hexadecimal text: `int.from_bytes`, `int.to_bytes`, `bytes.hex`,
-- `format(n, "064x")` and `int(text, 16)`.
pub mod Digits
pub mod Parse
use protocol_c.Prelude.{
  ℕ, zero, suc, ◌+◌, ◌-◌, ◌*◌, ◌/◌, ◌%◌, ◌^◌, Bool, true, false, not, ◌&&◌, ◌||◌, Option, none,
  some, List, [], ◌∷◌, ◌++◌, Text, Bytes, ltb, leb, ◌==◌, if◌then◌else◌,
}
use protocol_c.Prelude.Int.{ℤ, pos, sub_ℕ}

from_bytes_onto : ℕ → Bytes → ℕ
from_bytes_onto acc [] = acc
from_bytes_onto acc (b ∷ bs) = from_bytes_onto (acc * 256 + b) bs

-- `int.from_bytes(bs, "big")`
unfoldable pub from_bytes : Bytes → ℕ
unfolding from_bytes_onto
from_bytes bs = from_bytes_onto 0 bs

-- The `w` low digits of `n` to the base `b`, the high ones first.
unfoldable pub low_digits : ℕ → ℕ → ℕ → List ℕ
low_digits b zero n = []
low_digits b (suc w) n = low_digits b w (n / b) ++ (n % b) ∷ []

-- `n.to_bytes(32, "big")`, with `none` for its OverflowError.
unfoldable pub to_bytes_32 : ℕ → Option Bytes
to_bytes_32 n = if ltb n (2 ^ 256) then some (low_digits 256 32 n) else none

-- The character of a hexadecimal digit.
unfoldable pub hex_digit : ℕ → ℕ
hex_digit d = if ltb d 10 then b'0' + d else b'a' + d - 10

-- `bs.hex()`
unfoldable pub hex : Bytes → Text
unfolding hex_digit
hex [] = []
hex (b ∷ bs) = hex_digit (b / 16) ∷ hex_digit (b % 16) ∷ hex bs

unfoldable pub hex_text : List ℕ → Text
unfolding hex_digit
hex_text [] = []
hex_text (d ∷ ds) = hex_digit d ∷ hex_text ds

-- `format(n, "064x")` for `n < 16 ^ 64`, which holds of both numbers in a signature.
unfoldable pub format_064x : ℕ → Text
format_064x n = hex_text (low_digits 16 64 n)

-- What `int(text, 16)` takes for a digit, in either case.
unfoldable pub digit_value : ℕ → Option ℕ
digit_value c =
    if leb b'0' c && leb c b'9'
    then some (c - b'0')
    else if leb b'a' c && leb c b'f'
    then some (c - b'a' + 10)
    else if leb b'A' c && leb c b'F'
    then some (c - b'A' + 10)
    else none

-- ASCII white space, which `int` strips at both ends.
is_space : ℕ → Bool
is_space c = c == 32 || (leb 9 c && leb c 13) || (leb 28 c && leb c 31)

strip_left : Text → Text
unfolding is_space
strip_left [] = []
strip_left (c ∷ cs) = if is_space c then strip_left cs else c ∷ cs

all_space : Text → Bool
unfolding is_space
all_space [] = true
all_space (c ∷ cs) = is_space c && all_space cs

-- The digits after the first, each perhaps behind one underscore, then white space; the flag is
-- set behind an underscore.
digits_from : Bool → ℕ → Text → Option ℕ
unfolding digit_value all_space
digits_from behind acc [] = if behind then none else some acc
digits_from behind acc (c ∷ cs) =
    let next : Option ℕ = elim (digit_value c) [
      | some d ↦ digits_from false (acc * 16 + d) cs
      | none ↦ if not behind && all_space (c ∷ cs) then some acc else none
    ] in
    let skip = digits_from true acc cs in if c == b'_' && not behind then skip else next

digits_of : Text → Option ℕ
unfolding digits_from
digits_of [] = none
digits_of (c ∷ cs) = elim (digit_value c) [ none ↦ none | some d ↦ digits_from false d cs ]

-- `0x` or `0X` before the digits, and perhaps an underscore behind it.
unprefixed : Text → Option ℕ
unfolding digits_of
unprefixed (c ∷ x ∷ u ∷ cs) =
    if c == b'0' && (x == b'x' || x == b'X')
    then (if u == b'_' then digits_of cs else digits_of (u ∷ cs))
    else digits_of (c ∷ x ∷ u ∷ cs)
unprefixed s = digits_of s

signed : Text → Option ℤ
unfolding unprefixed
signed [] = none
signed (c ∷ cs) =
    if c == b'-'
    then (elim (unprefixed cs) [ none ↦ none | some n ↦ some (sub_ℕ 0 n) ])
    else if c == b'+'
    then (elim (unprefixed cs) [ none ↦ none | some n ↦ some (pos n) ])
    else (elim (unprefixed (c ∷ cs)) [ none ↦ none | some n ↦ some (pos n) ])

-- `int(text, 16)` on ASCII text, with `none` for its ValueError.
unfoldable pub int16 : Text → Option ℤ
unfolding signed strip_left
int16 s = signed (strip_left s)
