-- ===== src/Py/Number.antt =====
-- Python's numbers under comparison. CPython compares an int with a float exactly, so both are read
-- as integers scaled by 2 ^ 1074, the least positive float's denominator.
use protocol_c.Prelude.{
  ℕ, ◌+◌, ◌-◌, ◌*◌, ◌/◌, ◌%◌, ◌^◌, Bool, true, false, Option, none, some, ltb, ◌==◌, if◌then◌else◌,
}
use protocol_c.Prelude.Int.{ℤ, pos, scale, sub_ℕ, ltb_ℤ, eqb_ℤ}
use protocol_c.Py.Value.{Value, null, bool, int, float, str, arr, obj}

pub data Number : Type 0 where
  nan plus_inf minus_inf : Number
  fin : ℤ → Number

-- The fields of a binary64 pattern: one sign bit, 11 bits of exponent, 52 of fraction.
unfoldable pub of_float : ℕ → Number
of_float b =
    let negative = ltb 0 (b / 2 ^ 63 % 2) in
    let exponent = b / 2 ^ 52 % 2 ^ 11 in
    let fraction = b % 2 ^ 52 in
    let size = if exponent == 0 then fraction else (2 ^ 52 + fraction) * 2 ^ (exponent - 1) in
    if exponent == 2047
    then (if fraction == 0 then (if negative then minus_inf else plus_inf) else nan)
    else fin (if negative then sub_ℕ 0 size else pos size)

unfoldable pub of_int : ℤ → Number
of_int z = fin (scale (2 ^ 1074) z)

unfoldable pub of_bool : Bool → Number
unfolding of_int
of_bool true = of_int (pos 1)
of_bool false = of_int (pos 0)

-- The number that a value is, if it is one: `bool` is a subclass of `int`.
unfoldable pub as_number : Value → Option Number
unfolding of_bool of_int of_float
as_number null = none
as_number (bool b) = some (of_bool b)
as_number (int z) = some (of_int z)
as_number (float b) = some (of_float b)
as_number (str s) = none
as_number (arr xs) = none
as_number (obj d) = none

-- `x < y`; a comparison with NaN is false.
unfoldable pub num_lt : Number → Number → Bool
num_lt nan y = false
num_lt plus_inf y = false
num_lt minus_inf nan = false
num_lt minus_inf minus_inf = false
num_lt minus_inf plus_inf = true
num_lt minus_inf (fin b) = true
num_lt (fin a) nan = false
num_lt (fin a) minus_inf = false
num_lt (fin a) plus_inf = true
num_lt (fin a) (fin b) = ltb_ℤ a b

-- `x == y`
unfoldable pub num_eq : Number → Number → Bool
num_eq nan y = false
num_eq plus_inf plus_inf = true
num_eq plus_inf nan = false
num_eq plus_inf minus_inf = false
num_eq plus_inf (fin b) = false
num_eq minus_inf minus_inf = true
num_eq minus_inf nan = false
num_eq minus_inf plus_inf = false
num_eq minus_inf (fin b) = false
num_eq (fin a) nan = false
num_eq (fin a) plus_inf = false
num_eq (fin a) minus_inf = false
num_eq (fin a) (fin b) = eqb_ℤ a b

-- `x <= y`
unfoldable pub num_le : Number → Number → Bool
unfolding num_lt num_eq
num_le x y = if num_lt x y then true else num_eq x y
