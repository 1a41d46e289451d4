-- ===== src/Py/Convert.antt =====
-- `float(v)`, `int(v)` and `str(v)` of a value.
use protocol_c.Prelude.{ℕ, suc, ◌/◌, ◌^◌, true, false, none, some, Text}
use protocol_c.Prelude.Int.{ℤ, pos, negsuc, sub_ℕ}
use protocol_c.Py.Result.{Result, ok, err, type_error, value_error, overflow_error}
use protocol_c.Py.Value.{Value, null, bool, int, float, str, arr, obj}
use protocol_c.Py.Number.{Number, nan, plus_inf, minus_inf, fin, of_float}
use protocol_c.Py.Env.{Env}

-- `float(v)`: the pattern of the float.
unfoldable pub to_float : Env → Value → Result ℕ
to_float e (float b) = ok b
to_float e (int z) = elim (e.float_of_int z) [ none ↦ err overflow_error | some b ↦ ok b ]
to_float e (bool true) = elim (e.float_of_int (pos 1)) [ none ↦ err overflow_error | some b ↦ ok b ]
to_float e (bool false) = elim (e.float_of_int (pos 0)) [
  | none ↦ err overflow_error
  | some b ↦ ok b
]
to_float e (str s) = elim (e.float_of_text s) [ none ↦ err value_error | some b ↦ ok b ]
to_float e null = err type_error
to_float e (arr vs) = err type_error
to_float e (obj d) = err type_error

-- `int` of a float: towards 0.
abbrev truncated : Number → Result ℤ
truncated nan = err value_error
truncated plus_inf = err overflow_error
truncated minus_inf = err overflow_error
truncated (fin (pos n)) = ok (pos (n / 2 ^ 1074))
truncated (fin (negsuc n)) = ok (sub_ℕ 0 (suc n / 2 ^ 1074))

-- `int(v)`
unfoldable pub to_int : Env → Value → Result ℤ
to_int e (int z) = ok z
to_int e (bool true) = ok (pos 1)
to_int e (bool false) = ok (pos 0)
to_int e (float b) = truncated (of_float b)
to_int e (str s) = elim (e.int_of_text s) [ none ↦ err value_error | some z ↦ ok z ]
to_int e null = err type_error
to_int e (arr vs) = err type_error
to_int e (obj d) = err type_error

-- `str(v)`, as an f-string writes it
abbrev pub to_text : Env → Value → Text
to_text e (str s) = s
to_text e v = e.format v
