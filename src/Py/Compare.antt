-- ===== src/Py/Compare.antt =====
-- `bool(v)`, `v == w` and `v < w` on values.
use protocol_c.Prelude.{
  zero, Bool, true, false, not, ◌&&◌, none, some, [], ◌∷◌, Text, text_eq, ltb, ◌==◌, if◌then◌else◌,
}
use protocol_c.Prelude.Int.{pos}
use protocol_c.Py.Result.{Result, ok, err, type_error}
use protocol_c.Py.Value.{
  Value, null, bool, int, float, str, arr, obj, Items, nil, cons, Dict, end, field, dict_get,
  dict_size,
}
use protocol_c.Py.Number.{Number, fin, as_number, of_float, num_lt, num_le, num_eq, of_int, of_bool}

-- `bool(v)`
unfoldable pub truthy : Value → Bool
unfolding of_float num_eq
truthy null = false
truthy (bool b) = b
truthy (int (pos zero)) = false
truthy (int z) = true
truthy (float b) = not (num_eq (of_float b) (fin (pos 0)))
truthy (str []) = false
truthy (str (c ∷ cs)) = true
truthy (arr nil) = false
truthy (arr (cons v vs)) = true
truthy (obj end) = false
truthy (obj (field k v d)) = true

-- a number against any value
unfoldable pub eq_number : Number → Value → Bool
unfolding num_eq as_number
eq_number x v = elim (as_number v) [ none ↦ false | some y ↦ num_eq x y ]

-- `v == w`. Dicts are equal when they have one size and each item of the one is in the other.
unfoldable mutual
  unfolding eq_number of_bool of_int of_float dict_get dict_size text_eq

  pub py_eq : Value → Value → Bool
  py_eq null null = true
  py_eq null w = false
  py_eq (bool b) w = eq_number (of_bool b) w
  py_eq (int z) w = eq_number (of_int z) w
  py_eq (float b) w = eq_number (of_float b) w
  py_eq (str s) (str t) = text_eq s t
  py_eq (str s) w = false
  py_eq (arr vs) (arr ws) = items_eq vs ws
  py_eq (arr vs) w = false
  py_eq (obj d) (obj e) = dict_size d == dict_size e && fields_in d e
  py_eq (obj d) w = false

  pub items_eq : Items → Items → Bool
  items_eq nil nil = true
  items_eq nil (cons w ws) = false
  items_eq (cons v vs) nil = false
  items_eq (cons v vs) (cons w ws) = py_eq v w && items_eq vs ws

  pub fields_in : Dict → Dict → Bool
  fields_in end e = true
  fields_in (field k v d) e =
      (elim (dict_get e k) [ none ↦ false | some w ↦ py_eq v w ]) && fields_in d e

-- `s < t` on texts: by code points.
unfoldable pub text_lt : Text → Text → Bool
text_lt s [] = false
text_lt [] (d ∷ ds) = true
text_lt (c ∷ cs) (d ∷ ds) = if c == d then text_lt cs ds else ltb c d

-- a number against any value, by `<` or `<=`
unfoldable pub order_number : Bool → Number → Value → Result Bool
unfolding num_lt num_le as_number
order_number strict x v = elim (as_number v) [
  | none ↦ err type_error
  | some y ↦ ok (if strict then num_lt x y else num_le x y)
]

-- `v < w` where the flag is set, else `v <= w`. Numbers compare with numbers, texts with texts and
-- lists with lists, by the first pair that differs; all else raises TypeError.
unfoldable mutual
  unfolding order_number py_eq text_lt of_bool of_int of_float

  pub order : Bool → Value → Value → Result Bool
  order strict null w = err type_error
  order strict (bool b) w = order_number strict (of_bool b) w
  order strict (int z) w = order_number strict (of_int z) w
  order strict (float b) w = order_number strict (of_float b) w
  order strict (str s) (str t) = ok (if strict then text_lt s t else not (text_lt t s))
  order strict (str s) w = err type_error
  order strict (arr vs) (arr ws) = order_items strict vs ws
  order strict (arr vs) w = err type_error
  order strict (obj d) w = err type_error

  pub order_items : Bool → Items → Items → Result Bool
  order_items strict nil nil = ok (not strict)
  order_items strict nil (cons w ws) = ok true
  order_items strict (cons v vs) nil = ok false
  order_items strict (cons v vs) (cons w ws) =
      if py_eq v w then order_items strict vs ws else order strict v w

abbrev pub py_lt : Value → Value → Result Bool
py_lt = order true

abbrev pub py_le : Value → Value → Result Bool
py_le = order false
