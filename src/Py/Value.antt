-- ===== src/Py/Value.antt =====
-- The values of `json`: what `json.loads` returns and what the signed dicts hold. A float is its
-- IEEE 754 pattern of 64 bits, a dict the list of its items in insertion order.
use protocol_c.Prelude.{
  ℕ, ◌+◌, String, ◌≡◌, refl, Bool, true, false, Option, none, some, Text, length, str_eq, eq_iff,
  arith, if◌then◌else◌,
}
use protocol_c.Prelude.Int.{ℤ}
use protocol_c.Py.Result.{Result, ok, err, key_error, attribute_error, type_error}

mutual
  pub data Value : Type 0 where
    null : Value
    bool : Bool → Value
    int : ℤ → Value
    float : ℕ → Value
    str : Text → Value
    arr : Items → Value
    obj : Dict → Value

  pub data Items : Type 0 where
    nil : Items
    cons : Value → Items → Items

  pub data Dict : Type 0 where
    end : Dict
    field : String → Value → Dict → Dict

-- `d.get(k)` with `none` for a missing key.
unfoldable pub dict_get : Dict → String → Option Value
dict_get end k = none
dict_get (field j v d) k = if str_eq j k then some v else dict_get d k

-- `d[k]`
unfoldable pub item : Dict → String → Result Value
unfolding dict_get
item d k = elim (dict_get d k) [ none ↦ err key_error | some v ↦ ok v ]

-- `d.get(k, default)`
unfoldable pub get_or : Dict → String → Value → Value
unfolding dict_get
get_or d k v = elim (dict_get d k) [ none ↦ v | some w ↦ w ]

-- `k in d`
unfoldable pub has_key : Dict → String → Bool
unfolding dict_get
has_key d k = elim (dict_get d k) [ none ↦ false | some _ ↦ true ]

-- `d[k] = v`
unfoldable pub dict_set : Dict → String → Value → Dict
dict_set end k v = field k v end
dict_set (field j w d) k v = if str_eq j k then field j v d else field j w (dict_set d k v)

-- `len(d)`
unfoldable pub dict_size : Dict → ℕ
dict_size end = 0
dict_size (field k v d) = dict_size d + 1

-- `len` of a list
unfoldable pub items_size : Items → ℕ
items_size nil = 0
items_size (cons v vs) = items_size vs + 1

-- `len(v)`
unfoldable pub py_len : Value → Result ℕ
unfolding items_size dict_size
py_len (str s) = ok (length s)
py_len (arr vs) = ok (items_size vs)
py_len (obj d) = ok (dict_size d)
py_len null = err type_error
py_len (bool b) = err type_error
py_len (int z) = err type_error
py_len (float b) = err type_error

-- The receiver of `.get`: any value but a dict raises AttributeError.
unfoldable pub as_dict : Value → Result Dict
as_dict (obj d) = ok d
as_dict null = err attribute_error
as_dict (bool b) = err attribute_error
as_dict (int z) = err attribute_error
as_dict (float b) = err attribute_error
as_dict (str s) = err attribute_error
as_dict (arr xs) = err attribute_error

-- `isinstance(v, dict)`
unfoldable pub is_dict : Value → Bool
is_dict (obj d) = true
is_dict null = false
is_dict (bool b) = false
is_dict (int z) = false
is_dict (float b) = false
is_dict (str s) = false
is_dict (arr xs) = false

pub dict_get-set :
    (d : Dict) (k j : String) (v : Value)
    → dict_get (dict_set d k v) j ≡ (if str_eq k j then some v else dict_get d j)
unfolding dict_get dict_set
dict_get-set end k j v = refl
dict_get-set (field i w d) k j v =
    ground (arith, eq_iff k j, eq_iff i k, eq_iff i j, dict_get-set d k j v)
