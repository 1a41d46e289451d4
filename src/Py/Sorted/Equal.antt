-- ===== src/Py/Sorted/Equal.antt =====
-- Equality of values does not depend on the order of keys.
use protocol_c.Prelude.{
  ◌≡◌, refl, ap, ap₂, ◌∙◌, Bool, false, ◌&&◌, none, some, String, arith, Option-cases, Bool-cases,
  inl, inr, codes,
}
use protocol_c.Py.Value.{
  Value, null, bool, int, float, str, arr, obj, Items, nil, cons, Dict, end, field, dict_get,
}
use protocol_c.Py.Number.{Number, as_number, of_bool, of_int, of_float}
use protocol_c.Py.Compare.{eq_number, py_eq, items_eq, fields_in, text_lt}
use protocol_c.Py.Sorted.{insert_field, sort_keys, sort_items, sort_dict, dict_get-sort_dict}
use protocol_c.Py.Sorted.Values.{dict_size-sort_dict}

-- Whether an item of a dict is in another.
abbrev is_in : String → Value → Dict → Bool
is_in k v e = elim (dict_get e k) [ none ↦ false | some w ↦ py_eq v w ]

and_swap : (a b c : Bool) → (a && (b && c)) ≡ (b && (a && c))
and_swap a b c = ground arith

fields_in-insert_field :
    (k : String) (v : Value) (d e : Dict)
    → fields_in (insert_field k v d) e ≡ (is_in k v e && fields_in d e)
unfolding fields_in insert_field
fields_in-insert_field k v end e = refl
fields_in-insert_field k v (field j w d) e = elim (Bool-cases (text_lt (codes j) (codes k))) [
  | inr more ↦ rw more refl
  | inl less ↦ rw less (
      ap (λ (b : Bool). is_in j w e && b) (fields_in-insert_field k v d e)
      ∙ and_swap (is_in j w e) (is_in k v e) (fields_in d e))
]

eq_number-sort_keys : (x : Number) (v : Value) → eq_number x (sort_keys v) ≡ eq_number x v
unfolding eq_number as_number sort_keys
eq_number-sort_keys x null = refl
eq_number-sort_keys x (bool b) = refl
eq_number-sort_keys x (int z) = refl
eq_number-sort_keys x (float b) = refl
eq_number-sort_keys x (str s) = refl
eq_number-sort_keys x (arr vs) = refl
eq_number-sort_keys x (obj d) = refl

is_in-sort_dict :
    (k : String) (v : Value) (e : Dict)
    → ((w : Value) → py_eq (sort_keys v) (sort_keys w) ≡ py_eq v w)
    → is_in k (sort_keys v) (sort_dict e) ≡ is_in k v e
is_in-sort_dict k v e same = elim (Option-cases (dict_get e k)) [
  | inl missing ↦ rw (is_in, dict_get-sort_dict e k, missing) refl
  | inr (w, found) ↦ rw (is_in, dict_get-sort_dict e k, found) (same w)
]

mutual
  unfolding py_eq items_eq fields_in sort_keys sort_items sort_dict

  -- `v == w` for values with their keys sorted.
  pub py_eq-sort_keys : (v w : Value) → py_eq (sort_keys v) (sort_keys w) ≡ py_eq v w
  py_eq-sort_keys null null = refl
  py_eq-sort_keys null (bool b) = refl
  py_eq-sort_keys null (int z) = refl
  py_eq-sort_keys null (float b) = refl
  py_eq-sort_keys null (str s) = refl
  py_eq-sort_keys null (arr vs) = refl
  py_eq-sort_keys null (obj d) = refl
  py_eq-sort_keys (bool b) w = eq_number-sort_keys (of_bool b) w
  py_eq-sort_keys (int z) w = eq_number-sort_keys (of_int z) w
  py_eq-sort_keys (float b) w = eq_number-sort_keys (of_float b) w
  py_eq-sort_keys (str s) null = refl
  py_eq-sort_keys (str s) (bool b) = refl
  py_eq-sort_keys (str s) (int z) = refl
  py_eq-sort_keys (str s) (float b) = refl
  py_eq-sort_keys (str s) (str t) = refl
  py_eq-sort_keys (str s) (arr vs) = refl
  py_eq-sort_keys (str s) (obj d) = refl
  py_eq-sort_keys (arr vs) null = refl
  py_eq-sort_keys (arr vs) (bool b) = refl
  py_eq-sort_keys (arr vs) (int z) = refl
  py_eq-sort_keys (arr vs) (float b) = refl
  py_eq-sort_keys (arr vs) (str t) = refl
  py_eq-sort_keys (arr vs) (arr ws) = items_eq-sort_items vs ws
  py_eq-sort_keys (arr vs) (obj d) = refl
  py_eq-sort_keys (obj d) null = refl
  py_eq-sort_keys (obj d) (bool b) = refl
  py_eq-sort_keys (obj d) (int z) = refl
  py_eq-sort_keys (obj d) (float b) = refl
  py_eq-sort_keys (obj d) (str t) = refl
  py_eq-sort_keys (obj d) (arr vs) = refl
  py_eq-sort_keys (obj d) (obj e) =
      rw (dict_size-sort_dict d, dict_size-sort_dict e, fields_in-sort_dict d e) refl

  items_eq-sort_items : (vs ws : Items) → items_eq (sort_items vs) (sort_items ws) ≡ items_eq vs ws
  items_eq-sort_items nil nil = refl
  items_eq-sort_items nil (cons w ws) = refl
  items_eq-sort_items (cons v vs) nil = refl
  items_eq-sort_items (cons v vs) (cons w ws) =
      ap₂ (λ (a b : Bool). a && b) (py_eq-sort_keys v w) (items_eq-sort_items vs ws)

  fields_in-sort_dict : (d e : Dict) → fields_in (sort_dict d) (sort_dict e) ≡ fields_in d e
  fields_in-sort_dict end e = refl
  fields_in-sort_dict (field k v d) e =
      fields_in-insert_field k (sort_keys v) (sort_dict d) (sort_dict e)
      ∙ ap₂ (λ (a b : Bool). a && b) (is_in-sort_dict k v e (λ w. py_eq-sort_keys v w))
          (fields_in-sort_dict d e)
