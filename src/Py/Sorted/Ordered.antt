-- ===== src/Py/Sorted/Ordered.antt =====
-- The order of values does not depend on the order of keys.
use protocol_c.Prelude.{◌≡◌, refl, Bool, if◌then◌else◌}
use protocol_c.Py.Result.{Result}
use protocol_c.Py.Value.{Value, null, bool, int, float, str, arr, obj, Items, nil, cons}
use protocol_c.Py.Number.{Number, as_number, of_bool, of_int, of_float}
use protocol_c.Py.Compare.{order, order_items, order_number}
use protocol_c.Py.Sorted.{sort_keys, sort_items}
use protocol_c.Py.Sorted.Equal.{py_eq-sort_keys}

order_number-sort_keys :
    (strict : Bool) (x : Number) (v : Value)
    → order_number strict x (sort_keys v) ≡ order_number strict x v
unfolding order_number as_number sort_keys
order_number-sort_keys strict x null = refl
order_number-sort_keys strict x (bool b) = refl
order_number-sort_keys strict x (int z) = refl
order_number-sort_keys strict x (float b) = refl
order_number-sort_keys strict x (str s) = refl
order_number-sort_keys strict x (arr vs) = refl
order_number-sort_keys strict x (obj d) = refl

-- Two items that are equal or not, and the rest of the lists.
order_pair :
    (strict : Bool) (b b' : Bool) (x x' y y' : Result Bool)
    → b ≡ b'
    → x ≡ x'
    → y ≡ y'
    → (if b then x else y) ≡ (if b' then x' else y')
order_pair strict b b' x x' y y' p q r = rw (p, q, r) refl

mutual
  unfolding order order_items sort_keys sort_items

  -- `v < w` or `v <= w` for values with their keys sorted.
  pub order-sort_keys :
      (strict : Bool) (v w : Value) → order strict (sort_keys v) (sort_keys w) ≡ order strict v w
  order-sort_keys strict null w = refl
  order-sort_keys strict (bool b) w = order_number-sort_keys strict (of_bool b) w
  order-sort_keys strict (int z) w = order_number-sort_keys strict (of_int z) w
  order-sort_keys strict (float b) w = order_number-sort_keys strict (of_float b) w
  order-sort_keys strict (str s) null = refl
  order-sort_keys strict (str s) (bool b) = refl
  order-sort_keys strict (str s) (int z) = refl
  order-sort_keys strict (str s) (float b) = refl
  order-sort_keys strict (str s) (str t) = refl
  order-sort_keys strict (str s) (arr ws) = refl
  order-sort_keys strict (str s) (obj e) = refl
  order-sort_keys strict (arr vs) null = refl
  order-sort_keys strict (arr vs) (bool b) = refl
  order-sort_keys strict (arr vs) (int z) = refl
  order-sort_keys strict (arr vs) (float b) = refl
  order-sort_keys strict (arr vs) (str t) = refl
  order-sort_keys strict (arr vs) (arr ws) = order_items-sort_items strict vs ws
  order-sort_keys strict (arr vs) (obj e) = refl
  order-sort_keys strict (obj d) w = refl

  order_items-sort_items :
      (strict : Bool) (vs ws : Items)
      → order_items strict (sort_items vs) (sort_items ws) ≡ order_items strict vs ws
  order_items-sort_items strict nil nil = refl
  order_items-sort_items strict nil (cons w ws) = refl
  order_items-sort_items strict (cons v vs) nil = refl
  order_items-sort_items strict (cons v vs) (cons w ws) =
      order_pair strict _ _ _ _ _ _ (py_eq-sort_keys v w) (order_items-sort_items strict vs ws)
        (order-sort_keys strict v w)
