-- ===== src/Py/Sorted.antt =====
-- The order in which `json.dumps(…, sort_keys=True)` writes the items of a dict, and in which
-- `json.loads` so gives them back.
pub mod Values
pub mod Again
pub mod Equal
pub mod Ordered
use protocol_c.Prelude.{
  ◌≡◌, refl, false, Option, none, some, String, Text, codes, str_eq, eq_iff, arith, [], ◌∷◌,
  if◌then◌else◌,
}
use protocol_c.Py.Value.{
  Value, null, bool, int, float, str, arr, obj, Items, nil, cons, Dict, end, field, dict_get,
}
use protocol_c.Py.Compare.{text_lt}

unfoldable pub insert_field : String → Value → Dict → Dict
unfolding text_lt
insert_field k v end = field k v end
insert_field k v (field j w d) =
    if text_lt (codes j) (codes k) then field j w (insert_field k v d) else field k v (field j w d)

unfoldable mutual
  unfolding insert_field

  pub sort_keys : Value → Value
  sort_keys null = null
  sort_keys (bool b) = bool b
  sort_keys (int z) = int z
  sort_keys (float b) = float b
  sort_keys (str s) = str s
  sort_keys (arr vs) = arr (sort_items vs)
  sort_keys (obj d) = obj (sort_dict d)

  pub sort_items : Items → Items
  sort_items nil = nil
  sort_items (cons v vs) = cons (sort_keys v) (sort_items vs)

  pub sort_dict : Dict → Dict
  sort_dict end = end
  sort_dict (field k v d) = insert_field k (sort_keys v) (sort_dict d)

abbrev pub sort_option : Option Value → Option Value
sort_option none = none
sort_option (some v) = some (sort_keys v)

text_lt_irrefl : (t : Text) → text_lt t t ≡ false
unfolding text_lt
text_lt_irrefl [] = refl
text_lt_irrefl (c ∷ cs) = ground (arith, text_lt_irrefl cs)

dict_get-insert_field :
    (d : Dict) (k j : String) (v : Value)
    → dict_get (insert_field k v d) j ≡ (if str_eq k j then some v else dict_get d j)
unfolding dict_get insert_field
dict_get-insert_field end k j v = refl
dict_get-insert_field (field i w d) k j v =
    ground (arith, dict_get-insert_field d k j v, eq_iff i j, eq_iff k j, text_lt_irrefl (codes i))

-- A sorted dict has the same items, sorted inside.
pub dict_get-sort_dict :
    (d : Dict) (k : String) → dict_get (sort_dict d) k ≡ sort_option (dict_get d k)
unfolding dict_get sort_dict
dict_get-sort_dict end k = refl
dict_get-sort_dict (field j v d) k =
    ground (arith, dict_get-insert_field (sort_dict d) j k (sort_keys v), dict_get-sort_dict d k)
