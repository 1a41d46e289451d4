-- ===== src/Py/Sorted/Values.antt =====
-- What the order of keys does not change: truth, length, lookup and equality of a value.
use protocol_c.Prelude.{
  ℕ, ◌+◌, ◌≡◌, refl, ap, ◌∙◌, true, String, arith, codes, Bool-cases, Option-cases, inl, inr,
}
use protocol_c.Py.Result.{Result, ok, ◌>>=◌}
use protocol_c.Py.Value.{
  Value, null, bool, int, float, str, arr, obj, Items, nil, cons, Dict, end, field, dict_get,
  dict_size, get_or, has_key, items_size, py_len, as_dict,
}
use protocol_c.Prelude.Int.{ℤ}
use protocol_c.Prelude.{Text}
use protocol_c.Py.Env.{Env}
use protocol_c.Py.Convert.{to_float}
use protocol_c.Py.Compare.{truthy, text_lt}
use protocol_c.Py.Sorted.{insert_field, sort_keys, sort_items, sort_dict, dict_get-sort_dict}

pub get_or-sort_dict :
    (d : Dict) (k : String) (v : Value)
    → get_or (sort_dict d) k (sort_keys v) ≡ sort_keys (get_or d k v)
unfolding get_or
get_or-sort_dict d k v = elim (Option-cases (dict_get d k)) [
  | inl missing ↦ rw (get_or, dict_get-sort_dict d k, missing) refl
  | inr (w, found) ↦ rw (get_or, dict_get-sort_dict d k, found) refl
]

pub has_key-sort_dict : (d : Dict) (k : String) → has_key (sort_dict d) k ≡ has_key d k
unfolding has_key
has_key-sort_dict d k = elim (Option-cases (dict_get d k)) [
  | inl missing ↦ rw (has_key, dict_get-sort_dict d k, missing) refl
  | inr (w, found) ↦ rw (has_key, dict_get-sort_dict d k, found) refl
]

insert_field-size :
    (k : String) (v : Value) (d : Dict) → dict_size (insert_field k v d) ≡ dict_size d + 1
unfolding dict_size insert_field
insert_field-size k v end = refl
insert_field-size k v (field j w d) = ground (arith, insert_field-size k v d)

pub dict_size-sort_dict : (d : Dict) → dict_size (sort_dict d) ≡ dict_size d
unfolding dict_size sort_dict
dict_size-sort_dict end = refl
dict_size-sort_dict (field k v d) =
    insert_field-size k (sort_keys v) (sort_dict d) ∙ ap (λ (n : ℕ). n + 1) (dict_size-sort_dict d)

items_size-sort_items : (vs : Items) → items_size (sort_items vs) ≡ items_size vs
unfolding items_size sort_items
items_size-sort_items nil = refl
items_size-sort_items (cons v vs) = ap (λ (n : ℕ). n + 1) (items_size-sort_items vs)

truthy-insert_field : (k : String) (v : Value) (d : Dict) → truthy (obj (insert_field k v d)) ≡ true
unfolding truthy insert_field
truthy-insert_field k v end = refl
truthy-insert_field k v (field j w d) = elim (Bool-cases (text_lt (codes j) (codes k))) [
  | inl less ↦ rw less refl
  | inr more ↦ rw more refl
]

pub truthy-sort_keys : (v : Value) → truthy (sort_keys v) ≡ truthy v
unfolding truthy sort_keys
truthy-sort_keys null = refl
truthy-sort_keys (bool b) = refl
truthy-sort_keys (int z) = refl
truthy-sort_keys (float b) = refl
truthy-sort_keys (str s) = refl
truthy-sort_keys (arr nil) = refl
truthy-sort_keys (arr (cons v vs)) = refl
truthy-sort_keys (obj end) = refl
truthy-sort_keys (obj (field k v d)) = truthy-insert_field k (sort_keys v) (sort_dict d)

pub py_len-sort_keys : (v : Value) → py_len (sort_keys v) ≡ py_len v
unfolding py_len sort_keys
py_len-sort_keys null = refl
py_len-sort_keys (bool b) = refl
py_len-sort_keys (int z) = refl
py_len-sort_keys (float b) = refl
py_len-sort_keys (str s) = refl
py_len-sort_keys (arr vs) = ap ok (items_size-sort_items vs)
py_len-sort_keys (obj d) = ap ok (dict_size-sort_dict d)

-- What follows `as_dict`, where it does not depend on the order of keys.
pub as_dict-sort_keys {ℓ} :
    {A : Type ℓ} (v : Value) (next : Dict → Result A)
    → ((d : Dict) → next (sort_dict d) ≡ next d)
    → (as_dict (sort_keys v) >>= next) ≡ (as_dict v >>= next)
unfolding as_dict sort_keys
as_dict-sort_keys (obj d) next same = same d
as_dict-sort_keys null next same = refl
as_dict-sort_keys (bool b) next same = refl
as_dict-sort_keys (int z) next same = refl
as_dict-sort_keys (float b) next same = refl
as_dict-sort_keys (str s) next same = refl
as_dict-sort_keys (arr vs) next same = refl

-- The defaults that the package gives to `get`.
pub get_null-sort_dict :
    (d : Dict) (k : String) → get_or (sort_dict d) k null ≡ sort_keys (get_or d k null)
unfolding sort_keys
get_null-sort_dict d k = get_or-sort_dict d k null

pub get_text-sort_dict :
    (d : Dict) (k : String) (t : Text)
    → get_or (sort_dict d) k (str t) ≡ sort_keys (get_or d k (str t))
unfolding sort_keys
get_text-sort_dict d k t = get_or-sort_dict d k (str t)

pub get_int-sort_dict :
    (d : Dict) (k : String) (z : ℤ)
    → get_or (sort_dict d) k (int z) ≡ sort_keys (get_or d k (int z))
unfolding sort_keys
get_int-sort_dict d k z = get_or-sort_dict d k (int z)

pub get_end-sort_dict :
    (d : Dict) (k : String) → get_or (sort_dict d) k (obj end) ≡ sort_keys (get_or d k (obj end))
unfolding sort_keys sort_dict
get_end-sort_dict d k = get_or-sort_dict d k (obj end)

pub to_float-sort_keys : (e : Env) (v : Value) → to_float e (sort_keys v) ≡ to_float e v
unfolding to_float sort_keys
to_float-sort_keys e null = refl
to_float-sort_keys e (bool b) = refl
to_float-sort_keys e (int z) = refl
to_float-sort_keys e (float b) = refl
to_float-sort_keys e (str s) = refl
to_float-sort_keys e (arr vs) = refl
to_float-sort_keys e (obj d) = refl
