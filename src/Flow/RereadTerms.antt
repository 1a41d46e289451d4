-- ===== src/Flow/RereadTerms.antt =====
-- What the log changes in a dict, the order of its keys, does not change the checks of an execution
-- against its commitment.
use protocol_c.Prelude.{ℕ, ◌≡◌, refl, ap, true, false, not, inl, inr}
use protocol_c.Py.Result.{ok, ◌>>=◌, Result-cases}
use protocol_c.Py.Value.{Value, null, bool, int, float, str, arr, obj, Dict, get_or, as_dict}
use protocol_c.Py.Compare.{py_eq}
use protocol_c.Py.Env.{Env}
use protocol_c.Py.Sorted.{sort_keys, sort_dict}
use protocol_c.Py.Sorted.Values.{get_null-sort_dict, to_float-sort_keys}
use protocol_c.Py.Sorted.Equal.{py_eq-sort_keys}
use protocol_c.Execution.{
  verify_references_commitment, verify_nonce_increment, successor, verify_independent_seeds,
  is_none, terms_match, verify_matches_commitment_terms,
}

pub py_eq-object :
    (v : Value) (d : Dict) → py_eq (sort_keys v) (obj (sort_dict d)) ≡ py_eq v (obj d)
unfolding sort_keys
py_eq-object v d = py_eq-sort_keys v (obj d)

pub verify_references_commitment-sort_dict :
    (d sig : Dict)
    → verify_references_commitment (sort_dict d) (sort_dict sig)
      ≡ verify_references_commitment d sig
unfolding verify_references_commitment
verify_references_commitment-sort_dict d sig =
    rw (get_null-sort_dict d "commitment_sig", py_eq-object (get_or d "commitment_sig" null) sig)
      refl

pub verify_independent_seeds-sort_keys :
    (v w : Value)
    → verify_independent_seeds (sort_keys v) (sort_keys w) ≡ verify_independent_seeds v w
unfolding verify_independent_seeds
verify_independent_seeds-sort_keys v w = ap not (py_eq-sort_keys v w)

-- The successor of a number is a number.
successor-sort_keys :
    (e : Env) (v : Value) → (successor e v >>= λ w. ok (sort_keys w)) ≡ successor e (sort_keys v)
unfolding successor sort_keys
successor-sort_keys e (bool true) = refl
successor-sort_keys e (bool false) = refl
successor-sort_keys e null = refl
successor-sort_keys e (int z) = refl
successor-sort_keys e (float b) = refl
successor-sort_keys e (str s) = refl
successor-sort_keys e (arr vs) = refl
successor-sort_keys e (obj d) = refl

pub verify_nonce_increment-sort_dict :
    (e : Env) (v : Value) (d : Dict)
    → verify_nonce_increment e (sort_keys v) (sort_dict d) ≡ verify_nonce_increment e v d
unfolding verify_nonce_increment
verify_nonce_increment-sort_dict e v d = elim (Result-cases (successor e v)) [
  | inr (x, raised) ↦ rw (← successor-sort_keys e v, raised) refl
  | inl (w, next) ↦
      rw
        (
          ← successor-sort_keys e v,
          next,
          get_null-sort_dict d "nonce_after",
          py_eq-sort_keys (get_or d "nonce_after" null) w,
        )
        refl
]

pub is_none-sort_keys : (v : Value) → is_none (sort_keys v) ≡ is_none v
unfolding is_none sort_keys
is_none-sort_keys null = refl
is_none-sort_keys (bool b) = refl
is_none-sort_keys (int z) = refl
is_none-sort_keys (float b) = refl
is_none-sort_keys (str s) = refl
is_none-sort_keys (arr vs) = refl
is_none-sort_keys (obj d) = refl

terms_match-sort_dict :
    (e : Env) (tolerance : ℕ) (trade fill : Dict)
    → terms_match e tolerance (sort_dict trade) (sort_dict fill)
      ≡ terms_match e tolerance trade fill
unfolding terms_match
terms_match-sort_dict e tolerance trade fill =
    rw
      (
        get_null-sort_dict trade "qty",
        get_null-sort_dict trade "price",
        get_null-sort_dict trade "symbol",
        get_null-sort_dict trade "side",
        get_null-sort_dict fill "filled_qty",
        get_null-sort_dict fill "fill_price",
        get_null-sort_dict fill "symbol",
        get_null-sort_dict fill "side",
        is_none-sort_keys (get_or trade "qty" null),
        is_none-sort_keys (get_or trade "price" null),
        is_none-sort_keys (get_or trade "symbol" null),
        is_none-sort_keys (get_or trade "side" null),
        is_none-sort_keys (get_or fill "filled_qty" null),
        is_none-sort_keys (get_or fill "fill_price" null),
        is_none-sort_keys (get_or fill "symbol" null),
        is_none-sort_keys (get_or fill "side" null),
        py_eq-sort_keys (get_or fill "symbol" null) (get_or trade "symbol" null),
        py_eq-sort_keys (get_or fill "side" null) (get_or trade "side" null),
        to_float-sort_keys e (get_or trade "qty" null),
        to_float-sort_keys e (get_or trade "price" null),
        to_float-sort_keys e (get_or fill "filled_qty" null),
        to_float-sort_keys e (get_or fill "fill_price" null),
      )
      refl

pub verify_matches_commitment_terms-sort_keys :
    (e : Env) (tolerance : ℕ) (v w : Value)
    → verify_matches_commitment_terms e tolerance (sort_keys v) (sort_keys w)
      ≡ verify_matches_commitment_terms e tolerance v w
unfolding verify_matches_commitment_terms as_dict sort_keys
verify_matches_commitment_terms-sort_keys e tolerance null w = refl
verify_matches_commitment_terms-sort_keys e tolerance (bool b) w = refl
verify_matches_commitment_terms-sort_keys e tolerance (int z) w = refl
verify_matches_commitment_terms-sort_keys e tolerance (float b) w = refl
verify_matches_commitment_terms-sort_keys e tolerance (str s) w = refl
verify_matches_commitment_terms-sort_keys e tolerance (arr vs) w = refl
verify_matches_commitment_terms-sort_keys e tolerance (obj trade) null = refl
verify_matches_commitment_terms-sort_keys e tolerance (obj trade) (bool b) = refl
verify_matches_commitment_terms-sort_keys e tolerance (obj trade) (int z) = refl
verify_matches_commitment_terms-sort_keys e tolerance (obj trade) (float b) = refl
verify_matches_commitment_terms-sort_keys e tolerance (obj trade) (str s) = refl
verify_matches_commitment_terms-sort_keys e tolerance (obj trade) (arr vs) = refl
verify_matches_commitment_terms-sort_keys e tolerance (obj trade) (obj fill) =
    terms_match-sort_dict e tolerance trade fill
