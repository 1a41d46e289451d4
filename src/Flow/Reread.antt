-- ===== src/Flow/Reread.antt =====
-- What the log changes in a dict, the order of its keys, does not change the checks of a phase.
use protocol_c.Prelude.{◌≡◌, refl, true, false, [], Text, codes}
use protocol_c.Prelude.Int.{pos}
use protocol_c.Py.Value.{Value, null, bool, int, float, str, arr, obj, Dict, end, get_or, as_dict}
use protocol_c.Py.Compare.{py_eq}
use protocol_c.Py.Sorted.{sort_keys, sort_dict}
use protocol_c.Py.Sorted.Values.{
  get_null-sort_dict, get_text-sort_dict, get_int-sort_dict, get_end-sort_dict, has_key-sort_dict,
  truthy-sort_keys, py_len-sort_keys, as_dict-sort_keys,
}
use protocol_c.Py.Sorted.Equal.{py_eq-sort_keys}
use protocol_c.Py.Sorted.Ordered.{order-sort_keys}
use protocol_c.Commitment.{
  is_hash_text, is_int, verify_state_binding, is_seed_hash, has_times, expires_later,
  commitment_quantum_binding, commitment_temporal_safety,
}
use protocol_c.Execution.{execution_quantum_binding, expires_in_time, execution_temporal_safety}

is_hash_text-sort_keys : (v : Value) → is_hash_text (sort_keys v) ≡ is_hash_text v
unfolding sort_keys
is_hash_text-sort_keys null = refl
is_hash_text-sort_keys (bool b) = refl
is_hash_text-sort_keys (int z) = refl
is_hash_text-sort_keys (float b) = refl
is_hash_text-sort_keys (str s) = refl
is_hash_text-sort_keys (arr vs) = refl
is_hash_text-sort_keys (obj d) = refl

is_int-sort_keys : (v : Value) → is_int (sort_keys v) ≡ is_int v
unfolding sort_keys
is_int-sort_keys null = refl
is_int-sort_keys (bool b) = refl
is_int-sort_keys (int z) = refl
is_int-sort_keys (float b) = refl
is_int-sort_keys (str s) = refl
is_int-sort_keys (arr vs) = refl
is_int-sort_keys (obj d) = refl

pub verify_state_binding-sort_dict :
    (d : Dict) → verify_state_binding (sort_dict d) ≡ verify_state_binding d
unfolding verify_state_binding
verify_state_binding-sort_dict d =
    let hash = get_or d "account_state_hash" (str []) in
    let nonce = get_or d "nonce" null in
    rw
      (
        get_text-sort_dict d "account_state_hash" [],
        get_null-sort_dict d "nonce",
        truthy-sort_keys hash,
        is_hash_text-sort_keys hash,
        is_int-sort_keys nonce,
      )
      refl

is_seed_hash-sort_keys : (v : Value) → is_seed_hash (sort_keys v) ≡ is_seed_hash v
unfolding is_seed_hash
is_seed_hash-sort_keys v = rw (is_seed_hash, truthy-sort_keys v, py_len-sort_keys v) refl

has_times-sort_keys : (v : Value) → has_times (sort_keys v) ≡ has_times v
unfolding sort_keys
has_times-sort_keys (obj d) =
    rw (has_key-sort_dict d "created_at", has_key-sort_dict d "expires_at") refl
has_times-sort_keys null = refl
has_times-sort_keys (bool b) = refl
has_times-sort_keys (int z) = refl
has_times-sort_keys (float b) = refl
has_times-sort_keys (str s) = refl
has_times-sort_keys (arr vs) = refl

expires_later-sort_keys : (v : Value) → expires_later (sort_keys v) ≡ expires_later v
unfolding sort_keys as_dict
expires_later-sort_keys (obj w) =
    rw
      (
        get_null-sort_dict w "expires_at",
        get_null-sort_dict w "created_at",
        order-sort_keys false (get_or w "expires_at" null) (get_or w "created_at" null),
      )
      refl
expires_later-sort_keys null = refl
expires_later-sort_keys (bool b) = refl
expires_later-sort_keys (int z) = refl
expires_later-sort_keys (float b) = refl
expires_later-sort_keys (str s) = refl
expires_later-sort_keys (arr vs) = refl

pub py_eq-named : (v : Value) (t : Text) → py_eq (sort_keys v) (str t) ≡ py_eq v (str t)
unfolding sort_keys
py_eq-named v t = py_eq-sort_keys v (str t)

pub commitment_quantum_binding-sort_dict :
    (d : Dict) → commitment_quantum_binding (sort_dict d) ≡ commitment_quantum_binding d
unfolding commitment_quantum_binding
commitment_quantum_binding-sort_dict d =
    let hash = get_or d "quantum_seed_commitment" (str []) in
    let method = get_or d "seed_measurement_method" (str []) in
    let window = get_or d "key_temporal_window" (obj end) in
    rw
      (
        get_text-sort_dict d "quantum_seed_commitment" [],
        get_text-sort_dict d "seed_measurement_method" [],
        get_end-sort_dict d "key_temporal_window",
        is_seed_hash-sort_keys hash,
        py_eq-named method (codes "CSPRNG"),
        py_eq-named method (codes "OS_URANDOM"),
        has_times-sort_keys window,
        expires_later-sort_keys window,
      )
      refl

expires_in_time-sort_dict : (w : Dict) → expires_in_time (sort_dict w) ≡ expires_in_time w
unfolding expires_in_time
expires_in_time-sort_dict w =
    let expires = get_or w "expires_at" (int (pos 0)) in
    let attack = get_or w "shor_earliest_attack" (int (pos 0)) in
    rw
      (
        get_int-sort_dict w "expires_at" (pos 0),
        get_int-sort_dict w "shor_earliest_attack" (pos 0),
        truthy-sort_keys expires,
        truthy-sort_keys attack,
        order-sort_keys true expires attack,
      )
      refl

pub execution_temporal_safety-sort_dict :
    (d : Dict) → execution_temporal_safety (sort_dict d) ≡ execution_temporal_safety d
unfolding execution_temporal_safety
execution_temporal_safety-sort_dict d = rw (get_end-sort_dict d "key_temporal_window") (
    as_dict-sort_keys (get_or d "key_temporal_window" (obj end)) expires_in_time
      expires_in_time-sort_dict)

pub commitment_temporal_safety-sort_dict :
    (d : Dict) → commitment_temporal_safety (sort_dict d) ≡ commitment_temporal_safety d
unfolding commitment_temporal_safety
commitment_temporal_safety-sort_dict d = rw (get_end-sort_dict d "key_temporal_window") (
    as_dict-sort_keys (get_or d "key_temporal_window" (obj end)) _ (λ w.
      let expires = get_or w "expires_at" (int (pos 0)) in
      let attack = get_or w "shor_earliest_attack" (int (pos 0)) in
      rw
        (
          get_int-sort_dict w "created_at" (pos 0),
          get_int-sort_dict w "expires_at" (pos 0),
          get_int-sort_dict w "shor_earliest_attack" (pos 0),
          truthy-sort_keys (get_or w "created_at" (int (pos 0))),
          truthy-sort_keys expires,
          truthy-sort_keys attack,
          order-sort_keys true expires attack,
        )
        refl))

pub execution_quantum_binding-sort_dict :
    (d : Dict) → execution_quantum_binding (sort_dict d) ≡ execution_quantum_binding d
unfolding execution_quantum_binding
execution_quantum_binding-sort_dict d =
    rw
      (
        get_text-sort_dict d "execution_quantum_seed_commitment" [],
        get_end-sort_dict d "key_temporal_window",
        is_seed_hash-sort_keys (get_or d "execution_quantum_seed_commitment" (str [])),
        has_times-sort_keys (get_or d "key_temporal_window" (obj end)),
      )
      refl
