-- ===== src/Execution.antt =====
-- aether_protocol_c/execution.py: the signed attestation of a fill, and its checks.
pub mod Created
use protocol_c.Prelude.{
  ℕ, ◌%◌, ◌^◌, Bool, true, false, not, ◌&&◌, ◌||◌, none, some, [], Text, if◌then◌else◌,
}
use protocol_c.Prelude.Int.{ℤ, pos, ◌+ℤ◌}
use protocol_c.Py.Result.{
  Result, ok, err, type_error, value_error, overflow_error, execution_error, ◌>>=◌,
}
use protocol_c.Py.Value.{
  Value, null, bool, int, float, str, arr, obj, Dict, end, field, get_or, as_dict,
}
use protocol_c.Py.Number.{Number, fin, of_float, num_lt, num_le, num_eq}
use protocol_c.Py.Compare.{truthy, py_eq, py_lt}
use protocol_c.Py.Env.{Env}
use protocol_c.Py.Convert.{to_float}
use protocol_c.Curve.{Curve}
use protocol_c.State.{AccountSnapshot, snapshot_to_hash, json_hash}
use protocol_c.Key.{
  Seed, Readings, default_key_lifetime_seconds, temporal_window_dict, derive, sign_or_raise,
}
use protocol_c.Commitment.{is_seed_hash, has_times}

pub record ExecutionResult : Type 0 where
  pub order_id : Text
  pub symbol : Text
  pub side : Text
  pub filled_qty : Value
  pub fill_price : Value
  pub execution_timestamp : ℤ
  pub broker_response : Dict

-- `ExecutionResult.to_json`
unfoldable pub result_to_json : ExecutionResult → Dict
result_to_json r = field "order_id" (str r.order_id) (
    field "symbol" (str r.symbol) (
      field "side" (str r.side) (
        field "filled_qty" r.filled_qty (
          field "fill_price" r.fill_price (
            field "execution_timestamp" (int r.execution_timestamp)
              (field "broker_response" (obj r.broker_response) end))))))

-- `ExecutionResult.to_hash`
unfoldable pub result_to_hash : Env → ExecutionResult → Text
unfolding result_to_json
result_to_hash e r = json_hash e (obj (result_to_json r))

pub record QuantumExecutionAttestation : Type 0 where
  pub commitment_sig : Dict
  pub commitment_quantum_seed_commitment : Text
  pub execution_result : Dict
  pub execution_quantum_seed_commitment : Text
  pub new_account_state_hash : Text
  pub nonce_after : ℤ
  pub key_temporal_window : Dict

-- `to_signable_dict`
unfoldable pub attestation_signable : QuantumExecutionAttestation → Dict
attestation_signable a = field "commitment_sig" (obj a.commitment_sig) (
    field "commitment_quantum_seed_commitment" (str a.commitment_quantum_seed_commitment) (
      field "execution_result" (obj a.execution_result) (
        field "execution_quantum_seed_commitment" (str a.execution_quantum_seed_commitment) (
          field "new_account_state_hash" (str a.new_account_state_hash) (
            field "nonce_after" (int a.nonce_after)
              (field "key_temporal_window" (obj a.key_temporal_window) end))))))

-- `create_and_sign`
unfoldable pub create_attestation :
    Env
    → Curve
    → ℕ
    → Readings
    → Dict
    → Text
    → ExecutionResult
    → AccountSnapshot
    → Seed
    → Text
    → Result (Dict × Dict × QuantumExecutionAttestation)
unfolding temporal_window_dict result_to_json attestation_signable
create_attestation e c fuel t commitment_sig commitment_seed_hash result new_state seed method = do
  key ← derive e c t seed method default_key_lifetime_seconds
  let attestation : QuantumExecutionAttestation = record {
    commitment_sig = commitment_sig;
    commitment_quantum_seed_commitment = commitment_seed_hash;
    execution_result = result_to_json result;
    execution_quantum_seed_commitment = key.seed_commitment.seed_hash;
    new_account_state_hash = snapshot_to_hash e new_state;
    nonce_after = new_state.nonce;
    key_temporal_window = temporal_window_dict key.seed_commitment;
  }
  signature ← sign_or_raise e c fuel t execution_error (attestation_signable attestation) key
  ok (attestation_signable attestation, signature, attestation)

unfoldable pub verify_references_commitment : Dict → Dict → Bool
verify_references_commitment attestation commitment_sig =
    py_eq (get_or attestation "commitment_sig" null) (obj commitment_sig)

-- `abs` of a float: its sign bit cleared.
abbrev pub float_abs : ℕ → ℕ
float_abs b = b % 2 ^ 63

abbrev pub zero_number : Number
zero_number = fin (pos 0)

-- The default of `price_tolerance`: the float 0.02.
abbrev pub default_tolerance : ℕ
default_tolerance = 0x3F947AE147AE147B

-- The last tests of `verify_matches_commitment_terms`, on floats.
unfoldable pub within_terms : Env → ℕ → ℕ → ℕ → ℕ → ℕ → Bool
within_terms e tolerance authorised_qty authorised_price filled_qty fill_price =
    if num_lt (of_float filled_qty) zero_number
      || num_lt (of_float authorised_qty) (of_float filled_qty)
    then false
    else if num_eq (of_float authorised_price) zero_number
    then num_eq (of_float fill_price) zero_number
    else let deviation =
        e.float_div (float_abs (e.float_sub fill_price authorised_price))
          (float_abs authorised_price) in
      num_le (of_float deviation) (of_float tolerance)

-- `v is None`
unfoldable pub is_none : Value → Bool
is_none null = true
is_none v = false

-- `except (TypeError, ValueError): return False`; an OverflowError of `float` goes through.
abbrev pub catch_type_or_value : Result Bool → Result Bool
catch_type_or_value (err type_error) = ok false
catch_type_or_value (err value_error) = ok false
catch_type_or_value r = r

-- The terms of two dicts.
unfoldable pub terms_match : Env → ℕ → Dict → Dict → Result Bool
unfolding within_terms is_none
terms_match e tolerance trade fill =
    let authorised_qty = get_or trade "qty" null in
    let authorised_price = get_or trade "price" null in
    let authorised_symbol = get_or trade "symbol" null in
    let authorised_side = get_or trade "side" null in
    let filled_qty = get_or fill "filled_qty" null in
    let fill_price = get_or fill "fill_price" null in
    let fill_symbol = get_or fill "symbol" null in
    let fill_side = get_or fill "side" null in
    if is_none authorised_qty
      || is_none authorised_price
      || is_none filled_qty
      || is_none fill_price
      || is_none authorised_symbol
      || is_none authorised_side
      || is_none fill_symbol
      || is_none fill_side
      || not (py_eq fill_symbol authorised_symbol)
      || not (py_eq fill_side authorised_side)
    then ok false
    else catch_type_or_value (do
      qty ← to_float e authorised_qty
      price ← to_float e authorised_price
      filled ← to_float e filled_qty
      paid ← to_float e fill_price
      ok (within_terms e tolerance qty price filled paid))

unfoldable pub verify_matches_commitment_terms : Env → ℕ → Value → Value → Result Bool
unfolding terms_match
verify_matches_commitment_terms e tolerance trade_details execution_result =
    elim (as_dict trade_details) [
      | err _ ↦ ok false
      | ok trade ↦ elim (as_dict execution_result) [
        | err _ ↦ ok false
        | ok fill ↦ terms_match e tolerance trade fill
      ]
    ]

-- `commitment_nonce + 1`, where it is an int; the sum of a float is left to the parameter.
unfoldable pub successor : Env → Value → Result Value
successor e (int z) = ok (int (z +ℤ pos 1))
successor e (bool true) = ok (int (pos 2))
successor e (bool false) = ok (int (pos 1))
successor e (float b) = ok (float (e.float_succ b))
successor e null = err type_error
successor e (str s) = err type_error
successor e (arr vs) = err type_error
successor e (obj d) = err type_error

unfoldable pub verify_nonce_increment : Env → Value → Dict → Result Bool
unfolding successor
verify_nonce_increment e commitment_nonce attestation = do
  expected ← successor e commitment_nonce
  ok (py_eq (get_or attestation "nonce_after" null) expected)

unfoldable pub verify_independent_seeds : Value → Value → Bool
verify_independent_seeds commitment_seed_hash execution_seed_hash =
    not (py_eq commitment_seed_hash execution_seed_hash)

-- `QuantumExecutionVerifier.verify_quantum_binding`
unfoldable pub execution_quantum_binding : Dict → Result Bool
execution_quantum_binding d = do
  hashed ← is_seed_hash (get_or d "execution_quantum_seed_commitment" (str []))
  ok (hashed && has_times (get_or d "key_temporal_window" (obj end)))

-- `not a or not b`, negated, then `a < b`: the end of a window before the earliest attack.
unfoldable pub expires_in_time : Dict → Result Bool
expires_in_time window =
    let expires_at = get_or window "expires_at" (int (pos 0)) in
    let shor_attack = get_or window "shor_earliest_attack" (int (pos 0)) in
    if not (truthy expires_at) || not (truthy shor_attack)
    then ok false
    else py_lt expires_at shor_attack

-- `QuantumExecutionVerifier.verify_temporal_safety`
unfoldable pub execution_temporal_safety : Dict → Result Bool
unfolding expires_in_time
execution_temporal_safety d = do
  window ← as_dict (get_or d "key_temporal_window" (obj end))
  expires_in_time window
