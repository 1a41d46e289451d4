-- ===== src/Settlement.antt =====
-- aether_protocol_c/settlement.py: the record that seals a trade, and its checks.
pub mod Created
use protocol_c.Prelude.{
  ℕ, Bool, true, false, not, ◌&&◌, ◌||◌, List, [], ◌∷◌, ◌++◌, String, Text, if◌then◌else◌,
}
use protocol_c.Prelude.Int.{ℤ, pos}
use protocol_c.Py.Result.{Result, ok, err, type_error, settlement_error, ◌>>=◌}
use protocol_c.Py.Value.{Value, null, int, str, arr, obj, Dict, end, field, get_or}
use protocol_c.Py.Compare.{truthy, py_eq, py_le}
use protocol_c.Py.Hex.{hex}
use protocol_c.Py.Env.{Env}
use protocol_c.Curve.{Curve}
use protocol_c.Key.{
  Seed, Readings, default_key_lifetime_seconds, temporal_window_dict, derive, sign_or_raise,
  verify_signature,
}
use protocol_c.Execution.{is_none}

-- `broker_signature or {}`
abbrev pub or_empty : Value → Value
or_empty v = if truthy v then v else obj end

-- `compute_flow_merkle`: TypeError if `broker_sig` is no text.
unfoldable pub compute_flow_merkle : Env → Dict → Dict → Value → Value → Result Text
compute_flow_merkle e commitment_sig execution_sig (str broker_sig) broker_signature = ok (
    hex (
      e.sha256 (
        e.encode (
          e.dumps (obj commitment_sig)
          ++ (e.dumps (obj execution_sig)
              ++ (broker_sig ++ e.dumps (or_empty broker_signature)))))))
compute_flow_merkle e commitment_sig execution_sig v broker_signature = err type_error

unfoldable pub build_broker_attestation : Value → Dict → Dict → Value → Dict
build_broker_attestation order_id commitment_sig execution_sig broker_sig =
    field "order_id" order_id (
      field "broker_ack" broker_sig (
        field "commitment_sig" (obj commitment_sig)
          (field "execution_sig" (obj execution_sig) end)))

pub record QuantumSettlementRecord : Type 0 where
  pub order_id : Text
  pub commitment_sig : Dict
  pub commitment_quantum_seed_commitment : Text
  pub commitment_temporal_window : Dict
  pub execution_sig : Dict
  pub execution_quantum_seed_commitment : Text
  pub execution_temporal_window : Dict
  pub broker_settlement_sig : Text
  pub broker_signature : Dict
  pub settlement_timestamp : ℤ
  pub settlement_quantum_seed_commitment : Text
  pub settlement_temporal_window : Dict
  pub flow_merkle_hash : Text

-- `to_signable_dict`
unfoldable pub settlement_signable : QuantumSettlementRecord → Dict
settlement_signable s = field "order_id" (str s.order_id) (
    field "commitment_sig" (obj s.commitment_sig) (
      field "commitment_quantum_seed_commitment" (str s.commitment_quantum_seed_commitment) (
        field "commitment_temporal_window" (obj s.commitment_temporal_window) (
          field "execution_sig" (obj s.execution_sig) (
            field "execution_quantum_seed_commitment" (str s.execution_quantum_seed_commitment) (
              field "execution_temporal_window" (obj s.execution_temporal_window) (
                field "broker_settlement_sig" (str s.broker_settlement_sig) (
                  field "broker_signature" (obj s.broker_signature) (
                    field "settlement_timestamp" (int s.settlement_timestamp) (
                      field "settlement_quantum_seed_commitment"
                        (str s.settlement_quantum_seed_commitment)
                        (field "settlement_temporal_window" (obj s.settlement_temporal_window)
                          (field "flow_merkle_hash" (str s.flow_merkle_hash) end))))))))))))

-- A phase as the settlement cites it: its signature, its seed's hash and its window.
pub record Phase : Type 0 where
  pub sig : Dict
  pub seed_hash : Text
  pub window : Dict

-- `create_and_sign`; the arguments of the two earlier phases come as two records.
unfoldable pub create_settlement :
    Env
    → Curve
    → ℕ
    → ℕ
    → Readings
    → Text
    → Phase
    → Phase
    → Text
    → Dict
    → Seed
    → Text
    → Result (Dict × Dict × QuantumSettlementRecord)
unfolding compute_flow_merkle settlement_signable temporal_window_dict
create_settlement e c fuel now t order_id commitment execution broker_sig broker_signature seed
      method =
    do
      key ← derive e c t seed method default_key_lifetime_seconds
      flow_merkle ←
          compute_flow_merkle e commitment.sig execution.sig (str broker_sig) (obj broker_signature)
      let settlement : QuantumSettlementRecord = record {
        order_id = order_id;
        commitment_sig = commitment.sig;
        commitment_quantum_seed_commitment = commitment.seed_hash;
        commitment_temporal_window = commitment.window;
        execution_sig = execution.sig;
        execution_quantum_seed_commitment = execution.seed_hash;
        execution_temporal_window = execution.window;
        broker_settlement_sig = broker_sig;
        broker_signature = broker_signature;
        settlement_timestamp = pos now;
        settlement_quantum_seed_commitment = key.seed_commitment.seed_hash;
        settlement_temporal_window = temporal_window_dict key.seed_commitment;
        flow_merkle_hash = flow_merkle;
      }
      signature ← sign_or_raise e c fuel t settlement_error (settlement_signable settlement) key
      ok (settlement_signable settlement, signature, settlement)

-- `verify_chain`
unfoldable pub verify_chain : Env → Curve → Dict → Dict → Dict → Result Bool
unfolding build_broker_attestation
verify_chain e c commitment_sig execution_sig settlement =
    let broker_sig = get_or settlement "broker_settlement_sig" (str []) in
    let broker_signature = get_or settlement "broker_signature" null in
    if not (py_eq (get_or settlement "commitment_sig" null) (obj commitment_sig))
      || not (py_eq (get_or settlement "execution_sig" null) (obj execution_sig))
    then ok false
    else (do
      expected ← compute_flow_merkle e commitment_sig execution_sig broker_sig broker_signature
      ok (
          if not (py_eq (get_or settlement "flow_merkle_hash" null) (str expected))
          then false
          else verify_signature e c
              (obj (
                build_broker_attestation (get_or settlement "order_id" null) commitment_sig
                  execution_sig broker_sig))
              (or_empty broker_signature)))

-- Whether a value can be hashed, as the element of a set must be.
abbrev pub is_hashable : Value → Bool
is_hashable (arr vs) = false
is_hashable (obj d) = false
is_hashable v = true

-- `{…}`, `discard(None)` and `len(…) == 3`: the three are not None and differ pairwise.
unfoldable pub verify_all_seeds_independent : Dict → Result Bool
verify_all_seeds_independent settlement =
    let a = get_or settlement "commitment_quantum_seed_commitment" null in
    let b = get_or settlement "execution_quantum_seed_commitment" null in
    let s = get_or settlement "settlement_quantum_seed_commitment" null in
    if is_hashable a && is_hashable b && is_hashable s
    then ok (
        not (is_none a)
        && not (is_none b)
        && not (is_none s)
        && not (py_eq a b)
        && not (py_eq a s)
        && not (py_eq b s))
    else err type_error

-- One window of the loop of `verify_all_temporal_windows`.
unfoldable pub window_is_safe : Value → Result Bool
window_is_safe (obj window) =
    let expires_at = get_or window "expires_at" (int (pos 0)) in
    let shor_attack = get_or window "shor_earliest_attack" (int (pos 0)) in
    if not (truthy expires_at) || not (truthy shor_attack)
    then ok false
    else (do late ← py_le shor_attack expires_at; ok (not late))
window_is_safe v = ok false

-- The loop over the keys of the windows.
unfoldable pub windows_are_safe : List String → Dict → Result Bool
unfolding window_is_safe
windows_are_safe [] settlement = ok true
windows_are_safe (k ∷ ks) settlement = do
  safe ← window_is_safe (get_or settlement k (obj end))
  let rest = windows_are_safe ks settlement
  if safe then rest else ok false

unfoldable pub verify_all_temporal_windows : Dict → Result Bool
unfolding windows_are_safe
verify_all_temporal_windows =
    windows_are_safe (
      "commitment_temporal_window" ∷ "execution_temporal_window" ∷ "settlement_temporal_window"
      ∷ [])
