-- ===== src/Disputes.antt =====
-- `class DisputeProofGenerator` of aether_protocol_c/verify.py: the proofs that a log exports.
pub mod Distinct
pub mod Recorded
use protocol_c.Prelude.{
  ℕ, Bool, true, false, not, ◌&&◌, ◌||◌, Option, none, some, List, [], ◌∷◌, String, Text, codes,
  if◌then◌else◌,
}
use protocol_c.Prelude.Int.{pos}
use protocol_c.Py.Result.{Result, ok, err, type_error, ◌>>=◌}
use protocol_c.Py.Value.{Value, null, bool, int, str, obj, Dict, end, field, get_or, has_key}
use protocol_c.Py.Compare.{truthy, py_eq}
use protocol_c.Py.Env.{Env}
use protocol_c.Settlement.{is_hashable}
use protocol_c.Flow.{Entry, Flow}
use protocol_c.Audit.{AuditLog}
use protocol_c.Audit.Read.{get_trade_flow}

-- `flow["…"]`, `flow["…_sig"]` and `flow["…_quantum_proof"]`
abbrev pub data_of : Option Entry → Value
data_of none = null
data_of (some k) = obj k.payload

abbrev pub sig_of : Option Entry → Value
sig_of none = null
sig_of (some k) = obj k.sig

abbrev pub proof_of : Option Entry → Value
proof_of none = null
proof_of (some k) = obj k.proof

-- The data of a phase that is there and not empty.
abbrev pub data_if_any : Option Entry → Option Dict
data_if_any none = none
data_if_any (some k) = if truthy (obj k.payload) then some k.payload else none

-- `d["…"] = data.get("…", default)` for a phase that is there and not empty.
abbrev pub with_field : Option Entry → String → String → Value → Dict → Dict
with_field phase name key default rest = elim (data_if_any phase) [
  | none ↦ rest
  | some d ↦ field name (get_or d key default) rest
]

-- `seeds` of the summary
unfoldable pub seeds_of : Flow → Dict
seeds_of flow =
    with_field flow.commitment "commitment_seed" "quantum_seed_commitment" (str (codes "MISSING")) (
      with_field flow.execution "execution_seed" "execution_quantum_seed_commitment"
        (str (codes "MISSING"))
        (with_field flow.settlement "settlement_seed" "settlement_quantum_seed_commitment"
          (str (codes "MISSING")) end))

-- `temporal` of the summary
unfoldable pub windows_of : Flow → Dict
windows_of flow =
    with_field flow.commitment "commitment_key_window" "key_temporal_window" (obj end) (
      with_field flow.execution "execution_key_window" "key_temporal_window" (obj end) (
        with_field flow.settlement "settlement_key_window" "settlement_temporal_window" (obj end)
          end))

-- `[v for v in seeds.values() if v != "MISSING"]`
unfoldable pub seed_values : Dict → List Value
unfolding py_eq
seed_values end = []
seed_values (field k v d) =
    let rest = seed_values d in if py_eq v (str (codes "MISSING")) then rest else v ∷ rest

-- Whether a value is equal to none of the others.
unfoldable pub is_new : Value → List Value → Bool
unfolding py_eq
is_new v [] = true
is_new v (w ∷ ws) = not (py_eq v w) && is_new v ws

-- `len(values) == len(set(values))`: TypeError if a value has no hash.
unfoldable pub all_unique : List Value → Result Bool
unfolding is_new
all_unique [] = ok true
all_unique (v ∷ vs) =
    let rest = all_unique vs in
    if is_hashable v then (rest >>= λ b. ok (is_new v vs && b)) else err type_error

-- `_build_quantum_safety_summary`
unfoldable pub quantum_safety_summary : Flow → Result Dict
unfolding seeds_of windows_of seed_values all_unique
quantum_safety_summary flow = do
  unique ← all_unique (seed_values (seeds_of flow))
  ok (
      field "seed_commitments" (obj (seeds_of flow)) (
        field "all_seeds_unique" (bool unique) (
          field "temporal_timeline" (obj (windows_of flow)) (
            field "shor_attack_timeline"
              (obj (
                field "fastest_estimate" (str (codes "7 days"))
                  (field "likely_estimate" (str (codes "2-4 weeks")) end)))
              (field "quantum_safety_margin"
                (str (codes "6.9+ days buffer (key lifetime: ~1 hour, Shor's minimum: ~7 days)"))
                end)))))

-- The data, the signature and the proof of a phase, under the names that a proof gives them.
abbrev pub phase_part : String → String → Option Entry → Dict
phase_part data_name sig_name phase =
    field data_name (data_of phase)
      (field sig_name (sig_of phase) (field "quantum_proof" (proof_of phase) end))

module _ (e : Env) where
  -- `generate_proof`
  unfoldable pub generate_proof : ℕ → Text → Text → AuditLog → Result Dict
  unfolding get_trade_flow quantum_safety_summary
  generate_proof now order_id reason log = do
    flow ← get_trade_flow e order_id log
    summary ← quantum_safety_summary flow
    ok (
        field "proof_type" (str (codes "GENERAL_DISPUTE")) (
          field "order_id" (str order_id) (
            field "reason" (str reason) (
              field "generated_at" (int (pos now)) (
                field "quantum_safety" (obj summary) (
                  field "authorization"
                    (obj (phase_part "commitment" "commitment_sig" flow.commitment))
                    (field "execution"
                      (obj (phase_part "attestation" "execution_sig" flow.execution))
                      (field "settlement"
                        (obj (phase_part "record" "settlement_sig" flow.settlement)) end))))))))

  -- `proof_authorization`
  unfoldable pub proof_authorization : ℕ → Text → AuditLog → Result Dict
  unfolding get_trade_flow
  proof_authorization now order_id log = do
    flow ← get_trade_flow e order_id log
    ok (
        field "proof_type" (str (codes "AUTHORIZATION")) (
          field "order_id" (str order_id) (
            field "claim"
              (str (codes "Trade was authorised by account holder with quantum-derived key"))
              (field "generated_at" (int (pos now)) (
                field "commitment" (data_of flow.commitment) (
                  field "commitment_sig" (sig_of flow.commitment) (
                    field "quantum_proof" (proof_of flow.commitment) (
                      field "verification_instructions"
                        (str (
                          codes
                            "1. Verify the commitment signature against the embedded public key. 2. Check quantum_seed_commitment is a valid 64-char hex hash. 3. Check key_temporal_window.expires_at < key_temporal_window.shor_earliest_attack. 4. The commitment binds order_id + trade_details + account_state_hash + nonce."))
                        end))))))))

  -- `authorised` and `executed`
  abbrev pub authorised_terms : Option Entry → Value
  authorised_terms commitment = elim (data_if_any commitment) [
    | none ↦ obj end
    | some d ↦ get_or d "trade_details" (obj end)
  ]

  abbrev pub executed_result : Option Entry → Value
  executed_result execution = elim (data_if_any execution) [
    | none ↦ obj end
    | some d ↦ get_or d "execution_result" (obj end)
  ]

  -- `proof_execution_mismatch`
  unfoldable pub proof_execution_mismatch : ℕ → Text → AuditLog → Result Dict
  unfolding get_trade_flow quantum_safety_summary
  proof_execution_mismatch now order_id log = do
    flow ← get_trade_flow e order_id log
    summary ← quantum_safety_summary flow
    ok (
        field "proof_type" (str (codes "EXECUTION_MISMATCH")) (
          field "order_id" (str order_id) (
            field "claim" (str (codes "Execution does not match authorisation")) (
              field "generated_at" (int (pos now)) (
                field "quantum_safety" (obj summary) (
                  field "authorised"
                    (obj (
                      field "trade_details" (authorised_terms flow.commitment)
                        (phase_part "commitment" "commitment_sig" flow.commitment)))
                    (field "executed"
                      (obj (
                        field "execution_result" (executed_result flow.execution)
                          (phase_part "attestation" "execution_sig" flow.execution)))
                      (field "verification_instructions"
                        (str (
                          codes
                            "1. Verify both signatures (commitment and execution). 2. Compare trade_details in commitment vs execution_result. 3. Check both quantum seed commitments are different (independent keys). 4. Verify both temporal windows prove keys expired before Shor's."))
                        end))))))))

  -- `proof_settlement_mismatch`
  unfoldable pub proof_settlement_mismatch : ℕ → Text → AuditLog → Result Dict
  unfolding get_trade_flow quantum_safety_summary
  proof_settlement_mismatch now order_id log = do
    flow ← get_trade_flow e order_id log
    summary ← quantum_safety_summary flow
    ok (
        field "proof_type" (str (codes "SETTLEMENT_MISMATCH")) (
          field "order_id" (str order_id) (
            field "claim" (str (codes "Settlement does not match execution")) (
              field "generated_at" (int (pos now)) (
                field "quantum_safety" (obj summary) (
                  field "execution" (obj (phase_part "attestation" "execution_sig" flow.execution))
                    (field "settlement" (obj (phase_part "record" "settlement_sig" flow.settlement))
                      (field "verification_instructions"
                        (str (
                          codes
                            "1. Verify execution and settlement signatures. 2. Recompute flow_merkle_hash from commitment_sig + execution_sig + broker_sig. 3. Compare to recorded flow_merkle_hash. Mismatch = tampering. 4. Check all 3 quantum seeds are independent. 5. Verify all temporal windows."))
                        end))))))))
