-- ===== src/Flow/Checked.antt =====
-- Each phase of a trade made by the package's own `create_and_sign` passes the checks of the verifier.
use protocol_c.Prelude.{ℕ, ◌<◌, ◌≡◌, ◌≢◌, sym, ap, ap₂, ◌∙◌, subst, true, some, [], Text}
use protocol_c.Prelude.Int.{pos, ◌+ℤ◌}
use protocol_c.Py.Result.{ok}
use protocol_c.Py.Value.{str, obj, Dict, get_or}
use protocol_c.Py.Env.{Env, IsStandard}
use protocol_c.Curve.{Curve, MaybePoint}
use protocol_c.Signer.RoundTrip.{IsCurveGroup}
use protocol_c.Identity.{AccountKeyRegistry}
use protocol_c.Key.Verified.{IsShaped, IsSealed}
use protocol_c.Commitment.{QuantumDecisionCommitment}
use protocol_c.Commitment.Created.{create_commitment-IsBound}
use protocol_c.Execution.{
  QuantumExecutionAttestation, result_to_json, default_tolerance, verify_matches_commitment_terms,
}
use protocol_c.Execution.Created.{create_attestation-IsBoundExecution}
use protocol_c.Settlement.{
  QuantumSettlementRecord, settlement_signable, verify_chain, verify_all_seeds_independent,
  verify_all_temporal_windows,
}
use protocol_c.Flow.{
  Entry, identity_ok, broker_ok, commitment_ok, linked_ok, execution_ok, settlement_ok,
}
use protocol_c.Flow.Bound.{commitment_ok-bound, execution_ok-bound, settlement_ok-bound}
use protocol_c.Flow.Linked.{
  linked_ok-agreeing, verify_chain-agreeing, seeds_independent-agreeing, windows-agreeing,
}
use protocol_c.Flow.Trade.{
  Trade, Phases, IsTrade, derived-hour, made_k, made_x, made_s, printed_k, printed_x, printed_s,
  seal_k, seal_x, seal_s, seal_b, window_k, window_x,
}

module _ (e : Env) (c : Curve) {f : ℕ → MaybePoint} (g : IsCurveGroup c f) (h : Trade) (o : Phases)
    (q : IsTrade e c h o) where
  -- The commitment passes its checks.
  pub commitment_certified :
      (r : AccountKeyRegistry) (scope : Text)
      → IsStandard e
      → 0 < h.commitment_readings.derived_at
      → identity_ok (some r) scope o.commitment_sig ≡ ok true
      → commitment_ok e c
          (some r)
          scope
          (record { payload = o.commitment; sig = o.commitment_sig; proof = o.commitment_proof })
        ≡ ok true
  commitment_certified r scope std late =
      commitment_ok-bound e c r scope o.commitment o.commitment_sig o.commitment_proof
        (create_commitment-IsBound e c h.fuel h.committed_at h.commitment_readings h.order_id
          h.trade_details h.account_state h.commitment_seed h.commitment_method h.reasoning
          o.commitment o.commitment_sig o.commitment_record std late q.committed)
        (seal_k e c g h o q)

  -- So does the execution.
  pub execution_certified :
      (r : AccountKeyRegistry) (scope : Text)
      → h.new_state.nonce ≡ h.account_state.nonce +ℤ pos 1
      → verify_matches_commitment_terms e default_tolerance
          (obj h.trade_details)
          (obj (result_to_json h.result))
        ≡ ok true
      → o.commitment_record.quantum_seed_commitment
        ≢ o.execution_record.execution_quantum_seed_commitment
      → identity_ok (some r) scope o.execution_sig ≡ ok true
      → execution_ok e c
          (some r)
          scope
          (some
            (record { payload = o.commitment; sig = o.commitment_sig; proof = o.commitment_proof }))
          (record { payload = o.execution; sig = o.execution_sig; proof = o.execution_proof })
        ≡ ok true
  execution_certified r scope next terms apart identified =
      execution_ok-bound e c r scope _ o.execution o.execution_sig o.execution_proof
        (create_attestation-IsBoundExecution e c h.fuel h.execution_readings o.commitment_sig
          o.commitment_record.quantum_seed_commitment h.result h.new_state h.execution_seed
          h.execution_method o.execution o.execution_sig o.execution_record q.executed)
        (seal_x e c g h o q) identified
        (ap₂
            (λ (k x : Dict).
              linked_ok e c
                (some (record { payload = k; sig = o.commitment_sig; proof = o.commitment_proof }))
                (record { payload = x; sig = o.execution_sig; proof = o.execution_proof }))
            (printed_k e c g h o q) (printed_x e c g h o q)
          ∙ linked_ok-agreeing e c o.commitment_record o.execution_record o.commitment_sig
              o.execution_sig o.commitment_proof o.execution_proof (seal_k e c g h o q).1
              (ap (λ (x : QuantumExecutionAttestation). x.commitment_sig)
                (sym (made_x e c g h o q).built))
              (ap (λ (x : QuantumExecutionAttestation). x.nonce_after)
                  (sym (made_x e c g h o q).built)
                ∙ next
                ∙ ap (λ (x : QuantumDecisionCommitment). x.nonce +ℤ pos 1)
                    (made_k e c g h o q).built)
              apart
              (ap₂
                  (λ (k x : Dict).
                    verify_matches_commitment_terms e default_tolerance (obj k) (obj x))
                  (ap (λ (x : QuantumDecisionCommitment). x.trade_details)
                    (sym (made_k e c g h o q).built))
                  (ap (λ (x : QuantumExecutionAttestation). x.execution_result)
                    (sym (made_x e c g h o q).built))
                ∙ terms))

  windows_certified :
      verify_all_temporal_windows (settlement_signable o.settlement_record) ≡ ok true
  windows_certified =
      windows-agreeing o.settlement_record h.commitment_readings.derived_at
        h.execution_readings.derived_at h.settlement_readings.derived_at
        (ap (λ (x : QuantumSettlementRecord). x.commitment_temporal_window)
            (sym (made_s e c g h o q).built)
          ∙ (window_k e c g h o q))
        (ap (λ (x : QuantumSettlementRecord). x.execution_temporal_window)
            (sym (made_s e c g h o q).built)
          ∙ (window_x e c g h o q))
        (ap (λ (x : QuantumSettlementRecord). x.settlement_temporal_window)
            (sym (made_s e c g h o q).built)
          ∙ derived-hour e c h.settlement_readings h.settlement_seed h.settlement_method
              (made_s e c g h o q).key (made_s e c g h o q).derived)

  seeds_certified :
      o.commitment_record.quantum_seed_commitment
        ≢ o.execution_record.execution_quantum_seed_commitment
      → o.commitment_record.quantum_seed_commitment
        ≢ o.settlement_record.settlement_quantum_seed_commitment
      → o.execution_record.execution_quantum_seed_commitment
        ≢ o.settlement_record.settlement_quantum_seed_commitment
      → verify_all_seeds_independent (settlement_signable o.settlement_record) ≡ ok true
  seeds_certified n1 n2 n3 =
      let k_eq =
        ap (λ (x : QuantumSettlementRecord). x.commitment_quantum_seed_commitment)
          (made_s e c g h o q).built in
      let x_eq =
        ap (λ (x : QuantumSettlementRecord). x.execution_quantum_seed_commitment)
          (made_s e c g h o q).built in
      seeds_independent-agreeing o.settlement_record (λ z. n1 (k_eq ∙ z ∙ sym x_eq))
        (λ z. n2 (k_eq ∙ z)) (λ z. n3 (x_eq ∙ z))

  chain_certified :
      verify_chain e c o.commitment_sig o.execution_sig (settlement_signable o.settlement_record)
      ≡ ok true
  chain_certified =
      let broker =
        ap (λ (x : QuantumSettlementRecord). x.broker_signature) (sym (made_s e c g h o q).built) in
      let ack =
        ap (λ (x : QuantumSettlementRecord). x.broker_settlement_sig)
          (sym (made_s e c g h o q).built) in
      let order =
        ap (λ (x : QuantumSettlementRecord). x.order_id) (sym (made_s e c g h o q).built) in
      let merkle =
        ap (λ (x : QuantumSettlementRecord). x.flow_merkle_hash) (sym (made_s e c g h o q).built) in
      verify_chain-agreeing e c o.settlement_record o.commitment_sig o.execution_sig
        (seal_k e c g h o q).1 (seal_x e c g h o q).1
        (subst IsShaped (sym broker) (seal_b e c g h o q).1)
        (ap (λ (x : QuantumSettlementRecord). x.commitment_sig) (sym (made_s e c g h o q).built))
        (ap (λ (x : QuantumSettlementRecord). x.execution_sig) (sym (made_s e c g h o q).built))
        (rw (broker, ack, merkle) (made_s e c g h o q).hashed)
        (rw (order, ack, broker) (seal_b e c g h o q).0)

  pub settlement_certified :
      (r : AccountKeyRegistry) (scope : Text)
      → o.commitment_record.quantum_seed_commitment
        ≢ o.execution_record.execution_quantum_seed_commitment
      → o.commitment_record.quantum_seed_commitment
        ≢ o.settlement_record.settlement_quantum_seed_commitment
      → o.execution_record.execution_quantum_seed_commitment
        ≢ o.settlement_record.settlement_quantum_seed_commitment
      → identity_ok (some r) scope o.settlement_sig ≡ ok true
      → broker_ok (some r) scope (get_or o.broker_signature "pubkey" (str [])) ≡ ok true
      → settlement_ok e c
          (some r)
          scope
          (some
            (record { payload = o.commitment; sig = o.commitment_sig; proof = o.commitment_proof }))
          (some
            (record { payload = o.execution; sig = o.execution_sig; proof = o.execution_proof }))
          (record { payload = o.settlement; sig = o.settlement_sig; proof = o.settlement_proof })
        ≡ ok true
  settlement_certified r scope seeds_kx seeds_ks seeds_xs identified authorised =
      let k : Entry = record {
        payload = o.commitment;
        sig = o.commitment_sig;
        proof = o.commitment_proof;
      } in
      let x : Entry = record {
        payload = o.execution;
        sig = o.execution_sig;
        proof = o.execution_proof;
      } in
      let broker =
        ap (λ (y : QuantumSettlementRecord). y.broker_signature) (sym (made_s e c g h o q).built) in
      ap
        (λ (d : Dict).
          settlement_ok e c (some r) scope (some k) (some x)
            (record { payload = d; sig = o.settlement_sig; proof = o.settlement_proof }))
        (printed_s e c g h o q)
      ∙ settlement_ok-bound e c r scope k x o.settlement_record o.settlement_sig o.settlement_proof
          (subst (λ (d : Dict). IsSealed e c d o.settlement_sig) (printed_s e c g h o q)
            (seal_s e c g h o q))
          identified (subst IsShaped (sym broker) (seal_b e c g h o q).1) (rw broker authorised)
          chain_certified (seeds_certified seeds_kx seeds_ks seeds_xs) windows_certified
