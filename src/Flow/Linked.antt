-- ===== src/Flow/Linked.antt =====
-- The checks between the phases of a trade, on records that agree with each other.
use protocol_c.Prelude.{
  ℕ, ◌+◌, ◌≡◌, ◌≢◌, refl, ap, ap₂, ◌∙◌, true, false, some, Text, text_eq, text_eq_iff, text_eq_refl,
  Bool-cases, inl, inr, arith, leb,
}
use protocol_c.Prelude.Int.{ℤ, pos, ◌+ℤ◌}
use protocol_c.Py.Result.{ok}
use protocol_c.Py.Value.{int, str, obj, Dict, dict_get, get_or}
use protocol_c.Py.Compare.{py_eq, py_le}
use protocol_c.Py.Integers.{py_eq-int, py_le-pos}
use protocol_c.Py.Env.{Env}
use protocol_c.Curve.{Curve}
use protocol_c.Key.{verify_signature}
use protocol_c.Key.Window.{hour_window, pos-plus, truthy-plus}
use protocol_c.Key.Verified.{IsShaped, py_eq-IsShaped, truthy-IsShaped}
use protocol_c.Commitment.{QuantumDecisionCommitment, commitment_signable}
use protocol_c.Execution.{
  QuantumExecutionAttestation, attestation_signable, default_tolerance,
  verify_references_commitment, verify_nonce_increment, successor, verify_independent_seeds,
  verify_matches_commitment_terms, is_none,
}
use protocol_c.Settlement.{
  QuantumSettlementRecord, settlement_signable, compute_flow_merkle, build_broker_attestation,
  verify_chain, verify_all_seeds_independent, verify_all_temporal_windows, windows_are_safe,
  window_is_safe,
}
use protocol_c.Flow.{linked, linked_ok}

text_eq-apart : (s t : Text) → s ≢ t → text_eq s t ≡ false
text_eq-apart s t ne = elim (Bool-cases (text_eq s t)) [
  | inl same ↦ absurd (ne ((text_eq_iff s t).0 same))
  | inr apart ↦ apart
]

py_eq-text : (s t : Text) → py_eq (str s) (str t) ≡ text_eq s t
unfolding py_eq
py_eq-text s t = refl

module _ (e : Env) (c : Curve) where
  -- An attestation that cites the signature of a commitment, with the next nonce, another seed and
  -- a fill within the terms.
  pub linked_ok-agreeing :
      (m : QuantumDecisionCommitment) (a : QuantumExecutionAttestation) (ks xs p p' : Dict)
      → IsShaped ks
      → a.commitment_sig ≡ ks
      → a.nonce_after ≡ m.nonce +ℤ pos 1
      → m.quantum_seed_commitment ≢ a.execution_quantum_seed_commitment
      → verify_matches_commitment_terms e default_tolerance
          (obj m.trade_details)
          (obj a.execution_result)
        ≡ ok true
      → linked_ok e c
          (some (record { payload = commitment_signable m; sig = ks; proof = p }))
          (record { payload = attestation_signable a; sig = xs; proof = p' })
        ≡ ok true
  unfolding linked_ok linked commitment_signable attestation_signable get_or dict_get
      verify_references_commitment verify_nonce_increment successor verify_independent_seeds
  linked_ok-agreeing m a ks xs p p' shaped cited next apart terms =
      rw
        (
          terms,
          cited,
          next,
          py_eq-IsShaped shaped,
          py_eq-int (m.nonce +ℤ pos 1),
          py_eq-text m.quantum_seed_commitment a.execution_quantum_seed_commitment,
          text_eq-apart m.quantum_seed_commitment a.execution_quantum_seed_commitment apart,
        )
        refl

  -- A settlement that cites the signatures of both phases, with their hash and the broker's
  -- signature.
  pub verify_chain-agreeing :
      (s : QuantumSettlementRecord) (ks xs : Dict)
      → IsShaped ks
      → IsShaped xs
      → IsShaped s.broker_signature
      → s.commitment_sig ≡ ks
      → s.execution_sig ≡ xs
      → compute_flow_merkle e ks xs (str s.broker_settlement_sig) (obj s.broker_signature)
        ≡ ok s.flow_merkle_hash
      → verify_signature e c
          (obj (build_broker_attestation (str s.order_id) ks xs (str s.broker_settlement_sig)))
          (obj s.broker_signature)
        ≡ true
      → verify_chain e c ks xs (settlement_signable s) ≡ ok true
  unfolding verify_chain settlement_signable get_or dict_get
  verify_chain-agreeing s ks xs shaped_k shaped_x shaped_b cited_k cited_x merkle signed =
      rw
        (
          cited_k,
          cited_x,
          py_eq-IsShaped shaped_k,
          py_eq-IsShaped shaped_x,
          merkle,
          py_eq-text s.flow_merkle_hash s.flow_merkle_hash,
          text_eq_refl s.flow_merkle_hash,
          truthy-IsShaped shaped_b,
          signed,
        )
        refl

-- Three seeds that differ.
pub seeds_independent-agreeing :
    (s : QuantumSettlementRecord)
    → s.commitment_quantum_seed_commitment ≢ s.execution_quantum_seed_commitment
    → s.commitment_quantum_seed_commitment ≢ s.settlement_quantum_seed_commitment
    → s.execution_quantum_seed_commitment ≢ s.settlement_quantum_seed_commitment
    → verify_all_seeds_independent (settlement_signable s) ≡ ok true
unfolding verify_all_seeds_independent settlement_signable get_or dict_get is_none
seeds_independent-agreeing s kx ks xs =
    rw
      (
        py_eq-text s.commitment_quantum_seed_commitment s.execution_quantum_seed_commitment,
        py_eq-text s.commitment_quantum_seed_commitment s.settlement_quantum_seed_commitment,
        py_eq-text s.execution_quantum_seed_commitment s.settlement_quantum_seed_commitment,
        text_eq-apart _ _ kx,
        text_eq-apart _ _ ks,
        text_eq-apart _ _ xs,
      )
      refl

not-leb : (n : ℕ) → leb (n + 604800) (n + 3600) ≡ false
not-leb n = ground arith

-- The window of a key of an hour.
window_is_safe-hour : (n : ℕ) → window_is_safe (obj (hour_window n)) ≡ ok true
unfolding window_is_safe get_or dict_get
window_is_safe-hour n =
    let late : py_le (int (pos n +ℤ pos 604800)) (int (pos n +ℤ pos 3600)) ≡ ok false =
      ap₂ (λ (x y : ℤ). py_le (int x) (int y)) (pos-plus n 604800) (pos-plus n 3600)
      ∙ py_le-pos (n + 604800) (n + 3600)
      ∙ ap ok (not-leb n) in
    rw (truthy-plus n 3600 (omega arith), truthy-plus n 604800 (omega arith), late) refl

-- Three windows of an hour.
pub windows-agreeing :
    (s : QuantumSettlementRecord) (n1 n2 n3 : ℕ)
    → s.commitment_temporal_window ≡ hour_window n1
    → s.execution_temporal_window ≡ hour_window n2
    → s.settlement_temporal_window ≡ hour_window n3
    → verify_all_temporal_windows (settlement_signable s) ≡ ok true
unfolding verify_all_temporal_windows windows_are_safe settlement_signable get_or dict_get
windows-agreeing s n1 n2 n3 w1 w2 w3 =
    rw (w1, w2, w3, window_is_safe-hour n1, window_is_safe-hour n2, window_is_safe-hour n3) refl
