-- ===== src/Flow/Trade.antt =====
-- A trade of three phases that the package's own `create_and_sign` made, with the broker's signature
-- by a one-shot key.
use protocol_c.Prelude.{ℕ, ◌≡◌, sym, ap, ◌∙◌, Option, Text}
use protocol_c.Prelude.Int.{ℤ}
use protocol_c.Py.Result.{ok, commitment_error, execution_error, settlement_error}
use protocol_c.Py.Value.{str, Dict}
use protocol_c.Py.Env.{Env}
use protocol_c.Curve.{Curve, MaybePoint}
use protocol_c.State.{AccountSnapshot}
use protocol_c.Signer.RoundTrip.{IsCurveGroup}
use protocol_c.Key.{
  Seed, Readings, QuantumEphemeralKey, derive, sign, default_key_lifetime_seconds,
  temporal_window_dict,
}
use protocol_c.Key.Derived.{derive-IsDated}
use protocol_c.Key.Window.{temporal_window_dict-hour, hour_window}
use protocol_c.Key.Verified.{IsSealed, sign-IsSealed, sign_or_raise-IsSealed}
use protocol_c.Commitment.{
  ReasoningCapture, QuantumDecisionCommitment, commitment_signable, create_commitment,
}
use protocol_c.Commitment.Created.{IsBound, create_commitment-IsCreated, create_commitment-IsBound}
use protocol_c.Commitment.Created as K
use protocol_c.Execution.{
  ExecutionResult, QuantumExecutionAttestation, attestation_signable, create_attestation,
}
use protocol_c.Execution.Created.{
  create_attestation-IsCreated, IsBoundExecution, create_attestation-IsBoundExecution,
}
use protocol_c.Execution.Created as X
use protocol_c.Settlement.{
  Phase, QuantumSettlementRecord, settlement_signable, create_settlement, build_broker_attestation,
}
use protocol_c.Settlement.Created.{create_settlement-IsCreated}
use protocol_c.Settlement.Created as S

-- What the three phases of a trade are made of: the arguments of the three `create_and_sign`, of the
-- broker's key and of its `sign`, each with its readings of the clock.
pub record Trade : Type 0 where
  pub fuel : ℕ
  pub order_id : Text
  pub committed_at : ℕ
  pub commitment_readings : Readings
  pub trade_details : Dict
  pub account_state : AccountSnapshot
  pub commitment_seed : Seed
  pub commitment_method : Text
  pub reasoning : Option ReasoningCapture
  pub execution_readings : Readings
  pub result : ExecutionResult
  pub new_state : AccountSnapshot
  pub execution_seed : Seed
  pub execution_method : Text
  pub broker_readings : Readings
  pub broker_seed : Seed
  pub broker_method : Text
  pub broker_lifetime : ℤ
  pub broker_sig : Text
  pub settled_at : ℕ
  pub settlement_readings : Readings
  pub settlement_seed : Seed
  pub settlement_method : Text

-- What the calls return, and the proofs that the log keeps beside them.
pub record Phases : Type 0 where
  pub commitment : Dict
  pub commitment_sig : Dict
  pub commitment_record : QuantumDecisionCommitment
  pub commitment_proof : Dict
  pub execution : Dict
  pub execution_sig : Dict
  pub execution_record : QuantumExecutionAttestation
  pub execution_proof : Dict
  pub broker_key : QuantumEphemeralKey
  pub broker_signature : Dict
  pub settlement : Dict
  pub settlement_sig : Dict
  pub settlement_record : QuantumSettlementRecord
  pub settlement_proof : Dict

-- A phase as the settlement cites it.
abbrev pub cited_commitment : Dict → QuantumDecisionCommitment → Phase
cited_commitment sig m = record {
  sig = sig;
  seed_hash = m.quantum_seed_commitment;
  window = m.key_temporal_window;
}

abbrev pub cited_execution : Dict → QuantumExecutionAttestation → Phase
cited_execution sig a = record {
  sig = sig;
  seed_hash = a.execution_quantum_seed_commitment;
  window = a.key_temporal_window;
}

-- The calls return these phases: the attestation and the settlement cite the earlier ones.
pub record IsTrade (e : Env) (c : Curve) (h : Trade) (o : Phases) : Type 0 where
  pub committed :
      create_commitment e c h.fuel h.committed_at h.commitment_readings h.order_id h.trade_details
        h.account_state h.commitment_seed h.commitment_method h.reasoning
      ≡ ok (o.commitment, o.commitment_sig, o.commitment_record)
  pub executed :
      create_attestation e c h.fuel h.execution_readings o.commitment_sig
        o.commitment_record.quantum_seed_commitment h.result h.new_state h.execution_seed
        h.execution_method
      ≡ ok (o.execution, o.execution_sig, o.execution_record)
  pub broker_derived :
      derive e c h.broker_readings h.broker_seed h.broker_method h.broker_lifetime ≡ ok o.broker_key
  pub broker_signed :
      (sign e c h.fuel h.broker_readings
        (build_broker_attestation
          (str h.order_id)
          o.commitment_sig
          o.execution_sig
          (str h.broker_sig))
        o.broker_key).0
      ≡ ok o.broker_signature
  pub settled :
      create_settlement e c h.fuel h.settled_at h.settlement_readings h.order_id
        (cited_commitment o.commitment_sig o.commitment_record)
        (cited_execution o.execution_sig o.execution_record)
        h.broker_sig
        o.broker_signature
        h.settlement_seed
        h.settlement_method
      ≡ ok (o.settlement, o.settlement_sig, o.settlement_record)

pub derived-hour :
    (e : Env) (c : Curve) (t : Readings) (seed : Seed) (method : Text) (k : QuantumEphemeralKey)
    → derive e c t seed method default_key_lifetime_seconds ≡ ok k
    → temporal_window_dict k.seed_commitment ≡ hour_window t.derived_at
derived-hour e c t seed method k h =
    temporal_window_dict-hour t method k
      (derive-IsDated e c t seed method default_key_lifetime_seconds k h)

module _ (e : Env) (c : Curve) {f : ℕ → MaybePoint} (g : IsCurveGroup c f) (h : Trade) (o : Phases)
    (q : IsTrade e c h o) where
  pub made_k :
      K.IsCreated e c h.fuel h.committed_at h.commitment_readings h.order_id h.trade_details
        h.account_state h.commitment_seed h.commitment_method h.reasoning o.commitment
        o.commitment_sig o.commitment_record
  made_k =
      create_commitment-IsCreated e c h.fuel h.committed_at h.commitment_readings h.order_id
        h.trade_details h.account_state h.commitment_seed h.commitment_method h.reasoning
        o.commitment o.commitment_sig o.commitment_record q.committed

  pub made_x :
      X.IsCreated e c h.fuel h.execution_readings o.commitment_sig
        o.commitment_record.quantum_seed_commitment h.result h.new_state h.execution_seed
        h.execution_method o.execution o.execution_sig o.execution_record
  made_x =
      create_attestation-IsCreated e c h.fuel h.execution_readings o.commitment_sig
        o.commitment_record.quantum_seed_commitment h.result h.new_state h.execution_seed
        h.execution_method o.execution o.execution_sig o.execution_record q.executed

  pub made_s :
      S.IsCreated e c h.fuel h.settled_at h.settlement_readings h.order_id
        (cited_commitment o.commitment_sig o.commitment_record)
        (cited_execution o.execution_sig o.execution_record)
        h.broker_sig
        o.broker_signature
        h.settlement_seed
        h.settlement_method
        o.settlement
        o.settlement_sig
        o.settlement_record
  made_s =
      create_settlement-IsCreated e c h.fuel h.settled_at h.settlement_readings h.order_id
        (cited_commitment o.commitment_sig o.commitment_record)
        (cited_execution o.execution_sig o.execution_record) h.broker_sig o.broker_signature
        h.settlement_seed h.settlement_method o.settlement o.settlement_sig o.settlement_record
        q.settled

  pub printed_k : o.commitment ≡ commitment_signable o.commitment_record
  printed_k = sym made_k.printed ∙ ap commitment_signable made_k.built

  pub printed_x : o.execution ≡ attestation_signable o.execution_record
  printed_x = sym made_x.printed ∙ ap attestation_signable made_x.built

  pub printed_s : o.settlement ≡ settlement_signable o.settlement_record
  printed_s = sym made_s.printed ∙ ap settlement_signable made_s.built

  pub seal_k : IsSealed e c o.commitment o.commitment_sig
  seal_k =
      sign_or_raise-IsSealed e c g h.fuel h.commitment_readings h.commitment_readings
        commitment_error h.commitment_seed h.commitment_method default_key_lifetime_seconds
        made_k.key o.commitment o.commitment_sig made_k.derived made_k.signed

  pub seal_x : IsSealed e c o.execution o.execution_sig
  seal_x =
      sign_or_raise-IsSealed e c g h.fuel h.execution_readings h.execution_readings execution_error
        h.execution_seed h.execution_method default_key_lifetime_seconds made_x.key o.execution
        o.execution_sig made_x.derived made_x.signed

  pub seal_s : IsSealed e c o.settlement o.settlement_sig
  seal_s =
      sign_or_raise-IsSealed e c g h.fuel h.settlement_readings h.settlement_readings
        settlement_error h.settlement_seed h.settlement_method default_key_lifetime_seconds
        made_s.key o.settlement o.settlement_sig made_s.derived made_s.signed

  pub seal_b :
      IsSealed e c
        (build_broker_attestation
          (str h.order_id)
          o.commitment_sig
          o.execution_sig
          (str h.broker_sig))
        o.broker_signature
  seal_b =
      sign-IsSealed e c g h.fuel h.broker_readings h.broker_readings h.broker_seed h.broker_method
        h.broker_lifetime o.broker_key
        (build_broker_attestation (str h.order_id) o.commitment_sig o.execution_sig
          (str h.broker_sig))
        o.broker_signature q.broker_derived q.broker_signed

  -- The window of each key is an hour.
  pub window_k :
      o.commitment_record.key_temporal_window ≡ hour_window h.commitment_readings.derived_at
  window_k =
      ap (λ (x : QuantumDecisionCommitment). x.key_temporal_window) (sym made_k.built)
      ∙ derived-hour e c h.commitment_readings h.commitment_seed h.commitment_method made_k.key
          made_k.derived

  pub window_x :
      o.execution_record.key_temporal_window ≡ hour_window h.execution_readings.derived_at
  window_x =
      ap (λ (x : QuantumExecutionAttestation). x.key_temporal_window) (sym made_x.built)
      ∙ derived-hour e c h.execution_readings h.execution_seed h.execution_method made_x.key
          made_x.derived
