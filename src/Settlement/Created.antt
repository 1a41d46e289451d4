-- ===== src/Settlement/Created.antt =====
-- What `create_and_sign` of a settlement returns.
use protocol_c.Prelude.{ℕ, ◌≡◌, refl, sym, ap, ◌∙◌, [], Text}
use protocol_c.Prelude.Int.{pos}
use protocol_c.Py.Result.{ok, or_else, settlement_error, >>=-eq-ok}
use protocol_c.Py.Value.{Dict, str, obj}
use protocol_c.Py.Env.{Env}
use protocol_c.Curve.{Curve}
use protocol_c.Key.{
  Seed, Readings, QuantumEphemeralKey, default_key_lifetime_seconds, temporal_window_dict, derive,
  sign_or_raise,
}
use protocol_c.Settlement.{
  Phase, QuantumSettlementRecord, compute_flow_merkle, settlement_signable, create_settlement,
}

module _ (e : Env) (c : Curve) (fuel now : ℕ) (t : Readings) (order_id : Text)
    (commitment execution : Phase) (broker_sig : Text) (broker_signature : Dict) (seed : Seed)
    (method : Text) where
  -- The settlement that is signed with a key.
  abbrev pub settlement_of : QuantumEphemeralKey → Text → QuantumSettlementRecord
  settlement_of key flow_merkle = record {
    order_id = order_id;
    commitment_sig = commitment.sig;
    commitment_quantum_seed_commitment = commitment.seed_hash;
    commitment_temporal_window = commitment.window;
    execution_sig = execution.sig;
    execution_quantum_seed_commitment = execution.seed_hash;
    execution_temporal_window = execution.window;
    broker_settlement_sig = broker_sig;
    broker_signature = broker_signature;
    settlement_timestamp = pos now;
    settlement_quantum_seed_commitment = key.seed_commitment.seed_hash;
    settlement_temporal_window = temporal_window_dict key.seed_commitment;
    flow_merkle_hash = flow_merkle;
  }

  -- The parts of a `create_and_sign` that returned.
  pub record IsCreated (d sig : Dict) (s : QuantumSettlementRecord) : Type 0 where
    pub key : QuantumEphemeralKey
    pub merkle : Text
    pub derived : derive e c t seed method default_key_lifetime_seconds ≡ ok key
    pub hashed :
        compute_flow_merkle e commitment.sig execution.sig (str broker_sig) (obj broker_signature)
        ≡ ok merkle
    pub signed : sign_or_raise e c fuel t settlement_error d key ≡ ok sig
    pub built : settlement_of key merkle ≡ s
    pub printed : settlement_signable (settlement_of key merkle) ≡ d

  pub create_settlement-IsCreated :
      (d sig : Dict) (s : QuantumSettlementRecord)
      → create_settlement e c fuel now t order_id commitment execution broker_sig broker_signature
          seed method
        ≡ ok (d, sig, s)
      → IsCreated d sig s
  unfolding create_settlement compute_flow_merkle
  create_settlement-IsCreated d sig s h =
      let (key, hk, h1) = >>=-eq-ok (derive e c t seed method default_key_lifetime_seconds) _ h in
      let merkle =
        or_else
          (compute_flow_merkle e commitment.sig execution.sig (str broker_sig)
            (obj broker_signature))
          [] in
      let made = settlement_of key merkle in
      let (sig', signed, h3) =
        >>=-eq-ok (sign_or_raise e c fuel t settlement_error (settlement_signable made) key) _ h1 in
      let same : settlement_signable made ≡ d = cc h3 in
      let same_sig : sig' ≡ sig = cc h3 in
      record {
        key = key;
        merkle = merkle;
        derived = hk;
        hashed = refl;
        signed =
            ap (λ (x : Dict). sign_or_raise e c fuel t settlement_error x key) (sym same)
            ∙ signed
            ∙ ap ok same_sig;
        built = cc h3;
        printed = same;
      }
