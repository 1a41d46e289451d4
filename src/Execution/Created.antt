-- ===== src/Execution/Created.antt =====
-- What `create_and_sign` of an attestation returns passes the checks of the verifier.
use protocol_c.Prelude.{ℕ, ◌≡◌, refl, sym, ap, ◌∙◌, true, Text, length, arith, subst}
use protocol_c.Py.Result.{ok, execution_error, >>=-eq-ok}
use protocol_c.Py.Value.{Dict, dict_get, get_or, has_key, py_len, as_dict}
use protocol_c.Py.Env.{Env}
use protocol_c.Curve.{Curve}
use protocol_c.State.{AccountSnapshot, snapshot_to_hash}
use protocol_c.Key.{
  Seed, Readings, QuantumEphemeralKey, default_key_lifetime_seconds, temporal_window_dict, derive,
  sign_or_raise,
}
use protocol_c.Key.Derived.{derive-IsDated}
use protocol_c.Key.Window.{
  hour_window, temporal_window_dict-hour, truthy-wide, truthy-plus, hour-safe,
}
use protocol_c.Commitment.{is_seed_hash}
use protocol_c.Execution.{
  ExecutionResult, QuantumExecutionAttestation, result_to_json, attestation_signable,
  create_attestation, execution_quantum_binding, execution_temporal_safety, expires_in_time,
}

-- The two checks that an attestation passes by itself.
abbrev pub IsBoundExecution : Dict → Type 0
IsBoundExecution d =
    (execution_quantum_binding d ≡ ok true) × (execution_temporal_safety d ≡ ok true)

quantum_bound :
    (created : ℕ) (a : QuantumExecutionAttestation)
    → length a.execution_quantum_seed_commitment ≡ 64
    → a.key_temporal_window ≡ hour_window created
    → execution_quantum_binding (attestation_signable a) ≡ ok true
unfolding execution_quantum_binding attestation_signable get_or dict_get has_key is_seed_hash py_len
quantum_bound created a wide window =
    rw (truthy-wide a.execution_quantum_seed_commitment 63 wide, wide, window) refl

temporal_bound :
    (created : ℕ) (a : QuantumExecutionAttestation)
    → a.key_temporal_window ≡ hour_window created
    → execution_temporal_safety (attestation_signable a) ≡ ok true
unfolding execution_temporal_safety expires_in_time attestation_signable get_or dict_get as_dict
temporal_bound created a window =
    rw (window, truthy-plus created 3600 (omega arith), truthy-plus created 604800 (omega arith))
      (hour-safe created)

module _ (e : Env) (c : Curve) (fuel : ℕ) (t : Readings) (commitment_sig : Dict)
    (commitment_seed_hash : Text) (result : ExecutionResult) (new_state : AccountSnapshot)
    (seed : Seed) (method : Text) where
  -- The attestation that is signed with a key.
  abbrev pub attestation_of : QuantumEphemeralKey → QuantumExecutionAttestation
  attestation_of key = record {
    commitment_sig = commitment_sig;
    commitment_quantum_seed_commitment = commitment_seed_hash;
    execution_result = result_to_json result;
    execution_quantum_seed_commitment = key.seed_commitment.seed_hash;
    new_account_state_hash = snapshot_to_hash e new_state;
    nonce_after = new_state.nonce;
    key_temporal_window = temporal_window_dict key.seed_commitment;
  }

  -- The parts of a `create_and_sign` that returned.
  pub record IsCreated (d sig : Dict) (a : QuantumExecutionAttestation) : Type 0 where
    pub key : QuantumEphemeralKey
    pub derived : derive e c t seed method default_key_lifetime_seconds ≡ ok key
    pub signed : sign_or_raise e c fuel t execution_error d key ≡ ok sig
    pub built : attestation_of key ≡ a
    pub printed : attestation_signable (attestation_of key) ≡ d

  module _ (d sig : Dict) (a : QuantumExecutionAttestation) where
    pub create_attestation-IsCreated :
        create_attestation e c fuel t commitment_sig commitment_seed_hash result new_state seed
            method
          ≡ ok (d, sig, a)
        → IsCreated d sig a
    unfolding create_attestation
    create_attestation-IsCreated h =
        let (key, hk, h1) = >>=-eq-ok (derive e c t seed method default_key_lifetime_seconds) _ h in
        let made = attestation_of key in
        let (sig', signed, h2) =
          >>=-eq-ok (sign_or_raise e c fuel t execution_error (attestation_signable made) key) _
            h1 in
        let same : attestation_signable made ≡ d = cc h2 in
        let same_sig : sig' ≡ sig = cc h2 in
        record {
          key = key;
          derived = hk;
          signed =
              ap (λ (x : Dict). sign_or_raise e c fuel t execution_error x key) (sym same)
              ∙ signed
              ∙ ap ok same_sig;
          built = cc h2;
          printed = same;
        }

    -- A dict that `create_and_sign` of an attestation returns passes `verify_quantum_binding` and
    -- `verify_temporal_safety`, at any reading of the clock.
    pub create_attestation-IsBoundExecution :
        create_attestation e c fuel t commitment_sig commitment_seed_hash result new_state seed
            method
          ≡ ok (d, sig, a)
        → IsBoundExecution d
    create_attestation-IsBoundExecution h =
        let cr = create_attestation-IsCreated h in
        let dated =
          derive-IsDated e c t seed method default_key_lifetime_seconds cr.key cr.derived in
        let window = temporal_window_dict-hour t method cr.key dated in
        let made = attestation_of cr.key in
        subst IsBoundExecution cr.printed (
          quantum_bound t.derived_at made dated.0.0 window,
          temporal_bound t.derived_at made window,
        )
