-- ===== src/Flow/Honest.antt =====
-- A trade whose phases were made by the package's own `create_and_sign` is certified.
use protocol_c.Prelude.{ℕ, ◌<◌, ◌≡◌, ◌≢◌, refl, true, Option, some, [], Text}
use protocol_c.Prelude.Int.{pos, ◌+ℤ◌}
use protocol_c.Py.Result.{ok}
use protocol_c.Py.Value.{str, obj, get_or}
use protocol_c.Py.Env.{Env, IsStandard}
use protocol_c.Curve.{Curve, MaybePoint}
use protocol_c.Signer.RoundTrip.{IsCurveGroup}
use protocol_c.Identity.{AccountKeyRegistry}
use protocol_c.Execution.{result_to_json, default_tolerance, verify_matches_commitment_terms}
use protocol_c.Flow.{Flow, Report, scope_of, if_present, verify_trade_flow, identity_ok, broker_ok}
use protocol_c.Flow.Trade.{Trade, Phases, IsTrade}
use protocol_c.Flow.Checked.{commitment_certified, execution_certified, settlement_certified}

-- The verdict that all phases are valid.
abbrev pub all_valid : Report
all_valid = record {
  quantum_safe = true;
  chain_valid = true;
  commitment_valid = some true;
  execution_valid = some true;
  settlement_valid = some true;
  identity_bound = true;
}

-- The flow of the three phases.
abbrev pub flow_of : Phases → Flow
flow_of o = record {
  commitment =
      some (record { payload = o.commitment; sig = o.commitment_sig; proof = o.commitment_proof });
  execution =
      some (record { payload = o.execution; sig = o.execution_sig; proof = o.execution_proof });
  settlement =
      some (record { payload = o.settlement; sig = o.settlement_sig; proof = o.settlement_proof });
}

module _ (e : Env) (c : Curve) {f : ℕ → MaybePoint} (g : IsCurveGroup c f) (h : Trade) (o : Phases)
    (q : IsTrade e c h o) where
  -- On a curve with a group of prime order, a trade whose commitment, attestation and settlement
  -- were made by `create_and_sign`, with the broker's signature by a one-shot key, is certified by
  -- `verify_trade_flow`, if SHA-256 gives 32 bytes, the commitment was made past the epoch, the
  -- nonce went up by 1, the fill keeps the terms, the hashes of the three seeds differ, and the
  -- registry authorises the three public keys for the scope and the broker's for its scope.
  pub verify_trade_flow-honest :
      (r : AccountKeyRegistry) (account_id : Option Text)
      → IsStandard e
      → 0 < h.commitment_readings.derived_at
      → h.new_state.nonce ≡ h.account_state.nonce +ℤ pos 1
      → verify_matches_commitment_terms e default_tolerance
          (obj h.trade_details)
          (obj (result_to_json h.result))
        ≡ ok true
      → o.commitment_record.quantum_seed_commitment
        ≢ o.execution_record.execution_quantum_seed_commitment
      → o.commitment_record.quantum_seed_commitment
        ≢ o.settlement_record.settlement_quantum_seed_commitment
      → o.execution_record.execution_quantum_seed_commitment
        ≢ o.settlement_record.settlement_quantum_seed_commitment
      → identity_ok (some r) (scope_of account_id h.order_id) o.commitment_sig ≡ ok true
      → identity_ok (some r) (scope_of account_id h.order_id) o.execution_sig ≡ ok true
      → identity_ok (some r) (scope_of account_id h.order_id) o.settlement_sig ≡ ok true
      → broker_ok
          (some r)
          (scope_of account_id h.order_id)
          (get_or o.broker_signature "pubkey" (str []))
        ≡ ok true
      → verify_trade_flow e c h.order_id (flow_of o) (some r) account_id ≡ ok all_valid
  unfolding verify_trade_flow if_present
  verify_trade_flow-honest r account_id std late next terms seeds_kx seeds_ks seeds_xs known_k
        known_x known_s known_b =
      let scope = scope_of account_id h.order_id in
      rw
        (
          commitment_certified e c g h o q r scope std late known_k,
          execution_certified e c g h o q r scope next terms seeds_kx known_x,
          settlement_certified e c g h o q r scope seeds_kx seeds_ks seeds_xs known_s known_b,
        )
        refl
