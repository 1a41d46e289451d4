-- ===== src/Tests/Honest.antt =====
-- The trade on the small curve is certified because its phases were made by the package.
use protocol_c.Prelude.{◌≡◌, refl, none, [], text_eq, arith}
use protocol_c.Prelude.Int.{pos, ◌+ℤ◌}
use protocol_c.Py.Result.{ok}
use protocol_c.Py.Hex.{low_digits, from_bytes, to_bytes_32, hex}
use protocol_c.Curve.{point_mul, ladder}
use protocol_c.Ecdsa.{ecdsa_sign, rfc6979_k, nonce_loop, sign_with}
use protocol_c.Signer.{create, destroy, sign_manifest, public_key_hex, derive_privkey}
use protocol_c.State.{snapshot_to_hash, snapshot_to_json}
use protocol_c.Key.{
  number, validated, derive, seal, finish, sign, sign_or_raise, temporal_window_dict,
}
use protocol_c.Commitment.{create_commitment, commitment_signable}
use protocol_c.Py.Value.{py_len, has_key, as_dict, get_or, dict_get}
use protocol_c.Prelude.{some, true}
use protocol_c.Py.Number.{as_number, of_int, of_float, num_lt, num_le, num_eq}
use protocol_c.Py.Compare.{truthy, py_eq, items_eq, order_number}
use protocol_c.Py.Compare
use protocol_c.Py.Hex.{int16, format_064x, hex_text}
use protocol_c.Curve.Power.{pow_mod}
use protocol_c.Ecdsa.{ecdsa_verify, verify_in_range, scalar}
use protocol_c.Signer.{verify_static, checked, decompress}
use protocol_c.Identity.{is_authorized, lower, lower_char, contains, keys_of}
use protocol_c.Key.{verify_signature}
use protocol_c.Commitment.{
  verify_state_binding, is_seed_hash, commitment_quantum_binding, commitment_temporal_safety,
}
use protocol_c.Execution.{
  create_attestation, attestation_signable, result_to_json, execution_quantum_binding,
  execution_temporal_safety, expires_in_time, verify_references_commitment, verify_nonce_increment,
  successor, verify_independent_seeds, verify_matches_commitment_terms, terms_match, within_terms,
  is_none,
}
use protocol_c.Settlement.{
  create_settlement, settlement_signable, compute_flow_merkle, build_broker_attestation,
  verify_chain, verify_all_seeds_independent, verify_all_temporal_windows, windows_are_safe,
  window_is_safe,
}
use protocol_c.Flow.{
  verify_trade_flow, commitment_ok, execution_ok, settlement_ok, linked_ok, linked, chain_ok,
  identity_ok, authorized_value, broker_ok, broker_pubkey, signed, if_present,
}
use protocol_c.Tests.Tiny.{tiny}
use protocol_c.Tests.Fixture.{env, checksum, show, env-IsStandard}
use protocol_c.Tests.Key.{clock}
use protocol_c.Py.Convert.{to_float}
use protocol_c.Prelude.{◌≢◌, Text, false, text_eq_iff}
use protocol_c.Prelude.Int.{pos}
use protocol_c.Py.Result.{ok}
use protocol_c.Py.Value.{obj, str, end}
use protocol_c.Key.{number, default_key_lifetime_seconds}
use protocol_c.Execution.{verify_matches_commitment_terms, default_tolerance}
use protocol_c.Flow.{verify_trade_flow}
use protocol_c.Flow.Trade.{Trade, Phases, IsTrade}
use protocol_c.Flow.Honest.{flow_of, all_valid, verify_trade_flow-honest}
use protocol_c.Tests.Tiny.{tiny}
use protocol_c.Tests.Field.{tiny-IsCurveGroup}
use protocol_c.Tests.Fixture.{env, env-IsStandard}
use protocol_c.Tests.Key.{clock}
use protocol_c.Tests.Trade.{
  key_of, text_of, dict_of, order, fill, account, csprng, trade, ack, committed, executed,
  broker_key, broker_envelope, settled, registry,
}

abbrev inputs : Trade
inputs = record {
  fuel = 40;
  order_id = order;
  committed_at = 1000;
  commitment_readings = clock;
  trade_details = trade;
  account_state = account;
  commitment_seed = number (pos 12346);
  commitment_method = csprng;
  reasoning = none;
  execution_readings = clock;
  result = fill;
  new_state = record account { nonce = pos 8 };
  execution_seed = number (pos 777);
  execution_method = csprng;
  broker_readings = clock;
  broker_seed = number (pos 4242);
  broker_method = csprng;
  broker_lifetime = default_key_lifetime_seconds;
  broker_sig = ack;
  settled_at = 1002;
  settlement_readings = clock;
  settlement_seed = number (pos 999);
  settlement_method = csprng;
}

abbrev phases : Phases
phases = record {
  commitment = committed.0;
  commitment_sig = committed.1;
  commitment_record = committed.2;
  commitment_proof = end;
  execution = executed.0;
  execution_sig = executed.1;
  execution_record = executed.2;
  execution_proof = end;
  broker_key = broker_key;
  broker_signature = broker_envelope;
  settlement = settled.0;
  settlement_sig = settled.1;
  settlement_record = settled.2;
  settlement_proof = end;
}

phases-IsTrade : IsTrade env tiny inputs phases
unfolding verify_trade_flow registry committed executed broker_key broker_envelope settled key_of
    text_of dict_of create_attestation create_settlement compute_flow_merkle
    build_broker_attestation settlement_signable attestation_signable result_to_json get_or dict_get
    verify_chain py_eq items_eq verify_signature verify_static checked decompress ecdsa_verify
    verify_in_range scalar int16 pow_mod truthy as_dict py_len has_key protocol_c.Py.Compare.order
    order_number as_number of_int of_float num_lt num_le num_eq commitment_ok execution_ok
    settlement_ok linked_ok linked chain_ok identity_ok authorized_value broker_ok broker_pubkey
    signed if_present verify_state_binding is_seed_hash commitment_quantum_binding
    commitment_temporal_safety execution_quantum_binding execution_temporal_safety expires_in_time
    verify_references_commitment verify_nonce_increment successor verify_independent_seeds
    verify_matches_commitment_terms terms_match within_terms is_none to_float
    verify_all_seeds_independent verify_all_temporal_windows windows_are_safe window_is_safe
    is_authorized lower lower_char contains keys_of create_commitment snapshot_to_hash
    snapshot_to_json commitment_signable sign_or_raise temporal_window_dict derive validated create
    derive_privkey point_mul ladder checksum low_digits to_bytes_32 from_bytes hex text_eq ◌+ℤ◌ sign
    finish seal sign_manifest ecdsa_sign rfc6979_k nonce_loop sign_with public_key_hex destroy show
    format_064x hex_text
phases-IsTrade = record {
  committed = refl;
  executed = refl;
  broker_derived = refl;
  broker_signed = refl;
  settled = refl;
}

text_eq-apart : (s t : Text) → text_eq s t ≡ false → s ≢ t
text_eq-apart s t h same = cc (h, (text_eq_iff s t).1 same)

next : pos 8 ≡ pos 7 +ℤ pos 1
unfolding ◌+ℤ◌
next = refl

-- The seeds differ, the fill keeps the terms, and the four keys are registered.
checks :
    (text_eq committed.2.quantum_seed_commitment executed.2.execution_quantum_seed_commitment
      ≡ false)
    × (text_eq committed.2.quantum_seed_commitment settled.2.settlement_quantum_seed_commitment
        ≡ false)
    × (text_eq executed.2.execution_quantum_seed_commitment
          settled.2.settlement_quantum_seed_commitment
        ≡ false)
    × (verify_matches_commitment_terms env default_tolerance (obj trade) (obj (result_to_json fill))
        ≡ ok true)
    × (identity_ok (some registry) order committed.1 ≡ ok true)
    × (identity_ok (some registry) order executed.1 ≡ ok true)
    × (identity_ok (some registry) order settled.1 ≡ ok true)
    × (broker_ok (some registry) order (get_or broker_envelope "pubkey" (str [])) ≡ ok true)
unfolding verify_trade_flow registry committed executed broker_key broker_envelope settled key_of
    text_of dict_of create_attestation create_settlement compute_flow_merkle
    build_broker_attestation settlement_signable attestation_signable result_to_json get_or dict_get
    verify_chain py_eq items_eq verify_signature verify_static checked decompress ecdsa_verify
    verify_in_range scalar int16 pow_mod truthy as_dict py_len has_key protocol_c.Py.Compare.order
    order_number as_number of_int of_float num_lt num_le num_eq commitment_ok execution_ok
    settlement_ok linked_ok linked chain_ok identity_ok authorized_value broker_ok broker_pubkey
    signed if_present verify_state_binding is_seed_hash commitment_quantum_binding
    commitment_temporal_safety execution_quantum_binding execution_temporal_safety expires_in_time
    verify_references_commitment verify_nonce_increment successor verify_independent_seeds
    verify_matches_commitment_terms terms_match within_terms is_none to_float
    verify_all_seeds_independent verify_all_temporal_windows windows_are_safe window_is_safe
    is_authorized lower lower_char contains keys_of create_commitment snapshot_to_hash
    snapshot_to_json commitment_signable sign_or_raise temporal_window_dict derive validated create
    derive_privkey point_mul ladder checksum low_digits to_bytes_32 from_bytes hex text_eq ◌+ℤ◌ sign
    finish seal sign_manifest ecdsa_sign rfc6979_k nonce_loop sign_with public_key_hex destroy show
    format_064x hex_text
checks = (refl, refl, refl, refl, refl, refl, refl, refl)

verify_trade_flow-honest_example :
    verify_trade_flow env tiny order (flow_of phases) (some registry) none ≡ ok all_valid
verify_trade_flow-honest_example =
    verify_trade_flow-honest env tiny tiny-IsCurveGroup inputs phases phases-IsTrade registry none
      env-IsStandard (omega arith) next checks.3 (text_eq-apart _ _ checks.0)
      (text_eq-apart _ _ checks.1) (text_eq-apart _ _ checks.2) checks.4 checks.5 checks.6 checks.7
