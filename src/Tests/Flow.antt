-- ===== src/Tests/Flow.antt =====
-- The theorems on the phases and the verdict, on a trade on the small curve.
use protocol_c.Prelude.{◌≡◌, refl, none, [], text_eq, arith}
use protocol_c.Prelude.Int.{pos, ◌+ℤ◌}
use protocol_c.Py.Result.{ok}
use protocol_c.Py.Hex.{low_digits, from_bytes, to_bytes_32, hex}
use protocol_c.Curve.{point_mul, ladder}
use protocol_c.Ecdsa.{ecdsa_sign, rfc6979_k, nonce_loop, sign_with}
use protocol_c.Signer.{create, destroy, sign_manifest, public_key_hex, derive_privkey}
use protocol_c.State.{snapshot_to_hash, snapshot_to_json}
use protocol_c.Key.{
  number, validated, derive, seal, finish, sign, sign_or_raise, temporal_window_dict,
}
use protocol_c.Commitment.{create_commitment, commitment_signable}
use protocol_c.Commitment.Created.{IsBound, create_commitment-IsBound}
use protocol_c.Py.Value.{py_len, has_key, as_dict, get_or, dict_get, null}
use protocol_c.Prelude.{some, true}
use protocol_c.Py.Number.{as_number, of_int, of_float, num_lt, num_le, num_eq}
use protocol_c.Py.Compare.{truthy, py_eq, items_eq, order_number}
use protocol_c.Py.Compare
use protocol_c.Py.Hex.{int16, format_064x, hex_text}
use protocol_c.Curve.Power.{pow_mod}
use protocol_c.Ecdsa.{ecdsa_verify, verify_in_range, scalar}
use protocol_c.Signer.{verify_static, checked, decompress}
use protocol_c.Identity.{is_authorized, lower, lower_char, contains, keys_of}
use protocol_c.Key.{verify_signature}
use protocol_c.Commitment.{
  verify_state_binding, is_seed_hash, commitment_quantum_binding, commitment_temporal_safety,
}
use protocol_c.Execution.{
  create_attestation, attestation_signable, result_to_json, execution_quantum_binding,
  execution_temporal_safety, expires_in_time, verify_references_commitment, verify_nonce_increment,
  successor, verify_independent_seeds, verify_matches_commitment_terms, terms_match, within_terms,
  is_none,
}
use protocol_c.Settlement.{
  create_settlement, settlement_signable, compute_flow_merkle, build_broker_attestation,
  verify_chain, verify_all_seeds_independent, verify_all_temporal_windows, windows_are_safe,
  window_is_safe,
}
use protocol_c.Flow.{
  Report, verify_trade_flow, commitment_ok, execution_ok, settlement_ok, linked_ok, linked,
  chain_ok, identity_ok, authorized_value, broker_ok, broker_pubkey, signed, if_present,
}
use protocol_c.Flow.Issues.{detect_tampering}
use protocol_c.Flow.Agreement.{detect_tampering-IsCertified}
use protocol_c.Flow.Certified.{IsCertified, verify_trade_flow-IsCertified}
use protocol_c.Tests.Tiny.{tiny}
use protocol_c.Tests.Fixture.{env, checksum, show, env-IsStandard}
use protocol_c.Tests.Key.{clock}
use protocol_c.Execution.Created.{IsBoundExecution, create_attestation-IsBoundExecution}
use protocol_c.Py.Convert.{to_float}
use protocol_c.Tests.Trade.{
  order, fill, account, csprng, trade, committed, executed, broker_key, broker_envelope, settled,
  key_of, text_of, dict_of, flow, registry,
}

commits :
    create_commitment env tiny 40 1000 clock order trade account (number (pos 12346)) csprng none
    ≡ ok (committed.0, committed.1, committed.2)
unfolding committed create_commitment snapshot_to_hash snapshot_to_json commitment_signable
    sign_or_raise temporal_window_dict derive validated create derive_privkey point_mul ladder
    checksum low_digits to_bytes_32 from_bytes hex text_eq ◌+ℤ◌ sign finish seal sign_manifest
    ecdsa_sign rfc6979_k nonce_loop sign_with public_key_hex destroy show
commits = refl

create_commitment-IsBound_example : IsBound committed.0
create_commitment-IsBound_example =
    create_commitment-IsBound env tiny 40 1000 clock order trade account (number (pos 12346)) csprng
      none committed.0 committed.1 committed.2 env-IsStandard (omega arith) commits

abbrev all_valid : Report
all_valid = record {
  quantum_safe = true;
  chain_valid = true;
  commitment_valid = some true;
  execution_valid = some true;
  settlement_valid = some true;
  identity_bound = true;
}

certifies : verify_trade_flow env tiny order flow (some registry) none ≡ ok all_valid
unfolding verify_trade_flow flow registry committed executed broker_key broker_envelope settled
    key_of text_of dict_of create_attestation create_settlement compute_flow_merkle
    build_broker_attestation settlement_signable attestation_signable result_to_json get_or dict_get
    verify_chain py_eq items_eq verify_signature verify_static checked decompress ecdsa_verify
    verify_in_range scalar int16 pow_mod truthy as_dict py_len has_key protocol_c.Py.Compare.order
    order_number as_number of_int of_float num_lt num_le num_eq commitment_ok execution_ok
    settlement_ok linked_ok linked chain_ok identity_ok authorized_value broker_ok broker_pubkey
    signed if_present verify_state_binding is_seed_hash commitment_quantum_binding
    commitment_temporal_safety execution_quantum_binding execution_temporal_safety expires_in_time
    verify_references_commitment verify_nonce_increment successor verify_independent_seeds
    verify_matches_commitment_terms terms_match within_terms is_none to_float
    verify_all_seeds_independent verify_all_temporal_windows windows_are_safe window_is_safe
    is_authorized lower lower_char contains keys_of create_commitment snapshot_to_hash
    snapshot_to_json commitment_signable sign_or_raise temporal_window_dict derive validated create
    derive_privkey point_mul ladder checksum low_digits to_bytes_32 from_bytes hex text_eq ◌+ℤ◌ sign
    finish seal sign_manifest ecdsa_sign rfc6979_k nonce_loop sign_with public_key_hex destroy show
    format_064x hex_text
certifies = refl

verify_trade_flow-IsCertified_example : IsCertified env tiny order flow (some registry)
verify_trade_flow-IsCertified_example =
    verify_trade_flow-IsCertified env tiny order flow (some registry) none all_valid certifies refl

detect_tampering-IsCertified_example :
    detect_tampering env tiny order flow (some registry) none ≡ ok []
detect_tampering-IsCertified_example =
    detect_tampering-IsCertified env tiny order flow (some registry) none all_valid certifies refl

executes :
    create_attestation env tiny 40 clock committed.1
      (text_of (get_or committed.0 "quantum_seed_commitment" null))
      fill
      (record account { nonce = pos 8 })
      (number (pos 777))
      csprng
    ≡ ok (executed.0, executed.1, executed.2)
unfolding committed create_commitment snapshot_to_hash snapshot_to_json commitment_signable
    sign_or_raise temporal_window_dict derive validated create derive_privkey point_mul ladder
    checksum low_digits to_bytes_32 from_bytes hex text_eq ◌+ℤ◌ sign finish seal sign_manifest
    ecdsa_sign rfc6979_k nonce_loop sign_with public_key_hex destroy show executed
    create_attestation attestation_signable result_to_json get_or dict_get text_of format_064x
    hex_text
executes = refl

create_attestation-IsBoundExecution_example : IsBoundExecution executed.0
create_attestation-IsBoundExecution_example =
    create_attestation-IsBoundExecution env tiny 40 clock committed.1
      (text_of (get_or committed.0 "quantum_seed_commitment" null)) fill
      (record account { nonce = pos 8 }) (number (pos 777)) csprng executed.0 executed.1 executed.2
      executes
