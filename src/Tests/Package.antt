-- ===== src/Tests/Package.antt =====
-- `commit` with a log, on the small curve.
use protocol_c.Prelude.{
  ◌≡◌, refl, none, some, [], ◌∷◌, ◌++◌, Text, Bytes, codes, replicate, text_eq, if◌then◌else◌,
}
use protocol_c.Prelude.Int.{pos, ◌+ℤ◌}
use protocol_c.Py.Result.{Result, ok, or_else}
use protocol_c.Py.Value.{str, obj, Dict, end, float, dict_get, item, has_key}
use protocol_c.Py.Sorted.{sort_keys, insert_field}
use protocol_c.Py.Compare.{text_lt}
use protocol_c.Py.Convert.{to_float, to_int}
use protocol_c.Py.Hex.{low_digits, hex, from_bytes, to_bytes_32}
use protocol_c.Py.Env.{Env}
use protocol_c.Curve.{point_mul, ladder}
use protocol_c.Ecdsa.{ecdsa_sign, rfc6979_k, nonce_loop, sign_with}
use protocol_c.Signer.{create, destroy, sign_manifest, public_key_hex, derive_privkey}
use protocol_c.State.{
  AccountSnapshot, snapshot_to_hash, snapshot_to_json, snapshot_from_dict, to_items,
}
use protocol_c.State.Reread.{snapshot_from_dict-to_json, HasFloats}
use protocol_c.Key.{derive, validated, seal, finish, sign, sign_or_raise, temporal_window_dict}
use protocol_c.Commitment.{QuantumDecisionCommitment, create_commitment, commitment_signable}
use protocol_c.Audit.{AuditEntry, AuditLog, entry_to_json}
use protocol_c.Audit.Lines.{rstrip}
use protocol_c.Audit.Append.{RotationTime, append_commitment, phase_entry}
use protocol_c.Audit.History.{reread}
use protocol_c.Package.{Moments, QuantumSeedResult, Request, signed_commitment}
use protocol_c.Tests.Tiny.{tiny}
use protocol_c.Tests.Fixture.{env, checksum, show}
use protocol_c.Tests.Key.{clock}
use protocol_c.Tests.Trade.{order, trade, account, no_commitment}

abbrev pub plain : Env
plain = record env { dumps = λ v. show (sort_keys v) }

abbrev random : Bytes
random = replicate 30 0 ++ (48 ∷ 58 ∷ [])

abbrev now : RotationTime
now = record { suffix = codes "0"; at = 7 }

abbrev moments : Moments
moments = record {
  captured_at = 1000;
  committed_at = 1000;
  key_readings = clock;
  logged_at = 1002;
  rotation = now;
}

abbrev request : Request
request = record {
  order_id = order;
  trade_details = trade;
  account_state = snapshot_to_json account;
  reasoning_text = none;
  reasoning_model = codes "human";
}

abbrev seed : QuantumSeedResult
seed = record { seed_int = 12346; seed_hash = []; method = codes "CSPRNG" }

unfoldable made : Dict × Dict × QuantumDecisionCommitment
made = or_else (signed_commitment plain tiny 40 moments seed request) (end, end, no_commitment)

abbrev entry : AuditEntry
entry = phase_entry plain 1002 (codes "DECISION_COMMITMENT") (str order) made.0 made.1

abbrev body : Text
body = show (sort_keys (obj (entry_to_json entry)))

-- A reader of that line.
abbrev files : Env
files = record plain { loads = λ t. if text_eq (rstrip t) body then some (reread entry) else none }

abbrev disk : AuditLog
disk = record {
  stem = codes "log";
  file = [];
  index = [];
  line_count = 0;
  max_file_size = pos 104857600;
  archives = [];
}

signed : signed_commitment files tiny 40 moments seed request ≡ ok (made.0, made.1, made.2)
unfolding made signed_commitment create_commitment snapshot_to_hash snapshot_to_json
    snapshot_from_dict to_float to_int to_items item has_key dict_get commitment_signable
    sign_or_raise temporal_window_dict derive validated create derive_privkey point_mul ladder
    checksum low_digits to_bytes_32 from_bytes hex text_eq ◌+ℤ◌ sign finish seal sign_manifest
    ecdsa_sign rfc6979_k nonce_loop sign_with public_key_hex destroy show sort_keys insert_field
    text_lt
signed = refl

abbrev after : AuditLog
after = (append_commitment files now 1002 made.0 made.1 disk).1

abbrev float_account : AccountSnapshot
float_account = record account {
  capital = float 1;
  equity = float 2;
  risk_used = float 3;
  risk_limit = float 4;
}

float_account-HasFloats : HasFloats float_account
float_account-HasFloats = record {
  capital_bits = 1;
  capital_is = refl;
  equity_bits = 2;
  equity_is = refl;
  risk_used_bits = 3;
  risk_used_is = refl;
  risk_limit_bits = 4;
  risk_limit_is = refl;
}

snapshot_from_dict-to_json_example :
    snapshot_from_dict env (snapshot_to_json float_account) ≡ ok float_account
snapshot_from_dict-to_json_example =
    snapshot_from_dict-to_json env float_account float_account-HasFloats
