-- ===== src/Tests/Piped.antt =====
-- `commit`, `batch_commit`, and the commands behind them, on the small curve.
use protocol_c.Prelude.{◌≡◌, refl, ◌∙◌, none, some, [], ◌∷◌, ◌++◌, Bytes, codes, replicate, text_eq}
use protocol_c.Prelude.Int.{pos, ◌+ℤ◌}
use protocol_c.Py.Result.{ok, or_else}
use protocol_c.Py.Value.{obj, Dict, end, dict_get, item, has_key}
use protocol_c.Py.Sorted.{sort_keys, insert_field}
use protocol_c.Py.Compare.{text_lt}
use protocol_c.Py.Convert.{to_float, to_int}
use protocol_c.Py.Hex.{low_digits, hex, from_bytes, to_bytes_32}
use protocol_c.Py.Env.{Env}
use protocol_c.Curve.{point_mul, ladder}
use protocol_c.Ecdsa.{ecdsa_sign, rfc6979_k, nonce_loop, sign_with}
use protocol_c.Signer.{create, destroy, sign_manifest, public_key_hex, derive_privkey}
use protocol_c.State.{snapshot_to_hash, snapshot_to_json, snapshot_from_dict, to_items}
use protocol_c.Key.{derive, validated, seal, finish, sign, sign_or_raise, temporal_window_dict}
use protocol_c.Commitment.{create_commitment, commitment_signable}
use protocol_c.Package.{Moments, QuantumSeedResult, Request, signed_commitment, commit}
use protocol_c.Tests.Tiny.{tiny}
use protocol_c.Tests.Fixture.{env, checksum, show}
use protocol_c.Tests.Key.{clock}
use protocol_c.Tests.Trade.{order, trade, account}
use protocol_c.Prelude.{List, length, All, true, ◌↔◌, ℕ}
use protocol_c.Py.Value.{Items, nil, cons, bool, field, items_size}
use protocol_c.Prelude.{Bool, Option}
use protocol_c.Py.Result.{Result}
use protocol_c.Audit.{AuditLog}
use protocol_c.Key.{verify_signature}
use protocol_c.Commitment.{QuantumDecisionCommitment}
use protocol_c.Tests.Trade.{no_commitment}
use protocol_c.Package.{get_seed, seed_result_to_dict, BatchItem, batch_commit}
use protocol_c.Package.Verified.{
  signed_commitment-accepted, commit-IsVerified, AllVerified, batch_commit-IsVerified,
}
use protocol_c.Prelude.{Text, drop, ltb, ltb→lt, arith, if◌then◌else◌, ap}
use protocol_c.Py.Value.{Value, str}
use protocol_c.Py.Sorted.{sort_dict}
use protocol_c.Py.Sorted.Again.{sort_keys-again}
use protocol_c.Flow.RereadLinks.{IsCanonical}
use protocol_c.Cli.{read_json, read_limited, read_chunks, emit}
use protocol_c.Cli.Commands.{commit_report, read_payload, request_of, cmd_commit, cmd_verify}
use protocol_c.Cli.Piped.{commit_report-IsVerified, IsPrinted, cmd_verify-cmd_commit}
use protocol_c.Tests.Package.{plain}
use protocol_c.Cli.Logs.{LogsArgs, selected, cmd_logs}
use protocol_c.Cli.Accepted.{IsAcceptedEntry, cmd_logs-IsAccepted}
use protocol_c.Tests.Field.{tiny-IsCurveGroup}

abbrev random : Bytes
random = replicate 30 0 ++ (48 ∷ 58 ∷ [])

abbrev moments : Moments
moments = record {
  captured_at = 1000;
  committed_at = 1000;
  key_readings = clock;
  logged_at = 1002;
  rotation = record { suffix = codes "0"; at = 7 };
}

abbrev request : Request
request = record {
  order_id = order;
  trade_details = trade;
  account_state = snapshot_to_json account;
  reasoning_text = none;
  reasoning_model = codes "human";
}

abbrev seed : QuantumSeedResult
seed = get_seed env random (codes "CSPRNG")

result : Dict
result = or_else (commit env tiny 40 moments seed request none).0 end

-- A reader of JSON that knows this result only.
abbrev reader : Env
reader = record env { loads = λ t. some (obj result) }

commits : commit reader tiny 40 moments seed request none ≡ (ok result, none)
unfolding result commit get_seed signed_commitment create_commitment snapshot_to_hash
    snapshot_to_json snapshot_from_dict to_float to_int to_items item has_key dict_get
    commitment_signable sign_or_raise temporal_window_dict derive validated create derive_privkey
    point_mul ladder checksum low_digits to_bytes_32 from_bytes hex text_eq ◌+ℤ◌ sign finish seal
    sign_manifest ecdsa_sign rfc6979_k nonce_loop sign_with public_key_hex destroy show sort_keys
    insert_field text_lt protocol_c.Signer.verify_static
commits = refl

-- The payload of the command `commit` for the same request.
abbrev payload : Dict
payload =
    field "order_id" (str order) (
      field "trade_details" (obj trade)
        (field "account_state" (obj (snapshot_to_json account)) end))

unfoldable made : Dict × Dict × QuantumDecisionCommitment
made =
    or_else
      (signed_commitment plain tiny 40 moments (get_seed plain random (codes "CSPRNG")) request)
      (end, end, no_commitment)

-- What `commit` prints, with its verdict.
abbrev report : Bool → Dict
report verified = field "commitment" (obj made.0) (
    field "signature" (obj made.1) (
      field "seed_info" (obj (seed_result_to_dict (get_seed plain random (codes "CSPRNG"))))
        (field "verified" (bool verified) end)))

abbrev printed : Dict
printed = report true

abbrev pretty : Value → Text
pretty v = show (sort_keys v)

-- A reader of JSON that knows this payload and what was printed.
abbrev files : Env
files = record plain {
  loads =
      λ t. if text_eq t (codes "in") then some (obj payload) else some (obj (sort_dict printed));
}

files-IsCanonical : IsCanonical files
files-IsCanonical = record { same_dumps = λ v. ap show (sort_keys-again v) }

request_reads : read_payload files 9 (some (codes "in")) ≡ ok payload
unfolding read_payload read_json read_limited read_chunks protocol_c.Audit.Lines.strip text_eq
    protocol_c.Cli.Commands.require_key protocol_c.Cli.Commands.contains_key has_key dict_get
request_reads = refl

request_typed : request_of payload ≡ some request
unfolding request_of protocol_c.Py.Value.get_or dict_get snapshot_to_json
request_typed = refl

signed :
    signed_commitment files tiny 40 moments (get_seed files random (codes "CSPRNG")) request
    ≡ ok (made.0, made.1, made.2)
unfolding made get_seed signed_commitment create_commitment snapshot_to_hash snapshot_to_json
    snapshot_from_dict to_float to_int to_items item has_key dict_get commitment_signable
    sign_or_raise temporal_window_dict derive validated create derive_privkey point_mul ladder
    checksum low_digits to_bytes_32 from_bytes hex text_eq ◌+ℤ◌ sign finish seal sign_manifest
    ecdsa_sign rfc6979_k nonce_loop sign_with public_key_hex destroy show sort_keys insert_field
    text_lt
signed = refl

accepted : verify_signature files tiny (obj made.0) (obj made.1) ≡ true
accepted =
    signed_commitment-accepted files tiny tiny-IsCurveGroup 40 moments
      (get_seed files random (codes "CSPRNG")) request (made.0, made.1, made.2) signed

printed_commits :
    commit files tiny 40 moments (get_seed files random (codes "CSPRNG")) request none
    ≡ (ok printed, none)
unfolding commit get_seed
printed_commits =
    let result : Bool → Result Dict × Option AuditLog = λ verified. (ok (report verified), none) in
    rw (commit, signed) (ap result accepted)

-- A run of the command, of its parts.
cmd_commit-parts :
    (e : Env) (d : Dict) (r : Request) (result : Result Dict × Option AuditLog)
    → read_payload e 9 (some (codes "in")) ≡ ok d
    → request_of d ≡ some r
    → commit e tiny 40 moments (get_seed e random (codes "CSPRNG")) r none ≡ result
    → cmd_commit e tiny 40 9 random moments (some (codes "in")) none
      ≡ some (commit_report result.0, result.1)
unfolding cmd_commit
cmd_commit-parts e d r result read typed made = rw (cmd_commit, read, typed, made) refl

runs :
    cmd_commit files tiny 40 9 random moments (some (codes "in")) none
    ≡ some (ok (printed, 0), none)
runs =
    let reported : commit_report (ok printed) ≡ ok (printed, 0) =
      commit_report-IsVerified files tiny printed (
        commit-IsVerified files tiny tiny-IsCurveGroup 40 moments
          (get_seed files random (codes "CSPRNG")) request none none printed printed_commits) in
    cmd_commit-parts files payload request (ok printed, none) request_reads request_typed
      printed_commits
    ∙ ap (λ (x : Result (Dict × ℕ)). some (x, none)) reported

printed-IsPrinted : IsPrinted files pretty printed
unfolding made commit get_seed signed_commitment create_commitment snapshot_to_hash snapshot_to_json
    snapshot_from_dict to_float to_int to_items item has_key dict_get commitment_signable
    sign_or_raise temporal_window_dict derive validated create derive_privkey point_mul ladder
    checksum low_digits to_bytes_32 from_bytes hex text_eq ◌+ℤ◌ sign finish seal sign_manifest
    ecdsa_sign rfc6979_k nonce_loop sign_with public_key_hex destroy show sort_keys insert_field
    text_lt protocol_c.Signer.verify_static protocol_c.Py.Hex.format_064x protocol_c.Py.Hex.hex_text
    emit protocol_c.Audit.Lines.strip
printed-IsPrinted = record {
  first = b'{';
  others = drop 1 (pretty (obj printed));
  not_blank = refl;
  reads_back = refl;
}

short : ltb (length (emit pretty printed)) 5000 ≡ true
unfolding made commit get_seed signed_commitment create_commitment snapshot_to_hash snapshot_to_json
    snapshot_from_dict to_float to_int to_items item has_key dict_get commitment_signable
    sign_or_raise temporal_window_dict derive validated create derive_privkey point_mul ladder
    checksum low_digits to_bytes_32 from_bytes hex text_eq ◌+ℤ◌ sign finish seal sign_manifest
    ecdsa_sign rfc6979_k nonce_loop sign_with public_key_hex destroy show sort_keys insert_field
    text_lt protocol_c.Signer.verify_static protocol_c.Py.Hex.format_064x protocol_c.Py.Hex.hex_text
    emit
short = refl

cmd_verify-cmd_commit_example :
    (let code : ℕ = 0 in code ≡ 0)
    × (cmd_verify files tiny 5000 (some (emit pretty printed))
        ≡ ok (field "verified" (bool true) end, 0))
cmd_verify-cmd_commit_example =
    cmd_verify-cmd_commit files tiny tiny-IsCurveGroup pretty 40 9 5000 random moments
      (some (codes "in")) none none printed 0 files-IsCanonical runs printed-IsPrinted
      (omega (arith, ltb→lt (length (emit pretty printed)) 5000 short))
      (ltb→lt (length (emit pretty printed)) 5000 short)

abbrev batch : List (BatchItem env tiny)
batch = record { random = random; moments = moments; request = request } ∷ []

abbrev results : Items
results = cons (obj result) nil

batches : batch_commit env tiny 40 batch none ≡ (ok results, none)
unfolding result commit get_seed batch_commit signed_commitment create_commitment snapshot_to_hash
    snapshot_to_json snapshot_from_dict to_float to_int to_items item has_key dict_get
    commitment_signable sign_or_raise temporal_window_dict derive validated create derive_privkey
    point_mul ladder checksum low_digits to_bytes_32 from_bytes hex text_eq ◌+ℤ◌ sign finish seal
    sign_manifest ecdsa_sign rfc6979_k nonce_loop sign_with public_key_hex destroy show sort_keys
    insert_field text_lt
batches = refl

batch_commit-IsVerified_example :
    (items_size results ≡ length batch) × AllVerified env tiny tiny-IsCurveGroup results
batch_commit-IsVerified_example =
    batch_commit-IsVerified env tiny tiny-IsCurveGroup 40 batch none none results batches

-- A log of two lines that are read as the same entry.
abbrev arguments : LogsArgs
arguments = record { log = none; type_filter = none; tail = some (pos 1); check = true }

selects : selected reader arguments (codes "a\nb\n") ≡ ok (obj result ∷ [])
unfolding selected
selects = refl

cmd_logs-IsAccepted_example :
    (report : Dict) × (code : ℕ) × (cmd_logs reader tiny arguments (some (codes "a\nb\n"))
      ≡ ok (some report, code))
    × ((code ≡ 0) ↔ All (IsAcceptedEntry reader tiny) (obj result ∷ []))
cmd_logs-IsAccepted_example =
    cmd_logs-IsAccepted reader tiny arguments (codes "a\nb\n") (codes "a\nb\n") (obj result ∷ [])
      refl refl selects ((result, refl), tt)
