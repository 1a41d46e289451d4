-- ===== src/Package.antt =====
-- aether_protocol_c/seed.py and the functions of aether_protocol_c/__init__.py.
pub mod Logged
pub mod Verified
use protocol_c.Prelude.{ℕ, Bool, true, false, Option, none, some, List, [], ◌∷◌, Text, Bytes, codes}
use protocol_c.Prelude.Int.{ℤ, pos}
use protocol_c.Py.Result.{Result, ok, err, ◌>>=◌}
use protocol_c.Py.Value.{Value, bool, str, obj, arr, Items, nil, cons, Dict, end, field}
use protocol_c.Py.Hex.{hex, from_bytes}
use protocol_c.Py.Env.{Env}
use protocol_c.Curve.{Curve}
use protocol_c.State.{snapshot_from_dict}
use protocol_c.Key.{Readings, number, verify_signature}
use protocol_c.Commitment.{
  ReasoningCapture, from_text, create_commitment, QuantumDecisionCommitment,
}
use protocol_c.Audit.{AuditLog}
use protocol_c.Audit.Append.{RotationTime, append_commitment}
use protocol_c.Audit.Rebuild.{open_log}

pub record QuantumSeedResult : Type 0 where
  pub seed_int : ℕ
  pub seed_hash : Text
  pub method : Text

-- `QuantumSeedResult.to_dict`
unfoldable pub seed_result_to_dict : QuantumSeedResult → Dict
seed_result_to_dict s = field "seed_hash" (str s.seed_hash) (field "method" (str s.method) end)

-- `generate_quantum_seed`, with the 32 bytes of `secrets.token_bytes`: the method that is asked for
-- is ignored.
unfoldable pub generate_quantum_seed : Env → Bytes → Text → QuantumSeedResult
unfolding from_bytes
generate_quantum_seed e random method = record {
  seed_int = from_bytes random;
  seed_hash = hex (e.sha256 random);
  method = codes "CSPRNG";
}

-- `get_seed`
unfoldable pub get_seed : Env → Bytes → Text → QuantumSeedResult
unfolding generate_quantum_seed
get_seed e random method = generate_quantum_seed e random method

-- The readings of the clock in one `commit`, in their order.
pub record Moments : Type 0 where
  pub captured_at : ℕ
  pub committed_at : ℕ
  pub key_readings : Readings
  pub logged_at : ℕ
  pub rotation : RotationTime

-- The arguments of `commit` beside the seed and the path.
pub record Request : Type 0 where
  pub order_id : Text
  pub trade_details : Dict
  pub account_state : Dict
  pub reasoning_text : Option Text
  pub reasoning_model : Text

-- `AuditLog(path)` on what an earlier log left there, with the maximal size of 100 MB.
abbrev pub reopen : Env → AuditLog → Result AuditLog
reopen e disk = open_log e disk.stem disk.file disk.index (pos 100) disk.archives

module _ (e : Env) (c : Curve) where
  -- The reasoning that is bound: none for an empty text.
  abbrev pub reasoning_of : ℕ → Option Text → Text → Option ReasoningCapture
  reasoning_of now none model = none
  reasoning_of now (some []) model = none
  reasoning_of now (some (t ∷ ts)) model = some (from_text e now (t ∷ ts) model none)

  -- The commitment and its signature.
  unfoldable pub signed_commitment :
      ℕ → Moments → QuantumSeedResult → Request → Result (Dict × Dict × QuantumDecisionCommitment)
  unfolding snapshot_from_dict create_commitment from_text
  signed_commitment fuel m seed r = do
    snap ← snapshot_from_dict e r.account_state
    create_commitment e c fuel m.committed_at m.key_readings r.order_id r.trade_details snap
        (number (pos seed.seed_int)) seed.method
        (reasoning_of m.captured_at r.reasoning_text r.reasoning_model)

  -- The dict that `commit` returns.
  abbrev pub commit_result : QuantumSeedResult → Dict → Dict → Dict
  commit_result seed commitment signature = field "commitment" (obj commitment) (
      field "signature" (obj signature) (
        field "seed_info" (obj (seed_result_to_dict seed))
          (field "verified" (bool (verify_signature e c (obj commitment) (obj signature))) end)))

  -- The log after an `append_commitment` in a log that may not open.
  abbrev pub log_commitment :
      Moments → Dict → Dict → Result AuditLog → Result (Unit {0}) × Option AuditLog
  log_commitment m commitment signature (err x) = (err x, none)
  log_commitment m commitment signature (ok log) =
      let (result, after) = append_commitment e m.rotation m.logged_at commitment signature log in
      (result, some after)

  -- `commit`: the log at the path is none where no path is given, and after the call where it was
  -- not opened.
  unfoldable pub commit :
      ℕ → Moments → QuantumSeedResult → Request → Option AuditLog → Result Dict × Option AuditLog
  unfolding signed_commitment open_log append_commitment verify_signature seed_result_to_dict
  commit fuel m seed r disk = elim (signed_commitment fuel m seed r) [
    | err x ↦ (err x, none)
    | ok (commitment, signature, _) ↦ elim disk [
      | none ↦ (ok (commit_result seed commitment signature), none)
      | some d ↦
          let (result, after) = log_commitment m commitment signature (reopen e d) in
          (result >>= λ _. ok (commit_result seed commitment signature), after)
    ]
  ]

  -- `verify`
  unfoldable pub verify : Value → Value → Bool
  unfolding verify_signature
  verify commitment signature = verify_signature e c commitment signature

  -- One item of a batch, with the random bytes and the readings that it meets.
  pub record BatchItem : Type 0 where
    pub random : Bytes
    pub moments : Moments
    pub request : Request

  -- `batch_commit`, on items with their required keys: what a failing item leaves of the log is not
  -- read again.
  unfoldable pub batch_commit :
      ℕ → List BatchItem → Option AuditLog → Result Items × Option AuditLog
  unfolding commit get_seed
  batch_commit fuel [] disk = (ok nil, disk)
  batch_commit fuel (x ∷ xs) disk =
      let (result, after) =
        commit fuel x.moments (get_seed e x.random (codes "CSPRNG")) x.request disk in
      elim result [
        | err exn ↦ (err exn, after)
        | ok d ↦
            let (results, last) = batch_commit fuel xs after in
            (results >>= λ ds. ok (cons (obj d) ds), last)
      ]
