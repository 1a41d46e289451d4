-- ===== src/Audit/Append.antt =====
-- The writing methods of `AuditLog`: `_append`, `_rotate` and the three `append_…`. A method gives
-- its result and the log that it leaves, an exception included.
use protocol_c.Prelude.{
  ℕ, ◌+◌, Bool, not, ◌&&◌, ◌||◌, List, [], ◌∷◌, ◌++◌, Text, Bytes, codes, length, text_eq, ltb,
  if◌then◌else◌,
}
use protocol_c.Prelude.Int.{pos, ltb_ℤ}
use protocol_c.Py.Result.{Result, ok, err, audit_error}
use protocol_c.Py.Value.{Value, null, int, str, obj, Dict, end, field, get_or, as_dict}
use protocol_c.Py.Compare.{truthy, py_eq}
use protocol_c.Py.Env.{Env}
use protocol_c.Audit.{
  AuditEntry, AuditLog, Archive, phase_commitment, phase_execution, phase_settlement, log_rotation,
  entry_to_json, extract_quantum_proof, index_entry,
}

-- The readings of the clock at a rotation: the suffix of the archive's names and `int(time.time())`.
pub record RotationTime : Type 0 where
  pub suffix : Text
  pub at : ℕ

-- `replace` onto a name: an archive of that name is overwritten.
unfoldable pub put_archive : Archive → List Archive → List Archive
unfolding text_eq
put_archive a [] = a ∷ []
put_archive a (b ∷ bs) = if text_eq b.name a.name then a ∷ bs else b ∷ put_archive a bs

-- The line of an entry with its newline, in UTF-8.
unfoldable pub line_of : Env → AuditEntry → Bytes
unfolding entry_to_json
line_of e x = e.encode (e.dumps (obj (entry_to_json x)) ++ 10 ∷ [])

-- The test of `_maybe_rotate`
unfoldable pub is_full : AuditLog → Bool
is_full log =
    (not (ltb_ℤ (pos 0) log.max_file_size) && ltb 0 log.line_count)
    || (ltb_ℤ (pos 0) log.max_file_size && not (ltb_ℤ (pos (length log.file)) log.max_file_size))

module _ (e : Env) where
  -- `_append` after the rotation: the line is in the file before the index is written.
  unfoldable pub write : AuditEntry → AuditLog → Result (Unit {0}) × AuditLog
  unfolding line_of
  write x log =
      let written = record log { file = log.file ++ line_of e x } in
      elim (index_entry e x (length log.file) log.line_count log.index) [
        | err exn ↦ (err exn, written)
        | ok rows ↦ (ok tt, record written { index = rows; line_count = log.line_count + 1 })
      ]

  -- The entry that opens a new file.
  unfoldable pub rotation_entry : RotationTime → Text → AuditEntry
  rotation_entry t name = record {
    timestamp = int (pos t.at);
    phase = str log_rotation;
    order_id = str (codes "__system__");
    payload =
        field "previous_log" (str (name ++ codes ".jsonl"))
          (field "previous_db" (str (name ++ codes ".db")) end);
    signature = end;
    quantum_proof = end;
  }

  -- `_rotate`
  unfoldable pub rotate : RotationTime → AuditLog → Result (Unit {0}) × AuditLog
  unfolding put_archive rotation_entry write
  rotate t log =
      let name = log.stem ++ (b'_' ∷ t.suffix) in
      write (rotation_entry t name) (record log {
        file = [];
        index = [];
        line_count = 0;
        archives =
            put_archive (record { name = name; file = log.file; index = log.index }) log.archives;
      })

  -- `_append`
  unfoldable pub append : RotationTime → AuditEntry → AuditLog → Result (Unit {0}) × AuditLog
  unfolding is_full rotate write
  append t x log =
      if py_eq x.phase (str log_rotation) || not (is_full log)
      then write x log
      else let (result, rotated) = rotate t log in
        elim result [ err exn ↦ (err exn, rotated) | ok _ ↦ write x rotated ]

  -- An entry of a phase, at a time.
  unfoldable pub phase_entry : ℕ → Text → Value → Dict → Dict → AuditEntry
  unfolding extract_quantum_proof
  phase_entry now phase order_id payload signature = record {
    timestamp = int (pos now);
    phase = str phase;
    order_id = order_id;
    payload = payload;
    signature = signature;
    quantum_proof = extract_quantum_proof payload;
  }

  -- The common rest of the three methods: AuditError without an order id.
  abbrev append_phase :
      RotationTime → ℕ → Text → Value → Dict → Dict → AuditLog → Result (Unit {0}) × AuditLog
  append_phase t now phase order_id payload signature log =
      if not (truthy order_id)
      then (err audit_error, log)
      else append t (phase_entry now phase order_id payload signature) log

  unfoldable pub append_commitment :
      RotationTime → ℕ → Dict → Dict → AuditLog → Result (Unit {0}) × AuditLog
  append_commitment t now commitment signature log =
      append_phase t now phase_commitment (get_or commitment "order_id" null) commitment signature
        log

  -- AttributeError where `execution_result` is no dict.
  unfoldable pub append_execution :
      RotationTime → ℕ → Dict → Dict → AuditLog → Result (Unit {0}) × AuditLog
  append_execution t now execution signature log =
      elim (as_dict (get_or execution "execution_result" (obj end))) [
        | err exn ↦ (err exn, log)
        | ok result ↦
            append_phase t now phase_execution (get_or result "order_id" (str [])) execution
              signature log
      ]

  unfoldable pub append_settlement :
      RotationTime → ℕ → Dict → Dict → AuditLog → Result (Unit {0}) × AuditLog
  append_settlement t now settlement signature log =
      append_phase t now phase_settlement (get_or settlement "order_id" null) settlement signature
        log
