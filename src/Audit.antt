-- ===== src/Audit.antt =====
-- aether_protocol_c/audit.py: the log file, its SQLite index and the records of them. The file is
-- its bytes, and the table is its rows in the order of insertion.
pub mod Lines
pub mod Append
pub mod Read
pub mod Rebuild
pub mod History
pub mod Rows
pub mod Lookup
pub mod Flows
pub mod Phased
pub mod Recorded
pub mod Verdict
pub mod Rebuildable
pub mod Rebuilt
use protocol_c.Prelude.{
  ℕ, ◌+◌, ◌*◌, ◌^◌, Bool, true, false, not, ◌&&◌, ◌||◌, Option, none, some, List, [], ◌∷◌, ◌++◌,
  String, Text, Bytes, codes, length, text_eq, ltb, ◌==◌, if◌then◌else◌,
}
use protocol_c.Prelude.Int.{ℤ, pos, negsuc, scale, ltb_ℤ}
use protocol_c.Py.Result.{
  Result, ok, err, audit_error, type_error, overflow_error, sqlite_error, ◌>>=◌,
}
use protocol_c.Py.Value.{
  Value, null, bool, int, float, str, arr, obj, Dict, end, field, dict_get, get_or, as_dict,
}
use protocol_c.Py.Number.{Number, nan, fin, of_float}
use protocol_c.Py.Compare.{truthy}
use protocol_c.Py.Convert.{to_float, to_text}
use protocol_c.Py.Hex.{hex}
use protocol_c.Py.Env.{Env}

abbrev pub phase_commitment : Text
phase_commitment = codes "DECISION_COMMITMENT"

abbrev pub phase_execution : Text
phase_execution = codes "EXECUTION_ATTESTATION"

abbrev pub phase_settlement : Text
phase_settlement = codes "SETTLEMENT_FINALITY"

abbrev pub log_rotation : Text
log_rotation = codes "LOG_ROTATION"

pub record AuditEntry : Type 0 where
  pub timestamp : Value
  pub phase : Value
  pub order_id : Value
  pub payload : Dict
  pub signature : Dict
  pub quantum_proof : Dict

-- `to_json`
unfoldable pub entry_to_json : AuditEntry → Dict
entry_to_json x = field "timestamp" x.timestamp (
    field "phase" x.phase (
      field "order_id" x.order_id (
        field "data" (obj x.payload)
          (field "signature" (obj x.signature) (field "quantum_proof" (obj x.quantum_proof) end)))))

-- `d[k]` inside the handler of KeyError
abbrev pub entry_item : Dict → String → Result Value
entry_item d k = elim (dict_get d k) [ none ↦ err audit_error | some v ↦ ok v ]

-- a field that must be a dict
abbrev pub dict_field : Value → Result Dict
dict_field v = elim (as_dict v) [ err _ ↦ err audit_error | ok d ↦ ok d ]

-- `from_dict`: TypeError if the record is no dict.
unfoldable pub entry_from_dict : Value → Result AuditEntry
entry_from_dict v = do
  d ← elim (as_dict v) [ err _ ↦ err type_error | ok d ↦ ok d ]
  payload ← entry_item d "data"
  signature ← entry_item d "signature"
  quantum_proof ← entry_item d "quantum_proof"
  timestamp ← entry_item d "timestamp"
  phase ← entry_item d "phase"
  order_id ← entry_item d "order_id"
  payload' ← dict_field payload
  signature' ← dict_field signature
  quantum_proof' ← dict_field quantum_proof
  ok (record {
    timestamp = timestamp;
    phase = phase;
    order_id = order_id;
    payload = payload';
    signature = signature';
    quantum_proof = quantum_proof';
  })

-- `a or b`
abbrev pub py_or : Value → Value → Value
py_or v w = if truthy v then v else w

-- `_extract_quantum_proof`
unfoldable pub extract_quantum_proof : Dict → Dict
extract_quantum_proof d =
    field "seed_commitment"
      (py_or (get_or d "quantum_seed_commitment" null) (
        py_or (get_or d "execution_quantum_seed_commitment" null)
          (py_or (get_or d "settlement_quantum_seed_commitment" null) (str []))))
      (field "key_temporal_window"
        (py_or (get_or d "key_temporal_window" null)
          (py_or (get_or d "settlement_temporal_window" null) (obj end)))
        end)

-- A row of `audit_index`.
pub record Row : Type 0 where
  pub record_id : Text
  pub record_type : Text
  pub timestamp : ℕ
  pub decision_hash : Text
  pub seed_method : Option Text
  pub jsonl_offset : ℕ
  pub jsonl_line : ℕ

-- The row with a primary key.
unfoldable pub row_with : Text → List Row → Option Row
unfolding text_eq
row_with id [] = none
row_with id (r ∷ rows) = if text_eq r.record_id id then some r else row_with id rows

-- The rows without a primary key.
unfoldable pub rows_without : Text → List Row → List Row
unfolding text_eq
rows_without id [] = []
rows_without id (r ∷ rows) =
    let rest = rows_without id rows in if text_eq r.record_id id then rest else r ∷ rest

-- `INSERT OR REPLACE`
unfoldable pub replace_row : Row → List Row → List Row
unfolding rows_without
replace_row r rows = rows_without r.record_id rows ++ r ∷ []

-- A value bound to a nullable column of texts: `sqlite3` takes no list and no dict, and no integer
-- of more than 64 bits.
unfoldable pub nullable_text : Env → Value → Result (Option Text)
nullable_text e null = ok none
nullable_text e (str s) = ok (some s)
nullable_text e (bool b) = ok (some (e.column_text (bool b)))
nullable_text e (float b) = ok (some (e.column_text (float b)))
nullable_text e (int (pos n)) =
    if ltb n (2 ^ 63) then ok (some (e.column_text (int (pos n)))) else err overflow_error
nullable_text e (int (negsuc n)) =
    if ltb n (2 ^ 63) then ok (some (e.column_text (int (negsuc n)))) else err overflow_error
nullable_text e (arr vs) = err sqlite_error
nullable_text e (obj d) = err sqlite_error

-- The same, bound to a column that is `NOT NULL`.
abbrev pub required_text : Env → Value → Result Text
required_text e v = do t ← nullable_text e v; elim t [ none ↦ err sqlite_error | some s ↦ ok s ]

-- A float bound to a column of numbers that is `NOT NULL`: SQLite keeps NaN as NULL.
abbrev pub required_number : ℕ → Result ℕ
required_number b = elim (of_float b) [ nan ↦ err sqlite_error | _ ↦ ok b ]

-- `record_id`
abbrev pub record_id_of : Env → AuditEntry → Text
record_id_of e x = to_text e x.order_id ++ (b'_' ∷ to_text e x.phase)

-- `_index_entry`
unfoldable pub index_entry : Env → AuditEntry → ℕ → ℕ → List Row → Result (List Row)
unfolding replace_row nullable_text
index_entry e x offset line_num rows = do
  seconds ← to_float e x.timestamp
  record_type ← required_text e x.phase
  timestamp ← required_number seconds
  seed_method ← nullable_text e (get_or x.payload "seed_measurement_method" null)
  ok (
      replace_row
        (record {
          record_id = record_id_of e x;
          record_type = record_type;
          timestamp = timestamp;
          decision_hash = hex (e.sha256 (e.encode (e.dumps (obj x.payload))));
          seed_method = seed_method;
          jsonl_offset = offset;
          jsonl_line = line_num;
        })
        rows)

-- An archive: its name, the file and the rows of its database.
pub record Archive : Type 0 where
  pub name : Text
  pub file : Bytes
  pub index : List Row

-- The stem of the path gives the archives their names.
pub record AuditLog : Type 0 where
  pub stem : Text
  pub file : Bytes
  pub index : List Row
  pub line_count : ℕ
  pub max_file_size : ℤ
  pub archives : List Archive

-- `max_file_size_mb * 1024 * 1024`
abbrev pub megabytes : ℤ → ℤ
megabytes mb = scale (1024 * 1024) mb
