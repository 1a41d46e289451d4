-- ===== src/Audit/Read.antt =====
-- The reading methods of `AuditLog`: `get_by_id`, `get_trade_flow`, `read_all`, `read_by_order_id`
-- and `query`.
use protocol_c.Prelude.{
  ℕ, Bool, true, false, ◌&&◌, Option, none, some, List, [], ◌∷◌, ◌++◌, Text, Bytes, take, codes,
  text_eq, if◌then◌else◌,
}
use protocol_c.Prelude.Int.{ℤ, pos, negsuc}
use protocol_c.Py.Result.{Result, ok, err, audit_error, json_error, unicode_error, ◌>>=◌}
use protocol_c.Py.Value.{Value, str}
use protocol_c.Py.Number.{of_float, num_le}
use protocol_c.Py.Compare.{py_eq, text_lt}
use protocol_c.Py.Env.{Env}
use protocol_c.Flow.{Entry, Flow}
use protocol_c.Audit.{
  AuditEntry, AuditLog, Archive, Row, phase_commitment, phase_execution, phase_settlement, row_with,
  entry_from_dict,
}
use protocol_c.Audit.Lines.{line_at, strip, text_lines}

-- `json.loads(raw.decode("utf-8"))`
unfoldable pub parse_line : Env → Bytes → Result Value
parse_line e raw = elim (e.decode raw) [
  | none ↦ err unicode_error
  | some t ↦ elim (e.loads t) [ none ↦ err json_error | some v ↦ ok v ]
]

-- `seek`, `readline` and the parsing: none at the end of the file, and where the line is malformed.
unfoldable pub record_at : Env → ℕ → Bytes → Option Value
unfolding line_at parse_line
record_at e offset file = elim (line_at offset file) [
  | [] ↦ none
  | b ∷ bs ↦ elim (parse_line e (b ∷ bs)) [ err _ ↦ none | ok v ↦ some v ]
]

unfoldable pub get_by_id : Env → Text → AuditLog → Option Value
unfolding record_at row_with
get_by_id e id log = elim (row_with id log.index) [
  | none ↦ none
  | some r ↦ record_at e r.jsonl_offset log.file
]

-- One phase of `get_trade_flow`: what is no entry raises AuditError.
unfoldable pub phase_of : Env → Text → Text → AuditLog → Result (Option Entry)
unfolding get_by_id entry_from_dict
phase_of e order_id phase log = elim (get_by_id e (order_id ++ (b'_' ∷ phase)) log) [
  | none ↦ ok none
  | some v ↦ elim (entry_from_dict v) [
    | err _ ↦ err audit_error
    | ok x ↦ ok (some (record { payload = x.payload; sig = x.signature; proof = x.quantum_proof }))
  ]
]

unfoldable pub get_trade_flow : Env → Text → AuditLog → Result Flow
unfolding phase_of
get_trade_flow e order_id log = do
  commitment ← phase_of e order_id phase_commitment log
  execution ← phase_of e order_id phase_execution log
  settlement ← phase_of e order_id phase_settlement log
  ok (record { commitment = commitment; execution = execution; settlement = settlement })

-- The lines of `read_all`: blank ones are skipped, and a malformed one raises AuditError.
unfoldable pub read_lines : Env → List Text → Result (List AuditEntry)
unfolding entry_from_dict strip
read_lines e [] = ok []
read_lines e (line ∷ lines) = elim (strip line) [
  | [] ↦ read_lines e lines
  | c ∷ cs ↦ elim (e.loads (c ∷ cs)) [
    | none ↦ err audit_error
    | some v ↦ (do x ← entry_from_dict v; xs ← read_lines e lines; ok (x ∷ xs))
  ]
]

unfoldable pub read_all : Env → AuditLog → Result (List AuditEntry)
unfolding read_lines text_lines
read_all e log = elim (e.decode log.file) [
  | none ↦ err unicode_error
  | some t ↦ read_lines e (text_lines t)
]

-- `[x for x in xs if x.order_id == order_id]`
unfoldable pub of_order : Text → List AuditEntry → List AuditEntry
of_order order_id [] = []
of_order order_id (x ∷ xs) =
    let rest = of_order order_id xs in if py_eq x.order_id (str order_id) then x ∷ rest else rest

unfoldable pub read_by_order_id : Env → Text → AuditLog → Result (List AuditEntry)
unfolding read_all of_order
read_by_order_id e order_id log = do xs ← read_all e log; ok (of_order order_id xs)

-- The filters of `query`, none where the argument is None; times are floats.
pub record Query : Type 0 where
  pub record_type : Option Text
  pub since : Option ℕ
  pub until : Option ℕ
  pub seed_method : Option Text

-- The `WHERE` clause; a comparison with NULL does not hold.
unfoldable pub matches : Query → Row → Bool
unfolding text_eq num_le of_float
matches q r =
    (elim q.record_type [ none ↦ true | some t ↦ text_eq r.record_type t ])
    && (elim q.since [ none ↦ true | some s ↦ num_le (of_float s) (of_float r.timestamp) ])
    && (elim q.until [ none ↦ true | some s ↦ num_le (of_float r.timestamp) (of_float s) ])
    && (elim q.seed_method [
      | none ↦ true
      | some m ↦ elim r.seed_method [ none ↦ false | some n ↦ text_eq n m ]
    ])

unfoldable pub select : Query → List Row → List Row
unfolding matches
select q [] = []
select q (r ∷ rows) = let rest = select q rows in if matches q r then r ∷ rest else rest

-- `LIMIT`: a negative one is none.
unfoldable pub limited : ℤ → List Row → List Row
limited (pos n) rows = take n rows
limited (negsuc n) rows = rows

-- The records at the rows' offsets, without those that are malformed.
unfoldable pub fetch : Env → Bytes → List Row → List Value
unfolding record_at
fetch e file [] = []
fetch e file (r ∷ rows) =
    let rest = fetch e file rows in
    elim (record_at e r.jsonl_offset file) [ none ↦ rest | some v ↦ v ∷ rest ]

-- `query`. The order among rows of one timestamp is SQLite's choice: `by_timestamp` is its
-- `ORDER BY timestamp ASC`.
unfoldable pub query : Env → (List Row → List Row) → Query → ℤ → AuditLog → List Value
unfolding select limited fetch
query e by_timestamp q limit log =
    fetch e log.file (limited limit (by_timestamp (select q log.index)))

-- An insertion of `sorted` on texts.
insert_text : Text → List Text → List Text
unfolding text_lt
insert_text t [] = t ∷ []
insert_text t (u ∷ us) = let rest = insert_text t us in if text_lt u t then u ∷ rest else t ∷ u ∷ us

-- `list_archives`
unfoldable pub list_archives : List Archive → List Text
unfolding insert_text
list_archives [] = []
list_archives (a ∷ rest) = insert_text (a.name ++ codes ".jsonl") (list_archives rest)
