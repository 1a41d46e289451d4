-- ===== src/Audit/Rebuild.antt =====
-- `AuditLog.__init__` and `_rebuild_index`: a log opened on a file and on a database.
use protocol_c.Prelude.{
  ℕ, ◌+◌, Bool, true, false, ◌&&◌, none, some, List, [], ◌∷◌, Text, Bytes, length, ltb,
  if◌then◌else◌,
}
use protocol_c.Prelude.Int.{ℤ}
use protocol_c.Py.Result.{Result, ok, err, audit_error, unicode_error, ◌>>=◌}
use protocol_c.Py.Env.{Env}
use protocol_c.Audit.{AuditLog, Archive, Row, entry_from_dict, index_entry, megabytes}
use protocol_c.Audit.Lines.{raw_lines, strip}

-- The loop of `_rebuild_index` over the lines that are left, from an offset and a line number.
unfoldable pub rebuild : Env → ℕ → ℕ → List Bytes → List Row → Result (List Row)
unfolding entry_from_dict index_entry strip
rebuild e offset line_num [] rows = ok rows
rebuild e offset line_num (raw ∷ raws) rows = elim (e.decode raw) [
  | none ↦ err unicode_error
  | some t ↦ elim (strip t) [
    | [] ↦ rebuild e (offset + length raw) line_num raws rows
    | c ∷ cs ↦ elim (e.loads (c ∷ cs)) [
      | none ↦ err audit_error
      | some v ↦ (do
        x ← entry_from_dict v
        rows' ← index_entry e x offset line_num rows
        rebuild e (offset + length raw) (line_num + 1) raws rows')
    ]
  ]
]

-- `_count_lines`
unfoldable pub count_lines : Bytes → ℕ
unfolding raw_lines
count_lines file = length (raw_lines file)

-- `_index_is_empty`
abbrev is_empty : List Row → Bool
is_empty [] = true
is_empty (r ∷ rows) = false

-- `__init__`: an empty index of a file with lines is built anew.
unfoldable pub open_log : Env → Text → Bytes → List Row → ℤ → List Archive → Result AuditLog
unfolding rebuild count_lines
open_log e stem file index max_file_size_mb archives =
    let line_count = count_lines file in
    do
      rows ←
          if ltb 0 line_count && is_empty index then rebuild e 0 0 (raw_lines file) [] else ok index
      ok (record {
        stem = stem;
        file = file;
        index = rows;
        line_count = line_count;
        max_file_size = megabytes max_file_size_mb;
        archives = archives;
      })
