-- ===== src/Tests/Audit.antt =====
-- The theorems on the log, on files of one line.
use protocol_c.Prelude.{
  ◌≡◌, refl, none, some, Option, [], ◌∷◌, ◌++◌, Text, Bytes, codes, text_eq, if◌then◌else◌, drop,
}
use protocol_c.Prelude.Int.{pos}
use protocol_c.Py.Result.{ok, or_else}
use protocol_c.Py.Value.{Value, str, obj, Dict, end, field, int, get_or, null}
use protocol_c.Py.Sorted.{sort_keys}
use protocol_c.Py.Compare.{truthy, py_eq}
use protocol_c.Py.Convert.{to_float}
use protocol_c.Py.Env.{Env}
use protocol_c.Tests.Fixture.{env, show}
use protocol_c.Audit.{AuditEntry, AuditLog, entry_to_json, index_entry}
use protocol_c.Audit.Lines.{rstrip, strip}
use protocol_c.Audit.Append.{
  RotationTime, append, is_full, line_of, append_commitment, append_execution, append_settlement,
  phase_entry,
}
use protocol_c.Audit.Read.{parse_line, get_by_id, get_trade_flow}
use protocol_c.Audit.History.{IsReadable, Holds, reread, append-Holds}
use protocol_c.Audit.Lookup.{get_by_id-latest}
use protocol_c.Audit.Flows.{flow_entry, get_trade_flow-latest}
use protocol_c.Audit.Recorded.{
  recorded, append_commitment-get_trade_flow, append_execution-get_trade_flow,
  append_settlement-get_trade_flow,
}
use protocol_c.Audit.Rebuilt.{open_log-rebuilt}
use protocol_c.Audit.Rebuild.{open_log}
use protocol_c.Audit.Rebuildable.{IsRebuildable}
use protocol_c.Disputes.{generate_proof}
use protocol_c.Disputes.Recorded.{IsProofOf, latest_flow, generate_proof-IsProofOf}

abbrev pub commitment : Dict
commitment = field "order_id" (str (codes "o")) (
    field "nonce" (int (pos 1)) (
      field "quantum_seed_commitment" (str (codes "h"))
        (field "settlement_quantum_seed_commitment" (str (codes "h")) end)))

abbrev pub signed : Dict
signed = field "sig" (str (codes "s")) end

abbrev entry : AuditEntry
entry = phase_entry env 5 (codes "DECISION_COMMITMENT") (str (codes "o")) commitment signed

abbrev pub execution : Dict
execution = field "execution_result" (obj (field "order_id" (str (codes "o")) end)) end

abbrev execution_entry : AuditEntry
execution_entry =
    phase_entry env 6 (codes "EXECUTION_ATTESTATION") (str (codes "o")) execution signed

abbrev settlement : AuditEntry
settlement = phase_entry env 6 (codes "SETTLEMENT_FINALITY") (str (codes "o")) commitment signed

abbrev written : AuditEntry → Text
written x = show (sort_keys (obj (entry_to_json x)))

-- A reader of the three lines.
abbrev reader : Text → Option Value
reader t =
    if text_eq (rstrip t) (written entry)
    then some (reread entry)
    else if text_eq (rstrip t) (written settlement)
    then some (reread settlement)
    else if text_eq (rstrip t) (written execution_entry)
    then some (reread execution_entry)
    else none

abbrev files : Env
files = record env { dumps = λ v. show (sort_keys v); loads = reader }

abbrev pub empty_log : AuditLog
empty_log = record {
  stem = codes "log";
  file = [];
  index = [];
  line_count = 0;
  max_file_size = pos 1000;
  archives = [];
}

abbrev pub now : RotationTime
now = record { suffix = codes "0"; at = 7 }

abbrev one : AuditLog
one = (append files now entry empty_log).1

empty-Holds : Holds files [] empty_log
empty-Holds = record { file_is = refl; index_is = refl; count_is = refl }

entry_appended : append files now entry empty_log ≡ (ok tt, one)
unfolding append py_eq phase_entry index_entry to_float get_or
entry_appended = refl

append-Holds_example : Holds files (entry ∷ []) one
unfolding append phase_entry py_eq
append-Holds_example = append-Holds files now [] entry empty_log one empty-Holds entry_appended

abbrev body_of : AuditEntry → Bytes
body_of x = written x

entry-IsReadable : IsReadable files entry
unfolding show line_of sort_keys phase_entry truthy get_or parse_line text_eq rstrip
entry-IsReadable = record { body = body_of entry; written = refl; one_line = refl; parsed = refl }

get_by_id-latest_example : get_by_id files (codes "o_DECISION_COMMITMENT") one ≡ some (reread entry)
unfolding text_eq phase_entry
get_by_id-latest_example =
    get_by_id-latest files (entry ∷ []) one (codes "o_DECISION_COMMITMENT") (entry-IsReadable, tt)
      append-Holds_example

get_trade_flow-latest_example :
    get_trade_flow files (codes "o") one
    ≡ ok (record { commitment = some (flow_entry entry); execution = none; settlement = none })
unfolding text_eq phase_entry
get_trade_flow-latest_example =
    get_trade_flow-latest files (entry ∷ []) one (codes "o") (entry-IsReadable, tt)
      append-Holds_example

pub named : get_or commitment "order_id" null ≡ str (codes "o")
unfolding get_or
named = refl

committed_log : append_commitment files now 5 commitment signed empty_log ≡ (ok tt, one)
unfolding append_commitment truthy get_or append py_eq phase_entry index_entry to_float
committed_log = refl

append_commitment-get_trade_flow_example :
    get_trade_flow files (codes "o") one
    ≡ ok (record {
      commitment = some (recorded commitment signed);
      execution = none;
      settlement = none;
    })
unfolding py_eq phase_entry is_full
append_commitment-get_trade_flow_example =
    append_commitment-get_trade_flow files now 5 (codes "o") commitment signed [] empty_log one
      empty-Holds named committed_log (entry-IsReadable, tt)

abbrev executed_log : AuditLog
executed_log = (append files now execution_entry empty_log).1

execution_entry-IsReadable : IsReadable files execution_entry
unfolding show line_of sort_keys phase_entry truthy get_or parse_line text_eq rstrip
execution_entry-IsReadable = record {
  body = written execution_entry;
  written = refl;
  one_line = refl;
  parsed = refl;
}

execution_logged : append_execution files now 6 execution signed empty_log ≡ (ok tt, executed_log)
unfolding append_execution protocol_c.Py.Value.as_dict get_or truthy append py_eq phase_entry
    index_entry to_float
execution_logged = refl

pub execution_result :
    get_or execution "execution_result" (obj end) ≡ obj (field "order_id" (str (codes "o")) end)
unfolding get_or
execution_result = refl

pub result_named :
    get_or (field "order_id" (str (codes "o")) end) "order_id" (str []) ≡ str (codes "o")
unfolding get_or
result_named = refl

append_execution-get_trade_flow_example :
    get_trade_flow files (codes "o") executed_log
    ≡ ok (record {
      commitment = none;
      execution = some (recorded execution signed);
      settlement = none;
    })
unfolding py_eq phase_entry is_full
append_execution-get_trade_flow_example =
    append_execution-get_trade_flow files now 6 (codes "o") execution signed [] empty_log
      executed_log empty-Holds (field "order_id" (str (codes "o")) end) execution_result
      result_named execution_logged (execution_entry-IsReadable, tt)

abbrev settled_log : AuditLog
settled_log = (append files now settlement empty_log).1

settlement-IsReadable : IsReadable files settlement
unfolding show line_of sort_keys phase_entry truthy get_or parse_line text_eq rstrip
settlement-IsReadable = record {
  body = written settlement;
  written = refl;
  one_line = refl;
  parsed = refl;
}

settlement_logged : append_settlement files now 6 commitment signed empty_log ≡ (ok tt, settled_log)
unfolding append_settlement truthy get_or append py_eq phase_entry index_entry to_float
settlement_logged = refl

append_settlement-get_trade_flow_example :
    get_trade_flow files (codes "o") settled_log
    ≡ ok (record {
      commitment = none;
      execution = none;
      settlement = some (recorded commitment signed);
    })
unfolding py_eq phase_entry is_full
append_settlement-get_trade_flow_example =
    append_settlement-get_trade_flow files now 6 (codes "o") commitment signed [] empty_log
      settled_log empty-Holds named settlement_logged (settlement-IsReadable, tt)

entry-IsRebuildable : IsRebuildable files entry
unfolding show line_of sort_keys phase_entry truthy get_or strip text_eq
entry-IsRebuildable = record {
  body = body_of entry;
  written = refl;
  one_line = refl;
  line = body_of entry ++ 10 ∷ [];
  decoded = refl;
  first = b'{';
  others = drop 1 (body_of entry);
  stripped = refl;
  loaded = refl;
  order_id_text = codes "o";
  order_id_is = refl;
  phase_text = codes "DECISION_COMMITMENT";
  phase_is = refl;
  same_dumps = refl;
}

open_log-rebuilt_example :
    open_log files one.stem one.file [] (pos 2) one.archives
    ≡ ok (record one { max_file_size = pos 2097152 })
open_log-rebuilt_example =
    open_log-rebuilt files (entry ∷ []) one (pos 2) (entry-IsRebuildable, tt) append-Holds_example

-- A log of a commitment and a settlement with the same seed.
abbrev two : AuditLog
two = (append files now settlement one).1

settlement_appended : append files now settlement one ≡ (ok tt, two)
unfolding append py_eq phase_entry index_entry to_float get_or show sort_keys truthy
settlement_appended = refl

two-Holds : Holds files (settlement ∷ entry ∷ []) two
unfolding append phase_entry py_eq is_full index_entry to_float get_or show sort_keys truthy
two-Holds =
    append-Holds files now (entry ∷ []) settlement one two append-Holds_example settlement_appended

abbrev proof : Dict
proof = or_else (generate_proof files 9 (codes "o") (codes "why") two) end

proved : generate_proof files 9 (codes "o") (codes "why") two ≡ ok proof
unfolding generate_proof append phase_entry index_entry to_float get_or show sort_keys rstrip truthy
    protocol_c.Py.Value.as_dict
proved = refl

generate_proof-IsProofOf_example :
    IsProofOf (latest_flow files (codes "o") (settlement ∷ entry ∷ [])) proof
generate_proof-IsProofOf_example =
    generate_proof-IsProofOf files (settlement ∷ entry ∷ []) two 9 (codes "o") (codes "why") proof
      (settlement-IsReadable, (entry-IsReadable, tt)) two-Holds proved
