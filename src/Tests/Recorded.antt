-- ===== src/Tests/Recorded.antt =====
-- A trade recorded in a log of three lines, and the verdict on it.
use protocol_c.Prelude.{◌≡◌, refl, ap, none, some, Option, [], Text, codes, text_eq, if◌then◌else◌}
use protocol_c.Py.Result.{◌>>=◌}
use protocol_c.Py.Value.{Value, str, obj, Dict, end, field, int, get_or, null}
use protocol_c.Py.Sorted.{sort_keys}
use protocol_c.Py.Sorted.Again.{sort_keys-again}
use protocol_c.Py.Env.{Env}
use protocol_c.Flow.{verify_trade_flow}
use protocol_c.Flow.RereadLinks.{IsCanonical}
use protocol_c.Audit.{AuditEntry, AuditLog, entry_to_json}
use protocol_c.Audit.Append.{append_commitment, append_execution, append_settlement}
use protocol_c.Audit.Lines.{rstrip}
use protocol_c.Audit.Read.{get_trade_flow}
use protocol_c.Audit.History.{IsReadable, Holds, reread}
use protocol_c.Audit.Verdict.{
  Recording, IsRecorded, recorded_flow, commitment_entry, execution_entry, settlement_entry,
  verify_trade_flow-recorded,
}
use protocol_c.Tests.Tiny.{tiny}
use protocol_c.Tests.Fixture.{show}
use protocol_c.Tests.Package.{plain}
use protocol_c.Tests.Audit.{
  now, empty_log, commitment, signed, execution, named, execution_result, result_named,
}
use protocol_c.Tests.Trade.{registry}

abbrev calls : Recording
calls = record {
  order_id = codes "o";
  commitment = commitment;
  commitment_sig = signed;
  committed_at = 5;
  commitment_rotation = now;
  execution = execution;
  execution_sig = signed;
  executed = field "order_id" (str (codes "o")) end;
  executed_at = 6;
  execution_rotation = now;
  settlement = commitment;
  settlement_sig = signed;
  settled_at = 7;
  settlement_rotation = now;
}

abbrev first : AuditEntry
first = commitment_entry plain calls [] empty_log

abbrev second : AuditEntry
second = execution_entry plain calls [] empty_log

abbrev third : AuditEntry
third = settlement_entry plain calls [] empty_log

abbrev written : AuditEntry → Text
written x = show (sort_keys (obj (entry_to_json x)))

-- A reader of the three lines.
abbrev reader : Text → Option Value
reader t =
    if text_eq (rstrip t) (written first)
    then some (reread first)
    else if text_eq (rstrip t) (written second)
    then some (reread second)
    else if text_eq (rstrip t) (written third)
    then some (reread third)
    else none

abbrev files : Env
files = record plain { loads = reader }

files-IsCanonical : IsCanonical files
files-IsCanonical = record { same_dumps = λ v. ap show (sort_keys-again v) }

abbrev committed : AuditLog
committed = (append_commitment files now 5 commitment signed empty_log).1

abbrev attested : AuditLog
attested = (append_execution files now 6 execution signed committed).1

abbrev settled : AuditLog
settled = (append_settlement files now 7 commitment signed attested).1

empty-Holds : Holds files [] empty_log
empty-Holds = record { file_is = refl; index_is = refl; count_is = refl }

calls-IsRecorded : IsRecorded files calls empty_log committed attested settled
unfolding append_commitment protocol_c.Py.Compare.truthy get_or protocol_c.Audit.Append.append
    protocol_c.Py.Compare.py_eq protocol_c.Audit.Append.phase_entry protocol_c.Audit.index_entry
    protocol_c.Py.Convert.to_float append_execution protocol_c.Py.Value.as_dict show sort_keys
    append_settlement
calls-IsRecorded = record {
  commitment_named = named;
  result_is = execution_result;
  result_named = result_named;
  settlement_named = named;
  commitment_returned = refl;
  execution_returned = refl;
  settlement_returned = refl;
  room_for_execution = refl;
  room_for_settlement = refl;
}

first-IsReadable : IsReadable files first
unfolding show sort_keys protocol_c.Audit.Append.line_of protocol_c.Audit.Append.phase_entry
    protocol_c.Py.Compare.truthy get_or protocol_c.Audit.Read.parse_line text_eq rstrip
first-IsReadable = record { body = written first; written = refl; one_line = refl; parsed = refl }

second-IsReadable : IsReadable files second
unfolding show sort_keys protocol_c.Audit.Append.line_of protocol_c.Audit.Append.phase_entry
    protocol_c.Py.Compare.truthy get_or protocol_c.Audit.Read.parse_line text_eq rstrip
second-IsReadable = record { body = written second; written = refl; one_line = refl; parsed = refl }

third-IsReadable : IsReadable files third
unfolding show sort_keys protocol_c.Audit.Append.line_of protocol_c.Audit.Append.phase_entry
    protocol_c.Py.Compare.truthy get_or protocol_c.Audit.Read.parse_line text_eq rstrip
third-IsReadable = record { body = written third; written = refl; one_line = refl; parsed = refl }

verify_trade_flow-recorded_example :
    (get_trade_flow files (codes "o") settled >>= λ flow.
    verify_trade_flow files tiny (codes "o") flow (some registry) none)
    ≡ verify_trade_flow files tiny (codes "o") (recorded_flow calls) (some registry) none
unfolding protocol_c.Py.Compare.py_eq protocol_c.Audit.Append.phase_entry
    protocol_c.Audit.Append.is_full
verify_trade_flow-recorded_example =
    verify_trade_flow-recorded files calls [] empty_log committed attested settled calls-IsRecorded
      empty-Holds tiny (some registry) none files-IsCanonical
      (third-IsReadable, (second-IsReadable, (first-IsReadable, tt)))
