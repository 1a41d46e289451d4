-- ===== src/Audit/Recorded.antt =====
-- What the three `append_…` methods record is what `get_trade_flow` gives back.
use mathlib.Core.Option.{map as Option-map}
use protocol_c.Prelude.{
  [], ℕ, ◌≡◌, refl, ap, ◌∙◌, Bool-cases, true, inl, inr, Option, some, List, ◌++◌, ◌∷◌, Text, All,
  text_eq, text_eq_refl,
}
use protocol_c.Py.Result.{ok}
use protocol_c.Py.Value.{str, null, Dict, get_or, obj, end}
use protocol_c.Py.Sorted.{sort_dict}
use protocol_c.Py.Env.{Env}
use protocol_c.Flow.{Entry}
use protocol_c.Audit.{
  AuditEntry, AuditLog, phase_commitment, phase_execution, phase_settlement, extract_quantum_proof,
  record_id_of,
}
use protocol_c.Audit.Append.{
  append_execution, append_settlement, RotationTime, append, append_commitment, phase_entry,
}
use protocol_c.Audit.Read.{get_trade_flow}
use protocol_c.Audit.Phased.{
  append_commitment-append, append_execution-append, append_settlement-append,
}
use protocol_c.Audit.History.{IsReadable, latest, Holds, history_after, stays, append-Holds}
use protocol_c.Audit.Flows.{flow_entry, latest_entry, get_trade_flow-latest}

-- The entry of a flow that a phase with this data and this signature gives.
abbrev pub recorded : Dict → Dict → Entry
recorded payload signature = record {
  payload = sort_dict payload;
  sig = sort_dict signature;
  proof = sort_dict (extract_quantum_proof payload);
}

module _ (e : Env) where
  pub latest-history_after :
      (t : RotationTime) (x : AuditEntry) (log : AuditLog) (h : List AuditEntry) (id : Text)
      → record_id_of e x ≡ id
      → latest e id (history_after e t x log h) ≡ some x
  latest-history_after t x log h id named =
      let mine : text_eq (record_id_of e x) id ≡ true = rw named (text_eq_refl id) in
      elim (Bool-cases (stays e x log)) [
        | inl same ↦ rw (same, mine) refl
        | inr new ↦ rw (new, mine) refl
      ]

  module _ (t : RotationTime) (now : ℕ) (order_id : Text) (payload signature : Dict)
      (h : List AuditEntry) (log log' : AuditLog) (holds : Holds e h log) where
    -- The history after an entry of a phase.
    abbrev pub history_with : Text → List AuditEntry
    history_with phase =
        history_after e t (phase_entry e now phase (str order_id) payload signature) log h

    recorded-latest :
        (phase : Text)
        → latest_entry e order_id phase (history_with phase) ≡ some (recorded payload signature)
    unfolding phase_entry
    recorded-latest phase = ap (Option-map flow_entry) (
        latest-history_after t (phase_entry e now phase (str order_id) payload signature) log h
          (order_id ++ (b'_' ∷ phase)) refl)

    append_phase-flow :
        (phase : Text)
        → append e t (phase_entry e now phase (str order_id) payload signature) log ≡ (ok tt, log')
        → All (IsReadable e) (history_with phase)
        → get_trade_flow e order_id log'
          ≡ ok (record {
            commitment = latest_entry e order_id phase_commitment (history_with phase);
            execution = latest_entry e order_id phase_execution (history_with phase);
            settlement = latest_entry e order_id phase_settlement (history_with phase);
          })
    append_phase-flow phase returned readable =
        get_trade_flow-latest e (history_with phase) log' order_id readable
          (append-Holds e t h _ log log' holds returned)

    -- After an `append_commitment` that returns, on a log that holds a history and where the history
    -- is readable, `get_trade_flow` gives the commitment and its signature, with the quantum proof
    -- extracted from it, beside the latest execution and settlement of the order.
    pub append_commitment-get_trade_flow :
        get_or payload "order_id" null ≡ str order_id
        → append_commitment e t now payload signature log ≡ (ok tt, log')
        → All (IsReadable e) (history_with phase_commitment)
        → get_trade_flow e order_id log'
          ≡ ok (record {
            commitment = some (recorded payload signature);
            execution = latest_entry e order_id phase_execution (history_with phase_commitment);
            settlement = latest_entry e order_id phase_settlement (history_with phase_commitment);
          })
    append_commitment-get_trade_flow named returned readable =
        append_phase-flow phase_commitment
          (append_commitment-append e t now order_id payload signature log log' named returned)
          readable
        ∙ ap
            (λ (x : Option Entry). ok (record {
              commitment = x;
              execution = latest_entry e order_id phase_execution (history_with phase_commitment);
              settlement = latest_entry e order_id phase_settlement (history_with phase_commitment);
            }))
            (recorded-latest phase_commitment)

    -- After an `append_execution` that returns, on a log that holds a history and where the history
    -- is readable, `get_trade_flow` gives the execution and its signature under the order id of its
    -- result, with the quantum proof extracted from it, beside the latest commitment and settlement.
    pub append_execution-get_trade_flow :
        (executed : Dict)
        → get_or payload "execution_result" (obj end) ≡ obj executed
        → get_or executed "order_id" (str []) ≡ str order_id
        → append_execution e t now payload signature log ≡ (ok tt, log')
        → All (IsReadable e) (history_with phase_execution)
        → get_trade_flow e order_id log'
          ≡ ok (record {
            commitment = latest_entry e order_id phase_commitment (history_with phase_execution);
            execution = some (recorded payload signature);
            settlement = latest_entry e order_id phase_settlement (history_with phase_execution);
          })
    append_execution-get_trade_flow executed result named returned readable =
        append_phase-flow phase_execution
          (append_execution-append e t now order_id payload signature log log' executed result named
            returned)
          readable
        ∙ ap
            (λ (x : Option Entry). ok (record {
              commitment = latest_entry e order_id phase_commitment (history_with phase_execution);
              execution = x;
              settlement = latest_entry e order_id phase_settlement (history_with phase_execution);
            }))
            (recorded-latest phase_execution)

    -- After an `append_settlement` that returns, on a log that holds a history and where the history
    -- is readable, `get_trade_flow` gives the settlement and its signature, with the quantum proof
    -- extracted from it, beside the latest commitment and execution of the order.
    pub append_settlement-get_trade_flow :
        get_or payload "order_id" null ≡ str order_id
        → append_settlement e t now payload signature log ≡ (ok tt, log')
        → All (IsReadable e) (history_with phase_settlement)
        → get_trade_flow e order_id log'
          ≡ ok (record {
            commitment = latest_entry e order_id phase_commitment (history_with phase_settlement);
            execution = latest_entry e order_id phase_execution (history_with phase_settlement);
            settlement = some (recorded payload signature);
          })
    append_settlement-get_trade_flow named returned readable =
        append_phase-flow phase_settlement
          (append_settlement-append e t now order_id payload signature log log' named returned)
          readable
        ∙ ap
            (λ (x : Option Entry). ok (record {
              commitment = latest_entry e order_id phase_commitment (history_with phase_settlement);
              execution = latest_entry e order_id phase_execution (history_with phase_settlement);
              settlement = x;
            }))
            (recorded-latest phase_settlement)
