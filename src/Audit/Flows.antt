-- ===== src/Audit/Flows.antt =====
-- The trade flow that a log gives back: the latest entry of each phase.
use protocol_c.Prelude.{◌≡◌, refl, Option, none, some, List, ◌++◌, ◌∷◌, Text, All}
use mathlib.Core.Option.{map as Option-map}
use protocol_c.Py.Result.{ok}
use protocol_c.Py.Value.{as_dict, dict_get}
use protocol_c.Py.Sorted.{sort_keys, sort_dict}
use protocol_c.Py.Env.{Env}
use protocol_c.Flow.{Entry}
use protocol_c.Audit.{
  AuditEntry, AuditLog, entry_to_json, phase_commitment, phase_execution, phase_settlement,
  entry_from_dict,
}
use protocol_c.Audit.Read.{get_by_id, phase_of, get_trade_flow}
use protocol_c.Audit.History.{reread, IsReadable, latest, Holds}
use protocol_c.Audit.Lookup.{get_by_id-latest}

-- The part of an entry that a flow has, as it is read back.
abbrev pub flow_entry : AuditEntry → Entry
flow_entry x = record {
  payload = sort_dict x.payload;
  sig = sort_dict x.signature;
  proof = sort_dict x.quantum_proof;
}

-- The entry that a record gives back.
abbrev pub sorted_entry : AuditEntry → AuditEntry
sorted_entry x = record {
  timestamp = sort_keys x.timestamp;
  phase = sort_keys x.phase;
  order_id = sort_keys x.order_id;
  payload = sort_dict x.payload;
  signature = sort_dict x.signature;
  quantum_proof = sort_dict x.quantum_proof;
}

pub entry_from_dict-reread : (x : AuditEntry) → entry_from_dict (reread x) ≡ ok (sorted_entry x)
unfolding entry_from_dict as_dict sort_keys dict_get entry_to_json
entry_from_dict-reread x = refl

module _ (e : Env) where
  -- The latest entry of a phase of an order.
  abbrev pub latest_entry : Text → Text → List AuditEntry → Option Entry
  latest_entry order_id phase h = Option-map flow_entry (latest e (order_id ++ (b'_' ∷ phase)) h)

  phase_of-found :
      (order_id phase : Text) (log : AuditLog) (found : Option AuditEntry)
      → get_by_id e (order_id ++ (b'_' ∷ phase)) log ≡ Option-map reread found
      → phase_of e order_id phase log ≡ ok (Option-map flow_entry found)
  unfolding phase_of
  phase_of-found order_id phase log none h = rw (phase_of, h) refl
  phase_of-found order_id phase log (some x) h = rw (phase_of, h, entry_from_dict-reread x) refl

  -- A log that holds a history of readable entries gives, for each phase of an order, the latest
  -- entry of that phase as it is read back; `get_trade_flow` does not raise.
  pub get_trade_flow-latest :
      (h : List AuditEntry) (log : AuditLog) (order_id : Text)
      → All (IsReadable e) h
      → Holds e h log
      → get_trade_flow e order_id log
        ≡ ok (record {
          commitment = latest_entry order_id phase_commitment h;
          execution = latest_entry order_id phase_execution h;
          settlement = latest_entry order_id phase_settlement h;
        })
  unfolding get_trade_flow
  get_trade_flow-latest h log order_id readable holds =
      let found : (phase : Text)
          → phase_of e order_id phase log ≡ ok (latest_entry order_id phase h) =
        λ phase.
          phase_of-found order_id phase log (latest e (order_id ++ (b'_' ∷ phase)) h)
            (get_by_id-latest e h log (order_id ++ (b'_' ∷ phase)) readable holds) in
      rw (get_trade_flow, found phase_commitment, found phase_execution, found phase_settlement)
        refl
