-- ===== src/Tests/Trade.antt =====
-- A trade of three phases on the small curve.
use protocol_c.Prelude.{none, [], Text, codes}
use protocol_c.Prelude.Int.{pos}
use protocol_c.Py.Result.{or_else}
use protocol_c.Py.Value.{Value, int, float, str, nil, Dict, end, field}
use protocol_c.State.{AccountSnapshot}
use protocol_c.Key.{number, derive, sign}
use protocol_c.Commitment.{QuantumDecisionCommitment, create_commitment}
use protocol_c.Py.Value.{get_or, obj, null}
use protocol_c.Prelude.{some, ◌∷◌}
use protocol_c.Key.{default_key_lifetime_seconds}
use protocol_c.Identity.{AccountKeyRegistry}
use protocol_c.Key.{QuantumEphemeralKey}
use protocol_c.Execution.{ExecutionResult, QuantumExecutionAttestation, create_attestation}
use protocol_c.Settlement.{QuantumSettlementRecord, create_settlement, build_broker_attestation}
use protocol_c.Flow.{Flow}
use protocol_c.Tests.Tiny.{tiny}
use protocol_c.Tests.Fixture.{env}
use protocol_c.Tests.Key.{clock, blank_key}

-- The text and the dict that a value is.
unfoldable pub text_of : Value → Text
text_of (str t) = t
text_of v = []

unfoldable pub dict_of : Value → Dict
dict_of (obj d) = d
dict_of v = end

abbrev pub order : Text
order = codes "o1"

abbrev pub csprng : Text
csprng = codes "CSPRNG"

abbrev pub account : AccountSnapshot
account = record {
  capital = int (pos 1000);
  equity = int (pos 1000);
  open_positions = nil;
  risk_used = int (pos 0);
  risk_limit = int (pos 1);
  nonce = pos 7;
  timestamp = pos 1000;
}

-- The float 1.0.
abbrev one : Value
one = float 0x3FF0000000000000

abbrev pub trade : Dict
trade =
    field "qty" one
      (field "price" one (field "symbol" (str (codes "X")) (field "side" (str (codes "BUY")) end)))

abbrev pub no_commitment : QuantumDecisionCommitment
no_commitment = record {
  order_id = [];
  trade_details = end;
  account_state_hash = [];
  quantum_seed_commitment = [];
  seed_measurement_method = [];
  key_temporal_window = end;
  nonce = pos 0;
  timestamp = pos 0;
  reasoning = none;
}

unfoldable pub committed : Dict × Dict × QuantumDecisionCommitment
committed =
    or_else
      (create_commitment env tiny 40 1000 clock order trade account (number (pos 12346)) csprng
        none)
      (end, end, no_commitment)

-- The execution of that commitment, and the settlement of both.
abbrev pub fill : ExecutionResult
fill = record {
  order_id = order;
  symbol = codes "X";
  side = codes "BUY";
  filled_qty = one;
  fill_price = one;
  execution_timestamp = pos 1001;
  broker_response = end;
}

unfoldable pub executed : Dict × Dict × QuantumExecutionAttestation
executed =
    or_else
      (create_attestation env tiny 40 clock committed.1
        (text_of (get_or committed.0 "quantum_seed_commitment" null)) fill
        (record account { nonce = pos 8 }) (number (pos 777)) csprng)
      (
        end,
        end,
        record {
          commitment_sig = end;
          commitment_quantum_seed_commitment = [];
          execution_result = end;
          execution_quantum_seed_commitment = [];
          new_account_state_hash = [];
          nonce_after = pos 0;
          key_temporal_window = end;
        },
      )

abbrev pub ack : Text
ack = codes "ACK"

-- The broker signs the attestation with a key of its own.
unfoldable pub broker_key : QuantumEphemeralKey
broker_key =
    or_else (derive env tiny clock (number (pos 4242)) csprng default_key_lifetime_seconds)
      blank_key

unfoldable pub broker_envelope : Dict
broker_envelope =
    or_else
      (sign env tiny 40 clock
        (build_broker_attestation (str order) committed.1 executed.1 (str ack)) broker_key).0
      end

unfoldable pub settled : Dict × Dict × QuantumSettlementRecord
settled =
    or_else
      (create_settlement env tiny 40 1002 clock order
        (record {
          sig = committed.1;
          seed_hash = text_of (get_or committed.0 "quantum_seed_commitment" null);
          window = dict_of (get_or committed.0 "key_temporal_window" null);
        })
        (record {
          sig = executed.1;
          seed_hash = text_of (get_or executed.0 "execution_quantum_seed_commitment" null);
          window = dict_of (get_or executed.0 "key_temporal_window" null);
        })
        ack broker_envelope (number (pos 999)) csprng)
      (
        end,
        end,
        record {
          order_id = [];
          commitment_sig = end;
          commitment_quantum_seed_commitment = [];
          commitment_temporal_window = end;
          execution_sig = end;
          execution_quantum_seed_commitment = [];
          execution_temporal_window = end;
          broker_settlement_sig = [];
          broker_signature = end;
          settlement_timestamp = pos 0;
          settlement_quantum_seed_commitment = [];
          settlement_temporal_window = end;
          flow_merkle_hash = [];
        },
      )

unfoldable pub key_of : Dict → Text
key_of sig = text_of (get_or sig "pubkey" null)

unfoldable pub flow : Flow
flow = record {
  commitment = some (record { payload = committed.0; sig = committed.1; proof = end });
  execution = some (record { payload = executed.0; sig = executed.1; proof = end });
  settlement = some (record { payload = settled.0; sig = settled.1; proof = end });
}

unfoldable pub registry : AccountKeyRegistry
registry = record {
  authorized =
      (order, key_of committed.1 ∷ key_of executed.1 ∷ key_of settled.1 ∷ [])
      ∷ (codes "broker:o1", key_of broker_envelope ∷ [])
      ∷ [];
}
