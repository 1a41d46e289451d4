-- ===== src/Commitment/Stored.antt =====
-- `ReasoningCapture.from_dict` of aether_protocol_c/commitment.py.
use protocol_c.Prelude.{Option, none, some}
use protocol_c.Py.Result.{Result, ok, ◌>>=◌}
use protocol_c.Py.Value.{Value, int, str, Dict, item}
use protocol_c.Commitment.{ReasoningCapture}

-- The fields of a capture, none where one is not of the type of its field: Python would take any
-- value.
abbrev typed_reasoning : Value → Value → Value → Value → Value → Option ReasoningCapture
typed_reasoning (str text) (str hash) (str model) (int captured) (int tokens) = some (record {
  reasoning_text = text;
  reasoning_hash = hash;
  reasoning_model = model;
  captured_at = captured;
  token_count = tokens;
})
typed_reasoning t h m a n = none

unfoldable pub reasoning_from_dict : Dict → Result (Option ReasoningCapture)
unfolding item
reasoning_from_dict d = do
  text ← item d "reasoning_text"
  hash ← item d "reasoning_hash"
  model ← item d "reasoning_model"
  captured ← item d "captured_at"
  tokens ← item d "token_count"
  ok (typed_reasoning text hash model captured tokens)
