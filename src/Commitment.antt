-- ===== src/Commitment.antt =====
-- aether_protocol_c/commitment.py: a signed trade decision, and the checks of one that was read
-- back.
pub mod Created
pub mod Stored
use protocol_c.Prelude.{
  ℕ, zero, suc, ◌+◌, ◌/◌, Bool, true, false, not, ◌&&◌, ◌||◌, Option, none, some, [], ◌∷◌, Text,
  codes, length, text_eq, leb, ◌==◌, if◌then◌else◌,
}
use protocol_c.Prelude.Int.{ℤ, pos}
use protocol_c.Py.Result.{
  Result, ok, err, crypto_error, commitment_error, guard, or_else, ◌>>=◌, ◌>>◌,
}
use protocol_c.Py.Value.{
  Value, null, bool, int, float, str, arr, obj, Dict, end, field, dict_get, get_or, has_key, py_len,
  as_dict,
}
use protocol_c.Py.Compare.{truthy, py_eq, py_lt, py_le}
use protocol_c.Py.Hex.{hex}
use protocol_c.Py.Env.{Env}
use protocol_c.Curve.{Curve}
use protocol_c.State.{AccountSnapshot, snapshot_to_hash}
use protocol_c.Key.{
  Seed, Readings, QuantumEphemeralKey, default_key_lifetime_seconds, temporal_window_dict, derive,
  sign_or_raise,
}

pub record ReasoningCapture : Type 0 where
  pub reasoning_text : Text
  pub reasoning_hash : Text
  pub reasoning_model : Text
  pub captured_at : ℤ
  pub token_count : ℤ

abbrev text_hash : Env → Text → Text
text_hash e t = hex (e.sha256 (e.encode t))

-- `from_text`, at a given time
unfoldable pub from_text : Env → ℕ → Text → Text → Option ℤ → ReasoningCapture
from_text e now text model token_count = record {
  reasoning_text = text;
  reasoning_hash = text_hash e text;
  reasoning_model = model;
  captured_at = pos now;
  token_count = elim token_count [
    | none ↦ let n = length text / 4 in pos (if leb 1 n then n else 1)
    | some n ↦ n
  ];
}

-- `ReasoningCapture.verify`
unfoldable pub verify_reasoning : Env → ReasoningCapture → Bool
verify_reasoning e r = text_eq (text_hash e r.reasoning_text) r.reasoning_hash

-- `ReasoningCapture.to_dict`
unfoldable pub reasoning_to_dict : ReasoningCapture → Dict
reasoning_to_dict r = field "reasoning_text" (str r.reasoning_text) (
    field "reasoning_hash" (str r.reasoning_hash) (
      field "reasoning_model" (str r.reasoning_model)
        (field "captured_at" (int r.captured_at) (field "token_count" (int r.token_count) end))))

pub record QuantumDecisionCommitment : Type 0 where
  pub order_id : Text
  pub trade_details : Dict
  pub account_state_hash : Text
  pub quantum_seed_commitment : Text
  pub seed_measurement_method : Text
  pub key_temporal_window : Dict
  pub nonce : ℤ
  pub timestamp : ℤ
  pub reasoning : Option ReasoningCapture

-- `to_signable_dict`
unfoldable pub commitment_signable : QuantumDecisionCommitment → Dict
commitment_signable d = field "order_id" (str d.order_id) (
    field "trade_details" (obj d.trade_details) (
      field "account_state_hash" (str d.account_state_hash) (
        field "quantum_seed_commitment" (str d.quantum_seed_commitment) (
          field "seed_measurement_method" (str d.seed_measurement_method) (
            field "key_temporal_window" (obj d.key_temporal_window) (
              field "nonce" (int d.nonce) (
                field "timestamp" (int d.timestamp) (elim d.reasoning [
                  | none ↦ end
                  | some r ↦ field "reasoning_hash" (str r.reasoning_hash) end
                ]))))))))

module _ (e : Env) (c : Curve) where
  -- `create_and_sign`; `now` is its own reading of the clock.
  unfoldable pub create_commitment :
      ℕ
      → ℕ
      → Readings
      → Text
      → Dict
      → AccountSnapshot
      → Seed
      → Text
      → Option ReasoningCapture
      → Result (Dict × Dict × QuantumDecisionCommitment)
  unfolding temporal_window_dict
  create_commitment fuel now t order_id trade_details account_state seed method reasoning = do
    key ← derive e c t seed method default_key_lifetime_seconds
    let commitment : QuantumDecisionCommitment = record {
      order_id = order_id;
      trade_details = trade_details;
      account_state_hash = snapshot_to_hash e account_state;
      quantum_seed_commitment = key.seed_commitment.seed_hash;
      seed_measurement_method = method;
      key_temporal_window = temporal_window_dict key.seed_commitment;
      nonce = account_state.nonce;
      timestamp = pos now;
      reasoning = reasoning;
    }
    signature ← sign_or_raise e c fuel t commitment_error (commitment_signable commitment) key
    ok (commitment_signable commitment, signature, commitment)

-- `isinstance(v, str) and len(v) == 64`
abbrev pub is_hash_text : Value → Bool
is_hash_text (str s) = length s == 64
is_hash_text v = false

-- `isinstance(v, int)`: a bool is an int.
abbrev pub is_int : Value → Bool
is_int (int z) = true
is_int (bool b) = true
is_int v = false

unfoldable pub verify_state_binding : Dict → Bool
verify_state_binding d =
    let state_hash = get_or d "account_state_hash" (str []) in
    truthy state_hash && is_hash_text state_hash && is_int (get_or d "nonce" null)

-- `not v or len(v) != 64`, negated; `len` may raise.
unfoldable pub is_seed_hash : Value → Result Bool
is_seed_hash v = if not (truthy v) then ok false else (do n ← py_len v; ok (n == 64))

-- A window with both of its times.
abbrev pub has_times : Value → Bool
has_times (obj w) = has_key w "created_at" && has_key w "expires_at"
has_times v = false

-- `window["expires_at"] <= window["created_at"]`, negated
abbrev pub expires_later : Value → Result Bool
expires_later window = do
  w ← as_dict window
  late ← py_le (get_or w "expires_at" null) (get_or w "created_at" null)
  ok (not late)

-- `QuantumCommitmentVerifier.verify_quantum_binding`
unfoldable pub commitment_quantum_binding : Dict → Result Bool
unfolding is_seed_hash
commitment_quantum_binding d = do
  hashed ← is_seed_hash (get_or d "quantum_seed_commitment" (str []))
  let method = get_or d "seed_measurement_method" (str [])
  let named = py_eq method (str (codes "CSPRNG")) || py_eq method (str (codes "OS_URANDOM"))
  let window = get_or d "key_temporal_window" (obj end)
  if not hashed || not named || not (has_times window) then ok false else expires_later window

-- `QuantumCommitmentVerifier.verify_temporal_safety`
unfoldable pub commitment_temporal_safety : Dict → Result Bool
commitment_temporal_safety d = do
  window ← as_dict (get_or d "key_temporal_window" (obj end))
  let created_at = get_or window "created_at" (int (pos 0))
  let expires_at = get_or window "expires_at" (int (pos 0))
  let shor_attack = get_or window "shor_earliest_attack" (int (pos 0))
  if not (truthy created_at && truthy expires_at && truthy shor_attack)
      then ok false
      else py_lt expires_at shor_attack

unfoldable pub verify_nonce : Dict → ℤ → Bool
verify_nonce d expected_nonce = py_eq (get_or d "nonce" null) (int expected_nonce)
