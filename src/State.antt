-- ===== src/State.antt =====
-- `class AccountSnapshot` and `class QuantumStateSnapshot` of aether_protocol_c/state.py. The money
-- and risk fields are what the caller passed, numbers of either type.
pub mod Reread
use protocol_c.Prelude.{Text, codes, Bool, true, false, not, ◌&&◌, [], ◌∷◌, if◌then◌else◌}
use protocol_c.Py.Result.{Result, ok, err, type_error, state_error, ◌>>=◌}
use protocol_c.Py.Convert.{to_float, to_int}
use protocol_c.Prelude.Int.{ℤ}
use protocol_c.Py.Value.{
  Value, int, float, str, arr, obj, Items, nil, cons, Dict, end, field, has_key, item,
}
use protocol_c.Py.Hex.{hex}
use protocol_c.Py.Env.{Env}

pub record AccountSnapshot : Type 0 where
  pub capital : Value
  pub equity : Value
  pub open_positions : Items
  pub risk_used : Value
  pub risk_limit : Value
  pub nonce : ℤ
  pub timestamp : ℤ

-- `to_json`
unfoldable pub snapshot_to_json : AccountSnapshot → Dict
snapshot_to_json s = field "capital" s.capital (
    field "equity" s.equity (
      field "open_positions" (arr s.open_positions) (
        field "risk_used" s.risk_used (
          field "risk_limit" s.risk_limit
            (field "nonce" (int s.nonce) (field "timestamp" (int s.timestamp) end))))))

-- `hashlib.sha256(json.dumps(v, …).encode("utf-8")).hexdigest()`
abbrev pub json_hash : Env → Value → Text
json_hash e v = hex (e.sha256 (e.encode (e.dumps v)))

-- `to_hash`
unfoldable pub snapshot_to_hash : Env → AccountSnapshot → Text
unfolding snapshot_to_json
snapshot_to_hash e s = json_hash e (obj (snapshot_to_json s))

abbrev pub keys_of_dict : Dict → Items
keys_of_dict end = nil
keys_of_dict (field k v d) = cons (str (codes k)) (keys_of_dict d)

abbrev pub characters : Text → Items
characters [] = nil
characters (c ∷ cs) = cons (str (c ∷ [])) (characters cs)

-- `tuple(v)`: of a list, of the keys of a dict and of the characters of a text.
unfoldable pub to_items : Value → Result Items
to_items (arr vs) = ok vs
to_items (obj d) = ok (keys_of_dict d)
to_items (str s) = ok (characters s)
to_items v = err type_error

-- `required - set(data.keys())` is empty
abbrev pub has_required : Dict → Bool
has_required d =
    has_key d "capital"
    && has_key d "equity"
    && has_key d "open_positions"
    && has_key d "risk_used"
    && has_key d "risk_limit"
    && has_key d "nonce"
    && has_key d "timestamp"

-- `from_dict`
unfoldable pub snapshot_from_dict : Env → Dict → Result AccountSnapshot
unfolding to_items to_float to_int has_key item
snapshot_from_dict e d = if not (has_required d) then err state_error else (do
  capital ← item d "capital" >>= to_float e
  equity ← item d "equity" >>= to_float e
  open_positions ← item d "open_positions" >>= to_items
  risk_used ← item d "risk_used" >>= to_float e
  risk_limit ← item d "risk_limit" >>= to_float e
  nonce ← item d "nonce" >>= to_int e
  timestamp ← item d "timestamp" >>= to_int e
  ok (record {
    capital = float capital;
    equity = float equity;
    open_positions = open_positions;
    risk_used = float risk_used;
    risk_limit = float risk_limit;
    nonce = nonce;
    timestamp = timestamp;
  }))

pub record QuantumStateSnapshot : Type 0 where
  pub account_snapshot : AccountSnapshot
  pub quantum_seed_commitment : Text
  pub seed_measurement_method : Text

-- `QuantumStateSnapshot.to_json`
unfoldable pub bound_to_json : QuantumStateSnapshot → Dict
unfolding snapshot_to_json
bound_to_json q = field "account_snapshot" (obj (snapshot_to_json q.account_snapshot)) (
    field "quantum_seed_commitment" (str q.quantum_seed_commitment)
      (field "seed_measurement_method" (str q.seed_measurement_method) end))

-- `QuantumStateSnapshot.to_hash`
unfoldable pub bound_to_hash : Env → QuantumStateSnapshot → Text
unfolding bound_to_json
bound_to_hash e q = json_hash e (obj (bound_to_json q))
