-- ===== src/State/Reread.antt =====
-- A snapshot that is written as a dict and read back.
use protocol_c.Prelude.{ℕ, ◌≡◌, refl}
use protocol_c.Py.Result.{ok}
use protocol_c.Py.Value.{float, has_key, item, dict_get}
use protocol_c.Py.Convert.{to_float, to_int}
use protocol_c.Py.Env.{Env}
use protocol_c.State.{AccountSnapshot, snapshot_to_json, snapshot_from_dict, to_items}

-- The money and risk fields are floats, as `from_dict` makes them.
pub record HasFloats (s : AccountSnapshot) : Type 0 where
  pub capital_bits : ℕ
  pub capital_is : s.capital ≡ float capital_bits
  pub equity_bits : ℕ
  pub equity_is : s.equity ≡ float equity_bits
  pub risk_used_bits : ℕ
  pub risk_used_is : s.risk_used ≡ float risk_used_bits
  pub risk_limit_bits : ℕ
  pub risk_limit_is : s.risk_limit ≡ float risk_limit_bits

-- A snapshot whose money and risk fields are floats is read back from its dict as it was.
pub snapshot_from_dict-to_json :
    (e : Env) (s : AccountSnapshot) → HasFloats s → snapshot_from_dict e (snapshot_to_json s) ≡ ok s
unfolding snapshot_from_dict snapshot_to_json dict_get has_key item to_float to_int to_items
snapshot_from_dict-to_json e s floats =
    rw (floats.capital_is, floats.equity_is, floats.risk_used_is, floats.risk_limit_is) refl
