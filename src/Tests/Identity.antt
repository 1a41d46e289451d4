-- ===== src/Tests/Identity.antt =====
-- Instances of the theorems on the registry.
use protocol_c.Prelude.{◌≡◌, refl, ◌∷◌, [], ◌++◌, Text, text_eq, codes, replicate}
use protocol_c.Py.Result.{ok}
use protocol_c.Identity.{
  AccountKeyRegistry, empty, register, is_authorized, is_broker_authorized, lower, lower_char,
  matches_pubkey, hex_then_end, is_hex, add_key,
}
use protocol_c.Identity.Trace.{
  grant, withdraw, run, granted, is_authorized-run, is_broker_authorized-register,
}
use protocol_c.Identity.Format.{register-newline}

-- A key in upper case, and the same in lower case.
abbrev key : Text
key = codes "02" ++ replicate 64 b'A'

abbrev lower_key : Text
lower_key = codes "02" ++ replicate 64 b'a'

abbrev account : Text
account = codes "acct"

abbrev with_key : AccountKeyRegistry
with_key = record { authorized = (account, lower_key ∷ []) ∷ [] }

registers : register empty account key ≡ ok with_key
unfolding register lower lower_char matches_pubkey hex_then_end is_hex add_key
registers = refl

is_broker_authorized-register_example :
    is_broker_authorized with_key account key ≡ is_broker_authorized empty account key
unfolding text_eq
is_broker_authorized-register_example =
    is_broker_authorized-register empty with_key account key account key refl registers

is_authorized-run_example :
    is_authorized (run (withdraw account key ∷ grant account lower_key ∷ [])) account key
    ≡ granted (withdraw account key ∷ grant account lower_key ∷ []) account key
is_authorized-run_example =
    is_authorized-run (withdraw account key ∷ grant account lower_key ∷ []) account key

register-newline_example :
    register empty account (key ++ 10 ∷ [])
    ≡ ok (record { authorized = add_key account (lower key ++ 10 ∷ []) [] })
register-newline_example = register-newline empty with_key account key refl registers
