-- ===== src/Identity.antt =====
-- aether_protocol_c/identity.py: the registry of the keys that may sign for an account.
pub mod Laws
pub mod Trace
pub mod Format
use protocol_c.Prelude.{
  ℕ, zero, suc, ◌+◌, Bool, true, false, not, ◌&&◌, ◌||◌, List, [], ◌∷◌, ◌++◌, Text, codes, text_eq,
  leb, ◌==◌, if◌then◌else◌,
}
use protocol_c.Py.Result.{Result, ok, err, identity_error, guard, ◌>>=◌, ◌>>◌}

-- `str.lower` on the ASCII letters. A key holds hexadecimal digits, and no other character has one
-- of those for its lower case.
unfoldable pub lower_char : ℕ → ℕ
lower_char c = if leb b'A' c && leb c b'Z' then c + 32 else c

unfoldable pub lower : Text → Text
unfolding lower_char
lower [] = []
lower (c ∷ cs) = lower_char c ∷ lower cs

-- `[0-9a-f]`
unfoldable pub is_hex : ℕ → Bool
is_hex c = (leb b'0' c && leb c b'9') || (leb b'a' c && leb c b'f')

-- `[0-9a-f]{n}$` from here on: `$` also matches before a newline that ends the text.
unfoldable pub hex_then_end : ℕ → Text → Bool
unfolding is_hex
hex_then_end zero [] = true
hex_then_end zero (c ∷ []) = c == 10
hex_then_end zero (c ∷ d ∷ cs) = false
hex_then_end (suc n) [] = false
hex_then_end (suc n) (c ∷ cs) = is_hex c && hex_then_end n cs

-- `_PUBKEY_RE.match`: `^(02|03)[0-9a-f]{64}$`
unfoldable pub matches_pubkey : Text → Bool
matches_pubkey (a ∷ b ∷ cs) = a == b'0' && (b == b'2' || b == b'3') && hex_then_end 64 cs
matches_pubkey (a ∷ []) = false
matches_pubkey [] = false

-- `self._authorized`: the accounts with their sets of keys.
pub record AccountKeyRegistry : Type 0 where
  pub authorized : List (Text × List Text)

abbrev pub empty : AccountKeyRegistry
empty = record { authorized = [] }

-- `k in keys`
unfoldable pub contains : Text → List Text → Bool
unfolding text_eq
contains k [] = false
contains k (j ∷ js) = if text_eq j k then true else contains k js

-- `keys.add(k)`
unfoldable pub add : Text → List Text → List Text
unfolding contains
add k js = if contains k js then js else k ∷ js

-- `keys.discard(k)`
unfoldable pub discard : Text → List Text → List Text
unfolding text_eq
discard k [] = []
discard k (j ∷ js) = let rest = discard k js in if text_eq j k then rest else j ∷ rest

-- `d.get(account_id, set())`
unfoldable pub keys_of : Text → List (Text × List Text) → List Text
unfolding text_eq
keys_of a [] = []
keys_of a ((b, js) ∷ d) = if text_eq b a then js else keys_of a d

-- `d.setdefault(account_id, set()).add(k)`
unfoldable pub add_key : Text → Text → List (Text × List Text) → List (Text × List Text)
unfolding text_eq add
add_key a k [] = (a, k ∷ []) ∷ []
add_key a k ((b, js) ∷ d) = if text_eq b a then (b, add k js) ∷ d else (b, js) ∷ add_key a k d

-- `d.get(account_id, set()).discard(k)`
unfoldable pub discard_key : Text → Text → List (Text × List Text) → List (Text × List Text)
unfolding text_eq discard
discard_key a k [] = []
discard_key a k ((b, js) ∷ d) =
    if text_eq b a then (b, discard k js) ∷ d else (b, js) ∷ discard_key a k d

-- `bool(text)`
abbrev pub non_empty : Text → Bool
non_empty [] = false
non_empty (c ∷ cs) = true

unfoldable pub register : AccountKeyRegistry → Text → Text → Result AccountKeyRegistry
unfolding lower matches_pubkey add_key
register r account_id pubkey_hex = do
  guard (non_empty account_id) identity_error
  guard (matches_pubkey (lower pubkey_hex)) identity_error
  ok (record { authorized = add_key account_id (lower pubkey_hex) r.authorized })

unfoldable pub revoke : AccountKeyRegistry → Text → Text → AccountKeyRegistry
unfolding lower discard_key
revoke r account_id pubkey_hex = record {
  authorized = discard_key account_id (lower pubkey_hex) r.authorized;
}

unfoldable pub is_authorized : AccountKeyRegistry → Text → Text → Bool
unfolding lower contains keys_of
is_authorized r account_id pubkey_hex =
    if not (non_empty account_id) || not (non_empty pubkey_hex)
    then false
    else contains (lower pubkey_hex) (keys_of account_id r.authorized)

unfoldable pub is_registered : AccountKeyRegistry → Text → Bool
unfolding keys_of
is_registered r account_id = elim (keys_of account_id r.authorized) [ [] ↦ false | _ ↦ true ]

abbrev pub broker_scope : Text → Text
broker_scope scope = codes "broker:" ++ scope

unfoldable pub is_broker_authorized : AccountKeyRegistry → Text → Text → Bool
unfolding is_authorized
is_broker_authorized r scope pubkey_hex = is_authorized r (broker_scope scope) pubkey_hex

unfoldable pub get_authorized_pubkeys : AccountKeyRegistry → Text → List Text
unfolding keys_of
get_authorized_pubkeys r account_id = keys_of account_id r.authorized
