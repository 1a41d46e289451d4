-- ===== src/Signer.antt =====
-- `class EphemeralSigner` of aether_protocol_c/ephemeral_signer.py. The clock, the texts of
-- `time.strftime` and the fuel of the nonce loop are arguments. A method that changes the object
-- returns the new object beside its result, an exception included.
pub mod Lifecycle
pub mod OnCurve
pub mod Compressed
pub mod RoundTrip
use protocol_c.Prelude.{
  ℕ, ◌+◌, ◌-◌, ◌*◌, ◌/◌, ◌%◌, ◌^◌, Bool, true, false, not, ◌&&◌, Option, none, some, [], ◌∷◌, ◌++◌,
  String, Bytes, Text, codes, take, drop, map, ltb, ◌==◌, if◌then◌else◌,
}
use protocol_c.Prelude.Int.{ℤ, pos, negsuc, eqb_ℤ, residue}
use protocol_c.Py.Result.{
  Result, ok, err, value_error, key_error, type_error, attribute_error, overflow_error,
  runtime_error, guard, or_else, ◌>>=◌, ◌>>◌,
}
use protocol_c.Py.Value.{
  item, Value, null, bool, int, float, str, arr, obj, Dict, end, field, dict_get,
}
use protocol_c.Py.Hex.{from_bytes, to_bytes_32, hex, format_064x, int16}
use protocol_c.Py.Env.{Env}
use protocol_c.Curve.{Curve, Point, MaybePoint, generator, point_mul}
use protocol_c.Curve.Power.{pow_mod}
use protocol_c.Ecdsa.{ecdsa_sign, ecdsa_verify}

pub record Signer : Type 0 where
  pub created_at : ℕ
  pub destroyed : Bool
  pub sign_count : ℕ
  pub privkey_buf : Bytes
  pub pubkey : MaybePoint

-- `_zero_bytearray`
unfoldable pub zero_bytearray : Bytes → Bytes
zero_bytearray [] = []
zero_bytearray (b ∷ bs) = 0 ∷ zero_bytearray bs

-- `m.to_bytes(32, "big")` as it raises.
abbrev pub to_bytes : ℤ → Result Bytes
to_bytes (pos n) = elim (to_bytes_32 n) [ none ↦ err overflow_error | some b ↦ ok b ]
to_bytes (negsuc n) = err overflow_error

-- `int(v, 16)`: TypeError unless `v` is a text.
abbrev pub int_16 : Value → Result ℤ
int_16 (str s) = elim (int16 s) [ none ↦ err value_error | some z ↦ ok z ]
int_16 null = err type_error
int_16 (bool b) = err type_error
int_16 (int z) = err type_error
int_16 (float b) = err type_error
int_16 (arr vs) = err type_error
int_16 (obj d) = err type_error

-- `hashlib.sha256(json.dumps(v, …).encode("utf-8")).digest()`
abbrev pub canonical_hash : Env → Value → Bytes
canonical_hash e v = e.sha256 (e.encode (e.dumps v))

-- `y_sq` and `y` of `verify_static`: the curve's right-hand side, and its modular square root.
abbrev pub right_hand_side : Curve → ℤ → ℕ
right_hand_side c x = (pow_mod (residue c.p x) 3 c.p + c.b) % c.p

abbrev pub modular_root : Curve → ℕ → ℕ
modular_root c v = pow_mod v ((c.p + 1) / 4) c.p

-- The public key of an envelope: the prefix gives the parity of `y`, and a root that does not
-- square back is refused.
unfoldable pub decompress : Curve → Text → Result Point
decompress c pubkey_hex = do
  prefix ← int_16 (str (take 2 pubkey_hex))
  x ← int_16 (str (drop 2 pubkey_hex))
  let y_sq = right_hand_side c x
  let root = modular_root c y_sq
  guard (root * root % c.p == y_sq) value_error
  ok (record { x = x; y = pos (if eqb_ℤ prefix (pos (root % 2 + 2)) then root else c.p - root) })

-- The public key of an envelope: TypeError unless it is a text.
unfoldable pub key_point : Curve → Value → Result Point
unfolding decompress
key_point c (str text) = decompress c text
key_point c null = err type_error
key_point c (bool b) = err type_error
key_point c (int z) = err type_error
key_point c (float b) = err type_error
key_point c (arr vs) = err type_error
key_point c (obj d) = err type_error

-- `public_key_hex`
unfoldable pub public_key_hex : Signer → Result Text
public_key_hex s = do
  guard (not s.destroyed) runtime_error
  q ← elim s.pubkey [ none ↦ err attribute_error | some q ↦ ok q ]
  x ← to_bytes q.x
  ok (hex ((if residue 2 q.y == 0 then 2 else 3) ∷ x))

-- `destroy`, with its receipt.
unfoldable pub destroy : Env → ℕ → Signer → Dict × Signer
unfolding zero_bytearray
destroy e now s = (
  field "destroyed" (bool true) (
      field "sign_count" (int (pos s.sign_count))
        (field "lifetime_seconds" (float (e.elapsed s.created_at now)) end)),
  record s { privkey_buf = zero_bytearray s.privkey_buf; destroyed = true },
)

-- The envelope of a signature.
abbrev pub envelope : ℕ → ℕ → Text → Text → ℕ → Dict
envelope r s pubkey signed_at count = field "r" (str (format_064x r)) (
    field "s" (str (format_064x s)) (
      field "pubkey" (str pubkey) (
        field "algorithm" (str (codes "ecdsa-secp256k1-sha256"))
          (field "signed_at" (str signed_at) (field "sign_count" (int (pos count)) end)))))

module _ (e : Env) (c : Curve) where
  -- The private key: the second HMAC serves a first one of remainder 0, and 1 serves both.
  unfoldable pub derive_privkey : Bytes → ℕ
  derive_privkey seed_bytes =
      let first =
        from_bytes (e.hmac_sha256 (codes "aether-ephemeral-secp256k1") seed_bytes) % c.n in
      let retry =
        from_bytes (e.hmac_sha256 (codes "aether-ephemeral-secp256k1-zero-key-retry") seed_bytes)
        % c.n in
      if first == 0 then (if retry == 0 then 1 else retry) else first

  -- `EphemeralSigner.__init__`
  unfoldable pub create : ℕ → ℕ → Result Signer
  unfolding derive_privkey
  create now quantum_seed = do
    seed_bytes ← to_bytes (pos quantum_seed)
    let privkey = derive_privkey seed_bytes
    buf ← to_bytes (pos privkey)
    pubkey ← point_mul c (from_bytes buf) (some (generator c))
    ok (record {
      created_at = now;
      destroyed = false;
      sign_count = 0;
      privkey_buf = buf;
      pubkey = pubkey;
    })

  -- `sign_manifest`; the count goes up before the public key is read.
  unfoldable pub sign_manifest : ℕ → Text → Dict → Signer → Result Dict × Signer
  unfolding public_key_hex
  sign_manifest fuel signed_at manifest s =
      let counted = record s { sign_count = s.sign_count + 1 } in
      if s.destroyed
      then (err runtime_error, s)
      else elim (ecdsa_sign e c fuel (from_bytes s.privkey_buf) (canonical_hash e (obj manifest))) [
        | err x ↦ (err x, s)
        | ok sig ↦ (
          (do
            pubkey ← public_key_hex counted
            ok (envelope sig.0 sig.1 pubkey signed_at counted.sign_count)),
          counted,
        )
      ]

  -- The body of `verify_static`, before its handlers.
  unfoldable pub checked : Value → Value → Result Bool
  unfolding key_point item
  checked manifest (obj signature) = do
    r ← int_16 (← item signature "r")
    s ← int_16 (← item signature "s")
    key ← item signature "pubkey"
    pub_point ← key_point c key
    ecdsa_verify c (some pub_point) (canonical_hash e manifest) r s
  checked manifest null = err type_error
  checked manifest (bool b) = err type_error
  checked manifest (int z) = err type_error
  checked manifest (float b) = err type_error
  checked manifest (str s) = err type_error
  checked manifest (arr vs) = err type_error

  -- `verify_static`: every exception is caught, and the answer is then False.
  unfoldable pub verify_static : Value → Value → Bool
  unfolding checked
  verify_static manifest signature = or_else (checked manifest signature) false
