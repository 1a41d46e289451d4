-- ===== src/Timestamp.antt =====
-- aether_protocol_c/timestamp_authority.py: the RFC 3161 client, with ASN.1, certificates, names of
-- hosts and HTTP as parameters.
pub mod Hosts
pub mod Signatures
pub mod Stamp
pub mod Certificates
pub mod Signed
pub mod Attested
pub mod Stamped
pub mod Fallback
pub mod Allowed
pub mod Token
use protocol_c.Prelude.{
  ℕ, ◌*◌, ◌+◌, Bool, true, false, ◌&&◌, ◌||◌, Option, none, some, List, [], ◌∷◌, Text, Bytes, codes,
  leb, ◌==◌, if◌then◌else◌,
}
use protocol_c.Prelude.Int.{ℤ}
use protocol_c.Py.Result.{Result, ok, err, value_error, type_error, ◌>>=◌}
use protocol_c.Py.Value.{Value, null, bool, int, float, str, arr, obj, Dict, end, field, item}
use protocol_c.Py.Hex.{digit_value}

-- What `urlparse` reads of a URL.
pub record Url : Type 0 where
  pub scheme : Text
  pub hostname : Option Text

-- The tests of an address of `ipaddress`.
pub record Ip : Type 0 where
  pub is_private : Bool
  pub is_loopback : Bool
  pub is_link_local : Bool
  pub is_reserved : Bool
  pub is_multicast : Bool
  pub is_unspecified : Bool

-- `TimeStampReq`, with its digest of SHA-256.
pub record TimeStampReq : Type 0 where
  pub version : ℕ
  pub hashed_message : Bytes
  pub nonce : ℕ
  pub cert_req : Bool

-- `TimeStampResp`: the status, and the content of the token.
pub record TimeStampResp : Type 0 where
  pub status : ℤ
  pub token : Option Bytes

-- An answer over HTTP: the header Content-Length, and the stream, none where reading it raises.
pub record Reply : Type 0 where
  pub content_length : Option Text
  pub stream : Option Bytes

-- The public key of a certificate, in its encoding.
pub data PublicKey : Type 0 where
  rsa elliptic : Bytes → PublicKey
  other_key : PublicKey

-- A certificate; the key is none where `public_key` raises.
pub record Certificate : Type 0 where
  pub serial_number : ℤ
  pub issuer : Bytes
  pub key : Option PublicKey

-- An attribute of CMS: its type and its values in DER.
pub record Attribute : Type 0 where
  pub attr_type : Text
  pub attr_values : List Bytes

-- The signed attributes, and their DER with the tag of a SET.
pub record SignedAttrs : Type 0 where
  pub attributes : List Attribute
  pub set_der : Bytes

-- `SignerInfo`: the identifier is the serial number and the issuer, none where it is of another kind.
pub record SignerInfo : Type 0 where
  pub sid : Option (ℤ × Bytes)
  pub digest_oid : Text
  pub signed_attrs : Option SignedAttrs
  pub signature : Bytes

-- `SignedData` of CMS: the certificates in DER, those of another kind left out.
pub record Cms : Type 0 where
  pub econtent : Bytes
  pub certificates : List Bytes
  pub signer_infos : List SignerInfo

-- What the client takes from `urllib`, `socket`, `ipaddress`, `pyasn1`, `pyasn1_modules`,
-- `cryptography` and `hashlib`. A Result is an error where the call raises, an Option none.
pub record Library : Type 1 where
  -- `urlparse(url)`, with its scheme and hostname
  pub urlparse : Text → Result Url
  -- the addresses of `getaddrinfo(host, None)`, none where it raises gaierror
  pub getaddrinfo : Text → Result (Option (List Text))
  -- `ip_address(addr)`, none where it raises ValueError
  pub ip_address : Text → Option Ip
  -- whether `pyasn1` is there, and whether `pyasn1_modules` and `cryptography` are
  pub pyasn1_available : Bool
  pub cms_verify_available : Bool
  -- a value decoded without a schema
  pub Der : Type 0
  -- `der_encoder.encode(req)`
  pub encode_request : TimeStampReq → Result Bytes
  -- `der_decoder.decode(b, asn1Spec=TimeStampResp())`
  pub decode_response : Bytes → Option TimeStampResp
  -- `der_decoder.decode(b, asn1Spec=SignedData())`: its eContent, none where it has no value
  pub decode_signed_data : Bytes → Option (Option Bytes)
  -- `der_decoder.decode(b)`
  pub decode : Bytes → Option Der
  -- `len(v)`, `v.getComponentByPosition(i)` and `bytes(v)`
  pub der_len : Der → Result ℕ
  pub component : Der → ℕ → Result Der
  pub der_bytes : Der → Result Bytes
  -- `int(v)` of an instance of `univ.Integer`
  pub as_integer : Der → Option ℤ
  -- `der_decoder.decode(b, asn1Spec=rfc5652.SignedData())`, with the parts read of it
  pub decode_cms : Bytes → Option Cms
  -- `x509.load_der_x509_certificate(b)`
  pub load_certificate : Bytes → Option Certificate
  -- `str(rfc5652.id_messageDigest)`
  pub id_message_digest : Text
  -- `bytes(der_decoder.decode(b)[0])`
  pub attribute_bytes : Bytes → Option Bytes
  -- `hashlib.new(name, b).digest()`
  pub digest : Text → Bytes → Bytes
  -- `key.verify(signature, message, …)` for RSA and for elliptic curves, by the name of the hash:
  -- false where it raises InvalidSignature
  pub verify_rsa : Bytes → Text → Bytes → Bytes → Result Bool
  pub verify_elliptic : Bytes → Text → Bytes → Bytes → Result Bool

pub record TimestampToken : Type 0 where
  pub tsa_url : Value
  pub token_bytes : Bytes
  pub token_hex : Text
  pub stamped_at : Value
  pub hash_algorithm : Value
  pub message_imprint : Value

-- `to_dict`
unfoldable pub token_to_dict : TimestampToken → Dict
token_to_dict t = field "tsa_url" t.tsa_url (
    field "token_hex" (str t.token_hex) (
      field "stamped_at" t.stamped_at
        (field "hash_algorithm" t.hash_algorithm (field "message_imprint" t.message_imprint end))))

-- The whitespace that `bytes.fromhex` skips between two bytes.
abbrev pub is_ascii_space : ℕ → Bool
is_ascii_space c = c == 32 || (leb 9 c && leb c 13)

-- A byte in front of the others.
abbrev pub hex_pair : ℕ → ℕ → Result Bytes → Result Bytes
hex_pair c d rest = elim (digit_value c) [
  | none ↦ err value_error
  | some x ↦ elim (digit_value d) [
    | none ↦ err value_error
    | some y ↦ rest >>= λ bs. ok ((x * 16 + y) ∷ bs)
  ]
]

-- `bytes.fromhex`
unfoldable pub from_hex : Text → Result Bytes
from_hex [] = ok []
from_hex (c ∷ []) = if is_ascii_space c then ok [] else err value_error
from_hex (c ∷ d ∷ cs) = elim (is_ascii_space c) [
  | true ↦ from_hex (d ∷ cs)
  | false ↦ hex_pair c d (from_hex cs)
]

-- The same of any value.
abbrev pub from_hex_value : Value → Result (Text × Bytes)
from_hex_value (str s) = from_hex s >>= λ bs. ok (s, bs)
from_hex_value v = err type_error

-- `from_dict`
unfoldable pub token_from_dict : Dict → Result TimestampToken
unfolding from_hex
token_from_dict d = do
  token_hex ← item d "token_hex"
  tsa_url ← item d "tsa_url"
  (text, bytes) ← from_hex_value token_hex
  stamped_at ← item d "stamped_at"
  hash_algorithm ← item d "hash_algorithm"
  message_imprint ← item d "message_imprint"
  ok (record {
    tsa_url = tsa_url;
    token_bytes = bytes;
    token_hex = text;
    stamped_at = stamped_at;
    hash_algorithm = hash_algorithm;
    message_imprint = message_imprint;
  })
