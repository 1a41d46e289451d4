-- ===== src/Timestamp/Signatures.antt =====
-- `_verify_cms_signature` and `_verify_single_signer`.
use protocol_c.Prelude.{
  Bool, true, false, not, ◌&&◌, Option, none, some, List, [], ◌∷◌, Text, Bytes, codes, text_eq,
  if◌then◌else◌,
}
use protocol_c.Prelude.Int.{ℤ, eqb_ℤ}
use protocol_c.Py.Result.{Result, ok, err, crypto_error, ◌>>=◌, or_else}
use protocol_c.Timestamp.{
  Library, PublicKey, rsa, elliptic, other_key, Certificate, Attribute, SignedAttrs, SignerInfo,
}

-- `_DIGEST_OID_TO_HASH_ALGO.get(oid)`
unfoldable pub hash_of_oid : Text → Option Text
unfolding text_eq
hash_of_oid oid =
    if text_eq oid (codes "1.3.14.3.2.26")
    then some (codes "sha1")
    else if text_eq oid (codes "2.16.840.1.101.3.4.2.1")
    then some (codes "sha256")
    else if text_eq oid (codes "2.16.840.1.101.3.4.2.2")
    then some (codes "sha384")
    else if text_eq oid (codes "2.16.840.1.101.3.4.2.3")
    then some (codes "sha512")
    else none

-- The certificate with an issuer and a serial number.
unfoldable pub find_certificate : ℤ → Bytes → List Certificate → Option Certificate
unfolding text_eq
find_certificate serial issuer [] = none
find_certificate serial issuer (c ∷ cs) =
    if eqb_ℤ c.serial_number serial && text_eq c.issuer issuer
    then some c
    else find_certificate serial issuer cs

-- The certificate of a signer: the first one where the signer is not named by its issuer.
unfoldable pub signer_certificate : Option (ℤ × Bytes) → List Certificate → Option Certificate
unfolding find_certificate
signer_certificate sid [] = none
signer_certificate none (c ∷ cs) = some c
signer_certificate (some (serial, issuer)) (c ∷ cs) = find_certificate serial issuer (c ∷ cs)

-- The only value of an attribute.
abbrev pub only_value : List Bytes → Option Bytes
only_value (v ∷ []) = some v
only_value vs = none

-- `bytes(…)` of what is decoded: any exception ends the verification.
abbrev pub raising {ℓ} : {A : Type ℓ} → Option A → Result A
raising none = err crypto_error
raising (some a) = ok a

module _ (lib : Library) where
  -- The loop over the attributes: none where the method returns False.
  unfoldable pub message_digest : List Attribute → Result (Option Bytes)
  unfolding text_eq
  message_digest [] = ok none
  message_digest (a ∷ attrs) =
      let rest = message_digest attrs in
      if text_eq a.attr_type lib.id_message_digest
      then elim (only_value a.attr_values) [
        | none ↦ ok none
        | some v ↦ raising (lib.attribute_bytes v) >>= λ b. ok (some b)
      ]
      else rest

  -- The bytes that the signature covers, none where the method returns False.
  unfoldable pub signed_bytes : Option SignedAttrs → Text → Bytes → Result (Option Bytes)
  unfolding message_digest text_eq
  signed_bytes none hash econtent = ok (some econtent)
  signed_bytes (some attrs) hash econtent = message_digest attrs.attributes >>= λ found.
      ok (elim found [
        | none ↦ none
        | some d ↦ if text_eq d (lib.digest hash econtent) then some attrs.set_der else none
      ])

  -- The call of the key's own `verify`.
  unfoldable pub verify_with : PublicKey → Text → Bytes → Bytes → Result Bool
  verify_with (rsa k) hash signature message = lib.verify_rsa k hash signature message
  verify_with (elliptic k) hash signature message = lib.verify_elliptic k hash signature message
  verify_with other_key hash signature message = ok false

  -- `_verify_single_signer`
  unfoldable pub verify_single_signer : SignerInfo → Bytes → List Certificate → Result Bool
  unfolding signer_certificate hash_of_oid signed_bytes verify_with
  verify_single_signer signer econtent certs = elim (signer_certificate signer.sid certs) [
    | none ↦ ok false
    | some cert ↦ elim (hash_of_oid signer.digest_oid) [
      | none ↦ ok false
      | some hash ↦ signed_bytes signer.signed_attrs hash econtent >>= λ found. elim found [
        | none ↦ ok false
        | some message ↦ raising cert.key >>= λ key. verify_with key hash signer.signature message
      ]
    ]
  ]

  -- The certificates, loaded in their order.
  unfoldable pub load_certificates : List Bytes → Result (List Certificate)
  load_certificates [] = ok []
  load_certificates (b ∷ bs) = do
    c ← raising (lib.load_certificate b)
    cs ← load_certificates bs
    ok (c ∷ cs)

  -- The loop over the signers.
  unfoldable pub any_signer : List SignerInfo → Bytes → List Certificate → Result Bool
  unfolding verify_single_signer
  any_signer [] econtent certs = ok false
  any_signer (s ∷ signers) econtent certs = verify_single_signer s econtent certs >>= λ b. elim b [
    | true ↦ ok true
    | false ↦ any_signer signers econtent certs
  ]

  -- The body of the handler in `_verify_cms_signature`.
  abbrev pub cms_checked : Bytes → Result Bool
  cms_checked signed_data = do
    cms ← raising (lib.decode_cms signed_data)
    certs ← load_certificates cms.certificates
    any_signer cms.signer_infos cms.econtent certs

  -- `_verify_cms_signature`
  unfoldable pub verify_cms_signature : Bytes → Bool
  unfolding any_signer load_certificates
  verify_cms_signature signed_data =
      if not lib.cms_verify_available then false else or_else (cms_checked signed_data) false
