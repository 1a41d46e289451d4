-- ===== src/Timestamp/Signed.antt =====
-- What a signature of CMS that verifies says.
use mathlib.Core.List.{Mem, mem-cons_of_mem, mem-cons_self}
use protocol_c.Prelude.{
  ◌≡◌, sym, ap, Bool, true, false, not, Option, none, some, List, [], ◌∷◌, Text, Bytes, text_eq,
  text_eq_iff, if-eq, Option-cases, Bool-cases, ◌∙◌, inl, inr, if◌then◌else◌,
}
use protocol_c.Py.Result.{Result, ok, err, ◌>>=◌, >>=-eq-ok, or_else}
use protocol_c.Timestamp.{Library, PublicKey, Certificate, Attribute, SignedAttrs, SignerInfo, Cms}
use protocol_c.Timestamp.Signatures.{
  hash_of_oid, signer_certificate, message_digest, signed_bytes, verify_with, verify_single_signer,
  load_certificates, any_signer, cms_checked, verify_cms_signature, only_value, raising,
}
use protocol_c.Timestamp.Certificates.{Names, some-inj, signer_certificate-found, only_value-eq}

-- The bytes under the signature are the content, or attributes one of which is its digest.
abbrev pub Covers : Library → Option SignedAttrs → Text → Bytes → Bytes → Type 0
Covers lib none hash econtent message = message ≡ econtent
Covers lib (some attrs) hash econtent message =
    (message ≡ attrs.set_der)
    × (a : Attribute) × (value : Bytes) × Mem a attrs.attributes
    × (a.attr_type ≡ lib.id_message_digest)
    × (a.attr_values ≡ value ∷ [])
    × (lib.attribute_bytes value ≡ some (lib.digest hash econtent))

-- One signer signed the content with the key of a certificate in the token.
pub record IsSignedBy (lib : Library) (cms : Cms) (certs : List Certificate) (s : SignerInfo)
    : Type 0 where
  pub cert : Certificate
  pub embedded : Mem cert certs
  pub named : Names s.sid cert
  pub hash : Text
  pub known_hash : hash_of_oid s.digest_oid ≡ some hash
  pub message : Bytes
  pub covers : Covers lib s.signed_attrs hash cms.econtent message
  pub key : PublicKey
  pub key_is : cert.key ≡ some key
  pub verified : verify_with lib key hash s.signature message ≡ ok true

module _ (lib : Library) where
  raising-ok {ℓ} : {A : Type ℓ} (o : Option A) (a : A) → raising o ≡ ok a → o ≡ some a
  raising-ok none a h = cc
  raising-ok (some b) a h = ap some (cc h)

  only_value-read :
      (vs : List Bytes) (d : Bytes)
      → (elim (only_value vs) [
        | none ↦ ok none
        | some v ↦ raising (lib.attribute_bytes v) >>= λ b. ok (some b)
      ])
        ≡ ok (some d)
      → (v : Bytes) × (only_value vs ≡ some v) × (lib.attribute_bytes v ≡ some d)
  only_value-read vs d h = elim (Option-cases (only_value vs)) [
    | inl nothing ↦ cc (rw nothing at h)
    | inr (v, one) ↦
        let (b, read, same) = >>=-eq-ok (raising (lib.attribute_bytes v)) _ (rw one at h) in
        (v, one, raising-ok (lib.attribute_bytes v) b read ∙ cc same)
  ]

  digest-same :
      (found : Option Bytes) (d set_der message : Bytes)
      → (elim found [ none ↦ none | some f ↦ if text_eq f d then some set_der else none ])
        ≡ some message
      → (found ≡ some d) × (message ≡ set_der)
  digest-same none d set_der message h = cc
  digest-same (some f) d set_der message h =
      elim (if-eq (text_eq f d) (some set_der) none (some message) h) [
        | inl (same, is_set) ↦ (ap some ((text_eq_iff f d).0 same), sym (some-inj is_set))
        | inr (_, other) ↦ cc other
      ]

  -- A digest that is found is the only value of an attribute of the message digest.
  message_digest-found :
      (attrs : List Attribute) (d : Bytes)
      → message_digest lib attrs ≡ ok (some d)
      → (a : Attribute) × (value : Bytes) × Mem a attrs
        × (a.attr_type ≡ lib.id_message_digest)
        × (a.attr_values ≡ value ∷ [])
        × (lib.attribute_bytes value ≡ some d)
  unfolding message_digest
  message_digest-found [] d h = cc
  message_digest-found (a ∷ attrs) d h =
      elim (if-eq (text_eq a.attr_type lib.id_message_digest) _ _ _ h) [
        | inl (typed, here) ↦
            let (v, only, read) = only_value-read a.attr_values d here in
            (
              a,
              v,
              mem-cons_self,
              (text_eq_iff a.attr_type lib.id_message_digest).0 typed,
              only_value-eq a.attr_values v only,
              read,
            )
        | inr (_, later) ↦
            let (b, v, member, typed, only, read) = message_digest-found attrs d later in
            (b, v, mem-cons_of_mem a member, typed, only, read)
      ]

  signed_bytes-Covers :
      (signed : Option SignedAttrs) (hash : Text) (econtent message : Bytes)
      → signed_bytes lib signed hash econtent ≡ ok (some message)
      → Covers lib signed hash econtent message
  unfolding signed_bytes
  signed_bytes-Covers none hash econtent message h = cc
  signed_bytes-Covers (some attrs) hash econtent message h =
      let (found, searched, same) = >>=-eq-ok (message_digest lib attrs.attributes) _ h in
      let (is_digest, is_set) =
        digest-same found (lib.digest hash econtent) attrs.set_der message (cc same) in
      let (a, v, member, typed, only, read) =
        message_digest-found attrs.attributes (lib.digest hash econtent)
          (searched ∙ ap ok is_digest) in
      (is_set, a, v, member, typed, only, read)

  verify_single_signer-IsSignedBy :
      (cms : Cms) (certs : List Certificate) (s : SignerInfo)
      → verify_single_signer lib s cms.econtent certs ≡ ok true
      → IsSignedBy lib cms certs s
  unfolding verify_single_signer
  verify_single_signer-IsSignedBy cms certs s h =
      elim (Option-cases (signer_certificate s.sid certs)) [
        | inl nobody ↦ cc (rw (verify_single_signer, nobody) at h)
        | inr (cert, chosen) ↦ elim (Option-cases (hash_of_oid s.digest_oid)) [
          | inl unknown ↦ cc (rw (verify_single_signer, chosen, unknown) at h)
          | inr (hash, known) ↦
              let (found, covered, rest) =
                >>=-eq-ok (signed_bytes lib s.signed_attrs hash cms.econtent) _
                  (rw (verify_single_signer, chosen, known) at h) in
              elim (Option-cases found) [
                | inl nothing ↦ cc (rw nothing at rest)
                | inr (message, is_message) ↦
                    let (key, loaded, verified) =
                      >>=-eq-ok (raising cert.key) _ (rw is_message at rest) in
                    let (member, named) = signer_certificate-found s.sid certs cert chosen in
                    record {
                      cert = cert;
                      embedded = member;
                      named = named;
                      hash = hash;
                      known_hash = known;
                      message = message;
                      covers =
                          signed_bytes-Covers s.signed_attrs hash cms.econtent message
                            (covered ∙ ap ok is_message);
                      key = key;
                      key_is = raising-ok cert.key key loaded;
                      verified = verified;
                    }
              ]
        ]
      ]

  any_signer-IsSignedBy :
      (cms : Cms) (certs : List Certificate) (signers : List SignerInfo)
      → any_signer lib signers cms.econtent certs ≡ ok true
      → (s : SignerInfo) × Mem s signers × IsSignedBy lib cms certs s
  unfolding any_signer
  any_signer-IsSignedBy cms certs [] h = cc
  any_signer-IsSignedBy cms certs (s ∷ signers) h =
      let (b, tried, rest) = >>=-eq-ok (verify_single_signer lib s cms.econtent certs) _ h in
      elim (Bool-cases b) [
        | inl hit ↦
            (s, mem-cons_self, verify_single_signer-IsSignedBy cms certs s (tried ∙ ap ok hit))
        | inr miss ↦
            let (t, member, signed) = any_signer-IsSignedBy cms certs signers (rw miss at rest) in
            (t, mem-cons_of_mem s member, signed)
      ]

  -- What a signature that verifies says of the DER of `SignedData`.
  pub record IsCmsSigned (signed_data : Bytes) : Type 0 where
    pub cms : Cms
    pub decoded : lib.decode_cms signed_data ≡ some cms
    pub certs : List Certificate
    pub loaded : load_certificates lib cms.certificates ≡ ok certs
    pub signer : SignerInfo
    pub present : Mem signer cms.signer_infos
    pub signed_by : IsSignedBy lib cms certs signer

  or_else-true : (m : Result Bool) → or_else m false ≡ true → m ≡ ok true
  or_else-true (ok b) h = ap ok h
  or_else-true (err x) h = cc

  -- Where `_verify_cms_signature` returns True, a signer in the token signed its content, or
  -- attributes with the digest of its content, with the key of a certificate in the token; if the
  -- signer names its issuer and serial number, they are the certificate's.
  pub verify_cms_signature-IsCmsSigned :
      (signed_data : Bytes) → verify_cms_signature lib signed_data ≡ true → IsCmsSigned signed_data
  unfolding verify_cms_signature
  verify_cms_signature-IsCmsSigned signed_data h =
      elim (if-eq (not lib.cms_verify_available) false (or_else (cms_checked lib signed_data) false)
        true h) [
          | inl (_, unavailable) ↦ cc unavailable
          | inr (_, checked) ↦
              let all = or_else-true (cms_checked lib signed_data) checked in
              let (cms, decoded, h1) = >>=-eq-ok (raising (lib.decode_cms signed_data)) _ all in
              let (certs, loaded, h2) = >>=-eq-ok (load_certificates lib cms.certificates) _ h1 in
              let (s, member, signed) = any_signer-IsSignedBy cms certs cms.signer_infos h2 in
              record {
                cms = cms;
                decoded = raising-ok (lib.decode_cms signed_data) cms decoded;
                certs = certs;
                loaded = loaded;
                signer = s;
                present = member;
                signed_by = signed;
              }
        ]
