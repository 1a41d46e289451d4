-- ===== src/Timestamp/Attested.antt =====
-- What a token that verifies says.
use protocol_c.Prelude.{
  ◌≡◌, sym, ap, ◌∙◌, true, not, ◌||◌, Option, none, some, Bytes, text_eq, text_eq_iff, if-eq,
  and-eq, Bool-cases, inl, inr, ◌⊎◌,
}
use protocol_c.Prelude.Int.{ℤ, pos, eqb_ℤ}
use protocol_c.Py.Result.{ok, >>=-eq-ok, guard-eq-ok, Result-cases}
use protocol_c.Py.Value.{str}
use protocol_c.Py.Compare.{py_eq}
use protocol_c.Py.Hex.{hex}
use protocol_c.Py.Env.{Env}
use protocol_c.Timestamp.{Library, TimeStampResp, TimestampToken}
use protocol_c.Timestamp.Signatures.{verify_cms_signature}
use protocol_c.Timestamp.Certificates.{eqb_ℤ-true}
use protocol_c.Timestamp.Signed.{IsCmsSigned, verify_cms_signature-IsCmsSigned}
use protocol_c.Timestamp.Stamp.{decode_tst_info, attested_hash, verify_token, parsed}

granted_status : (z : ℤ) → (eqb_ℤ z (pos 0) || eqb_ℤ z (pos 1)) ≡ true → (z ≡ pos 0) ⊎ (z ≡ pos 1)
granted_status z h = elim (Bool-cases (eqb_ℤ z (pos 0))) [
  | inl zero ↦ inl (eqb_ℤ-true z (pos 0) zero)
  | inr other ↦ inr (eqb_ℤ-true z (pos 1) (rw other at h))
]

module _ (lib : Library) where
  -- The way from an answer to its TSTInfo: the status is granted, and each part decodes.
  pub record IsDecoded (resp_bytes : Bytes) (tst_info : lib.Der) (signed_data : Bytes)
      : Type 0 where
    pub response : TimeStampResp
    pub decoded : lib.decode_response resp_bytes ≡ some response
    pub granted : (response.status ≡ pos 0) ⊎ (response.status ≡ pos 1)
    pub token_is : response.token ≡ some signed_data
    pub econtent : Bytes
    pub econtent_is : lib.decode_signed_data signed_data ≡ some (some econtent)
    pub tst_info_is : lib.decode econtent ≡ some tst_info

  -- What a token that verifies for the content says.
  pub record IsAttested (e : Env) (content : Bytes) (token : TimestampToken) : Type 0 where
    pub tst_info : lib.Der
    pub signed_data : Bytes
    pub is_decoded : IsDecoded token.token_bytes tst_info signed_data
    pub imprint : lib.Der
    pub imprint_is : lib.component tst_info 2 ≡ ok imprint
    pub hashed : lib.Der
    pub hashed_is : lib.component imprint 1 ≡ ok hashed
    pub hash_is : lib.der_bytes hashed ≡ ok (e.sha256 content)
    pub recorded : py_eq token.message_imprint (str (hex (e.sha256 content))) ≡ true
    pub is_signed : IsCmsSigned lib signed_data

  pub ok-inj {ℓ} : {A : Type ℓ} {a b : A} → ok a ≡ ok b → a ≡ b
  ok-inj h = cc

  parsed-ok {ℓ} : {A : Type ℓ} (o : Option A) (a : A) → parsed o ≡ ok a → o ≡ some a
  parsed-ok none a h = cc
  parsed-ok (some b) a h = ap some (cc h)

  module _ (e : Env) where
    decode_tst_info-IsDecoded :
        (resp_bytes : Bytes) (tst_info : lib.Der) (signed_data : Bytes)
        → decode_tst_info lib e resp_bytes ≡ ok (tst_info, signed_data)
        → IsDecoded resp_bytes tst_info signed_data
    unfolding decode_tst_info
    decode_tst_info-IsDecoded resp_bytes tst_info signed_data h =
        let (resp, decoded, h1) = >>=-eq-ok (parsed (lib.decode_response resp_bytes)) _ h in
        let (granted, h2) =
          guard-eq-ok (eqb_ℤ resp.status (pos 0) || eqb_ℤ resp.status (pos 1)) _ _ h1 in
        let (der, token_is, h3) = >>=-eq-ok (parsed resp.token) _ h2 in
        let (found, signed, h4) = >>=-eq-ok (parsed (lib.decode_signed_data der)) _ h3 in
        let (econtent, is_found, h5) = >>=-eq-ok (parsed found) _ h4 in
        let (tst, tst_is, h6) = >>=-eq-ok (parsed (lib.decode econtent)) _ h5 in
        let same_tst : tst ≡ tst_info = cc h6 in
        let same_der : der ≡ signed_data = cc h6 in
        record {
          response = resp;
          decoded = parsed-ok (lib.decode_response resp_bytes) resp decoded;
          granted = granted_status resp.status granted;
          token_is = parsed-ok resp.token der token_is ∙ ap some same_der;
          econtent = econtent;
          econtent_is =
              ap lib.decode_signed_data (sym same_der)
              ∙ parsed-ok (lib.decode_signed_data der) found signed
              ∙ ap some (parsed-ok found econtent is_found);
          tst_info_is = parsed-ok (lib.decode econtent) tst tst_is ∙ ap some same_tst;
        }

    -- Where `verify` returns True, the token's bytes decode to a granted answer whose TSTInfo holds
    -- the SHA-256 digest of the content, the token records that digest, and the CMS around the
    -- TSTInfo is signed.
    pub verify_token-IsAttested :
        (content : Bytes) (token : TimestampToken)
        → verify_token lib e content token ≡ ok true
        → IsAttested e content token
    unfolding verify_token attested_hash
    verify_token-IsAttested content token h =
        elim (if-eq (not lib.pyasn1_available || not lib.cms_verify_available) _ _ _ h) [
          | inl (_, raised) ↦ cc raised
          | inr (_, rest) ↦ elim (Result-cases (attested_hash lib e token.token_bytes)) [
            | inr (x, malformed) ↦ cc (rw malformed at rest)
            | inl ((hash, signed_data), found) ↦
                let checks = ok-inj (rw found at rest) in
                let (both, signed) = and-eq _ (verify_cms_signature lib signed_data) checks in
                let (same, recorded) = and-eq (text_eq hash (e.sha256 content)) _ both in
                let ((tst_info, der), decoded, h1) =
                  >>=-eq-ok (decode_tst_info lib e token.token_bytes) _ found in
                let (imprint, imprint_is, h2) = >>=-eq-ok (lib.component tst_info 2) _ h1 in
                let (hashed, hashed_is, h3) = >>=-eq-ok (lib.component imprint 1) _ h2 in
                let (bytes, bytes_are, h4) = >>=-eq-ok (lib.der_bytes hashed) _ h3 in
                let same_bytes : bytes ≡ hash = cc h4 in
                let same_der : der ≡ signed_data = cc h4 in
                record {
                  tst_info = tst_info;
                  signed_data = signed_data;
                  is_decoded =
                      decode_tst_info-IsDecoded token.token_bytes tst_info signed_data
                        (decoded ∙ ap (λ d. ok (tst_info, d)) same_der);
                  imprint = imprint;
                  imprint_is = imprint_is;
                  hashed = hashed;
                  hashed_is = hashed_is;
                  hash_is =
                      bytes_are ∙ ap ok (same_bytes ∙ (text_eq_iff hash (e.sha256 content)).0 same);
                  recorded = recorded;
                  is_signed = verify_cms_signature-IsCmsSigned lib signed_data signed;
                }
          ]
        ]
