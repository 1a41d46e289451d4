-- ===== src/Timestamp/Stamped.antt =====
-- What a stamp says, and when there is one.
use protocol_c.Prelude.{
  ℕ, ◌+◌, ◌≤◌, ◌≡◌, refl, sym, ap, ◌∙◌, true, not, Option, none, some, Text, Bytes, length, take,
  ltb, if-eq, inl, inr, ◌⊎◌, arith, subst,
}
use protocol_c.Prelude.Int.{ℤ, pos}
use protocol_c.Py.Result.{Result, ok, err, timestamp_error, >>=-eq-ok, guard-eq-ok}
use protocol_c.Py.Value.{str}
use protocol_c.Py.Hex.{hex, from_bytes}
use protocol_c.Py.Env.{Env}
use protocol_c.Timestamp.{Library, Reply, TimestampToken}
use protocol_c.Timestamp.Hosts.{Client}
use protocol_c.Timestamp.Certificates.{eqb_ℤ-true}
use protocol_c.Timestamp.Attested.{IsAttested, verify_token-IsAttested, ok-inj}
use protocol_c.Timestamp.Stamp.{
  Attempt, build_timestamp_request, send_request, extract_tst_info_nonce, verify_token, try_url,
  stamp, candidate_token, nonce_matches, or_next, max_tsa_response_bytes, parsed, declares_too_much,
}

not-ltb : (a b : ℕ) → not (ltb a b) ≡ true → b ≤ a
not-ltb a b h = ground arith

-- A URL that raises TimestampError gives way to the next one.
or_next-eq :
    (m rest : Result TimestampToken) (token : TimestampToken) (lib : Library) (e : Env)
    → or_next lib e m rest ≡ ok token
    → (m ≡ ok token) ⊎ (rest ≡ ok token)
or_next-eq (ok t) rest token lib e h = inl h
or_next-eq (err timestamp_error) rest token lib e h = inr h
or_next-eq (err x) rest token lib e h = cc

module _ (lib : Library) (e : Env) where
  -- What `stamp` returns.
  pub record IsStamp (client : Client) (random content : Bytes) (token : TimestampToken)
      : Type 0 where
    pub from_client :
        (token.tsa_url ≡ str client.tsa_url) ⊎ (token.tsa_url ≡ str client.fallback_url)
    pub is_attested : IsAttested lib e content token
    pub is_small : length token.token_bytes ≤ max_tsa_response_bytes
    pub echoed :
        extract_tst_info_nonce lib e token.token_bytes ≡ ok (some (pos (from_bytes random)))
    pub hex_is : token.token_hex ≡ hex token.token_bytes
    pub imprint_is : token.message_imprint ≡ str (hex (e.sha256 content))

  nonce_matches-eq :
      (n : ℕ) (found : Option ℤ) → nonce_matches lib e n found ≡ true → found ≡ some (pos n)
  nonce_matches-eq n none h = cc
  nonce_matches-eq n (some z) h = ap some (eqb_ℤ-true z (pos n) h)

  send_request-small :
      (answer : Option Reply) (body : Bytes)
      → send_request lib e answer ≡ ok body
      → length body ≤ max_tsa_response_bytes
  unfolding send_request
  send_request-small answer body h =
      let (reply, _, h1) = >>=-eq-ok (parsed answer) _ h in
      let (_, h2) = guard-eq-ok (not (declares_too_much lib e reply.content_length)) _ _ h1 in
      let (stream, _, h3) = >>=-eq-ok (parsed reply.stream) _ h2 in
      let (small, h4) =
        guard-eq-ok
          (not (ltb max_tsa_response_bytes (length (take (max_tsa_response_bytes + 1) stream)))) _ _
          h3 in
      subst (λ (b : Bytes). length b ≤ max_tsa_response_bytes) (ok-inj lib h4)
        (not-ltb max_tsa_response_bytes (length (take (max_tsa_response_bytes + 1) stream)) small)

  -- One URL, whichever it is.
  try_url-candidate_token :
      (content request : Bytes) (nonce : ℕ) (url : Text) (attempt : Attempt)
      (token : TimestampToken)
      → try_url lib e content request nonce url attempt ≡ ok token
      → (body : Bytes) × (token ≡ candidate_token lib e content url attempt.at body)
        × (length body ≤ max_tsa_response_bytes)
        × (extract_tst_info_nonce lib e body ≡ ok (some (pos nonce)))
        × (verify_token lib e content token ≡ ok true)
  unfolding try_url
  try_url-candidate_token content request nonce url attempt token h =
      let (body, sent, h1) = >>=-eq-ok (send_request lib e (attempt.answer url request)) _ h in
      let (found, extracted, h2) = >>=-eq-ok (extract_tst_info_nonce lib e body) _ h1 in
      let (matched, h3) = guard-eq-ok (nonce_matches lib e nonce found) _ _ h2 in
      let (verified, checked, h4) =
        >>=-eq-ok (verify_token lib e content (candidate_token lib e content url attempt.at body)) _
          h3 in
      let (held, h5) = guard-eq-ok verified _ _ h4 in
      let same = sym (ok-inj lib h5) in
      (
        body,
        same,
        send_request-small (attempt.answer url request) body sent,
        extracted ∙ ap ok (nonce_matches-eq nonce found matched),
        ap (verify_token lib e content) same ∙ checked ∙ ap ok held,
      )

  build-nonce :
      (content random request : Bytes) (nonce : ℕ)
      → build_timestamp_request lib e random content ≡ ok (request, nonce)
      → nonce ≡ from_bytes random
  unfolding build_timestamp_request
  build-nonce content random request nonce h = elim (if-eq (not lib.pyasn1_available) _ _ _ h) [
    | inl (_, raised) ↦ cc raised
    | inr (_, rest) ↦
        let (encoded, _, same) =
          >>=-eq-ok
            (lib.encode_request (record {
              version = 1;
              hashed_message = e.sha256 content;
              nonce = from_bytes random;
              cert_req = true;
            }))
            _ rest in
        cc same
  ]

  stamped :
      {client : Client} (content request random : Bytes) (url : Text) (attempt : Attempt)
      (token : TimestampToken) (nonce : ℕ)
      → nonce ≡ from_bytes random
      → try_url lib e content request nonce url attempt ≡ ok token
      → (str url ≡ str client.tsa_url) ⊎ (str url ≡ str client.fallback_url)
      → IsStamp client random content token
  stamped {client} content request random url attempt token nonce nonce_is tried from =
      let (body, is_token, small, echoed, verified) =
        try_url-candidate_token content request nonce url attempt token tried in
      record {
        from_client = rw is_token from;
        is_attested = verify_token-IsAttested lib e content token verified;
        is_small = rw is_token small;
        echoed = rw (is_token, ← nonce_is) echoed;
        hex_is = rw is_token refl;
        imprint_is = rw is_token refl;
      }

  -- A stamp that is returned comes from one of the client's two URLs and has at most a mebibyte; it
  -- echoes the nonce of the request, and it is attested for the content.
  pub stamp-IsStamp :
      (client : Client) (random : Bytes) (first second : Attempt) (content : Bytes)
      (token : TimestampToken)
      → stamp lib e client random first second content ≡ ok token
      → IsStamp client random content token
  unfolding stamp
  stamp-IsStamp client random first second content token h =
      elim (if-eq (not lib.pyasn1_available) _ _ _ h) [
        | inl (_, raised) ↦ cc raised
        | inr (_, rest) ↦
            let ((request, nonce), built, h1) =
              >>=-eq-ok (build_timestamp_request lib e random content) _ rest in
            let nonce_is : nonce ≡ from_bytes random =
              build-nonce content random request nonce built in
            elim (or_next-eq (try_url lib e content request nonce client.tsa_url first) _ token lib
              e h1) [
                | inl primary ↦
                    stamped content request random client.tsa_url first token nonce nonce_is primary
                      (inl refl)
                | inr later ↦
                    elim (or_next-eq
                      (try_url lib e content request nonce client.fallback_url second) _ token lib e
                      later) [
                        | inl secondary ↦
                            stamped content request random client.fallback_url second token nonce
                              nonce_is secondary (inr refl)
                        | inr raised ↦ cc raised
                      ]
              ]
      ]
