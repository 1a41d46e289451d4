-- ===== src/Timestamp/Fallback.antt =====
-- When the fallback URL gives a stamp.
use protocol_c.Prelude.{
  ℕ, zero, suc, ◌+◌, ◌≤◌, ◌≡◌, refl, ap, ◌∙◌, Bool, true, false, not, none, some, [], ◌∷◌, Text,
  Bytes, length, take, ltb, if-eq, inl, inr, if◌then◌else◌, arith,
}
use protocol_c.Prelude.Int.{pos}
use protocol_c.Py.Result.{ok, err, timestamp_error, ◌>>=◌}
use protocol_c.Py.Hex.{from_bytes}
use protocol_c.Py.Env.{Env}
use protocol_c.Timestamp.{Library, Reply, TimestampToken}
use protocol_c.Timestamp.Hosts.{Client}
use protocol_c.Curve.Cyclic.{eqb_ℤ_refl}
use protocol_c.Timestamp.Stamp.{
  Attempt, build_timestamp_request, send_request, extract_tst_info_nonce, verify_token, try_url,
  stamp, candidate_token, or_next, max_tsa_response_bytes, declares_too_much,
}

take-all : (n : ℕ) (bs : Bytes) → length bs ≤ n → take n bs ≡ bs
take-all zero [] h = refl
take-all zero (b ∷ bs) h = ground (arith, h)
take-all (suc n) [] h = refl
take-all (suc n) (b ∷ bs) h = ap (λ (rest : Bytes). b ∷ rest) (take-all n bs (omega (arith, h)))

ltb_small : (a b : ℕ) → b ≤ a → ltb a b ≡ false
ltb_small a b h = ground arith

not-false : (b : Bool) → not b ≡ false → b ≡ true
not-false true h = refl
not-false false h = cc

module _ (lib : Library) (e : Env) where
  -- An answer that is good is taken.
  send_request-taken :
      (reply : Reply) (body : Bytes)
      → declares_too_much lib e reply.content_length ≡ false
      → reply.stream ≡ some body
      → length body ≤ max_tsa_response_bytes
      → send_request lib e (some reply) ≡ ok body
  unfolding send_request
  send_request-taken reply body length_ok streams small =
      let whole = take-all (max_tsa_response_bytes + 1) body (omega (arith, small)) in
      rw
        (
          send_request,
          length_ok,
          streams,
          whole,
          ltb_small max_tsa_response_bytes (length body) small,
        )
        refl

  try_url-down :
      (content request : Bytes) (nonce : ℕ) (url : Text) (attempt : Attempt)
      → attempt.answer url request ≡ none
      → try_url lib e content request nonce url attempt ≡ err timestamp_error
  unfolding try_url send_request
  try_url-down content request nonce url attempt down = rw (try_url, down) refl

  try_url-good :
      (content request body : Bytes) (nonce : ℕ) (url : Text) (attempt : Attempt)
      → send_request lib e (attempt.answer url request) ≡ ok body
      → extract_tst_info_nonce lib e body ≡ ok (some (pos nonce))
      → verify_token lib e content (candidate_token lib e content url attempt.at body) ≡ ok true
      → try_url lib e content request nonce url attempt
        ≡ ok (candidate_token lib e content url attempt.at body)
  unfolding try_url
  try_url-good content request body nonce url attempt sent echoed verified =
      rw (try_url, sent, echoed, eqb_ℤ_refl (pos nonce), verified) refl

  available-built :
      (content random : Bytes) (built : Bytes × ℕ)
      → build_timestamp_request lib e random content ≡ ok built
      → lib.pyasn1_available ≡ true
  unfolding build_timestamp_request
  available-built content random built h = elim (if-eq (not lib.pyasn1_available) _ _ _ h) [
    | inl (_, raised) ↦ cc raised
    | inr (there, _) ↦ not-false lib.pyasn1_available there
  ]

  stamp-second :
      (client : Client) (random : Bytes) (first second : Attempt) (content request : Bytes)
      (nonce : ℕ) (token : TimestampToken)
      → build_timestamp_request lib e random content ≡ ok (request, nonce)
      → try_url lib e content request nonce client.tsa_url first ≡ err timestamp_error
      → try_url lib e content request nonce client.fallback_url second ≡ ok token
      → stamp lib e client random first second content ≡ ok token
  unfolding stamp
  stamp-second client random first second content request nonce token built down up =
      ap
        (λ b.
          if not b
          then err timestamp_error
          else (build_timestamp_request lib e random content >>= λ r.
              or_next lib e (try_url lib e content r.0 r.1 client.tsa_url first) (
                or_next lib e (try_url lib e content r.0 r.1 client.fallback_url second)
                  (err timestamp_error))))
        (available-built content random (request, nonce) built)
      ∙ rw (built, down, up) refl

  -- With the primary URL down, a good answer of the fallback URL gives a stamp: one whose length is
  -- within the bound, that echoes the nonce and that verifies.
  pub stamp-fallback :
      (client : Client) (random : Bytes) (first second : Attempt) (content request body : Bytes)
      (reply : Reply)
      → build_timestamp_request lib e random content ≡ ok (request, from_bytes random)
      → first.answer client.tsa_url request ≡ none
      → second.answer client.fallback_url request ≡ some reply
      → declares_too_much lib e reply.content_length ≡ false
      → reply.stream ≡ some body
      → length body ≤ max_tsa_response_bytes
      → extract_tst_info_nonce lib e body ≡ ok (some (pos (from_bytes random)))
      → verify_token lib e content
          (candidate_token lib e content client.fallback_url second.at body)
        ≡ ok true
      → stamp lib e client random first second content
        ≡ ok (candidate_token lib e content client.fallback_url second.at body)
  stamp-fallback client random first second content request body reply built down up length_ok
        streams small echoed verified =
      stamp-second client random first second content request (from_bytes random)
        (candidate_token lib e content client.fallback_url second.at body) built
        (try_url-down content request (from_bytes random) client.tsa_url first down)
        (try_url-good content request body (from_bytes random) client.fallback_url second
          (ap (send_request lib e) up ∙ send_request-taken reply body length_ok streams small)
          echoed verified)
