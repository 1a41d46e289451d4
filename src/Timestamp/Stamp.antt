-- ===== src/Timestamp/Stamp.antt =====
-- `stamp` and `verify`, and the methods that they call.
use protocol_c.Prelude.{
  ℕ, zero, suc, ◌+◌, ◌-◌, ◌*◌, Bool, true, false, not, ◌&&◌, ◌||◌, Option, none, some, Text, Bytes,
  codes, length, take, text_eq, ltb, if◌then◌else◌,
}
use protocol_c.Prelude.Int.{ℤ, pos, eqb_ℤ, ltb_ℤ}
use protocol_c.Py.Result.{Result, ok, err, timestamp_error, ◌>>=◌, guard}
use protocol_c.Py.Value.{str, int}
use protocol_c.Py.Compare.{py_eq}
use protocol_c.Py.Hex.{hex, from_bytes}
use protocol_c.Py.Env.{Env}
use protocol_c.Timestamp.{Library, Reply, TimestampToken}
use protocol_c.Timestamp.Hosts.{Client}
use protocol_c.Timestamp.Signatures.{verify_cms_signature}

-- `MAX_TSA_RESPONSE_BYTES`
abbrev pub max_tsa_response_bytes : ℕ
max_tsa_response_bytes = 1024 * 1024

-- A value, and TimestampError in place of any exception.
abbrev pub parsed {ℓ} : {A : Type ℓ} → Option A → Result A
parsed none = err timestamp_error
parsed (some a) = ok a

-- The network at an attempt: the answer of a URL to a request, none where the call raises; the time
-- is `int(time.time())` after it.
pub record Attempt : Type 0 where
  pub answer : Text → Bytes → Option Reply
  pub at : ℕ

module _ (lib : Library) (e : Env) where
  -- `_build_timestamp_request`, with the eight bytes of `os.urandom`
  unfoldable pub build_timestamp_request : Bytes → Bytes → Result (Bytes × ℕ)
  unfolding from_bytes
  build_timestamp_request random content =
      if not lib.pyasn1_available
      then err timestamp_error
      else let nonce = from_bytes random in
        do
          request ← lib.encode_request (record {
            version = 1;
            hashed_message = e.sha256 content;
            nonce = nonce;
            cert_req = true;
          })
          ok (request, nonce)

  -- `_decode_tst_info`
  unfoldable pub decode_tst_info : Bytes → Result (lib.Der × Bytes)
  decode_tst_info resp_bytes = do
    resp ← parsed (lib.decode_response resp_bytes)
    _ ← guard (eqb_ℤ resp.status (pos 0) || eqb_ℤ resp.status (pos 1)) timestamp_error
    signed_data_der ← parsed resp.token
    found ← parsed (lib.decode_signed_data signed_data_der)
    econtent ← parsed found
    tst_info ← parsed (lib.decode econtent)
    ok (tst_info, signed_data_der)

  -- The loop over the components from a position, with the number of those that are left.
  unfoldable pub first_integer : ℕ → ℕ → lib.Der → Result (Option ℤ)
  first_integer zero i tst_info = ok none
  first_integer (suc left) i tst_info = lib.component tst_info i >>= λ c. elim (lib.as_integer c) [
    | none ↦ first_integer left (i + 1) tst_info
    | some z ↦ ok (some z)
  ]

  -- `_extract_tst_info_nonce`
  unfoldable pub extract_tst_info_nonce : Bytes → Result (Option ℤ)
  unfolding decode_tst_info first_integer
  extract_tst_info_nonce resp_bytes = do
    (tst_info, _) ← decode_tst_info resp_bytes
    n ← lib.der_len tst_info
    first_integer (n - 5) 5 tst_info

  -- Whether a declared length is too large; what is no number is passed over.
  unfoldable pub declares_too_much : Option Text → Bool
  declares_too_much none = false
  declares_too_much (some t) = elim (e.int_of_text t) [
    | none ↦ false
    | some n ↦ ltb_ℤ (pos max_tsa_response_bytes) n
  ]

  -- `_send_request`: any exception becomes TimestampError.
  unfoldable pub send_request : Option Reply → Result Bytes
  unfolding declares_too_much
  send_request answer = do
    reply ← parsed answer
    _ ← guard (not (declares_too_much reply.content_length)) timestamp_error
    stream ← parsed reply.stream
    let body = take (max_tsa_response_bytes + 1) stream
    _ ← guard (not (ltb max_tsa_response_bytes (length body))) timestamp_error
    ok body

  -- The hash that the authority signed, and the DER of the CMS around it.
  unfoldable pub attested_hash : Bytes → Result (Bytes × Bytes)
  unfolding decode_tst_info
  attested_hash token_bytes = do
    (tst_info, signed_data_der) ← decode_tst_info token_bytes
    imprint ← lib.component tst_info 2
    hashed ← lib.component imprint 1
    bytes ← lib.der_bytes hashed
    ok (bytes, signed_data_der)

  -- `verify`
  unfoldable pub verify_token : Bytes → TimestampToken → Result Bool
  unfolding attested_hash verify_cms_signature text_eq py_eq
  verify_token content token =
      if not lib.pyasn1_available || not lib.cms_verify_available
      then err timestamp_error
      else elim (attested_hash token.token_bytes) [
        | err _ ↦ ok false
        | ok (hashed, signed_data_der) ↦ ok (
            text_eq hashed (e.sha256 content)
            && py_eq token.message_imprint (str (hex (e.sha256 content)))
            && verify_cms_signature lib signed_data_der)
      ]

  -- The token of an answer.
  abbrev pub candidate_token : Bytes → Text → ℕ → Bytes → TimestampToken
  candidate_token content url at body = record {
    tsa_url = str url;
    token_bytes = body;
    token_hex = hex body;
    stamped_at = int (pos at);
    hash_algorithm = str (codes "sha-256");
    message_imprint = str (hex (e.sha256 content));
  }

  -- The nonce of an answer must be there and be the one that was sent.
  abbrev pub nonce_matches : ℕ → Option ℤ → Bool
  nonce_matches nonce none = false
  nonce_matches nonce (some z) = eqb_ℤ z (pos nonce)

  -- The body of the handler in `stamp`, at one URL.
  unfoldable pub try_url : Bytes → Bytes → ℕ → Text → Attempt → Result TimestampToken
  unfolding send_request extract_tst_info_nonce verify_token
  try_url content request nonce url attempt = do
    body ← send_request (attempt.answer url request)
    found ← extract_tst_info_nonce body
    _ ← guard (nonce_matches nonce found) timestamp_error
    let token = candidate_token content url attempt.at body
    verified ← verify_token content token
    _ ← guard verified timestamp_error
    ok token

  -- `try: m except TimestampError: continue`
  abbrev pub or_next : Result TimestampToken → Result TimestampToken → Result TimestampToken
  or_next (ok token) rest = ok token
  or_next (err timestamp_error) rest = rest
  or_next (err x) rest = err x

  -- `stamp`
  unfoldable pub stamp : Client → Bytes → Attempt → Attempt → Bytes → Result TimestampToken
  unfolding build_timestamp_request try_url
  stamp client random first second content =
      if not lib.pyasn1_available then err timestamp_error else do
        (request, nonce) ← build_timestamp_request random content
        or_next (try_url content request nonce client.tsa_url first) (
            or_next (try_url content request nonce client.fallback_url second)
              (err timestamp_error))
