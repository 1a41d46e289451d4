-- ===== src/Tests/Timestamp.antt =====
-- The theorems on the client, with an authority that answers a request by the request.
use protocol_c.Prelude.{
  ℕ, zero, suc, ◌≡◌, ◌≤◌, refl, true, false, none, some, Option, [], ◌∷◌, ◌++◌, Bytes, codes,
  text_eq, arith, take, drop, length,
}
use protocol_c.Prelude.Int.{ℤ, pos}
use protocol_c.Py.Result.{Result, ok, err, type_error}
use protocol_c.Py.Value.{Value, int, str, arr, Items, nil, cons}
use protocol_c.Py.Hex.{hex, from_bytes, low_digits}
use protocol_c.Tests.Fixture.{env, checksum}
use protocol_c.Timestamp.{
  Library, TimestampToken, Reply, SignerInfo, rsa, token_to_dict, token_from_dict,
}
use protocol_c.Timestamp.Hosts.{Client, new_client, default_tsa_url, fallback_tsa_url}
use protocol_c.Timestamp.Signatures.{verify_cms_signature}
use protocol_c.Timestamp.Stamp.{
  Attempt, build_timestamp_request, extract_tst_info_nonce, verify_token, stamp, candidate_token,
  declares_too_much,
}
use protocol_c.Timestamp.Signed.{IsCmsSigned, verify_cms_signature-IsCmsSigned}
use protocol_c.Timestamp.Attested.{IsAttested, verify_token-IsAttested}
use protocol_c.Timestamp.Stamped.{IsStamp, stamp-IsStamp}
use protocol_c.Timestamp.Fallback.{stamp-fallback}
use protocol_c.Timestamp.Allowed.{IsAllowed, new_client-IsAllowed}
use protocol_c.Timestamp.Token.{token_from_dict-to_dict}

abbrev nth : Items → ℕ → Result Value
nth nil n = err type_error
nth (cons v vs) zero = ok v
nth (cons v vs) (suc n) = nth vs n

abbrev size : Items → ℕ
size nil = 0
size (cons v vs) = suc (size vs)

abbrev part : Value → ℕ → Result Value
part (arr vs) n = nth vs n
part v n = err type_error

abbrev parts : Value → Result ℕ
parts (arr vs) = ok (size vs)
parts v = err type_error

abbrev octets : Value → Result Bytes
octets (str s) = ok s
octets v = err type_error

abbrev whole : Value → Option ℤ
whole (int z) = some z
whole v = none

-- A TSTInfo of 32 bytes of a digest and the bytes of a nonce.
abbrev info : Bytes → Value
info b = arr (
    cons (int (pos 1)) (
      cons (str []) (
        cons (arr (cons (str []) (cons (str (take 32 b)) nil)))
          (cons (int (pos 5)) (cons (str []) (cons (int (pos (from_bytes (drop 32 b)))) nil))))))

abbrev signer : SignerInfo
signer = record {
  sid = none;
  digest_oid = codes "2.16.840.1.101.3.4.2.1";
  signed_attrs = none;
  signature = 9 ∷ [];
}

abbrev lib : Library
lib = record {
  urlparse = λ u. ok (record { scheme = take 5 u; hostname = some (codes "host") });
  getaddrinfo = λ h. ok (some (codes "8.8.8.8" ∷ []));
  ip_address = λ a. some (record {
    is_private = false;
    is_loopback = false;
    is_link_local = false;
    is_reserved = false;
    is_multicast = false;
    is_unspecified = false;
  });
  pyasn1_available = true;
  cms_verify_available = true;
  Der = Value;
  encode_request = λ r. ok (r.hashed_message ++ r.nonce ∷ []);
  decode_response = λ b. some (record { status = pos 0; token = some b });
  decode_signed_data = λ b. some (some b);
  decode = λ b. some (info b);
  der_len = parts;
  component = part;
  der_bytes = octets;
  as_integer = whole;
  decode_cms =
      λ b. some (record { econtent = b; certificates = (1 ∷ []) ∷ []; signer_infos = signer ∷ [] });
  load_certificate = λ b. some (record { serial_number = pos 1; issuer = []; key = some (rsa b) });
  id_message_digest = codes "1.2.840.113549.1.9.4";
  attribute_bytes = λ b. some b;
  digest = λ name b. b;
  verify_rsa = λ k hash signature message. ok (text_eq signature (9 ∷ []));
  verify_elliptic = λ k hash signature message. ok false;
}

abbrev client : Client
client = record {
  allow_insecure_http = false;
  tsa_url = default_tsa_url;
  fallback_url = fallback_tsa_url;
}

abbrev random : Bytes
random = 0 ∷ 0 ∷ 0 ∷ 0 ∷ 0 ∷ 0 ∷ 0 ∷ 7 ∷ []

abbrev content : Bytes
content = 1 ∷ 2 ∷ []

abbrev request : Bytes
request = env.sha256 content ++ 7 ∷ []

abbrev reply : Reply
reply = record { content_length = none; stream = some request }

abbrev down : Attempt
down = record { answer = λ url r. none; at = 3 }

abbrev up : Attempt
up = record { answer = λ url r. some (record { content_length = none; stream = some r }); at = 4 }

abbrev token : TimestampToken
token = candidate_token lib env content fallback_tsa_url 4 request

new_client-IsAllowed_example :
    IsAllowed lib false client.tsa_url × IsAllowed lib false client.fallback_url
unfolding new_client
new_client-IsAllowed_example = new_client-IsAllowed lib none none false client refl

verify_cms_signature-IsCmsSigned_example : IsCmsSigned lib request
unfolding verify_cms_signature
verify_cms_signature-IsCmsSigned_example = verify_cms_signature-IsCmsSigned lib request refl

verified : verify_token lib env content token ≡ ok true
unfolding verify_token low_digits checksum hex
verified = refl

verify_token-IsAttested_example : IsAttested lib env content token
verify_token-IsAttested_example = verify_token-IsAttested lib env content token verified

stamped : stamp lib env client random down up content ≡ ok token
unfolding stamp low_digits checksum hex
stamped = refl

stamp-IsStamp_example : IsStamp lib env client random content token
stamp-IsStamp_example = stamp-IsStamp lib env client random down up content token stamped

echoed : extract_tst_info_nonce lib env request ≡ ok (some (pos (from_bytes random)))
unfolding extract_tst_info_nonce low_digits from_bytes
echoed = refl

built : build_timestamp_request lib env random content ≡ ok (request, from_bytes random)
unfolding build_timestamp_request
built = refl

small : length request ≤ 1048576
unfolding low_digits
small = omega arith

stamp-fallback_example : stamp lib env client random down up content ≡ ok token
unfolding declares_too_much
stamp-fallback_example =
    stamp-fallback lib env client random down up content request request reply built refl refl refl
      refl small echoed verified

abbrev short : TimestampToken
short = record token { token_bytes = 10 ∷ 255 ∷ []; token_hex = codes "0aff" }

short_hex : short.token_hex ≡ hex short.token_bytes
unfolding hex
short_hex = refl

token_from_dict-to_dict_example : token_from_dict (token_to_dict short) ≡ ok short
token_from_dict-to_dict_example =
    token_from_dict-to_dict short (omega arith, (omega arith, tt)) short_hex
