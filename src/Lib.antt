-- ===== src/Lib.antt =====
-- PROTOCOL-C: signed, single-use keys for the three phases of a trade, the registry of who may sign,
-- and the verdict on a recorded trade.
--
-- A key is derived from a seed, signs one dict and is destroyed. A commitment, an execution and a
-- settlement are signed so, each by its own key, and each cites the one before. The verifier reads
-- the three phases back and checks every signature, the identity of every signer, and the links.
--
-- - Prelude: numbers, lists, texts and arithmetic modulo n that the rest shares.
-- - Py: what the package uses of Python: exceptions as values (Py/Result), JSON values
--   (Py/Value), the comparison of numbers (Py/Number, Py/Compare, Py/Integers), hexadecimal text and
--   bytes (Py/Hex), and `hashlib`, `hmac`, `json` and float arithmetic as parameters (Py/Env).
-- - Curve: `_Point`, `_modinv`, `_point_add`, `_point_double`, `_point_mul` of
--   aether_protocol_c/ephemeral_signer.py. The curve's numbers are a parameter; `secp256k1` are the
--   source's.
-- - Ecdsa: `_rfc6979_k`, `_ecdsa_sign`, `_ecdsa_verify` of the same file.
-- - Signer: `EphemeralSigner` of the same file. Signer/Compressed and Signer/RoundTrip read a public
--   key and a signature back; Curve/Root has the square roots that this needs.
-- - Identity: `AccountKeyRegistry` of aether_protocol_c/identity.py.
-- - Key: aether_protocol_c/crypto.py. State: aether_protocol_c/state.py.
-- - Commitment, Execution, Settlement: the files of those names in aether_protocol_c.
-- - Flow: `AuditVerifier` of aether_protocol_c/verify.py, of a flow that was read from the log.
--   Flow/Trade joins the three phases as the package makes them. The log gives every dict back with
--   its keys sorted (Py/Sorted); Flow/Reread and its neighbours follow that through the checks.
-- - Audit: `AuditEntry` and `AuditLog` of aether_protocol_c/audit.py. The log file is its bytes and the
--   table of the index its rows; Audit/Append writes, Audit/Read reads, Audit/Rebuild opens. A
--   history is the list of the entries that were appended (Audit/History). Audit/Verdict joins the log
--   and the verdict.
-- - Timestamp: aether_protocol_c/timestamp_authority.py: which URLs a client takes (Timestamp/Hosts),
--   the signature of CMS (Timestamp/Signatures), `stamp` and `verify` (Timestamp/Stamp). ASN.1,
--   certificates, DNS and HTTP are a record of functions.
-- - Disputes: `DisputeProofGenerator` of aether_protocol_c/verify.py, on a log.
-- - Package: aether_protocol_c/seed.py and the functions of aether_protocol_c/__init__.py, which join
--   the commitment and the log. Cli: the reading of input and the commands of
--   aether_protocol_c/cli.py.
-- - Tests: a curve of 31 points, a concrete environment, a trade signed on them, and the theorems at
--   concrete inputs.
--
-- A method that raises returns a Result; a method that changes an object returns the new object as
-- well. Readings of the clock are arguments. A JSON object is the list of its fields, and a float is
-- its 64 bits.
--
-- Bounds: the loop of `_point_mul` has the 256 steps of the source. The loop of `_rfc6979_k` is not
-- bounded in the source; it runs on fuel here, and once one of its rounds reads a number in range,
-- any larger fuel gives the same nonce. The loop of `_read_limited` runs on fuel, and more than the
-- length of the stream is enough.
--
-- Not modelled: `build_parser` of aether_protocol_c/cli.py and a payload of its `commit` whose values
-- have other types than the function annotates, `to_exportable_json` of aether_protocol_c/verify.py,
-- a record read by a `from_dict` of aether_protocol_c/crypto.py or aether_protocol_c/commitment.py
-- with a value of another type than its field, and texts that explain an exception or a verdict. A
-- method of the log is one step, without its lock, and a crash inside one is outside the model; so
-- is what a failed rebuilding leaves in the database. `str.encode` is total here, so a text with a
-- lone surrogate is outside the model. NaN equals nothing here, while CPython takes one NaN object as
-- equal to itself inside a list, a dict or a set.
--
-- What is assumed: the group of the curve is cyclic of prime order (Curve/Order, IsGroup), its points
-- are on the curve over a prime that leaves 3 by 4 (Signer/RoundTrip, IsCurveGroup), a digest has 32
-- bytes (Py/Env, IsStandard), `json.dumps` with sorted keys does not depend on the order of the keys
-- (Flow/RereadLinks, IsCanonical), what a command printed is read back with its keys sorted
-- (Cli/Piped, IsPrinted), and `json` reads back the lines of the log that `json` wrote
-- (Audit/History, IsReadable, and Audit/Rebuildable, IsRebuildable).
pub mod Prelude
pub mod Py
pub mod Curve
pub mod Ecdsa
mod Tests
pub mod Signer
pub mod Identity
pub mod State
pub mod Key
pub mod Commitment
pub mod Execution
pub mod Settlement
pub mod Flow
pub mod Audit
pub mod Timestamp
pub mod Disputes
pub mod Package
pub mod Cli
