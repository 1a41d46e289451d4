-- ===== src/Cli.antt =====
-- aether_protocol_c/cli.py: the reading of JSON input, the command `seed` and the exit codes;
-- the other commands are in the children.
pub mod Limited
pub mod Commands
pub mod Logs
pub mod Accepted
pub mod Piped
use protocol_c.Prelude.{
  ℕ, zero, suc, ◌+◌, ◌*◌, Bool, true, false, Option, none, some, List, [], ◌∷◌, ◌++◌, Text, Bytes,
  codes, length, take, drop, leb, ltb, if◌then◌else◌,
}
use protocol_c.Py.Result.{
  Result, Exn, ok, err, value_error, json_error, unicode_error, missing_file, no_fuel, ◌>>=◌,
}
use protocol_c.Py.Value.{Value, obj, Dict}
use protocol_c.Py.Env.{Env}
use protocol_c.Audit.Lines.{strip}
use protocol_c.Package.{get_seed, seed_result_to_dict}

-- `MAX_JSON_INPUT_BYTES`
abbrev pub max_json_input_bytes : ℕ
max_json_input_bytes = 10 * 1024 * 1024

-- The loop of `_read_limited`: the total, and the chunks joined, from a total and what is left of the
-- stream. A chunk is `fh.read(65536)`.
unfoldable pub read_chunks : ℕ → ℕ → ℕ → Text → Result (ℕ × Text)
read_chunks zero max_bytes total stream = err no_fuel
read_chunks (suc fuel) max_bytes total stream = elim (leb total max_bytes) [
  | false ↦ ok (total, [])
  | true ↦ elim (take 65536 stream) [
    | [] ↦ ok (total, [])
    | c ∷ cs ↦ read_chunks fuel max_bytes (total + length (c ∷ cs)) (drop 65536 stream) >>= λ read.
        ok (read.0, (c ∷ cs) ++ read.1)
  ]
]

-- `_read_limited`
unfoldable pub read_limited : ℕ → Text → ℕ → Result Text
unfolding read_chunks
read_limited fuel stream max_bytes = do
  (total, joined) ← read_chunks fuel max_bytes 0 stream
  if ltb max_bytes total then err value_error else ok joined

-- `_read_json`: the stream is none where there is no such file.
unfoldable pub read_json : Env → ℕ → Option Text → Result Value
unfolding read_limited strip
read_json e fuel none = err missing_file
read_json e fuel (some stream) = do
  raw ← read_limited fuel stream max_json_input_bytes
  elim (strip raw) [
    | [] ↦ err value_error
    | c ∷ cs ↦ elim (e.loads raw) [ none ↦ err json_error | some v ↦ ok v ]
  ]

-- `_emit`: what a command writes of the dict that it prints; `pretty` is `json.dump` with its indent
-- and its sorted keys.
unfoldable pub emit : (Value → Text) → Dict → Text
emit pretty d = pretty (obj d) ++ 10 ∷ []

-- `_cmd_seed`: what it prints and the exit code.
unfoldable pub cmd_seed : Env → Bytes → Result (Dict × ℕ)
unfolding get_seed seed_result_to_dict
cmd_seed e random = ok (seed_result_to_dict (get_seed e random (codes "CSPRNG")), 0)

-- The handler of `main`: a ValueError, with its subclasses, and a missing file give the code 2.
unfoldable pub exit_code {ℓ} : {A : Type ℓ} → Result (A × ℕ) → Result ℕ
exit_code (ok (_, code)) = ok code
exit_code (err value_error) = ok 2
exit_code (err json_error) = ok 2
exit_code (err unicode_error) = ok 2
exit_code (err missing_file) = ok 2
exit_code (err x) = err x

-- `main` after the parsing of the arguments: no command, or the run of one.
unfoldable pub main {ℓ} : {A : Type ℓ} → Option (Result (A × ℕ)) → Result ℕ
unfolding exit_code
main none = ok 2
main (some run) = exit_code run
