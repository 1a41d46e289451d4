-- ===== src/Cli/Commands.antt =====
-- The commands `commit`, `verify`, `init`, `info` and `demo` of aether_protocol_c/cli.py. A command
-- gives the dict that it prints and its exit code.
use protocol_c.Prelude.{
  ℕ, Bool, true, false, not, ◌&&◌, ◌||◌, Option, none, some, [], ◌∷◌, ◌++◌, String, Text, Bytes,
  codes, ◌==◌, if◌then◌else◌,
}
use protocol_c.Prelude.Int.{pos}
use protocol_c.Py.Result.{Result, ok, err, type_error, value_error, guard, ◌>>=◌, ◌>>◌}
use protocol_c.Py.Value.{
  Value, null, bool, int, float, str, arr, obj, Items, nil, cons, Dict, end, field, dict_set,
  get_or, has_key, item,
}
use protocol_c.Py.Compare.{py_eq, truthy}
use protocol_c.Py.Env.{Env}
use protocol_c.Curve.{Curve}
use protocol_c.Audit.{AuditLog}
use protocol_c.Package.{Moments, Request, get_seed, commit, verify}
use protocol_c.Cli.{read_json}

-- `s.startswith(t)`
unfoldable pub starts_with : Text → Text → Bool
starts_with s [] = true
starts_with [] (d ∷ ds) = false
starts_with (c ∷ cs) (d ∷ ds) = c == d && starts_with cs ds

-- `t in s` on texts
unfoldable pub has_part : Text → Text → Bool
unfolding starts_with
has_part [] t = starts_with [] t
has_part (c ∷ cs) t = starts_with (c ∷ cs) t || has_part cs t

-- `v in vs` on a list
unfoldable pub has_item : Items → Value → Bool
unfolding py_eq
has_item nil v = false
has_item (cons w ws) v = py_eq w v || has_item ws v

-- `key in v` on any value: TypeError where it is no container.
unfoldable pub contains_key : Value → String → Result Bool
unfolding has_part has_item has_key
contains_key (obj d) k = ok (has_key d k)
contains_key (str s) k = ok (has_part s (codes k))
contains_key (arr vs) k = ok (has_item vs (str (codes k)))
contains_key null k = err type_error
contains_key (bool b) k = err type_error
contains_key (int z) k = err type_error
contains_key (float b) k = err type_error

-- `v[key]`: a text and a list have no text for an index.
unfoldable pub value_item : Value → String → Result Value
unfolding item
value_item (obj d) k = item d k
value_item null k = err type_error
value_item (bool b) k = err type_error
value_item (int z) k = err type_error
value_item (float b) k = err type_error
value_item (str s) k = err type_error
value_item (arr vs) k = err type_error

-- `if key not in payload: raise ValueError`
unfoldable pub require_key : Value → String → Result (Unit {0})
unfolding contains_key
require_key v k = do present ← contains_key v k; guard present value_error

-- The arguments of `commit` from five values, none where one is not of the type that `commit` is
-- annotated with.
typed_request : Value → Value → Value → Value → Value → Option Request
typed_request (str o) (obj t) (obj a) null (str m) = some (record {
  order_id = o;
  trade_details = t;
  account_state = a;
  reasoning_text = none;
  reasoning_model = m;
})
typed_request (str o) (obj t) (obj a) (str r) (str m) = some (record {
  order_id = o;
  trade_details = t;
  account_state = a;
  reasoning_text = some r;
  reasoning_model = m;
})
typed_request o t a r m = none

unfoldable pub request_of : Dict → Option Request
unfolding typed_request get_or
request_of d =
    typed_request (get_or d "order_id" null) (get_or d "trade_details" null)
      (get_or d "account_state" null) (get_or d "reasoning_text" null)
      (get_or d "reasoning_model" (str (codes "human")))

-- The payload of `commit` with its three keys. A text or a list that contains them has no items by
-- key.
unfoldable pub read_payload : Env → ℕ → Option Text → Result Dict
unfolding read_json require_key
read_payload e rounds stream = do
  payload ← read_json e rounds stream
  require_key payload "order_id"
  require_key payload "trade_details"
  require_key payload "account_state"
  elim payload [ obj d ↦ ok d | _ ↦ err type_error ]

-- The exit code of a test.
abbrev pub code_of : Bool → ℕ
code_of b = if b then 0 else 1

-- What `commit` prints, and its exit code.
unfoldable pub commit_report : Result Dict → Result (Dict × ℕ)
unfolding item truthy
commit_report result = do
  d ← result
  verified ← item d "verified"
  ok (d, code_of (truthy verified))

abbrev pub demo_request : Request
demo_request = record {
  order_id = codes "demo_001";
  trade_details = field "symbol" (str (codes "BTC")) (
      field "qty" (int (pos 1))
        (field "side" (str (codes "long")) (field "price" (int (pos 50000)) end)));
  account_state = field "capital" (int (pos 100000)) (
      field "equity" (int (pos 100000)) (
        field "open_positions" (arr nil) (
          field "risk_used" (float 0) (
            field "risk_limit" (float 0x3FF0000000000000)
              (field "nonce" (int (pos 1)) (field "timestamp" (int (pos 0)) end))))));
  reasoning_text = none;
  reasoning_model = codes "human";
}

module _ (e : Env) (c : Curve) where
  -- `_cmd_commit`, with the random bytes of the seed; none where the payload has a value of another
  -- type than `commit` is annotated with.
  unfoldable pub cmd_commit :
      ℕ
      → ℕ
      → Bytes
      → Moments
      → Option Text
      → Option AuditLog
      → Option (Result (Dict × ℕ) × Option AuditLog)
  unfolding read_payload request_of commit get_seed commit_report
  cmd_commit fuel rounds random m stream disk = elim (read_payload e rounds stream) [
    | err x ↦ some (err x, none)
    | ok d ↦ elim (request_of d) [
      | none ↦ none
      | some r ↦
          let (result, after) = commit e c fuel m (get_seed e random (codes "CSPRNG")) r disk in
          some (commit_report result, after)
    ]
  ]

  -- `_cmd_verify`
  unfoldable pub cmd_verify : ℕ → Option Text → Result (Dict × ℕ)
  unfolding read_json require_key value_item verify
  cmd_verify rounds stream = do
    envelope ← read_json e rounds stream
    require_key envelope "commitment"
    require_key envelope "signature"
    commitment ← value_item envelope "commitment"
    signature ← value_item envelope "signature"
    let accepted = verify e c commitment signature
    ok (field "verified" (bool accepted) end, code_of accepted)

  -- `_cmd_demo` after its `commit`.
  unfoldable pub demo_report : Result Dict → Result (Dict × ℕ)
  unfolding item truthy verify dict_set
  demo_report result = do
    d ← result
    commitment ← item d "commitment"
    signature ← item d "signature"
    let accepted = verify e c commitment signature
    verified ← item d "verified"
    ok (dict_set d "independent_verify" (bool accepted), code_of (truthy verified && accepted))

  -- `_cmd_demo`
  unfoldable pub cmd_demo : ℕ → Bytes → Moments → Result (Dict × ℕ)
  unfolding commit get_seed demo_report
  cmd_demo fuel random m =
      demo_report (commit e c fuel m (get_seed e random (codes "CSPRNG")) demo_request none).0

-- What `_cmd_info` asks of the interpreter.
pub record Platform : Type 0 where
  pub python_version : Text
  pub platform : Text

-- `_cmd_info`
unfoldable pub cmd_info : Platform → Dict × ℕ
cmd_info p = (
  field "tool" (str (codes "aether-protocol-c")) (
      field "version" (str (codes "0.1.0")) (
        field "python" (str p.python_version) (
          field "platform" (str p.platform) (
            field "entropy_source" (str (codes "CSPRNG")) (
              field "key_lifetime_seconds" (int (pos 3600)) (
                field "signature" (str (codes "ecdsa-secp256k1-sha256 (RFC 6979)"))
                  (field "default_audit_log" (str (codes "audit/audit.jsonl")) end))))))),
  0,
)

-- `DEFAULT_CONFIG`
abbrev pub default_config : Dict
default_config = field "entropy" (str (codes "CSPRNG")) (
    field "key_lifetime_seconds" (int (pos 3600))
      (field "audit_log" (str (codes "audit/audit.jsonl")) end))

-- The directory that `_cmd_init` writes to.
pub record Folder : Type 0 where
  pub config : Option Text
  pub has_audit : Bool

-- `_cmd_init`: what it prints, its exit code and the directory after it; `pretty` is `json.dump` with
-- its indent, `join` is `os.path.join`, and the directory can be written.
unfoldable pub cmd_init :
    (Value → Text) → (Text → Text → Text) → Text → Bool → Folder → (Option Dict × ℕ) × Folder
cmd_init pretty join dir force folder =
    let base : Text = elim dir [ [] ↦ codes "." | c ∷ cs ↦ c ∷ cs ] in
    let path = join base (codes "aether.config.json") in
    let exists : Bool = elim folder.config [ none ↦ false | some _ ↦ true ] in
    if exists && not force then ((none, 2), folder) else (
      (
        some (
            field "initialized" (str path) (
              field "next"
                (arr (
                  cons (str (codes "aether-protocol-c info"))
                    (cons (str (codes "aether-protocol-c demo")) nil)))
                end)),
        0,
      ),
      record { config = some (pretty (obj default_config) ++ 10 ∷ []); has_audit = true },
    )
