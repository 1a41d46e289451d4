-- ===== src/Py/Env.antt =====
-- What the package takes from `hashlib`, `hmac`, `json`, `sqlite3` and the arithmetic of floats.
use protocol_c.Prelude.Int.{ℤ}
use protocol_c.Prelude.{ℕ, Option, ◌<◌, ◌≡◌, Text, Bytes, length, All}
use protocol_c.Py.Value.{Value}

-- The functions.
pub record Env : Type 0 where
  -- `hashlib.sha256(b).digest()`
  pub sha256 : Bytes → Bytes
  -- `hmac.new(key, message, hashlib.sha256).digest()`
  pub hmac_sha256 : Bytes → Bytes → Bytes
  -- `json.dumps(v, sort_keys=True, separators=(",", ":"))`
  pub dumps : Value → Text
  -- `json.loads(text)`, `none` where it raises JSONDecodeError
  pub loads : Text → Option Value
  -- `bytes.decode("utf-8")`, `none` where it raises UnicodeDecodeError
  pub decode : Bytes → Option Text
  -- `str(v)` of a value that is no text
  pub format : Value → Text
  -- what a column of SQLite with the affinity TEXT keeps of a number
  pub column_text : Value → Text
  -- `int(text)`, `none` where it raises ValueError
  pub int_of_text : Text → Option ℤ
  -- `text.encode("utf-8")`
  pub encode : Text → Bytes
  -- `round(now - then, 2)` on two readings of `time.time()`, which are floats
  pub elapsed : ℕ → ℕ → ℕ
  -- `round(seconds / 3600, 4)`
  pub hours : ℤ → ℕ
  -- `float(text)`, `none` where it raises ValueError
  pub float_of_text : Text → Option ℕ
  -- `float(n)`, `none` where it raises OverflowError
  pub float_of_int : ℤ → Option ℕ
  -- the difference and the quotient of two floats, where the divisor is not 0
  pub float_sub : ℕ → ℕ → ℕ
  pub float_div : ℕ → ℕ → ℕ
  -- `x + 1` of a float
  pub float_succ : ℕ → ℕ

-- A digest has 32 bytes.
pub record IsDigest (b : Bytes) : Type 0 where
  pub width : length b ≡ 32
  pub bytes : All (λ x. x < 256) b

-- What is documented of them.
pub record IsStandard (e : Env) : Type 0 where
  pub sha256_digest : (b : Bytes) → IsDigest (e.sha256 b)
  pub hmac_digest : (key message : Bytes) → IsDigest (e.hmac_sha256 key message)
