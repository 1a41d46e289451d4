-- ===== src/Tests/Fixture.antt =====
-- A concrete environment: small functions with the widths of the real ones.
use protocol_c.Prelude.{
  ℕ, ◌+◌, ◌*◌, ◌%◌, ◌^◌, [], ◌∷◌, ◌++◌, Bytes, Text, none, some, arith, codes, if◌then◌else◌,
}
use protocol_c.Prelude.Int.{pos, negsuc}
use protocol_c.Py.Hex.{low_digits}
use protocol_c.Py.Hex.Digits.{length-low_digits, low_digits-lt}
use protocol_c.Py.Value.{
  Value, null, bool, int, float, str, arr, obj, Items, nil, cons, Dict, end, field,
}
use protocol_c.Py.Env.{Env, IsDigest, IsStandard}

unfoldable pub checksum : Bytes → ℕ
checksum [] = 7
checksum (b ∷ bs) = b + 31 * checksum bs

-- Brackets and the leaves, with no attention to the order of keys.
unfoldable mutual
  pub show : Value → Text
  show null = b'n' ∷ []
  show (bool b) = (if b then b't' else b'f') ∷ []
  show (int (pos n)) = b'+' ∷ n ∷ []
  show (int (negsuc n)) = b'-' ∷ n ∷ []
  show (float b) = b'.' ∷ b ∷ []
  show (str s) = b'"' ∷ (s ++ b'"' ∷ [])
  show (arr vs) = b'[' ∷ show_items vs
  show (obj d) = b'{' ∷ show_fields d

  pub show_items : Items → Text
  show_items nil = b']' ∷ []
  show_items (cons v vs) = show v ++ (b',' ∷ show_items vs)

  pub show_fields : Dict → Text
  show_fields end = b'}' ∷ []
  show_fields (field k v d) = codes k ++ (b':' ∷ (show v ++ (b',' ∷ show_fields d)))

abbrev pub env : Env
env = record {
  sha256 = λ b. low_digits 256 32 (checksum b % 2 ^ 256);
  hmac_sha256 = λ k m. low_digits 256 32 (checksum (k ++ m) % 30 + 1);
  dumps = show;
  encode = λ t. t;
  loads = λ t. none;
  decode = λ b. some b;
  format = λ v. [];
  column_text = λ v. [];
  int_of_text = λ t. none;
  elapsed = λ a b. 0;
  hours = λ s. 0;
  float_of_text = λ t. none;
  float_of_int = λ n. some 0;
  float_sub = λ a b. 0;
  float_div = λ a b. 0;
  float_succ = λ a. a;
}

low_digits-IsDigest : (n : ℕ) → IsDigest (low_digits 256 32 n)
low_digits-IsDigest n = record {
  width = length-low_digits 256 32 n;
  bytes = low_digits-lt 256 32 n (omega arith);
}

pub env-IsStandard : IsStandard env
env-IsStandard = record {
  sha256_digest = λ b. low_digits-IsDigest (checksum b % 2 ^ 256);
  hmac_digest = λ key m. low_digits-IsDigest (checksum (key ++ m) % 30 + 1);
}
