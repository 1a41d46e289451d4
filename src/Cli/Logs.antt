-- ===== src/Cli/Logs.antt =====
-- The command `logs` of aether_protocol_c/cli.py: the entries that it shows, and the signatures that
-- it checks.
use protocol_c.Prelude.{
  ℕ, zero, suc, ◌+◌, ◌-◌, Bool, true, false, not, ◌&&◌, ◌||◌, Option, none, some, List, [], ◌∷◌,
  Text, Bytes, codes, take, drop, length, leb, ◌==◌, if◌then◌else◌,
}
use protocol_c.Prelude.Int.{ℤ, pos, negsuc}
use protocol_c.Py.Result.{Result, ok, err, unicode_error, ◌>>=◌}
use protocol_c.Py.Value.{
  Value, null, bool, int, str, arr, obj, Items, nil, cons, Dict, end, field, dict_set, get_or,
  as_dict,
}
use protocol_c.Py.Compare.{py_eq, truthy}
use protocol_c.Py.Env.{Env}
use protocol_c.Curve.{Curve}
use protocol_c.Audit.Lines.{strip}
use protocol_c.Package.{verify}

-- What ends a line for `str.splitlines`. After `\r\n` there is an empty line here, which is dropped
-- with the other lines of white space.
unfoldable pub ends_line : ℕ → Bool
ends_line c = (leb 10 c && leb c 13) || (leb 28 c && leb c 30) || c == 133 || c == 8232 || c == 8233

-- `text.splitlines()`, with an empty line at the end of a text that ends a line.
unfoldable pub split_lines : Text → List Text
unfolding ends_line
split_lines [] = [] ∷ []
split_lines (c ∷ cs) =
    let rest = split_lines cs in
    if ends_line c then [] ∷ rest else (elim rest [ [] ↦ (c ∷ []) ∷ [] | l ∷ ls ↦ (c ∷ l) ∷ ls ])

-- `[l for l in lines if l.strip()]`
unfoldable pub filled_lines : List Text → List Text
unfolding strip
filled_lines [] = []
filled_lines (l ∷ ls) =
    let rest = filled_lines ls in elim (strip l) [ [] ↦ rest | c ∷ cs ↦ l ∷ rest ]

-- `json.loads(line)`, or the record of a line that it refuses.
unfoldable pub entry_of : Env → Text → Value
entry_of e line = elim (e.loads line) [
  | none ↦ obj (field "_corrupt" (bool true) (field "raw" (str (take 80 line)) end))
  | some v ↦ v
]

unfoldable pub entries_of : Env → List Text → List Value
unfolding entry_of
entries_of e [] = []
entries_of e (l ∷ ls) = entry_of e l ∷ entries_of e ls

-- The filter of `--type`.
unfoldable pub of_type : Text → List Value → Result (List Value)
of_type wanted [] = ok []
of_type wanted (v ∷ vs) = do
  d ← as_dict v
  rest ← of_type wanted vs
  ok (
      if py_eq (get_or d "phase" null) (str wanted)
        || py_eq (get_or d "record_type" null) (str wanted)
      then v ∷ rest
      else rest)

-- `if args.type:` the filter
unfoldable pub filtered : Option Text → List Value → Result (List Value)
unfolding of_type
filtered none vs = ok vs
filtered (some []) vs = ok vs
filtered (some (c ∷ cs)) vs = of_type (c ∷ cs) vs

-- `if args.tail: entries[-args.tail:]`: the last ones, and of a negative number all but the first
-- ones.
unfoldable pub tailed : Option ℤ → List Value → List Value
tailed none vs = vs
tailed (some (pos zero)) vs = vs
tailed (some (pos (suc n))) vs = drop (length vs - suc n) vs
tailed (some (negsuc n)) vs = drop (suc n) vs

-- The arguments of the command.
pub record LogsArgs : Type 0 where
  pub log : Option Text
  pub type_filter : Option Text
  pub tail : Option ℤ
  pub check : Bool

-- `args.log or DEFAULT_CONFIG["audit_log"]`
unfoldable pub log_path : Option Text → Text
log_path none = codes "audit/audit.jsonl"
log_path (some []) = codes "audit/audit.jsonl"
log_path (some (t ∷ ts)) = t ∷ ts

-- The entries as they are printed without `--verify`.
unfoldable pub shown : List Value → Items
shown [] = nil
shown (v ∷ vs) = cons v (shown vs)

-- The entries that are shown.
unfoldable pub selected : Env → LogsArgs → Text → Result (List Value)
unfolding filtered tailed entries_of filled_lines split_lines
selected e args text = do
  kept ← filtered args.type_filter (entries_of e (filled_lines (split_lines text)))
  ok (tailed args.tail kept)

-- What is signed in an entry: its data, else its commitment, else the entry.
abbrev pub signed_part : Dict → Value
signed_part d = get_or d "data" (get_or d "commitment" (obj d))

abbrev pub is_rotation : Dict → Bool
is_rotation d = py_eq (get_or d "phase" null) (str (codes "LOG_ROTATION"))

-- What `_cmd_logs` prints.
abbrev pub logs_report : LogsArgs → ℕ → Items → ℕ → Dict
logs_report args count printed invalid = field "log" (str (log_path args.log)) (
    field "count" (int (pos count))
      (field "invalid" (int (pos invalid)) (field "entries" (arr printed) end)))

module _ (e : Env) (c : Curve) where
  -- `bool(sig) and verify(data, sig)`
  unfoldable pub entry_accepted : Dict → Bool
  unfolding verify truthy get_or
  entry_accepted d =
      let sig = get_or d "signature" null in truthy sig && verify e c (signed_part d) sig

  -- One round of the loop of `--verify`: the entry with its mark, and whether it counts as invalid.
  unfoldable pub mark : Dict → Value × Bool
  unfolding entry_accepted
  mark d =
      if is_rotation d
      then (obj (dict_set d "_verified" (str (codes "skipped"))), false)
      else (obj (dict_set d "_verified" (bool (entry_accepted d))), not (entry_accepted d))

  -- The loop: the marked entries and the number of invalid ones.
  unfoldable pub mark_all : List Value → Result (Items × ℕ)
  unfolding mark
  mark_all [] = ok (nil, 0)
  mark_all (v ∷ vs) = do
    d ← as_dict v
    (marked, invalid) ← mark_all vs
    ok (cons (mark d).0 marked, if (mark d).1 then invalid + 1 else invalid)

  -- `_cmd_logs`, on the bytes of the file, none where there is no such file. The report is none where
  -- only an error is printed.
  unfoldable pub cmd_logs : LogsArgs → Option Bytes → Result (Option Dict × ℕ)
  unfolding selected mark_all shown log_path
  cmd_logs args none = ok (none, 2)
  cmd_logs args (some file) = do
    text ← elim (e.decode file) [ none ↦ err unicode_error | some t ↦ ok t ]
    entries ← selected e args text
    (printed, invalid) ← if args.check then mark_all entries else ok (shown entries, 0)
    ok (some (logs_report args (length entries) printed invalid), if invalid == 0 then 0 else 1)
