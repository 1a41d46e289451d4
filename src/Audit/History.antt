-- ===== src/Audit/History.antt =====
-- A log that holds a history: the file is its lines and the index its rows. The latest entry comes
-- first.
use protocol_c.Prelude.{
  ◌+◌, ◌≡◌, refl, ap, Bool, true, false, not, ◌||◌, if-eq, Option, none, some, List, [], ◌∷◌, ◌++◌,
  Text, Bytes, length, text_eq, ◌==◌, arith, subst, inl, inr, if◌then◌else◌,
}
use protocol_c.Py.Result.{Result, ok, err, ◌>>=◌, Result-cases}
use protocol_c.Py.Value.{Value, obj, str}
use protocol_c.Py.Compare.{py_eq}
use protocol_c.Py.Sorted.{sort_keys}
use protocol_c.Py.Env.{Env}
use protocol_c.Audit.{
  AuditEntry, AuditLog, Row, log_rotation, entry_to_json, index_entry, record_id_of,
}
use protocol_c.Audit.Append.{RotationTime, line_of, is_full, write, rotate, rotation_entry, append}
use protocol_c.Audit.Read.{parse_line}

-- Whether a byte is a newline somewhere.
abbrev pub has_newline : Bytes → Bool
has_newline [] = false
has_newline (b ∷ bs) = if b == 10 then true else has_newline bs

-- The JSON of an entry as it is read back.
abbrev pub reread : AuditEntry → Value
reread x = sort_keys (obj (entry_to_json x))

-- `json` and UTF-8 as documented, at one entry: its line has one newline, at the end, and reading
-- the line gives the entry with its keys sorted.
pub record IsReadable (e : Env) (x : AuditEntry) : Type 0 where
  pub body : Bytes
  pub written : line_of e x ≡ body ++ 10 ∷ []
  pub one_line : has_newline body ≡ false
  pub parsed : parse_line e (body ++ 10 ∷ []) ≡ ok (reread x)

module _ (e : Env) where
  abbrev pub file_of : List AuditEntry → Bytes
  file_of [] = []
  file_of (x ∷ earlier) = file_of earlier ++ line_of e x

  abbrev pub index_of : List AuditEntry → Result (List Row)
  index_of [] = ok []
  index_of (x ∷ earlier) =
      index_of earlier >>= λ rows. index_entry e x (length (file_of earlier)) (length earlier) rows

  -- The latest entry with a record id.
  abbrev pub latest : Text → List AuditEntry → Option AuditEntry
  latest id [] = none
  latest id (x ∷ earlier) = if text_eq (record_id_of e x) id then some x else latest id earlier

  pub record Holds (h : List AuditEntry) (log : AuditLog) : Type 0 where
    pub file_is : log.file ≡ file_of h
    pub index_is : index_of h ≡ ok log.index
    pub count_is : log.line_count ≡ length h

  -- A log that holds a history holds it with the entry on top after a `write` that returns.
  pub write-Holds :
      (h : List AuditEntry) (x : AuditEntry) (log log' : AuditLog)
      → Holds h log
      → write e x log ≡ (ok tt, log')
      → Holds (x ∷ h) log'
  unfolding write
  write-Holds h x log log' holds returned =
      elim (Result-cases (index_entry e x (length log.file) log.line_count log.index)) [
        | inl (rows, indexed) ↦
            let same : record log {
              file = log.file ++ line_of e x;
              index = rows;
              line_count = log.line_count + 1;
            }
                ≡ log' =
              ap (λ (p : Result (Unit {0}) × AuditLog). p.1) (rw (indexed, write) at returned) in
            subst (Holds (x ∷ h)) same (record {
              file_is = ap (λ (f : Bytes). f ++ line_of e x) holds.file_is;
              index_is = rw (holds.index_is, ← holds.file_is, ← holds.count_is) indexed;
              count_is = omega (arith, holds.count_is);
            })
        | inr (exn, refused) ↦ cc (rw (refused, write) at returned)
      ]

  -- Whether `append` goes on in the same file.
  abbrev pub stays : AuditEntry → AuditLog → Bool
  stays x log = py_eq x.phase (str log_rotation) || not (is_full log)

  -- The entry that a rotation of a log writes.
  abbrev pub opening : RotationTime → AuditLog → AuditEntry
  opening t log = rotation_entry e t (log.stem ++ (b'_' ∷ t.suffix))

  -- The history after an `append`: a rotation begins a new one.
  abbrev pub history_after :
      RotationTime → AuditEntry → AuditLog → List AuditEntry → List AuditEntry
  history_after t x log h = if stays x log then x ∷ h else x ∷ opening t log ∷ []

  rotate-Holds :
      (t : RotationTime) (log log' : AuditLog)
      → rotate e t log ≡ (ok tt, log')
      → Holds (opening t log ∷ []) log'
  unfolding rotate
  rotate-Holds t log log' returned =
      write-Holds [] (opening t log) _ log'
        (record { file_is = refl; index_is = refl; count_is = refl }) returned

  append-rotated :
      (x : AuditEntry) (rotated : Result (Unit {0}) × AuditLog) (log' : AuditLog)
      → (elim rotated.0 [ err exn ↦ (err exn, rotated.1) | ok _ ↦ write e x rotated.1 ])
        ≡ (ok tt, log')
      → (rotated ≡ (ok tt, rotated.1)) × (write e x rotated.1 ≡ (ok tt, log'))
  append-rotated x (ok tt, l) log' h = (refl, h)
  append-rotated x (err exn, l) log' h = cc

  -- An `append` that returns keeps the log in step: its file is the lines of its history, its index
  -- the rows, and its count the number of lines, where a rotation begins a history of its own.
  pub append-Holds :
      (t : RotationTime) (h : List AuditEntry) (x : AuditEntry) (log log' : AuditLog)
      → Holds h log
      → append e t x log ≡ (ok tt, log')
      → Holds (history_after t x log h) log'
  unfolding append
  append-Holds t h x log log' holds returned = elim (if-eq (stays x log) _ _ _ returned) [
    | inl (same, written) ↦ rw same (write-Holds h x log log' holds written)
    | inr (new, rest) ↦
        let (rotated, written) = append-rotated x (rotate e t log) log' rest in
        rw new (
          write-Holds (opening t log ∷ []) x (rotate e t log).1 log'
            (rotate-Holds t log (rotate e t log).1 rotated) written)
  ]
