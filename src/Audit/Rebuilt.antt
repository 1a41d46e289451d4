-- ===== src/Audit/Rebuilt.antt =====
-- A log reopened after its database is lost: the index is built anew from the file.
use native.Mathlib.Nat.{zero-add}
use mathlib.Core.List.{append_assoc, append-nil}
use protocol_c.Prelude.{
  ℕ, ◌+◌, ◌≡◌, refl, sym, ap, ap₂, ◌∙◌, true, List, [], ◌∷◌, ◌++◌, Bytes, length, length-append,
  All, arith, ltb, ◌&&◌, if◌then◌else◌,
}
use protocol_c.Prelude.Int.{ℤ}
use protocol_c.Py.Result.{Result, ok, ◌>>=◌, >>=-cong, >>=-assoc, >>=-ok}
use protocol_c.Py.Env.{Env}
use protocol_c.Audit.{AuditEntry, AuditLog, Row, megabytes, index_entry}
use protocol_c.Audit.Lines.{raw_lines}
use protocol_c.Audit.Append.{line_of}
use protocol_c.Audit.Rebuild.{rebuild, count_lines, open_log}
use protocol_c.Audit.History.{file_of, index_of, Holds}
use protocol_c.Audit.Rebuildable.{IsRebuildable, raw_lines-line, index_entry-sorted}
use protocol_c.Audit.Flows.{entry_from_dict-reread}

module _ (e : Env) where
  -- The files and the indexes of entries in the order of writing.
  abbrev lines_of : List AuditEntry → List Bytes
  lines_of [] = []
  lines_of (x ∷ xs) = line_of e x ∷ lines_of xs

  abbrev joined : List AuditEntry → Bytes
  joined [] = []
  joined (x ∷ xs) = line_of e x ++ joined xs

  abbrev index_from : ℕ → ℕ → List AuditEntry → List Row → Result (List Row)
  index_from offset n [] rows = ok rows
  index_from offset n (x ∷ xs) rows = index_entry e x offset n rows >>= λ rows'.
      index_from (offset + length (line_of e x)) (n + 1) xs rows'

  -- The entries of a history in the order of writing.
  abbrev in_order : List AuditEntry → List AuditEntry
  in_order [] = []
  in_order (x ∷ earlier) = in_order earlier ++ x ∷ []

  raw_lines-joined :
      (xs : List AuditEntry) → All (IsRebuildable e) xs → raw_lines (joined xs) ≡ lines_of xs
  unfolding raw_lines
  raw_lines-joined [] _ = refl
  raw_lines-joined (x ∷ xs) (ready, all) =
      ap raw_lines (
        ap (λ (l : Bytes). l ++ joined xs) ready.written
        ∙ append_assoc ready.body (10 ∷ []) (joined xs))
      ∙ raw_lines-line ready.body (joined xs) ready.one_line
      ∙ ap₂ ◌∷◌ (sym ready.written) (raw_lines-joined xs all)

  rebuild-lines_of :
      (xs : List AuditEntry) (offset n : ℕ) (rows : List Row)
      → All (IsRebuildable e) xs
      → rebuild e offset n (lines_of xs) rows ≡ index_from offset n xs rows
  unfolding rebuild
  rebuild-lines_of [] offset n rows _ = refl
  rebuild-lines_of (x ∷ xs) offset n rows (ready, all) =
      rw
        (
          rebuild,
          ready.decoded,
          ready.stripped,
          ready.loaded,
          entry_from_dict-reread x,
          index_entry-sorted e x offset n rows ready,
        )
        (>>=-cong (index_entry e x offset n rows)
          λ rows'. rebuild-lines_of xs (offset + length (line_of e x)) (n + 1) rows' all)

  All-append :
      (xs : List AuditEntry) (x : AuditEntry)
      → All (IsRebuildable e) xs
      → IsRebuildable e x
      → All (IsRebuildable e) (xs ++ x ∷ [])
  All-append [] x _ ready = (ready, tt)
  All-append (y ∷ xs) x (first, all) ready = (first, All-append xs x all ready)

  -- Lines behind others.
  index_from-append :
      (xs : List AuditEntry) (x : AuditEntry) (offset n : ℕ) (rows : List Row)
      → index_from offset n (xs ++ x ∷ []) rows ≡ (
          index_from offset n xs rows >>= λ rows'.
          index_entry e x (offset + length (joined xs)) (n + length xs) rows')
  index_from-append [] x offset n rows =
      >>=-ok (index_entry e x offset n rows)
      ∙ ap₂ (λ o m. index_entry e x o m rows) (omega arith) (omega arith)
  index_from-append (y ∷ xs) x offset n rows =
      >>=-cong (index_entry e y offset n rows) (λ rows'.
        index_from-append xs x (offset + length (line_of e y)) (n + 1) rows'
        ∙ >>=-cong (index_from (offset + length (line_of e y)) (n + 1) xs rows') λ rows''.
          ap₂ (λ o m. index_entry e x o m rows'')
            (omega (arith, length-append (line_of e y) (joined xs))) (omega arith))
      ∙ sym (>>=-assoc (index_entry e y offset n rows) _ _)

  joined-append :
      (xs : List AuditEntry) (x : AuditEntry) → joined (xs ++ x ∷ []) ≡ joined xs ++ line_of e x
  joined-append [] x = append-nil (line_of e x)
  joined-append (y ∷ xs) x =
      ap (λ (f : Bytes). line_of e y ++ f) (joined-append xs x)
      ∙ sym (append_assoc (line_of e y) (joined xs) (line_of e x))

  joined-in_order : (h : List AuditEntry) → joined (in_order h) ≡ file_of e h
  joined-in_order [] = refl
  joined-in_order (x ∷ earlier) =
      joined-append (in_order earlier) x
      ∙ ap (λ (f : Bytes). f ++ line_of e x) (joined-in_order earlier)

  length-in_order : (h : List AuditEntry) → length (in_order h) ≡ length h
  length-in_order [] = refl
  length-in_order (x ∷ earlier) =
      omega (arith, length-append (in_order earlier) (x ∷ []), length-in_order earlier)

  index_from-in_order : (h : List AuditEntry) → index_from 0 0 (in_order h) [] ≡ index_of e h
  index_from-in_order [] = refl
  index_from-in_order (x ∷ earlier) =
      rw
        (
          index_from-append (in_order earlier) x 0 0 [],
          index_from-in_order earlier,
          joined-in_order earlier,
          length-in_order earlier,
          zero-add (length (file_of e earlier)),
          zero-add (length earlier),
        )
        refl

  All-in_order :
      (h : List AuditEntry) → All (IsRebuildable e) h → All (IsRebuildable e) (in_order h)
  All-in_order [] _ = tt
  All-in_order (x ∷ earlier) (ready, all) =
      All-append (in_order earlier) x (All-in_order earlier all) ready

  index_from-file :
      (h : List AuditEntry)
      → All (IsRebuildable e) h
      → rebuild e 0 0 (raw_lines (file_of e h)) [] ≡ index_of e h
  index_from-file h all =
      let ready = All-in_order h all in
      ap (λ raws. rebuild e 0 0 raws [])
        (ap raw_lines (sym (joined-in_order h)) ∙ raw_lines-joined (in_order h) ready)
      ∙ rebuild-lines_of (in_order h) 0 0 [] ready
      ∙ index_from-in_order h

  length-lines_of : (xs : List AuditEntry) → length (lines_of xs) ≡ length xs
  length-lines_of [] = refl
  length-lines_of (x ∷ xs) = omega (arith, length-lines_of xs)

  count_lines-file :
      (h : List AuditEntry) → All (IsRebuildable e) h → count_lines (file_of e h) ≡ length h
  unfolding count_lines
  count_lines-file h all =
      ap (λ f. length (raw_lines f)) (sym (joined-in_order h))
      ∙ ap length (raw_lines-joined (in_order h) (All-in_order h all))
      ∙ length-lines_of (in_order h)
      ∙ length-in_order h

  opened_rows :
      (h : List AuditEntry) (log : AuditLog)
      → All (IsRebuildable e) h
      → Holds e h log
      → (if ltb 0 (count_lines log.file) && true
          then rebuild e 0 0 (raw_lines log.file) []
          else ok [])
        ≡ ok log.index
  opened_rows [] log all holds = rw (holds.file_is, count_lines-file [] all) holds.index_is
  opened_rows (x ∷ earlier) log all holds =
      let more : ltb 0 (length (x ∷ earlier)) ≡ true = ground arith in
      rw (holds.file_is, count_lines-file (x ∷ earlier) all, more)
        (index_from-file (x ∷ earlier) all ∙ holds.index_is)

  -- Opening the file of a log that holds a history of rebuildable entries, with an empty database,
  -- gives that log again, with the maximal size that is asked for.
  pub open_log-rebuilt :
      (h : List AuditEntry) (log : AuditLog) (mb : ℤ)
      → All (IsRebuildable e) h
      → Holds e h log
      → open_log e log.stem log.file [] mb log.archives
        ≡ ok (record log { max_file_size = megabytes mb })
  unfolding open_log
  open_log-rebuilt h log mb all holds =
      ap₂
        (λ (rows : Result (List Row)) (n : ℕ). rows >>= λ index.
          ok (record log { index = index; line_count = n; max_file_size = megabytes mb }))
        (opened_rows h log all holds)
        (ap count_lines holds.file_is ∙ count_lines-file h all ∙ sym holds.count_is)
