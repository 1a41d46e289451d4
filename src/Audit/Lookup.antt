-- ===== src/Audit/Lookup.antt =====
-- What the index finds: the latest entry of a record id.
use protocol_c.Prelude.{
  ℕ, ◌≡◌, refl, sym, ap, ◌∙◌, true, Option, none, some, List, [], ◌∷◌, ◌++◌, Text, Bytes, length,
  drop, All, text_eq, subst, inl, inr, ◌⊎◌, if◌then◌else◌, Bool-cases,
}
use mathlib.Core.Option.{map as Option-map}
use protocol_c.Py.Result.{ok, err, >>=-eq-ok}
use protocol_c.Py.Value.{Value, obj, get_or, null}
use protocol_c.Py.Convert.{to_float}
use protocol_c.Py.Hex.{hex}
use protocol_c.Py.Env.{Env}
use protocol_c.Audit.{
  AuditEntry, AuditLog, Row, row_with, replace_row, index_entry, record_id_of, required_text,
  required_number, nullable_text,
}
use protocol_c.Audit.Lines.{readline, line_at}
use protocol_c.Audit.Append.{line_of}
use protocol_c.Audit.Read.{parse_line, record_at, get_by_id}
use protocol_c.Audit.History.{has_newline, reread, IsReadable, file_of, index_of, latest, Holds}
use protocol_c.Audit.Rows.{
  row_with-replace_row, has_newline-append, has_newline-last, readline-body, drop-append-ended,
  drop-length, line_at-append,
}

module _ (e : Env) where
  -- The row that indexing an entry puts.
  pub index_entry-parts :
      (x : AuditEntry) (offset n : ℕ) (rows rows' : List Row)
      → index_entry e x offset n rows ≡ ok rows'
      → (r : Row) × (rows' ≡ replace_row r rows)
        × (r.record_id ≡ record_id_of e x)
        × (r.jsonl_offset ≡ offset)
  unfolding index_entry
  index_entry-parts x offset n rows rows' h =
      let (seconds, _, h1) = >>=-eq-ok (to_float e x.timestamp) _ h in
      let (record_type, _, h2) = >>=-eq-ok (required_text e x.phase) _ h1 in
      let (timestamp, _, h3) = >>=-eq-ok (required_number seconds) _ h2 in
      let (method, _, h4) =
        >>=-eq-ok (nullable_text e (get_or x.payload "seed_measurement_method" null)) _ h3 in
      (
        record {
          record_id = record_id_of e x;
          record_type = record_type;
          timestamp = timestamp;
          decision_hash = hex (e.sha256 (e.encode (e.dumps (obj x.payload))));
          seed_method = method;
          jsonl_offset = offset;
          jsonl_line = n;
        },
        sym (cc h4),
        refl,
        refl,
      )

  -- The record of a line.
  abbrev record_of : Bytes → Option Value
  record_of [] = none
  record_of (b ∷ bs) = elim (parse_line e (b ∷ bs)) [ err _ ↦ none | ok v ↦ some v ]

  record_at-record_of : (n : ℕ) (file : Bytes) → record_at e n file ≡ record_of (line_at n file)
  unfolding record_at
  record_at-record_of n file = elim (line_at n file) [ [] ↦ refl | b ∷ bs ↦ refl ]

  record_of-body :
      (body : Bytes) (v : Value)
      → parse_line e (body ++ 10 ∷ []) ≡ ok v
      → record_of (body ++ 10 ∷ []) ≡ some v
  record_of-body [] v h = rw (record_of, h) refl
  record_of-body (b ∷ bs) v h = rw (record_of, h) refl

  line_at-line :
      (x : AuditEntry) (a : Bytes) (readable : IsReadable e x)
      → line_at (length a) (a ++ line_of e x) ≡ readable.body ++ 10 ∷ []
  unfolding line_at
  line_at-line x a readable =
      ap readline (drop-length a (line_of e x) ∙ readable.written)
      ∙ readline-body readable.body readable.one_line

  record_at-line :
      (x : AuditEntry) (a : Bytes)
      → IsReadable e x
      → record_at e (length a) (a ++ line_of e x) ≡ some (reread x)
  record_at-line x a readable =
      record_at-record_of (length a) (a ++ line_of e x)
      ∙ ap record_of (line_at-line x a readable)
      ∙ record_of-body readable.body (reread x) readable.parsed

  record_at-append :
      (n : ℕ) (a b : Bytes)
      → has_newline (drop n a) ≡ true
      → record_at e n (a ++ b) ≡ record_at e n a
  record_at-append n a b h =
      record_at-record_of n (a ++ b)
      ∙ ap record_of (line_at-append n a b h)
      ∙ sym (record_at-record_of n a)

  line-ended :
      (x : AuditEntry) (a : Bytes)
      → IsReadable e x
      → has_newline (drop (length a) (a ++ line_of e x)) ≡ true
  line-ended x a readable =
      ap has_newline (drop-length a (line_of e x) ∙ readable.written)
      ∙ has_newline-last readable.body

  -- The row of an id, and the latest entry of it.
  abbrev Agrees : Text → List AuditEntry → List Row → Type 0
  Agrees i h rows =
      ((row_with i rows ≡ none) × (latest e i h ≡ none))
      ⊎ ((r : Row) × (x : AuditEntry) × (row_with i rows ≡ some r)
          × (latest e i h ≡ some x)
          × (has_newline (drop r.jsonl_offset (file_of e h)) ≡ true)
          × (record_at e r.jsonl_offset (file_of e h) ≡ some (reread x)))

  row_with-nothing : (rows : List Row) (i : Text) → index_of e [] ≡ ok rows → row_with i rows ≡ none
  unfolding row_with
  row_with-nothing rows i h =
      let nothing : [] ≡ rows = cc h in subst (λ q. row_with i q ≡ none) nothing refl

  -- One more entry, whose row is put.
  put-Agrees :
      (x : AuditEntry) (earlier : List AuditEntry) (before rows : List Row) (r : Row) (i : Text)
      → IsReadable e x
      → rows ≡ replace_row r before
      → r.record_id ≡ record_id_of e x
      → r.jsonl_offset ≡ length (file_of e earlier)
      → Agrees i earlier before
      → Agrees i (x ∷ earlier) rows
  put-Agrees x earlier before rows r i readable built named at agrees =
      let file = file_of e earlier in
      let row : row_with i rows
          ≡ (if text_eq (record_id_of e x) i then some r else row_with i before) =
        ap (row_with i) built
        ∙ row_with-replace_row r i before
        ∙ ap (λ t. if text_eq t i then some r else row_with i before) named in
      elim (Bool-cases (text_eq (record_id_of e x) i)) [
        | inl mine ↦ inr (
          r,
          x,
          rw mine at row,
          rw mine refl,
          rw at (line-ended x file readable),
          rw at (record_at-line x file readable),
        )
        | inr other ↦ elim agrees [
          | inl (absent, never) ↦ inl ((rw other at row) ∙ absent, rw other never)
          | inr (q, y, found, last, ended, read) ↦ inr (
            q,
            y,
            (rw other at row) ∙ found,
            rw other last,
            ap has_newline (drop-append-ended q.jsonl_offset file (line_of e x) ended)
                ∙ has_newline-append (drop q.jsonl_offset file) (line_of e x) ended,
            record_at-append q.jsonl_offset file (line_of e x) ended ∙ read,
          )
        ]
      ]

  index_of-Agrees :
      (h : List AuditEntry) (rows : List Row) (i : Text)
      → All (IsReadable e) h
      → index_of e h ≡ ok rows
      → Agrees i h rows
  index_of-Agrees [] rows i _ indexed = inl (row_with-nothing rows i indexed, refl)
  index_of-Agrees (x ∷ earlier) rows i (readable, all) indexed =
      let (before, hb, put) = >>=-eq-ok (index_of e earlier) _ indexed in
      let (r, built, named, at) = index_entry-parts x _ _ before rows put in
      put-Agrees x earlier before rows r i readable built named at
        (index_of-Agrees earlier before i all hb)

  -- A log that holds a history of readable entries finds by an id the latest entry with that record
  -- id, as it is read back, and nothing where the history has none.
  pub get_by_id-latest :
      (h : List AuditEntry) (log : AuditLog) (i : Text)
      → All (IsReadable e) h
      → Holds e h log
      → get_by_id e i log ≡ Option-map reread (latest e i h)
  unfolding get_by_id
  get_by_id-latest h log i readable holds =
      elim (index_of-Agrees h log.index i readable holds.index_is) [
        | inl (absent, never) ↦ rw (get_by_id, absent, never) refl
        | inr (r, x, found, last, _, read) ↦ rw (get_by_id, found, last, holds.file_is) read
      ]
