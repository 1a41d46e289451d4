-- ===== src/Audit/Rows.antt =====
-- Rows under their keys, and lines behind others.
use protocol_c.Prelude.{
  ℕ, zero, suc, ◌≡◌, refl, ap, ◌∙◌, true, false, none, some, List, [], ◌∷◌, ◌++◌, Text, Bytes,
  length, drop, text_eq, text_eq_iff, arith, if◌then◌else◌,
}
use protocol_c.Audit.{Row, row_with, rows_without, replace_row}
use protocol_c.Audit.Lines.{readline, line_at}
use protocol_c.Audit.History.{has_newline}

pub row_with-append :
    (id : Text) (rows : List Row) (r : Row)
    → row_with id (rows ++ r ∷ []) ≡ (elim (row_with id rows) [
      | none ↦ if text_eq r.record_id id then some r else none
      | some q ↦ some q
    ])
unfolding row_with
row_with-append id [] r = refl
row_with-append id (q ∷ rows) r = ground (arith, row_with-append id rows r)

pub row_with-rows_without :
    (id j : Text) (rows : List Row)
    → row_with j (rows_without id rows) ≡ (if text_eq id j then none else row_with j rows)
unfolding row_with rows_without
row_with-rows_without id j [] = ground arith
row_with-rows_without id j (q ∷ rows) = ground (
  arith,
  row_with-rows_without id j rows,
  text_eq_iff q.record_id id,
  text_eq_iff q.record_id j,
  text_eq_iff id j,
)

-- A row put under its key is found there, and the others stay.
pub row_with-replace_row :
    (r : Row) (j : Text) (rows : List Row)
    → row_with j (replace_row r rows) ≡ (if text_eq r.record_id j then some r else row_with j rows)
unfolding replace_row
row_with-replace_row r j rows =
    row_with-append j (rows_without r.record_id rows) r
    ∙ ground (arith, row_with-rows_without r.record_id j rows)

-- A line that ends in the file is read the same when more is behind it.
pub readline-append : (a b : Bytes) → has_newline a ≡ true → readline (a ++ b) ≡ readline a
unfolding readline
readline-append [] b h = cc
readline-append (c ∷ cs) b h = ground (arith, readline-append cs b)

pub has_newline-append : (a b : Bytes) → has_newline a ≡ true → has_newline (a ++ b) ≡ true
has_newline-append [] b h = cc
has_newline-append (c ∷ cs) b h = ground (arith, has_newline-append cs b)

pub has_newline-last : (a : Bytes) → has_newline (a ++ 10 ∷ []) ≡ true
has_newline-last [] = refl
has_newline-last (c ∷ cs) = ground (arith, has_newline-last cs)

pub readline-body : (a : Bytes) → has_newline a ≡ false → readline (a ++ 10 ∷ []) ≡ a ++ 10 ∷ []
unfolding readline
readline-body [] h = refl
readline-body (c ∷ cs) h = ground (arith, readline-body cs)

pub drop-append-ended :
    (n : ℕ) (a b : Bytes) → has_newline (drop n a) ≡ true → drop n (a ++ b) ≡ drop n a ++ b
drop-append-ended zero a b h = refl
drop-append-ended (suc n) [] b h = cc
drop-append-ended (suc n) (c ∷ cs) b h = drop-append-ended n cs b h

pub drop-length : (a b : Bytes) → drop (length a) (a ++ b) ≡ b
drop-length [] b = refl
drop-length (c ∷ cs) b = drop-length cs b

pub line_at-append :
    (n : ℕ) (a b : Bytes) → has_newline (drop n a) ≡ true → line_at n (a ++ b) ≡ line_at n a
unfolding line_at
line_at-append n a b h = ap readline (drop-append-ended n a b h) ∙ readline-append (drop n a) b h
