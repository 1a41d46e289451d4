-- ===== src/Audit/Lines.antt =====
-- Lines of the file, as bytes and as text.
use protocol_c.Prelude.{
  ℕ, Bool, ◌&&◌, ◌||◌, List, [], ◌∷◌, Text, Bytes, drop, leb, ◌==◌, if◌then◌else◌,
}

-- `readline` of a binary file: up to the newline, and with it.
unfoldable pub readline : Bytes → Bytes
readline [] = []
readline (b ∷ bs) = let rest = readline bs in if b == 10 then b ∷ [] else b ∷ rest

-- `seek(offset)` and `readline()`
unfoldable pub line_at : ℕ → Bytes → Bytes
unfolding readline
line_at offset file = readline (drop offset file)

-- A byte in front of the first line.
abbrev onto_first : ℕ → List Bytes → List Bytes
onto_first b [] = (b ∷ []) ∷ []
onto_first b (l ∷ ls) = (b ∷ l) ∷ ls

-- The lines of a binary file with their newlines.
unfoldable pub raw_lines : Bytes → List Bytes
raw_lines [] = []
raw_lines (b ∷ bs) =
    let rest = raw_lines bs in if b == 10 then (b ∷ []) ∷ rest else onto_first b rest

-- The lines of a text file. The newlines `\r`, `\n` and `\r\n` end one; here `\r\n` ends one line
-- and an empty one, which the reader skips.
unfoldable pub text_lines : Text → List Text
text_lines [] = []
text_lines (c ∷ cs) =
    let rest = text_lines cs in if c == 10 || c == 13 then (c ∷ []) ∷ rest else onto_first c rest

-- `c.isspace()`
unfoldable pub is_space : ℕ → Bool
is_space c =
    (leb 9 c && leb c 13)
    || (leb 28 c && leb c 32)
    || c == 133
    || c == 160
    || c == 5760
    || (leb 8192 c && leb c 8202)
    || c == 8232
    || c == 8233
    || c == 8239
    || c == 8287
    || c == 12288

-- `lstrip`
unfoldable pub lstrip : Text → Text
unfolding is_space
lstrip [] = []
lstrip (c ∷ cs) = let rest = lstrip cs in if is_space c then rest else c ∷ cs

-- `rstrip`: a space goes if nothing is left behind it.
unfoldable pub rstrip : Text → Text
unfolding is_space
rstrip [] = []
rstrip (c ∷ cs) = elim (rstrip cs) [ [] ↦ if is_space c then [] else c ∷ [] | d ∷ ds ↦ c ∷ d ∷ ds ]

-- `strip`
unfoldable pub strip : Text → Text
unfolding lstrip rstrip
strip t = rstrip (lstrip t)
