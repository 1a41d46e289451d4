-- ===== src/Cli/Limited.antt =====
-- Reading in chunks is reading at once, up to the limit.
use protocol_c.Prelude.{
  ℕ, zero, suc, ◌+◌, ◌≤◌, ◌<◌, ◌≡◌, refl, ap, ◌∙◌, true, false, [], ◌∷◌, ◌++◌, Text, length, take,
  drop, leb, ltb, Bool-cases, inl, inr, ◌⊎◌, if◌then◌else◌, arith,
}
use protocol_c.Py.Result.{ok, err, value_error}
use protocol_c.Cli.{read_chunks, read_limited}

take-append-drop : (n : ℕ) (t : Text) → take n t ++ drop n t ≡ t
take-append-drop zero t = refl
take-append-drop (suc n) [] = refl
take-append-drop (suc n) (c ∷ cs) = ap (λ (rest : Text). c ∷ rest) (take-append-drop n cs)

length-take-drop : (n : ℕ) (t : Text) → length (take n t) + length (drop n t) ≡ length t
length-take-drop zero t = omega arith
length-take-drop (suc n) [] = refl
length-take-drop (suc n) (c ∷ cs) = omega (arith, length-take-drop n cs)

-- What the loop reads: all of the stream, or more than the limit.
abbrev Reads : ℕ → ℕ → Text → ℕ → Text → Type 0
Reads max_bytes total stream t s =
    ((t ≤ max_bytes) × (t ≡ total + length stream) × (s ≡ stream))
    ⊎ ((max_bytes < t) × (t ≤ total + length stream))

read_chunks-Reads :
    (fuel max_bytes total : ℕ) (stream : Text)
    → length stream < fuel
    → (t : ℕ) × (s : Text) × (read_chunks fuel max_bytes total stream ≡ ok (t, s))
      × Reads max_bytes total stream t s
unfolding read_chunks
read_chunks-Reads zero max_bytes total stream h = ground (arith, h)
read_chunks-Reads (suc fuel) max_bytes total [] h = elim (Bool-cases (leb total max_bytes)) [
  | inr over ↦ (total, [], rw (read_chunks, over) refl, inr (ground (arith, over), omega arith))
  | inl within ↦
      (total, [], rw (read_chunks, within) refl, inl (ground (arith, within), omega arith, refl))
]
read_chunks-Reads (suc fuel) max_bytes total (c ∷ cs) h = elim (Bool-cases (leb total max_bytes)) [
  | inr over ↦ (total, [], rw (read_chunks, over) refl, inr (ground (arith, over), omega arith))
  | inl within ↦
      let shorter = length-take-drop 65535 cs in
      let (t, s, read, reads) =
        read_chunks-Reads fuel max_bytes (total + length (c ∷ take 65535 cs)) (drop 65535 cs)
          (omega (arith, h, shorter)) in
      (
        t,
        (c ∷ take 65535 cs) ++ s,
        rw (read_chunks, within, read) refl,
        elim reads [
          | inl (small, sum, whole) ↦ inl (
            small,
            omega (arith, sum, shorter),
            ap (λ (r : Text). (c ∷ take 65535 cs) ++ r) whole
                ∙ ap (λ (r : Text). c ∷ r) (take-append-drop 65535 cs),
          )
          | inr (large, bound) ↦ inr (large, omega (arith, bound, shorter))
        ],
      )
]

-- With more fuel than the stream has characters, `_read_limited` gives the whole stream if it is no
-- longer than the limit, and raises ValueError if it is.
pub read_limited_lem :
    (fuel max_bytes : ℕ) (stream : Text)
    → length stream < fuel
    → read_limited fuel stream max_bytes
      ≡ (if ltb max_bytes (length stream) then err value_error else ok stream)
unfolding read_limited
read_limited_lem fuel max_bytes stream h =
    let (t, s, read, reads) = read_chunks-Reads fuel max_bytes 0 stream h in
    elim reads [
      | inl (small, sum, whole) ↦
          let fits : ltb max_bytes t ≡ false = ground (arith, small) in
          let short : ltb max_bytes (length stream) ≡ false = ground (arith, small, sum) in
          rw (read_limited, read, fits, short) (ap ok whole)
      | inr (large, bound) ↦
          let over : ltb max_bytes t ≡ true = ground (arith, large) in
          let long : ltb max_bytes (length stream) ≡ true = ground (arith, large, bound) in
          rw (read_limited, read, over, long) refl
    ]
