-- ===== src/Identity/Format.antt =====
-- The keys that `register` accepts.
use protocol_c.Prelude.{
  ℕ, zero, suc, ◌+◌, ◌≡◌, refl, ap, ◌∙◌, true, [], ◌∷◌, ◌++◌, Text, length, arith, ◌⊎◌, inl, inr,
}
use protocol_c.Py.Result.{ok}
use protocol_c.Identity.Laws.{register-parts}
use protocol_c.Identity.{
  AccountKeyRegistry, add_key, lower, lower_char, hex_then_end, matches_pubkey, register,
}

length-hex_then_end :
    (n : ℕ) (t : Text) → hex_then_end n t ≡ true → (length t ≡ n) ⊎ (length t ≡ n + 1)
unfolding hex_then_end
length-hex_then_end zero [] h = inl refl
length-hex_then_end zero (c ∷ []) h = inr (omega arith)
length-hex_then_end zero (c ∷ d ∷ cs) h = cc
length-hex_then_end (suc n) [] h = cc
length-hex_then_end (suc n) (c ∷ cs) h = ground (arith, length-hex_then_end n cs)

hex_then_end-newline :
    (n : ℕ) (t : Text)
    → hex_then_end n t ≡ true
    → length t ≡ n
    → hex_then_end n (t ++ 10 ∷ []) ≡ true
unfolding hex_then_end
hex_then_end-newline zero [] h e = refl
hex_then_end-newline zero (c ∷ cs) h e = absurd (omega arith)
hex_then_end-newline (suc n) [] h e = cc
hex_then_end-newline (suc n) (c ∷ cs) h e = ground (arith, hex_then_end-newline n cs)

matches_pubkey-newline :
    (k : Text) → matches_pubkey k ≡ true → length k ≡ 66 → matches_pubkey (k ++ 10 ∷ []) ≡ true
unfolding matches_pubkey
matches_pubkey-newline [] h e = cc
matches_pubkey-newline (a ∷ []) h e = cc
matches_pubkey-newline (a ∷ b ∷ cs) h e = ground (arith, hex_then_end-newline 64 cs)

-- A key that the pattern accepts has 66 characters, or 67.
length-matches_pubkey : (k : Text) → matches_pubkey k ≡ true → (length k ≡ 66) ⊎ (length k ≡ 67)
unfolding matches_pubkey
length-matches_pubkey [] h = cc
length-matches_pubkey (a ∷ []) h = cc
length-matches_pubkey (a ∷ b ∷ cs) h = ground (arith, length-hex_then_end 64 cs)

lower-append : (s t : Text) → lower (s ++ t) ≡ lower s ++ lower t
unfolding lower
lower-append [] t = refl
lower-append (c ∷ cs) t = ap (λ r. lower_char c ∷ r) (lower-append cs t)

length-lower : (t : Text) → length (lower t) ≡ length t
unfolding lower
length-lower [] = refl
length-lower (c ∷ cs) = ground (arith, length-lower cs)

-- If `register` returns for a key of 66 characters, it also returns for that key with a newline
-- at its end, and then stores the longer text.
pub register-newline :
    (r r' : AccountKeyRegistry) (a k : Text)
    → length k ≡ 66
    → register r a k ≡ ok r'
    → register r a (k ++ 10 ∷ [])
      ≡ ok (record { authorized = add_key a (lower k ++ 10 ∷ []) r.authorized })
unfolding register lower
register-newline r r' a k e h =
    let (named, formed, _) = register-parts r r' a k h in
    rw
      (
        named,
        lower-append k (10 ∷ []),
        matches_pubkey-newline (lower k) formed (length-lower k ∙ e),
      )
      refl
