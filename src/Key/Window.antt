-- ===== src/Key/Window.antt =====
-- The temporal window of a key with the default lifetime.
use protocol_c.Prelude.{
  ℕ, zero, suc, ◌+◌, ◌*◌, ◌<◌, ◌≡◌, refl, ap, ap₂, ◌∙◌, Bool, true, not, ◌∷◌, [], Text, length,
  arith, leb, lt→ltb,
}
use protocol_c.Prelude.Int.{ℤ, pos, ◌+ℤ◌}
use protocol_c.Py.Result.{Result, ok, ◌>>=◌}
use protocol_c.Py.Value.{int, str, Dict}
use protocol_c.Py.Compare.{truthy, py_lt, py_le}
use protocol_c.Py.Integers.{py_lt-pos, py_le-pos}
use protocol_c.Key.{
  Readings, QuantumEphemeralKey, default_key_lifetime_seconds, temporal_window_dict, window_fields,
}
use protocol_c.Key.Derived.{IsDated}

-- The window of a key of an hour.
abbrev pub hour_window : ℕ → Dict
hour_window created = window_fields (pos created) (pos created +ℤ default_key_lifetime_seconds)

pub temporal_window_dict-hour :
    (t : Readings) (method : Text) (k : QuantumEphemeralKey)
    → IsDated t method default_key_lifetime_seconds k
    → temporal_window_dict k.seed_commitment ≡ hour_window t.derived_at
unfolding temporal_window_dict
temporal_window_dict-hour t method k (_, _, created, expires, _) = ap₂ window_fields created expires

pub pos-plus : (a b : ℕ) → pos a +ℤ pos b ≡ pos (a + b)
unfolding ◌+ℤ◌
pos-plus a b = ground arith

pub truthy-pos : (n : ℕ) → 0 < n → truthy (int (pos n)) ≡ true
unfolding truthy
truthy-pos zero h = absurd (omega arith)
truthy-pos (suc n) h = refl

pub truthy-wide : (t : Text) (n : ℕ) → length t ≡ suc n → truthy (str t) ≡ true
unfolding truthy
truthy-wide [] n h = absurd (omega arith)
truthy-wide (c ∷ cs) n h = refl

not-leb : (n : ℕ) → not (leb (n + 3600) n) ≡ true
not-leb n = ground arith

-- The key of an hour expires after its creation,
pub hour-later :
    (n : ℕ)
    → (py_le (int (pos n +ℤ default_key_lifetime_seconds)) (int (pos n)) >>= λ late. ok (not late))
      ≡ ok true
hour-later n =
    ap (λ (z : ℤ). py_le (int z) (int (pos n)) >>= λ late. ok (not late)) (pos-plus n 3600)
    ∙ ap (λ (r : Result Bool). r >>= λ late. ok (not late)) (py_le-pos (n + 3600) n)
    ∙ ap ok (not-leb n)

-- and before the earliest attack.
pub hour-safe :
    (n : ℕ)
    → py_lt (int (pos n +ℤ default_key_lifetime_seconds)) (int (pos n +ℤ pos (7 * 24 * 3600)))
      ≡ ok true
hour-safe n =
    ap₂ (λ (x y : ℤ). py_lt (int x) (int y)) (pos-plus n 3600) (pos-plus n 604800)
    ∙ py_lt-pos (n + 3600) (n + 604800)
    ∙ ap ok (lt→ltb (n + 3600) (n + 604800) (omega arith))

pub truthy-plus : (n m : ℕ) → 0 < m → truthy (int (pos n +ℤ pos m)) ≡ true
truthy-plus n m h =
    ap (λ (z : ℤ). truthy (int z)) (pos-plus n m) ∙ truthy-pos (n + m) (omega (arith, h))
