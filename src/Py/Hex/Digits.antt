-- ===== src/Py/Hex/Digits.antt =====
-- Digits: their number, their bounds, and what they stand for.
use native.Mathlib.Nat.{
  mod-lt, mod-eq_of_lt, mod-one, pow-suc, pow-zero, add-mul-mod_self_left, div-add-mod, one-le-pow,
}
use protocol_c.Prelude.{
  ℕ, zero, suc, ◌+◌, ◌*◌, ◌/◌, ◌%◌, ◌^◌, ◌<◌, ◌≡◌, refl, sym, ap, ◌∙◌, subst, some, List, [], ◌∷◌,
  ◌++◌, Bytes, length, All, length-append, arith, ltb, ltb→lt, Bool-cases, inl, inr,
}
use protocol_c.Py.Hex.{from_bytes, from_bytes_onto, low_digits, to_bytes_32, hex}

-- The number that a list of digits stands for, to any base.
abbrev pub value_onto : ℕ → ℕ → List ℕ → ℕ
value_onto b acc [] = acc
value_onto b acc (d ∷ ds) = value_onto b (acc * b + d) ds

value_onto-snoc :
    (b acc : ℕ) (ds : List ℕ) (d : ℕ)
    → value_onto b acc (ds ++ d ∷ []) ≡ value_onto b acc ds * b + d
value_onto-snoc b acc [] d = refl
value_onto-snoc b acc (x ∷ ds) d = value_onto-snoc b (acc * b + x) ds d

-- The remainder by a power, by its lowest digit.
mod-pow-suc : (b w n : ℕ) → 0 < b → n % b ^ suc w ≡ n / b % b ^ w * b + n % b
mod-pow-suc b w n h =
    ap (λ (t : ℕ). n % t) (pow-suc b w)
    ∙ ap (λ (t : ℕ). t % (b ^ w * b)) whole
    ∙ add-mul-mod_self_left (n / b % b ^ w * b + n % b) (b ^ w * b) (n / b / b ^ w)
    ∙ mod-eq_of_lt small
  where
    below : n / b % b ^ w < b ^ w
    below = mod-lt (n / b) (one-le-pow w b h)

    small : n / b % b ^ w * b + n % b < b ^ w * b
    small = grind (arith, below, mod-lt n h)

    whole : n ≡ n / b % b ^ w * b + n % b + b ^ w * b * (n / b / b ^ w)
    whole =
        sym (div-add-mod n b)
        ∙ ap (λ (t : ℕ). b * t + n % b) (sym (div-add-mod (n / b) (b ^ w)))
        ∙ grind arith

pub value-low_digits : (b w n : ℕ) → 0 < b → value_onto b 0 (low_digits b w n) ≡ n % b ^ w
unfolding low_digits
value-low_digits b zero n h = rw (pow-zero b, mod-one n)
value-low_digits b (suc w) n h =
    value_onto-snoc b 0 (low_digits b w (n / b)) (n % b)
    ∙ ap (λ (t : ℕ). t * b + n % b) (value-low_digits b w (n / b) h)
    ∙ sym (mod-pow-suc b w n h)

All-append {ℓ κ} :
    {A : Type ℓ} (P : A → Type κ) (xs : List A) (y : A) → All P xs → P y → All P (xs ++ y ∷ [])
All-append P [] y h p = (p, tt)
All-append P (x ∷ xs) y h p = (h.0, All-append P xs y h.1 p)

pub low_digits-lt : (b w n : ℕ) → 0 < b → All (λ d. d < b) (low_digits b w n)
unfolding low_digits
low_digits-lt b zero n h = tt
low_digits-lt b (suc w) n h =
    All-append (λ d. d < b) (low_digits b w (n / b)) (n % b) (low_digits-lt b w (n / b) h)
      (mod-lt n h)

pub length-low_digits : (b w n : ℕ) → length (low_digits b w n) ≡ w
unfolding low_digits
length-low_digits b zero n = refl
length-low_digits b (suc w) n =
    omega
      (arith, length-append (low_digits b w (n / b)) (n % b ∷ []), length-low_digits b w (n / b))

from_bytes_onto-value : (acc : ℕ) (bs : Bytes) → from_bytes_onto acc bs ≡ value_onto 256 acc bs
unfolding from_bytes_onto
from_bytes_onto-value acc [] = refl
from_bytes_onto-value acc (b ∷ bs) = from_bytes_onto-value (acc * 256 + b) bs

pub from_bytes-value : (bs : Bytes) → from_bytes bs ≡ value_onto 256 0 bs
unfolding from_bytes
from_bytes-value bs = from_bytes_onto-value 0 bs

-- `int.from_bytes(n.to_bytes(32, "big"), "big") == n`, where `to_bytes` does not raise.
pub from_bytes-to_bytes : (n : ℕ) (b : Bytes) → to_bytes_32 n ≡ some b → from_bytes b ≡ n
unfolding from_bytes to_bytes_32
from_bytes-to_bytes n b h = elim (Bool-cases (ltb n (2 ^ 256))) [
  | inl small ↦
      let digits_eq : low_digits 256 32 n ≡ b = ground (arith, small) in
      ap from_bytes (sym digits_eq)
      ∙ from_bytes_onto-value 0 (low_digits 256 32 n)
      ∙ value-low_digits 256 32 n (omega arith)
      ∙ mod-eq_of_lt (ltb→lt n (2 ^ 256) small)
  | inr large ↦ ground (arith, large)
]

pub length-to_bytes : (n : ℕ) (b : Bytes) → to_bytes_32 n ≡ some b → length b ≡ 32
unfolding to_bytes_32
length-to_bytes n b h = elim (Bool-cases (ltb n (2 ^ 256))) [
  | inl small ↦
      let digits_eq : low_digits 256 32 n ≡ b = ground (arith, small) in
      ap (λ (t : Bytes). length t) (sym digits_eq) ∙ length-low_digits 256 32 n
  | inr large ↦ ground (arith, large)
]

pub to_bytes-lt : (n : ℕ) (b : Bytes) → to_bytes_32 n ≡ some b → All (λ x. x < 256) b
unfolding to_bytes_32
to_bytes-lt n b h = elim (Bool-cases (ltb n (2 ^ 256))) [
  | inl small ↦
      let digits_eq : low_digits 256 32 n ≡ b = ground (arith, small) in
      subst (All (λ x. x < 256)) digits_eq (low_digits-lt 256 32 n (omega arith))
  | inr large ↦ ground (arith, large)
]

pub length-hex : (bs : Bytes) → length (hex bs) ≡ 2 * length bs
unfolding hex
length-hex [] = omega arith
length-hex (b ∷ bs) = omega (arith, length-hex bs)
