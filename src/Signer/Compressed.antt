-- ===== src/Signer/Compressed.antt =====
-- A compressed public key is read back as the point it was made of.
use protocol_c.Prelude.{
  ℕ, ◌+◌, ◌-◌, ◌*◌, ◌/◌, ◌%◌, ◌^◌, ◌<◌, ◌≡◌, ◌⊎◌, refl, sym, ap, ◌∙◌, subst, ==_iff, true, not,
  none, some, arith, Text, Bytes, length, take, drop, ◌==◌, ◌∷◌, if◌then◌else◌, inl, inr, All,
  Option-cases, Bool-cases,
}
use protocol_c.Prelude.Int.{pos, eqb_ℤ, residue}
use protocol_c.Prelude.Mod.{Cong-mul, Cong-mod, pow-mod}
use protocol_c.Py.Result.{
  Result, ok, err, attribute_error, ◌>>=◌, >>=-eq-ok, guard-eq-ok, runtime_error,
}
use protocol_c.Py.Value.{str}
use protocol_c.Py.Hex.{hex, hex_digit, from_bytes, to_bytes_32, int16}
use protocol_c.Py.Hex.Digits.{length-to_bytes, to_bytes-lt}
use protocol_c.Py.Hex.Parse.{int16-hex}
use protocol_c.Curve.{Curve, Point, MaybePoint}
use protocol_c.Curve.Power.{pow_mod_lem}
use protocol_c.Curve.Inverse.{IsFermat}
use protocol_c.Curve.Root.{square_root_lem}
use protocol_c.Signer.{
  Signer, int_16, to_bytes, right_hand_side, modular_root, decompress, public_key_hex,
}
use protocol_c.Signer.Lifecycle.{to_bytes-value}
use protocol_c.Signer.OnCurve.{IsOnCurve, square_opposite, right_hand_side_lem}

-- The prime of the curve's coordinates.
pub record IsRooted (c : Curve) : Type 0 where
  pub prime : IsFermat c.p
  pub three : c.p % 4 ≡ 3

-- A point with reduced coordinates on the curve, no point of order 2.
pub record IsReduced (c : Curve) (q : Point) : Type 0 where
  pub x : ℕ
  pub y : ℕ
  pub at : q ≡ record { x = pos x; y = pos y }
  pub x_lt : x < c.p
  pub y_pos : 0 < y
  pub y_lt : y < c.p
  pub on_curve : IsOnCurve c q

-- The byte before the coordinate, and how it is read.
abbrev prefix_byte : ℕ → ℕ
prefix_byte y = if y % 2 == 0 then 2 else 3

prefix_lem :
    (y : ℕ) (b : Bytes) → int_16 (str (take 2 (hex (prefix_byte y ∷ b)))) ≡ ok (pos (y % 2 + 2))
unfolding hex hex_digit int16
prefix_lem y b = elim (Bool-cases (y % 2 == 0)) [
  | inl even ↦ rw even (ap (λ (t : ℕ). ok (pos t)) (ground arith))
  | inr odd ↦ rw odd (ap (λ (t : ℕ). ok (pos t)) (ground arith))
]

coordinate_lem :
    (d : ℕ) (b : Bytes)
    → length b ≡ 32
    → All (λ x. x < 256) b
    → int_16 (str (drop 2 (hex (d ∷ b)))) ≡ ok (pos (from_bytes b))
unfolding hex
coordinate_lem d b width small = rw (int_16, int16-hex b (omega arith) small) refl

module _ {c : Curve} (h : IsRooted c) (x y : ℕ) (y_pos : 0 < y) (y_lt : y < c.p)
    (on_curve : IsOnCurve c (record { x = pos x; y = pos y })) where
  right_hand_side-square : right_hand_side c (pos x) ≡ y * y % c.p
  right_hand_side-square =
      right_hand_side_lem c (pos x)
      ∙ sym on_curve
      ∙ Cong-mul c.p (y % c.p) y (y % c.p) y (Cong-mod c.p y) (Cong-mod c.p y)

  modular_root-power : modular_root c (right_hand_side c (pos x)) ≡ (y * y) ^ ((c.p + 1) / 4) % c.p
  modular_root-power =
      ap (modular_root c) right_hand_side-square
      ∙ pow_mod_lem (y * y % c.p) ((c.p + 1) / 4) c.p
      ∙ pow-mod c.p (y * y) ((c.p + 1) / 4)

  -- The square of the root, and the choice by parity.
  root-square : (r : ℕ) → (r ≡ y) ⊎ (r ≡ c.p - y) → r * r % c.p ≡ y * y % c.p
  root-square r (inl same) = rw same refl
  root-square r (inr opposite) = rw opposite (square_opposite c.p y (omega arith))

  chosen_root :
      (r : ℕ)
      → (r ≡ y) ⊎ (r ≡ c.p - y)
      → (if eqb_ℤ (pos (y % 2 + 2)) (pos (r % 2 + 2)) then r else c.p - r) ≡ y
  chosen_root r (inl same) = ground arith
  chosen_root r (inr opposite) = ground (arith, h.three)

  decompress-compressed :
      (b : Bytes)
      → length b ≡ 32
      → All (λ d. d < 256) b
      → from_bytes b ≡ x
      → decompress c (hex (prefix_byte y ∷ b)) ≡ ok (record { x = pos x; y = pos y })
  unfolding decompress
  decompress-compressed b width small value =
      let root = modular_root c (right_hand_side c (pos x)) in
      let choice : (root ≡ y) ⊎ (root ≡ c.p - y) =
        rw modular_root-power (square_root_lem h.prime y y_pos y_lt h.three) in
      let test : (root * root % c.p == right_hand_side c (pos x)) ≡ true =
        (==_iff (root * root % c.p) (right_hand_side c (pos x))).1
          (root-square root choice ∙ sym right_hand_side-square) in
      rw
        (
          prefix_lem y b,
          coordinate_lem (prefix_byte y) b width small,
          value,
          test,
          chosen_root root choice,
        )
        refl

to_bytes-32 : (n : ℕ) (b : Bytes) → to_bytes (pos n) ≡ ok b → to_bytes_32 n ≡ some b
to_bytes-32 n b h = elim (Option-cases (to_bytes_32 n)) [
  | inl large ↦ ground (arith, large)
  | inr (b', small) ↦ ground (arith, small)
]

-- `public_key_hex` of a live signer, from its point.
abbrev text_of_point : MaybePoint → Result Text
text_of_point m = do
  q ← elim m [ none ↦ err attribute_error | some q ↦ ok q ]
  x ← to_bytes q.x
  ok (hex ((if residue 2 q.y == 0 then 2 else 3) ∷ x))

pub public_key_hex-some :
    (s : Signer) (t : Text) → public_key_hex s ≡ ok t → (q : Point) × (s.pubkey ≡ some q)
unfolding public_key_hex
public_key_hex-some s t eq =
    let (alive, h1) = guard-eq-ok (not s.destroyed) runtime_error _ eq in
    elim (Option-cases s.pubkey) [
      | inl nothing ↦
          let refused : text_of_point none ≡ ok t =
            subst (λ (m : MaybePoint). text_of_point m ≡ ok t) nothing h1 in
          absurd (cc refused)
      | inr found ↦ found
    ]

-- For a prime `p` that leaves 3 by 4, the public key that a signer with the point `q` of the curve
-- gives as text is read back by `verify_static` as `q`.
pub decompress-public_key_hex :
    {c : Curve} (h : IsRooted c) (s : Signer) (q : Point) (t : Text)
    → s.pubkey ≡ some q
    → IsReduced c q
    → public_key_hex s ≡ ok t
    → decompress c t ≡ ok q
unfolding public_key_hex
decompress-public_key_hex {c} h s q t holds reduced eq =
    let (alive, h1) = guard-eq-ok (not s.destroyed) runtime_error _ eq in
    let point : Point = record { x = pos reduced.x; y = pos reduced.y } in
    let h2 : (to_bytes (pos reduced.x) >>= λ b. ok (hex (prefix_byte reduced.y ∷ b))) ≡ ok t =
      subst (λ (m : MaybePoint). text_of_point m ≡ ok t) (holds ∙ ap some reduced.at) h1 in
    let (b, written, h3) = >>=-eq-ok (to_bytes (pos reduced.x)) _ h2 in
    let same : hex (prefix_byte reduced.y ∷ b) ≡ t = cc h3 in
    let bytes : to_bytes_32 reduced.x ≡ some b = to_bytes-32 reduced.x b written in
    subst (λ (u : Text). decompress c u ≡ ok q) same
      (decompress-compressed h reduced.x reduced.y reduced.y_pos reduced.y_lt
          (subst (IsOnCurve c) reduced.at reduced.on_curve) b (length-to_bytes reduced.x b bytes)
          (to_bytes-lt reduced.x b bytes) (to_bytes-value reduced.x b written)
        ∙ ap ok (sym reduced.at))
