-- ===== src/Signer/OnCurve.antt =====
-- A public key that `verify_static` reads is a point of the curve.
use native.Mathlib.Nat.{mod-lt, mod-add-mod, add-mul-mod_self_left}
use protocol_c.Prelude.{
  ℕ, ◌+◌, ◌-◌, ◌*◌, ◌/◌, ◌%◌, ◌^◌, ◌≤◌, ◌<◌, ◌≡◌, refl, sym, ap, ◌∙◌, subst, ==_iff, Bool, true,
  false, arith, Text, take, drop, ◌==◌, if◌then◌else◌,
}
use protocol_c.Prelude.Int.{ℤ, pos, eqb_ℤ, residue}
use protocol_c.Prelude.Mod.{Cong, Cong-mul, Cong-mod}
use protocol_c.Py.Result.{ok, value_error, >>=-eq-ok, guard-eq-ok}
use protocol_c.Py.Value.{str}
use protocol_c.Curve.{Curve, Point}
use protocol_c.Curve.Power.{pow_mod_lem}
use protocol_c.Signer.{int_16, right_hand_side, modular_root, decompress}

-- `y ^ 2 = x ^ 3 + b` modulo `p`; the coefficient `a` is 0.
abbrev pub IsOnCurve : Curve → Point → Type 0
IsOnCurve c q = residue c.p q.y * residue c.p q.y % c.p ≡ (residue c.p q.x ^ 3 + c.b) % c.p

-- The square of the opposite.
pub square_opposite : (p y : ℕ) → y ≤ p → Cong p ((p - y) * (p - y)) (y * y)
square_opposite p y h =
    sym (add-mul-mod_self_left ((p - y) * (p - y)) p y)
    ∙ ap (λ (t : ℕ). t % p) (opposite (p - y) (omega arith))
    ∙ add-mul-mod_self_left (y * y) p (p - y)
  where
    opposite : (u : ℕ) → u + y ≡ p → u * u + p * y ≡ y * y + p * u
    opposite u e = rw (← e) (grind arith)

pub right_hand_side_lem :
    (c : Curve) (x : ℤ) → right_hand_side c x ≡ (residue c.p x ^ 3 + c.b) % c.p
right_hand_side_lem c x =
    ap (λ (t : ℕ). (t + c.b) % c.p) (pow_mod_lem (residue c.p x) 3 c.p)
    ∙ mod-add-mod (residue c.p x ^ 3) c.p c.b

chosen_square :
    (p root : ℕ) (keep : Bool)
    → root ≤ p
    → Cong p ((if keep then root else p - root) * (if keep then root else p - root)) (root * root)
chosen_square p root true h = refl
chosen_square p root false h = square_opposite p root h

-- For a positive `p`, if a text is accepted as a compressed key, its point satisfies the equation
-- of the curve modulo `p`.
pub decompress-IsOnCurve :
    (c : Curve) (t : Text) (q : Point) → 0 < c.p → decompress c t ≡ ok q → IsOnCurve c q
unfolding decompress
decompress-IsOnCurve c t q h eq =
    let (prefix, hp, h1) = >>=-eq-ok (int_16 (str (take 2 t))) _ eq in
    let (x, hx, h2) = >>=-eq-ok (int_16 (str (drop 2 t))) _ h1 in
    let y_sq = right_hand_side c x in
    let root = modular_root c y_sq in
    let keep = eqb_ℤ prefix (pos (root % 2 + 2)) in
    let (test, h3) = guard-eq-ok (root * root % c.p == y_sq) value_error _ h2 in
    let root_le : root ≤ c.p = rw pow_mod_lem (omega (arith, mod-lt (y_sq ^ ((c.p + 1) / 4)) h)) in
    let y = if keep then root else c.p - root in
    let point : Point = record { x = x; y = pos y } in
    let same : point ≡ q = cc h3 in
    subst (IsOnCurve c) same (
      Cong-mul c.p (y % c.p) y (y % c.p) y (Cong-mod c.p y) (Cong-mod c.p y)
      ∙ chosen_square c.p root keep root_le
      ∙ (==_iff (root * root % c.p) y_sq).0 test
      ∙ right_hand_side_lem c x)
