-- ===== src/Curve/Order.antt =====
-- The multiples of the generator, modulo its order.
use native.Mathlib.Nat.{mod-add-div}
use protocol_c.Prelude.{
  ℕ, zero, suc, ◌+◌, ◌*◌, ◌/◌, ◌%◌, ◌^◌, ◌≤◌, ◌≡◌, refl, sym, ap, ◌∙◌, true, none, some, arith,
}
use protocol_c.Prelude.Int.{ℤ, eqb_ℤ}
use protocol_c.Prelude.Mod.{Cong}
use protocol_c.Py.Result.{ok}
use protocol_c.Curve.{Curve, Point, MaybePoint, generator, point_add}
use protocol_c.Curve.Cyclic.{IsMultiples}
use protocol_c.Curve.Inverse.{IsFermat}

-- The generator's multiples, with the code's own addition, and its order, a prime.
pub record IsGroup (c : Curve) (f : ℕ → MaybePoint) : Type 0 where
  pub multiples : IsMultiples c f
  pub at_one : f 1 ≡ some (generator c)
  pub at_order : f c.n ≡ none
  pub prime : IsFermat c.n
  pub fits : c.n ≤ 2 ^ 256

eq_of_eqb : (a b : ℤ) → eqb_ℤ a b ≡ true → a ≡ b
eq_of_eqb a b h = ground arith

add-none : (c : Curve) (p : MaybePoint) → point_add c p none ≡ ok p
unfolding point_add
add-none c none = refl
add-none c (some p) = refl

-- A sum at infinity has equal first coordinates.
add_inverse :
    (c : Curve) (p : MaybePoint) (r : Point)
    → point_add c p (some r) ≡ ok none
    → (q : Point) × (p ≡ some q) × (q.x ≡ r.x)
unfolding point_add
add_inverse c none r h = cc
add_inverse c (some q) r h = (q, refl, eq_of_eqb q.x r.x (ground arith))

module _ {c : Curve} {f : ℕ → MaybePoint} (g : IsGroup c f) where
  f-add_order : (i : ℕ) → f (i + c.n) ≡ f i
  f-add_order i =
      let sum : ok (f (i + c.n)) ≡ ok (f i) =
        sym (g.multiples.additive i c.n) ∙ ap (point_add c (f i)) g.at_order ∙ add-none c (f i) in
      cc sum

  f-add_orders : (i q : ℕ) → f (i + c.n * q) ≡ f i
  f-add_orders i zero = ap f (omega arith)
  f-add_orders i (suc q) = ap f (grind arith) ∙ f-add_order (i + c.n * q) ∙ f-add_orders i q

  f-mod : (i : ℕ) → f i ≡ f (i % c.n)
  f-mod i = ap f (sym (mod-add-div i c.n)) ∙ f-add_orders (i % c.n) (i / c.n)

  -- Numbers with one remainder by the order give one multiple.
  pub multiple-Cong : (i j : ℕ) → Cong c.n i j → f i ≡ f j
  multiple-Cong i j e = f-mod i ∙ ap f e ∙ sym (f-mod j)

  -- The multiples of a multiple.
  pub scaled-IsMultiples : (d : ℕ) → IsMultiples c (λ i. f (i * d))
  scaled-IsMultiples d = record {
    at_zero = ap f (omega arith) ∙ g.multiples.at_zero;
    additive = λ i j. g.multiples.additive (i * d) (j * d) ∙ ap (λ (t : ℕ). ok (f t)) (grind arith);
  }

  -- Multiples whose numbers add up to the order have one first coordinate.
  pub multiple_opposite :
      (t k : ℕ) (r : Point)
      → Cong c.n (t + k) 0
      → f k ≡ some r
      → (q : Point) × (f t ≡ some q) × (q.x ≡ r.x)
  multiple_opposite t k r e at = add_inverse c (f t) r (
      ap (point_add c (f t)) (sym at)
      ∙ g.multiples.additive t k
      ∙ ap ok (multiple-Cong (t + k) 0 e ∙ g.multiples.at_zero))
