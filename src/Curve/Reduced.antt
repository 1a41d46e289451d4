-- ===== src/Curve/Reduced.antt =====
-- The points of the group have reduced coordinates, and none of them has the second coordinate 0.
use native.Mathlib.Nat.{mod-lt}
use protocol_c.Prelude.{
  ℕ, zero, suc, ◌+◌, ◌<◌, ◌≡◌, refl, sym, ap, ◌∙◌, subst, false, not, ◌&&◌, none, some, arith,
  if-eq, Bool-cases, Option-cases, inl, inr, if◌then◌else◌,
}
use protocol_c.Prelude.Int.{ℤ, pos, eqb_ℤ}
use protocol_c.Py.Result.{ok, ◌>>=◌, >>=-eq-ok}
use protocol_c.Curve.{
  Curve, Point, MaybePoint, generator, point_eq, point_add, tangent_slope, chord_slope, third_point,
}
use protocol_c.Curve.Cyclic.{IsMultiples, point_add-flat}

-- Coordinates in `[0, p)`.
pub record HasCoordinates (c : Curve) (q : Point) : Type 0 where
  pub x : ℕ
  pub y : ℕ
  pub at : q ≡ record { x = pos x; y = pos y }
  pub x_lt : x < c.p
  pub y_lt : y < c.p

module _ {c : Curve} (positive : 0 < c.p) where
  third_point-HasCoordinates :
      (lam : ℕ) (x1 y1 x2 : ℤ) → HasCoordinates c (third_point c.p lam x1 y1 x2)
  unfolding third_point
  third_point-HasCoordinates lam x1 y1 x2 = record {
    x = _;
    y = _;
    at = refl;
    x_lt = mod-lt _ positive;
    y_lt = mod-lt _ positive;
  }

  point_add-HasCoordinates :
      (q r t : Point) → point_add c (some q) (some r) ≡ ok (some t) → HasCoordinates c t
  unfolding point_add
  point_add-HasCoordinates q r t h =
      elim (if-eq (eqb_ℤ q.x r.x && not (eqb_ℤ q.y r.y)) (ok none)
        ((if point_eq q r then tangent_slope c q else chord_slope c q r) >>= λ lam.
          ok (some (third_point c.p lam q.x q.y r.x)))
        (ok (some t)) h) [
          | inl (opposite, infinite) ↦ cc
          | inr (apart, summed) ↦
              let (lam, slope, last) =
                >>=-eq-ok (if point_eq q r then tangent_slope c q else chord_slope c q r) _
                  summed in
              let same : third_point c.p lam q.x q.y r.x ≡ t = cc last in
              subst (HasCoordinates c) same (third_point-HasCoordinates lam q.x q.y r.x)
        ]

module _ {c : Curve} {f : ℕ → MaybePoint} (m : IsMultiples c f) (at_one : f 1 ≡ some (generator c))
    (positive : 0 < c.p) (gx_lt : c.gx < c.p) (gy_lt : c.gy < c.p) where
  pub multiple-HasCoordinates : (i : ℕ) (q : Point) → f i ≡ some q → HasCoordinates c q
  multiple-HasCoordinates zero q h = absurd (cc (m.at_zero, h))
  multiple-HasCoordinates (suc i) q h =
      let sum : point_add c (f i) (some (generator c)) ≡ ok (some q) =
        ap (point_add c (f i)) (sym at_one)
        ∙ m.additive i 1
        ∙ ap (λ (t : ℕ). ok (f t)) (omega arith)
        ∙ ap ok h in
      elim (Option-cases (f i)) [
        | inl first ↦
            let start : point_add c none (some (generator c)) ≡ ok (some q) =
              ap (λ (t : MaybePoint). point_add c t (some (generator c))) (sym first) ∙ sum in
            let same : generator c ≡ q = unfold point_add in cc start in
            subst (HasCoordinates c) same
              (record { x = c.gx; y = c.gy; at = refl; x_lt = gx_lt; y_lt = gy_lt })
        | inr (r, before) ↦
            point_add-HasCoordinates positive r (generator c) q
              (ap (λ (t : MaybePoint). point_add c t (some (generator c))) (sym before) ∙ sum)
      ]

  pub multiple-steep : (i : ℕ) (q : Point) → f i ≡ some q → eqb_ℤ q.y (pos 0) ≡ false
  multiple-steep i q h = elim (Bool-cases (eqb_ℤ q.y (pos 0))) [
    | inl flat ↦
        let double : point_add c (some q) (some q) ≡ ok (f (i + i)) =
          ap (λ (t : MaybePoint). point_add c t t) (sym h) ∙ m.additive i i in
        absurd (cc (double, point_add-flat c q flat))
    | inr steep ↦ steep
  ]
