-- ===== src/Tests/Field.antt =====
-- The coordinates of the small curve: its prime, 43, leaves 3 by 4, and its 30 points are on it.
use protocol_c.Prelude.{
  ℕ, zero, suc, ◌+◌, ◌*◌, ◌%◌, ◌^◌, ◌<◌, ◌≡◌, refl, sym, ap, ◌∙◌, subst, Bool, true, none, some,
  ◌==◌, ==_iff, arith,
}
use protocol_c.Prelude.Int.{residue}
use protocol_c.Curve.{Point, MaybePoint}
use protocol_c.Signer.OnCurve.{IsOnCurve}
use protocol_c.Signer.Compressed.{IsRooted}
use protocol_c.Signer.RoundTrip.{IsCurveGroup}
use protocol_c.Tests.Tiny.{tiny, multiple, table, entry, tiny-IsGroup, passes_under, passes_at}

powers_checked : passes_under (λ a. suc a ^ 42 % 43 == 1) 42 ≡ true
unfolding passes_under
powers_checked = refl

fermat_at : (a : ℕ) → 0 < a → a < 43 → a ^ 42 % 43 ≡ 1
fermat_at zero lo hi = absurd (omega arith)
fermat_at (suc a) lo hi =
    (==_iff (suc a ^ 42 % 43) 1).0
      (passes_at (λ a. suc a ^ 42 % 43 == 1) 42 a (omega arith) powers_checked)

tiny-IsRooted : IsRooted tiny
tiny-IsRooted = record {
  prime = record { above_one = omega arith; fermat = λ a lo hi. fermat_at a lo hi };
  three = refl;
}

is_on_curve : MaybePoint → Bool
is_on_curve none = true
is_on_curve (some q) = residue 43 q.y * residue 43 q.y % 43 == (residue 43 q.x ^ 3 + 7) % 43

points_checked : passes_under (λ i. is_on_curve (multiple i)) 31 ≡ true
unfolding passes_under is_on_curve
points_checked = refl

is_on_curve_sound :
    (m : MaybePoint) (q : Point) → m ≡ some q → is_on_curve m ≡ true → IsOnCurve tiny q
unfolding is_on_curve
is_on_curve_sound none q e h = cc
is_on_curve_sound (some r) q e h =
    let same : r ≡ q = cc e in subst (IsOnCurve tiny) same ((==_iff _ _).0 h)

mod-twice : (i : ℕ) → i % 31 % 31 ≡ i % 31
mod-twice i = omega arith

multiple-IsOnCurve : (i : ℕ) (q : Point) → multiple i ≡ some q → IsOnCurve tiny q
multiple-IsOnCurve i q h = is_on_curve_sound (multiple i) q h (
    ap (λ (t : ℕ). is_on_curve (entry table t)) (sym (mod-twice i))
    ∙ passes_at (λ i. is_on_curve (multiple i)) 31 (i % 31) (omega arith) points_checked)

pub tiny-IsCurveGroup : IsCurveGroup tiny multiple
tiny-IsCurveGroup = record {
  group = tiny-IsGroup;
  rooted = tiny-IsRooted;
  gx_lt = omega arith;
  gy_lt = omega arith;
  on_curve = multiple-IsOnCurve;
}
