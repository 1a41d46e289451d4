-- ===== src/Signer/RoundTrip.antt =====
-- What `sign_manifest` returns, `verify_static` accepts.
use protocol_c.Prelude.{
  ℕ, ◌+◌, ◌^◌, ◌<◌, ◌≡◌, refl, sym, ap, ◌∙◌, Bool, true, false, some, arith, Text, Bool-cases, inl,
  inr,
}
use protocol_c.Prelude.Int.{pos, eqb_ℤ}
use protocol_c.Py.Result.{Result, ok, err, runtime_error, or_else, ◌>>=◌, >>=-eq-ok, Result-cases}
use protocol_c.Py.Value.{Dict, obj, dict_get}
use protocol_c.Py.Hex.Parse.{int16-format}
use protocol_c.Py.Env.{Env}
use protocol_c.Curve.{Curve, Point, MaybePoint}
use protocol_c.Curve.Order.{IsGroup}
use protocol_c.Curve.Reduced.{multiple-HasCoordinates, multiple-steep}
use protocol_c.Ecdsa.{ecdsa_sign, ecdsa_verify}
use protocol_c.Ecdsa.Bounds.{ecdsa_sign-InRange}
use protocol_c.Ecdsa.RoundTrip.{ecdsa_verify-sign}
use protocol_c.Signer.{
  Signer, canonical_hash, int_16, decompress, envelope, public_key_hex, sign_manifest, checked,
  verify_static,
}
use protocol_c.Signer.Lifecycle.{privkey}
use protocol_c.Signer.OnCurve.{IsOnCurve}
use protocol_c.Signer.Compressed.{
  IsRooted, IsReduced, public_key_hex-some, decompress-public_key_hex,
}

-- The points `f i` are the multiples of the generator, on the curve, in a group of prime order; the
-- prime of the coordinates leaves 3 by 4.
pub record IsCurveGroup (c : Curve) (f : ℕ → MaybePoint) : Type 0 where
  pub group : IsGroup c f
  pub rooted : IsRooted c
  pub gx_lt : c.gx < c.p
  pub gy_lt : c.gy < c.p
  pub on_curve : (i : ℕ) (q : Point) → f i ≡ some q → IsOnCurve c q

-- The parts of an envelope that was returned.
pub record IsEnvelope (e : Env) (c : Curve) (fuel : ℕ) (signed_at : Text) (manifest : Dict)
    (s : Signer) (signature : Dict) : Type 0 where
  pub r : ℕ
  pub s_part : ℕ
  pub key : Text
  pub signed : ecdsa_sign e c fuel (privkey s) (canonical_hash e (obj manifest)) ≡ ok (r, s_part)
  pub keyed : public_key_hex (record s { sign_count = s.sign_count + 1 }) ≡ ok key
  pub built : envelope r s_part key signed_at (s.sign_count + 1) ≡ signature

module _ (e : Env) (c : Curve) (fuel : ℕ) (signed_at : Text) (manifest : Dict) where
  pub sign_manifest-IsEnvelope :
      (s s' : Signer) (signature : Dict)
      → sign_manifest e c fuel signed_at manifest s ≡ (ok signature, s')
      → IsEnvelope e c fuel signed_at manifest s signature
  unfolding sign_manifest
  sign_manifest-IsEnvelope s s' signature h =
      let run = sign_manifest e c fuel signed_at manifest s in
      let counted = record s { sign_count = s.sign_count + 1 } in
      elim (Bool-cases s.destroyed) [
        | inl gone ↦
            let refused : run ≡ (err runtime_error, s) = rw gone refl in absurd (cc (refused, h))
        | inr alive ↦
            elim (Result-cases
              (ecdsa_sign e c fuel (privkey s) (canonical_hash e (obj manifest)))) [
                | inl ((r, s_part), signed) ↦
                    let answer : Result Dict = public_key_hex counted >>= λ key.
                    ok (envelope r s_part key signed_at counted.sign_count) in
                    let made : run ≡ (answer, counted) = simp (alive, signed) refl in
                    let returned : answer ≡ ok signature =
                      ap (λ (t : Result Dict × Signer). t.0) (sym made ∙ h) in
                    let (key, keyed, last) = >>=-eq-ok (public_key_hex counted) _ returned in
                    record {
                      r = r;
                      s_part = s_part;
                      key = key;
                      signed = signed;
                      keyed = keyed;
                      built = cc last;
                    }
                | inr (x, failed) ↦
                    let refused : run ≡ (err x, s) = simp (alive, failed) refl in
                    absurd (cc (refused, h))
              ]
      ]

-- The two numbers and the key of an envelope are read back.
checked-envelope :
    (e : Env) (c : Curve) (manifest : Dict) (r s count : ℕ) (key signed_at : Text) (q : Point)
    → r < 16 ^ 64
    → s < 16 ^ 64
    → decompress c key ≡ ok q
    → checked e c (obj manifest) (obj (envelope r s key signed_at count))
      ≡ ecdsa_verify c (some q) (canonical_hash e (obj manifest)) (pos r) (pos s)
unfolding checked dict_get
checked-envelope e c manifest r s count key signed_at q r_lt s_lt read =
    rw (int_16, int16-format r r_lt, int16-format s s_lt, read) refl

module _ {c : Curve} {f : ℕ → MaybePoint} (h : IsCurveGroup c f) where
  multiple-IsReduced : (i : ℕ) (q : Point) → f i ≡ some q → IsReduced c q
  multiple-IsReduced i q at =
      let positive : 0 < c.p = omega (arith, h.rooted.three) in
      let place =
        multiple-HasCoordinates h.group.multiples h.group.at_one positive h.gx_lt h.gy_lt i q at in
      let steep : eqb_ℤ (pos place.y) (pos 0) ≡ false =
        ap (λ (t : Point). eqb_ℤ t.y (pos 0)) (sym place.at)
        ∙ multiple-steep h.group.multiples h.group.at_one positive h.gx_lt h.gy_lt i q at in
      record {
        x = place.x;
        y = place.y;
        at = place.at;
        x_lt = place.x_lt;
        y_pos = ground arith;
        y_lt = place.y_lt;
        on_curve = h.on_curve i q at;
      }

  -- On a curve with such a group, an envelope that `sign_manifest` of a signer returns, whose public
  -- point is its key's multiple of the generator, is accepted by `verify_static` for the same
  -- manifest.
  pub verify_static-sign_manifest :
      (e : Env) (fuel : ℕ) (signed_at : Text) (manifest signature : Dict) (s s' : Signer)
      → s.pubkey ≡ f (privkey s)
      → sign_manifest e c fuel signed_at manifest s ≡ (ok signature, s')
      → verify_static e c (obj manifest) (obj signature) ≡ true
  unfolding verify_static
  verify_static-sign_manifest e fuel signed_at manifest signature s s' owned eq =
      let env = sign_manifest-IsEnvelope e c fuel signed_at manifest s s' signature eq in
      let hash = canonical_hash e (obj manifest) in
      let (r_pos, r_lt, s_pos, s_le) =
        ecdsa_sign-InRange e c fuel (privkey s) hash env.r env.s_part h.group.prime.above_one
          env.signed in
      let verified : ecdsa_verify c (f (privkey s)) hash (pos env.r) (pos env.s_part) ≡ ok true =
        ecdsa_verify-sign h.group e fuel (privkey s) hash env.r env.s_part env.signed in
      let bound = h.group.fits in
      let counted = record s { sign_count = s.sign_count + 1 } in
      let (q, holds) : (q : Point) × (s.pubkey ≡ some q) =
        public_key_hex-some counted env.key env.keyed in
      let read : decompress c env.key ≡ ok q =
        decompress-public_key_hex h.rooted counted q env.key holds
          (multiple-IsReduced (privkey s) q (sym owned ∙ holds)) env.keyed in
      let answer : checked e c (obj manifest)
            (obj (envelope env.r env.s_part env.key signed_at counted.sign_count))
          ≡ ok true =
        checked-envelope e c manifest env.r env.s_part counted.sign_count env.key signed_at q
          (omega arith) (omega arith) read
        ∙ ap (λ (t : MaybePoint). ecdsa_verify c t hash (pos env.r) (pos env.s_part))
            (sym holds ∙ owned)
        ∙ verified in
      ap (λ (t : Dict). or_else (checked e c (obj manifest) (obj t)) false) (sym env.built)
      ∙ ap (λ (t : Result Bool). or_else t false) answer
