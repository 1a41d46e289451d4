-- ===== src/Key/Verified.antt =====
-- A signature of a one-shot key that the constructor made is accepted by `verify_signature`.
use protocol_c.Prelude.{
  ℕ, ◌+◌, ◌≡◌, refl, ap, ◌∙◌, sym, subst, true, Text, Bool-cases, inl, inr, text_eq_refl,
}
use protocol_c.Prelude.Int.{ℤ, pos, negsuc}
use protocol_c.Py.Result.{Exn, Result, ok, err, >>=-eq-ok, guard-eq-ok}
use protocol_c.Py.Value.{Dict, obj, dict_get, dict_size}
use protocol_c.Py.Compare.{truthy, py_eq}
use protocol_c.Py.Integers.{py_eq-int}
use protocol_c.Py.Env.{Env}
use protocol_c.Curve.{Curve, MaybePoint}
use protocol_c.Signer.{Signer, envelope, sign_manifest, public_key_hex}
use protocol_c.Signer.Lifecycle.{privkey, create-IsFresh}
use protocol_c.Signer.RoundTrip.{
  IsCurveGroup, sign_manifest-IsEnvelope, verify_static-sign_manifest,
}
use protocol_c.Key.{
  Seed, Readings, QuantumEphemeralKey, signer_of, derive, seal, finish, sign, sign_or_raise,
  verify_signature,
}
use protocol_c.Key.Derived.{derive-IsDerived}

-- `try: … except Exception: raise x` around a result.
abbrev replaced : Exn → Result Dict → Result Dict
replaced x m = elim m [ err _ ↦ err x | ok s ↦ ok s ]

replaced-eq-ok : (x : Exn) (m : Result Dict) {d : Dict} → replaced x m ≡ ok d → m ≡ ok d
replaced-eq-ok x (err y) h = cc
replaced-eq-ok x (ok s) h = h

-- The shape of a signature.
pub record IsShaped (signature : Dict) : Type 0 where
  pub r : ℕ
  pub s_part : ℕ
  pub key : Text
  pub signed_at : Text
  pub count : ℕ
  pub built : envelope r s_part key signed_at count ≡ signature

-- A signature of that shape that is accepted for a message.
abbrev pub IsSealed : Env → Curve → Dict → Dict → Type 0
IsSealed e c message signature =
    (verify_signature e c (obj message) (obj signature) ≡ true) × IsShaped signature

-- A dict of that shape is not empty and equals itself.
envelope_equal :
    (r s count : ℕ) (key signed_at : Text)
    → py_eq (obj (envelope r s key signed_at count)) (obj (envelope r s key signed_at count)) ≡ true
unfolding py_eq dict_get dict_size
envelope_equal r s count key signed_at = simp (text_eq_refl, py_eq-int) refl

module _ {signature : Dict} (h : IsShaped signature) where
  pub py_eq-IsShaped : py_eq (obj signature) (obj signature) ≡ true
  py_eq-IsShaped =
      subst (λ (d : Dict). py_eq (obj d) (obj d) ≡ true) h.built
        (envelope_equal h.r h.s_part h.count h.key h.signed_at)

  pub truthy-IsShaped : truthy (obj signature) ≡ true
  unfolding truthy
  truthy-IsShaped = subst (λ (d : Dict). truthy (obj d) ≡ true) h.built refl

module _ (e : Env) (c : Curve) where
  -- What `sign` returns is what the signer returned.
  seal-same :
      (t : Readings) (k : QuantumEphemeralKey) (signature signature' : Dict) (used : Signer)
      (pubkey : Result Text)
      → (seal e c t k signature used pubkey).0 ≡ ok signature'
      → signature ≡ signature'
  unfolding seal
  seal-same t k signature signature' used (err x) h = cc
  seal-same t k signature signature' used (ok pubkey) h = cc

  finish-same :
      (t : Readings) (k : QuantumEphemeralKey) (answer : Result Dict × Signer) (signature : Dict)
      → (finish e c t k answer).0 ≡ ok signature
      → answer ≡ (ok signature, answer.1)
  unfolding finish
  finish-same t k (err x, used) signature h = cc
  finish-same t k (ok made, used) signature h =
      ap (λ (d : Dict). (ok d, used)) (seal-same t k made signature used (public_key_hex used) h)

  sign-same :
      (fuel : ℕ) (t : Readings) (message signature : Dict) (k : QuantumEphemeralKey)
      → (sign e c fuel t message k).0 ≡ ok signature
      → sign_manifest e c fuel t.signed_at message k.signer
        ≡ (ok signature, (sign_manifest e c fuel t.signed_at message k.signer).1)
  unfolding sign
  sign-same fuel t message signature k h = elim (Bool-cases k.destroyed) [
    | inl gone ↦ cc
    | inr alive ↦
        let answer = sign_manifest e c fuel t.signed_at message k.signer in
        let run : sign e c fuel t message k ≡ finish e c t k answer = simp alive refl in
        finish-same t k answer signature
          (ap (λ (p : Result Dict × QuantumEphemeralKey). p.0) (sym run) ∙ h)
  ]

  sign_or_raise-same :
      (fuel : ℕ) (t : Readings) (x : Exn) (message signature : Dict) (k : QuantumEphemeralKey)
      → sign_or_raise e c fuel t x message k ≡ ok signature
      → (sign e c fuel t message k).0 ≡ ok signature
  unfolding sign_or_raise
  sign_or_raise-same fuel t x message signature k h =
      let run = sign e c fuel t message k in
      let (made, returned, h1) = >>=-eq-ok (replaced x run.0) _ h in
      let (_, h2) = guard-eq-ok run.1.destroyed x _ h1 in replaced-eq-ok x run.0 returned ∙ h2

  module _ {f : ℕ → MaybePoint} (g : IsCurveGroup c f) where
    signer_of-IsOwned :
        (now : ℕ) (z : ℤ) (s : Signer) → signer_of e c now z ≡ ok s → s.pubkey ≡ f (privkey s)
    signer_of-IsOwned now (pos n) s h =
        let (_, _, _, _, owned) = create-IsFresh g.group e now n s h in owned
    signer_of-IsOwned now (negsuc n) s h = cc

    derive-IsOwned :
        (t : Readings) (seed : Seed) (method : Text) (lifetime : ℤ) (k : QuantumEphemeralKey)
        → derive e c t seed method lifetime ≡ ok k
        → k.signer.pubkey ≡ f (privkey k.signer)
    derive-IsOwned t seed method lifetime k h =
        let d = derive-IsDerived e c t seed method lifetime k h in
        subst (λ (x : QuantumEphemeralKey). x.signer.pubkey ≡ f (privkey x.signer)) d.built
          (signer_of-IsOwned t.signer_at d.seed_int d.signer d.signer_at)

    -- On a curve with a group of prime order, a signature that `sign` of a key returns that the
    -- constructor made is accepted by `verify_signature` for the same message.
    pub verify_signature-sign :
        (fuel : ℕ) (t t' : Readings) (seed : Seed) (method : Text) (lifetime : ℤ)
        (k : QuantumEphemeralKey) (message signature : Dict)
        → derive e c t seed method lifetime ≡ ok k
        → (sign e c fuel t' message k).0 ≡ ok signature
        → verify_signature e c (obj message) (obj signature) ≡ true
    unfolding verify_signature
    verify_signature-sign fuel t t' seed method lifetime k message signature made h =
        verify_static-sign_manifest g e fuel t'.signed_at message signature k.signer _
          (derive-IsOwned t seed method lifetime k made) (sign-same fuel t' message signature k h)

    pub sign-IsSealed :
        (fuel : ℕ) (t t' : Readings) (seed : Seed) (method : Text) (lifetime : ℤ)
        (k : QuantumEphemeralKey) (message signature : Dict)
        → derive e c t seed method lifetime ≡ ok k
        → (sign e c fuel t' message k).0 ≡ ok signature
        → IsSealed e c message signature
    sign-IsSealed fuel t t' seed method lifetime k message signature made h =
        let env =
          sign_manifest-IsEnvelope e c fuel t'.signed_at message k.signer _ signature
            (sign-same fuel t' message signature k h) in
        (
          verify_signature-sign fuel t t' seed method lifetime k message signature made h,
          record {
            r = env.r;
            s_part = env.s_part;
            key = env.key;
            signed_at = t'.signed_at;
            count = k.signer.sign_count + 1;
            built = env.built;
          },
        )

    pub sign_or_raise-IsSealed :
        (fuel : ℕ) (t t' : Readings) (x : Exn) (seed : Seed) (method : Text) (lifetime : ℤ)
        (k : QuantumEphemeralKey) (message signature : Dict)
        → derive e c t seed method lifetime ≡ ok k
        → sign_or_raise e c fuel t' x message k ≡ ok signature
        → IsSealed e c message signature
    sign_or_raise-IsSealed fuel t t' x seed method lifetime k message signature made h =
        sign-IsSealed fuel t t' seed method lifetime k message signature made
          (sign_or_raise-same fuel t' x message signature k h)
