-- ===== src/Package/Verified.antt =====
-- What `commit` and `batch_commit` return verifies.
use protocol_c.Prelude.{
  ℕ, ◌≡◌, refl, ap, subst, Bool, true, Option, none, some, List, [], ◌∷◌, suc, length, arith, codes,
  inl, inr,
}
use protocol_c.Prelude.Int.{pos}
use protocol_c.Py.Result.{Result, ok, commitment_error, >>=-eq-ok, Result-cases}
use protocol_c.Py.Value.{bool, obj, Items, nil, cons, Dict, dict_get, items_size}
use protocol_c.Py.Env.{Env}
use protocol_c.Curve.{Curve, MaybePoint}
use protocol_c.State.{snapshot_from_dict}
use protocol_c.Signer.RoundTrip.{IsCurveGroup}
use protocol_c.Key.{number, default_key_lifetime_seconds, verify_signature}
use protocol_c.Key.Verified.{sign_or_raise-IsSealed}
use protocol_c.Commitment.{QuantumDecisionCommitment}
use protocol_c.Commitment.Created.{create_commitment-IsCreated}
use protocol_c.Audit.{AuditLog}
use protocol_c.Package.{
  Moments, QuantumSeedResult, Request, BatchItem, get_seed, reasoning_of, reopen, log_commitment,
  signed_commitment, commit_result, commit, verify, batch_commit,
}

-- A result whose commitment and signature verify, and which says so.
pub record IsVerified (e : Env) (c : Curve) (d : Dict) : Type 0 where
  pub commitment : Dict
  pub signature : Dict
  pub has_commitment : dict_get d "commitment" ≡ some (obj commitment)
  pub has_signature : dict_get d "signature" ≡ some (obj signature)
  pub says_so : dict_get d "verified" ≡ some (bool true)
  pub accepted : verify e c (obj commitment) (obj signature) ≡ true

module _ (e : Env) (c : Curve) where
  commit_result-IsVerified :
      (seed : QuantumSeedResult) (commitment signature : Dict)
      → verify_signature e c (obj commitment) (obj signature) ≡ true
      → IsVerified e c (commit_result e c seed commitment signature)
  unfolding verify dict_get
  commit_result-IsVerified seed commitment signature accepted = record {
    commitment = commitment;
    signature = signature;
    has_commitment = refl;
    has_signature = refl;
    says_so = ap (λ (b : Bool). some (bool b)) accepted;
    accepted = accepted;
  }

  -- A `commit` that returned has signed, and gives the dict of that commitment.
  commit-signed :
      (fuel : ℕ) (m : Moments) (seed : QuantumSeedResult) (r : Request)
      (disk after : Option AuditLog) (d : Dict)
      → commit e c fuel m seed r disk ≡ (ok d, after)
      → (made : Dict × Dict × QuantumDecisionCommitment) × (signed_commitment e c fuel m seed r
          ≡ ok made)
        × (commit_result e c seed made.0 made.1 ≡ d)
  unfolding commit
  commit-signed fuel m seed r disk after d h =
      elim (Result-cases (signed_commitment e c fuel m seed r)) [
        | inr (x, failed) ↦ absurd (cc (rw (commit, failed) at h))
        | inl (made, signed) ↦ (made, signed, returned made signed disk h)
      ]
    where
      returned :
          (made : Dict × Dict × QuantumDecisionCommitment)
          → signed_commitment e c fuel m seed r ≡ ok made
          → (disk : Option AuditLog) → commit e c fuel m seed r disk ≡ (ok d, after)
          → commit_result e c seed made.0 made.1 ≡ d
      returned made signed none h = let both = rw (commit, signed) at h in cc both
      returned made signed (some log) h =
          let both = rw (commit, signed) at h in
          let (done, _, last) =
            >>=-eq-ok (log_commitment e c m made.0 made.1 (reopen e log)).0 _
              (ap (λ (p : Result Dict × Option AuditLog). p.0) both) in
          cc last

  module _ {f : ℕ → MaybePoint} (g : IsCurveGroup c f) where
    pub signed_commitment-accepted :
        (fuel : ℕ) (m : Moments) (seed : QuantumSeedResult) (r : Request)
        (made : Dict × Dict × QuantumDecisionCommitment)
        → signed_commitment e c fuel m seed r ≡ ok made
        → verify_signature e c (obj made.0) (obj made.1) ≡ true
    unfolding signed_commitment
    signed_commitment-accepted fuel m seed r made h =
        let (snap, _, h1) = >>=-eq-ok (snapshot_from_dict e r.account_state) _ h in
        let reasoning = reasoning_of e c m.captured_at r.reasoning_text r.reasoning_model in
        let cr =
          create_commitment-IsCreated e c fuel m.committed_at m.key_readings r.order_id
            r.trade_details snap (number (pos seed.seed_int)) seed.method reasoning made.0 made.1
            made.2 h1 in
        let (accepted, _) =
          sign_or_raise-IsSealed e c g fuel m.key_readings m.key_readings commitment_error
            (number (pos seed.seed_int)) seed.method default_key_lifetime_seconds cr.key made.0
            made.1 cr.derived cr.signed in
        accepted

    -- On a curve with a group of prime order, if `commit` returns, with a log or without, then the
    -- dict that it returns says that the commitment is verified, and `verify` accepts its commitment
    -- with its signature.
    pub commit-IsVerified :
        (fuel : ℕ) (m : Moments) (seed : QuantumSeedResult) (r : Request)
        (disk after : Option AuditLog) (d : Dict)
        → commit e c fuel m seed r disk ≡ (ok d, after)
        → IsVerified e c d
    commit-IsVerified fuel m seed r disk after d h =
        let (made, signed, same) = commit-signed fuel m seed r disk after d h in
        subst (IsVerified e c) same (
          commit_result-IsVerified seed made.0 made.1
            (signed_commitment-accepted fuel m seed r made signed))

    -- Every item of a list is a dict that is verified.
    abbrev pub AllVerified : Items → Type 0
    AllVerified nil = Unit
    AllVerified (cons v vs) = ((d : Dict) × (v ≡ obj d) × IsVerified e c d) × AllVerified vs

    -- On such a curve, if `batch_commit` returns, it returns one dict for each item, and `verify`
    -- accepts the commitment of each with its signature.
    pub batch_commit-IsVerified :
        (fuel : ℕ) (items : List (BatchItem e c)) (disk after : Option AuditLog) (results : Items)
        → batch_commit e c fuel items disk ≡ (ok results, after)
        → (items_size results ≡ length items) × AllVerified results
    unfolding batch_commit items_size
    batch_commit-IsVerified fuel [] disk after results h =
        let same : nil ≡ results = cc h in
        subst (λ (r : Items). (items_size r ≡ 0) × AllVerified r) same (refl, tt)
    batch_commit-IsVerified fuel (x ∷ xs) disk after results h =
        let seed = get_seed e x.random (codes "CSPRNG") in
        let first = commit e c fuel x.moments seed x.request disk in
        let rest = batch_commit e c fuel xs first.1 in
        elim (Result-cases first.0) [
          | inr (y, failed) ↦ cc (rw (batch_commit, failed) at h)
          | inl (d, made) ↦
              let both = rw (batch_commit, made) at h in
              let (ds, others, last) =
                >>=-eq-ok rest.0 _ (ap (λ (p : Result Items × Option AuditLog). p.0) both) in
              let (size, verified) =
                batch_commit-IsVerified fuel xs first.1 rest.1 ds
                  (ap (λ (r : Result Items). (r, rest.1)) others) in
              let same : cons (obj d) ds ≡ results = cc last in
              let one =
                commit-IsVerified fuel x.moments seed x.request disk first.1 d
                  (ap (λ (r : Result Dict). (r, first.1)) made) in
              subst (λ (r : Items). (items_size r ≡ suc (length xs)) × AllVerified r) same
                (omega (arith, size), ((d, refl, one), verified))
        ]
