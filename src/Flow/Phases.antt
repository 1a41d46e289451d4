-- ===== src/Flow/Phases.antt =====
-- The verdict on one phase against its single checks.
use protocol_c.Prelude.{◌≡◌, ap, ◌∙◌, true, false, ◌&&◌, none, some, [], Text, and-eq}
use protocol_c.Prelude.Int.{pos}
use protocol_c.Py.Result.{ok, >>=-eq-ok}
use protocol_c.Py.Value.{int, str, obj, end, get_or}
use protocol_c.Py.Env.{Env}
use protocol_c.Curve.{Curve}
use protocol_c.Identity.{AccountKeyRegistry}
use protocol_c.Commitment.{
  verify_state_binding, commitment_quantum_binding, commitment_temporal_safety,
}
use protocol_c.Execution.{
  default_tolerance, execution_quantum_binding, execution_temporal_safety,
  verify_references_commitment, verify_nonce_increment, verify_independent_seeds,
  verify_matches_commitment_terms,
}
use protocol_c.Settlement.{verify_chain, verify_all_seeds_independent, verify_all_temporal_windows}
use protocol_c.Flow.{
  Entry, identity_ok, broker_pubkey, broker_ok, signed, commitment_ok, linked, linked_ok,
  execution_ok, chain_ok, settlement_ok,
}
use protocol_c.Flow.Signers.{IsSigner, IsBroker, identity_ok-IsSigner, broker_ok-IsBroker}

-- The checks of the three phases, one field each.
pub record IsCommitted (e : Env) (c : Curve) (g : AccountKeyRegistry) (scope : Text) (k : Entry)
    : Type 0 where
  pub signature : signed e c k ≡ true
  pub state : verify_state_binding k.payload ≡ true
  pub quantum : commitment_quantum_binding k.payload ≡ ok true
  pub temporal : commitment_temporal_safety k.payload ≡ ok true
  pub signer : IsSigner g scope k.sig

pub record IsExecuted (e : Env) (c : Curve) (g : AccountKeyRegistry) (scope : Text) (k x : Entry)
    : Type 0 where
  pub signature : signed e c x ≡ true
  pub quantum : execution_quantum_binding x.payload ≡ ok true
  pub temporal : execution_temporal_safety x.payload ≡ ok true
  pub signer : IsSigner g scope x.sig
  pub reference : verify_references_commitment x.payload k.sig ≡ true
  pub nonce : verify_nonce_increment e (get_or k.payload "nonce" (int (pos 0))) x.payload ≡ ok true
  pub seeds :
      verify_independent_seeds
        (get_or k.payload "quantum_seed_commitment" (str []))
        (get_or x.payload "execution_quantum_seed_commitment" (str []))
      ≡ true
  pub terms :
      verify_matches_commitment_terms e default_tolerance
        (get_or k.payload "trade_details" (obj end))
        (get_or x.payload "execution_result" (obj end))
      ≡ ok true

pub record IsSettled (e : Env) (c : Curve) (g : AccountKeyRegistry) (scope : Text) (k x s : Entry)
    : Type 0 where
  pub signature : signed e c s ≡ true
  pub signer : IsSigner g scope s.sig
  pub broker : IsBroker g scope s.payload
  pub chain : verify_chain e c k.sig x.sig s.payload ≡ ok true
  pub seeds : verify_all_seeds_independent s.payload ≡ ok true
  pub windows : verify_all_temporal_windows s.payload ≡ ok true

pub commitment_ok-IsCommitted :
    (e : Env) (c : Curve) (g : AccountKeyRegistry) (scope : Text) (k : Entry)
    → commitment_ok e c (some g) scope k ≡ ok true
    → IsCommitted e c g scope k
unfolding commitment_ok
commitment_ok-IsCommitted e c g scope k h =
    let (quantum_ok, h1, r1) = >>=-eq-ok (commitment_quantum_binding k.payload) _ h in
    let (temporal_ok, h2, r2) = >>=-eq-ok (commitment_temporal_safety k.payload) _ r1 in
    let (identified, h3, r3) = >>=-eq-ok (identity_ok (some g) scope k.sig) _ r2 in
    let all : (signed e c k
          && verify_state_binding k.payload
          && quantum_ok
          && temporal_ok
          && identified)
        ≡ true =
      cc r3 in
    let (p4, i) = and-eq _ identified all in
    let (p3, t) = and-eq _ temporal_ok p4 in
    let (p2, q) = and-eq _ quantum_ok p3 in
    let (sig, st) = and-eq (signed e c k) (verify_state_binding k.payload) p2 in
    record {
      signature = sig;
      state = st;
      quantum = h1 ∙ ap ok q;
      temporal = h2 ∙ ap ok t;
      signer = identity_ok-IsSigner g scope k.sig (h3 ∙ ap ok i);
    }

linked_ok-parts :
    (e : Env) (c : Curve) (k x : Entry)
    → linked_ok e c (some k) x ≡ ok true
    → linked e c (pos 0) k x ≡ ok (true, true, true, true)
unfolding linked_ok
linked_ok-parts e c k x h =
    let ((ref_ok, nonce_ok, seeds, terms), hl, r) = >>=-eq-ok (linked e c (pos 0) k x) _ h in
    let all : (ref_ok && nonce_ok && seeds && terms) ≡ true = cc r in
    let (p3, t) = and-eq _ terms all in
    let (p2, s) = and-eq _ seeds p3 in
    let (a, n) = and-eq ref_ok nonce_ok p2 in hl ∙ cc (a, n, s, t)

pub execution_ok-IsExecuted :
    (e : Env) (c : Curve) (g : AccountKeyRegistry) (scope : Text) (k x : Entry)
    → execution_ok e c (some g) scope (some k) x ≡ ok true
    → IsExecuted e c g scope k x
unfolding execution_ok linked
execution_ok-IsExecuted e c g scope k x h =
    let (quantum_ok, h1, r1) = >>=-eq-ok (execution_quantum_binding x.payload) _ h in
    let (temporal_ok, h2, r2) = >>=-eq-ok (execution_temporal_safety x.payload) _ r1 in
    let (identified, h3, r3) = >>=-eq-ok (identity_ok (some g) scope x.sig) _ r2 in
    let (link, h4, r4) = >>=-eq-ok (linked_ok e c (some k) x) _ r3 in
    let all : (signed e c x && quantum_ok && temporal_ok && identified && link) ≡ true = cc r4 in
    let (p4, l) = and-eq _ link all in
    let (p3, i) = and-eq _ identified p4 in
    let (p2, t) = and-eq _ temporal_ok p3 in
    let (sig, q) = and-eq (signed e c x) quantum_ok p2 in
    let (nonce, hn, s1) =
      >>=-eq-ok (verify_nonce_increment e _ x.payload) _ (linked_ok-parts e c k x (h4 ∙ ap ok l)) in
    let (terms, ht, s2) = >>=-eq-ok (verify_matches_commitment_terms e _ _ _) _ s1 in
    record {
      signature = sig;
      quantum = h1 ∙ ap ok q;
      temporal = h2 ∙ ap ok t;
      signer = identity_ok-IsSigner g scope x.sig (h3 ∙ ap ok i);
      reference = cc s2;
      nonce = hn ∙ cc s2;
      seeds = cc s2;
      terms = ht ∙ cc s2;
    }

pub settlement_ok-IsSettled :
    (e : Env) (c : Curve) (g : AccountKeyRegistry) (scope : Text) (k x s : Entry)
    → settlement_ok e c (some g) scope (some k) (some x) s ≡ ok true
    → IsSettled e c g scope k x s
unfolding settlement_ok chain_ok
settlement_ok-IsSettled e c g scope k x s h =
    let (identified, h1, r1) = >>=-eq-ok (identity_ok (some g) scope s.sig) _ h in
    let (pubkey, h2, r2) = >>=-eq-ok (broker_pubkey s.payload) _ r1 in
    let (broker, h3, r3) = >>=-eq-ok (broker_ok (some g) scope pubkey) _ r2 in
    let (chained, h4, r4) = >>=-eq-ok (verify_chain e c k.sig x.sig s.payload) _ r3 in
    let (seeds, h5, r5) = >>=-eq-ok (verify_all_seeds_independent s.payload) _ r4 in
    let (windows, h6, r6) = >>=-eq-ok (verify_all_temporal_windows s.payload) _ r5 in
    let all : (signed e c s && identified && broker && chained && seeds && windows) ≡ true =
      cc r6 in
    let (p5, w) = and-eq _ windows all in
    let (p4, d) = and-eq _ seeds p5 in
    let (p3, l) = and-eq _ chained p4 in
    let (p2, b) = and-eq _ broker p3 in
    let (sig, i) = and-eq (signed e c s) identified p2 in
    record {
      signature = sig;
      signer = identity_ok-IsSigner g scope s.sig (h1 ∙ ap ok i);
      broker = broker_ok-IsBroker g scope s.payload pubkey h2 (h3 ∙ ap ok b);
      chain = h4 ∙ ap ok l;
      seeds = h5 ∙ ap ok d;
      windows = h6 ∙ ap ok w;
    }

-- Without a registry no phase is valid.
pub commitment_ok-none {ℓ} :
    {C : Type ℓ} (e : Env) (c : Curve) (scope : Text) (k : Entry)
    → commitment_ok e c none scope k ≡ ok true
    → C
unfolding commitment_ok identity_ok
commitment_ok-none e c scope k h =
    let (quantum_ok, h1, r1) = >>=-eq-ok (commitment_quantum_binding k.payload) _ h in
    let (temporal_ok, h2, r2) = >>=-eq-ok (commitment_temporal_safety k.payload) _ r1 in
    let all : (signed e c k && verify_state_binding k.payload && quantum_ok && temporal_ok && false)
        ≡ true =
      cc r2 in
    let (_, i) = and-eq _ false all in absurd (cc i)
