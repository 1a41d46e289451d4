-- ===== src/Flow/Issues.antt =====
-- `detect_tampering` of aether_protocol_c/verify.py.
use protocol_c.Prelude.{Bool, true, false, Option, none, some, List, [], ◌∷◌, ◌++◌, Text}
use protocol_c.Prelude.Int.{negsuc}
use protocol_c.Py.Result.{Result, ok, ◌>>=◌}
use protocol_c.Py.Value.{str, Dict, get_or}
use protocol_c.Py.Env.{Env}
use protocol_c.Curve.{Curve}
use protocol_c.Identity.{AccountKeyRegistry}
use protocol_c.Commitment.{
  verify_state_binding, commitment_quantum_binding, commitment_temporal_safety,
}
use protocol_c.Execution.{execution_quantum_binding}
use protocol_c.Settlement.{verify_all_seeds_independent, verify_all_temporal_windows}
use protocol_c.Flow.{
  Entry, Flow, scope_of, authorized_value, broker_pubkey, broker_ok, signed, linked, chain_ok,
}

pub data PhaseName : Type 0 where
  the_commitment the_execution the_settlement : PhaseName

-- The label before the colon of each message.
pub data Issue : Type 0 where
  commitment_sig_invalid commitment_state_unbound commitment_quantum_unbound : Issue
  commitment_temporal_unsafe execution_sig_invalid execution_quantum_unbound : Issue
  execution_commitment_mismatch execution_nonce_invalid seed_reuse : Issue
  execution_terms_mismatch settlement_sig_invalid settlement_chain_broken : Issue
  seed_reuse_in_chain temporal_window_unsafe : Issue
  identity_unverified unauthorized_key : PhaseName → Issue
  broker_identity_unverified broker_unauthorized_key : Issue

-- `if not b: issues.append(i)`
abbrev pub unless : Bool → Issue → List Issue
unless true i = []
unless false i = i ∷ []

-- `_check_identity`
unfoldable pub check_identity :
    Option AccountKeyRegistry → Text → PhaseName → Dict → Result (List Issue)
check_identity none scope label signature = ok (identity_unverified label ∷ [])
check_identity (some r) scope label signature = do
  authorized ← authorized_value r scope (get_or signature "pubkey" (str []))
  ok (unless authorized (unauthorized_key label))

-- The same of the broker.
unfoldable pub check_broker : Option AccountKeyRegistry → Text → Dict → Result (List Issue)
check_broker none scope settlement = do
  pubkey ← broker_pubkey settlement
  ok (broker_identity_unverified ∷ [])
check_broker (some r) scope settlement = do
  pubkey ← broker_pubkey settlement
  authorized ← broker_ok (some r) scope pubkey
  ok (unless authorized broker_unauthorized_key)

module _ (e : Env) (c : Curve) where
  unfoldable pub commitment_issues : Option AccountKeyRegistry → Text → Entry → Result (List Issue)
  unfolding check_identity
  commitment_issues registry scope k = do
    quantum_ok ← commitment_quantum_binding k.payload
    temporal_ok ← commitment_temporal_safety k.payload
    identity ← check_identity registry scope the_commitment k.sig
    ok (
        unless (signed e c k) commitment_sig_invalid
        ++ (unless (verify_state_binding k.payload) commitment_state_unbound
            ++ (unless quantum_ok commitment_quantum_unbound
                ++ (unless temporal_ok commitment_temporal_unsafe ++ identity))))

  -- The issues of an execution against its commitment, where -1 stands for a missing nonce.
  unfoldable pub link_issues : Option Entry → Entry → Result (List Issue)
  link_issues none x = ok []
  link_issues (some k) x = do
    (ref_ok, nonce_ok, seeds_independent, terms_ok) ← linked e c (negsuc 0) k x
    ok (
        unless ref_ok execution_commitment_mismatch
        ++ (unless nonce_ok execution_nonce_invalid
            ++ (unless seeds_independent seed_reuse ++ unless terms_ok execution_terms_mismatch)))

  unfoldable pub execution_issues :
      Option AccountKeyRegistry → Text → Option Entry → Entry → Result (List Issue)
  unfolding check_identity link_issues
  execution_issues registry scope commitment x = do
    quantum_ok ← execution_quantum_binding x.payload
    links ← link_issues commitment x
    identity ← check_identity registry scope the_execution x.sig
    ok (
        unless (signed e c x) execution_sig_invalid
        ++ (unless quantum_ok execution_quantum_unbound ++ (links ++ identity)))

  unfoldable pub settlement_issues :
      Option AccountKeyRegistry → Text → Option Entry → Option Entry → Entry → Result (List Issue)
  unfolding check_identity check_broker
  settlement_issues registry scope commitment execution s = do
    chained ← chain_ok e c commitment execution s
    seeds_ok ← verify_all_seeds_independent s.payload
    temporal_ok ← verify_all_temporal_windows s.payload
    identity ← check_identity registry scope the_settlement s.sig
    broker ← check_broker registry scope s.payload
    ok (
        unless (signed e c s) settlement_sig_invalid
        ++ (unless chained settlement_chain_broken
            ++ (unless seeds_ok seed_reuse_in_chain
                ++ (unless temporal_ok temporal_window_unsafe ++ (identity ++ broker)))))

  -- A missing phase has no issues.
  unfoldable pub issues_if_present :
      Option Entry → (Entry → Result (List Issue)) → Result (List Issue)
  issues_if_present none check = ok []
  issues_if_present (some k) check = check k

  -- `detect_tampering`, of the flow that was read: the issues, and `tampered` is whether there is one.
  unfoldable pub detect_tampering :
      Text → Flow → Option AccountKeyRegistry → Option Text → Result (List Issue)
  unfolding issues_if_present commitment_issues execution_issues settlement_issues
  detect_tampering order_id flow registry account_id = do
    let scope = scope_of account_id order_id
    first ← issues_if_present flow.commitment (λ k. commitment_issues registry scope k)
    second ←
        issues_if_present flow.execution (λ x. execution_issues registry scope flow.commitment x)
    third ←
        issues_if_present flow.settlement
          (λ s. settlement_issues registry scope flow.commitment flow.execution s)
    ok (first ++ (second ++ third))
