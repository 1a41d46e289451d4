-- ===== src/Flow/Agreement.antt =====
-- The two verdicts of `AuditVerifier` against each other: a certified flow has no issues.
use protocol_c.Prelude.{
  ◌≡◌, refl, sym, ◌∙◌, true, Option, none, some, [], Text, Option-cases, and-eq, String, inl, inr,
}
use protocol_c.Prelude.Int.{pos, negsuc}
use protocol_c.Py.Result.{ok}
use protocol_c.Py.Value.{Value, null, int, str, Dict, get_or, dict_get}
use protocol_c.Py.Env.{Env}
use protocol_c.Curve.{Curve}
use protocol_c.Identity.{AccountKeyRegistry, is_broker_authorized}
use protocol_c.Commitment.{verify_state_binding, is_int}
use protocol_c.Flow.{
  Entry, Flow, Report, scope_of, authorized_value, broker_ok, linked, chain_ok, verify_trade_flow,
}
use protocol_c.Flow.Signers.{IsSigner, IsBroker}
use protocol_c.Flow.Phases.{IsCommitted, IsExecuted, IsSettled}
use protocol_c.Flow.Certified.{verify_trade_flow-IsCertified}
use protocol_c.Flow.Issues.{
  PhaseName, check_identity, check_broker, commitment_issues, link_issues, execution_issues,
  settlement_issues, issues_if_present, detect_tampering,
}

get_or-found : (d : Dict) (k : String) (v w : Value) → dict_get d k ≡ some v → get_or d k w ≡ v
unfolding get_or
get_or-found d k v w there = rw (there, get_or) refl

get_or-missing : (d : Dict) (k : String) (w : Value) → dict_get d k ≡ none → get_or d k w ≡ w
unfolding get_or
get_or-missing d k w missing = rw (missing, get_or) refl

check_identity-IsSigner :
    (g : AccountKeyRegistry) (scope : Text) (label : PhaseName) (sig : Dict)
    → IsSigner g scope sig
    → check_identity (some g) scope label sig ≡ ok []
unfolding check_identity authorized_value
check_identity-IsSigner g scope label sig s =
    rw (get_or-found sig "pubkey" (str s.key) (str []) s.given, s.registered) refl

check_broker-IsBroker :
    (g : AccountKeyRegistry) (scope : Text) (settlement : Dict)
    → IsBroker g scope settlement
    → check_broker (some g) scope settlement ≡ ok []
unfolding check_broker broker_ok authorized_value is_broker_authorized
check_broker-IsBroker g scope settlement b = rw (b.given, b.registered) refl

commitment_issues-IsCommitted :
    (e : Env) (c : Curve) (g : AccountKeyRegistry) (scope : Text) (k : Entry)
    → IsCommitted e c g scope k
    → commitment_issues e c (some g) scope k ≡ ok []
unfolding commitment_issues
commitment_issues-IsCommitted e c g scope k h =
    rw
      (
        h.quantum,
        h.temporal,
        check_identity-IsSigner g scope _ k.sig h.signer,
        h.signature,
        h.state,
      )
      refl

-- With a nonce in the commitment its default does not matter.
nonce-default :
    (d : Dict) (v w : Value)
    → verify_state_binding d ≡ true
    → get_or d "nonce" v ≡ get_or d "nonce" w
unfolding verify_state_binding
nonce-default d v w h = elim (Option-cases (dict_get d "nonce")) [
  | inl missing ↦
      let (_, i) = and-eq _ (is_int (get_or d "nonce" null)) h in
      cc (rw (get_or-missing d "nonce" null missing) at i)
  | inr (x, there) ↦ get_or-found d "nonce" x v there ∙ sym (get_or-found d "nonce" x w there)
]

link_issues-IsExecuted :
    (e : Env) (c : Curve) (g : AccountKeyRegistry) (scope : Text) (k x : Entry)
    → verify_state_binding k.payload ≡ true
    → IsExecuted e c g scope k x
    → link_issues e c (some k) x ≡ ok []
unfolding link_issues linked
link_issues-IsExecuted e c g scope k x bound h =
    rw
      (
        nonce-default k.payload (int (negsuc 0)) (int (pos 0)) bound,
        h.nonce,
        h.terms,
        h.reference,
        h.seeds,
      )
      refl

execution_issues-IsExecuted :
    (e : Env) (c : Curve) (g : AccountKeyRegistry) (scope : Text) (k x : Entry)
    → verify_state_binding k.payload ≡ true
    → IsExecuted e c g scope k x
    → execution_issues e c (some g) scope (some k) x ≡ ok []
unfolding execution_issues
execution_issues-IsExecuted e c g scope k x bound h =
    rw
      (
        h.quantum,
        link_issues-IsExecuted e c g scope k x bound h,
        check_identity-IsSigner g scope _ x.sig h.signer,
        h.signature,
      )
      refl

settlement_issues-IsSettled :
    (e : Env) (c : Curve) (g : AccountKeyRegistry) (scope : Text) (k x s : Entry)
    → IsSettled e c g scope k x s
    → settlement_issues e c (some g) scope (some k) (some x) s ≡ ok []
unfolding settlement_issues chain_ok
settlement_issues-IsSettled e c g scope k x s h =
    rw
      (
        h.chain,
        h.seeds,
        h.windows,
        check_identity-IsSigner g scope _ s.sig h.signer,
        check_broker-IsBroker g scope s.payload h.broker,
        h.signature,
      )
      refl

-- If `verify_trade_flow` returns a report with `chain_valid` true, then `detect_tampering` on the
-- same flow, registry and account raises nothing and finds no issue.
pub detect_tampering-IsCertified :
    (e : Env) (c : Curve) (order_id : Text) (flow : Flow) (registry : Option AccountKeyRegistry)
    (account_id : Option Text) (report : Report)
    → verify_trade_flow e c order_id flow registry account_id ≡ ok report
    → report.chain_valid ≡ true
    → detect_tampering e c order_id flow registry account_id ≡ ok []
unfolding detect_tampering issues_if_present
detect_tampering-IsCertified e c order_id flow registry account_id report h t =
    let z = verify_trade_flow-IsCertified e c order_id flow registry account_id report h t in
    let scope = scope_of account_id order_id in
    rw
      (
        z.with_commitment,
        z.with_execution,
        z.with_settlement,
        z.with_registry,
        commitment_issues-IsCommitted e c z.g scope z.k z.committed,
        execution_issues-IsExecuted e c z.g scope z.k z.x z.committed.state z.executed,
        settlement_issues-IsSettled e c z.g scope z.k z.x z.s z.settled,
      )
      refl
