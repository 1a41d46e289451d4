-- ===== src/Flow/Bound.antt =====
-- The checks of one phase in the verdict, from the checks of its parts.
use protocol_c.Prelude.{◌≡◌, refl, true, Option, some, [], Text}
use protocol_c.Py.Result.{ok}
use protocol_c.Py.Value.{str, Dict, dict_get, get_or, as_dict}
use protocol_c.Py.Env.{Env}
use protocol_c.Curve.{Curve}
use protocol_c.Identity.{AccountKeyRegistry}
use protocol_c.Key.Verified.{IsShaped, IsSealed, truthy-IsShaped}
use protocol_c.Commitment.Created.{IsBound}
use protocol_c.Execution.Created.{IsBoundExecution}
use protocol_c.Settlement.{
  QuantumSettlementRecord, settlement_signable, verify_chain, verify_all_seeds_independent,
  verify_all_temporal_windows,
}
use protocol_c.Flow.{
  Entry, signed, identity_ok, broker_pubkey, broker_ok, commitment_ok, linked_ok, execution_ok,
  chain_ok, settlement_ok,
}

module _ (e : Env) (c : Curve) (r : AccountKeyRegistry) (scope : Text) where
  pub commitment_ok-bound :
      (d sig p : Dict)
      → IsBound d
      → IsSealed e c d sig
      → identity_ok (some r) scope sig ≡ ok true
      → commitment_ok e c (some r) scope (record { payload = d; sig = sig; proof = p }) ≡ ok true
  unfolding commitment_ok signed
  commitment_ok-bound d sig p (state, quantum, temporal) (sealed, _) identified =
      rw (quantum, temporal, identified, sealed, state) refl

  pub execution_ok-bound :
      (k : Option Entry) (d sig p : Dict)
      → IsBoundExecution d
      → IsSealed e c d sig
      → identity_ok (some r) scope sig ≡ ok true
      → linked_ok e c k (record { payload = d; sig = sig; proof = p }) ≡ ok true
      → execution_ok e c (some r) scope k (record { payload = d; sig = sig; proof = p }) ≡ ok true
  unfolding execution_ok signed
  execution_ok-bound k d sig p (quantum, temporal) (sealed, _) identified linked =
      rw (quantum, temporal, identified, sealed, linked) refl

  pub settlement_ok-bound :
      (k x : Entry) (s : QuantumSettlementRecord) (sig p : Dict)
      → IsSealed e c (settlement_signable s) sig
      → identity_ok (some r) scope sig ≡ ok true
      → IsShaped s.broker_signature
      → broker_ok (some r) scope (get_or s.broker_signature "pubkey" (str [])) ≡ ok true
      → verify_chain e c k.sig x.sig (settlement_signable s) ≡ ok true
      → verify_all_seeds_independent (settlement_signable s) ≡ ok true
      → verify_all_temporal_windows (settlement_signable s) ≡ ok true
      → settlement_ok e c
          (some r)
          scope
          (some k)
          (some x)
          (record { payload = settlement_signable s; sig = sig; proof = p })
        ≡ ok true
  unfolding settlement_ok signed broker_pubkey chain_ok
  settlement_ok-bound k x s sig p (sealed, _) identified shaped broker chained seeds windows =
      let cited : broker_pubkey (settlement_signable s)
          ≡ ok (get_or s.broker_signature "pubkey" (str [])) =
        unfold settlement_signable get_or dict_get as_dict in rw (truthy-IsShaped shaped) refl in
      rw (identified, cited, broker, chained, seeds, windows, sealed) refl
