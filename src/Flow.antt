-- ===== src/Flow.antt =====
-- `class AuditVerifier` of aether_protocol_c/verify.py: the verdict on a trade flow, and the issues
-- found in one. The lines of text that explain a verdict are not modelled; an issue is named by its
-- label.
pub mod Signers
pub mod Phases
pub mod Certified
pub mod Issues
pub mod Agreement
pub mod Linked
pub mod Bound
pub mod Trade
pub mod Checked
pub mod Honest
pub mod Reread
pub mod RereadLinks
pub mod RereadTerms
pub mod RereadSettlement
pub mod RereadFlow
use protocol_c.Prelude.{
  ℕ, ◌+◌, Bool, true, false, not, ◌&&◌, ◌||◌, Option, none, some, List, [], ◌∷◌, ◌++◌, Text,
  if◌then◌else◌,
}
use protocol_c.Prelude.Int.{ℤ, pos, negsuc}
use protocol_c.Py.Result.{Result, ok, err, attribute_error, ◌>>=◌}
use protocol_c.Py.Value.{
  Value, null, bool, int, float, str, arr, obj, Dict, end, field, get_or, as_dict,
}
use protocol_c.Py.Compare.{truthy}
use protocol_c.Py.Env.{Env}
use protocol_c.Curve.{Curve}
use protocol_c.Identity.{AccountKeyRegistry, is_authorized, non_empty, broker_scope}
use protocol_c.Key.{verify_signature}
use protocol_c.Commitment.{
  verify_state_binding, commitment_quantum_binding, commitment_temporal_safety,
}
use protocol_c.Execution.{
  default_tolerance, execution_quantum_binding, execution_temporal_safety,
  verify_references_commitment, verify_nonce_increment, verify_independent_seeds,
  verify_matches_commitment_terms,
}
use protocol_c.Settlement.{
  or_empty, verify_chain, verify_all_seeds_independent, verify_all_temporal_windows,
}

-- One phase of a flow: `get_trade_flow` sets its data, its signature and its proof together.
pub record Entry : Type 0 where
  pub payload : Dict
  pub sig : Dict
  pub proof : Dict

-- What `get_trade_flow` returns.
pub record Flow : Type 0 where
  pub commitment : Option Entry
  pub execution : Option Entry
  pub settlement : Option Entry

-- `account_id or order_id`
abbrev pub scope_of : Option Text → Text → Text
scope_of none order_id = order_id
scope_of (some a) order_id = if non_empty a then a else order_id

-- `registry.is_authorized(account_id, v)` on any value: only a text has `lower`.
unfoldable pub authorized_value : AccountKeyRegistry → Text → Value → Result Bool
authorized_value r account_id (str t) = ok (is_authorized r account_id t)
authorized_value r account_id v =
    if not (non_empty account_id) || not (truthy v) then ok false else err attribute_error

-- `_identity_ok`
unfoldable pub identity_ok : Option AccountKeyRegistry → Text → Dict → Result Bool
unfolding authorized_value
identity_ok none scope signature = ok false
identity_ok (some r) scope signature =
    if not (truthy (obj signature))
    then ok false
    else authorized_value r scope (get_or signature "pubkey" (str []))

-- `(broker_signature or {}).get("pubkey", "")`
unfoldable pub broker_pubkey : Dict → Result Value
broker_pubkey settlement = do
  d ← as_dict (or_empty (get_or settlement "broker_signature" null))
  ok (get_or d "pubkey" (str []))

-- `registry is not None and registry.is_broker_authorized(scope, v)`
unfoldable pub broker_ok : Option AccountKeyRegistry → Text → Value → Result Bool
unfolding authorized_value
broker_ok none scope v = ok false
broker_ok (some r) scope v = authorized_value r (broker_scope scope) v

pub record Report : Type 0 where
  pub quantum_safe : Bool
  pub chain_valid : Bool
  pub commitment_valid : Option Bool
  pub execution_valid : Option Bool
  pub settlement_valid : Option Bool
  pub identity_bound : Bool

-- `None` where a phase is missing
unfoldable pub if_present : Option Entry → (Entry → Result Bool) → Result (Option Bool)
if_present none check = ok none
if_present (some k) check = do b ← check k; ok (some b)

-- `v is True`
abbrev pub is_true : Option Bool → Bool
is_true none = false
is_true (some b) = b

abbrev pub is_some {ℓ} : {A : Type ℓ} → Option A → Bool
is_some none = false
is_some (some a) = true

module _ (e : Env) (c : Curve) where
  unfoldable pub signed : Entry → Bool
  signed k = verify_signature e c (obj k.payload) (obj k.sig)

  -- `commitment_valid` where the phase is there
  unfoldable pub commitment_ok : Option AccountKeyRegistry → Text → Entry → Result Bool
  unfolding signed
  commitment_ok registry scope k = do
    quantum_ok ← commitment_quantum_binding k.payload
    temporal_ok ← commitment_temporal_safety k.payload
    identified ← identity_ok registry scope k.sig
    ok (signed k && verify_state_binding k.payload && quantum_ok && temporal_ok && identified)

  -- The four checks of an execution against its commitment.
  unfoldable pub linked : ℤ → Entry → Entry → Result (Bool × Bool × Bool × Bool)
  linked default_nonce k x = do
    nonce_ok ← verify_nonce_increment e (get_or k.payload "nonce" (int default_nonce)) x.payload
    terms_ok ←
        verify_matches_commitment_terms e default_tolerance
          (get_or k.payload "trade_details" (obj end))
          (get_or x.payload "execution_result" (obj end))
    ok (
      verify_references_commitment x.payload k.sig,
      nonce_ok,
      verify_independent_seeds (get_or k.payload "quantum_seed_commitment" (str []))
          (get_or x.payload "execution_quantum_seed_commitment" (str [])),
      terms_ok,
    )

  -- All four of them, if there is a commitment.
  unfoldable pub linked_ok : Option Entry → Entry → Result Bool
  unfolding linked
  linked_ok none x = ok true
  linked_ok (some k) x = do
    (ref_ok, nonce_ok, seeds_independent, terms_ok) ← linked (pos 0) k x
    ok (ref_ok && nonce_ok && seeds_independent && terms_ok)

  -- `execution_valid` where the phase is there
  unfoldable pub execution_ok :
      Option AccountKeyRegistry → Text → Option Entry → Entry → Result Bool
  unfolding signed linked_ok
  execution_ok registry scope commitment x = do
    quantum_ok ← execution_quantum_binding x.payload
    temporal_ok ← execution_temporal_safety x.payload
    identified ← identity_ok registry scope x.sig
    link_ok ← linked_ok commitment x
    ok (signed x && quantum_ok && temporal_ok && identified && link_ok)

  -- `verify_chain` where both earlier phases are there
  unfoldable pub chain_ok : Option Entry → Option Entry → Entry → Result Bool
  chain_ok (some k) (some x) s = verify_chain e c k.sig x.sig s.payload
  chain_ok (some k) none s = ok true
  chain_ok none x s = ok true

  -- `settlement_valid` where the phase is there
  unfoldable pub settlement_ok :
      Option AccountKeyRegistry → Text → Option Entry → Option Entry → Entry → Result Bool
  unfolding signed broker_pubkey broker_ok chain_ok
  settlement_ok registry scope commitment execution s = do
    identified ← identity_ok registry scope s.sig
    pubkey ← broker_pubkey s.payload
    broker_identity_ok ← broker_ok registry scope pubkey
    chained ← chain_ok commitment execution s
    seeds_ok ← verify_all_seeds_independent s.payload
    temporal_ok ← verify_all_temporal_windows s.payload
    ok (signed s && identified && broker_identity_ok && chained && seeds_ok && temporal_ok)

  -- `verify_trade_flow`, of the flow that was read.
  unfoldable pub verify_trade_flow :
      Text → Flow → Option AccountKeyRegistry → Option Text → Result Report
  unfolding if_present commitment_ok execution_ok settlement_ok
  verify_trade_flow order_id flow registry account_id = do
    let scope = scope_of account_id order_id
    commitment_valid ← if_present flow.commitment (λ k. commitment_ok registry scope k)
    execution_valid ← if_present flow.execution (λ x. execution_ok registry scope flow.commitment x)
    settlement_valid ←
        if_present flow.settlement
          (λ s. settlement_ok registry scope flow.commitment flow.execution s)
    let chain_valid =
        is_true commitment_valid && is_true execution_valid && is_true settlement_valid
    ok (record {
      quantum_safe = chain_valid;
      chain_valid = chain_valid;
      commitment_valid = commitment_valid;
      execution_valid = execution_valid;
      settlement_valid = settlement_valid;
      identity_bound = is_some registry;
    })
