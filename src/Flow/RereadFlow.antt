-- ===== src/Flow/RereadFlow.antt =====
-- What the log changes in a flow, the order of the keys of its dicts, does not change the verdict.
use protocol_c.Prelude.{◌≡◌, refl, Bool, Option, none, some, [], Text, inl, inr}
use protocol_c.Prelude.Int.{ℤ, pos}
use protocol_c.Py.Result.{Result, Result-cases}
use protocol_c.Py.Value.{Value, int, str, obj, end, get_or}
use protocol_c.Py.Env.{Env}
use protocol_c.Py.Sorted.{sort_keys, sort_dict}
use protocol_c.Py.Sorted.Values.{get_text-sort_dict, get_int-sort_dict, get_end-sort_dict}
use protocol_c.Curve.{Curve}
use protocol_c.Identity.{AccountKeyRegistry, broker_scope}
use protocol_c.Execution.{default_tolerance}
use protocol_c.Flow.{
  Entry, Flow, scope_of, broker_pubkey, broker_ok, if_present, signed, commitment_ok, linked,
  linked_ok, execution_ok, chain_ok, settlement_ok, verify_trade_flow,
}
use protocol_c.Flow.Reread.{
  verify_state_binding-sort_dict, commitment_quantum_binding-sort_dict,
  commitment_temporal_safety-sort_dict, execution_quantum_binding-sort_dict,
  execution_temporal_safety-sort_dict,
}
use protocol_c.Flow.RereadLinks.{
  IsCanonical, verify_signature-sort_keys, authorized_value-sort_keys, identity_ok-sort_dict,
}
use protocol_c.Flow.RereadTerms.{
  verify_references_commitment-sort_dict, verify_independent_seeds-sort_keys,
  verify_nonce_increment-sort_dict, verify_matches_commitment_terms-sort_keys,
}
use protocol_c.Flow.RereadSettlement.{
  broker_pubkey-sort_dict, verify_chain-sort_dict, verify_all_seeds_independent-sort_dict,
  verify_all_temporal_windows-sort_dict,
}

-- A phase as the log gives it back: its dicts, with their keys in order.
abbrev pub sorted_entry : Entry → Entry
sorted_entry k = record {
  payload = sort_dict k.payload;
  sig = sort_dict k.sig;
  proof = sort_dict k.proof;
}

abbrev pub sorted_option : Option Entry → Option Entry
sorted_option none = none
sorted_option (some k) = some (sorted_entry k)

abbrev pub sorted_flow : Flow → Flow
sorted_flow flow = record {
  commitment = sorted_option flow.commitment;
  execution = sorted_option flow.execution;
  settlement = sorted_option flow.settlement;
}

broker_ok-sort_keys :
    (r : Option AccountKeyRegistry) (scope : Text) (v : Value)
    → broker_ok r scope (sort_keys v) ≡ broker_ok r scope v
unfolding broker_ok
broker_ok-sort_keys none scope v = refl
broker_ok-sort_keys (some r) scope v = authorized_value-sort_keys r (broker_scope scope) v

module _ {e : Env} (h : IsCanonical e) (c : Curve) where
  signed-sorted_entry : (k : Entry) → signed e c (sorted_entry k) ≡ signed e c k
  unfolding signed sort_keys
  signed-sorted_entry k = verify_signature-sort_keys h c (obj k.payload) (obj k.sig)

  commitment_ok-sorted_entry :
      (r : Option AccountKeyRegistry) (scope : Text) (k : Entry)
      → commitment_ok e c r scope (sorted_entry k) ≡ commitment_ok e c r scope k
  unfolding commitment_ok
  commitment_ok-sorted_entry r scope k =
      rw
        (
          commitment_quantum_binding-sort_dict k.payload,
          commitment_temporal_safety-sort_dict k.payload,
          identity_ok-sort_dict r scope k.sig,
          signed-sorted_entry k,
          verify_state_binding-sort_dict k.payload,
        )
        refl

  linked-sorted_entry :
      (z : ℤ) (k x : Entry) → linked e c z (sorted_entry k) (sorted_entry x) ≡ linked e c z k x
  unfolding linked
  linked-sorted_entry z k x =
      rw
        (
          get_int-sort_dict k.payload "nonce" z,
          verify_nonce_increment-sort_dict e (get_or k.payload "nonce" (int z)) x.payload,
          get_end-sort_dict k.payload "trade_details",
          get_end-sort_dict x.payload "execution_result",
          verify_matches_commitment_terms-sort_keys e default_tolerance
              (get_or k.payload "trade_details" (obj end))
              (get_or x.payload "execution_result" (obj end)),
          verify_references_commitment-sort_dict x.payload k.sig,
          get_text-sort_dict k.payload "quantum_seed_commitment" [],
          get_text-sort_dict x.payload "execution_quantum_seed_commitment" [],
          verify_independent_seeds-sort_keys (get_or k.payload "quantum_seed_commitment" (str []))
              (get_or x.payload "execution_quantum_seed_commitment" (str [])),
        )
        refl

  linked_ok-sorted_entry :
      (k : Option Entry) (x : Entry)
      → linked_ok e c (sorted_option k) (sorted_entry x) ≡ linked_ok e c k x
  unfolding linked_ok
  linked_ok-sorted_entry none x = refl
  linked_ok-sorted_entry (some k) x = rw (linked-sorted_entry (pos 0) k x) refl

  execution_ok-sorted_entry :
      (r : Option AccountKeyRegistry) (scope : Text) (k : Option Entry) (x : Entry)
      → execution_ok e c r scope (sorted_option k) (sorted_entry x) ≡ execution_ok e c r scope k x
  unfolding execution_ok
  execution_ok-sorted_entry r scope k x =
      rw
        (
          execution_quantum_binding-sort_dict x.payload,
          execution_temporal_safety-sort_dict x.payload,
          identity_ok-sort_dict r scope x.sig,
          linked_ok-sorted_entry k x,
          signed-sorted_entry x,
        )
        refl

  chain_ok-sorted_entry :
      (k x : Option Entry) (s : Entry)
      → chain_ok e c (sorted_option k) (sorted_option x) (sorted_entry s) ≡ chain_ok e c k x s
  unfolding chain_ok
  chain_ok-sorted_entry (some k) (some x) s = verify_chain-sort_dict h c k.sig x.sig s.payload
  chain_ok-sorted_entry (some k) none s = refl
  chain_ok-sorted_entry none x s = refl

  settlement_ok-sorted_entry :
      (r : Option AccountKeyRegistry) (scope : Text) (k x : Option Entry) (s : Entry)
      → settlement_ok e c r scope (sorted_option k) (sorted_option x) (sorted_entry s)
        ≡ settlement_ok e c r scope k x s
  unfolding settlement_ok
  settlement_ok-sorted_entry r scope k x s = elim (Result-cases (broker_pubkey s.payload)) [
    | inr (raised, fails) ↦
        rw (identity_ok-sort_dict r scope s.sig, broker_pubkey-sort_dict s.payload, fails) refl
    | inl (v, found) ↦
        rw
          (
            identity_ok-sort_dict r scope s.sig,
            broker_pubkey-sort_dict s.payload,
            found,
            broker_ok-sort_keys r scope v,
            chain_ok-sorted_entry k x s,
            verify_all_seeds_independent-sort_dict s.payload,
            verify_all_temporal_windows-sort_dict s.payload,
            signed-sorted_entry s,
          )
          refl
  ]

  if_present-sorted_option :
      (k : Option Entry) (check check' : Entry → Result Bool)
      → ((x : Entry) → check (sorted_entry x) ≡ check' x)
      → if_present (sorted_option k) check ≡ if_present k check'
  unfolding if_present
  if_present-sorted_option none check check' same = refl
  if_present-sorted_option (some k) check check' same = rw (same k) refl

  -- If `json.dumps` with `sort_keys=True` writes the same text whatever the order of the keys, a
  -- flow whose dicts all have their keys sorted, as the log gives them back, gets from
  -- `verify_trade_flow` the report of the flow itself, or the same exception.
  pub verify_trade_flow-sorted :
      (order_id : Text) (flow : Flow) (r : Option AccountKeyRegistry) (account_id : Option Text)
      → verify_trade_flow e c order_id (sorted_flow flow) r account_id
        ≡ verify_trade_flow e c order_id flow r account_id
  unfolding verify_trade_flow
  verify_trade_flow-sorted order_id flow r account_id =
      let scope = scope_of account_id order_id in
      rw
        (
          if_present-sorted_option flow.commitment _ _ (commitment_ok-sorted_entry r scope),
          if_present-sorted_option flow.execution _ _
              (execution_ok-sorted_entry r scope flow.commitment),
          if_present-sorted_option flow.settlement _ _
              (settlement_ok-sorted_entry r scope flow.commitment flow.execution),
        )
        refl
