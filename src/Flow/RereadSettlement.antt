-- ===== src/Flow/RereadSettlement.antt =====
-- What the log changes in a dict, the order of its keys, does not change the checks of a settlement.
use protocol_c.Prelude.{
  ◌≡◌, refl, sym, ap, ap₂, ◌∙◌, Bool, false, not, ◌||◌, List, [], ◌∷◌, String, if◌then◌else◌, inl,
  inr, Bool-cases,
}
use protocol_c.Prelude.Int.{pos}
use protocol_c.Py.Result.{Result, ok, ◌>>=◌, >>=-cong}
use protocol_c.Py.Value.{Value, null, bool, int, float, str, arr, obj, Dict, end, get_or, as_dict}
use protocol_c.Py.Compare.{truthy, py_eq}
use protocol_c.Py.Env.{Env}
use protocol_c.Py.Sorted.{sort_keys, sort_dict}
use protocol_c.Py.Sorted.Values.{
  get_null-sort_dict, get_text-sort_dict, get_int-sort_dict, get_end-sort_dict, truthy-sort_keys,
}
use protocol_c.Py.Sorted.Again.{sort_keys-again, sort_dict-again}
use protocol_c.Py.Sorted.Equal.{py_eq-sort_keys}
use protocol_c.Py.Sorted.Ordered.{order-sort_keys}
use protocol_c.Curve.{Curve}
use protocol_c.Key.{verify_signature}
use protocol_c.Settlement.{
  or_empty, compute_flow_merkle, build_broker_attestation, verify_chain, is_hashable,
  verify_all_seeds_independent, window_is_safe, windows_are_safe, verify_all_temporal_windows,
}
use protocol_c.Flow.{broker_pubkey}
use protocol_c.Flow.Reread.{py_eq-named}
use protocol_c.Flow.RereadLinks.{IsCanonical, verify_signature-sort_keys}
use protocol_c.Flow.RereadTerms.{is_none-sort_keys, py_eq-object}

or_empty-sort_keys : (v : Value) → or_empty (sort_keys v) ≡ sort_keys (or_empty v)
or_empty-sort_keys v = elim (Bool-cases (truthy v)) [
  | inl full ↦ rw (truthy-sort_keys v, full) refl
  | inr empty ↦ rw (truthy-sort_keys v, empty) (unfold sort_keys in refl)
]

-- `v.get("pubkey", "")`
abbrev pubkey_of : Value → Result Value
pubkey_of v = as_dict v >>= λ b. ok (get_or b "pubkey" (str []))

pubkey_of-sort_keys :
    (v : Value) → pubkey_of (sort_keys v) ≡ (pubkey_of v >>= λ w. ok (sort_keys w))
unfolding as_dict sort_keys
pubkey_of-sort_keys (obj b) = ap ok (get_text-sort_dict b "pubkey" [])
pubkey_of-sort_keys null = refl
pubkey_of-sort_keys (bool b) = refl
pubkey_of-sort_keys (int z) = refl
pubkey_of-sort_keys (float b) = refl
pubkey_of-sort_keys (str s) = refl
pubkey_of-sort_keys (arr vs) = refl

pub broker_pubkey-sort_dict :
    (d : Dict) → broker_pubkey (sort_dict d) ≡ (broker_pubkey d >>= λ v. ok (sort_keys v))
unfolding broker_pubkey
broker_pubkey-sort_dict d =
    let cited = get_or d "broker_signature" null in
    rw (get_null-sort_dict d "broker_signature", or_empty-sort_keys cited)
      (pubkey_of-sort_keys (or_empty cited))

module _ {e : Env} (h : IsCanonical e) (c : Curve) where
  dumps-object : (d : Dict) → e.dumps (obj (sort_dict d)) ≡ e.dumps (obj d)
  unfolding sort_keys
  dumps-object d = h.same_dumps (obj d)

  compute_flow_merkle-sort_keys :
      (ks xs : Dict) (ack b : Value)
      → compute_flow_merkle e (sort_dict ks) (sort_dict xs) (sort_keys ack) (sort_keys b)
        ≡ compute_flow_merkle e ks xs ack b
  unfolding compute_flow_merkle sort_keys
  compute_flow_merkle-sort_keys ks xs (str t) b =
      rw (or_empty-sort_keys b, h.same_dumps (or_empty b), dumps-object ks, dumps-object xs) refl
  compute_flow_merkle-sort_keys ks xs null w = refl
  compute_flow_merkle-sort_keys ks xs (bool b) w = refl
  compute_flow_merkle-sort_keys ks xs (int z) w = refl
  compute_flow_merkle-sort_keys ks xs (float b) w = refl
  compute_flow_merkle-sort_keys ks xs (arr vs) w = refl
  compute_flow_merkle-sort_keys ks xs (obj d) w = refl

  -- The broker's attestation of dicts with sorted keys.
  attestation-again :
      (id ack : Value) (ks xs : Dict)
      → sort_keys (
          obj
            (build_broker_attestation (sort_keys id) (sort_dict ks) (sort_dict xs) (sort_keys ack)))
        ≡ sort_keys (obj (build_broker_attestation id ks xs ack))
  unfolding sort_keys build_broker_attestation
  attestation-again id ack ks xs =
      rw (sort_keys-again id, sort_keys-again ack, sort_dict-again ks, sort_dict-again xs) refl

  verify_signature-attestation :
      (id ack : Value) (ks xs : Dict) (s : Value)
      → verify_signature e c
          (obj
            (build_broker_attestation (sort_keys id) (sort_dict ks) (sort_dict xs) (sort_keys ack)))
          (sort_keys s)
        ≡ verify_signature e c (obj (build_broker_attestation id ks xs ack)) s
  verify_signature-attestation id ack ks xs s =
      sym (
        verify_signature-sort_keys h c
          (obj
            (build_broker_attestation (sort_keys id) (sort_dict ks) (sort_dict xs) (sort_keys ack)))
          (sort_keys s))
      ∙ ap₂ (λ (m t : Value). verify_signature e c m t) (attestation-again id ack ks xs)
          (sort_keys-again s)
      ∙ verify_signature-sort_keys h c (obj (build_broker_attestation id ks xs ack)) s

  pub verify_chain-sort_dict :
      (ks xs d : Dict)
      → verify_chain e c (sort_dict ks) (sort_dict xs) (sort_dict d) ≡ verify_chain e c ks xs d
  unfolding verify_chain
  verify_chain-sort_dict ks xs d =
      let ack = get_or d "broker_settlement_sig" (str []) in
      let b = get_or d "broker_signature" null in
      let id = get_or d "order_id" null in
      let merkle = get_or d "flow_merkle_hash" null in
      rw
        (
          get_text-sort_dict d "broker_settlement_sig" [],
          get_null-sort_dict d "broker_signature",
          get_null-sort_dict d "commitment_sig",
          get_null-sort_dict d "execution_sig",
          get_null-sort_dict d "flow_merkle_hash",
          get_null-sort_dict d "order_id",
          py_eq-object (get_or d "commitment_sig" null) ks,
          py_eq-object (get_or d "execution_sig" null) xs,
          compute_flow_merkle-sort_keys ks xs ack b,
          or_empty-sort_keys b,
          verify_signature-attestation id ack ks xs (or_empty b),
        )
        (ap
          (λ (r : Result Bool).
            if not (py_eq (get_or d "commitment_sig" null) (obj ks))
              || not (py_eq (get_or d "execution_sig" null) (obj xs))
            then ok false
            else r)
          (>>=-cong (compute_flow_merkle e ks xs ack b) (λ expected.
            ap
              (λ (same : Bool). ok (
                if not same
                then false
                else verify_signature e c (obj (build_broker_attestation id ks xs ack))
                    (or_empty b)))
              (py_eq-named merkle expected))))

is_hashable-sort_keys : (v : Value) → is_hashable (sort_keys v) ≡ is_hashable v
unfolding sort_keys
is_hashable-sort_keys null = refl
is_hashable-sort_keys (bool b) = refl
is_hashable-sort_keys (int z) = refl
is_hashable-sort_keys (float b) = refl
is_hashable-sort_keys (str s) = refl
is_hashable-sort_keys (arr vs) = refl
is_hashable-sort_keys (obj d) = refl

pub verify_all_seeds_independent-sort_dict :
    (d : Dict) → verify_all_seeds_independent (sort_dict d) ≡ verify_all_seeds_independent d
unfolding verify_all_seeds_independent
verify_all_seeds_independent-sort_dict d =
    let a = get_or d "commitment_quantum_seed_commitment" null in
    let b = get_or d "execution_quantum_seed_commitment" null in
    let s = get_or d "settlement_quantum_seed_commitment" null in
    rw
      (
        get_null-sort_dict d "commitment_quantum_seed_commitment",
        get_null-sort_dict d "execution_quantum_seed_commitment",
        get_null-sort_dict d "settlement_quantum_seed_commitment",
        is_hashable-sort_keys a,
        is_hashable-sort_keys b,
        is_hashable-sort_keys s,
        is_none-sort_keys a,
        is_none-sort_keys b,
        is_none-sort_keys s,
        py_eq-sort_keys a b,
        py_eq-sort_keys a s,
        py_eq-sort_keys b s,
      )
      refl

window_is_safe-sort_keys : (v : Value) → window_is_safe (sort_keys v) ≡ window_is_safe v
unfolding window_is_safe sort_keys
window_is_safe-sort_keys (obj w) =
    let expires = get_or w "expires_at" (int (pos 0)) in
    let attack = get_or w "shor_earliest_attack" (int (pos 0)) in
    rw
      (
        get_int-sort_dict w "expires_at" (pos 0),
        get_int-sort_dict w "shor_earliest_attack" (pos 0),
        truthy-sort_keys expires,
        truthy-sort_keys attack,
        order-sort_keys false attack expires,
      )
      refl
window_is_safe-sort_keys null = refl
window_is_safe-sort_keys (bool b) = refl
window_is_safe-sort_keys (int z) = refl
window_is_safe-sort_keys (float b) = refl
window_is_safe-sort_keys (str s) = refl
window_is_safe-sort_keys (arr vs) = refl

windows_are_safe-sort_dict :
    (ks : List String) (d : Dict) → windows_are_safe ks (sort_dict d) ≡ windows_are_safe ks d
unfolding windows_are_safe
windows_are_safe-sort_dict [] d = refl
windows_are_safe-sort_dict (k ∷ ks) d =
    rw
      (
        get_end-sort_dict d k,
        window_is_safe-sort_keys (get_or d k (obj end)),
        windows_are_safe-sort_dict ks d,
      )
      refl

pub verify_all_temporal_windows-sort_dict :
    (d : Dict) → verify_all_temporal_windows (sort_dict d) ≡ verify_all_temporal_windows d
unfolding verify_all_temporal_windows
verify_all_temporal_windows-sort_dict d =
    windows_are_safe-sort_dict
      ("commitment_temporal_window" ∷ "execution_temporal_window" ∷ "settlement_temporal_window"
        ∷ [])
      d
