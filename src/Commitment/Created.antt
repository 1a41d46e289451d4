-- ===== src/Commitment/Created.antt =====
-- What `create_and_sign` returns passes the checks of the verifier.
use protocol_c.Prelude.{ℕ, ◌<◌, ◌≡◌, refl, sym, ap, ◌∙◌, subst, true, Option, Text, length, arith}
use protocol_c.Prelude.Int.{pos}
use protocol_c.Py.Result.{ok, commitment_error, >>=-eq-ok}
use protocol_c.Py.Value.{Dict, dict_get, get_or, has_key, py_len, as_dict}
use protocol_c.Py.Compare.{py_eq}
use protocol_c.Py.Hex.Digits.{length-hex}
use protocol_c.Py.Env.{Env, IsStandard}
use protocol_c.Curve.{Curve}
use protocol_c.State.{AccountSnapshot, snapshot_to_hash}
use protocol_c.Key.{
  Seed, Readings, QuantumEphemeralKey, default_key_lifetime_seconds, is_measurement_method,
  temporal_window_dict, derive, sign_or_raise,
}
use protocol_c.Key.Derived.{derive-IsDated}
use protocol_c.Key.Window.{
  hour_window, temporal_window_dict-hour, truthy-pos, truthy-wide, truthy-plus, hour-later,
  hour-safe,
}
use protocol_c.Commitment.{
  ReasoningCapture, QuantumDecisionCommitment, commitment_signable, create_commitment,
  verify_state_binding, is_seed_hash, commitment_quantum_binding, commitment_temporal_safety,
}

-- Every check passes on a dict.
abbrev pub IsBound : Dict → Type 0
IsBound d =
    (verify_state_binding d ≡ true)
    × (commitment_quantum_binding d ≡ ok true)
    × (commitment_temporal_safety d ≡ ok true)

-- A commitment whose hashes have 64 characters, whose method is allowed, and whose window is that
-- of a key of an hour.
abbrev pub IsMade : ℕ → QuantumDecisionCommitment → Type 0
IsMade created m =
    (length m.account_state_hash ≡ 64)
    × (length m.quantum_seed_commitment ≡ 64)
    × (is_measurement_method m.seed_measurement_method ≡ true)
    × (m.key_temporal_window ≡ hour_window created)

state_bound :
    (m : QuantumDecisionCommitment)
    → length m.account_state_hash ≡ 64
    → verify_state_binding (commitment_signable m) ≡ true
unfolding verify_state_binding commitment_signable get_or dict_get
state_bound m h = rw (truthy-wide m.account_state_hash 63 h, h) refl

quantum_bound :
    (created : ℕ) (m : QuantumDecisionCommitment)
    → IsMade created m
    → commitment_quantum_binding (commitment_signable m) ≡ ok true
unfolding commitment_quantum_binding commitment_signable get_or dict_get has_key is_seed_hash py_len
    py_eq as_dict
quantum_bound created m (_, wide, named, window) =
    rw (truthy-wide m.quantum_seed_commitment 63 wide, wide, window, named) (hour-later created)

temporal_bound :
    (created : ℕ) (m : QuantumDecisionCommitment)
    → IsMade created m
    → 0 < created
    → commitment_temporal_safety (commitment_signable m) ≡ ok true
unfolding commitment_temporal_safety commitment_signable get_or dict_get as_dict
temporal_bound created m (_, _, _, window) late =
    rw
      (
        window,
        truthy-pos created late,
        truthy-plus created 3600 (omega arith),
        truthy-plus created 604800 (omega arith),
      )
      (hour-safe created)

module _ (e : Env) (c : Curve) (fuel now : ℕ) (t : Readings) (order_id : Text)
    (trade_details : Dict) (account_state : AccountSnapshot) (seed : Seed) (method : Text)
    (reasoning : Option ReasoningCapture) where
  -- The commitment that is signed with a key.
  abbrev pub commitment_of : QuantumEphemeralKey → QuantumDecisionCommitment
  commitment_of key = record {
    order_id = order_id;
    trade_details = trade_details;
    account_state_hash = snapshot_to_hash e account_state;
    quantum_seed_commitment = key.seed_commitment.seed_hash;
    seed_measurement_method = method;
    key_temporal_window = temporal_window_dict key.seed_commitment;
    nonce = account_state.nonce;
    timestamp = pos now;
    reasoning = reasoning;
  }

  -- The parts of a `create_and_sign` that returned.
  pub record IsCreated (d sig : Dict) (m : QuantumDecisionCommitment) : Type 0 where
    pub key : QuantumEphemeralKey
    pub derived : derive e c t seed method default_key_lifetime_seconds ≡ ok key
    pub signed : sign_or_raise e c fuel t commitment_error d key ≡ ok sig
    pub built : commitment_of key ≡ m
    pub printed : commitment_signable (commitment_of key) ≡ d

  module _ (d sig : Dict) (m : QuantumDecisionCommitment) where
    pub create_commitment-IsCreated :
        create_commitment e c fuel now t order_id trade_details account_state seed method reasoning
          ≡ ok (d, sig, m)
        → IsCreated d sig m
    unfolding create_commitment
    create_commitment-IsCreated h =
        let (key, hk, h1) = >>=-eq-ok (derive e c t seed method default_key_lifetime_seconds) _ h in
        let made = commitment_of key in
        let (sig', signed, h2) =
          >>=-eq-ok (sign_or_raise e c fuel t commitment_error (commitment_signable made) key) _
            h1 in
        let same : commitment_signable made ≡ d = cc h2 in
        let same_sig : sig' ≡ sig = cc h2 in
        record {
          key = key;
          derived = hk;
          signed =
              ap (λ (x : Dict). sign_or_raise e c fuel t commitment_error x key) (sym same)
              ∙ signed
              ∙ ap ok same_sig;
          built = cc h2;
          printed = same;
        }

    -- If SHA-256 gives 32 bytes and the clock is past the epoch, a dict that `create_and_sign`
    -- returns passes `verify_state_binding`, `verify_quantum_binding` and `verify_temporal_safety`.
    pub create_commitment-IsBound :
        IsStandard e
        → 0 < t.derived_at
        → create_commitment e c fuel now t order_id trade_details account_state seed method
            reasoning
          ≡ ok (d, sig, m)
        → IsBound d
    unfolding snapshot_to_hash
    create_commitment-IsBound std late h =
        let cr = create_commitment-IsCreated h in
        let dated =
          derive-IsDated e c t seed method default_key_lifetime_seconds cr.key cr.derived in
        let made = commitment_of cr.key in
        let wide : length made.account_state_hash ≡ 64 =
          omega (arith, length-hex _, (std.sha256_digest _).width) in
        let is_made : IsMade t.derived_at made = (
          wide,
          dated.0.0,
          subst (λ (x : Text). is_measurement_method x ≡ true) dated.1 dated.0.1,
          temporal_window_dict-hour t method cr.key dated,
        ) in
        subst IsBound cr.printed (
          state_bound made wide,
          quantum_bound t.derived_at made is_made,
          temporal_bound t.derived_at made is_made late,
        )
