-- ===== src/Identity/Trace.antt =====
-- The registry after any history of calls, against the history itself.
use protocol_c.Prelude.{
  ◌≡◌, refl, ap, ◌∙◌, Bool, true, false, ◌&&◌, List, [], ◌∷◌, Text, codes, take, text_eq,
  text_eq_iff, text_eq_refl, if◌then◌else◌, arith, Bool-cases, inl, inr, ◌⊎◌,
}
use protocol_c.Py.Result.{Result, ok, err}
use protocol_c.Identity.{
  AccountKeyRegistry, empty, add_key, lower, matches_pubkey, non_empty, register, revoke,
  is_authorized, is_broker_authorized, broker_scope,
}
use protocol_c.Identity.Laws.{same_grant, is_authorized-register, is_authorized-revoke}

-- A call of an operator.
pub data Call : Type 0 where
  grant : Text → Text → Call
  withdraw : Text → Text → Call

-- The registry after a call; a `register` that raises leaves it as it was.
abbrev kept : AccountKeyRegistry → Result AccountKeyRegistry → AccountKeyRegistry
kept r (ok r') = r'
kept r (err e) = r

abbrev apply : AccountKeyRegistry → Call → AccountKeyRegistry
apply r (grant a k) = kept r (register r a k)
apply r (withdraw a k) = revoke r a k

-- The registry after a history, the latest call first.
pub run : List Call → AccountKeyRegistry
run [] = empty
run (call ∷ earlier) = apply (run earlier) call

-- Whether `register` takes an account and a key.
abbrev pub accepts : Text → Text → Bool
accepts a k = non_empty a && matches_pubkey (lower k)

-- What the history says: the latest call that names the account and the key decides.
abbrev pub granted : List Call → Text → Text → Bool
granted [] b j = false
granted (grant a k ∷ earlier) b j =
    if accepts a k && same_grant a k b j then true else granted earlier b j
granted (withdraw a k ∷ earlier) b j = if same_grant a k b j then false else granted earlier b j

-- `register` returns exactly on what it accepts.
register-returns :
    (r : AccountKeyRegistry) (a k : Text)
    → ((r' : AccountKeyRegistry) × (register r a k ≡ ok r') × (accepts a k ≡ true))
      ⊎ ((kept r (register r a k) ≡ r) × (accepts a k ≡ false))
unfolding register
register-returns r a k = elim (Bool-cases (non_empty a)) [
  | inl named ↦ elim (Bool-cases (matches_pubkey (lower k))) [
    | inl formed ↦ inl (
      record { authorized = add_key a (lower k) r.authorized },
      rw (named, formed) refl,
      rw (named, formed) refl,
    )
    | inr odd ↦ inr (rw (named, odd) refl, rw (named, odd) refl)
  ]
  | inr unnamed ↦ inr (rw (unnamed) refl, rw (unnamed) refl)
]

is_authorized-empty : (b j : Text) → is_authorized empty b j ≡ false
unfolding is_authorized
is_authorized-empty b j = ground arith

-- After any history of `register` and `revoke` on an empty registry, a key is authorised for an
-- account exactly if the latest call on that account and key was a registration, letter case
-- aside and the registrations that raise left out.
pub is_authorized-run :
    (history : List Call) (b j : Text) → is_authorized (run history) b j ≡ granted history b j
unfolding run
is_authorized-run [] b j = is_authorized-empty b j
is_authorized-run (grant a k ∷ earlier) b j = elim (register-returns (run earlier) a k) [
  | inl (r', returned, taken) ↦
      ap (λ (t : Result AccountKeyRegistry). is_authorized (kept (run earlier) t) b j) returned
      ∙ is_authorized-register (run earlier) r' a k b j returned
      ∙ ground (arith, taken, is_authorized-run earlier b j)
  | inr (unchanged, refused) ↦
      ap (λ (t : AccountKeyRegistry). is_authorized t b j) unchanged
      ∙ ground (arith, refused, is_authorized-run earlier b j)
]
is_authorized-run (withdraw a k ∷ earlier) b j =
    is_authorized-revoke (run earlier) a k b j ∙ ground (arith, is_authorized-run earlier b j)

-- Whether a text begins with the namespace of the brokers.
abbrev pub is_broker_name : Text → Bool
is_broker_name a = text_eq (take 7 a) (codes "broker:")

broker_scope-name : (a s : Text) → text_eq a (broker_scope s) ≡ true → is_broker_name a ≡ true
broker_scope-name a s h =
    ap (λ (t : Text). text_eq (take 7 t) (codes "broker:")) ((text_eq_iff a (broker_scope s)).0 h)
    ∙ text_eq_refl (codes "broker:")

-- A registration that returns, for an account whose name does not begin with `broker:`, changes
-- no answer about brokers.
pub is_broker_authorized-register :
    (r r' : AccountKeyRegistry) (a k s j : Text)
    → is_broker_name a ≡ false
    → register r a k ≡ ok r'
    → is_broker_authorized r' s j ≡ is_broker_authorized r s j
unfolding is_broker_authorized
is_broker_authorized-register r r' a k s j plain h =
    is_authorized-register r r' a k (broker_scope s) j h
    ∙ ground (arith, plain, broker_scope-name a s)
