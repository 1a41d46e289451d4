-- ===== src/Flow/Signers.antt =====
-- The signers that the identity checks let through.
use protocol_c.Prelude.{
  ◌≡◌, refl, ap, ◌∙◌, Bool, true, false, not, ◌||◌, some, [], Text, if◌then◌else◌, if-eq, arith,
  Option-cases, inl, inr,
}
use protocol_c.Py.Result.{ok, err, Exn, attribute_error}
use protocol_c.Py.Value.{Value, null, bool, int, float, str, arr, obj, Dict, get_or, dict_get}
use protocol_c.Py.Compare.{truthy}
use protocol_c.Identity.{
  AccountKeyRegistry, is_authorized, is_broker_authorized, non_empty, broker_scope,
}
use protocol_c.Flow.{authorized_value, identity_ok, broker_pubkey, broker_ok}

-- The key of a signature is registered for the account.
pub record IsSigner (g : AccountKeyRegistry) (scope : Text) (sig : Dict) : Type 0 where
  pub key : Text
  pub given : dict_get sig "pubkey" ≡ some (str key)
  pub registered : is_authorized g scope key ≡ true

-- The key of the broker's signature is registered for the account's brokers.
pub record IsBroker (g : AccountKeyRegistry) (scope : Text) (settlement : Dict) : Type 0 where
  pub key : Text
  pub given : broker_pubkey settlement ≡ ok (str key)
  pub registered : is_broker_authorized g scope key ≡ true

refused {ℓ} : {C : Type ℓ} (b : Bool) (x : Exn) → (if b then ok false else err x) ≡ ok true → C
refused b x h = elim (if-eq b (ok false) (err x) (ok true) h) [ inl (_, p) ↦ cc | inr (_, p) ↦ cc ]

authorized_value-text :
    (r : AccountKeyRegistry) (a : Text) (v : Value)
    → authorized_value r a v ≡ ok true
    → (t : Text) × (v ≡ str t) × (is_authorized r a t ≡ true)
unfolding authorized_value
authorized_value-text r a (str t) h = (t, refl, cc)
authorized_value-text r a null h =
    refused (not (non_empty a) || not (truthy null)) attribute_error h
authorized_value-text r a (bool b) h =
    refused (not (non_empty a) || not (truthy (bool b))) attribute_error h
authorized_value-text r a (int z) h =
    refused (not (non_empty a) || not (truthy (int z))) attribute_error h
authorized_value-text r a (float b) h =
    refused (not (non_empty a) || not (truthy (float b))) attribute_error h
authorized_value-text r a (arr vs) h =
    refused (not (non_empty a) || not (truthy (arr vs))) attribute_error h
authorized_value-text r a (obj d) h =
    refused (not (non_empty a) || not (truthy (obj d))) attribute_error h

unnamed : (r : AccountKeyRegistry) (a : Text) → is_authorized r a [] ≡ false
unfolding is_authorized
unnamed r a = ground arith

text-eq : {s t : Text} → str s ≡ str t → s ≡ t
text-eq h = cc h

given_key :
    (g : AccountKeyRegistry) (scope : Text) (sig : Dict) (t : Text)
    → get_or sig "pubkey" (str []) ≡ str t
    → is_authorized g scope t ≡ true
    → dict_get sig "pubkey" ≡ some (str t)
unfolding get_or
given_key g scope sig t value registered = elim (Option-cases (dict_get sig "pubkey")) [
  | inl missing ↦
      let empty : [] ≡ t = text-eq (rw (missing, get_or) at value) in
      cc (registered, unnamed g scope, ap (λ (k : Text). is_authorized g scope k) empty)
  | inr (v, there) ↦ there ∙ ap some (rw (there, get_or) at value)
]

-- A signature that passes the identity check has the key of a signer of the registry.
pub identity_ok-IsSigner :
    (g : AccountKeyRegistry) (scope : Text) (sig : Dict)
    → identity_ok (some g) scope sig ≡ ok true
    → IsSigner g scope sig
unfolding identity_ok
identity_ok-IsSigner g scope sig h =
    elim (if-eq (not (truthy (obj sig))) _ (authorized_value g scope (get_or sig "pubkey" (str [])))
      _ h) [
        | inl (_, p) ↦ cc
        | inr (_, p) ↦
            let (t, value, registered) = authorized_value-text g scope _ p in
            record {
              key = t;
              given = given_key g scope sig t value registered;
              registered = registered;
            }
      ]

pub broker_ok-IsBroker :
    (g : AccountKeyRegistry) (scope : Text) (settlement : Dict) (v : Value)
    → broker_pubkey settlement ≡ ok v
    → broker_ok (some g) scope v ≡ ok true
    → IsBroker g scope settlement
unfolding broker_ok is_broker_authorized
broker_ok-IsBroker g scope settlement v given h =
    let (t, value, registered) = authorized_value-text g (broker_scope scope) v h in
    record { key = t; given = given ∙ ap ok value; registered = registered }
