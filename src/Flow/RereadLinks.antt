-- ===== src/Flow/RereadLinks.antt =====
-- What the log changes in a dict, the order of its keys, does not change the checks of signatures,
-- identities and links.
use protocol_c.Prelude.{
  ◌≡◌, refl, ap, Bool, false, not, ◌||◌, none, some, Option, [], Text, String, if◌then◌else◌,
  Option-cases, inl, inr,
}
use protocol_c.Py.Result.{Result, ok, err, attribute_error, or_else, ◌>>=◌, Result-cases}
use protocol_c.Py.Value.{Value, null, bool, int, float, str, arr, obj, Dict, dict_get, get_or, item}
use protocol_c.Py.Compare.{truthy}
use protocol_c.Py.Env.{Env}
use protocol_c.Py.Sorted.{sort_keys, sort_dict, dict_get-sort_dict}
use protocol_c.Py.Sorted.Values.{get_text-sort_dict, truthy-sort_keys}
use protocol_c.Curve.{Curve}
use protocol_c.Signer.{int_16, key_point, canonical_hash, checked, verify_static}
use protocol_c.Identity.{AccountKeyRegistry, non_empty}
use protocol_c.Key.{verify_signature}
use protocol_c.Flow.{authorized_value, identity_ok}

-- `json.dumps` with `sort_keys=True` writes the same text whatever the order of keys.
pub record IsCanonical (e : Env) : Type 0 where
  pub same_dumps : (v : Value) → e.dumps (sort_keys v) ≡ e.dumps v

int_16-sort_keys : (v : Value) → int_16 (sort_keys v) ≡ int_16 v
unfolding sort_keys
int_16-sort_keys null = refl
int_16-sort_keys (bool b) = refl
int_16-sort_keys (int z) = refl
int_16-sort_keys (float b) = refl
int_16-sort_keys (str s) = refl
int_16-sort_keys (arr vs) = refl
int_16-sort_keys (obj d) = refl

item-sort_dict :
    (d : Dict) (k : String) → item (sort_dict d) k ≡ (item d k >>= λ v. ok (sort_keys v))
unfolding item
item-sort_dict d k = elim (Option-cases (dict_get d k)) [
  | inl missing ↦ rw (item, dict_get-sort_dict d k, missing) refl
  | inr (v, found) ↦ rw (item, dict_get-sort_dict d k, found) refl
]

key_point-sort_keys : (c : Curve) (v : Value) → key_point c (sort_keys v) ≡ key_point c v
unfolding key_point sort_keys
key_point-sort_keys c null = refl
key_point-sort_keys c (bool b) = refl
key_point-sort_keys c (int z) = refl
key_point-sort_keys c (float b) = refl
key_point-sort_keys c (str s) = refl
key_point-sort_keys c (arr vs) = refl
key_point-sort_keys c (obj d) = refl

module _ {e : Env} (h : IsCanonical e) (c : Curve) where
  canonical_hash-sort_keys : (m : Value) → canonical_hash e (sort_keys m) ≡ canonical_hash e m
  canonical_hash-sort_keys m = ap (λ (u : Text). e.sha256 (e.encode u)) (h.same_dumps m)

  checked-sort_dict :
      (m : Value) (d : Dict) → checked e c (sort_keys m) (obj (sort_dict d)) ≡ checked e c m (obj d)
  unfolding checked
  checked-sort_dict m d = elim (Result-cases (item d "r")) [
    | inr (x, no_r) ↦ rw (item-sort_dict d "r", no_r) refl
    | inl (r, at_r) ↦ elim (Result-cases (item d "s")) [
      | inr (x, no_s) ↦
          rw (item-sort_dict d "r", at_r, int_16-sort_keys r, item-sort_dict d "s", no_s) refl
      | inl (s, at_s) ↦ elim (Result-cases (item d "pubkey")) [
        | inr (x, no_key) ↦
            rw
              (
                item-sort_dict d "r",
                at_r,
                int_16-sort_keys r,
                item-sort_dict d "s",
                at_s,
                int_16-sort_keys s,
                item-sort_dict d "pubkey",
                no_key,
              )
              refl
        | inl (key, at_key) ↦
            rw
              (
                item-sort_dict d "r",
                at_r,
                int_16-sort_keys r,
                item-sort_dict d "s",
                at_s,
                int_16-sort_keys s,
                item-sort_dict d "pubkey",
                at_key,
                key_point-sort_keys c key,
                canonical_hash-sort_keys m,
              )
              refl
      ]
    ]
  ]

  checked-sort_keys : (m s : Value) → checked e c (sort_keys m) (sort_keys s) ≡ checked e c m s
  unfolding checked sort_keys
  checked-sort_keys m (obj d) = checked-sort_dict m d
  checked-sort_keys m null = refl
  checked-sort_keys m (bool b) = refl
  checked-sort_keys m (int z) = refl
  checked-sort_keys m (float b) = refl
  checked-sort_keys m (str s) = refl
  checked-sort_keys m (arr vs) = refl

  pub verify_signature-sort_keys :
      (m s : Value) → verify_signature e c (sort_keys m) (sort_keys s) ≡ verify_signature e c m s
  unfolding verify_signature verify_static
  verify_signature-sort_keys m s = ap (λ (r : Result Bool). or_else r false) (checked-sort_keys m s)

pub authorized_value-sort_keys :
    (r : AccountKeyRegistry) (account : Text) (v : Value)
    → authorized_value r account (sort_keys v) ≡ authorized_value r account v
unfolding authorized_value sort_keys
authorized_value-sort_keys r account null = refl
authorized_value-sort_keys r account (bool b) = refl
authorized_value-sort_keys r account (int z) = refl
authorized_value-sort_keys r account (float b) = refl
authorized_value-sort_keys r account (str s) = refl
authorized_value-sort_keys r account (arr vs) =
    ap (λ (b : Bool). if not (non_empty account) || not b then ok false else err attribute_error)
      (truthy-sort_keys (arr vs))
authorized_value-sort_keys r account (obj d) =
    ap (λ (b : Bool). if not (non_empty account) || not b then ok false else err attribute_error)
      (truthy-sort_keys (obj d))

pub identity_ok-sort_dict :
    (r : Option AccountKeyRegistry) (scope : Text) (sig : Dict)
    → identity_ok r scope (sort_dict sig) ≡ identity_ok r scope sig
unfolding identity_ok
identity_ok-sort_dict none scope sig = refl
identity_ok-sort_dict (some r) scope sig =
    let full : truthy (obj (sort_dict sig)) ≡ truthy (obj sig) =
      unfold sort_keys in truthy-sort_keys (obj sig) in
    rw
      (
        full,
        get_text-sort_dict sig "pubkey" [],
        authorized_value-sort_keys r scope (get_or sig "pubkey" (str [])),
      )
      refl
