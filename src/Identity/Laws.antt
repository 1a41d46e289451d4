-- ===== src/Identity/Laws.antt =====
-- What `register` and `revoke` change in what is authorised.
use protocol_c.Prelude.{
  ◌≡◌, refl, ap, sym, ◌∙◌, Bool, true, false, ◌&&◌, List, [], ◌∷◌, Text, text_eq, text_eq_iff,
  if◌then◌else◌, arith,
}
use protocol_c.Py.Result.{ok, guard-eq-ok, identity_error}
use protocol_c.Identity.{
  AccountKeyRegistry, lower, matches_pubkey, contains, add, discard, keys_of, add_key, discard_key,
  non_empty, register, revoke, is_authorized,
}

contains-add :
    (k j : Text) (js : List Text)
    → contains j (add k js) ≡ (if text_eq k j then true else contains j js)
unfolding add contains
contains-add k j js = ground (arith, text_eq_iff k j)

contains-discard :
    (k j : Text) (js : List Text)
    → contains j (discard k js) ≡ (if text_eq k j then false else contains j js)
unfolding discard contains
contains-discard k j [] = ground arith
contains-discard k j (i ∷ js) =
    ground (arith, contains-discard k j js, text_eq_iff i k, text_eq_iff i j, text_eq_iff k j)

keys_of-add_key :
    (a b k : Text) (d : List (Text × List Text))
    → keys_of b (add_key a k d) ≡ (if text_eq a b then add k (keys_of a d) else keys_of b d)
unfolding keys_of add_key
keys_of-add_key a b k [] = refl
keys_of-add_key a b k ((i, js) ∷ d) =
    ground (arith, keys_of-add_key a b k d, text_eq_iff i a, text_eq_iff i b, text_eq_iff a b)

keys_of-discard_key :
    (a b k : Text) (d : List (Text × List Text))
    → keys_of b (discard_key a k d) ≡ (if text_eq a b then discard k (keys_of a d) else keys_of b d)
unfolding keys_of discard_key
keys_of-discard_key a b k [] = ground arith
keys_of-discard_key a b k ((i, js) ∷ d) =
    ground (arith, keys_of-discard_key a b k d, text_eq_iff i a, text_eq_iff i b, text_eq_iff a b)

-- One account and, letter case aside, one key.
abbrev pub same_grant : Text → Text → Text → Text → Bool
same_grant a k b j = text_eq a b && text_eq (lower k) (lower j)

non_empty-lower : (k : Text) → matches_pubkey (lower k) ≡ true → non_empty k ≡ true
unfolding lower matches_pubkey
non_empty-lower [] h = cc
non_empty-lower (c ∷ cs) h = refl

-- What a registration that returned has tested and built.
pub register-parts :
    (r r' : AccountKeyRegistry) (a k : Text)
    → register r a k ≡ ok r'
    → (non_empty a ≡ true)
      × (matches_pubkey (lower k) ≡ true)
      × (r' ≡ record { authorized = add_key a (lower k) r.authorized })
unfolding register
register-parts r r' a k h =
    let (named, h1) = guard-eq-ok (non_empty a) identity_error _ h in
    let (formed, h2) = guard-eq-ok (matches_pubkey (lower k)) identity_error _ h1 in
    (named, formed, sym (cc h2))

authorized-add :
    (r : AccountKeyRegistry) (a k b j : Text)
    → non_empty a ≡ true
    → matches_pubkey (lower k) ≡ true
    → is_authorized (record { authorized = add_key a (lower k) r.authorized }) b j
      ≡ (if same_grant a k b j then true else is_authorized r b j)
unfolding is_authorized
authorized-add r a k b j named formed = ground (
  arith,
  keys_of-add_key a b (lower k) r.authorized,
  contains-add (lower k) (lower j) (keys_of a r.authorized),
  text_eq_iff a b,
  text_eq_iff (lower k) (lower j),
  non_empty-lower j,
)

-- A registration that returns authorises its key for its account, in any letter case, and changes
-- no other answer.
pub is_authorized-register :
    (r r' : AccountKeyRegistry) (a k b j : Text)
    → register r a k ≡ ok r'
    → is_authorized r' b j ≡ (if same_grant a k b j then true else is_authorized r b j)
unfolding register
is_authorized-register r r' a k b j h =
    let (named, formed, built) = register-parts r r' a k h in
    ap (λ (t : AccountKeyRegistry). is_authorized t b j) built
    ∙ authorized-add r a k b j named formed

-- A revocation withdraws its key from its account, in any letter case, and changes no other
-- answer.
pub is_authorized-revoke :
    (r : AccountKeyRegistry) (a k b j : Text)
    → is_authorized (revoke r a k) b j ≡ (if same_grant a k b j then false else is_authorized r b j)
unfolding is_authorized revoke
is_authorized-revoke r a k b j = ground (
  arith,
  keys_of-discard_key a b (lower k) r.authorized,
  contains-discard (lower k) (lower j) (keys_of a r.authorized),
  text_eq_iff a b,
)
