-- ===== src/Key/OneShot.antt =====
-- A key signs once: what a successful `sign` leaves.
use protocol_c.Prelude.{ℕ, ◌≡◌, refl, ap, subst, true, Text, All, if-eq, inl, inr, some}
use protocol_c.Py.Result.{Result, ok, err, key_destroyed_error}
use protocol_c.Py.Value.{Dict}
use protocol_c.Py.Env.{Env}
use protocol_c.Curve.{Curve}
use protocol_c.Signer.{Signer, public_key_hex, sign_manifest, destroy}
use protocol_c.Signer.Lifecycle.{destroy_lem}
use protocol_c.Key.{Readings, QuantumEphemeralKey, seal, finish, sign, key_pubkey_hex}

-- No private key is left, a public key is.
abbrev pub IsSpent : QuantumEphemeralKey → Type 0
IsSpent k =
    (k.destroyed ≡ true)
    × (k.signer.destroyed ≡ true)
    × All (λ x. x ≡ 0) k.signer.privkey_buf
    × ((pubkey : Text) × (key_pubkey_hex k ≡ ok pubkey))

module _ (e : Env) (c : Curve) where
  seal-IsSpent :
      (t : Readings) (k k' : QuantumEphemeralKey) (signature signature' : Dict) (used : Signer)
      (pubkey : Result Text)
      → seal e c t k signature used pubkey ≡ (ok signature', k')
      → IsSpent k'
  unfolding seal key_pubkey_hex destroy
  seal-IsSpent t k k' signature signature' used (err x) h = cc
  seal-IsSpent t k k' signature signature' used (ok pubkey) h =
      let sealed : QuantumEphemeralKey = record {
        seed_commitment = k.seed_commitment;
        signer = (destroy e t.destroyed_at used).1;
        destroyed = true;
        pubkey_hex = some pubkey;
      } in
      let same : sealed ≡ k' = ap (λ (p : Result Dict × QuantumEphemeralKey). p.1) h in
      let (zeroed, _, _, _, _) = destroy_lem e c t.destroyed_at 0 used t.signed_at signature in
      subst IsSpent same (refl, refl, zeroed, (pubkey, refl))

  finish-IsSpent :
      (t : Readings) (k k' : QuantumEphemeralKey) (answer : Result Dict × Signer) (signature : Dict)
      → finish e c t k answer ≡ (ok signature, k')
      → IsSpent k'
  unfolding finish
  finish-IsSpent t k k' (err x, used) signature h = cc
  finish-IsSpent t k k' (ok s, used) signature h =
      seal-IsSpent t k k' s signature used (public_key_hex used) h

  -- After a `sign` that returned, the key and its signer are destroyed, the buffer of the private
  -- key holds only zeros, the public key is still given, and every later `sign` raises
  -- KeyDestroyedError and changes nothing.
  pub sign-IsSpent :
      (fuel fuel' : ℕ) (t t' : Readings) (message message' signature : Dict)
      (k k' : QuantumEphemeralKey)
      → sign e c fuel t message k ≡ (ok signature, k')
      → IsSpent k' × (sign e c fuel' t' message' k' ≡ (err key_destroyed_error, k'))
  unfolding sign
  sign-IsSpent fuel fuel' t t' message message' signature k k' h =
      elim (if-eq k.destroyed _
        (finish e c t k (sign_manifest e c fuel t.signed_at message k.signer)) _ h) [
          | inl (gone, refused) ↦ cc
          | inr (alive, done) ↦
              let spent =
                finish-IsSpent t k k' (sign_manifest e c fuel t.signed_at message k.signer)
                  signature done in
              (spent, rw spent.0 refl)
        ]
