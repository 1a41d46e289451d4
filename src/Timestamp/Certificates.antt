-- ===== src/Timestamp/Certificates.antt =====
-- The certificate that a signer names.
use mathlib.Core.List.{Mem, mem-cons_of_mem, mem-cons_self}
use protocol_c.Prelude.{
  ◌≡◌, ap, true, ◌&&◌, Option, none, some, List, [], ◌∷◌, Bytes, text_eq, text_eq_iff, arith, subst,
  if-eq, and-eq, inl, inr,
}
use protocol_c.Prelude.Int.{ℤ, pos, negsuc, eqb_ℤ}
use protocol_c.Timestamp.{Certificate}
use protocol_c.Timestamp.Signatures.{find_certificate, signer_certificate, only_value}

-- The certificate is one of those in the token, and the one that the signer names.
abbrev pub Names : Option (ℤ × Bytes) → Certificate → Type 0
Names none cert = Unit
Names (some (serial, issuer)) cert = (cert.serial_number ≡ serial) × (cert.issuer ≡ issuer)

pub some-inj {ℓ} : {A : Type ℓ} {a b : A} → some a ≡ some b → a ≡ b
some-inj h = cc

pub eqb_ℤ-true : (a b : ℤ) → eqb_ℤ a b ≡ true → a ≡ b
eqb_ℤ-true (pos m) (pos n) h = ap pos (ground arith)
eqb_ℤ-true (pos m) (negsuc n) h = ground arith
eqb_ℤ-true (negsuc m) (pos n) h = ground arith
eqb_ℤ-true (negsuc m) (negsuc n) h = ap negsuc (ground arith)

pub find_certificate-found :
    (serial : ℤ) (issuer : Bytes) (certs : List Certificate) (c : Certificate)
    → find_certificate serial issuer certs ≡ some c
    → Mem c certs × Names (some (serial, issuer)) c
unfolding find_certificate
find_certificate-found serial issuer [] c h = cc
find_certificate-found serial issuer (d ∷ ds) c h =
    elim (if-eq (eqb_ℤ d.serial_number serial && text_eq d.issuer issuer) (some d)
      (find_certificate serial issuer ds) (some c) h) [
        | inl (same, here) ↦
            let (serial_same, issuer_same) =
              and-eq (eqb_ℤ d.serial_number serial) (text_eq d.issuer issuer) same in
            subst (λ x. Mem x (d ∷ ds) × Names (some (serial, issuer)) x) (some-inj here)
              (
                mem-cons_self,
                (
                  eqb_ℤ-true d.serial_number serial serial_same,
                  (text_eq_iff d.issuer issuer).0 issuer_same,
                ),
              )
        | inr (_, later) ↦
            let (member, named) = find_certificate-found serial issuer ds c later in
            (mem-cons_of_mem d member, named)
      ]

pub signer_certificate-found :
    (sid : Option (ℤ × Bytes)) (certs : List Certificate) (c : Certificate)
    → signer_certificate sid certs ≡ some c
    → Mem c certs × Names sid c
unfolding signer_certificate
signer_certificate-found sid [] c h = cc
signer_certificate-found none (d ∷ ds) c h =
    subst (λ x. Mem x (d ∷ ds) × Unit) (some-inj h) (mem-cons_self, tt)
signer_certificate-found (some (serial, issuer)) (d ∷ ds) c h =
    find_certificate-found serial issuer (d ∷ ds) c h

pub only_value-eq : (vs : List Bytes) (v : Bytes) → only_value vs ≡ some v → vs ≡ v ∷ []
only_value-eq [] v h = cc
only_value-eq (w ∷ []) v h = ap (λ (x : Bytes). x ∷ []) (some-inj h)
only_value-eq (w ∷ x ∷ xs) v h = cc
