-- ===== src/Py/Result.antt =====
-- Exceptions as values. A message is not modelled, only the class that is raised.
use protocol_c.Prelude.{Bool, true, false, ◌≡◌, refl, ◌⊎◌, inl, inr}

pub data Exn : Type 0 where
  value_error key_error type_error attribute_error overflow_error runtime_error : Exn
  crypto_error key_destroyed_error commitment_error execution_error settlement_error : Exn
  state_error identity_error audit_error timestamp_error : Exn
  -- a subclass of ValueError each
  json_error unicode_error : Exn
  sqlite_error missing_file : Exn
  -- no exception of Python: a loop of the model had too little fuel
  no_fuel : Exn

pub data Result {ℓ} (A : Type ℓ) : Type ℓ where
  ok : A → Result A
  err : Exn → Result A

-- `try: m except Exception: return d`
abbrev pub or_else {ℓ} : {A : Type ℓ} → Result A → A → A
or_else (ok value) d = value
or_else (err x) d = d

-- What follows a call that may raise.
infixl 5 ◌>>=◌
abbrev pub ◌>>=◌ {ℓ κ} : {A : Type ℓ} {B : Type κ} → Result A → (A → Result B) → Result B
err x >>= next = err x
ok value >>= next = next value

-- `if not b: raise x`
abbrev pub guard : Bool → Exn → Result (Unit {0})
guard false x = err x
guard true x = ok tt

infixl 5 ◌>>◌
abbrev pub ◌>>◌ {ℓ} : {B : Type ℓ} → Result (Unit {0}) → Result B → Result B
test >> rest = test >>= λ _. rest

-- Inversion of a successful bind.
pub >>=-eq-ok {ℓ κ} :
    {A : Type ℓ} {B : Type κ} (first : Result A) (next : A → Result B) {last : B}
    → (first >>= next) ≡ ok last
    → (value : A) × (first ≡ ok value) × (next value ≡ ok last)
>>=-eq-ok (err x) next same = cc
>>=-eq-ok (ok value) next same = (value, refl, same)

pub guard-eq-ok {ℓ} :
    {B : Type ℓ} (test : Bool) (x : Exn) (rest : Result B) {last : B}
    → (guard test x >> rest) ≡ ok last
    → (test ≡ true) × (rest ≡ ok last)
guard-eq-ok false x rest same = cc
guard-eq-ok true x rest same = (refl, same)

-- To split on a result and keep the equation.
pub Result-cases {ℓ} :
    {A : Type ℓ} (m : Result A) → ((a : A) × (m ≡ ok a)) ⊎ ((x : Exn) × (m ≡ err x))
Result-cases (ok value) = inl (value, refl)
Result-cases (err x) = inr (x, refl)

-- The laws of a bind.
pub >>=-cong {ℓ κ} :
    {A : Type ℓ} {B : Type κ} (m : Result A) {f g : A → Result B}
    → ((a : A) → f a ≡ g a)
    → (m >>= f) ≡ (m >>= g)
>>=-cong (err x) same = refl
>>=-cong (ok value) same = same value

pub >>=-assoc {ℓ κ μ} :
    {A : Type ℓ} {B : Type κ} {C : Type μ} (m : Result A) (f : A → Result B) (g : B → Result C)
    → (m >>= f >>= g) ≡ (m >>= λ a. f a >>= g)
>>=-assoc (err x) f g = refl
>>=-assoc (ok value) f g = refl

pub >>=-ok {ℓ} : {A : Type ℓ} (m : Result A) → (m >>= λ a. ok a) ≡ m
>>=-ok (err x) = refl
>>=-ok (ok value) = refl
