-- ===== src/Cli/Piped.antt =====
-- The exit codes of `commit`, `demo` and of `verify` behind them.
use protocol_c.Prelude.{
  ℕ, ◌≤◌, ◌<◌, ◌≡◌, refl, sym, ap, ap₂, ◌∙◌, true, false, Option, none, some, [], ◌∷◌, String, Text,
  Bytes, codes, length, ltb, arith, inl, inr, Option-cases,
}
use protocol_c.Py.Result.{Result, ok, err, value_error, json_error, ◌>>=◌, Result-cases}
use protocol_c.Py.Value.{Value, bool, obj, Dict, end, field, dict_set, dict_get, item, has_key}
use protocol_c.Py.Compare.{truthy}
use protocol_c.Py.Sorted.{sort_keys, sort_dict, dict_get-sort_dict}
use protocol_c.Py.Env.{Env}
use protocol_c.Curve.{Curve, MaybePoint}
use protocol_c.Signer.RoundTrip.{IsCurveGroup}
use protocol_c.Flow.RereadLinks.{IsCanonical, verify_signature-sort_keys}
use protocol_c.Audit.{AuditLog}
use protocol_c.Audit.Lines.{strip}
use protocol_c.Package.{Moments, Request, commit, get_seed, verify}
use protocol_c.Package.Verified.{IsVerified, commit-IsVerified}
use protocol_c.Cli.{read_limited, read_json, emit, max_json_input_bytes}
use protocol_c.Cli.Limited.{read_limited_lem}
use protocol_c.Cli.Commands.{
  contains_key, require_key, value_item, request_of, read_payload, commit_report, cmd_commit,
  cmd_verify, demo_request, demo_report, cmd_demo,
}

item-some : (d : Dict) (k : String) (v : Value) → dict_get d k ≡ some v → item d k ≡ ok v
unfolding item
item-some d k v h = rw (item, h) refl

require_key-some :
    (d : Dict) (k : String) (v : Value) → dict_get d k ≡ some v → require_key (obj d) k ≡ ok tt
unfolding require_key contains_key has_key
require_key-some d k v h = rw (has_key, h) refl

-- `json` as documented, at one dict: what `json.dump` has printed of it is not blank, and is read as
-- the dict with its keys sorted.
pub record IsPrinted (e : Env) (pretty : Value → Text) (d : Dict) : Type 0 where
  pub first : ℕ
  pub others : Text
  pub not_blank : strip (emit pretty d) ≡ first ∷ others
  pub reads_back : e.loads (emit pretty d) ≡ some (obj (sort_dict d))

-- The stream that a command has printed is read as the dict with sorted keys.
read_json-emit :
    (e : Env) (pretty : Value → Text) (rounds : ℕ) (d : Dict)
    → IsPrinted e pretty d
    → length (emit pretty d) ≤ max_json_input_bytes
    → length (emit pretty d) < rounds
    → read_json e rounds (some (emit pretty d)) ≡ ok (obj (sort_dict d))
unfolding read_json
read_json-emit e pretty rounds d p short enough =
    let fits : ltb max_json_input_bytes (length (emit pretty d)) ≡ false = ground (arith, short) in
    let whole : read_limited rounds (emit pretty d) max_json_input_bytes ≡ ok (emit pretty d) =
      read_limited_lem rounds max_json_input_bytes (emit pretty d) enough ∙ rw fits refl in
    let parsed : read_json e rounds (some (emit pretty d)) ≡ (elim (strip (emit pretty d)) [
      | [] ↦ err value_error
      | c ∷ cs ↦ elim (e.loads (emit pretty d)) [ none ↦ err json_error | some v ↦ ok v ]
    ]) =
      rw (read_json, whole) refl in
    parsed ∙ rw (p.not_blank, p.reads_back) refl

ok-inj {ℓ} : {A : Type ℓ} {a b : A} → ok a ≡ ok b → a ≡ b
ok-inj h = cc

some-inj {ℓ} : {A : Type ℓ} {a b : A} → some a ≡ some b → a ≡ b
some-inj h = cc

module _ (e : Env) (c : Curve) where
  pub commit_report-IsVerified : (d : Dict) → IsVerified e c d → commit_report (ok d) ≡ ok (d, 0)
  unfolding commit_report truthy
  commit_report-IsVerified d v = rw (item-some d "verified" (bool true) v.says_so) refl

  demo_report-IsVerified :
      (d : Dict)
      → IsVerified e c d
      → demo_report e c (ok d) ≡ ok (dict_set d "independent_verify" (bool true), 0)
  unfolding demo_report truthy
  demo_report-IsVerified d v =
      rw
        (
          item-some d "commitment" (obj v.commitment) v.has_commitment,
          item-some d "signature" (obj v.signature) v.has_signature,
          item-some d "verified" (bool true) v.says_so,
          v.accepted,
        )
        refl

  -- A dict with a verified commitment and signature is accepted in any order of its keys.
  cmd_verify-IsVerified :
      (canonical : IsCanonical e) (rounds : ℕ) (stream : Option Text) (d : Dict)
      → IsVerified e c d
      → read_json e rounds stream ≡ ok (obj (sort_dict d))
      → cmd_verify e c rounds stream ≡ ok (field "verified" (bool true) end, 0)
  unfolding cmd_verify value_item verify
  cmd_verify-IsVerified canonical rounds stream d v read =
      let has_commitment : dict_get (sort_dict d) "commitment"
          ≡ some (sort_keys (obj v.commitment)) =
        rw (dict_get-sort_dict d "commitment", v.has_commitment) refl in
      let has_signature : dict_get (sort_dict d) "signature" ≡ some (sort_keys (obj v.signature)) =
        rw (dict_get-sort_dict d "signature", v.has_signature) refl in
      let accepted : verify e c (sort_keys (obj v.commitment)) (sort_keys (obj v.signature))
          ≡ true =
        verify_signature-sort_keys canonical c (obj v.commitment) (obj v.signature) ∙ v.accepted in
      rw
        (
          read,
          require_key-some (sort_dict d) "commitment" (sort_keys (obj v.commitment)) has_commitment,
          require_key-some (sort_dict d) "signature" (sort_keys (obj v.signature)) has_signature,
          item-some (sort_dict d) "commitment" (sort_keys (obj v.commitment)) has_commitment,
          item-some (sort_dict d) "signature" (sort_keys (obj v.signature)) has_signature,
          accepted,
        )
        refl

  -- The report of a `commit` that returned is made of its dict.
  commit_report-returned :
      (result : Result Dict) (d : Dict) (code : ℕ)
      → commit_report result ≡ ok (d, code)
      → result ≡ ok d
  unfolding commit_report
  commit_report-returned (err x) d code h = cc h
  commit_report-returned (ok d') d code h = elim (Result-cases (item d' "verified")) [
    | inl (v, found) ↦
        let same : d' ≡ d =
          ok-inj
            (ap (λ (r : Result (Dict × ℕ)). r >>= λ p. ok p.0) (rw (commit_report, found) at h)) in
        ap ok same
    | inr (x, missing) ↦ cc (rw (commit_report, missing) at h)
  ]

  -- The command `commit` that ends has run the function `commit` on some request.
  cmd_commit-commit :
      (fuel rounds : ℕ) (random : Bytes) (m : Moments) (stream : Option Text)
      (disk after : Option AuditLog) (d : Dict) (code : ℕ)
      → cmd_commit e c fuel rounds random m stream disk ≡ some (ok (d, code), after)
      → (r : Request) × (commit e c fuel m (get_seed e random (codes "CSPRNG")) r disk
          ≡ (ok d, after))
        × (commit_report (ok d) ≡ ok (d, code))
  unfolding cmd_commit
  cmd_commit-commit fuel rounds random m stream disk after d code h =
      elim (Result-cases (read_payload e rounds stream)) [
        | inr (x, refused) ↦ cc (rw (cmd_commit, refused) at h)
        | inl (payload, read) ↦ elim (Option-cases (request_of payload)) [
          | inl untyped ↦ cc (rw (cmd_commit, read, untyped) at h)
          | inr (r, typed) ↦
              let run = commit e c fuel m (get_seed e random (codes "CSPRNG")) r disk in
              let both : (commit_report run.0, run.1) ≡ (ok (d, code), after) =
                some-inj (rw (cmd_commit, read, typed) at h) in
              let reported : commit_report run.0 ≡ ok (d, code) =
                ap (λ (p : Result (Dict × ℕ) × Option AuditLog). p.0) both in
              let left : run.1 ≡ after =
                ap (λ (p : Result (Dict × ℕ) × Option AuditLog). p.1) both in
              let returned = commit_report-returned run.0 d code reported in
              (
                r,
                ap₂ (λ (x : Result Dict) (l : Option AuditLog). (x, l)) returned left,
                sym (ap commit_report returned) ∙ reported,
              )
        ]
      ]

  module _ {f : ℕ → MaybePoint} (g : IsCurveGroup c f) where
    -- On a curve with a group of prime order, if the command `commit` prints a dict, it ends with the
    -- code 0; and the command `verify`, on the stream that `commit` printed, prints that it is verified
    -- and ends with the code 0, if that stream is not blank and `json` reads it back as the dict with
    -- its keys sorted, the stream is within the limit of the input, `json.dumps` with sorted keys does
    -- not depend on the order of the keys, and the reading has more rounds than the stream has
    -- characters.
    pub cmd_verify-cmd_commit :
        (pretty : Value → Text) (fuel rounds rounds' : ℕ) (random : Bytes) (m : Moments)
        (stream : Option Text) (disk after : Option AuditLog) (d : Dict) (code : ℕ)
        → IsCanonical e
        → cmd_commit e c fuel rounds random m stream disk ≡ some (ok (d, code), after)
        → IsPrinted e pretty d
        → length (emit pretty d) ≤ max_json_input_bytes
        → length (emit pretty d) < rounds'
        → (code ≡ 0)
          × (cmd_verify e c rounds' (some (emit pretty d))
              ≡ ok (field "verified" (bool true) end, 0))
    cmd_verify-cmd_commit pretty fuel rounds rounds' random m stream disk after d code canonical ran
          printed short enough =
        let (r, made, reported) =
          cmd_commit-commit fuel rounds random m stream disk after d code ran in
        let v =
          commit-IsVerified e c g fuel m (get_seed e random (codes "CSPRNG")) r disk after d made in
        let same : ok (d, 0) ≡ ok (d, code) = sym (commit_report-IsVerified d v) ∙ reported in
        (
          sym (ap (λ (p : Dict × ℕ). p.1) (ok-inj same)),
          cmd_verify-IsVerified canonical rounds' (some (emit pretty d)) d v
              (read_json-emit e pretty rounds' d printed short enough),
        )

    -- On such a curve, the command `demo` ends with the code 0 if its `commit` returns.
    pub cmd_demo_lem :
        (fuel : ℕ) (random : Bytes) (m : Moments) (after : Option AuditLog) (d : Dict)
        → commit e c fuel m (get_seed e random (codes "CSPRNG")) demo_request none ≡ (ok d, after)
        → cmd_demo e c fuel random m ≡ ok (dict_set d "independent_verify" (bool true), 0)
    unfolding cmd_demo
    cmd_demo_lem fuel random m after d made =
        ap (λ (p : Result Dict × Option AuditLog). demo_report e c p.0) made
        ∙ demo_report-IsVerified d (
            commit-IsVerified e c g fuel m (get_seed e random (codes "CSPRNG")) demo_request none
              after d made)
