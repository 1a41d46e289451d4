-- ===== src/Cli/Accepted.antt =====
-- When `logs --verify` ends with the code 0.
use protocol_c.Prelude.{
  ℕ, ◌+◌, ◌≡◌, refl, sym, ◌∙◌, ◌⊎◌, ◌↔◌, inl, inr, true, false, some, List, [], ◌∷◌, Text, Bytes,
  All, length, arith, if◌then◌else◌, and-eq, ◌==◌, Bool-cases, subst,
}
use protocol_c.Py.Result.{ok, >>=-eq-ok}
use protocol_c.Py.Value.{
  Value, null, bool, int, float, str, arr, obj, Items, nil, cons, Dict, get_or, as_dict,
}
use protocol_c.Py.Compare.{truthy}
use protocol_c.Py.Env.{Env}
use protocol_c.Curve.{Curve}
use protocol_c.Package.{verify}
use protocol_c.Cli.Logs.{
  LogsArgs, signed_part, is_rotation, entry_accepted, mark, mark_all, logs_report, selected,
  cmd_logs,
}

-- A marker of a rotation, or an entry with a signature that verifies.
abbrev pub IsAccepted : Env → Curve → Dict → Type 0
IsAccepted e c d =
    (is_rotation d ≡ true)
    ⊎ ((truthy (get_or d "signature" null) ≡ true)
        × (verify e c (signed_part d) (get_or d "signature" null) ≡ true))

abbrev pub IsAcceptedEntry : Env → Curve → Value → Type 0
IsAcceptedEntry e c v = (d : Dict) × (v ≡ obj d) × IsAccepted e c d

as_dict-ok : (v : Value) (d : Dict) → as_dict v ≡ ok d → v ≡ obj d
unfolding as_dict
as_dict-ok (obj d') d h = cc
as_dict-ok null d h = cc
as_dict-ok (bool b) d h = cc
as_dict-ok (int z) d h = cc
as_dict-ok (float b) d h = cc
as_dict-ok (str s) d h = cc
as_dict-ok (arr vs) d h = cc

obj-inj : (d d' : Dict) → obj d ≡ obj d' → d ≡ d'
obj-inj d d' h = cc

module _ (e : Env) (c : Curve) where
  -- An entry that counts as valid is accepted, and the other way round.
  mark-IsAccepted : (d : Dict) → (mark e c d).1 ≡ false → IsAccepted e c d
  unfolding mark entry_accepted
  mark-IsAccepted d h = elim (Bool-cases (is_rotation d)) [
    | inl rotation ↦ inl rotation
    | inr other ↦
        let accepted : entry_accepted e c d ≡ true = ground (arith, rw (mark, other) at h) in
        inr (and-eq (truthy (get_or d "signature" null)) _ accepted)
  ]

  IsAccepted-mark : (d : Dict) → IsAccepted e c d → (mark e c d).1 ≡ false
  unfolding mark entry_accepted
  IsAccepted-mark d (inl rotation) = rw rotation refl
  IsAccepted-mark d (inr (sealed, accepted)) = elim (Bool-cases (is_rotation d)) [
    | inl rotation ↦ rw rotation refl
    | inr other ↦ rw (other, sealed, accepted) refl
  ]

  mark_all-IsAccepted :
      (vs : List Value) (printed : Items) (invalid : ℕ)
      → mark_all e c vs ≡ ok (printed, invalid)
      → (invalid ≡ 0) ↔ All (IsAcceptedEntry e c) vs
  unfolding mark_all
  mark_all-IsAccepted [] printed invalid h = (λ _. tt, λ _. cc)
  mark_all-IsAccepted (v ∷ vs) printed invalid h =
      let (d, is_dict, h1) = >>=-eq-ok (as_dict v) _ h in
      let (rest, others, h2) = >>=-eq-ok (mark_all e c vs) _ h1 in
      let same : v ≡ obj d = as_dict-ok v d is_dict in
      let (to, from) = mark_all-IsAccepted vs rest.0 rest.1 others in
      let count : (if (mark e c d).1 then rest.1 + 1 else rest.1) ≡ invalid = cc h2 in
      (
        λ none_left.
            let valid : (mark e c d).1 ≡ false = ground (arith, count, none_left) in
            let fewer : rest.1 ≡ 0 = ground (arith, count, none_left) in
            ((d, same, mark-IsAccepted d valid), to fewer),
        λ all.
            let ((d', same', accepted), others') = all in
            let equal : d' ≡ d = obj-inj d' d (sym same' ∙ same) in
            let valid : (mark e c d).1 ≡ false =
              IsAccepted-mark d (subst (IsAccepted e c) equal accepted) in
            let fewer : rest.1 ≡ 0 = from others' in ground (arith, count, valid, fewer),
      )

  mark_all-total :
      (vs : List Value)
      → All (λ v. (d : Dict) × (v ≡ obj d)) vs
      → (done : Items × ℕ) × (mark_all e c vs ≡ ok done)
  unfolding mark_all as_dict
  mark_all-total [] h = ((nil, 0), refl)
  mark_all-total (v ∷ vs) ((d, same), h) =
      let (rest, marked) = mark_all-total vs h in
      (
        (cons (mark e c d).0 rest.0, if (mark e c d).1 then rest.1 + 1 else rest.1),
        rw (same, marked) refl,
      )

  -- On a file that is there and whose entries to show are dicts, `logs --verify` returns, and its
  -- exit code is 0 just when every one of these entries is a marker of a rotation, or has a signature
  -- that is no empty value and that `verify` accepts for the entry's data.
  pub cmd_logs-IsAccepted :
      (args : LogsArgs) (file : Bytes) (text : Text) (entries : List Value)
      → args.check ≡ true
      → e.decode file ≡ some text
      → selected e args text ≡ ok entries
      → All (λ v. (d : Dict) × (v ≡ obj d)) entries
      → (report : Dict) × (code : ℕ) × (cmd_logs e c args (some file) ≡ ok (some report, code))
        × ((code ≡ 0) ↔ All (IsAcceptedEntry e c) entries)
  unfolding cmd_logs
  cmd_logs-IsAccepted args file text entries check decoded chosen dicts =
      let ((printed, invalid), marked) = mark_all-total entries dicts in
      let (to, from) = mark_all-IsAccepted entries printed invalid marked in
      let code = if invalid == 0 then 0 else 1 in
      (
        logs_report args (length entries) printed invalid,
        code,
        simp (decoded, chosen, check, marked) refl,
        (
          λ zero_code. to (ground (arith, zero_code)),
          λ all. let none_left = from all in ground (arith, none_left),
        ),
      )
