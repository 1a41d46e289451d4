-- ===== src/Audit/Phased.antt =====
-- An `append_…` that returns has appended the entry of its phase.
use protocol_c.Prelude.{ℕ, ◌≡◌, not, if-eq, inl, inr, [], Text}
use protocol_c.Py.Result.{ok}
use protocol_c.Py.Value.{str, null, Dict, get_or, as_dict, obj, end}
use protocol_c.Py.Compare.{truthy}
use protocol_c.Py.Env.{Env}
use protocol_c.Audit.{AuditLog, phase_commitment, phase_execution, phase_settlement}
use protocol_c.Audit.Append.{
  RotationTime, append, append_commitment, append_execution, append_settlement, phase_entry,
}

module _ (e : Env) (t : RotationTime) (now : ℕ) (order_id : Text) (payload signature : Dict)
    (log log' : AuditLog) where
  abbrev pub Appends : Text → Type 0
  Appends phase =
      append e t (phase_entry e now phase (str order_id) payload signature) log ≡ (ok tt, log')

  pub append_commitment-append :
      get_or payload "order_id" null ≡ str order_id
      → append_commitment e t now payload signature log ≡ (ok tt, log')
      → Appends phase_commitment
  unfolding append_commitment
  append_commitment-append named returned =
      elim (if-eq (not (truthy (get_or payload "order_id" null))) _ _ _ returned) [
        | inl (_, raised) ↦ cc raised
        | inr (_, rest) ↦ rw named at rest
      ]

  pub append_execution-append :
      (executed : Dict)
      → get_or payload "execution_result" (obj end) ≡ obj executed
      → get_or executed "order_id" (str []) ≡ str order_id
      → append_execution e t now payload signature log ≡ (ok tt, log')
      → Appends phase_execution
  unfolding append_execution as_dict
  append_execution-append executed result named returned =
      elim (if-eq (not (truthy (get_or executed "order_id" (str [])))) _ _ _
        (rw (append_execution, result) at returned)) [
          | inl (_, raised) ↦ cc raised
          | inr (_, rest) ↦ rw named at rest
        ]

  pub append_settlement-append :
      get_or payload "order_id" null ≡ str order_id
      → append_settlement e t now payload signature log ≡ (ok tt, log')
      → Appends phase_settlement
  unfolding append_settlement
  append_settlement-append named returned =
      elim (if-eq (not (truthy (get_or payload "order_id" null))) _ _ _ returned) [
        | inl (_, raised) ↦ cc raised
        | inr (_, rest) ↦ rw named at rest
      ]
