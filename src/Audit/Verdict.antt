-- ===== src/Audit/Verdict.antt =====
-- The verdict on a trade that the log recorded is the verdict on the trade.
use mathlib.Core.Option.{map as Option-map}
use protocol_c.Prelude.{
  ℕ, ◌≡◌, refl, ap, ◌∙◌, subst, Bool-cases, false, inl, inr, Option, some, List, [], ◌∷◌, ◌++◌,
  Text, All, text_eq, text_eq_refl, arith,
}
use protocol_c.Py.Result.{ok, ◌>>=◌}
use protocol_c.Py.Value.{str, null, Dict, get_or, obj, end}
use protocol_c.Py.Compare.{py_eq}
use protocol_c.Py.Env.{Env}
use protocol_c.Curve.{Curve}
use protocol_c.Identity.{AccountKeyRegistry}
use protocol_c.Flow.{Entry, Flow, verify_trade_flow}
use protocol_c.Flow.RereadLinks.{IsCanonical}
use protocol_c.Flow.RereadFlow.{sorted_flow, verify_trade_flow-sorted}
use protocol_c.Audit.{
  AuditEntry, AuditLog, phase_commitment, phase_execution, phase_settlement, log_rotation,
  extract_quantum_proof,
}
use protocol_c.Audit.Append.{
  RotationTime, append_commitment, append_execution, append_settlement, phase_entry, is_full,
}
use protocol_c.Audit.Read.{get_trade_flow}
use protocol_c.Audit.History.{IsReadable, Holds, history_after, append-Holds}
use protocol_c.Audit.Flows.{flow_entry, latest_entry, get_trade_flow-latest}
use protocol_c.Audit.Phased.{
  append_commitment-append, append_execution-append, append_settlement-append,
}
use protocol_c.Audit.Recorded.{latest-history_after}

text_eq-++ : (a s t : Text) → text_eq (a ++ s) (a ++ t) ≡ text_eq s t
unfolding text_eq
text_eq-++ [] s t = refl
text_eq-++ (c ∷ cs) s t = ground (arith, text_eq-++ cs s t)

-- The names of the phases differ.
phases-Differ :
    (text_eq (b'_' ∷ phase_execution) (b'_' ∷ phase_commitment) ≡ false)
    × (text_eq (b'_' ∷ phase_settlement) (b'_' ∷ phase_commitment) ≡ false)
    × (text_eq (b'_' ∷ phase_settlement) (b'_' ∷ phase_execution) ≡ false)
unfolding text_eq
phases-Differ = (refl, refl, refl)

module _ (e : Env) where
  -- Without a rotation the entry goes on top of the history.
  not_full-stays :
      (t : RotationTime) (x : AuditEntry) (log : AuditLog) (h : List AuditEntry)
      → is_full log ≡ false
      → history_after e t x log h ≡ x ∷ h
  not_full-stays t x log h room = elim (Bool-cases (py_eq x.phase (str log_rotation))) [
    | inl rotation ↦ rw rotation refl
    | inr other ↦ rw (other, room) refl
  ]

  -- An entry of another phase does not change the latest one.
  latest-other :
      (now : ℕ) (order_id other phase : Text) (payload signature : Dict) (h : List AuditEntry)
      → text_eq (b'_' ∷ other) (b'_' ∷ phase) ≡ false
      → latest_entry e order_id phase (phase_entry e now other (str order_id) payload signature ∷ h)
        ≡ latest_entry e order_id phase h
  unfolding phase_entry
  latest-other now order_id other phase payload signature h apart =
      rw (text_eq-++ order_id (b'_' ∷ other) (b'_' ∷ phase), apart) refl

-- The arguments of the three calls that record a trade, with their readings of the clock.
pub record Recording : Type 0 where
  pub order_id : Text
  pub commitment : Dict
  pub commitment_sig : Dict
  pub committed_at : ℕ
  pub commitment_rotation : RotationTime
  pub execution : Dict
  pub execution_sig : Dict
  pub executed : Dict
  pub executed_at : ℕ
  pub execution_rotation : RotationTime
  pub settlement : Dict
  pub settlement_sig : Dict
  pub settled_at : ℕ
  pub settlement_rotation : RotationTime

-- The calls return, each on the log that the one before left, and the log is not full after the
-- first and after the second.
pub record IsRecorded (e : Env) (g : Recording)
    (log after_commitment after_execution last : AuditLog) : Type 0 where
  pub commitment_named : get_or g.commitment "order_id" null ≡ str g.order_id
  pub result_is : get_or g.execution "execution_result" (obj end) ≡ obj g.executed
  pub result_named : get_or g.executed "order_id" (str []) ≡ str g.order_id
  pub settlement_named : get_or g.settlement "order_id" null ≡ str g.order_id
  pub commitment_returned :
      append_commitment e g.commitment_rotation g.committed_at g.commitment g.commitment_sig log
      ≡ (ok tt, after_commitment)
  pub execution_returned :
      append_execution e g.execution_rotation g.executed_at g.execution g.execution_sig
        after_commitment
      ≡ (ok tt, after_execution)
  pub settlement_returned :
      append_settlement e g.settlement_rotation g.settled_at g.settlement g.settlement_sig
        after_execution
      ≡ (ok tt, last)
  pub room_for_execution : is_full after_commitment ≡ false
  pub room_for_settlement : is_full after_execution ≡ false

-- The flow of what was recorded, with the quantum proofs extracted from it.
abbrev pub phase_of_call : Dict → Dict → Entry
phase_of_call payload signature = record {
  payload = payload;
  sig = signature;
  proof = extract_quantum_proof payload;
}

abbrev pub recorded_flow : Recording → Flow
recorded_flow g = record {
  commitment = some (phase_of_call g.commitment g.commitment_sig);
  execution = some (phase_of_call g.execution g.execution_sig);
  settlement = some (phase_of_call g.settlement g.settlement_sig);
}

module _ (e : Env) (g : Recording) (h : List AuditEntry) (log : AuditLog) where
  abbrev pub commitment_entry : AuditEntry
  commitment_entry =
      phase_entry e g.committed_at phase_commitment (str g.order_id) g.commitment g.commitment_sig

  abbrev pub execution_entry : AuditEntry
  execution_entry =
      phase_entry e g.executed_at phase_execution (str g.order_id) g.execution g.execution_sig

  abbrev pub settlement_entry : AuditEntry
  settlement_entry =
      phase_entry e g.settled_at phase_settlement (str g.order_id) g.settlement g.settlement_sig

  abbrev after_first : List AuditEntry
  after_first = history_after e g.commitment_rotation commitment_entry log h

  -- The history after the three calls.
  abbrev pub recorded_history : List AuditEntry
  recorded_history = settlement_entry ∷ execution_entry ∷ after_first

  module _ (l1 l2 l3 : AuditLog) (q : IsRecorded e g log l1 l2 l3) (holds : Holds e h log) where
    recorded_history-Holds : Holds e recorded_history l3
    recorded_history-Holds =
        let first : Holds e after_first l1 =
          append-Holds e g.commitment_rotation h commitment_entry log l1 holds (
            append_commitment-append e g.commitment_rotation g.committed_at g.order_id g.commitment
              g.commitment_sig log l1 q.commitment_named q.commitment_returned) in
        let second : Holds e (execution_entry ∷ after_first) l2 =
          subst (λ (k : List AuditEntry). Holds e k l2)
            (not_full-stays e g.execution_rotation execution_entry l1 after_first
              q.room_for_execution)
            (append-Holds e g.execution_rotation after_first execution_entry l1 l2 first (
              append_execution-append e g.execution_rotation g.executed_at g.order_id g.execution
                g.execution_sig l1 l2 g.executed q.result_is q.result_named
                q.execution_returned)) in
        subst (λ (k : List AuditEntry). Holds e k l3)
          (not_full-stays e g.settlement_rotation settlement_entry l2
            (execution_entry ∷ after_first) q.room_for_settlement)
          (append-Holds e g.settlement_rotation (execution_entry ∷ after_first) settlement_entry l2
            l3 second
            (append_settlement-append e g.settlement_rotation g.settled_at g.order_id g.settlement
              g.settlement_sig l2 l3 q.settlement_named q.settlement_returned))

    -- The log gives the trade back, with its keys sorted.
    get_trade_flow-recorded :
        All (IsReadable e) recorded_history
        → get_trade_flow e g.order_id l3 ≡ ok (sorted_flow (recorded_flow g))
    unfolding phase_entry
    get_trade_flow-recorded readable =
        let commitment_is : latest_entry e g.order_id phase_commitment recorded_history
            ≡ some (flow_entry commitment_entry) =
          latest-other e g.settled_at g.order_id phase_settlement phase_commitment g.settlement
            g.settlement_sig (execution_entry ∷ after_first) phases-Differ.1
          ∙ latest-other e g.executed_at g.order_id phase_execution phase_commitment g.execution
              g.execution_sig after_first phases-Differ.0
          ∙ ap (Option-map flow_entry) (
              latest-history_after e g.commitment_rotation commitment_entry log h
                (g.order_id ++ (b'_' ∷ phase_commitment)) refl) in
        let execution_is : latest_entry e g.order_id phase_execution recorded_history
            ≡ some (flow_entry execution_entry) =
          latest-other e g.settled_at g.order_id phase_settlement phase_execution g.settlement
            g.settlement_sig (execution_entry ∷ after_first) phases-Differ.2
          ∙ rw (text_eq_refl (g.order_id ++ (b'_' ∷ phase_execution))) refl in
        let settlement_is : latest_entry e g.order_id phase_settlement recorded_history
            ≡ some (flow_entry settlement_entry) =
          rw (text_eq_refl (g.order_id ++ (b'_' ∷ phase_settlement))) refl in
        get_trade_flow-latest e recorded_history l3 g.order_id readable recorded_history-Holds
        ∙ rw (commitment_is, execution_is, settlement_is) refl

    -- If `json.dumps` with sorted keys does not depend on the order of the keys, and the three
    -- `append_…` methods record a trade under one order id on a log that holds a history, with room
    -- for the last two entries and every entry readable, then the verdict of `verify_trade_flow` on
    -- what `get_trade_flow` reads back is its verdict on the data and signatures that were recorded.
    pub verify_trade_flow-recorded :
        (c : Curve) (r : Option AccountKeyRegistry) (account_id : Option Text)
        → IsCanonical e
        → All (IsReadable e) recorded_history
        → (get_trade_flow e g.order_id l3 >>= λ flow.
            verify_trade_flow e c g.order_id flow r account_id)
          ≡ verify_trade_flow e c g.order_id (recorded_flow g) r account_id
    verify_trade_flow-recorded c r account_id canonical readable =
        rw (get_trade_flow-recorded readable)
          (verify_trade_flow-sorted canonical c g.order_id (recorded_flow g) r account_id)
