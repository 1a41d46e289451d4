-- ===== src/Package/Logged.antt =====
-- What `commit` writes to a log.
use protocol_c.Prelude.{ℕ, List}
use protocol_c.Py.Result.{Result}
use protocol_c.Py.Value.{Dict}
use protocol_c.Py.Env.{Env}
use protocol_c.Curve.{Curve}
use protocol_c.Commitment.{QuantumDecisionCommitment}
use protocol_c.Audit.{AuditEntry, AuditLog, phase_commitment}
use protocol_c.Audit.History.{Holds}
use protocol_c.Audit.Recorded.{history_with}
use protocol_c.Package.{Moments, QuantumSeedResult, Request}

module _ (e : Env) (c : Curve) where
  module _ (fuel : ℕ) (m : Moments) (seed : QuantumSeedResult) (r : Request)
      (disk log log' : AuditLog) (h : List AuditEntry) (result commitment signature : Dict)
      (object : QuantumDecisionCommitment) (holds : Holds e h log) where
    -- The history of the log with the commitment.
    abbrev pub with_commitment : List AuditEntry
    with_commitment =
        history_with e m.rotation m.logged_at r.order_id commitment signature h log log' holds
          phase_commitment
