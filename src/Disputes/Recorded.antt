-- ===== src/Disputes/Recorded.antt =====
-- A proof holds what the log recorded.
use protocol_c.Prelude.{
  ◌≡◌, ◌↔◌, refl, sym, ap, subst, none, some, Option, List, String, Text, Bool, true, All, ℕ,
}
use protocol_c.Py.Result.{ok, >>=-eq-ok}
use protocol_c.Py.Value.{Value, null, obj, bool, Dict, dict_get}
use protocol_c.Py.Env.{Env}
use protocol_c.Flow.{Entry, Flow}
use protocol_c.Audit.{AuditEntry, AuditLog, phase_commitment, phase_execution, phase_settlement}
use protocol_c.Audit.History.{IsReadable, Holds}
use protocol_c.Audit.Flows.{latest_entry, get_trade_flow-latest}
use protocol_c.Disputes.Distinct.{flow_seeds, AreDistinct, all_unique-seeds_of}
use protocol_c.Disputes.{
  data_of, sig_of, proof_of, generate_proof, quantum_safety_summary, all_unique, seed_values,
  seeds_of,
}

-- What a proof says of a phase: a dict of it, or null where the phase is missing.
abbrev or_null : Option Entry → (Entry → Dict) → Value
or_null none part = null
or_null (some k) part = obj (part k)

-- A section of a proof: the data of a phase, its signature and its quantum proof.
pub record IsSection (proof : Dict) (section data_name sig_name : String) (phase : Option Entry)
    : Type 0 where
  pub content : Dict
  pub content_is : dict_get proof section ≡ some (obj content)
  pub data_is : dict_get content data_name ≡ some (or_null phase (λ k. k.payload))
  pub sig_is : dict_get content sig_name ≡ some (or_null phase (λ k. k.sig))
  pub proof_is : dict_get content "quantum_proof" ≡ some (or_null phase (λ k. k.proof))

-- A general proof about a flow: the sections of its phases, and a claim that is true if and only if
-- the seeds differ pairwise.
pub record IsProofOf (flow : Flow) (proof : Dict) : Type 0 where
  pub authorization_is :
      IsSection proof "authorization" "commitment" "commitment_sig" flow.commitment
  pub execution_is : IsSection proof "execution" "attestation" "execution_sig" flow.execution
  pub settlement_is : IsSection proof "settlement" "record" "settlement_sig" flow.settlement
  pub summary : Dict
  pub summary_is : dict_get proof "quantum_safety" ≡ some (obj summary)
  pub unique : Bool
  pub unique_is : dict_get summary "all_seeds_unique" ≡ some (bool unique)
  pub claim : (unique ≡ true) ↔ AreDistinct (flow_seeds flow)

data_of-or_null : (phase : Option Entry) → data_of phase ≡ or_null phase (λ k. k.payload)
data_of-or_null none = refl
data_of-or_null (some k) = refl

sig_of-or_null : (phase : Option Entry) → sig_of phase ≡ or_null phase (λ k. k.sig)
sig_of-or_null none = refl
sig_of-or_null (some k) = refl

proof_of-or_null : (phase : Option Entry) → proof_of phase ≡ or_null phase (λ k. k.proof)
proof_of-or_null none = refl
proof_of-or_null (some k) = refl

ok-inj : {a b : Dict} → ok a ≡ ok b → a ≡ b
ok-inj h = cc

module _ (e : Env) where
  -- The flow of the latest entries of an order.
  abbrev pub latest_flow : Text → List AuditEntry → Flow
  latest_flow order_id h = record {
    commitment = latest_entry e order_id phase_commitment h;
    execution = latest_entry e order_id phase_execution h;
    settlement = latest_entry e order_id phase_settlement h;
  }

  -- On a log that holds a history of readable entries, a general proof that is made has a section
  -- for each phase, with the data, the signature and the quantum proof of the latest entry of that
  -- phase, or null for each where there is no such entry; and it claims that all seeds are unique if
  -- and only if the seeds that those entries name, under the key of each phase, differ pairwise,
  -- where the text "MISSING" is no seed.
  pub generate_proof-IsProofOf :
      (h : List AuditEntry) (log : AuditLog) (now : ℕ) (order_id reason : Text) (proof : Dict)
      → All (IsReadable e) h
      → Holds e h log
      → generate_proof e now order_id reason log ≡ ok proof
      → IsProofOf (latest_flow order_id h) proof
  unfolding generate_proof quantum_safety_summary dict_get
  generate_proof-IsProofOf h log now order_id reason proof readable holds made =
      let flow = latest_flow order_id h in
      let read = get_trade_flow-latest e h log order_id readable holds in
      let (summary, summed, whole) =
        >>=-eq-ok (quantum_safety_summary flow) _ (rw (generate_proof, read) at made) in
      let (unique, tested, is_summary) =
        >>=-eq-ok (all_unique (seed_values (seeds_of flow))) _ summed in
      subst (IsProofOf flow) (ok-inj whole) (record {
        authorization_is = record {
          content = _;
          content_is = refl;
          data_is = ap some (data_of-or_null flow.commitment);
          sig_is = ap some (sig_of-or_null flow.commitment);
          proof_is = ap some (proof_of-or_null flow.commitment);
        };
        execution_is = record {
          content = _;
          content_is = refl;
          data_is = ap some (data_of-or_null flow.execution);
          sig_is = ap some (sig_of-or_null flow.execution);
          proof_is = ap some (proof_of-or_null flow.execution);
        };
        settlement_is = record {
          content = _;
          content_is = refl;
          data_is = ap some (data_of-or_null flow.settlement);
          sig_is = ap some (sig_of-or_null flow.settlement);
          proof_is = ap some (proof_of-or_null flow.settlement);
        };
        summary = summary;
        summary_is = refl;
        unique = unique;
        unique_is = ap (λ d. dict_get d "all_seeds_unique") (sym (ok-inj is_summary));
        claim = all_unique-seeds_of flow unique tested;
      })
