-- ===== src/Flow/Certified.antt =====
-- What a certified flow satisfies: the verdict of `verify_trade_flow` against the single checks.
use protocol_c.Prelude.{
  ◌≡◌, refl, ap, ◌∙◌, subst, Bool, true, ◌&&◌, Option, none, some, Text, and-eq,
}
use protocol_c.Py.Result.{Result, ok, >>=-eq-ok}
use protocol_c.Py.Env.{Env}
use protocol_c.Curve.{Curve}
use protocol_c.Identity.{AccountKeyRegistry}
use protocol_c.Flow.{
  Entry, Flow, Report, scope_of, commitment_ok, execution_ok, settlement_ok, if_present, is_true,
  is_some, verify_trade_flow,
}
use protocol_c.Flow.Phases.{
  IsCommitted, IsExecuted, IsSettled, commitment_ok-IsCommitted, execution_ok-IsExecuted,
  settlement_ok-IsSettled, commitment_ok-none,
}

-- A registry is there, all three phases are there, and each passes its checks.
pub record IsCertified (e : Env) (c : Curve) (scope : Text) (flow : Flow)
    (registry : Option AccountKeyRegistry) : Type 0 where
  pub g : AccountKeyRegistry
  pub k : Entry
  pub x : Entry
  pub s : Entry
  pub with_registry : registry ≡ some g
  pub with_commitment : flow.commitment ≡ some k
  pub with_execution : flow.execution ≡ some x
  pub with_settlement : flow.settlement ≡ some s
  pub committed : IsCommitted e c g scope k
  pub executed : IsExecuted e c g scope k x
  pub settled : IsSettled e c g scope k x s

present :
    (o : Option Entry) (f : Entry → Result Bool) (v : Option Bool)
    → if_present o f ≡ ok v
    → is_true v ≡ true
    → (k : Entry) × (o ≡ some k) × (f k ≡ ok true)
unfolding if_present
present none f none h t = absurd (cc t)
present none f (some b) h t = cc h
present (some k) f v h t =
    let (b, hb, r) = >>=-eq-ok (f k) _ h in
    let same : some b ≡ v = cc r in (k, refl, hb ∙ ap ok (ap is_true same ∙ t))

-- If `verify_trade_flow` returns a report with `chain_valid` true, then a registry was supplied,
-- all three phases are in the flow, every signature verifies, every signing key is registered for
-- the account and the broker's for its brokers, and every binding, window, link, seed and term
-- check of the three phases passes.
pub verify_trade_flow-IsCertified :
    (e : Env) (c : Curve) (order_id : Text) (flow : Flow) (registry : Option AccountKeyRegistry)
    (account_id : Option Text) (report : Report)
    → verify_trade_flow e c order_id flow registry account_id ≡ ok report
    → report.chain_valid ≡ true
    → IsCertified e c (scope_of account_id order_id) flow registry
unfolding verify_trade_flow
verify_trade_flow-IsCertified e c order_id flow registry account_id report h t =
    let scope = scope_of account_id order_id in
    let (cv, h1, r1) =
      >>=-eq-ok (if_present flow.commitment (λ k. commitment_ok e c registry scope k)) _ h in
    let (xv, h2, r2) =
      >>=-eq-ok (if_present flow.execution (λ x. execution_ok e c registry scope flow.commitment x))
        _ r1 in
    let (sv, h3, r3) =
      >>=-eq-ok
        (if_present flow.settlement
          (λ s. settlement_ok e c registry scope flow.commitment flow.execution s))
        _ r2 in
    let all : (is_true cv && is_true xv && is_true sv) ≡ true = verdict cv xv sv r3 ∙ t in
    let (p2, ts) = and-eq _ (is_true sv) all in
    let (tc, tx) = and-eq (is_true cv) (is_true xv) p2 in
    let (k, hk, ck) = present flow.commitment _ cv h1 tc in
    let (x, hx, cx) = present flow.execution _ xv h2 tx in
    let (s, hs, cs) = present flow.settlement _ sv h3 ts in
    certified registry k x s hk hx hs ck
      (subst (λ (o : Option Entry). execution_ok e c registry scope o x ≡ ok true) hk cx)
      (subst (λ (o : Option Entry). settlement_ok e c registry scope (some k) o s ≡ ok true) hx
        (subst (λ (o : Option Entry). settlement_ok e c registry scope o flow.execution s ≡ ok true)
          hk cs))
  where
    verdict :
        (cv xv sv : Option Bool)
        → ok (record {
          quantum_safe = is_true cv && is_true xv && is_true sv;
          chain_valid = is_true cv && is_true xv && is_true sv;
          commitment_valid = cv;
          execution_valid = xv;
          settlement_valid = sv;
          identity_bound = is_some registry;
        })
          ≡ ok report
        → (is_true cv && is_true xv && is_true sv) ≡ report.chain_valid
    verdict cv xv sv h = cc h

    certified :
        (o : Option AccountKeyRegistry) (k x s : Entry)
        → flow.commitment ≡ some k
        → flow.execution ≡ some x
        → flow.settlement ≡ some s
        → commitment_ok e c o (scope_of account_id order_id) k ≡ ok true
        → execution_ok e c o (scope_of account_id order_id) (some k) x ≡ ok true
        → settlement_ok e c o (scope_of account_id order_id) (some k) (some x) s ≡ ok true
        → IsCertified e c (scope_of account_id order_id) flow o
    certified none k x s hk hx hs ck cx cs = commitment_ok-none e c _ k ck
    certified (some g) k x s hk hx hs ck cx cs = record {
      g = g;
      k = k;
      x = x;
      s = s;
      with_registry = refl;
      with_commitment = hk;
      with_execution = hx;
      with_settlement = hs;
      committed = commitment_ok-IsCommitted e c g _ k ck;
      executed = execution_ok-IsExecuted e c g _ k x cx;
      settled = settlement_ok-IsSettled e c g _ k x s cs;
    }
