-- ===== src/Alerting/Run.antt =====
-- `Evaluator.Run` of alerting.go: what one run does, in order. The logs and the counts of failures
-- are left out, so a webhook that fails changes nothing.
use loghub.Common.{
  ℕ, Bool, true, false, List, [], ◌∷◌, ◌++◌, map, Option, none, some, if◌then◌else◌, Bytes,
}
use loghub.Errors.{Error, Result, ok, err}
use loghub.Search.{ReadScope}
use loghub.Auth.Issue.{internal_error}
use loghub.Rules.Evaluation.{AlertRule}
use loghub.Rules.Handlers.{Alert}
use loghub.Alerting.{window_end}

-- A call: the rules of a tenant are listed, a rule is evaluated, an alert is sent to a webhook.
pub data Call : Type 0 where
  listed : Bytes → Call
  evaluated : AlertRule → Call
  sent : Bytes → Alert → Call

-- What the evaluator has: `TenantRepo.ListIDs`, `AlertRepo.ListRules` and `AlertRepo.Evaluate`, and
-- whether the context is done after some calls, with its error.
pub record Evaluator : Type 0 where
  pub tenants : Result (List Bytes)
  pub rules : ReadScope → Bytes → Result (List AlertRule)
  pub evaluate : AlertRule → ℕ → Result (List Alert)
  pub stopped : List Call → Option Error

abbrev pub is_error : Option Error → Bool
is_error none = false
is_error (some why) = true

abbrev pub is_stopped : Evaluator → List Call → Bool
is_stopped e calls = is_error (e.stopped calls)

-- The deliveries of a rule's new alerts.
abbrev pub deliveries : Option Bytes → List Alert → List Call
deliveries none fired = []
deliveries (some url) fired = map (sent url) fired

abbrev pub raised : AlertRule → Result (List Alert) → List Call
raised r (err e) = []
raised r (ok fired) = deliveries r.new.webhook_url fired

-- `evaluate`
unfoldable pub evaluate_rule : Evaluator → ℕ → List Call → AlertRule → List Call
evaluate_rule e end calls r = (calls ++ (evaluated r ∷ [])) ++ raised r (e.evaluate r end)

-- The loop over the rules of a tenant: the calls so far, and the error of the context.
unfoldable pub run_rules : Evaluator → ℕ → List AlertRule → List Call → List Call × Option Error
unfolding evaluate_rule
run_rules e end [] calls = (calls, none)
run_rules e end (r ∷ rules) calls =
    let after = evaluate_rule e end calls r in
    let rest = run_rules e end rules after in
    if is_stopped e after then (after, e.stopped after) else rest

abbrev pub tenant_scope : Bytes → ReadScope
tenant_scope tenant = record { tenant_id = tenant; is_admin = false }

-- The rules of one tenant; none are evaluated where they cannot be listed.
unfoldable pub run_tenant :
    Evaluator → ℕ → List Call → Result (List AlertRule) → List Call × Option Error
unfolding run_rules
run_tenant e end calls (err why) = (calls, e.stopped calls)
run_tenant e end calls (ok rules) = run_rules e end rules calls

abbrev pub unless_stopped :
    List Call × Option Error → List Call × Option Error → List Call × Option Error
unless_stopped (calls, none) rest = rest
unless_stopped (calls, some why) rest = (calls, some why)

-- The loop over the tenants.
unfoldable pub run_tenants : Evaluator → ℕ → List Bytes → List Call → List Call × Option Error
unfolding run_tenant
run_tenants e end [] calls = (calls, none)
run_tenants e end (tenant ∷ tenants) calls =
    let after =
      run_tenant e end (calls ++ (listed tenant ∷ [])) (e.rules (tenant_scope tenant) tenant) in
    unless_stopped after (run_tenants e end tenants after.0)

abbrev pub run_listed : Evaluator → ℕ → Result (List Bytes) → List Call × Option Error
run_listed e end (err why) = ([], some internal_error)
run_listed e end (ok tenants) = run_tenants e end tenants []

-- `Run`, at a time
unfoldable pub run : Evaluator → ℕ → List Call × Option Error
unfolding run_tenants window_end
run e now = run_listed e (window_end now) e.tenants
