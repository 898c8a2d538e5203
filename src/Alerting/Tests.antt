-- ===== src/Alerting/Tests.antt =====
-- Runs of the evaluator, and each theorem about it at a concrete time.
use loghub.Common.{
  ◌+◌, ◌*◌, ◌≡◌, refl, List, [], ◌∷◌, none, some, pos, if◌then◌else◌, bytes_eq, Bytes, codes,
  is_empty,
}
use loghub.Errors.{Result, ok, err}
use loghub.Auth.Issue.{internal_error}
use loghub.Rules.Evaluation.{AlertRule}
use loghub.Rules.Handlers.{Alert}
use loghub.Alerting.Run.{listed, evaluated, sent, Evaluator, run}
use loghub.Alerting.Complete.{tenants_due, run-tenants_due}
use loghub.Alerting.{minute, lag, window_end}

half_past : window_end (10 * minute + lag) ≡ 10 * minute
unfolding window_end
half_past = refl

just_before : window_end (10 * minute + 29_999_999_999) ≡ 9 * minute
unfolding window_end
just_before = refl

abbrev rule_named : Bytes → AlertRule
rule_named name = record {
  id = pos 1;
  new = record {
    tenant_id = codes "acme";
    name = name;
    source = none;
    event_type = none;
    action = none;
    severity_min = none;
    tags = [];
    group_by = codes "host";
    threshold = pos 3;
    window_minutes = pos 10;
    cooldown_minutes = pos 10;
    webhook_url = some (codes "https://example.com/hook");
  };
  created_at = 0;
}

abbrev alert : Alert
alert = record {
  id = pos 1;
  rule_id = pos 1;
  rule_name = codes "named";
  tenant_id = codes "acme";
  group_by = codes "host";
  group_key = codes "db";
  window_start = 0;
  window_end = 10 * minute;
  matched = 3;
  created_at = 10 * minute;
}

abbrev rules_in : Bytes → Result (List AlertRule)
rules_in tenant =
    if bytes_eq tenant (codes "acme")
    then ok (rule_named [] ∷ rule_named (codes "named") ∷ [])
    else err internal_error

-- One tenant's rules cannot be listed, and a rule without a name cannot be evaluated.
abbrev evaluator : Evaluator
evaluator = record {
  tenants = ok (codes "globex" ∷ codes "acme" ∷ []);
  rules = λ scope tenant. rules_in tenant;
  evaluate = λ r end. if is_empty r.new.name then err internal_error else ok (alert ∷ []);
  stopped = λ calls. none;
}

run-tenants_due_example : run evaluator (10 * minute + lag) ≡ (
  tenants_due evaluator (window_end (10 * minute + lag)) (codes "globex" ∷ codes "acme" ∷ []),
  none,
)
run-tenants_due_example =
    run-tenants_due evaluator (10 * minute + lag) (codes "globex" ∷ codes "acme" ∷ []) refl
      (λ calls. refl)

one_sent :
    (run evaluator (10 * minute + lag)).0
    ≡ listed (codes "globex")
      ∷ listed (codes "acme")
      ∷ evaluated (rule_named [])
      ∷ evaluated (rule_named (codes "named"))
      ∷ sent (codes "https://example.com/hook") alert
      ∷ []
unfolding run bytes_eq
one_sent = refl
