-- ===== src/Alerting/Complete.antt =====
-- A run of the alert evaluator that is not stopped does all of its work.
use mathlib.Core.List.{append_assoc, append-nil}
use loghub.Common.{
  Option, some, ℕ, ◌≡◌, sym, ap, ◌∙◌, false, List, [], ◌∷◌, ◌++◌, none, Bytes, refl,
}
use loghub.Rules.Handlers.{Alert}
use loghub.Errors.{Result, ok, err}
use loghub.Rules.Evaluation.{AlertRule}
use loghub.Alerting.{window_end}
use loghub.Alerting.Run.{
  Call, listed, evaluated, sent, Evaluator, deliveries, is_error, is_stopped, raised, evaluate_rule,
  run_rules, tenant_scope, run_tenant, run_tenants, run,
}

-- The deliveries of new alerts: each is sent once to the rule's webhook, if it has one.
abbrev pub sends_due : Option Bytes → List Alert → List Call
sends_due none fired = []
sends_due (some url) [] = []
sends_due (some url) (a ∷ fired) = sent url a ∷ sends_due (some url) fired

abbrev pub alerts_due : AlertRule → Result (List Alert) → List Call
alerts_due r (err e) = []
alerts_due r (ok fired) = sends_due r.new.webhook_url fired

-- What is due for each rule, whether or not the ones before it could be evaluated.
abbrev pub rules_due : Evaluator → ℕ → List AlertRule → List Call
rules_due e end [] = []
rules_due e end (r ∷ rules) =
    evaluated r ∷ (alerts_due r (e.evaluate r end) ++ rules_due e end rules)

-- What is due for a tenant whose rules are listed, or cannot be.
abbrev pub listed_due : Evaluator → ℕ → Result (List AlertRule) → List Call
listed_due e end (err why) = []
listed_due e end (ok rules) = rules_due e end rules

abbrev pub tenants_due : Evaluator → ℕ → List Bytes → List Call
tenants_due e end [] = []
tenants_due e end (tenant ∷ tenants) =
    listed tenant
    ∷ (listed_due e end (e.rules (record { tenant_id = tenant; is_admin = false }) tenant)
        ++ tenants_due e end tenants)

sends_due-deliveries :
    (url : Option Bytes) (fired : List Alert) → deliveries url fired ≡ sends_due url fired
sends_due-deliveries none fired = refl
sends_due-deliveries (some url) [] = refl
sends_due-deliveries (some url) (a ∷ fired) =
    ap (◌∷◌ (sent url a)) (sends_due-deliveries (some url) fired)

alerts_due-raised :
    (r : AlertRule) (fired : Result (List Alert)) → raised r fired ≡ alerts_due r fired
alerts_due-raised r (err e) = refl
alerts_due-raised r (ok fired) = sends_due-deliveries r.new.webhook_url fired

module _ (e : Evaluator) (end : ℕ) (runs : (calls : List Call) → e.stopped calls ≡ none) where
  never : (calls : List Call) → is_stopped e calls ≡ false
  never calls = ap is_error (runs calls)

  run_rules-due :
      (rules : List AlertRule) (calls : List Call)
      → run_rules e end rules calls ≡ (calls ++ rules_due e end rules, none)
  unfolding run_rules evaluate_rule
  run_rules-due [] calls = ap (λ (c : List Call). (c, none)) (sym (append-nil calls))
  run_rules-due (r ∷ rules) calls =
      let after = evaluate_rule e end calls r in
      let due = rules_due e end rules in
      let new = alerts_due r (e.evaluate r end) in
      rw (never after) (
        run_rules-due rules after
        ∙ ap (λ (n : List Call). (((calls ++ (evaluated r ∷ [])) ++ n) ++ due, none))
            (alerts_due-raised r (e.evaluate r end))
        ∙ ap (λ (c : List Call). (c, none))
            (append_assoc (calls ++ (evaluated r ∷ [])) new due
              ∙ append_assoc calls (evaluated r ∷ []) (new ++ due)))

  run_tenant-due :
      (calls : List Call) (rules : Result (List AlertRule))
      → run_tenant e end calls rules ≡ (calls ++ listed_due e end rules, none)
  unfolding run_tenant
  run_tenant-due calls (err why) =
      rw (runs calls) (ap (λ (c : List Call). (c, none)) (sym (append-nil calls)))
  run_tenant-due calls (ok rules) = run_rules-due rules calls

  run_tenants-due :
      (tenants : List Bytes) (calls : List Call)
      → run_tenants e end tenants calls ≡ (calls ++ tenants_due e end tenants, none)
  unfolding run_tenants
  run_tenants-due [] calls = ap (λ (c : List Call). (c, none)) (sym (append-nil calls))
  run_tenants-due (tenant ∷ tenants) calls =
      let before = calls ++ (listed tenant ∷ []) in
      let rules = e.rules (tenant_scope tenant) tenant in
      let due = listed_due e end rules in
      rw (run_tenant-due before rules) (
        run_tenants-due tenants (before ++ due)
        ∙ ap (λ (c : List Call). (c, none))
            (append_assoc before due (tenants_due e end tenants)
              ∙ append_assoc calls (listed tenant ∷ []) (due ++ tenants_due e end tenants)))

-- A run whose context is never done lists the rules of every tenant as that tenant, in order, and
-- evaluates every rule over the window of the run, each once: a tenant whose rules cannot be listed
-- and a rule that cannot be evaluated leave out only their own work. Each new alert of a rule with
-- a webhook is sent to it once.
pub run-tenants_due :
    (e : Evaluator) (now : ℕ) (tenants : List Bytes)
    → e.tenants ≡ ok tenants
    → ((calls : List Call) → e.stopped calls ≡ none)
    → run e now ≡ (tenants_due e (window_end now) tenants, none)
unfolding run
run-tenants_due e now tenants known runs =
    rw known (run_tenants-due e (window_end now) runs tenants [])
