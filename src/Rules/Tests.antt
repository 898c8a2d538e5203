-- ===== src/Rules/Tests.antt =====
-- Runs of the checks and the handlers of alert rules, and each theorem about them at a concrete rule.
use text.Mathlib.Text.{◌==◌ as str_eq}
use loghub.Common.{
  ℕ, ◌*◌, ◌≡◌, refl, sym, Bool, true, false, String, List, [], ◌∷◌, Option, none, some,
  if◌then◌else◌, pos, negsuc, Bytes, codes, All, length,
}
use loghub.Errors.{ok, err, ok_value}
use loghub.Authz.{Caller}
use loghub.Authz.Role
use loghub.Authz.Rules.{enforcer}
use loghub.Search.{hour}
use loghub.Search.Statement.{Value, Condition}
use loghub.SignIn.{field_error, invalid_request}
use loghub.Rules.{RuleBody, NewAlertRule, RuleLib, rule, wrong_rule_type}
use loghub.Rules.Decode.{decode_alert_rule}
use loghub.Rules.Evaluation.{AlertRule, stored, evaluation}
use loghub.Rules.Handlers.{AlertServices, list_alert_rules, create_alert_rule}
use loghub.Rules.Accepted.{IsRule, decode_alert_rule-IsRule}
use loghub.Rules.Placeholders.{IsBound, evaluation-IsBound}
use loghub.Rules.Shown.{MaySee, Narrows, list_alert_rules-MaySee}
use loghub.Rules.Created.{IsCreated, create_alert_rule-IsCreated}

abbrev lib : RuleLib
lib = record {
  lower = λ s. s;
  parse_url = λ s. some (record { scheme = codes "https"; host = codes "example.com" });
}

abbrev present : String → Option Bytes
present field = if str_eq field "source" then none else some (codes "1")

abbrev body : RuleBody
body = record {
  tenant = codes " acme";
  name = codes "Many failures ";
  source = none;
  event_type = some (codes " ");
  action = some (codes "DENY");
  severity_min = some (pos 5);
  tags = codes "vpn" ∷ codes " " ∷ codes "dmz" ∷ codes "vpn " ∷ [];
  group_by = codes "src_ip";
  threshold = pos 3;
  window_minutes = pos 10;
  cooldown_minutes = none;
  webhook_url = some (codes "https://example.com/hook");
}

abbrev new_rule : NewAlertRule
new_rule = record {
  tenant_id = codes "acme";
  name = codes "Many failures";
  source = none;
  event_type = none;
  action = some (codes "deny");
  severity_min = some (pos 5);
  tags = codes "dmz" ∷ codes "vpn" ∷ [];
  group_by = codes "src_ip";
  threshold = pos 3;
  window_minutes = pos 10;
  cooldown_minutes = pos 10;
  webhook_url = some (codes "https://example.com/hook");
}

decoded_rule : decode_alert_rule lib (rule present body) ≡ ok new_rule
unfolding decode_alert_rule loghub.Search.bytes_less
decoded_rule = refl

-- A threshold of zero, a window that is too long, and no field name.
bad_numbers :
    decode_alert_rule lib (
      rule
        (λ field. if str_eq field "name" then some (codes "null") else some [])
        (record body { name = []; threshold = pos 0; window_minutes = pos 1441 }))
    ≡ err (
        invalid_request (
          field_error "name" "required"
          ∷ field_error "threshold" "out_of_range"
          ∷ field_error "window_minutes" "out_of_range"
          ∷ []))
unfolding decode_alert_rule loghub.Search.bytes_less
bad_numbers = refl

wrong_tag :
    decode_alert_rule lib (wrong_rule_type (codes "tags.0"))
    ≡ err (invalid_request (field_error "tags" "invalid_type" ∷ []))
unfolding decode_alert_rule loghub.Search.bytes_less
wrong_tag = refl

decode_alert_rule-IsRule_example : IsRule lib new_rule
decode_alert_rule-IsRule_example = decode_alert_rule-IsRule lib (rule present body) decoded_rule

abbrev stored_rule : AlertRule
stored_rule = record { id = pos 1; new = new_rule; created_at = 99 * hour }

evaluation-IsBound_example :
    (q : Condition × List Value) × (evaluation stored_rule (100 * hour) ≡ ok q) × IsBound q
unfolding loghub.Common.bytes_eq
evaluation-IsBound_example = evaluation-IsBound stored_rule (100 * hour) refl

abbrev rules_in : Bytes → List AlertRule
rules_in [] = stored_rule ∷ []
rules_in (c ∷ tenant) = record stored_rule { new = record new_rule { tenant_id = c ∷ tenant } } ∷ []

abbrev services : AlertServices
services = record {
  enforcer = enforcer;
  lib = lib;
  decode = λ text. rule present body;
  insert_rule = λ scope p. stored (record { id = pos 1; new = p; created_at = 99 * hour });
  rules = λ scope tenant. ok (rules_in tenant);
  alerts = λ scope tenant limit. ok [];
}

abbrev acme_viewer : Caller
acme_viewer = record { role = Role.viewer; tenant = codes "acme"; user_id = pos 7 }

abbrev operator : Caller
operator = record { role = Role.admin; tenant = []; user_id = pos 1 }

abbrev seen : List AlertRule
seen = record stored_rule { new = record new_rule { webhook_url = none } } ∷ []

narrows : Narrows services
narrows scope [] rules named h = cc
narrows scope (c ∷ tenant) rules named h = rw (sym (ok_value h)) (refl, tt)

-- A acme_viewer does not see the webhook.
listed : list_alert_rules services acme_viewer none ≡ ok seen
unfolding list_alert_rules loghub.Authz.has_grant loghub.Common.bytes_eq
listed = refl

list_alert_rules-MaySee_example : All (MaySee services acme_viewer) seen
list_alert_rules-MaySee_example = list_alert_rules-MaySee services acme_viewer none narrows listed

created_one : create_alert_rule services operator true (ok (codes "{}")) ≡ ok stored_rule
unfolding create_alert_rule loghub.Authz.has_grant loghub.Search.bytes_less
created_one = refl

create_alert_rule-IsCreated_example : IsCreated services operator (ok (codes "{}")) stored_rule
create_alert_rule-IsCreated_example =
    create_alert_rule-IsCreated services operator true (ok (codes "{}")) created_one
