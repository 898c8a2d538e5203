-- ===== src/Rules/Handlers.antt =====
-- The handlers of alert rules and alerts (backend/internal/api/alerts.go). An answer is what the
-- store returned, before it is rendered.
use text.Mathlib.Text.{◌==◌ as str_eq}
use loghub.Common.{
  ℕ, Bool, not, ◌&&◌, ◌||◌, List, [], ◌∷◌, map, Option, none, some, if◌then◌else◌, ltb, ℤ, pos,
  negsuc, Bytes, is_empty, trim_space,
}
use loghub.Errors.{Result, ok, err}
use loghub.Authz.{
  Caller, Enforcer, Tenants, scopes, is_no_tenant, covers, only, deny, can, tenant_not_permitted,
}
use loghub.Authz.Action
use loghub.Authz.Resource
use loghub.Normalize.{is_tenant_id}
use loghub.Search.{ReadScope, invalid_param}
use loghub.SignIn.{invalid_request, field_error, unsupported_media_type}
use loghub.Reading.{scope_of}
use loghub.Rules.{NewAlertRule, RuleJson, RuleLib, deref}
use loghub.Rules.Decode.{decode_alert_rule}
use loghub.Rules.Evaluation.{AlertRule, Inserted, created}

abbrev pub default_alert_page : ℕ
default_alert_page = 50

abbrev pub max_alert_page : ℕ
max_alert_page = 1000

-- `store.Alert`
pub record Alert : Type 0 where
  pub id : ℤ
  pub rule_id : ℤ
  pub rule_name : Bytes
  pub tenant_id : Bytes
  pub group_by : Bytes
  pub group_key : Bytes
  pub window_start : ℕ
  pub window_end : ℕ
  pub matched : ℕ
  pub created_at : ℕ

-- What the handlers have of the server: `AlertRepo.ListRules` and `ListAlerts` narrow to a tenant,
-- unless it is empty.
pub record AlertServices : Type 0 where
  pub enforcer : Enforcer
  pub lib : RuleLib
  pub decode : Bytes → RuleJson
  pub insert_rule : ReadScope → NewAlertRule → Inserted
  pub rules : ReadScope → Bytes → Result (List AlertRule)
  pub alerts : ReadScope → Bytes → ℕ → Result (List Alert)

-- `listTenant`
unfoldable pub list_tenant : Tenants → Caller → Option Bytes → Result Bytes
unfolding trim_space deny is_tenant_id
list_tenant readable c asked =
    let tenant = trim_space (deref asked) in
    if is_no_tenant readable
    then err (deny c)
    else if not (is_empty tenant) && not (covers readable tenant)
    then err tenant_not_permitted
    else if not (is_empty tenant) && not (is_tenant_id tenant)
    then err invalid_param
    else if is_empty tenant && (only readable).1
    then ok (only readable).0
    else ok tenant

-- A webhook URL is shown only to someone who could have set it.
unfoldable pub without_webhook : AlertServices → Caller → AlertRule → AlertRule
unfolding can
without_webhook sv c r =
    if can sv.enforcer c Resource.alert_rules Action.create r.new.tenant_id
    then r
    else record r { new = record r.new { webhook_url = none } }

abbrev pub shown_rules : AlertServices → Caller → Result (List AlertRule) → Result (List AlertRule)
shown_rules sv c (err e) = err e
shown_rules sv c (ok rules) = ok (map (without_webhook sv c) rules)

abbrev pub rules_of : AlertServices → Caller → Result Bytes → Result (List AlertRule)
rules_of sv c (err e) = err e
rules_of sv c (ok tenant) = shown_rules sv c (sv.rules (scope_of c) tenant)

-- `ListAlertRules`
unfoldable pub list_alert_rules : AlertServices → Caller → Option Bytes → Result (List AlertRule)
unfolding scopes list_tenant without_webhook scope_of
list_alert_rules sv c asked =
    rules_of sv c (list_tenant (scopes sv.enforcer c Resource.alert_rules Action.read) c asked)

unfoldable pub alert_page : Option ℤ → Result ℕ
alert_page none = ok default_alert_page
alert_page (some (pos n)) = if ltb n 1 || ltb max_alert_page n then err invalid_param else ok n
alert_page (some (negsuc n)) = err invalid_param

abbrev pub alerts_paged : AlertServices → Caller → Bytes → Result ℕ → Result (List Alert)
alerts_paged sv c tenant (err e) = err e
alerts_paged sv c tenant (ok limit) = sv.alerts (scope_of c) tenant limit

abbrev pub alerts_of : AlertServices → Caller → Option ℤ → Result Bytes → Result (List Alert)
alerts_of sv c limit (err e) = err e
alerts_of sv c limit (ok tenant) = alerts_paged sv c tenant (alert_page limit)

-- `ListAlerts`
unfoldable pub list_alerts : AlertServices → Caller → Option Bytes → Option ℤ → Result (List Alert)
unfolding scopes list_tenant scope_of alert_page
list_alerts sv c asked limit =
    alerts_of sv c limit (list_tenant (scopes sv.enforcer c Resource.alerts Action.read) c asked)

-- An unknown tenant is a problem of the field.
abbrev pub created_rule : Result AlertRule → Result AlertRule
created_rule (ok r) = ok r
created_rule (err e) =
    if str_eq e.code "unknown_tenant"
    then err (invalid_request (field_error "tenant" "unknown_tenant" ∷ []))
    else err e

unfoldable pub create_decoded : AlertServices → Caller → Result NewAlertRule → Result AlertRule
unfolding can scope_of
create_decoded sv c (err e) = err e
create_decoded sv c (ok p) =
    if not (can sv.enforcer c Resource.alert_rules Action.create p.tenant_id)
    then err tenant_not_permitted
    else created_rule (created (sv.insert_rule (scope_of c) p))

unfoldable pub create_body : AlertServices → Caller → Result Bytes → Result AlertRule
unfolding decode_alert_rule create_decoded
create_body sv c (err e) = err e
create_body sv c (ok body) = create_decoded sv c (decode_alert_rule sv.lib (sv.decode body))

-- `CreateAlertRule`, of a request whose media type is JSON or not, and of its body or the answer to a
-- body that cannot be read.
unfoldable pub create_alert_rule : AlertServices → Caller → Bool → Result Bytes → Result AlertRule
unfolding scopes deny create_body
create_alert_rule sv c is_json body =
    if is_no_tenant (scopes sv.enforcer c Resource.alert_rules Action.create)
    then err (deny c)
    else if not is_json
    then err unsupported_media_type
    else create_body sv c body
