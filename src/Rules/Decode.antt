-- ===== src/Rules/Decode.antt =====
-- The checks of a new alert rule, and `decodeAlertRule`.
use text.Mathlib.Text.{◌==◌ as str_eq}
use loghub.Common.{
  ℕ, String, Bool, true, false, not, ◌&&◌, ◌||◌, List, [], ◌∷◌, ◌++◌, Option, none, some, ltb,
  if◌then◌else◌, any, length, ℤ, pos, negsuc, Bytes, codes, bytes_eq, is_empty, trim_space,
  to_lower,
}
use loghub.Errors.{Error, FieldError, Result, ok, err}
use loghub.Normalize.{is_source, is_tenant_id}
use loghub.Search.{sort_bytes}
use loghub.SignIn.{field_error, invalid_request, invalid_json}
use loghub.Rules.{
  max_rule_name, rule_fields, required_rule_fields, RuleBody, NewAlertRule, RuleJson, RuleLib,
  top_field, rule_field, has_zero, rule_text, valid_webhook_url, is_group_by, deref, rule_tags,
  no_object, wrong_rule_type, unknown_field, broken_rule, rule,
}

unfoldable pub has_problem : List FieldError → String → Bool
has_problem problems field = any (λ p. str_eq p.field field) problems

-- A check of a field: one that a rule must have is not checked when it is missing.
pub record Check : Type 0 where
  pub is_required : Bool
  pub is_bad : Bool
  pub field : String
  pub code : String

unfoldable pub add_problem : Check → List FieldError → List FieldError
unfolding has_problem
add_problem c problems =
    if not (c.is_required && has_problem problems c.field) && c.is_bad
    then problems ++ (field_error c.field c.code ∷ [])
    else problems

unfoldable pub add_problems : List Check → List FieldError → List FieldError
unfolding add_problem
add_problems [] problems = problems
add_problems (c ∷ checks) problems = add_problems checks (add_problem c problems)

abbrev pub always : Bool → String → String → Check
always is_bad field code = record {
  is_required = false;
  is_bad = is_bad;
  field = field;
  code = code;
}

abbrev pub if_present : Bool → String → String → Check
if_present is_bad field code = record {
  is_required = true;
  is_bad = is_bad;
  field = field;
  code = code;
}

abbrev pub is_missing : Option Bytes → Bool
is_missing none = true
is_missing (some raw) = bytes_eq raw (codes "null")

unfoldable pub required_problems : (String → Option Bytes) → List String → List FieldError
unfolding bytes_eq
required_problems present [] = []
required_problems present (field ∷ fields) =
    let rest = required_problems present fields in
    if is_missing (present field) then field_error field "required" ∷ rest else rest

abbrev pub outside : ℕ → ℕ → ℤ → Bool
outside low high (pos n) = ltb n low || ltb high n
outside low high (negsuc n) = true

abbrev pub outside_given : ℕ → ℕ → Option ℤ → Bool
outside_given low high none = false
outside_given low high (some n) = outside low high n

abbrev pub below_one : ℤ → Bool
below_one (pos n) = ltb n 1
below_one (negsuc n) = true

abbrev pub is_bad_name : Bytes → Bool
is_bad_name name = is_empty name || (ltb max_rule_name (length name) || has_zero name)

unfoldable pub source_name : RuleLib → Bytes → Bytes
unfolding trim_space to_lower
source_name lib s = to_lower lib.lower (trim_space s)

abbrev pub is_bad_source : RuleLib → Option Bytes → Bool
is_bad_source lib none = false
is_bad_source lib (some s) = not (is_source (source_name lib s))

abbrev pub is_bad_url : RuleLib → Bytes → Bool
is_bad_url lib u = not (is_empty u) && not (valid_webhook_url lib u)

-- The checks, in the order in which they are made.
unfoldable pub rule_checks : RuleLib → RuleBody → List Check
unfolding rule_text rule_tags is_tenant_id to_lower source_name is_source is_group_by
    valid_webhook_url
rule_checks lib b =
    if_present (not (is_tenant_id (trim_space b.tenant))) "tenant" "invalid_format"
    ∷ if_present (is_bad_name (trim_space b.name)) "name" "invalid_format"
    ∷ always (is_bad_source lib b.source) "source" "unknown_value"
    ∷ always (not (rule_text (λ t. t) (deref b.event_type)).1) "event_type" "invalid_format"
    ∷ always (not (rule_text (to_lower lib.lower) (deref b.action)).1) "action" "invalid_format"
    ∷ always (not (rule_tags [] b.tags).1) "tags" "invalid_format"
    ∷ always (outside_given 0 10 b.severity_min) "severity_min" "out_of_range"
    ∷ if_present (not (is_group_by b.group_by)) "group_by" "unknown_value"
    ∷ if_present (below_one b.threshold) "threshold" "out_of_range"
    ∷ if_present (outside 1 1440 b.window_minutes) "window_minutes" "out_of_range"
    ∷ always (outside_given 0 10080 b.cooldown_minutes) "cooldown_minutes" "out_of_range"
    ∷ always (is_bad_url lib (trim_space (deref b.webhook_url))) "webhook_url" "invalid_format"
    ∷ []

-- All the problems, in the order in which they are found.
unfoldable pub rule_problems : RuleLib → (String → Option Bytes) → RuleBody → List FieldError
unfolding rule_checks add_problems required_problems
rule_problems lib present b =
    add_problems (rule_checks lib b) (required_problems present required_rule_fields)

-- An empty text does not filter.
abbrev pub given : Bytes → Option Bytes
given t = if is_empty t then none else some t

abbrev pub source_of : RuleLib → Option Bytes → Option Bytes
source_of lib none = none
source_of lib (some s) = some (source_name lib s)

abbrev pub or_window : ℤ → Option ℤ → ℤ
or_window window none = window
or_window window (some n) = n

-- The rule of a body without problems.
unfoldable pub rule_of : RuleLib → RuleBody → NewAlertRule
unfolding rule_text rule_tags sort_bytes to_lower source_name
rule_of lib b = record {
  tenant_id = trim_space b.tenant;
  name = trim_space b.name;
  source = source_of lib b.source;
  event_type = given (rule_text (λ t. t) (deref b.event_type)).0;
  action = given (rule_text (to_lower lib.lower) (deref b.action)).0;
  severity_min = b.severity_min;
  tags = sort_bytes (rule_tags [] b.tags).0;
  group_by = b.group_by;
  threshold = b.threshold;
  window_minutes = b.window_minutes;
  cooldown_minutes = or_window b.window_minutes b.cooldown_minutes;
  webhook_url = given (trim_space (deref b.webhook_url));
}

abbrev pub unless_problems : NewAlertRule → List FieldError → Result NewAlertRule
unless_problems p [] = ok p
unless_problems p (f ∷ problems) = err (invalid_request (f ∷ problems))

abbrev pub wrong_type_error : Option String → Error
wrong_type_error none = invalid_json
wrong_type_error (some field) = invalid_request (field_error field "invalid_type" ∷ [])

-- `decodeAlertRule`, of what the library read
unfoldable pub decode_alert_rule : RuleLib → RuleJson → Result NewAlertRule
unfolding rule_problems rule_of top_field rule_field
decode_alert_rule lib no_object = err invalid_json
decode_alert_rule lib (wrong_rule_type path) =
    err (wrong_type_error (rule_field rule_fields (top_field path)))
decode_alert_rule lib (unknown_field field) =
    err (invalid_request (field_error field "unknown_field" ∷ []))
decode_alert_rule lib broken_rule = err invalid_json
decode_alert_rule lib (rule present b) =
    unless_problems (rule_of lib b) (rule_problems lib present b)
