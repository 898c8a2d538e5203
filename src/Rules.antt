-- ===== src/Rules.antt =====
-- backend/internal/api/alerts.go: a new alert rule, as it is read and as it is stored, and the checks of its
-- texts. What the JSON library reads is a parameter.
pub mod Decode
pub mod Evaluation
pub mod Handlers
pub mod Texts
pub mod Accepted
pub mod Created
pub mod Placeholders
pub mod Shown
mod Tests
use text.Mathlib.Text.{◌==◌ as str_eq}
use loghub.Common.{
  ℕ, ◌+◌, String, Bool, true, false, not, ◌&&◌, ◌||◌, List, [], ◌∷◌, ◌++◌, Option, none, some, ◌==◌,
  ltb, leb, if◌then◌else◌, any, length, ℤ, pos, negsuc, Bytes, codes, bytes_eq, is_empty, contains,
  cut, trim_space, to_lower,
}
use loghub.Errors.{Error, FieldError, Result, ok, err}
use loghub.Normalize.{is_source, is_tenant_id}
use loghub.Search.{sort_bytes}
use loghub.SignIn.{field_error, invalid_request, invalid_json}

abbrev pub max_rule_name : ℕ
max_rule_name = 200

abbrev pub max_rule_text : ℕ
max_rule_text = 2048

abbrev pub max_webhook_url : ℕ
max_webhook_url = 2048

-- The keys of `ruleFormats`.
abbrev pub rule_fields : List String
rule_fields =
    "tenant" ∷ "name" ∷ "source" ∷ "event_type" ∷ "action" ∷ "severity_min" ∷ "tags" ∷ "group_by"
    ∷ "threshold" ∷ "window_minutes" ∷ "cooldown_minutes" ∷ "webhook_url" ∷ []

abbrev pub required_rule_fields : List String
required_rule_fields = "tenant" ∷ "name" ∷ "group_by" ∷ "threshold" ∷ "window_minutes" ∷ []

-- `gen.NewAlertRule`, where a missing list is empty.
pub record RuleBody : Type 0 where
  pub tenant : Bytes
  pub name : Bytes
  pub source : Option Bytes
  pub event_type : Option Bytes
  pub action : Option Bytes
  pub severity_min : Option ℤ
  pub tags : List Bytes
  pub group_by : Bytes
  pub threshold : ℤ
  pub window_minutes : ℤ
  pub cooldown_minutes : Option ℤ
  pub webhook_url : Option Bytes

-- `store.NewAlertRule`
pub record NewAlertRule : Type 0 where
  pub tenant_id : Bytes
  pub name : Bytes
  pub source : Option Bytes
  pub event_type : Option Bytes
  pub action : Option Bytes
  pub severity_min : Option ℤ
  pub tags : List Bytes
  pub group_by : Bytes
  pub threshold : ℤ
  pub window_minutes : ℤ
  pub cooldown_minutes : ℤ
  pub webhook_url : Option Bytes

-- What the JSON library makes of a body: no object, a value of a wrong type at a path, a field that a
-- rule does not have, another error, or a rule with the raw texts of the fields it has.
pub data RuleJson : Type 0 where
  no_object : RuleJson
  wrong_rule_type : Bytes → RuleJson
  unknown_field : String → RuleJson
  broken_rule : RuleJson
  rule : (String → Option Bytes) → RuleBody → RuleJson

pub record Url : Type 0 where
  pub scheme : Bytes
  pub host : Bytes

-- `strings.ToLower` outside ASCII, and `url.Parse`.
pub record RuleLib : Type 0 where
  pub lower : Bytes → Bytes
  pub parse_url : Bytes → Option Url

unfoldable pub top_field : Bytes → Bytes
unfolding cut
top_field path = (cut path b'.').0

-- The field of a rule with this name.
unfoldable pub rule_field : List String → Bytes → Option String
unfolding bytes_eq
rule_field [] name = none
rule_field (f ∷ fields) name =
    let later = rule_field fields name in if bytes_eq (codes f) name then some f else later

abbrev pub has_zero : Bytes → Bool
has_zero s = any (λ c. c == 0) s

-- `ruleText`, without the mapping: the text, and whether it can be used.
unfoldable pub rule_text : (Bytes → Bytes) → Bytes → Bytes × Bool
unfolding trim_space
rule_text mapping s =
    let t = mapping (trim_space s) in (t, leb (length t) max_rule_text && not (has_zero t))

unfoldable pub valid_webhook_url : RuleLib → Bytes → Bool
unfolding bytes_eq
valid_webhook_url lib s = if ltb max_webhook_url (length s) then false else elim (lib.parse_url s) [
  | none ↦ false
  | some u ↦
      (bytes_eq u.scheme (codes "http") || bytes_eq u.scheme (codes "https"))
      && not (is_empty u.host)
]

-- `AlertGroupBy.Valid`
unfoldable pub is_group_by : Bytes → Bool
unfolding bytes_eq
is_group_by s = contains (codes "dst_ip" ∷ codes "host" ∷ codes "src_ip" ∷ codes "user" ∷ []) s

abbrev pub deref : Option Bytes → Bytes
deref none = []
deref (some s) = s

-- The tags kept so far, and whether the loop reached the end of the list.
unfoldable pub rule_tags : List Bytes → List Bytes → List Bytes × Bool
unfolding rule_text
rule_tags kept [] = (kept, true)
rule_tags kept (tag ∷ tags) =
    let (v, fine) = rule_text (λ t. t) tag in
    let more = if not (is_empty v) && not (contains kept v) then kept ++ (v ∷ []) else kept in
    let rest = rule_tags more tags in if not fine then (kept, false) else rest
