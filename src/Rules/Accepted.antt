-- ===== src/Rules/Accepted.antt =====
-- What the API accepts as a new alert rule.
use mathlib.Core.Path.{subst}
use text.Mathlib.Text.{◌==◌ as str_eq}
use loghub.Common.{
  ℕ, ◌≤◌, ◌≡◌, ◌⊎◌, refl, Bool, true, false, not, ◌&&◌, ◌||◌, Bool-cases, List, [], ◌∷◌, ◌++◌,
  Option, none, some, Option-cases, inl, inr, ltb, length, ℤ, pos, negsuc, Bytes, codes, bytes_eq,
  bytes_eq_iff, is_empty, contains, trim_space, to_lower, arith, All, String, any,
}
use loghub.Errors.{FieldError, ok, not_ok, ok_value}
use loghub.Normalize.{is_source, is_tenant_id}
use loghub.SignIn.{invalid_request, invalid_json, field_error}
use loghub.Rules.{
  NewAlertRule, RuleBody, RuleJson, RuleLib, Url, rule, no_object, wrong_rule_type, unknown_field,
  broken_rule, max_rule_name, max_webhook_url, has_zero, valid_webhook_url, is_group_by, deref,
  rule_tags, required_rule_fields,
}
use loghub.Rules.Decode.{
  has_problem, add_problem, Check, add_problems, rule_checks, required_problems, outside,
  outside_given, below_one, is_bad_name, source_name, is_bad_source, is_bad_url, rule_problems,
  given, source_of, or_window, rule_of, unless_problems, decode_alert_rule,
}
use loghub.Rules.Evaluation.{group_by_values}
use loghub.Rules.Placeholders.{contains-All}
use loghub.Rules.Texts.{IsRuleText, Given, text-Given, tags-fine, sort_bytes-All}

-- A number within bounds.
abbrev pub IsWithin : ℕ → ℕ → ℤ → Type 0
IsWithin low high (pos n) = (low ≤ n) × (n ≤ high)
IsWithin low high (negsuc n) = ⊥

abbrev pub IsPositive : ℤ → Type 0
IsPositive (pos n) = 1 ≤ n
IsPositive (negsuc n) = ⊥

-- A URL that a webhook may have.
abbrev pub IsWebhook : RuleLib → Bytes → Type 0
IsWebhook lib s =
    (length s ≤ max_webhook_url)
    × ((u : Url) × (lib.parse_url s ≡ some u)
        × ((u.scheme ≡ codes "http") ⊎ (u.scheme ≡ codes "https"))
        × (is_empty u.host ≡ false))

-- What a stored rule relies on.
pub record IsRule (lib : RuleLib) (p : NewAlertRule) : Type 0 where
  pub tenant : is_tenant_id p.tenant_id ≡ true
  pub name_given : is_empty p.name ≡ false
  pub name_fits : length p.name ≤ max_rule_name
  pub name_clean : has_zero p.name ≡ false
  pub source : Given (λ s. is_source s ≡ true) p.source
  pub event_type : Given IsRuleText p.event_type
  pub action : Given IsRuleText p.action
  pub severity : Given (IsWithin 0 10) p.severity_min
  pub tags : All IsRuleText p.tags
  pub group_by : contains group_by_values p.group_by ≡ true
  pub threshold : IsPositive p.threshold
  pub window : IsWithin 1 1440 p.window_minutes
  pub cooldown : IsWithin 0 10080 p.cooldown_minutes
  pub webhook : Given (IsWebhook lib) p.webhook_url

not_nil : (xs : List FieldError) (f : FieldError) → xs ++ (f ∷ []) ≡ [] → ⊥
not_nil [] f h = cc
not_nil (x ∷ xs) f h = cc

not_asked : (req bad : Bool) → not (req && false) && bad ≡ false → bad ≡ false
not_asked req bad h = ground arith

-- A problem that was not added.
add_problem-none :
    (c : Check) (problems : List FieldError)
    → add_problem c problems ≡ []
    → (c.is_bad ≡ false) × (problems ≡ [])
unfolding add_problem has_problem
add_problem-none c problems h =
    let asked = not (c.is_required && any (λ p. str_eq p.field c.field) problems) && c.is_bad in
    elim (Bool-cases asked) [
      | inl bad ↦ absurd (not_nil problems (field_error c.field c.code) (rw bad at h))
      | inr fine ↦
          (let empty : problems ≡ [] = rw fine at h in
            (
              not_asked c.is_required c.is_bad (
                  subst
                    (λ ps.
                      not (c.is_required && any (λ p. str_eq p.field c.field) ps) && c.is_bad
                      ≡ false)
                    empty fine),
              empty,
            ))
    ]

add_problems-none :
    (checks : List Check) (problems : List FieldError)
    → add_problems checks problems ≡ []
    → All (λ (c : Check). c.is_bad ≡ false) checks × (problems ≡ [])
unfolding add_problems
add_problems-none [] problems h = (tt, h)
add_problems-none (c ∷ checks) problems h =
    let (fine, empty) = add_problems-none checks (add_problem c problems) h in
    let (this, before) = add_problem-none c problems empty in ((this, fine), before)

not-false : (b : Bool) → not b ≡ false → b ≡ true
not-false true h = refl
not-false false h = cc

outside-IsWithin : (low high : ℕ) (n : ℤ) → outside low high n ≡ false → IsWithin low high n
outside-IsWithin low high (pos n) h = ground arith
outside-IsWithin low high (negsuc n) h = cc

Given-IsWithin :
    (low high : ℕ) (n : Option ℤ) → outside_given low high n ≡ false → Given (IsWithin low high) n
Given-IsWithin low high none h = tt
Given-IsWithin low high (some n) h = outside-IsWithin low high n h

below_one-IsPositive : (n : ℤ) → below_one n ≡ false → IsPositive n
below_one-IsPositive (pos n) h = ground arith
below_one-IsPositive (negsuc n) h = cc

bad_name-none :
    (name : Bytes)
    → is_bad_name name ≡ false
    → (is_empty name ≡ false) × (length name ≤ max_rule_name) × (has_zero name ≡ false)
bad_name-none name h = ground arith

source-Given :
    (lib : RuleLib) (s : Option Bytes)
    → is_bad_source lib s ≡ false
    → Given (λ n. is_source n ≡ true) (source_of lib s)
source-Given lib none h = tt
source-Given lib (some s) h = not-false (is_source (source_name lib s)) h

valid_webhook_url-IsWebhook :
    (lib : RuleLib) (s : Bytes) → valid_webhook_url lib s ≡ true → IsWebhook lib s
unfolding valid_webhook_url
valid_webhook_url-IsWebhook lib s h = elim (Bool-cases (ltb max_webhook_url (length s))) [
  | inl long ↦ (let no : Path Bool false true = rw long at h in cc)
  | inr fits ↦ elim (Option-cases (lib.parse_url s)) [
    | inl bad ↦ (let no : Path Bool false true = rw (fits, bad) at h in cc)
    | inr (u, known) ↦
        (let h' : (bytes_eq u.scheme (codes "http") || bytes_eq u.scheme (codes "https"))
                && not (is_empty u.host)
              ≡ true =
            rw (fits, known) at h in
          (
            ground arith,
            (
              u,
              known,
              ground (
                arith,
                bytes_eq_iff u.scheme (codes "http"),
                bytes_eq_iff u.scheme (codes "https"),
              ),
              ground arith,
            ),
          ))
  ]
]

is_bad_url-Given :
    (lib : RuleLib) (u : Bytes) → is_bad_url lib u ≡ false → Given (IsWebhook lib) (given u)
is_bad_url-Given lib u h = elim (Bool-cases (is_empty u)) [
  | inl none_given ↦ rw none_given tt
  | inr some_given ↦ rw some_given (valid_webhook_url-IsWebhook lib u (ground arith))
]

group_by-known : (g : Bytes) → is_group_by g ≡ true → contains group_by_values g ≡ true
unfolding is_group_by
group_by-known g h =
    contains-All (λ g. contains group_by_values g ≡ true)
      (codes "dst_ip" ∷ codes "host" ∷ codes "src_ip" ∷ codes "user" ∷ []) g
      (refl, (refl, (refl, (refl, tt)))) h

or_window-IsWithin :
    (window : ℤ) (n : Option ℤ)
    → IsWithin 1 1440 window
    → Given (IsWithin 0 10080) n
    → IsWithin 0 10080 (or_window window n)
or_window-IsWithin (pos w) none (low, high) h = (omega arith, omega arith)
or_window-IsWithin (negsuc w) none never h = absurd never
or_window-IsWithin window (some n) w h = h

rule_of-IsRule :
    (lib : RuleLib) (present : String → Option Bytes) (b : RuleBody)
    → rule_problems lib present b ≡ []
    → IsRule lib (rule_of lib b)
unfolding rule_problems rule_of rule_checks
rule_of-IsRule lib present b h =
    let missing = required_problems present required_rule_fields in
    let (
      tenant,
      (
        name,
        (
          source,
          (
            kind,
            (action, (tags, (severity, (group, (threshold, (window, (cooldown, (webhook, _)))))))),
          ),
        ),
      ),
    ) =
      (add_problems-none (rule_checks lib b) missing h).0 in
    let (name_given, name_fits, name_clean) = bad_name-none (trim_space b.name) name in
    let within = outside-IsWithin 1 1440 b.window_minutes window in
    record {
      tenant = not-false _ tenant;
      name_given = name_given;
      name_fits = name_fits;
      name_clean = name_clean;
      source = source-Given lib b.source source;
      event_type = text-Given (λ t. t) (deref b.event_type) (not-false _ kind);
      action = text-Given (to_lower lib.lower) (deref b.action) (not-false _ action);
      severity = Given-IsWithin 0 10 b.severity_min severity;
      tags =
          sort_bytes-All IsRuleText (rule_tags [] b.tags).0
            (tags-fine [] b.tags tt (not-false _ tags));
      group_by = group_by-known b.group_by (not-false _ group);
      threshold = below_one-IsPositive b.threshold threshold;
      window = within;
      cooldown =
          or_window-IsWithin b.window_minutes b.cooldown_minutes within
            (Given-IsWithin 0 10080 b.cooldown_minutes cooldown);
      webhook = is_bad_url-Given lib (trim_space (deref b.webhook_url)) webhook;
    }

unless_problems-ok :
    (q : NewAlertRule) (problems : List FieldError) {p : NewAlertRule}
    → unless_problems q problems ≡ ok p
    → (problems ≡ []) × (q ≡ p)
unless_problems-ok q [] h = (refl, ok_value h)
unless_problems-ok q (f ∷ problems) h = absurd (not_ok (invalid_request (f ∷ problems)) h)

-- A rule that is read out of a body is within all the bounds of a rule, whatever the library made
-- of the body.
pub decode_alert_rule-IsRule :
    (lib : RuleLib) (json : RuleJson) {p : NewAlertRule}
    → decode_alert_rule lib json ≡ ok p
    → IsRule lib p
unfolding decode_alert_rule
decode_alert_rule-IsRule lib no_object h = absurd (not_ok invalid_json h)
decode_alert_rule-IsRule lib (wrong_rule_type path) h = absurd (not_ok _ h)
decode_alert_rule-IsRule lib (unknown_field field) h = absurd (not_ok _ h)
decode_alert_rule-IsRule lib broken_rule h = absurd (not_ok invalid_json h)
decode_alert_rule-IsRule lib (rule present b) h =
    let (fine, same) = unless_problems-ok (rule_of lib b) (rule_problems lib present b) h in
    subst (IsRule lib) same (rule_of-IsRule lib present b fine)
