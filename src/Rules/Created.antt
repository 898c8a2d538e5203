-- ===== src/Rules/Created.antt =====
-- Who creates alert rules.
use text.Mathlib.Text.{◌==◌ as str_eq}
use loghub.Common.{◌≡◌, refl, Bool, true, not, Bool-cases, [], ◌∷◌, inl, inr, Bytes}
use loghub.Errors.{Error, Result, ok, err, not_ok}
use loghub.Authz.{Caller, scopes, is_no_tenant, deny, can, tenant_not_permitted}
use loghub.Authz.Action
use loghub.Authz.Resource
use loghub.SignIn.{unsupported_media_type, invalid_request, field_error}
use loghub.Reading.{scope_of}
use loghub.Rules.{NewAlertRule}
use loghub.Rules.Decode.{decode_alert_rule}
use loghub.Rules.Evaluation.{AlertRule, created}
use loghub.Rules.Accepted.{IsRule, decode_alert_rule-IsRule}
use loghub.Rules.Handlers.{
  AlertServices, created_rule, create_decoded, create_body, create_alert_rule,
}

-- What a new rule was created of.
abbrev pub IsCreated : AlertServices → Caller → Result Bytes → AlertRule → Type 0
IsCreated sv c body r =
    (text : Bytes) × (p : NewAlertRule) × (body ≡ ok text)
    × (decode_alert_rule sv.lib (sv.decode text) ≡ ok p)
    × IsRule sv.lib p
    × (can sv.enforcer c Resource.alert_rules Action.create p.tenant_id ≡ true)
    × (created (sv.insert_rule (scope_of c) p) ≡ ok r)

abbrev unknown_tenant_field : Error
unknown_tenant_field = invalid_request (field_error "tenant" "unknown_tenant" ∷ [])

created_rule-ok : (r : Result AlertRule) {rule : AlertRule} → created_rule r ≡ ok rule → r ≡ ok rule
created_rule-ok (ok r) h = h
created_rule-ok (err e) {rule} h = elim (Bool-cases (str_eq e.code "unknown_tenant")) [
  | inl missing ↦ absurd (not_ok unknown_tenant_field {a = rule} (rw missing at h))
  | inr other ↦ absurd (not_ok e {a = rule} (rw other at h))
]

create_decoded-ok :
    (sv : AlertServices) (c : Caller) (d : Result NewAlertRule) {r : AlertRule}
    → create_decoded sv c d ≡ ok r
    → (p : NewAlertRule) × (d ≡ ok p)
      × (can sv.enforcer c Resource.alert_rules Action.create p.tenant_id ≡ true)
      × (created (sv.insert_rule (scope_of c) p) ≡ ok r)
unfolding create_decoded
create_decoded-ok sv c (err e) h = absurd (not_ok e h)
create_decoded-ok sv c (ok p) {r} h =
    elim (Bool-cases (can sv.enforcer c Resource.alert_rules Action.create p.tenant_id)) [
      | inr other ↦ absurd (not_ok tenant_not_permitted {a = r} (rw other at h))
      | inl author ↦ (p, refl, author, created_rule-ok _ (rw author at h))
    ]

create_body-ok :
    (sv : AlertServices) (c : Caller) (body : Result Bytes) {r : AlertRule}
    → create_body sv c body ≡ ok r
    → IsCreated sv c body r
unfolding create_body
create_body-ok sv c (err e) h = absurd (not_ok e h)
create_body-ok sv c (ok text) h =
    let (p, read, author, inserted) =
      create_decoded-ok sv c (decode_alert_rule sv.lib (sv.decode text)) h in
    (text, p, refl, read, decode_alert_rule-IsRule sv.lib (sv.decode text) read, author, inserted)

-- A rule is created only from a body that is read as a rule within all bounds, and only for a caller
-- who may create rules of its tenant; what is inserted is the rule that was read, in the scope of
-- the caller.
pub create_alert_rule-IsCreated :
    (sv : AlertServices) (c : Caller) (is_json : Bool) (body : Result Bytes) {r : AlertRule}
    → create_alert_rule sv c is_json body ≡ ok r
    → IsCreated sv c body r
unfolding create_alert_rule
create_alert_rule-IsCreated sv c is_json body {r} h =
    elim (Bool-cases (is_no_tenant (scopes sv.enforcer c Resource.alert_rules Action.create))) [
      | inl denied ↦ absurd (not_ok (deny c) {a = r} (rw denied at h))
      | inr some_tenant ↦ elim (Bool-cases (not is_json)) [
        | inl other ↦ absurd (not_ok unsupported_media_type {a = r} (rw (some_tenant, other) at h))
        | inr fine ↦ create_body-ok sv c body (rw (some_tenant, fine) at h)
      ]
    ]
