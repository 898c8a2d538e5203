-- ===== src/Rules/Shown.antt =====
-- Who sees alert rules.
use mathlib.Core.Path.{subst}
use loghub.Common.{
  ℕ, ◌≡◌, ◌⊎◌, refl, sym, ◌∙◌, true, false, not, ◌&&◌, Bool-cases, List, [], ◌∷◌, map, Option, none,
  inl, inr, if◌then◌else◌, Bytes, is_empty, trim_space, All, All-every, arith, bytes_eq_iff,
}
use loghub.Errors.{Result, ok, err, not_ok, ok_value}
use loghub.Authz.{
  Caller, Enforcer, Tenants, scopes, is_no_tenant, covers, only, deny, can, tenant_not_permitted,
}
use loghub.Authz.Action
use loghub.Authz.Resource
use loghub.Authz.Granted.{covers-scopes}
use loghub.Normalize.{is_tenant_id}
use loghub.Search.{ReadScope, invalid_param}
use loghub.Reading.{scope_of}
use loghub.Rules.{deref}
use loghub.Rules.Evaluation.{AlertRule}
use loghub.Rules.Handlers.{
  AlertServices, list_tenant, without_webhook, shown_rules, rules_of, list_alert_rules,
}

chosen_within :
    (readable : Tenants) (t : Bytes) {tenant : Bytes}
    → is_no_tenant readable ≡ false
    → not (is_empty t) && not (covers readable t) ≡ false
    → (if is_empty t && (only readable).1 then ok (only readable).0 else ok t) ≡ ok tenant
    → (readable.all ≡ true) ⊎ ((is_empty tenant ≡ false) × (covers readable tenant ≡ true))
chosen_within readable t {tenant} fine within h =
    elim (Bool-cases (is_empty t && (only readable).1)) [
      | inl one ↦
          (let same : readable.one ≡ tenant = ok_value (rw one at h) in
            subst
              (λ (u : Bytes).
                (readable.all ≡ true) ⊎ ((is_empty u ≡ false) × (covers readable u ≡ true)))
              same (ground (arith, bytes_eq_iff readable.one readable.one)))
      | inr named ↦
          (let same : t ≡ tenant = ok_value (rw named at h) in
            subst
              (λ (u : Bytes).
                (readable.all ≡ true) ⊎ ((is_empty u ≡ false) × (covers readable u ≡ true)))
              same (ground arith))
    ]

-- What `listTenant` chooses within a set of tenants that is not empty.
narrowed_to :
    (readable : Tenants) (c : Caller) (asked : Option Bytes) {tenant : Bytes}
    → list_tenant readable c asked ≡ ok tenant
    → (is_no_tenant readable ≡ false)
      × ((readable.all ≡ true) ⊎ ((is_empty tenant ≡ false) × (covers readable tenant ≡ true)))
unfolding list_tenant
narrowed_to readable c asked {tenant} h =
    let t = trim_space (deref asked) in
    elim (Bool-cases (is_no_tenant readable)) [
      | inl denied ↦ absurd (not_ok (deny c) {a = tenant} (rw denied at h))
      | inr fine ↦ elim (Bool-cases (not (is_empty t) && not (covers readable t))) [
        | inl other ↦ absurd (not_ok tenant_not_permitted {a = tenant} (rw (fine, other) at h))
        | inr within ↦ elim (Bool-cases (not (is_empty t) && not (is_tenant_id t))) [
          | inl bad ↦ absurd (not_ok invalid_param {a = tenant} (rw (fine, within, bad) at h))
          | inr valid ↦ (fine, chosen_within readable t fine within (rw (fine, within, valid) at h))
        ]
      ]
    ]

list_tenant-can :
    (e : Enforcer) (c : Caller) (resource : ℕ) (asked : Option Bytes) {tenant : Bytes}
    → list_tenant (scopes e c resource Action.read) c asked ≡ ok tenant
    → ((t : Bytes) → can e c resource Action.read t ≡ true)
      ⊎ ((is_empty tenant ≡ false) × (can e c resource Action.read tenant ≡ true))
list_tenant-can e c resource asked {tenant} h =
    let readable = scopes e c resource Action.read in
    elim (narrowed_to readable c asked h).1 [
      | inl every ↦ inl (λ t. sym (covers-scopes e c resource Action.read t) ∙ rw every refl)
      | inr (named, covered) ↦
          inr (named, sym (covers-scopes e c resource Action.read tenant) ∙ covered)
    ]

-- A rule as the caller is shown it.
abbrev pub MaySee : AlertServices → Caller → AlertRule → Type 0
MaySee sv c r =
    (can sv.enforcer c Resource.alert_rules Action.read r.new.tenant_id ≡ true)
    × ((r.new.webhook_url ≡ none)
        ⊎ (can sv.enforcer c Resource.alert_rules Action.create r.new.tenant_id ≡ true))

without_webhook-MaySee :
    (sv : AlertServices) (c : Caller) (r : AlertRule)
    → can sv.enforcer c Resource.alert_rules Action.read r.new.tenant_id ≡ true
    → MaySee sv c (without_webhook sv c r)
unfolding without_webhook
without_webhook-MaySee sv c r h =
    elim (Bool-cases (can sv.enforcer c Resource.alert_rules Action.create r.new.tenant_id)) [
      | inl author ↦ rw author (h, inr author)
      | inr other ↦ rw other (h, inl refl)
    ]

shown-All :
    (sv : AlertServices) (c : Caller) (rules : List AlertRule)
    → All
        (λ (r : AlertRule).
          can sv.enforcer c Resource.alert_rules Action.read r.new.tenant_id ≡ true)
        rules
    → All (MaySee sv c) (map (without_webhook sv c) rules)
shown-All sv c [] h = tt
shown-All sv c (r ∷ rules) (h, hs) = (without_webhook-MaySee sv c r h, shown-All sv c rules hs)

-- Where the store narrows a list to the tenant that it is asked for.
abbrev pub Narrows : AlertServices → Type 0
Narrows sv =
    (scope : ReadScope) (tenant : Bytes) (rules : List AlertRule)
    → is_empty tenant ≡ false
    → sv.rules scope tenant ≡ ok rules
    → All (λ (r : AlertRule). r.new.tenant_id ≡ tenant) rules

All-tenant :
    (P : Bytes → Type 0) (tenant : Bytes) (rules : List AlertRule)
    → P tenant
    → All (λ (r : AlertRule). r.new.tenant_id ≡ tenant) rules
    → All (λ (r : AlertRule). P r.new.tenant_id) rules
All-tenant P tenant [] p h = tt
All-tenant P tenant (r ∷ rules) p (h, hs) = (subst P (sym h) p, All-tenant P tenant rules p hs)

shown_rules-ok :
    (sv : AlertServices) (c : Caller) (r : Result (List AlertRule)) {shown : List AlertRule}
    → shown_rules sv c r ≡ ok shown
    → (rules : List AlertRule) × (r ≡ ok rules) × (map (without_webhook sv c) rules ≡ shown)
shown_rules-ok sv c (err e) h = absurd (not_ok e h)
shown_rules-ok sv c (ok rules) h = (rules, refl, ok_value h)

rules_of-ok :
    (sv : AlertServices) (c : Caller) (tenant : Result Bytes) {shown : List AlertRule}
    → rules_of sv c tenant ≡ ok shown
    → (t : Bytes) × (tenant ≡ ok t) × (shown_rules sv c (sv.rules (scope_of c) t) ≡ ok shown)
rules_of-ok sv c (err e) h = absurd (not_ok e h)
rules_of-ok sv c (ok t) h = (t, refl, h)

-- Every rule that a caller is shown is of a tenant whose rules the caller may read, and it shows a
-- webhook URL only to a caller who may create rules of that tenant, where the store narrows a list
-- to the tenant that it is asked for.
pub list_alert_rules-MaySee :
    (sv : AlertServices) (c : Caller) (asked : Option Bytes) {shown : List AlertRule}
    → Narrows sv
    → list_alert_rules sv c asked ≡ ok shown
    → All (MaySee sv c) shown
unfolding list_alert_rules
list_alert_rules-MaySee sv c asked narrows h =
    let readable = scopes sv.enforcer c Resource.alert_rules Action.read in
    let (tenant, chosen, listed) = rules_of-ok sv c (list_tenant readable c asked) h in
    let (rules, read, same) = shown_rules-ok sv c (sv.rules (scope_of c) tenant) listed in
    let may = λ (t : Bytes). can sv.enforcer c Resource.alert_rules Action.read t ≡ true in
    subst (All (MaySee sv c)) same (
      shown-All sv c rules (elim (list_tenant-can sv.enforcer c Resource.alert_rules asked chosen) [
        | inl every ↦
            All-every (λ (r : AlertRule). may r.new.tenant_id) rules (λ r. every r.new.tenant_id)
        | inr (named, allowed) ↦
            All-tenant may tenant rules allowed (narrows (scope_of c) tenant rules named read)
      ]))
