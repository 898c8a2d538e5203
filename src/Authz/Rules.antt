-- ===== src/Authz/Rules.antt =====
-- backend/internal/api/policies.go: the policies compiled into the binary, and what they let each
-- role do.
use loghub.Common.{ℕ, ◌≡◌, ◌≢◌, ◌↔◌, ◌⊎◌, refl, inl, inr, true, List, [], ◌∷◌, ◌++◌, arith, Bytes}
use loghub.Authz.Role
use loghub.Authz.Resource
use loghub.Authz.Action
use loghub.Authz.Scope
use loghub.Authz.{
  Caller, PolicySet, Enforcer, built, grant, Policy, Grant, grants_of, validate, new, can,
}
use loghub.Authz.Granted.{IsGranted, can_iff}

abbrev pub policies : List PolicySet
policies =
    record {
      policies =
          grant Role.anonymous Scope.any_tenant Resource.health (Action.read ∷ [])
          ∷ grant Role.any_role Scope.any_tenant Resource.health (Action.read ∷ [])
          ∷ [];
    }
    ∷ record {
      policies =
          grant Role.anonymous Scope.any_tenant Resource.sessions (Action.create ∷ [])
          ∷ grant Role.any_role Scope.any_tenant Resource.sessions (Action.create ∷ [])
          ∷ [];
    }
    ∷ record {
      policies =
          grant Role.admin Scope.any_tenant Resource.events (Action.read ∷ Action.create ∷ [])
          ∷ grant Role.viewer Scope.own_tenant Resource.events (Action.read ∷ [])
          ∷ grant Role.collector Scope.any_tenant Resource.events (Action.create ∷ [])
          ∷ [];
    }
    ∷ record {
      policies =
          grant Role.admin Scope.any_tenant Resource.tenant_names (Action.read ∷ [])
          ∷ grant Role.viewer Scope.own_tenant Resource.tenant_names (Action.read ∷ [])
          ∷ [];
    }
    ∷ record {
      policies =
          grant Role.admin Scope.any_tenant Resource.alert_rules (Action.read ∷ Action.create ∷ [])
          ∷ grant Role.viewer Scope.own_tenant Resource.alert_rules (Action.read ∷ [])
          ∷ grant Role.admin Scope.any_tenant Resource.alerts (Action.read ∷ [])
          ∷ grant Role.viewer Scope.own_tenant Resource.alerts (Action.read ∷ [])
          ∷ [];
    }
    ∷ []

abbrev pub keys : List Policy → List Grant
keys [] = []
keys (p ∷ ps) = grants_of p ++ keys ps

abbrev pub set_keys : List PolicySet → List Grant
set_keys [] = []
set_keys (s ∷ sets) = keys s.policies ++ set_keys sets

-- The enforcer that the server holds.
abbrev pub enforcer : Enforcer
enforcer = record { grants = set_keys policies }

pub new-policies : new policies ≡ built enforcer
unfolding new validate
new-policies = refl

-- What a viewer may be granted, under each scope.
abbrev pub ViewerMay : ℕ → ℕ → ℕ → Type 0
ViewerMay r s a =
    ((s ≡ Scope.any_tenant) × (r ≡ Resource.health) × (a ≡ Action.read))
    ⊎ ((s ≡ Scope.any_tenant) × (r ≡ Resource.sessions) × (a ≡ Action.create))
    ⊎ ((s ≡ Scope.own_tenant) × (a ≡ Action.read))

viewer_granted :
    (c : Caller) (r s a : ℕ)
    → c.role ≡ Role.viewer
    → a ≢ Action.any_action
    → IsGranted policies c r s a
    → ViewerMay r s a
viewer_granted c r s a h k g = ground arith

-- Under the compiled policies, whatever a viewer may do (short of the wildcard action, which no
-- handler asks for) is reading its own tenant's entities, a health check, or signing in.
pub viewer_isolation :
    {e : Enforcer} (c : Caller) (r a : ℕ) (tenant : Bytes)
    → new policies ≡ built e
    → c.role ≡ Role.viewer
    → a ≢ Action.any_action
    → can e c r a tenant ≡ true
    → ((a ≡ Action.read) × (tenant ≢ []) × (tenant ≡ c.tenant))
      ⊎ ((r ≡ Resource.health) × (a ≡ Action.read))
      ⊎ ((r ≡ Resource.sessions) × (a ≡ Action.create))
viewer_isolation {e} c r a tenant h role named yes_can =
    elim ((can_iff policies c r a tenant h).0 yes_can) [
      | inl g ↦ ground (arith, viewer_granted c r Scope.any_tenant a role named g)
      | inr (known, same, g) ↦ ground (arith, viewer_granted c r Scope.own_tenant a role named g)
    ]

creators :
    (c : Caller) (s : ℕ)
    → IsGranted policies c Resource.events s Action.create
      ↔ ((s ≡ Scope.any_tenant) × ((c.role ≡ Role.admin) ⊎ (c.role ≡ Role.collector)))
creators c s = ground arith

-- Under the compiled policies an event of any tenant may be created by an admin or by the
-- collector, and by no other role.
pub create_events_iff :
    {e : Enforcer} (c : Caller) (tenant : Bytes)
    → new policies ≡ built e
    → (can e c Resource.events Action.create tenant ≡ true)
      ↔ ((c.role ≡ Role.admin) ⊎ (c.role ≡ Role.collector))
create_events_iff {e} c tenant h =
    let (to, from) = can_iff policies c Resource.events Action.create tenant h in
    let any = creators c Scope.any_tenant in
    let own = creators c Scope.own_tenant in
    (
      λ k. elim (to k) [ inl g ↦ (any.0 g).1 | inr (n, same, g) ↦ (own.0 g).1 ],
      λ k. from (inl (any.1 (refl, k))),
    )

own_readers :
    (c : Caller) (s : ℕ)
    → IsGranted policies c Resource.events s Action.read ↔ (
        ((s ≡ Scope.any_tenant) × (c.role ≡ Role.admin))
        ⊎ ((s ≡ Scope.own_tenant) × (c.role ≡ Role.viewer)))
own_readers c s = ground arith

-- Under the compiled policies an event may be read by an admin, or by a viewer whose tenant it
-- is of, and by no one else.
pub read_events_iff :
    {e : Enforcer} (c : Caller) (tenant : Bytes)
    → new policies ≡ built e
    → (can e c Resource.events Action.read tenant ≡ true)
      ↔ ((c.role ≡ Role.admin) ⊎ ((tenant ≢ []) × (tenant ≡ c.tenant) × (c.role ≡ Role.viewer)))
read_events_iff {e} c tenant h =
    let (to, from) = can_iff policies c Resource.events Action.read tenant h in
    let any = own_readers c Scope.any_tenant in
    let own = own_readers c Scope.own_tenant in
    (
      λ k. elim (to k) [
        | inl g ↦ ground (arith, any.0 g)
        | inr (n, same, g) ↦ inr (n, same, ground (arith, own.0 g))
      ],
      λ k. from (elim k [
        | inl r ↦ inl (any.1 (inl (refl, r)))
        | inr (n, same, r) ↦ inr (n, same, own.1 (inr (refl, r)))
      ]),
    )
