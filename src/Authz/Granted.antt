-- ===== src/Authz/Granted.antt =====
-- `Can`, `Scopes` and `Authorize` against the policies themselves.
use loghub.Common.{
  map, ℕ, ◌≡◌, ◌≢◌, ◌↔◌, ◌⊎◌, refl, inl, inr, sym, ◌∙◌, true, List, [], ◌∷◌, ◌++◌, Option-cases,
  Some, arith, Bytes, bytes_eq_iff, is_empty,
}
use loghub.Authz.Role
use loghub.Authz.Action
use loghub.Authz.Scope
use loghub.Authz.{
  Caller, authenticated, Policy, PolicySet, Grant, Enforcer, built, validate, grants_of, new,
  set_problems, has_grant, probe, allows, can, scopes, covers,
}
use loghub.Authz.Built.{
  append-eq-nil, policy_problems, policy_grants, all_problems, all_grants, new_lem, finish-eq-built,
}

-- A policy speaks of the caller: by its role, or as any authenticated caller.
abbrev pub Addresses : Policy → Caller → Type 0
Addresses p c = (p.role ≡ c.role) ⊎ ((authenticated c ≡ true) × (p.role ≡ Role.any_role))

-- A policy grants the action on the resource under the scope.
abbrev pub Grants : Caller → ℕ → ℕ → ℕ → Policy → Type 0
Grants c r s a p =
    Addresses p c
    × (p.resource ≡ r)
    × (p.scope ≡ s)
    × Some (λ x. (x ≡ a) ⊎ (x ≡ Action.any_action)) p.actions

abbrev pub IsGranted : List PolicySet → Caller → ℕ → ℕ → ℕ → Type 0
IsGranted sets c r s a = Some (λ set. Some (Grants c r s a) set.policies) sets

abbrev Holds : List Grant → ℕ → ℕ → ℕ → ℕ → Type 0
Holds gs role r s a =
    Some (λ g. (g.role ≡ role) × (g.resource ≡ r) × (g.scope ≡ s) × (g.action ≡ a)) gs

has_grant_iff :
    (gs : List Grant) (g : Grant)
    → (has_grant gs g ≡ true) ↔ Holds gs g.role g.resource g.scope g.action
unfolding has_grant
has_grant_iff [] g = (λ h. cc, λ h. absurd h)
has_grant_iff (h ∷ gs) g = ground (arith, has_grant_iff gs g)

Holds-append :
    (gs hs : List Grant) (role r s a : ℕ)
    → Holds (gs ++ hs) role r s a ↔ (Holds gs role r s a ⊎ Holds hs role r s a)
Holds-append [] hs role r s a = ground arith
Holds-append (g ∷ gs) hs role r s a = ground (arith, Holds-append gs hs role r s a)

-- what one policy puts into the map
abbrev Puts : ℕ → ℕ → ℕ → ℕ → Policy → Type 0
Puts role r s a p = (p.role ≡ role) × (p.resource ≡ r) × (p.scope ≡ s) × Some (λ x. x ≡ a) p.actions

Holds-keys :
    (actions : List ℕ) (p : Policy) (role r s a : ℕ)
    → Holds
        (map
          (λ x. record { role = p.role; resource = p.resource; scope = p.scope; action = x })
          actions)
        role
        r
        s
        a
      ↔ ((p.role ≡ role) × (p.resource ≡ r) × (p.scope ≡ s) × Some (λ x. x ≡ a) actions)
Holds-keys [] p role r s a = ground arith
Holds-keys (x ∷ actions) p role r s a = ground (arith, Holds-keys actions p role r s a)

Holds-policy_grants :
    (ps : List Policy) (role r s a : ℕ)
    → policy_problems ps ≡ []
    → Holds (policy_grants ps) role r s a ↔ Some (Puts role r s a) ps
Holds-policy_grants [] role r s a h = ground arith
Holds-policy_grants (p ∷ ps) role r s a h = elim (Option-cases (validate p)) [
  | inl fine ↦
      let rest = Holds-policy_grants ps role r s a (rw fine at h) in
      let here = Holds-keys p.actions p role r s a in
      let (split, join) = Holds-append (grants_of p) (policy_grants ps) role r s a in
      rw fine (λ k. ground (arith, split k, here, rest), λ k. join (ground (arith, here, rest)))
  | inr (why, bad) ↦ cc (rw bad at h)
]

Holds-all_grants :
    (sets : List PolicySet) (role r s a : ℕ)
    → all_problems sets ≡ []
    → Holds (all_grants sets) role r s a ↔ Some (λ set. Some (Puts role r s a) set.policies) sets
Holds-all_grants [] role r s a h = ground arith
Holds-all_grants (set ∷ sets) role r s a h =
    let (named, more) = (append-eq-nil (set_problems set.policies) _).0 h in
    let (valid, later) = (append-eq-nil (policy_problems set.policies) _).0 more in
    let here = Holds-policy_grants set.policies role r s a valid in
    let rest = Holds-all_grants sets role r s a later in
    let (split, join) = Holds-append (policy_grants set.policies) (all_grants sets) role r s a in
    (λ k. ground (arith, split k, here, rest), λ k. join (ground (arith, here, rest)))

-- The map has a key exactly when a policy of some set names it.
has_grant-new :
    (sets : List PolicySet) {e : Enforcer} (role r s a : ℕ)
    → new sets ≡ built e
    → (probe e role r s a ≡ true) ↔ Some (λ set. Some (Puts role r s a) set.policies) sets
has_grant-new sets {e} role r s a h =
    let (fine, same) =
      finish-eq-built (all_grants sets) (all_problems sets) (sym (new_lem sets) ∙ h) in
    let (to, from) =
      has_grant_iff e.grants (record { role = role; resource = r; scope = s; action = a }) in
    let (into, out) = Holds-all_grants sets role r s a fine in
    (λ k. into (rw same at (to k)), λ k. from (rw same (out k)))

-- What `allows` looks up, over a list with a property for each key.
abbrev Looks : (ℕ → ℕ → Type 0) → Caller → ℕ → Type 0
Looks P c a =
    (P c.role a ⊎ P c.role Action.any_action)
    ⊎ ((authenticated c ≡ true) × (P Role.any_role a ⊎ P Role.any_role Action.any_action))

module _ (P Q : ℕ → ℕ → Type 0) (c : Caller) (a : ℕ) where
  Looks-map : ((role x : ℕ) → P role x → Q role x) → Looks P c a → Looks Q c a
  Looks-map f (inl (inl h)) = inl (inl (f _ _ h))
  Looks-map f (inl (inr h)) = inl (inr (f _ _ h))
  Looks-map f (inr (known, inl h)) = inr (known, inl (f _ _ h))
  Looks-map f (inr (known, inr h)) = inr (known, inr (f _ _ h))

  Looks-split : Looks (λ role x. P role x ⊎ Q role x) c a → Looks P c a ⊎ Looks Q c a
  Looks-split (inl (inl (inl h))) = inl (inl (inl h))
  Looks-split (inl (inl (inr h))) = inr (inl (inl h))
  Looks-split (inl (inr (inl h))) = inl (inl (inr h))
  Looks-split (inl (inr (inr h))) = inr (inl (inr h))
  Looks-split (inr (known, inl (inl h))) = inl (inr (known, inl h))
  Looks-split (inr (known, inl (inr h))) = inr (inr (known, inl h))
  Looks-split (inr (known, inr (inl h))) = inl (inr (known, inr h))
  Looks-split (inr (known, inr (inr h))) = inr (inr (known, inr h))

module _ (P Q : ℕ → ℕ → Type 0) (c : Caller) (a : ℕ) where
  -- One step of the induction over a list.
  Looks-step :
      {A B : Type 0}
      → A ↔ Looks P c a
      → B ↔ Looks Q c a
      → (A ⊎ B) ↔ Looks (λ role x. P role x ⊎ Q role x) c a
  Looks-step {A} {B} (to, from) (into, out) = (join, λ h. part (Looks-split P Q c a h))
    where
      join : A ⊎ B → Looks (λ role x. P role x ⊎ Q role x) c a
      join (inl h) = Looks-map P (λ role x. P role x ⊎ Q role x) c a (λ role x k. inl k) (to h)
      join (inr h) = Looks-map Q (λ role x. P role x ⊎ Q role x) c a (λ role x k. inr k) (into h)

      part : Looks P c a ⊎ Looks Q c a → A ⊎ B
      part (inl h) = inl (from h)
      part (inr h) = inr (out h)

Some-either :
    (actions : List ℕ) (a b : ℕ)
    → Some (λ x. (x ≡ a) ⊎ (x ≡ b)) actions
      ↔ (Some (λ x. x ≡ a) actions ⊎ Some (λ x. x ≡ b) actions)
Some-either [] a b = ground arith
Some-either (x ∷ actions) a b = ground (arith, Some-either actions a b)

Grants-iff :
    (c : Caller) (r s a : ℕ) (p : Policy)
    → Grants c r s a p ↔ Looks (λ role x. Puts role r s x p) c a
Grants-iff c r s a p = ground (arith, Some-either p.actions a Action.any_action)

Some-Grants-iff :
    (c : Caller) (r s a : ℕ) (ps : List Policy)
    → Some (Grants c r s a) ps ↔ Looks (λ role x. Some (Puts role r s x) ps) c a
Some-Grants-iff c r s a [] = ground arith
Some-Grants-iff c r s a (p ∷ ps) =
    Looks-step (λ role x. Puts role r s x p) (λ role x. Some (Puts role r s x) ps) c a
      (Grants-iff c r s a p) (Some-Grants-iff c r s a ps)

IsGranted-iff :
    (c : Caller) (r s a : ℕ) (sets : List PolicySet)
    → IsGranted sets c r s a
      ↔ Looks (λ role x. Some (λ set. Some (Puts role r s x) set.policies) sets) c a
IsGranted-iff c r s a [] = ground arith
IsGranted-iff c r s a (set ∷ sets) =
    Looks-step (λ role x. Some (Puts role r s x) set.policies)
      (λ role x. Some (λ set'. Some (Puts role r s x) set'.policies) sets) c a
      (Some-Grants-iff c r s a set.policies) (IsGranted-iff c r s a sets)

allows-probe :
    (e : Enforcer) (c : Caller) (r s a : ℕ)
    → (allows e c r s a ≡ true) ↔ Looks (λ role x. probe e role r s x ≡ true) c a
unfolding allows
allows-probe e c r s a = ground arith

-- `allows` finds a grant exactly when some policy of some set grants it.
allows_iff :
    (sets : List PolicySet) {e : Enforcer} (c : Caller) (r s a : ℕ)
    → new sets ≡ built e
    → (allows e c r s a ≡ true) ↔ IsGranted sets c r s a
allows_iff sets {e} c r s a h =
    let (to, from) = allows-probe e c r s a in
    let (into, out) = IsGranted-iff c r s a sets in
    (
      λ k. out (
          Looks-map (λ role x. probe e role r s x ≡ true)
            (λ role x. Some (λ set. Some (Puts role r s x) set.policies) sets) c a
            (λ role x. (has_grant-new sets role r s x h).0) (to k)),
      λ k. from (
          Looks-map (λ role x. Some (λ set. Some (Puts role r s x) set.policies) sets)
            (λ role x. probe e role r s x ≡ true) c a
            (λ role x. (has_grant-new sets role r s x h).1) (into k)),
    )

-- Who may act on an entity of a tenant, by the policies.
abbrev pub MayAct : List PolicySet → Caller → ℕ → ℕ → Bytes → Type 0
MayAct sets c r a tenant =
    IsGranted sets c r Scope.any_tenant a
    ⊎ ((tenant ≢ []) × (tenant ≡ c.tenant) × IsGranted sets c r Scope.own_tenant a)

pub is_empty_iff : (s : Bytes) → (is_empty s ≡ true) ↔ (s ≡ [])
is_empty_iff [] = (λ _. refl, λ _. refl)
is_empty_iff (x ∷ s) = (λ h. cc, λ h. cc)

can_cases :
    (e : Enforcer) (c : Caller) (r a : ℕ) (tenant : Bytes)
    → (can e c r a tenant ≡ true) ↔ (
        (allows e c r Scope.any_tenant a ≡ true)
        ⊎ ((tenant ≢ []) × (tenant ≡ c.tenant) × (allows e c r Scope.own_tenant a ≡ true)))
unfolding can
can_cases e c r a tenant = ground (arith, is_empty_iff tenant, bytes_eq_iff tenant c.tenant)

-- `Can` says yes exactly when a policy of the sets grants the action, under any tenant or, for
-- an entity of the caller's own tenant, under the own tenant. The enforcer is one `New` built.
pub can_iff :
    (sets : List PolicySet) {e : Enforcer} (c : Caller) (r a : ℕ) (tenant : Bytes)
    → new sets ≡ built e
    → (can e c r a tenant ≡ true) ↔ MayAct sets c r a tenant
can_iff sets {e} c r a tenant h =
    let (to, from) = can_cases e c r a tenant in
    let any = allows_iff sets c r Scope.any_tenant a h in
    let own = allows_iff sets c r Scope.own_tenant a h in
    (
      λ k. elim (to k) [ inl x ↦ inl (any.0 x) | inr (n, same, x) ↦ inr (n, same, own.0 x) ],
      λ k. from (elim k [ inl x ↦ inl (any.1 x) | inr (n, same, x) ↦ inr (n, same, own.1 x) ]),
    )

-- The set that `Scopes` answers contains exactly the tenants that `Can` allows.
pub covers-scopes :
    (e : Enforcer) (c : Caller) (r a : ℕ) (tenant : Bytes)
    → covers (scopes e c r a) tenant ≡ can e c r a tenant
unfolding scopes can
covers-scopes e c r a tenant = ground (
  arith,
  is_empty_iff tenant,
  is_empty_iff c.tenant,
  bytes_eq_iff tenant c.tenant,
  bytes_eq_iff tenant [],
)
