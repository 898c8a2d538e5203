-- ===== src/Authz.antt =====
-- backend/internal/authz/authz.go: roles, resources, actions and scopes are the source's uint8
-- constants, so that a value out of range can be written; a policy is what `Grant(r).As(s).On(x).
-- Can(a...)` builds, and the enforcer's map of grants is the list of its keys.
pub mod Role
pub mod Resource
pub mod Action
pub mod Scope
pub mod Built
pub mod Granted
pub mod Covered
pub mod Rules
mod Tests
use loghub.Common.{
  ℕ, ℤ, String, Bool, true, false, not, ◌&&◌, ◌||◌, List, [], ◌∷◌, ◌++◌, map, Option, none, some,
  ltb, leb, ◌==◌, if◌then◌else◌, Bytes, bytes_eq, is_empty, codes,
}
use loghub.Errors.{Error, new_error, unauthenticated, forbidden}

-- `UserRole`
unfoldable pub user_role : Bytes → Option ℕ
user_role s =
    if bytes_eq s (codes "admin")
    then some Role.admin
    else if bytes_eq s (codes "viewer")
    then some Role.viewer
    else none

pub record Caller : Type 0 where
  pub role : ℕ
  pub tenant : Bytes
  pub user_id : ℤ

unfoldable pub authenticated : Caller → Bool
authenticated c = ltb Role.anonymous c.role && ltb c.role Role.any_role

pub record Policy : Type 0 where
  pub role : ℕ
  pub scope : ℕ
  pub resource : ℕ
  pub actions : List ℕ

-- `Grant(r).As(s).On(x).Can(actions...)`
abbrev pub grant : ℕ → ℕ → ℕ → List ℕ → Policy
grant r s x actions = record { role = r; scope = s; resource = x; actions = actions }

pub record PolicySet : Type 0 where
  pub policies : List Policy

pub record Grant : Type 0 where
  pub role : ℕ
  pub resource : ℕ
  pub scope : ℕ
  pub action : ℕ

pub record Enforcer : Type 0 where
  pub grants : List Grant

pub data Problem : Type 0 where
  empty_set unknown_role unknown_scope unknown_resource no_actions : Problem
  anonymous_tenant unknown_action : Problem

-- the loop of `validate`
unfoldable pub validate_actions : List ℕ → Option Problem
validate_actions [] = none
validate_actions (a ∷ actions) =
    if a == 0 || ltb Action.any_action a then some unknown_action else validate_actions actions

abbrev pub no_elements : List ℕ → Bool
no_elements [] = true
no_elements (_ ∷ _) = false

unfoldable pub validate : Policy → Option Problem
unfolding validate_actions
validate p =
    if ltb Role.any_role p.role
    then some unknown_role
    else if not (p.scope == Scope.own_tenant) && not (p.scope == Scope.any_tenant)
    then some unknown_scope
    else if p.resource == 0 || leb Resource.resource_end p.resource
    then some unknown_resource
    else if no_elements p.actions
    then some no_actions
    else if p.role == Role.anonymous && p.scope == Scope.own_tenant
    then some anonymous_tenant
    else validate_actions p.actions

-- the keys that one policy puts into the map
abbrev pub grants_of : Policy → List Grant
grants_of p =
    map (λ a. record { role = p.role; resource = p.resource; scope = p.scope; action = a })
      p.actions

-- the inner loop of `New`, over the policies of a set: the grants and the problems so far
unfoldable pub add_policies : List Policy → List Grant → List Problem → List Grant × List Problem
add_policies [] grants problems = (grants, problems)
add_policies (p ∷ ps) grants problems = elim (validate p) [
  | some why ↦ add_policies ps grants (problems ++ why ∷ [])
  | none ↦ add_policies ps (grants ++ grants_of p) problems
]

abbrev pub set_problems : List Policy → List Problem
set_problems [] = empty_set ∷ []
set_problems (_ ∷ _) = []

-- the outer loop of `New`
unfoldable pub add_sets : List PolicySet → List Grant → List Problem → List Grant × List Problem
unfolding add_policies
add_sets [] grants problems = (grants, problems)
add_sets (s ∷ sets) grants problems =
    let (grants', problems') =
      add_policies s.policies grants (problems ++ set_problems s.policies) in
    add_sets sets grants' problems'

pub data BuildResult : Type 0 where
  built : Enforcer → BuildResult
  refused : List Problem → BuildResult

unfoldable pub finish : List Grant × List Problem → BuildResult
finish (grants, []) = built (record { grants = grants })
finish (grants, why ∷ more) = refused (why ∷ more)

unfoldable pub new : List PolicySet → BuildResult
unfolding add_sets finish
new sets = finish (add_sets sets [] [])

abbrev pub same_grant : Grant → Grant → Bool
same_grant g h =
    g.role == h.role && g.resource == h.resource && g.scope == h.scope && g.action == h.action

-- `_, ok := e.grants[g]`
unfoldable pub has_grant : List Grant → Grant → Bool
has_grant [] g = false
has_grant (h ∷ hs) g = same_grant h g || has_grant hs g

abbrev pub probe : Enforcer → ℕ → ℕ → ℕ → ℕ → Bool
probe e role r s a =
    has_grant e.grants (record { role = role; resource = r; scope = s; action = a })

-- the loop over the actions, for one role
abbrev pub allows_role : Enforcer → ℕ → ℕ → ℕ → ℕ → Bool
allows_role e role r s a = probe e role r s a || probe e role r s Action.any_action

unfoldable pub allows : Enforcer → Caller → ℕ → ℕ → ℕ → Bool
allows e c r s a =
    if authenticated c
    then allows_role e c.role r s a || allows_role e Role.any_role r s a
    else allows_role e c.role r s a

-- `Can`
unfoldable pub can : Enforcer → Caller → ℕ → ℕ → Bytes → Bool
unfolding allows
can e c r a tenant =
    if not (is_empty tenant) && bytes_eq tenant c.tenant && allows e c r Scope.own_tenant a
    then true
    else allows e c r Scope.any_tenant a

-- The answer to `Scopes`; `one` is empty unless the set is one tenant.
pub record Tenants : Type 0 where
  pub all : Bool
  pub one : Bytes

unfoldable pub scopes : Enforcer → Caller → ℕ → ℕ → Tenants
unfolding allows
scopes e c r a =
    if allows e c r Scope.any_tenant a
    then record { all = true; one = [] }
    else if not (is_empty c.tenant) && allows e c r Scope.own_tenant a
    then record { all = false; one = c.tenant }
    else record { all = false; one = [] }

-- The methods `Empty`, `Contains` and `Only` of `Tenants`.
abbrev pub is_no_tenant : Tenants → Bool
is_no_tenant t = not t.all && is_empty t.one

abbrev pub covers : Tenants → Bytes → Bool
covers t tenant = t.all || (not (is_empty tenant) && bytes_eq tenant t.one)

abbrev pub only : Tenants → Bytes × Bool
only t = (t.one, not t.all && not (is_empty t.one))

unfoldable pub deny : Caller → Error
unfolding authenticated
deny c =
    if not (authenticated c)
    then new_error unauthenticated "authentication_required"
    else new_error forbidden "permission_denied"

-- `Authorize`: nil is `none`.
unfoldable pub authorize : Enforcer → Caller → ℕ → ℕ → Bytes → Option Error
unfolding can deny
authorize e c r a tenant = if can e c r a tenant then none else some (deny c)

abbrev pub tenant_not_permitted : Error
tenant_not_permitted = new_error forbidden "tenant_not_permitted"
