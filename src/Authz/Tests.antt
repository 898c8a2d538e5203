-- ===== src/Authz/Tests.antt =====
-- Runs of the authorizer, and each theorem about it at a concrete input.
use loghub.Common.{◌≡◌, ◌≢◌, ◌↔◌, ◌⊎◌, refl, true, false, [], ◌∷◌, arith, All, codes, pos, bytes_eq}
use loghub.Authz.Role
use loghub.Authz.Resource
use loghub.Authz.Action
use loghub.Authz.{
  Caller, authenticated, Enforcer, built, refused, empty_set, unknown_scope, grant, validate, new,
  can, scopes, covers, has_grant,
}
use loghub.Authz.Built.{IsAcceptable, new-eq-built_iff}
use loghub.Authz.Granted.{MayAct, can_iff, covers-scopes}
use loghub.Authz.Rules.{enforcer, policies, new-policies, viewer_isolation, read_events_iff}

abbrev ann : Caller
ann = record { role = Role.viewer; tenant = codes "demoA"; user_id = pos 4 }

abbrev agent : Caller
agent = record { role = Role.collector; tenant = []; user_id = pos 0 }

can_tests :
    (can enforcer ann Resource.events Action.read (codes "demoA") ≡ true)
    × (can enforcer ann Resource.events Action.read (codes "demoB") ≡ false)
    × (can enforcer agent Resource.events Action.create (codes "demoB") ≡ true)
    × (can enforcer agent Resource.events Action.read (codes "demoB") ≡ false)
unfolding can has_grant authenticated bytes_eq
can_tests = (refl, refl, refl, refl)

new_tests :
    new (
      record { policies = [] }
      ∷ record { policies = grant Role.admin 7 Resource.events (Action.read ∷ []) ∷ [] }
      ∷ [])
    ≡ refused (empty_set ∷ unknown_scope ∷ [])
unfolding new validate
new_tests = refl

new-eq-built_iff_example : ((e : Enforcer) × (new policies ≡ built e)) ↔ All IsAcceptable policies
new-eq-built_iff_example = new-eq-built_iff policies

can_iff_example :
    (can enforcer ann Resource.events Action.read (codes "demoA") ≡ true)
    ↔ MayAct policies ann Resource.events Action.read (codes "demoA")
can_iff_example = can_iff policies ann Resource.events Action.read (codes "demoA") new-policies

covers-scopes_example :
    covers (scopes enforcer ann Resource.alerts Action.read) (codes "demoA")
    ≡ can enforcer ann Resource.alerts Action.read (codes "demoA")
covers-scopes_example = covers-scopes enforcer ann Resource.alerts Action.read (codes "demoA")

viewer_isolation_example :
    ((Action.read ≡ Action.read) × (codes "demoA" ≢ []) × (codes "demoA" ≡ codes "demoA"))
    ⊎ ((Resource.events ≡ Resource.health) × (Action.read ≡ Action.read))
    ⊎ ((Resource.events ≡ Resource.sessions) × (Action.read ≡ Action.create))
viewer_isolation_example =
    viewer_isolation ann Resource.events Action.read (codes "demoA") new-policies refl (omega arith)
      can_tests.0

read_events_iff_example : (can enforcer ann Resource.events Action.read (codes "demoA") ≡ true) ↔ (
    (ann.role ≡ Role.admin)
    ⊎ ((codes "demoA" ≢ []) × (codes "demoA" ≡ ann.tenant) × (ann.role ≡ Role.viewer)))
read_events_iff_example = read_events_iff ann (codes "demoA") new-policies
