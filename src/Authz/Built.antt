-- ===== src/Authz/Built.antt =====
-- `New`: which policy sets it accepts, and what it puts into the map.
use mathlib.Core.List.{append-nil, append_assoc}
use loghub.Common.{
  ℕ, ◌≤◌, ◌≡◌, ◌≢◌, ◌↔◌, ◌⊎◌, refl, inl, inr, sym, ◌∙◌, List, [], ◌∷◌, ◌++◌, Option, none, some,
  All, Option-cases, arith,
}
use loghub.Authz.{
  Policy, PolicySet, Grant, Enforcer, Problem, built, validate_actions, validate, grants_of,
  add_policies, add_sets, set_problems, finish, new,
}

abbrev pub problem_list : Option Problem → List Problem
problem_list none = []
problem_list (some why) = why ∷ []

abbrev pub if_valid : Option Problem → List Grant → List Grant
if_valid none gs = gs
if_valid (some why) gs = []

-- every problem of a list of policies, and every grant of the policies that have none
abbrev pub policy_problems : List Policy → List Problem
policy_problems [] = []
policy_problems (p ∷ ps) = problem_list (validate p) ++ policy_problems ps

abbrev pub policy_grants : List Policy → List Grant
policy_grants [] = []
policy_grants (p ∷ ps) = if_valid (validate p) (grants_of p) ++ policy_grants ps

abbrev pub all_problems : List PolicySet → List Problem
all_problems [] = []
all_problems (s ∷ sets) =
    set_problems s.policies ++ (policy_problems s.policies ++ all_problems sets)

abbrev pub all_grants : List PolicySet → List Grant
all_grants [] = []
all_grants (s ∷ sets) = policy_grants s.policies ++ all_grants sets

add_policies_lem :
    (ps : List Policy) (gs : List Grant) (pr : List Problem)
    → add_policies ps gs pr ≡ (gs ++ policy_grants ps, pr ++ policy_problems ps)
unfolding add_policies
add_policies_lem [] gs pr = simp append-nil
add_policies_lem (p ∷ ps) gs pr = elim (Option-cases (validate p)) [
  | inl fine ↦ rw (fine, add_policies) (simp (add_policies_lem ps, append_assoc))
  | inr (why, bad) ↦ rw (bad, add_policies) (simp (add_policies_lem ps, append_assoc))
]

add_sets_lem :
    (sets : List PolicySet) (gs : List Grant) (pr : List Problem)
    → add_sets sets gs pr ≡ (gs ++ all_grants sets, pr ++ all_problems sets)
unfolding add_sets
add_sets_lem [] gs pr = simp append-nil
add_sets_lem (s ∷ sets) gs pr = simp (add_policies_lem, add_sets_lem sets, append_assoc)

pub new_lem : (sets : List PolicySet) → new sets ≡ finish (all_grants sets, all_problems sets)
unfolding new
new_lem sets = rw add_sets_lem

pub finish-eq-built :
    (gs : List Grant) (pr : List Problem) {e : Enforcer}
    → finish (gs, pr) ≡ built e
    → (pr ≡ []) × (e.grants ≡ gs)
unfolding finish
finish-eq-built gs [] h = ground arith
finish-eq-built gs (why ∷ more) h = cc

-- What the source asks of a policy, said without `validate`.
pub record IsValid (p : Policy) : Type 0 where
  pub role : p.role ≤ 4
  pub scope : (p.scope ≡ 1) ⊎ (p.scope ≡ 2)
  pub resource : (1 ≤ p.resource) × (p.resource ≤ 6)
  pub some_action : p.actions ≢ []
  pub has_tenant : p.role ≡ 0 → p.scope ≡ 2
  pub actions : All (λ a. (1 ≤ a) × (a ≤ 3)) p.actions

validate_actions_iff :
    (actions : List ℕ) → (validate_actions actions ≡ none) ↔ All (λ a. (1 ≤ a) × (a ≤ 3)) actions
unfolding validate_actions
validate_actions_iff [] = (λ _. tt, λ _. refl)
validate_actions_iff (a ∷ actions) = ground (arith, validate_actions_iff actions)

validate_iff : (p : Policy) → (validate p ≡ none) ↔ IsValid p
unfolding validate
validate_iff p = (
  λ h. record {
    role = ground arith;
    scope = ground arith;
    resource = ground arith;
    some_action = ground arith;
    has_tenant = ground arith;
    actions = ground (arith, validate_actions_iff p.actions);
  },
  λ v. ground (arith, validate_actions_iff p.actions, v.has_tenant),
)

-- A policy set that `New` accepts.
abbrev pub IsAcceptable : PolicySet → Type 0
IsAcceptable s = (s.policies ≢ []) × All IsValid s.policies

pub append-eq-nil {ℓ} : {A : Type ℓ} (xs ys : List A) → ((xs ++ ys) ≡ []) ↔ ((xs ≡ []) × (ys ≡ []))
append-eq-nil [] ys = (λ h. (refl, h), λ h. h.1)
append-eq-nil (x ∷ xs) ys = (λ h. cc, λ h. cc)

problem_list_iff : (o : Option Problem) → (problem_list o ≡ []) ↔ (o ≡ none)
problem_list_iff none = (λ _. refl, λ _. refl)
problem_list_iff (some why) = (λ h. cc, λ h. cc)

set_problems_iff : (ps : List Policy) → (set_problems ps ≡ []) ↔ (ps ≢ [])
set_problems_iff [] = (λ h. cc, λ h. absurd (h refl))
set_problems_iff (p ∷ ps) = (λ h. cc, λ h. refl)

policy_problems_iff : (ps : List Policy) → (policy_problems ps ≡ []) ↔ All IsValid ps
policy_problems_iff [] = (λ _. tt, λ _. refl)
policy_problems_iff (p ∷ ps) = (
  λ h.
      let (here, later) = (append-eq-nil _ _).0 h in
      ((validate_iff p).0 ((problem_list_iff _).0 here), (policy_problems_iff ps).0 later),
  λ (v, vs).
      (append-eq-nil _ _).1
        ((problem_list_iff _).1 ((validate_iff p).1 v), (policy_problems_iff ps).1 vs),
)

pub all_problems_iff : (sets : List PolicySet) → (all_problems sets ≡ []) ↔ All IsAcceptable sets
all_problems_iff [] = (λ _. tt, λ _. refl)
all_problems_iff (s ∷ sets) = (
  λ h.
      let (named, rest) = (append-eq-nil _ _).0 h in
      let (valid, later) = (append-eq-nil _ _).0 rest in
      (
        ((set_problems_iff s.policies).0 named, (policy_problems_iff s.policies).0 valid),
        (all_problems_iff sets).0 later,
      ),
  λ ((named, valid), later). (append-eq-nil _ _).1 (
    (set_problems_iff s.policies).1 named,
    (append-eq-nil _ _).1
        ((policy_problems_iff s.policies).1 valid, (all_problems_iff sets).1 later),
  ),
)

finish_total :
    (gs : List Grant) (pr : List Problem) → pr ≡ [] → (e : Enforcer) × (finish (gs, pr) ≡ built e)
unfolding finish
finish_total gs pr h = (record { grants = gs }, rw h)

-- `New` builds an enforcer exactly when every set has a policy and every policy is valid.
pub new-eq-built_iff :
    (sets : List PolicySet) → ((e : Enforcer) × (new sets ≡ built e)) ↔ All IsAcceptable sets
new-eq-built_iff sets = (
  λ (e, h). (all_problems_iff sets).0 (finish-eq-built _ _ (sym (new_lem sets) ∙ h)).0,
  λ ok.
      let (e, h) = finish_total (all_grants sets) _ ((all_problems_iff sets).1 ok) in
      (e, new_lem sets ∙ h),
)
