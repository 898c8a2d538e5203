-- ===== src/Auth/Callers.antt =====
-- Which callers a request can have.
use mathlib.Core.Path.{subst}
use loghub.Common.{
  ℕ, ℤ, ◌≡◌, refl, sym, true, false, not, ◌||◌, ◌⊎◌, inl, inr, List, [], ◌∷◌, Option, none, some,
  arith, if◌then◌else◌, Bool-cases, is_positive, Bytes, is_empty, cut, trim_space,
}
use loghub.Errors.{ok, err}
use loghub.Authz.{Caller, user_role}
use loghub.Authz.Role
use loghub.Auth.{
  Claims, CredentialLib, invalid_token, parse_int64, is_no_user, checked_user, with_id, with_role,
  with_claims, parse_token, anonymous_caller, collector_caller, is_bearer, with_credential,
  authenticate,
}

-- A signed-in user: an admin of no tenant or a viewer of one, with a positive identifier.
abbrev pub IsUser : Caller → Type 0
IsUser c =
    (((c.role ≡ Role.admin) × (is_empty c.tenant ≡ true))
      ⊎ ((c.role ≡ Role.viewer) × (is_empty c.tenant ≡ false)))
    × (is_positive c.user_id ≡ true)

pub is_no_user_lem : (u : Caller) → is_no_user u ≡ false → IsUser u
unfolding is_no_user
is_no_user_lem u h = ground arith

ok_caller : (u c : Caller) → ok u ≡ ok c → u ≡ c
ok_caller u c h = cc

checked_user-IsUser : (u : Caller) {c : Caller} → checked_user u ≡ ok c → IsUser c
checked_user-IsUser u {c} h = elim (Bool-cases (is_no_user u)) [
  | inl no_user ↦ (let bad : err invalid_token ≡ ok c = rw no_user at h in absurd cc)
  | inr user ↦ subst (λ c. IsUser c) (ok_caller u c (rw user at h)) (is_no_user_lem u user)
]

with_id-IsUser :
    (role : ℕ) (tenant : Bytes) (id : Option ℤ) {c : Caller}
    → with_id role tenant id ≡ ok c
    → IsUser c
with_id-IsUser role tenant none h = cc
with_id-IsUser role tenant (some id) h = checked_user-IsUser _ h

with_role-IsUser :
    (cl : Claims) (role : Option ℕ) {c : Caller} → with_role cl role ≡ ok c → IsUser c
unfolding with_role
with_role-IsUser cl none h = cc
with_role-IsUser cl (some role) h = with_id-IsUser role cl.tenant (parse_int64 cl.subject) h

with_claims-IsUser : (cl : Option Claims) {c : Caller} → with_claims cl ≡ ok c → IsUser c
unfolding with_claims
with_claims-IsUser none h = cc
with_claims-IsUser (some cl) h = with_role-IsUser cl (user_role cl.role) h

-- Every token that is accepted names a user: an admin of no tenant or a viewer of one, with a
-- positive identifier.
pub parse_token-IsUser :
    (lib : CredentialLib) (now : ℕ) (token : Bytes) {c : Caller}
    → parse_token lib now token ≡ ok c
    → IsUser c
unfolding parse_token
parse_token-IsUser lib now token h = with_claims-IsUser (lib.verify now token) h

abbrev pub IsCredential : CredentialLib → Bytes → Caller → Type 0
IsCredential lib credential c =
    ((lib.is_ingest_key credential ≡ true) × (c ≡ collector_caller)) ⊎ IsUser c

with_credential-IsCredential :
    (lib : CredentialLib) (now : ℕ) (scheme credential : Bytes) {c : Caller}
    → with_credential lib now scheme credential ≡ ok c
    → IsCredential lib credential c
unfolding with_credential
with_credential-IsCredential lib now scheme credential {c} h =
    elim (Bool-cases (not (is_bearer scheme) || is_empty credential)) [
      | inl bad ↦ (let no : err invalid_token ≡ ok c = rw bad at h in absurd cc)
      | inr bearer ↦
          (let h' : (if lib.is_ingest_key credential
                  then ok collector_caller
                  else parse_token lib now credential)
                ≡ ok c =
              rw bearer at h in
            elim (Bool-cases (lib.is_ingest_key credential)) [
              | inl key ↦ inl (key, sym (ok_caller collector_caller c (rw key at h')))
              | inr token ↦ inr (parse_token-IsUser lib now credential (rw token at h'))
            ])
    ]

unfoldable pub credential_of : Bytes → Bytes
unfolding cut trim_space
credential_of value = trim_space (cut (trim_space value) b' ').1

-- A request that is let through is anonymous only if it has no Authorization header; otherwise it
-- has exactly one, and it is the collector's, with the ingest key behind the scheme, or that of a
-- user: an admin of no tenant or a viewer of one, with a positive identifier.
pub authenticate_lem :
    (lib : CredentialLib) (now : ℕ) (values : List Bytes) {c : Caller}
    → authenticate lib now values ≡ ok c
    → ((values ≡ []) × (c ≡ anonymous_caller))
      ⊎ ((value : Bytes) × (values ≡ value ∷ []) × IsCredential lib (credential_of value) c)
unfolding authenticate credential_of
authenticate_lem lib now [] {c} h = inl (refl, sym (ok_caller anonymous_caller c h))
authenticate_lem lib now (value ∷ []) h =
    inr (value, refl, with_credential-IsCredential lib now (cut (trim_space value) b' ').0 _ h)
authenticate_lem lib now (value ∷ other ∷ values) h = cc
