-- ===== src/Auth/Tests.antt =====
-- Runs of the authentication, and each theorem about it at a concrete request.
use loghub.Common.{
  ◌≡◌, refl, [], ◌∷◌, Option, none, some, if◌then◌else◌, pos, Bytes, codes, bytes_eq,
}
use loghub.Errors.{ok, err}
use loghub.Authz.{Caller}
use loghub.Authz.Role
use loghub.Auth.{
  Claims, CredentialLib, invalid_token, parse_token, anonymous_caller, collector_caller,
  authenticate,
}
use loghub.Auth.Callers.{IsUser, parse_token-IsUser}

abbrev claims_of : Bytes → Option Claims
claims_of token =
    if bytes_eq token (codes "ann")
    then some (record { role = codes "viewer"; tenant = codes "acme"; subject = codes "7" })
    else if bytes_eq token (codes "bob")
    then some (record { role = codes "viewer"; tenant = []; subject = codes "8" })
    else none

abbrev two_tokens : CredentialLib
two_tokens = record { verify = λ now. claims_of; is_ingest_key = λ s. bytes_eq s (codes "key") }

abbrev ann : Caller
ann = record { role = Role.viewer; tenant = codes "acme"; user_id = pos 7 }

viewer_token : parse_token two_tokens 0 (codes "ann") ≡ ok ann
unfolding parse_token bytes_eq loghub.Auth.is_no_user
viewer_token = refl

viewer_without_tenant : parse_token two_tokens 0 (codes "bob") ≡ err invalid_token
unfolding parse_token bytes_eq loghub.Auth.is_no_user
viewer_without_tenant = refl

viewer_request : authenticate two_tokens 0 (codes "bearer  ann" ∷ []) ≡ ok ann
unfolding authenticate loghub.Auth.is_no_user
viewer_request = refl

collector_request : authenticate two_tokens 0 (codes "Bearer key" ∷ []) ≡ ok collector_caller
unfolding authenticate
collector_request = refl

two_headers :
    authenticate two_tokens 0 (codes "Bearer key" ∷ codes "Bearer key" ∷ []) ≡ err invalid_token
unfolding authenticate
two_headers = refl

parse_token-IsUser_example : IsUser ann
parse_token-IsUser_example = parse_token-IsUser two_tokens 0 (codes "ann") viewer_token
