-- ===== src/Auth.antt =====
-- backend/internal/auth: who sent a request, from token.go and middleware.go. The verification of a
-- token's signature and times, and the comparison with the ingest key, are parameters.
pub mod Callers
pub mod Issue
pub mod RoundTrip
mod Tests
use loghub.Common.{
  ℕ, zero, suc, Bool, true, false, not, ◌&&◌, ◌||◌, List, [], ◌∷◌, Option, none, some, map, ltb,
  ◌==◌, if◌then◌else◌, ℤ, pos, negsuc, is_positive, lower_byte, Bytes, codes, bytes_eq, is_empty,
  cut, trim_space,
}
use loghub.Errors.{Error, Result, ok, err, new_error, unauthenticated}
use loghub.Authz.{Caller, user_role}
use loghub.Authz.Role
use loghub.Syslog.{atoi}

-- What a verified token says.
pub record Claims : Type 0 where
  pub role : Bytes
  pub tenant : Bytes
  pub subject : Bytes

-- `parser.ParseWithClaims` at a time, and whether a credential has the digest of the ingest key.
pub record CredentialLib : Type 0 where
  pub verify : ℕ → Bytes → Option Claims
  pub is_ingest_key : Bytes → Bool

abbrev pub invalid_token : Error
invalid_token = new_error unauthenticated "invalid_token"

abbrev pub min_int64 : ℕ
min_int64 = 9_223_372_036_854_775_808

abbrev pub in_int64 : Option ℤ → Option ℤ
in_int64 none = none
in_int64 (some (pos n)) = if ltb n min_int64 then some (pos n) else none
in_int64 (some (negsuc n)) = if ltb n min_int64 then some (negsuc n) else none

-- `strconv.ParseInt(s, 10, 64)`
unfoldable pub parse_int64 : Bytes → Option ℤ
unfolding atoi
parse_int64 s = in_int64 (atoi s)

-- Whether `checkUser` finds a fault: an admin has no tenant, a viewer has one, and the identifier
-- of a user is positive.
unfoldable pub is_no_user : Caller → Bool
is_no_user c =
    (not (c.role == Role.admin) && not (c.role == Role.viewer))
    || (((c.role == Role.admin) && not (is_empty c.tenant))
        || (((c.role == Role.viewer) && is_empty c.tenant) || not (is_positive c.user_id)))

abbrev pub checked_user : Caller → Result Caller
checked_user c = if is_no_user c then err invalid_token else ok c

abbrev pub with_id : ℕ → Bytes → Option ℤ → Result Caller
with_id role tenant none = err invalid_token
with_id role tenant (some id) = checked_user (record { role = role; tenant = tenant; user_id = id })

unfoldable pub with_role : Claims → Option ℕ → Result Caller
unfolding parse_int64
with_role cl none = err invalid_token
with_role cl (some role) = with_id role cl.tenant (parse_int64 cl.subject)

unfoldable pub with_claims : Option Claims → Result Caller
unfolding user_role with_role
with_claims none = err invalid_token
with_claims (some cl) = with_role cl (user_role cl.role)

-- `Tokens.Parse`
unfoldable pub parse_token : CredentialLib → ℕ → Bytes → Result Caller
unfolding with_claims
parse_token lib now token = with_claims (lib.verify now token)

abbrev pub anonymous_caller : Caller
anonymous_caller = record { role = Role.anonymous; tenant = []; user_id = pos 0 }

abbrev pub collector_caller : Caller
collector_caller = record { role = Role.collector; tenant = []; user_id = pos 0 }

-- `strings.EqualFold(scheme, "Bearer")`: no other character folds to one of these letters.
unfoldable pub is_bearer : Bytes → Bool
unfolding bytes_eq
is_bearer scheme = bytes_eq (map lower_byte scheme) (codes "bearer")

unfoldable pub with_credential : CredentialLib → ℕ → Bytes → Bytes → Result Caller
unfolding is_bearer parse_token
with_credential lib now scheme credential =
    if not (is_bearer scheme) || is_empty credential
    then err invalid_token
    else if lib.is_ingest_key credential
    then ok collector_caller
    else parse_token lib now credential

abbrev pub of_header : CredentialLib → ℕ → Bytes × Bytes × Bool → Result Caller
of_header lib now (scheme, credential, found) =
    with_credential lib now scheme (trim_space credential)

-- `Authenticator.Authenticate`, of the values of the Authorization header.
unfoldable pub authenticate : CredentialLib → ℕ → List Bytes → Result Caller
unfolding with_credential cut trim_space
authenticate lib now [] = ok anonymous_caller
authenticate lib now (value ∷ []) = of_header lib now (cut (trim_space value) b' ')
authenticate lib now (value ∷ other ∷ values) = err invalid_token
