-- ===== src/SignIn.antt =====
-- backend/internal/api/auth.go: the sign-in handler, from the guard to the session. JSON, addresses,
-- bcrypt and the signature of a token are parameters, and so is the table of users.
pub mod Session
pub mod Refusal
mod Tests
use text.Mathlib.Text.{◌==◌ as str_eq}
use loghub.Common.{
  ℕ, ◌+◌, ◌-◌, ◌/◌, String, Bool, true, false, not, ◌&&◌, ◌||◌, List, [], ◌∷◌, ◌++◌, Option, none,
  some, ◌==◌, if◌then◌else◌, ℤ, Bytes, codes, is_empty, has_prefix, trim_space,
}
use loghub.Errors.{Kind, Error, FieldError, Result, ok, err, new_error}
use loghub.Errors
use loghub.Authz.{Caller, Enforcer, authorize, user_role}
use loghub.Authz.Action
use loghub.Authz.Resource
use loghub.Search.{second}
use loghub.Limiter.{Memory, Limiter, Decision, allow, RefillTime}
use loghub.Auth.Issue.{Sign, issue, check_password, role_name, internal_error}

abbrev pub sign_ins_per_minute : ℕ
sign_ins_per_minute = 10

abbrev pub invalid_credentials : Error
invalid_credentials = new_error Errors.unauthenticated "invalid_credentials"

-- What `json.Unmarshal` makes of a sign-in body: a field of a wrong type, another error, or the
-- two fields, empty where they are missing.
pub data Decoded : Type 0 where
  wrong_type : String → Decoded
  broken : Decoded
  read : Bytes → Bytes → Decoded

-- An address, unmapped and without a zone: its text, whether it is of IPv6, and the text of its /64.
pub record Addr : Type 0 where
  pub text : Bytes
  pub is_6 : Bool
  pub block : Bytes

-- `store.User`
pub record User : Type 0 where
  pub id : ℤ
  pub password_hash : Bytes
  pub role : Bytes
  pub tenant_id : Option Bytes

-- What the handler has of the server; `find_user` is `UserRepo.FindByEmail`.
pub record SignInServices : Type 0 where
  pub enforcer : Enforcer
  pub limiter : Limiter
  pub refill : RefillTime
  pub find_user : Bytes → Result User
  pub decode : Bytes → Decoded
  pub parse_addr : Bytes → Option Addr
  pub parse_addr_port : Bytes → Addr
  pub compare_hash : Bytes → Bytes → Bool
  pub sign : Sign

-- A request: the caller, the values of X-Forwarded-For, the remote address, whether the media type
-- is JSON, and the body or the answer to a body that cannot be read.
pub record SignInRequest : Type 0 where
  pub caller : Caller
  pub forwarded : List Bytes
  pub remote_addr : Bytes
  pub has_media_type : Bool
  pub body : Result Bytes

pub record SignedIn : Type 0 where
  pub token : Bytes
  pub expires : ℕ
  pub role : Bytes
  pub tenant : Option Bytes

abbrev pub unsupported_media_type : Error
unsupported_media_type = new_error Errors.malformed "unsupported_media_type"

abbrev pub invalid_json : Error
invalid_json = new_error Errors.malformed "invalid_json"

abbrev pub invalid_request : List FieldError → Error
invalid_request fields = record { kind = Errors.invalid; code = "invalid_request"; fields = fields }

abbrev pub field_error : String → String → FieldError
field_error field code = record { field = field; code = code }

abbrev pub required : Bool → String → List FieldError
required missing field = if missing then field_error field "required" ∷ [] else []

abbrev pub checked : Bytes → Bytes → List FieldError → Result (Bytes × Bytes)
checked email password [] = ok (email, password)
checked email password (f ∷ missing) = err (invalid_request (f ∷ missing))

unfoldable pub decoded : Bytes → Decoded → Result (Bytes × Bytes)
unfolding trim_space has_prefix
decoded body (wrong_type field) =
    if str_eq field "email" || str_eq field "password"
    then err (invalid_request (field_error field "invalid_type" ∷ []))
    else err invalid_json
decoded body broken = err invalid_json
decoded body (read email password) =
    if not (has_prefix (trim_space body) (codes "{"))
    then err invalid_json
    else checked email password
        (required (is_empty (trim_space email)) "email" ++ required (is_empty password) "password")

-- `decodeLogin`
unfoldable pub decode_login : SignInServices → Bytes → Result (Bytes × Bytes)
unfolding decoded
decode_login sv body = decoded body (sv.decode body)

-- What follows the last comma.
unfoldable pub after_comma : Bytes → Bytes → Bytes
after_comma tail [] = tail
after_comma tail (c ∷ s) = if c == b',' then after_comma s s else after_comma tail s

unfoldable pub last_value : List Bytes → Option Bytes
unfolding after_comma
last_value [] = none
last_value (v ∷ []) = some (after_comma v v)
last_value (v ∷ w ∷ values) = last_value (w ∷ values)

abbrev pub or_addr : Addr → Option Addr → Addr
or_addr remote none = remote
or_addr remote (some addr) = addr

abbrev pub forwarded_addr : SignInServices → Option Bytes → Option Addr
unfolding trim_space
forwarded_addr sv none = none
forwarded_addr sv (some last) = sv.parse_addr (trim_space last)

-- `clientAddr`
unfoldable pub client_addr : SignInServices → SignInRequest → Addr
unfolding last_value forwarded_addr
client_addr sv req =
    or_addr (sv.parse_addr_port req.remote_addr) (forwarded_addr sv (last_value req.forwarded))

-- `limitKey`
unfoldable pub limit_key : Addr → Bytes
limit_key addr = if addr.is_6 then addr.block else addr.text

-- `wholeSeconds`: rounded up.
unfoldable pub whole_seconds : ℕ → ℕ
whole_seconds d = (d + (second - 1)) / second

-- `setRateLimitHeaders`: the limit, what remains of it, the seconds until all of it is back, and
-- those until the next attempt, if this one is refused.
pub record RateHeaders : Type 0 where
  pub limit : ℕ
  pub remaining : ℕ
  pub reset : ℕ
  pub retry_after : Option ℕ

unfoldable pub rate_limit_headers : Decision → RateHeaders
unfolding whole_seconds
rate_limit_headers d = record {
  limit = d.limit;
  remaining = d.remaining;
  reset = whole_seconds d.reset_after;
  retry_after = if d.allowed then none else some (whole_seconds d.retry_after);
}

abbrev pub too_many_attempts : Error
too_many_attempts = new_error Errors.rate_limited "too_many_attempts"

abbrev pub or_empty : Option Bytes → Bytes
or_empty none = []
or_empty (some t) = t

abbrev pub caller_of : User → ℕ → Caller
caller_of u role = record { role = role; tenant = or_empty u.tenant_id; user_id = u.id }

abbrev pub session_of : User → ℕ → Result (Bytes × ℕ) → Result SignedIn
session_of u role (err e) = err e
session_of u role (ok (token, expires)) =
    ok (record { token = token; expires = expires; role = role_name role; tenant = u.tenant_id })

-- The session of a user whose password matched.
unfoldable pub start_session : SignInServices → ℕ → User → Option ℕ → Result SignedIn
unfolding issue role_name
start_session sv now u none = err internal_error
start_session sv now u (some role) = session_of u role (issue sv.sign (caller_of u role) now)

abbrev pub is_not_found : Error → Bool
is_not_found e = elim e.kind [ Kind.not_found ↦ true | _ ↦ false ]

-- What `FindByEmail` answers where there is no such user.
abbrev pub user_not_found : Error
user_not_found = new_error Errors.not_found "user_not_found"

-- The zero `User`, which stands beside an error.
abbrev pub no_user : User
no_user = record { id = ℤ.pos 0; password_hash = []; role = []; tenant_id = none }

unfoldable pub verify_user : SignInServices → ℕ → Bytes → User → Result SignedIn
unfolding check_password start_session user_role
verify_user sv now password u =
    if not (check_password sv.compare_hash u.password_hash password)
    then err invalid_credentials
    else start_session sv now u (user_role u.role)

unfoldable pub found_user : SignInServices → ℕ → Bytes → Result User → Result SignedIn
unfolding verify_user
found_user sv now password (ok u) = verify_user sv now password u
found_user sv now password (err e) =
    if is_not_found e then verify_user sv now password no_user else err e

-- The answer: the headers of the limit, once it is asked, and the session or the error.
abbrev pub SignInAnswer : Type 0
SignInAnswer = Option RateHeaders × Result SignedIn

abbrev pub limited : SignInServices → ℕ → Bytes → Bytes → Decision → SignInAnswer
limited sv now email password d = (
  some (rate_limit_headers d),
  if d.allowed
      then found_user sv now password (sv.find_user (trim_space email))
      else err too_many_attempts,
)

unfoldable pub attempt :
    SignInServices → Memory → ℕ → SignInRequest → Result (Bytes × Bytes) → Memory × SignInAnswer
unfolding allow client_addr limit_key rate_limit_headers found_user trim_space
attempt sv m now req (err e) = (m, (none, err e))
attempt sv m now req (ok (email, password)) =
    let (m', d) = allow sv.refill sv.limiter m now (limit_key (client_addr sv req)) in
    (m', limited sv now email password d)

unfoldable pub read_body :
    SignInServices → Memory → ℕ → SignInRequest → Result Bytes → Memory × SignInAnswer
unfolding decode_login attempt
read_body sv m now req (err e) = (m, (none, err e))
read_body sv m now req (ok body) = attempt sv m now req (decode_login sv body)

unfoldable pub typed_body : SignInServices → Memory → ℕ → SignInRequest → Memory × SignInAnswer
unfolding read_body
typed_body sv m now req =
    if not req.has_media_type
    then (m, (none, err unsupported_media_type))
    else read_body sv m now req req.body

abbrev pub unless_denied : Memory → Option Error → Memory × SignInAnswer → Memory × SignInAnswer
unless_denied m (some e) next = (m, (none, err e))
unless_denied m none next = next

-- `Login`, on the memory of the limiter, at a time
unfoldable pub login : SignInServices → Memory → ℕ → SignInRequest → Memory × SignInAnswer
unfolding authorize typed_body
login sv m now req =
    unless_denied m (authorize sv.enforcer req.caller Resource.sessions Action.create [])
      (typed_body sv m now req)
