-- ===== src/Auth/Issue.antt =====
-- `Tokens.Issue` and `CheckPassword` (token.go, password.go). The signature of a token and bcrypt's
-- comparison are parameters.
use loghub.Common.{
  ℕ, ◌+◌, ◌-◌, ◌*◌, ◌%◌, Bool, not, ◌&&◌, Option, none, some, leb, ◌==◌, if◌then◌else◌, length,
  Bytes, codes, is_empty,
}
use loghub.Errors.{Error, Result, ok, err, new_error}
use loghub.Errors
use loghub.Authz.{Caller}
use loghub.Authz.Role
use loghub.Search.{second, hour}
use loghub.Decimal.{format_int}
use loghub.Auth.{Claims, is_no_user}

abbrev pub token_ttl : ℕ
token_ttl = 12 * hour

-- `Role.String`, of a role that there is
unfoldable pub role_name : ℕ → Bytes
role_name r =
    if r == Role.anonymous
    then codes "anonymous"
    else if r == Role.admin
    then codes "admin"
    else if r == Role.viewer
    then codes "viewer"
    else if r == Role.collector
    then codes "collector"
    else codes "*"

-- `SignedString`, of the claims, the time of issue and the time of expiry.
abbrev pub Sign : Type 0
Sign = Claims → ℕ → ℕ → Option Bytes

abbrev pub internal_error : Error
internal_error = new_error Errors.internal "internal_error"

unfoldable pub claims_of : Caller → Claims
unfolding role_name format_int
claims_of c = record { role = role_name c.role; tenant = c.tenant; subject = format_int c.user_id }

abbrev pub signed_token : ℕ → Option Bytes → Result (Bytes × ℕ)
signed_token expires none = err internal_error
signed_token expires (some token) = ok (token, expires)

-- `Tokens.Issue`, at a time: the token and when it expires.
unfoldable pub issue : Sign → Caller → ℕ → Result (Bytes × ℕ)
unfolding is_no_user claims_of
issue sign c now =
    let issued = now - now % second in
    let expires = issued + token_ttl in
    if is_no_user c
    then err internal_error
    else signed_token expires (sign (claims_of c) issued expires)

abbrev pub max_password_bytes : ℕ
max_password_bytes = 72

abbrev pub unknown_user_hash : Bytes
unknown_user_hash = codes "$2a$10$KfxAu1zE2xpTdKx1kXTs8ONLzCJp2C0nnGKXJj56TL11udkRMCWz2"

-- `CheckPassword`, with `bcrypt.CompareHashAndPassword`
unfoldable pub check_password : (Bytes → Bytes → Bool) → Bytes → Bytes → Bool
check_password compare_hash hash password =
    let known = not (is_empty hash) in
    let matches = compare_hash (if known then hash else unknown_user_hash) password in
    known && (leb (length password) max_password_bytes && matches)
