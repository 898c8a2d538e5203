-- ===== src/SignIn/Tests.antt =====
-- Runs of the sign-in handler, and each theorem about it at a concrete request. The signature is one
-- of a single token.
use loghub.Limiter.Waiting.{refill_time}
use mathlib.Core.Path.{subst}
use loghub.Common.{
  ℕ, ◌*◌, ◌≡◌, refl, sym, Bool, true, false, ◌&&◌, Bool-cases, [], ◌∷◌, none, some, inl, inr,
  if◌then◌else◌, pos, Bytes, codes, bytes_eq, bytes_eq_iff, arith, ltb, Option,
}
use loghub.Errors.{ok, err, not_ok, ok_value}
use loghub.Authz.{Caller}
use loghub.Authz.Role
use loghub.Authz.Rules.{enforcer}
use loghub.Limiter.{Memory, Limiter, minute}
use loghub.Auth.{Claims, CredentialLib, anonymous_caller, parse_token, invalid_token}
use loghub.Auth.Issue.{Sign}
use loghub.Auth.RoundTrip.{Verifies, IsInt64, parse_token-issue, IsHalfDay}
use loghub.SignIn.{
  Decoded, Addr, User, SignInServices, SignInRequest, SignedIn, user_not_found, login, client_addr,
  limit_key, whole_seconds, invalid_credentials,
}
use loghub.SignIn.Session.{IsSignedIn, login-IsSignedIn}
use loghub.SignIn.Refusal.{without_users, login-without_users}

abbrev ada : User
ada = record {
  id = pos 7;
  password_hash = codes "hash";
  role = codes "viewer";
  tenant_id = some (codes "acme");
}

abbrev ada_claims : Claims
ada_claims = record { role = codes "viewer"; tenant = codes "acme"; subject = codes "7" }

abbrev is_ada : Claims → Bool
is_ada cl =
    bytes_eq cl.role ada_claims.role
    && (bytes_eq cl.tenant ada_claims.tenant && bytes_eq cl.subject ada_claims.subject)

abbrev sign_ada : Sign
sign_ada cl issued expires = if is_ada cl then some (expires ∷ []) else none

-- A token is its time of expiry.
abbrev until : ℕ → Bytes → Option Claims
until now [] = none
until now (expires ∷ _) = if ltb now expires then some ada_claims else none

abbrev tokens : CredentialLib
tokens = record { verify = until; is_ingest_key = λ s. false }

is_ada_lem : (cl : Claims) → is_ada cl ≡ true → cl ≡ ada_claims
is_ada_lem cl h = ground (
  arith,
  bytes_eq_iff cl.role ada_claims.role,
  bytes_eq_iff cl.tenant ada_claims.tenant,
  bytes_eq_iff cl.subject ada_claims.subject,
)

sign_ada-Verifies : Verifies sign_ada tokens
sign_ada-Verifies cl issued expires now token h whole whole' after = elim (Bool-cases (is_ada cl)) [
  | inl it ↦
      (let same : some (expires ∷ []) ≡ some token = rw it at h in
        let it' : expires ∷ [] ≡ token = cc in rw (sym it') (rw (is_ada_lem cl it) refl))
  | inr other ↦ (let no : none ≡ some token = rw other at h in cc)
]

abbrev services : SignInServices
services = record {
  enforcer = enforcer;
  limiter = record { name = codes "sign-in"; per_minute = 10; burst = 10 };
  refill = refill_time;
  find_user = λ email. if bytes_eq email (codes "ada") then ok ada else err user_not_found;
  decode = λ body. Decoded.read (codes " ada") (codes "secret");
  parse_addr = λ s. some (record { text = s; is_6 = false; block = [] });
  parse_addr_port = λ s. record { text = s; is_6 = false; block = [] };
  compare_hash = λ hash password. bytes_eq password (codes "secret");
  sign = sign_ada;
}

abbrev request : SignInRequest
request = record {
  caller = anonymous_caller;
  forwarded = codes "1.1.1.1" ∷ codes "6.6.6.6, 10.0.0.1" ∷ [];
  remote_addr = codes "172.18.0.2";
  has_media_type = true;
  body = ok (codes "{}");
}

abbrev fresh : Memory
fresh = record { full = λ k. 0; swept = 0 }

abbrev noon : ℕ
noon = 1000 * minute

abbrev session : SignedIn
session = record {
  token = 1720 * minute ∷ [];
  expires = 1720 * minute;
  role = codes "viewer";
  tenant = some (codes "acme");
}

-- The last address of the last header counts.
last_address : limit_key (client_addr services request) ≡ codes "10.0.0.1"
unfolding client_addr limit_key
last_address = refl

rounded_up : whole_seconds 1_000_000_001 ≡ 2
unfolding whole_seconds
rounded_up = refl

signed_in : (login services fresh noon request).1.1 ≡ ok session
unfolding login loghub.Authz.has_grant loghub.Limiter.decide loghub.Limiter.take bytes_eq
signed_in = refl

7_fits : IsInt64 (pos 7)
7_fits = omega arith

only_ada : (email : Bytes) (u : User) → services.find_user email ≡ ok u → IsInt64 u.id
only_ada email u h = elim (Bool-cases (bytes_eq email (codes "ada"))) [
  | inl it ↦
      (let same : ok ada ≡ ok u = rw it at h in
        subst (λ (v : User). IsInt64 v.id) (ok_value same) 7_fits)
  | inr other ↦ absurd (not_ok user_not_found {a = u} (rw other at h))
]

login-IsSignedIn_example : IsSignedIn services tokens fresh noon (1700 * minute) request session
login-IsSignedIn_example =
    login-IsSignedIn services tokens fresh noon (1700 * minute) request (omega arith)
      sign_ada-Verifies only_ada signed_in

abbrev guessing : SignInServices
guessing = record services { decode = λ body. Decoded.read (codes "ada") (codes "guess") }

login-without_users_example :
    login guessing fresh noon request ≡ login (without_users guessing) fresh noon request
unfolding loghub.SignIn.decode_login bytes_eq loghub.Auth.Issue.check_password
login-without_users_example =
    login-without_users guessing fresh noon request (codes "{}") (codes "ada") (codes "guess") ada
      refl refl refl refl

abbrev ada_caller : Caller
ada_caller = record { role = Role.viewer; tenant = codes "acme"; user_id = pos 7 }

parse_token-issue_example :
    (parse_token tokens (1700 * minute) (1720 * minute ∷ [])
      ≡ (if ltb (1700 * minute) (1720 * minute) then ok ada_caller else err invalid_token))
    × IsHalfDay noon (1720 * minute)
unfolding loghub.Auth.Issue.issue bytes_eq
parse_token-issue_example =
    parse_token-issue sign_ada tokens ada_caller noon (1700 * minute) sign_ada-Verifies 7_fits
      (omega arith) refl
