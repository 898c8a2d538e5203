-- ===== src/SignIn/Session.antt =====
-- Who gets a session.
use loghub.Common.{
  ltb, if◌then◌else◌, ◌≤◌, ℕ, ◌≡◌, refl, sym, ap, ◌∙◌, true, false, not, Bool-cases, [], Option,
  none, some, inl, inr, Bytes, is_empty, trim_space, length, arith,
}
use loghub.Errors.{Error, Result, ok, err, not_ok, ok_value}
use loghub.Authz.{user_role, authorize}
use loghub.Authz.Action
use loghub.Authz.Resource
use loghub.Limiter.{Memory, allow}
use loghub.Auth.{CredentialLib, parse_token, invalid_token}
use loghub.Auth.Issue.{issue, check_password, max_password_bytes}
use loghub.Auth.RoundTrip.{Verifies, IsInt64, IsHalfDay, parse_token-issue}
use loghub.SignIn.{
  SignInServices, SignInRequest, SignedIn, SignInAnswer, User, login, decode_login, client_addr,
  limit_key, caller_of, session_of, start_session, verify_user, found_user, attempt, read_body,
  typed_body, unless_denied, is_not_found, no_user, invalid_credentials, too_many_attempts,
  unsupported_media_type,
}

-- The user's password, in full.
abbrev pub HasPassword : SignInServices → User → Bytes → Type 0
HasPassword sv u password =
    (is_empty u.password_hash ≡ false)
    × (length password ≤ max_password_bytes)
    × (sv.compare_hash u.password_hash password ≡ true)

check_password-HasPassword :
    (sv : SignInServices) (u : User) (password : Bytes)
    → check_password sv.compare_hash u.password_hash password ≡ true
    → HasPassword sv u password
unfolding check_password
check_password-HasPassword sv u password h = ground arith

-- A session of a time: at another one its token is accepted for the user, or has expired.
abbrev pub IsSessionOf : CredentialLib → ℕ → ℕ → User → SignedIn → Type 0
IsSessionOf lib now later u out =
    (role : ℕ) × (user_role u.role ≡ some role)
    × (parse_token lib later out.token
        ≡ (if ltb later out.expires then ok (caller_of u role) else err invalid_token))
    × IsHalfDay now out.expires

session_of-ok :
    (u : User) (role : ℕ) (r : Result (Bytes × ℕ)) {out : SignedIn}
    → session_of u role r ≡ ok out
    → r ≡ ok (out.token, out.expires)
session_of-ok u role (err e) h = cc
session_of-ok u role (ok (token, expires)) h =
    ap (λ (o : SignedIn). ok (o.token, o.expires)) (ok_value h)

module _ (sv : SignInServices) (lib : CredentialLib) (now later : ℕ)
    (verifies : Verifies sv.sign lib) (after : now ≤ later) where
  start_session-IsSessionOf :
      (u : User) (role : Option ℕ) {out : SignedIn}
      → IsInt64 u.id
      → user_role u.role ≡ role
      → start_session sv now u role ≡ ok out
      → IsSessionOf lib now later u out
  unfolding start_session
  start_session-IsSessionOf u none fits known h = cc
  start_session-IsSessionOf u (some role) fits known h =
      let (accepted, until) =
        parse_token-issue sv.sign lib (caller_of u role) now later verifies fits after
          (session_of-ok u role (issue sv.sign (caller_of u role) now) h) in
      (role, known, accepted, until)

  verify_user-ok :
      (password : Bytes) (u : User) {out : SignedIn}
      → IsInt64 u.id
      → verify_user sv now password u ≡ ok out
      → HasPassword sv u password × IsSessionOf lib now later u out
  unfolding verify_user
  verify_user-ok password u {out} fits h =
      elim (Bool-cases (check_password sv.compare_hash u.password_hash password)) [
        | inr wrong ↦ absurd (not_ok invalid_credentials {a = out} (rw wrong at h))
        | inl right ↦ (
          check_password-HasPassword sv u password right,
          start_session-IsSessionOf u (user_role u.role) fits refl (rw right at h),
        )
      ]

pub nobody :
    (sv : SignInServices) (now : ℕ) (password : Bytes)
    → verify_user sv now password no_user ≡ err invalid_credentials
unfolding verify_user check_password
nobody sv now password = refl

-- What a session is given for: a user with the email and the password of the request, at an attempt
-- that the limiter allows; and the session's token is accepted for that user.
abbrev pub GivenFor :
    SignInServices
    → CredentialLib
    → Memory
    → ℕ
    → ℕ
    → SignInRequest
    → Bytes
    → Bytes
    → SignedIn
    → Type 0
GivenFor sv lib m now later req email password out =
    (u : User) × (sv.find_user (trim_space email) ≡ ok u)
    × HasPassword sv u password
    × IsSessionOf lib now later u out
    × ((allow sv.refill sv.limiter m now (limit_key (client_addr sv req))).1.allowed ≡ true)

-- The request that a session answers, and what it was given for.
abbrev pub IsSignedIn :
    SignInServices → CredentialLib → Memory → ℕ → ℕ → SignInRequest → SignedIn → Type 0
IsSignedIn sv lib m now later req out =
    (authorize sv.enforcer req.caller Resource.sessions Action.create [] ≡ none)
    × ((body : Bytes) × (req.body ≡ ok body)
        × ((email : Bytes) × (password : Bytes) × (decode_login sv body ≡ ok (email, password))
            × GivenFor sv lib m now later req email password out))

module _ (sv : SignInServices) (lib : CredentialLib) (m : Memory) (now later : ℕ)
    (req : SignInRequest) (after : now ≤ later) (verifies : Verifies sv.sign lib)
    (fits : (email : Bytes) (u : User) → sv.find_user email ≡ ok u → IsInt64 u.id) where
  found_user-ok :
      (email password : Bytes) (r : Result User) {out : SignedIn}
      → sv.find_user (trim_space email) ≡ r
      → found_user sv now password r ≡ ok out
      → (u : User) × (r ≡ ok u) × HasPassword sv u password × IsSessionOf lib now later u out
  unfolding found_user
  found_user-ok email password (ok u) found h =
      let (right, session) =
        verify_user-ok sv lib now later verifies after password u (fits (trim_space email) u found)
          h in
      (u, refl, right, session)
  found_user-ok email password (err e) {out} found h = elim (Bool-cases (is_not_found e)) [
    | inl missing ↦
        absurd
          (not_ok invalid_credentials {a = out} (sym (nobody sv now password) ∙ rw missing at h))
    | inr other ↦ absurd (not_ok e {a = out} (rw other at h))
  ]

  attempt-ok :
      (email password : Bytes) {out : SignedIn}
      → (attempt sv m now req (ok (email, password))).1.1 ≡ ok out
      → GivenFor sv lib m now later req email password out
  unfolding attempt
  attempt-ok email password {out} h =
      let d = (allow sv.refill sv.limiter m now (limit_key (client_addr sv req))).1 in
      elim (Bool-cases d.allowed) [
        | inr refused ↦ absurd (not_ok too_many_attempts {a = out} (rw refused at h))
        | inl allowed ↦
            (let h' : found_user sv now password (sv.find_user (trim_space email)) ≡ ok out =
                rw allowed at h in
              let (u, found, right, session) =
                found_user-ok email password (sv.find_user (trim_space email)) refl h' in
              (u, found, right, session, allowed))
      ]

  read_body-ok :
      (body : Result Bytes) {out : SignedIn}
      → (read_body sv m now req body).1.1 ≡ ok out
      → (text : Bytes) × (body ≡ ok text)
        × ((email : Bytes) × (password : Bytes) × (decode_login sv text ≡ ok (email, password))
            × GivenFor sv lib m now later req email password out)
  unfolding read_body
  read_body-ok (err e) h = absurd (not_ok e h)
  read_body-ok (ok text) h = (text, refl, decoded_ok (decode_login sv text) h)
    where
      decoded_ok :
          (fields : Result (Bytes × Bytes)) {out : SignedIn}
          → (attempt sv m now req fields).1.1 ≡ ok out
          → (email : Bytes) × (password : Bytes) × (fields ≡ ok (email, password))
            × GivenFor sv lib m now later req email password out
      decoded_ok (err e) h = absurd (not_ok e h)
      decoded_ok (ok (email, password)) h = (email, password, refl, attempt-ok email password h)

  typed_body-ok :
      {out : SignedIn}
      → (typed_body sv m now req).1.1 ≡ ok out
      → (read_body sv m now req req.body).1.1 ≡ ok out
  unfolding typed_body
  typed_body-ok {out} h = elim (Bool-cases (not req.has_media_type)) [
    | inl other ↦ absurd (not_ok unsupported_media_type {a = out} (rw other at h))
    | inr fine ↦ rw fine at h
  ]

  allowed_ok :
      (denied : Option Error) (next : Memory × SignInAnswer) {out : SignedIn}
      → (unless_denied m denied next).1.1 ≡ ok out
      → (denied ≡ none) × (next.1.1 ≡ ok out)
  allowed_ok (some e) next h = absurd (not_ok e h)
  allowed_ok none next h = (refl, h)

  -- A session is given only to a caller that may sign in, at an attempt that the limiter allows, for
  -- the email and the whole password of a user that is found under them. Its token is accepted as
  -- that user's, with the user's role and tenant, until the session's time of expiry, and is
  -- refused from then on; that time is twelve hours ahead, less what the sign-in is past a whole
  -- second.
  pub login-IsSignedIn :
      {out : SignedIn} → (login sv m now req).1.1 ≡ ok out → IsSignedIn sv lib m now later req out
  unfolding login
  login-IsSignedIn {out} h =
      let (allowed, h') =
        allowed_ok (authorize sv.enforcer req.caller Resource.sessions Action.create [])
          (typed_body sv m now req) h in
      (allowed, read_body-ok req.body (typed_body-ok h'))
