-- ===== src/SignIn/Refusal.antt =====
-- What a refused sign-in gives away.
use mathlib.Core.Path.{subst}
use loghub.Common.{ℕ, ◌≡◌, refl, sym, ap, false, not, [], none, Bytes, trim_space, if◌then◌else◌}
use loghub.Errors.{ok, err}
use loghub.Authz.{authorize}
use loghub.Authz.Action
use loghub.Authz.Resource
use loghub.Limiter.{Memory}
use loghub.Auth.Issue.{check_password}
use loghub.SignIn.{
  SignInServices, SignInRequest, SignInAnswer, User, login, decode_login, client_addr, verify_user,
  found_user, attempt, read_body, typed_body, unless_denied, unsupported_media_type, user_not_found,
}
use loghub.SignIn.Session.{nobody}

-- The same server with no users.
abbrev pub without_users : SignInServices → SignInServices
without_users sv = record sv { find_user = λ email. err user_not_found }

found_user-same :
    (sv : SignInServices) (now : ℕ) (password : Bytes) (u : User)
    → check_password sv.compare_hash u.password_hash password ≡ false
    → found_user sv now password (ok u)
      ≡ found_user (without_users sv) now password (err user_not_found)
unfolding found_user verify_user
found_user-same sv now password u wrong = rw wrong (sym (nobody (without_users sv) now password))

attempt-same :
    (sv : SignInServices) (m : Memory) (now : ℕ) (req : SignInRequest) (email password : Bytes)
    (u : User)
    → sv.find_user (trim_space email) ≡ ok u
    → check_password sv.compare_hash u.password_hash password ≡ false
    → attempt sv m now req (ok (email, password))
      ≡ attempt (without_users sv) m now req (ok (email, password))
unfolding attempt client_addr
attempt-same sv m now req email password u found wrong =
    rw (found, found_user-same sv now password u wrong) refl

-- A sign-in with the wrong password is answered as if there were no user with the email: the same
-- error, the same limit and the same state of the limiter.
pub login-without_users :
    (sv : SignInServices) (m : Memory) (now : ℕ) (req : SignInRequest)
    → (body email password : Bytes) (u : User) → req.body ≡ ok body
    → decode_login sv body ≡ ok (email, password)
    → sv.find_user (trim_space email) ≡ ok u
    → check_password sv.compare_hash u.password_hash password ≡ false
    → login sv m now req ≡ login (without_users sv) m now req
unfolding login typed_body read_body decode_login
login-without_users sv m now req body email password u sent read found wrong =
    let sv' = without_users sv in
    let same = attempt-same sv m now req email password u found wrong in
    let decoded_same : read_body sv m now req (ok body) ≡ read_body sv' m now req (ok body) =
      subst (λ f. attempt sv m now req f ≡ attempt sv' m now req f) (sym read) same in
    let body_same : read_body sv m now req req.body ≡ read_body sv' m now req req.body =
      subst (λ b. read_body sv m now req b ≡ read_body sv' m now req b) (sym sent) decoded_same in
    ap
      (λ (rest : Memory × SignInAnswer).
        unless_denied m (authorize sv.enforcer req.caller Resource.sessions Action.create [])
          (if not req.has_media_type then (m, (none, err unsupported_media_type)) else rest))
      body_same
