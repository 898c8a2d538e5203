-- ===== src/Normalize/AuthKind.antt =====
-- backend/internal/ingest/sources.go: which events are a sign-in, a failed one or a sign-out.
use loghub.Common.{
  Bool, false, not, ◌&&◌, ◌||◌, List, [], ◌∷◌, ◌==◌, if◌then◌else◌, Bytes, codes, bytes_eq,
  has_prefix, lower_byte, to_lower,
}
use loghub.Normalize.{FieldLib}

pub data AuthKind : Type 0 where
  auth_none login_success login_failure logout : AuthKind

-- The letters of a text under `(?i)`: ASCII in lower case, and the long s, which folds to s.
unfoldable pub fold_case : Bytes → Bytes
fold_case [] = []
fold_case (c ∷ []) = lower_byte c ∷ []
fold_case (c ∷ d ∷ s) =
    let folded = fold_case s in
    let rest = fold_case (d ∷ s) in
    if c == 0xC5 && d == 0xBF then b's' ∷ folded else lower_byte c ∷ rest

-- Whether a text holds one of some words.
unfoldable pub starts_any : List Bytes → Bytes → Bool
unfolding has_prefix
starts_any [] s = false
starts_any (w ∷ ws) s = has_prefix s w || starts_any ws s

unfoldable pub holds_any : List Bytes → Bytes → Bool
unfolding starts_any
holds_any words [] = starts_any words []
holds_any words (c ∷ s) = starts_any words (c ∷ s) || holds_any words s

-- The words of `log_?(out|off)|logged_?out|sign_?out`.
abbrev pub logout_words : List Bytes
logout_words =
    codes "logout"
    ∷ codes "log_out"
    ∷ codes "logoff"
    ∷ codes "log_off"
    ∷ codes "loggedout"
    ∷ codes "logged_out"
    ∷ codes "signout"
    ∷ codes "sign_out"
    ∷ []

-- The words of `log_?[io]n|logged_?in|sign_?in`.
abbrev pub login_words : List Bytes
login_words =
    codes "login"
    ∷ codes "logon"
    ∷ codes "log_in"
    ∷ codes "log_on"
    ∷ codes "loggedin"
    ∷ codes "logged_in"
    ∷ codes "signin"
    ∷ codes "sign_in"
    ∷ []

unfoldable pub guess_auth : Bytes → AuthKind
unfolding fold_case holds_any
guess_auth event_type =
    let name = fold_case event_type in
    if holds_any logout_words name
    then logout
    else if not (holds_any login_words name)
    then auth_none
    else if holds_any (codes "fail" ∷ []) name
    then login_failure
    else login_success

-- What the statuses say of a login, the first that says anything first.
unfoldable pub decide : FieldLib → AuthKind → List Bytes → AuthKind
unfolding to_lower bytes_eq
decide lib auth [] = auth
decide lib auth (s ∷ statuses) =
    let word = to_lower lib.lower s in
    let rest = decide lib auth statuses in
    if bytes_eq word (codes "success") || bytes_eq word (codes "succeeded")
    then login_success
    else if bytes_eq word (codes "failed") || bytes_eq word (codes "failure")
    then login_failure
    else rest

unfoldable pub with_outcome : FieldLib → AuthKind → List Bytes → AuthKind
unfolding decide
with_outcome lib auth_none statuses = auth_none
with_outcome lib logout statuses = logout
with_outcome lib login_success statuses = decide lib login_success statuses
with_outcome lib login_failure statuses = decide lib login_failure statuses
