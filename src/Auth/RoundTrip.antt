-- ===== src/Auth/RoundTrip.antt =====
-- A token that is issued names its user when it is read.
use loghub.Common.{
  ltb, Bool, none, true, false, arith, if◌then◌else◌, ◌≤◌, ◌*◌, ℕ, ◌<◌, ◌-◌, ◌+◌, ◌%◌, ◌≡◌, refl,
  sym, Bool-cases, some, Option-cases, inl, inr, ℤ, pos, negsuc, is_positive, Bytes, bytes_eq, ap,
  ◌∙◌,
}
use loghub.Errors.{ok, err, not_ok, ok_value}
use loghub.Authz.{Caller, user_role}
use loghub.Search.{second, hour}
use loghub.Decimal.{format_int}
use loghub.Decimal.RoundTrip.{parse_int64-format_int}
use loghub.Auth.{
  Claims, CredentialLib, invalid_token, min_int64, parse_int64, is_no_user, with_role, with_claims,
  parse_token,
}
use loghub.Auth.Callers.{is_no_user_lem, IsUser}
use loghub.Auth.Issue.{Sign, issue, claims_of, role_name, signed_token, internal_error, token_ttl}

-- What is documented of the signature and of the parser's options: a token that was signed is
-- verified, with its claims, from its issue until it expires, and not from then on. Its times are
-- whole seconds.
abbrev pub Verifies : Sign → CredentialLib → Type 0
Verifies sign lib =
    (cl : Claims) (issued expires now : ℕ) (token : Bytes)
    → sign cl issued expires ≡ some token
    → issued % second ≡ 0
    → expires % second ≡ 0
    → issued ≤ now
    → lib.verify now token ≡ (if ltb now expires then some cl else none)

abbrev pub IsInt64 : ℤ → Type 0
IsInt64 (pos n) = n < min_int64
IsInt64 (negsuc n) = n < min_int64

user_role-role_name : (c : Caller) → IsUser c → user_role (role_name c.role) ≡ some c.role
unfolding user_role role_name bytes_eq
user_role-role_name c (inl (admin, none_of), id) = rw admin refl
user_role-role_name c (inr (viewer, tenant), id) = rw viewer refl

parse_id : (id : ℤ) → is_positive id ≡ true → IsInt64 id → parse_int64 (format_int id) ≡ some id
parse_id (pos n) positive fits = parse_int64-format_int n fits
parse_id (negsuc n) positive fits = cc

with_claims-claims_of :
    (c : Caller)
    → is_no_user c ≡ false
    → IsInt64 c.user_id
    → with_claims (some (claims_of c)) ≡ ok c
unfolding with_claims with_role claims_of
with_claims-claims_of c user fits =
    let (role, id) = is_no_user_lem c user in
    rw (user_role-role_name c (role, id), parse_id c.user_id id fits, user) refl

-- A token that lives for twelve hours, less what its time of issue is past a whole second.
abbrev pub IsHalfDay : ℕ → ℕ → Type 0
IsHalfDay now expires = (expires ≤ now + 12 * hour) × (now + 12 * hour < expires + second)

whole_seconds_past : (now : ℕ) → (now - now % second) % second ≡ 0
whole_seconds_past now = omega arith

claims_until :
    (c : Caller) (in_time : Bool)
    → is_no_user c ≡ false
    → IsInt64 c.user_id
    → with_claims (if in_time then some (claims_of c) else none)
      ≡ (if in_time then ok c else err invalid_token)
unfolding with_claims
claims_until c true user fits = with_claims-claims_of c user fits
claims_until c false user fits = refl

-- A token that is issued to a user is accepted, and names that user, until the time of expiry that
-- is answered with it, and is refused as invalid from then on; that time is twelve hours ahead,
-- less what the time of issue is past a whole second.
pub parse_token-issue :
    (sign : Sign) (lib : CredentialLib) (c : Caller) (now later : ℕ) {token : Bytes} {expires : ℕ}
    → Verifies sign lib
    → IsInt64 c.user_id
    → now ≤ later
    → issue sign c now ≡ ok (token, expires)
    → (parse_token lib later token ≡ (if ltb later expires then ok c else err invalid_token))
      × IsHalfDay now expires
unfolding issue parse_token
parse_token-issue sign lib c now later {token} {expires} verifies fits after h =
    let issued = now - now % second in
    let e = issued + token_ttl in
    elim (Bool-cases (is_no_user c)) [
      | inl no_user ↦ absurd (not_ok internal_error (rw no_user at h))
      | inr user ↦
          (let h' : signed_token e (sign (claims_of c) issued e) ≡ ok (token, expires) =
              rw user at h in
            elim (Option-cases (sign (claims_of c) issued e)) [
              | inl failed ↦ absurd (not_ok internal_error (rw failed at h'))
              | inr (t, signed) ↦
                  (let same : Path (Bytes × ℕ) (t, e) (token, expires) =
                      ok_value (rw signed at h') in
                    let it : t ≡ token = ap (λ (p : Bytes × ℕ). p.0) same in
                    let until : e ≡ expires = ap (λ (p : Bytes × ℕ). p.1) same in
                    let known =
                      verifies (claims_of c) issued e later t signed (omega arith) (omega arith)
                        (omega arith) in
                    (
                      rw (sym it) (
                          rw (sym until)
                            (ap with_claims known ∙ claims_until c (ltb later e) user fits)),
                      (omega arith, omega arith),
                    ))
            ])
    ]
