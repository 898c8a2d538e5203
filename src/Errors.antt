-- ===== src/Errors.antt =====
-- backend/internal/platform/errors: errors as values. The messages, the log attributes and the
-- wrapped causes are for people and are left out; a code is a text that clients match on.
use loghub.Common.{String, List, []}

pub data Kind : Type 0 where
  internal malformed invalid unauthenticated forbidden not_found conflict : Kind
  rate_limited unavailable : Kind

pub record FieldError : Type 0 where
  pub field : String
  pub code : String

pub record Error : Type 0 where
  pub kind : Kind
  pub code : String
  pub fields : List FieldError

-- A value, or the error returned beside the zero value.
pub data Result {ℓ} (A : Type ℓ) : Type ℓ where
  ok : A → Result A
  err : Error → Result A

abbrev pub new_error : Kind → String → Error
new_error kind code = record { kind = kind; code = code; fields = [] }

pub not_ok : {A : Type 0} (e : Error) {a : A} → Path (Result A) (err e) (ok a) → ⊥
not_ok e h = cc

pub ok_value : {A : Type 0} {a b : A} → Path (Result A) (ok a) (ok b) → Path A a b
ok_value h = cc
