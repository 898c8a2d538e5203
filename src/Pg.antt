-- ===== src/Pg.antt =====
-- backend/internal/platform/pg/pg.go: `Wrap` and `InTx`, over a database that answers each
-- statement with a failure or none.
pub mod Savepoint
use loghub.Common.{
  ℕ, ◌+◌, Bool, true, false, ◌||◌, List, [], ◌∷◌, Option, none, some, if◌then◌else◌, Bytes, codes,
  has_prefix, ◌⊎◌, inl, inr,
}
use loghub.Errors.{Error, new_error}
use loghub.Errors
use loghub.Event.{Event}
use loghub.Search.{ReadScope}

-- What the driver fails with: whether it is a failed connection, a network error or a timeout, and
-- the code of a `PgError`.
pub record Failure : Type 0 where
  pub is_network : Bool
  pub code : Option Bytes

-- An error, and the code of the `PgError` that it wraps, if it wraps one.
pub record Fault : Type 0 where
  pub error : Error
  pub code : Option Bytes

-- What a call returns, or the error that it returns.
abbrev pub Outcome : Type 0 → Type 0
Outcome A = Fault ⊎ A

abbrev pub is_unreachable_code : Option Bytes → Bool
unfolding has_prefix
is_unreachable_code none = false
is_unreachable_code (some code) =
    has_prefix code (codes "08") || (has_prefix code (codes "53") || has_prefix code (codes "57P"))

unfoldable pub unreachable : Failure → Bool
unfolding is_unreachable_code
unreachable f = f.is_network || is_unreachable_code f.code

unfoldable pub wrap : Failure → Fault
unfolding unreachable
wrap f = record {
  error =
      if unreachable f
      then new_error Errors.unavailable "database_unavailable"
      else new_error Errors.internal "internal_error";
  code = f.code;
}

-- What a connection sees of the database: the events it holds, the latest first, the scope of the
-- transaction, and how many statements were sent.
pub record Session : Type 0 where
  pub sent : ℕ
  pub rows : List Event
  pub scope : ReadScope

-- What comes of a COMMIT or RELEASE: the database acknowledges it, or answers with a failure and
-- has rolled back; or its answer is lost, by a network error or not, and it has stored the rows or
-- not.
pub data Commit : Type 0 where
  acknowledged : Commit
  refused : Failure → Commit
  unanswered : Bool → Bool → Commit

-- How the database answers each statement: none is success.
pub record Database : Type 0 where
  pub begin : ℕ → Option Failure
  pub commit : ℕ → Commit
  pub set_scope : ℕ → Option Failure
  pub insert : ℕ → ReadScope → Event → Option Failure
  pub filter_tenants : ℕ → List Bytes → Failure ⊎ List Bytes

abbrev pub sent_one : Session → Session
sent_one s = record s { sent = s.sent + 1 }

abbrev pub rolled_back : Session → Session → Session
rolled_back before after = record after { rows = before.rows; scope = before.scope }

-- The failure of a statement whose answer is lost.
abbrev pub lost_answer : Bool → Failure
lost_answer net = record { is_network = net; code = none }

abbrev pub left_by : Session → Session → Bool → Session
left_by before after true = after
left_by before after false = rolled_back before after

abbrev pub committed : {A : Type 0} → Session → Session → A → Commit → Session × Outcome A
committed before after a Commit.acknowledged = (after, inr a)
committed before after a (Commit.refused f) = (rolled_back before after, inl (wrap f))
committed before after a (Commit.unanswered net stored) =
    (left_by before after stored, inl (wrap (lost_answer net)))

abbrev pub finished : {A : Type 0} → Database → Session → Session × Outcome A → Session × Outcome A
finished db before (after, inl e) = (rolled_back before after, inl e)
finished db before (after, inr a) = committed before (sent_one after) a (db.commit after.sent)

abbrev pub begun :
    {A : Type 0}
    → Database
    → (Session → Session × Outcome A)
    → Session
    → Option Failure
    → Session × Outcome A
begun db body s (some f) = (sent_one s, inl (wrap f))
begun db body s none = finished db s (body (sent_one s))

-- `InTx`: a transaction, or a savepoint in one.
unfoldable pub in_tx :
    {A : Type 0} → Database → (Session → Session × Outcome A) → Session → Session × Outcome A
in_tx db body s = begun db body s (db.begin s.sent)
