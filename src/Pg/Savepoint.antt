-- ===== src/Pg/Savepoint.antt =====
-- What `InTx` leaves behind, when its function or the database fails and when not.
use loghub.Common.{ℕ, ◌≡◌, refl, sym, ◌∙◌, Bool, true, false, Option, none, some, ◌⊎◌, inl, inr, ap}
use loghub.Pg.{
  Failure, Fault, Outcome, Commit, Session, Database, sent_one, in_tx, wrap, lost_answer, committed,
  finished, begun,
}

-- A result of a call is an error or a value.
pub outcome_cases :
    {A : Type 0} (r : Session × Outcome A)
    → ((e : Fault) × (r.1 ≡ inl e)) ⊎ ((a : A) × (r.1 ≡ inr a))
outcome_cases (s, inl e) = inl (e, refl)
outcome_cases (s, inr a) = inr (a, refl)

-- The answer to some COMMIT is lost although the database has stored the rows.
abbrev pub IsLost : Database → Type 0
IsLost db = (n : ℕ) × (net : Bool) × (db.commit n ≡ Commit.unanswered net true)

-- What is left of a failed call: the events as they were, or, with an error that no answer of the
-- database explains, what its function left.
abbrev pub LeftBy :
    {A : Type 0} → Database → Session → Session × Outcome A → Session → Fault → Type 0
LeftBy {A = A} db before r after e =
    (after.rows ≡ before.rows)
    ⊎ ((e.code ≡ none) × IsLost db × ((a : A) × (r.1 ≡ inr a) × (after.rows ≡ r.0.rows)))

code_none : (f : Failure) → f.code ≡ none → (wrap f).code ≡ none
unfolding wrap
code_none f h = h

committed_failed :
    {A : Type 0} (db : Database) (before after : Session) (a : A) (n : ℕ) (o : Commit) (e : Fault)
    → db.commit n ≡ o
    → (committed before (sent_one after) a o).1 ≡ inl e
    → LeftBy {A = A} db before (after, inr a) (committed before (sent_one after) a o).0 e
committed_failed db before after a n Commit.acknowledged e at h = absurd cc
committed_failed db before after a n (Commit.refused f) e at h = inl refl
committed_failed db before after a n (Commit.unanswered net false) e at h = inl refl
committed_failed db before after a n (Commit.unanswered net true) e at h =
    let same : wrap (lost_answer net) ≡ e = cc in
    inr (
      ap (λ e. e.code) (sym same) ∙ code_none (lost_answer net) refl,
      (n, net, at),
      (a, refl, refl),
    )

finished_failed :
    {A : Type 0} (db : Database) (before : Session) (r : Session × Outcome A) (e : Fault)
    → (finished db before r).1 ≡ inl e
    → LeftBy db before r (finished db before r).0 e
finished_failed db before (after, inl e') e h = inl refl
finished_failed db before (after, inr a) e h =
    committed_failed db before after a after.sent (db.commit after.sent) e refl h

begun_failed :
    {A : Type 0} (db : Database) (body : Session → Session × Outcome A) (s : Session)
    → (o : Option Failure) (e : Fault) → (begun db body s o).1 ≡ inl e
    → LeftBy db s (body (sent_one s)) (begun db body s o).0 e
begun_failed db body s (some f) e h = inl refl
begun_failed db body s none e h = finished_failed db s (body (sent_one s)) e h

-- A transaction that fails leaves the events as they were, unless the answer to its COMMIT is lost.
pub in_tx_failed :
    {A : Type 0} (db : Database) (body : Session → Session × Outcome A) (s : Session) (e : Fault)
    → (in_tx db body s).1 ≡ inl e
    → LeftBy db s (body (sent_one s)) (in_tx db body s).0 e
unfolding in_tx
in_tx_failed db body s e h = begun_failed db body s (db.begin s.sent) e h

-- And it does leave them so, where the error has a code.
pub in_tx_refused :
    {A : Type 0} (db : Database) (body : Session → Session × Outcome A) (s : Session) (e : Fault)
    → (in_tx db body s).1 ≡ inl e
    → (e.code ≡ none → ⊥)
    → (in_tx db body s).0.rows ≡ s.rows
in_tx_refused db body s e h coded = elim (in_tx_failed db body s e h) [
  | inl same ↦ same
  | inr (uncoded, lost, kept) ↦ absurd (coded uncoded)
]

committed_done :
    {A : Type 0} (before after : Session) (a a' : A) (o : Commit)
    → (committed before after a o).1 ≡ inr a'
    → (a ≡ a') × ((committed before after a o).0 ≡ after)
committed_done before after a a' Commit.acknowledged h = (cc, refl)
committed_done before after a a' (Commit.refused f) h = absurd cc
committed_done before after a a' (Commit.unanswered net stored) h = absurd cc

finished_done :
    {A : Type 0} (db : Database) (before : Session) (r : Session × Outcome A) (a : A)
    → (finished db before r).1 ≡ inr a
    → (r.1 ≡ inr a) × ((finished db before r).0.rows ≡ r.0.rows)
finished_done db before (after, inl e) a h = absurd cc
finished_done db before (after, inr a') a h =
    let (same, left) = committed_done before (sent_one after) a' a (db.commit after.sent) h in
    (ap inr same, ap (λ s. s.rows) left)

begun_done :
    {A : Type 0} (db : Database) (body : Session → Session × Outcome A) (s : Session)
    → (o : Option Failure) (a : A) → (begun db body s o).1 ≡ inr a
    → ((body (sent_one s)).1 ≡ inr a) × ((begun db body s o).0.rows ≡ (body (sent_one s)).0.rows)
begun_done db body s (some f) a h = absurd cc
begun_done db body s none a h = finished_done db s (body (sent_one s)) a h

-- One that does not fail did the work of its function, one statement later.
pub in_tx_done :
    {A : Type 0} (db : Database) (body : Session → Session × Outcome A) (s : Session) (a : A)
    → (in_tx db body s).1 ≡ inr a
    → ((body (sent_one s)).1 ≡ inr a) × ((in_tx db body s).0.rows ≡ (body (sent_one s)).0.rows)
unfolding in_tx
in_tx_done db body s a h = begun_done db body s (db.begin s.sent) a h
