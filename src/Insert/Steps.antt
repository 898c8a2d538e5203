-- ===== src/Insert/Steps.antt =====
-- Each step of the insert, when it is not given up.
use loghub.Common.{
  ℕ, ◌+◌, ◌≡◌, ◌≤◌, refl, ap, Bool, true, List, [], ◌∷◌, map, none, Option-cases, arith, ◌==◌, inl,
  inr,
}
use loghub.Errors.{Error}
use loghub.Event.{Event}
use loghub.Pg.{Fault, Outcome, Session, Database, in_tx, wrap, sent_one}
use loghub.Pg.Savepoint.{in_tx_done}
use loghub.Insert.{Placed, Rejected, set_at, event_of, exec_batch}
use loghub.Insert.Count.{
  tally, count, at, error_at, is_kept, length-set_at, error_at-set_at, error_at-set_at_other,
}
use loghub.Insert.Sent.{IsFresh, Sent}

pub failed_not_done : {A : Type 0} (e : Fault) {a : A} → Path (Outcome A) (inl e) (inr a) → ⊥
failed_not_done e h = cc

exec_batch-count :
    (db : Database) (events : List Event) (s : Session) (p : Event → Bool)
    → (exec_batch db events s).1 ≡ inr tt
    → count p (exec_batch db events s).0.rows ≡ count p s.rows + count p events
unfolding exec_batch
exec_batch-count db [] s p h = omega arith
exec_batch-count db (ev ∷ events) s p h = elim (Option-cases (db.insert s.sent s.scope ev)) [
  | inl taken ↦
      (let s' = record s { sent = s.sent + 1; rows = ev ∷ s.rows } in
        let rest : (exec_batch db events s').1 ≡ inr tt = rw (taken, exec_batch) at h in
        let more = exec_batch-count db events s' p rest in rw (taken, exec_batch) (omega arith))
  | inr (f, failed) ↦ absurd (failed_not_done (wrap f) (rw (failed, exec_batch) at h))
]

-- A list of events that a transaction stored.
stored :
    (db : Database) (events : List Event) (s : Session) (p : Event → Bool)
    → (in_tx db (exec_batch db events) s).1 ≡ inr tt
    → count p (in_tx db (exec_batch db events) s).0.rows ≡ count p s.rows + count p events
stored db events s p h =
    let (done, same) = in_tx_done db (exec_batch db events) s tt h in
    rw same (exec_batch-count db events (sent_one s) p done)

-- The events of a list whose positions hold no error are all of them.
all_kept :
    (p : Event → Bool) (r : Rejected) (work : List Placed)
    → ((j : ℕ) → 1 ≤ count (at j) work → error_at r j ≡ none)
    → count (is_kept p r) work ≡ count p (map event_of work)
all_kept p r [] h = refl
all_kept p r ((i, ev) ∷ work) h =
    let free : error_at r i ≡ none =
      h i (let self : (i == i) ≡ true = ground arith in rw self (omega arith)) in
    rw free (ap (λ n. tally (p ev) + n) (all_kept p r work (λ j le. h j (omega arith))))

pub Sent-batch :
    (db : Database) (work : List Placed) (s : Session) (r : Rejected)
    → IsFresh r work
    → (in_tx db (exec_batch db (map event_of work)) s).1 ≡ inr tt
    → Sent work s r (in_tx db (exec_batch db (map event_of work)) s).0 r
Sent-batch db work s r fresh h = (
  refl,
  λ j away. refl,
  λ p.
      (let kept = all_kept p r work (λ j le. ((fresh j).1 le).0) in
        let more = stored db (map event_of work) s p h in omega arith),
)

-- An event that is refused by itself.
pub Sent-refused :
    (i : ℕ) (ev : Event) (s s' : Session) (r : Rejected) (e : Error)
    → IsFresh r ((i, ev) ∷ [])
    → s'.rows ≡ s.rows
    → Sent ((i, ev) ∷ []) s r s' (set_at r i e)
Sent-refused i ev s s' r e fresh same =
    let self : (i == i) ≡ true = ground arith in
    let free = (fresh i).1 (rw self (omega arith)) in
    let marked = error_at-set_at r i e free.1 in
    (
      length-set_at r i e,
      λ j away. error_at-set_at_other r i j e (ground arith),
      λ p. rw (marked, same) (omega arith),
    )
