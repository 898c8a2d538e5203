-- ===== src/Insert/Accounts.antt =====
-- What `Insert` leaves: what its report accounts for, or, with an error, all or nothing.
use mathlib.Core.Path.{subst}
use loghub.Common.{
  ℕ, zero, suc, ◌+◌, ◌≡◌, ◌≤◌, refl, sym, ap, ◌∙◌, Bool, false, List, [], ◌∷◌, some, arith, length,
  Bytes, contains, ◌⊎◌, inl, inr, get_elem?,
}
use loghub.Event.{Event}
use loghub.Pg.{Failure, Fault, Outcome, Session, Database, wrap, sent_one, in_tx}
use loghub.Pg.Savepoint.{IsLost, in_tx_failed, in_tx_done}
use loghub.Insert.{
  Placed, Rejected, no_errors, group, unknown_tenant, tenant_ids, insert_groups, insert_known,
  insert,
}
use loghub.Insert.Count.{count, at, error_at, is_kept}
use loghub.Insert.Sent.{IsFresh}
use loghub.Insert.Steps.{failed_not_done}
use loghub.Insert.Loops.{flat_groups, insert_groups-Sent, same_value}
use loghub.Insert.Groups.{known_from, marked, count-group, group_marks}
use loghub.Insert.Positions.{stored_from, fresh_from, length-marked, kept_from}

-- What comes of the events of one insert, once the known tenants are found.
abbrev pub Accounts : List Event → Session → Session → Rejected → Type 0
Accounts events s s' rejected =
    (length rejected ≡ length events)
    × ((p : Event → Bool)
        → count p s'.rows ≡ count p s.rows + count p (stored_from rejected 0 events))

-- The groups of an insert, sent in its transaction.
abbrev insert_grouped : Database → List Event → Session → List Bytes → Session × Outcome Rejected
insert_grouped db events s found =
    let grouped = group (contains found) 0 events (no_errors events) [] in
    insert_groups db grouped.1 (sent_one (sent_one s)) grouped.0

-- What the groups leave, when they are not given up.
groups-Accounts :
    (db : Database) (events : List Event) (s : Session) (found : List Bytes) (r : Rejected)
    → (left : Session) → (insert_grouped db events s found).1 ≡ inr r
    → left.rows ≡ (insert_grouped db events s found).0.rows
    → Accounts events s left r
      × ((j : ℕ)
          → count (at j) (known_from (contains found) 0 events) ≡ 0
          → error_at r j ≡ error_at (marked (contains found) events) j)
groups-Accounts db events s found r left done same =
    let known = contains found in
    let grouped = group known 0 events (no_errors events) [] in
    let marks : grouped.0 ≡ marked known events = group_marks known 0 [] events [] refl in
    let all = λ (q : Placed → Bool). count-group known q 0 events (no_errors events) [] in
    let fresh : IsFresh grouped.0 (flat_groups grouped.1) = λ j.
      (let each = all (at j) in
        let (once, free) = fresh_from known 0 j j events (omega arith) in
        let long = length-marked known events in
        rw marks (omega arith, λ le. (let (a, b) = free (omega arith) in (a, omega arith)))) in
    let (long, kept, rows) =
      insert_groups-Sent db grouped.1 (sent_one (sent_one s)) grouped.0 r fresh done in
    let outside = λ (j : ℕ) (away : count (at j) (known_from known 0 events) ≡ 0).
      (let each = all (at j) in
        let there = kept j (omega arith) in there ∙ ap (λ rs. error_at rs j) marks) in
    (
      (
        long ∙ (ap length marks ∙ length-marked known events),
        λ p.
            (let more = rows p in
              let each = all (is_kept p r) in
              let last =
                kept_from known p r 0 events
                  (λ j k e away. (let eq : j ≡ k = omega arith in rw (sym eq) (outside j away))) in
              rw same (omega arith)),
      ),
      outside,
    )

insert_known-Accounts :
    (db : Database) (events : List Event) (s : Session) (found : List Bytes) (r : Rejected)
    → (insert_known db events s (inr found)).1 ≡ inr r
    → Accounts events s (insert_known db events s (inr found)).0 r
      × ((j : ℕ)
          → count (at j) (known_from (contains found) 0 events) ≡ 0
          → error_at r j ≡ error_at (marked (contains found) events) j)
unfolding insert_known
insert_known-Accounts db events s found r h =
    let grouped = group (contains found) 0 events (no_errors events) [] in
    let body : Session → Session × Outcome Rejected =
      λ s'. insert_groups db grouped.1 s' grouped.0 in
    let (done, same) = in_tx_done db body (sent_one s) r h in
    groups-Accounts db events s found r (in_tx db body (sent_one s)).0 done same

pub found_cases :
    (r : Failure ⊎ List Bytes) → ((f : Failure) × (r ≡ inl f)) ⊎ ((a : List Bytes) × (r ≡ inr a))
found_cases (inl f) = inl (f, refl)
found_cases (inr a) = inr (a, refl)

pub unknown_fails :
    (db : Database) (events : List Event) (s : Session) (f : Failure) (r : Rejected)
    → (insert_known db events s (inl f)).1 ≡ inr r
    → ⊥
unfolding insert_known
unknown_fails db events s f r h = failed_not_done (wrap f) h

-- A report accounts for what the insert adds.
pub insert-Accounts :
    (db : Database) (events : List Event) (s : Session) (rejected : Rejected)
    → (insert db events s).1 ≡ inr rejected
    → Accounts events s (insert db events s).0 rejected
unfolding insert
insert-Accounts db [] s rejected h =
    let none_left : [] ≡ rejected = same_value h in rw (sym none_left) (refl, λ p. omega arith)
insert-Accounts db (ev ∷ events) s rejected h =
    let ids = tenant_ids [] (ev ∷ events) in
    elim (found_cases (db.filter_tenants s.sent ids)) [
      | inl (f, failed) ↦ absurd (unknown_fails db (ev ∷ events) s f rejected (rw failed at h))
      | inr (found, known) ↦
          rw known (insert_known-Accounts db (ev ∷ events) s found rejected (rw known at h)).0
    ]

-- What a failed insert leaves: the events as they were, or, where the answer to a COMMIT is lost
-- after the database stored the rows, what some report accounts for.
abbrev pub IsAllOrNone : Database → List Event → Session → Session → Type 0
IsAllOrNone db events s s' =
    (s'.rows ≡ s.rows) ⊎ (IsLost db × ((r : Rejected) × Accounts events s s' r))

known_failed :
    (db : Database) (events : List Event) (s : Session) (found : Failure ⊎ List Bytes) (e : Fault)
    → (insert_known db events s found).1 ≡ inl e
    → IsAllOrNone db events s (insert_known db events s found).0
unfolding insert_known
known_failed db events s (inl f) e h = inl refl
known_failed db events s (inr found) e h =
    let grouped = group (contains found) 0 events (no_errors events) [] in
    let body : Session → Session × Outcome Rejected =
      λ s'. insert_groups db grouped.1 s' grouped.0 in
    elim (in_tx_failed db body (sent_one s) e h) [
      | inl same ↦ inl same
      | inr (uncoded, lost, (r, done, same)) ↦ inr (
        lost,
        (r, (groups-Accounts db events s found r (in_tx db body (sent_one s)).0 done same).0),
      )
    ]

-- An insert that returns an error stored nothing, at whatever statement the database failed; unless
-- the answer to a COMMIT was lost although the database had stored the rows: then nothing, or what
-- some report, with an entry for each event, accounts for: exactly the events whose entries are
-- nil, each as often as it was sent.
pub insert_atomic :
    (db : Database) (events : List Event) (s : Session) (e : Fault)
    → (insert db events s).1 ≡ inl e
    → IsAllOrNone db events s (insert db events s).0
unfolding insert
insert_atomic db [] s e h = inl refl
insert_atomic db (ev ∷ events) s e h =
    known_failed db (ev ∷ events) s (db.filter_tenants s.sent (tenant_ids [] (ev ∷ events))) e h

marked_unknown :
    (known : Bytes → Bool) (events : List Event) (j : ℕ) (ev : Event)
    → get_elem? events j ≡ some ev
    → known ev.tenant_id ≡ false
    → error_at (marked known events) j ≡ some unknown_tenant
marked_unknown known [] j ev h away = absurd cc
marked_unknown known (ev' ∷ events) zero ev h away =
    let same : ev' ≡ ev = cc in
    let away' = subst (λ x. known x.tenant_id ≡ false) (sym same) away in rw away' refl
marked_unknown known (ev' ∷ events) (suc j) ev h away = marked_unknown known events j ev h away

zero_unless : (n : ℕ) → (1 ≤ n → ⊥) → n ≡ 0
zero_unless zero h = refl
zero_unless (suc n) h = absurd (h (omega arith))

-- An event whose tenant the database does not know is reported as such at its position, when the
-- insert returns no error.
pub insert_refuses_unknown :
    (db : Database) (events : List Event) (s : Session) (rejected : Rejected) (found : List Bytes)
    → (j : ℕ) (ev : Event) → (insert db events s).1 ≡ inr rejected
    → db.filter_tenants s.sent (tenant_ids [] events) ≡ inr found
    → get_elem? events j ≡ some ev
    → contains found ev.tenant_id ≡ false
    → error_at rejected j ≡ some unknown_tenant
unfolding insert
insert_refuses_unknown db [] s rejected found j ev h known there away = absurd cc
insert_refuses_unknown db (ev' ∷ events) s rejected found j ev h known there away =
    let all = ev' ∷ events in
    let marks = marked_unknown (contains found) all j ev there away in
    let (same, outside) = insert_known-Accounts db all s found rejected (rw known at h) in
    let (once, free) = fresh_from (contains found) 0 j j all (omega arith) in
    let nowhere = zero_unless _ (λ le. (let free' = (free le).0 in cc)) in outside j nowhere ∙ marks
