-- ===== src/Insert/Scoped.antt =====
-- Row-level security never refuses an event that `Insert` sends.
use loghub.Common.{
  ◌+◌, ◌≡◌, refl, sym, ap, ◌∙◌, true, false, List, [], ◌∷◌, map, Option, some, Option-cases, Bytes,
  bytes_eq, bytes_eq_iff, if◌then◌else◌, All, inl, inr,
}
use loghub.Event.{Event}
use loghub.Search.{ReadScope}
use loghub.Pg.{
  Failure, Outcome, Commit, Session, Database, in_tx, sent_one, begun, finished, committed,
}
use loghub.Pg.Savepoint.{outcome_cases}
use loghub.Insert.{
  Placed, Rejected, set_at, event_of, exec_batch, refusal, insert_singly, insert_events,
}

-- The failure of a row that the policy on the table refuses.
abbrev pub policy : Option Failure → ReadScope → Event → Option Failure
policy answer scope ev =
    if bytes_eq ev.tenant_id scope.tenant_id
    then answer
    else some (record { is_network = false; code = some [] })

-- The same database with a policy that refuses each row for a tenant other than the scope's.
abbrev pub guarded : Database → Database
guarded db = record db { insert = λ n scope ev. policy (db.insert n scope ev) scope ev }

abbrev InTenant : Bytes → List Event → Type 0
InTenant t = All (λ ev. ev.tenant_id ≡ t)

exec_batch-same :
    (db : Database) (events : List Event) (s : Session)
    → InTenant s.scope.tenant_id events
    → exec_batch (guarded db) events s ≡ exec_batch db events s
unfolding exec_batch
exec_batch-same db [] s h = refl
exec_batch-same db (ev ∷ events) s (here, h) =
    let own : bytes_eq ev.tenant_id s.scope.tenant_id ≡ true =
      (bytes_eq_iff ev.tenant_id s.scope.tenant_id).1 here in
    let rest = exec_batch-same db events (record s { sent = s.sent + 1; rows = ev ∷ s.rows }) h in
    elim (Option-cases (db.insert s.sent s.scope ev)) [
      | inl taken ↦ rw (own, taken, exec_batch) rest
      | inr (f, failed) ↦ rw (own, failed, exec_batch) refl
    ]

exec_batch-scope :
    (db : Database) (events : List Event) (s : Session) → (exec_batch db events s).0.scope ≡ s.scope
unfolding exec_batch
exec_batch-scope db [] s = refl
exec_batch-scope db (ev ∷ events) s = elim (Option-cases (db.insert s.sent s.scope ev)) [
  | inl taken ↦
      rw (taken, exec_batch)
        (exec_batch-scope db events (record s { sent = s.sent + 1; rows = ev ∷ s.rows }))
  | inr (f, failed) ↦ rw (failed, exec_batch) refl
]

pub in_tx-same :
    {A : Type 0} (db : Database) (body body' : Session → Session × Outcome A) (s : Session)
    → body (sent_one s) ≡ body' (sent_one s)
    → in_tx (guarded db) body s ≡ in_tx db body' s
unfolding in_tx
in_tx-same db body body' s h = elim (Option-cases (db.begin s.sent)) [
  | inl fine ↦ rw (fine, begun) (ap (finished db s) h)
  | inr (f, failed) ↦ rw (failed, begun) refl
]

committed-scope :
    {A : Type 0} (before after : Session) (a : A) (o : Commit)
    → after.scope ≡ before.scope
    → (committed before after a o).0.scope ≡ before.scope
committed-scope before after a Commit.acknowledged h = h
committed-scope before after a (Commit.refused f) h = refl
committed-scope before after a (Commit.unanswered net true) h = h
committed-scope before after a (Commit.unanswered net false) h = refl

finished-scope :
    {A : Type 0} (db : Database) (before : Session) (r : Session × Outcome A)
    → r.0.scope ≡ before.scope
    → (finished db before r).0.scope ≡ before.scope
finished-scope db before (after, inl e) h = refl
finished-scope db before (after, inr a) h =
    committed-scope before (sent_one after) a (db.commit after.sent) h

-- A savepoint on a batch leaves the scope.
in_tx-scope :
    (db : Database) (events : List Event) (s : Session)
    → (in_tx db (exec_batch db events) s).0.scope ≡ s.scope
unfolding in_tx
in_tx-scope db events s = elim (Option-cases (db.begin s.sent)) [
  | inl fine ↦
      rw (fine, begun)
        (finished-scope db s (exec_batch db events (sent_one s))
          (exec_batch-scope db events (sent_one s)))
  | inr (f, failed) ↦ rw (failed, begun) refl
]

batch-same :
    (db : Database) (events : List Event) (s : Session)
    → InTenant s.scope.tenant_id events
    → in_tx (guarded db) (exec_batch (guarded db) events) s ≡ in_tx db (exec_batch db events) s
batch-same db events s h =
    in_tx-same db (exec_batch (guarded db) events) (exec_batch db events) s
      (exec_batch-same db events (sent_one s) h)

-- The events behind the positions are the tenant's of the scope.
abbrev pub IsScoped : Session → List Placed → Type 0
IsScoped s = All (λ x. (event_of x).tenant_id ≡ s.scope.tenant_id)

events-InTenant :
    (s : Session) (work : List Placed)
    → IsScoped s work
    → InTenant s.scope.tenant_id (map event_of work)
events-InTenant s [] h = tt
events-InTenant s ((i, ev) ∷ work) (here, h) = (here, events-InTenant s work h)

pub Scoped-at :
    (s s' : Session) (work : List Placed) → s'.scope ≡ s.scope → IsScoped s work → IsScoped s' work
Scoped-at s s' [] same h = tt
Scoped-at s s' (x ∷ work) same (here, h) =
    (here ∙ ap (λ c. c.tenant_id) (sym same), Scoped-at s s' work same h)

insert_singly-same :
    (db : Database) (work : List Placed) (s : Session) (r : Rejected)
    → IsScoped s work
    → (insert_singly (guarded db) work s r ≡ insert_singly db work s r)
      × ((insert_singly db work s r).0.scope ≡ s.scope)
unfolding insert_singly
insert_singly-same db [] s r h = (refl, refl)
insert_singly-same db ((i, ev) ∷ work) s r (here, h) =
    let t = in_tx db (exec_batch db (ev ∷ [])) s in
    let same = batch-same db (ev ∷ []) s (here, tt) in
    let kept : t.0.scope ≡ s.scope = in_tx-scope db (ev ∷ []) s in
    let scoped = Scoped-at s t.0 work kept h in
    elim (outcome_cases t) [
      | inr (u, done) ↦
          (let (rest, scope) = insert_singly-same db work t.0 r scoped in
            rw (same, done, insert_singly)
              (
                ap (λ (x : Session × Outcome Unit). insert_singly (guarded db) work x.0 r) same
                    ∙ rest,
                scope ∙ kept,
              ))
      | inl (e, failed) ↦ elim (Option-cases (refusal e)) [
        | inl given_up ↦
            rw (same, failed, given_up, insert_singly)
              (ap (λ (x : Session × Outcome Unit). (x.0, inl e)) same, kept)
        | inr (refused, why) ↦
            (let (rest, scope) = insert_singly-same db work t.0 (set_at r i refused) scoped in
              rw (same, failed, why, insert_singly)
                (
                  ap
                        (λ (x : Session × Outcome Unit).
                          insert_singly (guarded db) work x.0 (set_at r i refused))
                        same
                      ∙ rest,
                  scope ∙ kept,
                ))
      ]
    ]

pub insert_events-same :
    (db : Database) (p : Placed) (ps : List Placed) (s : Session) (r : Rejected)
    → IsScoped s (p ∷ ps)
    → (insert_events (guarded db) (p, ps) s r ≡ insert_events db (p, ps) s r)
      × ((insert_events db (p, ps) s r).0.scope ≡ s.scope)
unfolding insert_events
insert_events-same db p ps s r h =
    let events = map event_of (p ∷ ps) in
    let t = in_tx db (exec_batch db events) s in
    let same = batch-same db events s (events-InTenant s (p ∷ ps) h) in
    let kept : t.0.scope ≡ s.scope = in_tx-scope db events s in
    elim (outcome_cases t) [
      | inr (u, done) ↦
          rw (same, done, insert_events)
            (ap (λ (x : Session × Outcome Unit). (x.0, inr r)) same, kept)
      | inl (e, failed) ↦ elim (Option-cases (refusal e)) [
        | inl given_up ↦
            rw (same, failed, given_up, insert_events)
              (ap (λ (x : Session × Outcome Unit). (x.0, inl e)) same, kept)
        | inr (refused, why) ↦
            (let (rest, scope) =
                insert_singly-same db (p ∷ ps) t.0 r (Scoped-at s t.0 (p ∷ ps) kept h) in
              rw (same, failed, why, insert_events)
                (
                  ap (λ (x : Session × Outcome Unit). insert_singly (guarded db) (p ∷ ps) x.0 r)
                        same
                      ∙ rest,
                  scope ∙ kept,
                ))
      ]
    ]
