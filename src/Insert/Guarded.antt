-- ===== src/Insert/Guarded.antt =====
-- The loops of the insert under row-level security.
use loghub.Common.{
  ℕ, ◌+◌, ◌≡◌, refl, sym, ap, ◌∙◌, Bool, Bool-cases, List, [], ◌∷◌, ◌++◌, Option-cases, Bytes,
  contains, bytes_eq, bytes_eq_iff, All, All-append, ◌⊎◌, inl, inr,
}
use loghub.Event.{Event}
use loghub.Pg.{Failure, Outcome, Session, Database, wrap, sent_one}
use loghub.Pg.Savepoint.{outcome_cases}
use loghub.Insert.{
  Placed, Rejected, Groups, set_at, event_of, insert_events, insert_chunks, set_tenant,
  insert_groups, chunks, insert_chunk_rest, group, add_to, no_errors, unknown_tenant, insert_known,
  tenant_ids, insert,
}
use loghub.Insert.Steps.{failed_not_done}
use loghub.Insert.Loops.{flat_chunks, flat-chunks}
use loghub.Insert.Scoped.{Scoped-at, guarded, IsScoped, in_tx-same, insert_events-same}

All-split : (P : Placed → Type 0) (xs ys : List Placed) → All P (xs ++ ys) → All P xs × All P ys
All-split P [] ys h = (tt, h)
All-split P (x ∷ xs) ys (here, h) = let (a, b) = All-split P xs ys h in ((here, a), b)

insert_chunks-same :
    (db : Database) (cs : List (Placed × List Placed)) (s : Session) (r : Rejected)
    → IsScoped s (flat_chunks cs)
    → insert_chunks (guarded db) cs s r ≡ insert_chunks db cs s r
unfolding insert_chunks
insert_chunks-same db [] s r h = refl
insert_chunks-same db ((p, c) ∷ cs) s r (here, h) =
    let t = insert_events db (p, c) s r in
    let (own, later) =
      All-split (λ x. (event_of x).tenant_id ≡ s.scope.tenant_id) c (flat_chunks cs) h in
    let (same, kept) = insert_events-same db p c s r (here, own) in
    elim (outcome_cases t) [
      | inl (e, failed) ↦
          rw (same, failed, insert_chunks)
            (ap (λ (x : Session × Outcome Rejected). (x.0, inl e)) same)
      | inr (r1, done) ↦
          (let rest =
              insert_chunks-same db cs t.0 r1 (Scoped-at s t.0 (flat_chunks cs) kept later) in
            rw (same, done, insert_chunks)
              (ap (λ (x : Session × Outcome Rejected). insert_chunks (guarded db) cs x.0 r1) same
                ∙ rest))
    ]

-- Each group holds events of its own tenant only.
abbrev IsGrouped : Groups → Type 0
IsGrouped = All (λ g. All (λ x. (event_of x).tenant_id ≡ g.0) g.1)

Grouped-add_to :
    (groups : Groups) (t : Bytes) (x : Placed)
    → (event_of x).tenant_id ≡ t
    → IsGrouped groups
    → IsGrouped (add_to groups t x)
unfolding add_to
Grouped-add_to [] t x own h = ((own, tt), tt)
Grouped-add_to ((t', ps) ∷ groups) t x own (here, h) = elim (Bool-cases (bytes_eq t' t)) [
  | inl same ↦
      (let it : t' ≡ t = (bytes_eq_iff t' t).0 same in
        rw same
          (All-append (λ y. (event_of y).tenant_id ≡ t') ps (x ∷ []) here (own ∙ sym it, tt), h))
  | inr other ↦ rw other (here, Grouped-add_to groups t x own h)
]

group-IsGrouped :
    (known : Bytes → Bool) (i : ℕ) (events : List Event) (r : Rejected) (groups : Groups)
    → IsGrouped groups
    → IsGrouped (group known i events r groups).1
unfolding group
group-IsGrouped known i [] r groups h = h
group-IsGrouped known i (ev ∷ events) r groups h = elim (Bool-cases (known ev.tenant_id)) [
  | inl there ↦
      rw (there, group)
        (group-IsGrouped known (i + 1) events r (add_to groups ev.tenant_id (i, ev))
          (Grouped-add_to groups ev.tenant_id (i, ev) refl h))
  | inr away ↦
      rw (away, group) (group-IsGrouped known (i + 1) events (set_at r i unknown_tenant) groups h)
]

set_tenant-scope :
    (db : Database) (tenant : Bytes) (s : Session) (u : Unit)
    → (set_tenant db tenant s).1 ≡ inr u
    → (set_tenant db tenant s).0.scope.tenant_id ≡ tenant
unfolding set_tenant
set_tenant-scope db tenant s u h = elim (Option-cases (db.set_scope s.sent)) [
  | inl fine ↦ rw (fine, set_tenant) refl
  | inr (f, failed) ↦ absurd (failed_not_done (wrap f) (rw (failed, set_tenant) at h))
]

set_tenant-guarded :
    (db : Database) (tenant : Bytes) (s : Session)
    → set_tenant (guarded db) tenant s ≡ set_tenant db tenant s
unfolding set_tenant
set_tenant-guarded db tenant s = refl

Own-IsScoped :
    (tenant : Bytes) (s : Session) (work : List Placed)
    → s.scope.tenant_id ≡ tenant
    → All (λ x. (event_of x).tenant_id ≡ tenant) work
    → IsScoped s work
Own-IsScoped tenant s [] same h = tt
Own-IsScoped tenant s (x ∷ work) same (here, h) =
    (here ∙ sym same, Own-IsScoped tenant s work same h)

insert_groups-same :
    (db : Database) (groups : Groups) (s : Session) (r : Rejected)
    → IsGrouped groups
    → insert_groups (guarded db) groups s r ≡ insert_groups db groups s r
unfolding insert_groups
insert_groups-same db [] s r h = refl
insert_groups-same db ((tenant, placed) ∷ groups) s r (own, h) =
    let cs = chunks insert_chunk_rest placed in
    let x' = set_tenant (guarded db) tenant s in
    let x = set_tenant db tenant s in
    let t = insert_chunks db cs x.0 r in
    let moved : x' ≡ x = set_tenant-guarded db tenant s in
    elim (outcome_cases x) [
      | inl (e, failed) ↦
          (rw (failed, insert_groups) (ap (λ (y : Session × Outcome Unit). (y.0, inl e)) moved))
      | inr (u, fine) ↦
          (let scoped : IsScoped x.0 (flat_chunks cs) =
              rw (flat-chunks insert_chunk_rest placed)
                (Own-IsScoped tenant x.0 placed (set_tenant-scope db tenant s u fine) own) in
            let same : insert_chunks (guarded db) cs x'.0 r ≡ t =
              ap (λ (y : Session × Outcome Unit). insert_chunks (guarded db) cs y.0 r) moved
              ∙ insert_chunks-same db cs x.0 r scoped in
            let same_end = ap (λ (y : Session × Outcome Rejected). y.1) same in
            elim (outcome_cases t) [
              | inl (e, failed) ↦
                  rw (fine, insert_groups, same_end, failed)
                    (ap (λ (y : Session × Outcome Rejected). (y.0, inl e)) same)
              | inr (r1, done) ↦
                  (let rest = insert_groups-same db groups t.0 r1 h in
                    rw (fine, insert_groups, same_end, done)
                      (ap
                          (λ (y : Session × Outcome Rejected).
                            insert_groups (guarded db) groups y.0 r1)
                          same
                        ∙ rest))
            ])
    ]

known-same :
    (db : Database) (events : List Event) (s : Session) (found : Failure ⊎ List Bytes)
    → insert_known (guarded db) events s found ≡ insert_known db events s found
unfolding insert_known
known-same db events s (inl f) = refl
known-same db events s (inr found) =
    let grouped = group (contains found) 0 events (no_errors events) [] in
    let own = group-IsGrouped (contains found) 0 events (no_errors events) [] tt in
    in_tx-same db (λ s'. insert_groups (guarded db) grouped.1 s' grouped.0)
      (λ s'. insert_groups db grouped.1 s' grouped.0) (sent_one s)
      (insert_groups-same db grouped.1 (sent_one (sent_one s)) grouped.0 own)

-- A database whose policy refuses each row for a tenant other than the transaction's takes and
-- refuses the same events as one without it: every event is sent in the scope of its own tenant.
pub insert-guarded :
    (db : Database) (events : List Event) (s : Session)
    → insert (guarded db) events s ≡ insert db events s
unfolding insert
insert-guarded db [] s = refl
insert-guarded db (ev ∷ events) s =
    known-same db (ev ∷ events) s (db.filter_tenants s.sent (tenant_ids [] (ev ∷ events)))
