-- ===== src/Insert/Loops.antt =====
-- The loops of the insert over events, chunks and tenants, when they are not given up.
use mathlib.Core.Path.{subst}
use loghub.Common.{
  ℕ, zero, suc, ◌≡◌, refl, sym, ap, List, [], ◌∷◌, ◌++◌, map, Option-cases, inl, inr, Bytes, none,
  some,
}
use loghub.Pg.{Outcome, Session, Database, in_tx, Fault}
use loghub.Pg.Savepoint.{outcome_cases, in_tx_refused}
use loghub.Insert.{
  Placed, Rejected, Groups, set_at, event_of, exec_batch, refusal, insert_singly, insert_events,
  insert_chunks, set_tenant, insert_groups, chunks, fill_chunk, insert_chunk_rest,
}
use loghub.Errors.{Error}
use loghub.Insert.Sent.{IsFresh, Sent, Fresh-left, Fresh-right, Sent-append, Sent-nil}
use loghub.Insert.Steps.{failed_not_done, Sent-batch, Sent-refused}

pub same_value : {A : Type 0} {a b : A} → Path (Outcome A) (inr a) (inr b) → a ≡ b
same_value h = cc

Sent-from :
    (work : List Placed) (s0 s s' : Session) (r r' : Rejected)
    → s.rows ≡ s0.rows
    → Sent work s r s' r'
    → Sent work s0 r s' r'
Sent-from work s0 s s' r r' same (long, kept, rows) = (long, kept, λ p. rw (sym same) (rows p))

Sent-none : (s : Session) (r r' : Rejected) → r ≡ r' → Sent [] s r s r'
Sent-none s r r' same = rw (sym same) (Sent-nil s r)

-- The database refuses an event with a code.
refusal_coded : (e : Fault) (why : Error) → refusal e ≡ some why → e.code ≡ none → ⊥
unfolding refusal
refusal_coded e why h uncoded = let bad : none ≡ some why = rw uncoded at h in cc

insert_singly-Sent :
    (db : Database) (work : List Placed) (s : Session) (r r' : Rejected)
    → IsFresh r work
    → (insert_singly db work s r).1 ≡ inr r'
    → Sent work s r (insert_singly db work s r).0 r'
unfolding insert_singly
insert_singly-Sent db [] s r r' fresh h = Sent-none s r r' (same_value h)
insert_singly-Sent db ((i, ev) ∷ work) s r r' fresh h =
    let t = in_tx db (exec_batch db (ev ∷ [])) s in
    let one = Fresh-left r ((i, ev) ∷ []) work fresh in
    elim (outcome_cases t) [
      | inr (u, done) ↦
          (let first = Sent-batch db ((i, ev) ∷ []) s r one done in
            let left = Fresh-right s t.0 r r ((i, ev) ∷ []) work fresh first in
            let h' : (insert_singly db work t.0 r).1 ≡ inr r' = rw (done, insert_singly) at h in
            let rest = insert_singly-Sent db work t.0 r r' left h' in
            rw (done, insert_singly)
              (Sent-append s t.0 (insert_singly db work t.0 r).0 r r r' ((i, ev) ∷ []) work fresh
                first rest))
      | inl (e, failed) ↦ (elim (Option-cases (refusal e)) [
        | inl given_up ↦ absurd (failed_not_done e (rw (failed, insert_singly, given_up) at h))
        | inr (refused, why) ↦
            (let same =
                in_tx_refused db (exec_batch db (ev ∷ [])) s e failed
                  (refusal_coded e refused why) in
              let r1 = set_at r i refused in
              let first = Sent-refused i ev s t.0 r refused one same in
              let left = Fresh-right s t.0 r r1 ((i, ev) ∷ []) work fresh first in
              let h' : (insert_singly db work t.0 r1).1 ≡ inr r' =
                rw (failed, insert_singly, why) at h in
              let rest = insert_singly-Sent db work t.0 r1 r' left h' in
              rw (failed, insert_singly, why)
                (Sent-append s t.0 (insert_singly db work t.0 r1).0 r r1 r' ((i, ev) ∷ []) work
                  fresh first rest))
      ])
    ]

insert_events-Sent :
    (db : Database) (p : Placed) (ps : List Placed) (s : Session) (r r' : Rejected)
    → IsFresh r (p ∷ ps)
    → (insert_events db (p, ps) s r).1 ≡ inr r'
    → Sent (p ∷ ps) s r (insert_events db (p, ps) s r).0 r'
unfolding insert_events
insert_events-Sent db p ps s r r' fresh h =
    let t = in_tx db (exec_batch db (map event_of (p ∷ ps))) s in
    elim (outcome_cases t) [
      | inr (u, done) ↦
          (let same : r ≡ r' = same_value (rw (done, insert_events) at h) in
            rw (done, insert_events)
              (subst (Sent (p ∷ ps) s r t.0) same (Sent-batch db (p ∷ ps) s r fresh done)))
      | inl (e, failed) ↦ (elim (Option-cases (refusal e)) [
        | inl given_up ↦ absurd (failed_not_done e (rw (failed, insert_events, given_up) at h))
        | inr (refused, why) ↦
            (let same =
                in_tx_refused db (exec_batch db (map event_of (p ∷ ps))) s e failed
                  (refusal_coded e refused why) in
              let h' : (insert_singly db (p ∷ ps) t.0 r).1 ≡ inr r' =
                rw (failed, insert_events, why) at h in
              rw (failed, insert_events, why)
                (Sent-from (p ∷ ps) s t.0 (insert_singly db (p ∷ ps) t.0 r).0 r r' same
                  (insert_singly-Sent db (p ∷ ps) t.0 r r' fresh h')))
      ])
    ]

abbrev pub flat_chunks {ℓ} : {A : Type ℓ} → List (A × List A) → List A
flat_chunks [] = []
flat_chunks ((x, c) ∷ cs) = (x ∷ c) ++ flat_chunks cs

flat-fill {ℓ} :
    {A : Type ℓ} (more room : ℕ) (xs : List A)
    → (fill_chunk more room xs).0 ++ flat_chunks (fill_chunk more room xs).1 ≡ xs
unfolding fill_chunk
flat-fill more room [] = refl
flat-fill more zero (x ∷ xs) = ap (◌∷◌ x) (flat-fill more more xs)
flat-fill more (suc room) (x ∷ xs) = ap (◌∷◌ x) (flat-fill more room xs)

pub flat-chunks {ℓ} : {A : Type ℓ} (more : ℕ) (xs : List A) → flat_chunks (chunks more xs) ≡ xs
unfolding chunks
flat-chunks more [] = refl
flat-chunks more (x ∷ xs) = ap (◌∷◌ x) (flat-fill more more xs)

insert_chunks-Sent :
    (db : Database) (cs : List (Placed × List Placed)) (s : Session) (r r' : Rejected)
    → IsFresh r (flat_chunks cs)
    → (insert_chunks db cs s r).1 ≡ inr r'
    → Sent (flat_chunks cs) s r (insert_chunks db cs s r).0 r'
unfolding insert_chunks
insert_chunks-Sent db [] s r r' fresh h = Sent-none s r r' (same_value h)
insert_chunks-Sent db ((p, c) ∷ cs) s r r' fresh h =
    let t = insert_events db (p, c) s r in
    let here = Fresh-left r (p ∷ c) (flat_chunks cs) fresh in
    elim (outcome_cases t) [
      | inl (e, failed) ↦ absurd (failed_not_done e (rw (failed, insert_chunks) at h))
      | inr (r1, done) ↦
          (let first = insert_events-Sent db p c s r r1 here done in
            let left = Fresh-right s t.0 r r1 (p ∷ c) (flat_chunks cs) fresh first in
            let h' : (insert_chunks db cs t.0 r1).1 ≡ inr r' = rw (done, insert_chunks) at h in
            let rest = insert_chunks-Sent db cs t.0 r1 r' left h' in
            rw (done, insert_chunks)
              (Sent-append s t.0 (insert_chunks db cs t.0 r1).0 r r1 r' (p ∷ c) (flat_chunks cs)
                fresh first rest))
    ]

abbrev pub flat_groups : Groups → List Placed
flat_groups [] = []
flat_groups ((tenant, placed) ∷ groups) = placed ++ flat_groups groups

set_tenant-rows :
    (db : Database) (tenant : Bytes) (s : Session) → (set_tenant db tenant s).0.rows ≡ s.rows
unfolding set_tenant
set_tenant-rows db tenant s = elim (Option-cases (db.set_scope s.sent)) [
  | inl fine ↦ rw (fine, set_tenant) refl
  | inr (f, failed) ↦ rw (failed, set_tenant) refl
]

pub insert_groups-Sent :
    (db : Database) (groups : Groups) (s : Session) (r r' : Rejected)
    → IsFresh r (flat_groups groups)
    → (insert_groups db groups s r).1 ≡ inr r'
    → Sent (flat_groups groups) s r (insert_groups db groups s r).0 r'
unfolding insert_groups
insert_groups-Sent db [] s r r' fresh h = Sent-none s r r' (same_value h)
insert_groups-Sent db ((tenant, placed) ∷ groups) s r r' fresh h =
    let scoped = set_tenant db tenant s in
    let cs = chunks insert_chunk_rest placed in
    let t = insert_chunks db cs scoped.0 r in
    let here = Fresh-left r placed (flat_groups groups) fresh in
    elim (outcome_cases scoped) [
      | inl (e, failed) ↦ absurd (failed_not_done e (rw (failed, insert_groups) at h))
      | inr (u, set) ↦ elim (outcome_cases t) [
        | inl (e, failed) ↦ absurd (failed_not_done e (rw (set, failed, insert_groups) at h))
        | inr (r1, done) ↦
            (let whole = flat-chunks insert_chunk_rest placed in
              let sent =
                insert_chunks-Sent db cs scoped.0 r r1 (subst (IsFresh r) (sym whole) here) done in
              let first =
                Sent-from placed s scoped.0 t.0 r r1 (set_tenant-rows db tenant s)
                  (subst (λ w. Sent w scoped.0 r t.0 r1) whole sent) in
              let left = Fresh-right s t.0 r r1 placed (flat_groups groups) fresh first in
              let h' : (insert_groups db groups t.0 r1).1 ≡ inr r' =
                rw (set, done, insert_groups) at h in
              let rest = insert_groups-Sent db groups t.0 r1 r' left h' in
              rw (set, done, insert_groups)
                (Sent-append s t.0 (insert_groups db groups t.0 r1).0 r r1 r' placed
                  (flat_groups groups) fresh first rest))
      ]
    ]
