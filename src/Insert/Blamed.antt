-- ===== src/Insert/Blamed.antt =====
-- Which events an insert reports as not stored.
use mathlib.Core.Option.{some-injective}
use mathlib.Core.Path.{subst}
use loghub.Common.{
  ℕ, zero, suc, ◌+◌, ◌≡◌, refl, sym, ap, Bool, Bool-cases, List, [], ◌∷◌, ◌++◌, some, none,
  Option-cases, All, arith, bytes_eq, Bytes, inl, inr, get_elem?, ◌⊎◌, map, ◌∙◌, false, contains,
}
use loghub.Errors.{Error}
use loghub.Event.{Event}
use loghub.Pg.{Fault, Outcome, Session, Database, in_tx, sent_one}
use loghub.Pg.Savepoint.{outcome_cases, in_tx_done}
use loghub.Insert.{
  Placed, Rejected, Groups, no_errors, set_at, add_to, group, unknown_tenant, event_of, exec_batch,
  refusal, insert_singly, insert_events, insert_chunks, set_tenant, insert_groups, chunks,
  insert_chunk_rest, insert_known,
}
use loghub.Insert.Count.{error_at}
use loghub.Insert.Steps.{failed_not_done}
use loghub.Insert.Groups.{marked, group_marks}
use loghub.Insert.Loops.{flat_chunks, flat_groups, flat-chunks, same_value}

-- The database turns an event away that is sent alone, in a savepoint.
abbrev pub IsRefused : Database → Event → Error → Type 0
IsRefused db ev why =
    (s : Session) × (e : Fault) × ((in_tx db (exec_batch db (ev ∷ [])) s).1 ≡ inl e)
    × (refusal e ≡ some why)

-- Every entry with an error has its reason.
abbrev pub Blames : (ℕ → Error → Type 0) → Rejected → Type 0
Blames P r = (j : ℕ) (e : Error) → error_at r j ≡ some e → P j e

-- A refusal of any of the events is a reason.
abbrev Covers : Database → (ℕ → Error → Type 0) → List Placed → Type 0
Covers db P = All (λ p. (e : Error) → IsRefused db (event_of p) e → P p.0 e)

-- An entry of a report with one more error is the new one, or an old one.
error_cases :
    (r : Rejected) (i : ℕ) (e : Error) (j : ℕ) (e' : Error)
    → error_at (set_at r i e) j ≡ some e'
    → ((i ≡ j) × (e ≡ e')) ⊎ (error_at r j ≡ some e')
unfolding set_at
error_cases [] i e j e' h = inr h
error_cases (x ∷ r) zero e zero e' h = inl (refl, some-injective e e' h)
error_cases (x ∷ r) zero e (suc j) e' h = inr h
error_cases (x ∷ r) (suc i) e zero e' h = inr h
error_cases (x ∷ r) (suc i) e (suc j) e' h = elim (error_cases r i e j e' h) [
  | inl (at, why) ↦ inl (ap suc at, why)
  | inr old ↦ inr old
]

set_at-Blames :
    (P : ℕ → Error → Type 0) (r : Rejected) (i : ℕ) (e : Error)
    → P i e
    → Blames P r
    → Blames P (set_at r i e)
set_at-Blames P r i e p h j e' found = elim (error_cases r i e j e' found) [
  | inl (at, why) ↦ subst (λ j. P j e') at (subst (λ e. P i e) why p)
  | inr old ↦ h j e' old
]

insert_singly-Blames :
    (db : Database) (P : ℕ → Error → Type 0) (work : List Placed) (s : Session) (r r' : Rejected)
    → Covers db P work
    → (insert_singly db work s r).1 ≡ inr r'
    → Blames P r
    → Blames P r'
unfolding insert_singly
insert_singly-Blames db P [] s r r' c h b = subst (Blames P) (same_value h) b
insert_singly-Blames db P ((i, ev) ∷ work) s r r' (p, c) h b =
    let t = in_tx db (exec_batch db (ev ∷ [])) s in
    elim (outcome_cases t) [
      | inr (u, done) ↦ insert_singly-Blames db P work t.0 r r' c (rw (done, insert_singly) at h) b
      | inl (e, failed) ↦ elim (Option-cases (refusal e)) [
        | inl given_up ↦ absurd (failed_not_done e (rw (failed, insert_singly, given_up) at h))
        | inr (why, refused) ↦
            insert_singly-Blames db P work t.0 (set_at r i why) r' c
              (rw (failed, insert_singly, refused) at h)
              (set_at-Blames P r i why (p why (s, e, failed, refused)) b)
      ]
    ]

insert_events-Blames :
    (db : Database) (P : ℕ → Error → Type 0) (p : Placed) (ps : List Placed) (s : Session)
    → (r r' : Rejected) → Covers db P (p ∷ ps)
    → (insert_events db (p, ps) s r).1 ≡ inr r'
    → Blames P r
    → Blames P r'
unfolding insert_events
insert_events-Blames db P p ps s r r' c h b =
    let t = in_tx db (exec_batch db (map event_of (p ∷ ps))) s in
    elim (outcome_cases t) [
      | inr (u, done) ↦ subst (Blames P) (same_value (rw (done, insert_events) at h)) b
      | inl (e, failed) ↦ elim (Option-cases (refusal e)) [
        | inl given_up ↦ absurd (failed_not_done e (rw (failed, insert_events, given_up) at h))
        | inr (why, refused) ↦
            insert_singly-Blames db P (p ∷ ps) t.0 r r' c (rw (failed, insert_events, refused) at h)
              b
      ]
    ]

All-front {ℓ} : {A : Type ℓ} (P : A → Type 0) (xs ys : List A) → All P (xs ++ ys) → All P xs
All-front P [] ys h = tt
All-front P (x ∷ xs) ys (p, h) = (p, All-front P xs ys h)

All-back {ℓ} : {A : Type ℓ} (P : A → Type 0) (xs ys : List A) → All P (xs ++ ys) → All P ys
All-back P [] ys h = h
All-back P (x ∷ xs) ys (p, h) = All-back P xs ys h

All-join {ℓ} :
    {A : Type ℓ} (P : A → Type 0) (xs ys : List A) → All P xs → All P ys → All P (xs ++ ys)
All-join P [] ys h k = k
All-join P (x ∷ xs) ys (p, h) k = (p, All-join P xs ys h k)

insert_chunks-Blames :
    (db : Database) (P : ℕ → Error → Type 0) (cs : List (Placed × List Placed)) (s : Session)
    → (r r' : Rejected) → Covers db P (flat_chunks cs)
    → (insert_chunks db cs s r).1 ≡ inr r'
    → Blames P r
    → Blames P r'
unfolding insert_chunks
insert_chunks-Blames db P [] s r r' c h b = subst (Blames P) (same_value h) b
insert_chunks-Blames db P ((p, ps) ∷ cs) s r r' c h b =
    let t = insert_events db (p, ps) s r in
    elim (outcome_cases t) [
      | inl (e, failed) ↦ absurd (failed_not_done e (rw (failed, insert_chunks) at h))
      | inr (r1, done) ↦
          insert_chunks-Blames db P cs t.0 r1 r' (All-back _ (p ∷ ps) (flat_chunks cs) c)
            (rw (done, insert_chunks) at h)
            (insert_events-Blames db P p ps s r r1 (All-front _ (p ∷ ps) (flat_chunks cs) c) done b)
    ]

insert_groups-Blames :
    (db : Database) (P : ℕ → Error → Type 0) (groups : Groups) (s : Session) (r r' : Rejected)
    → Covers db P (flat_groups groups)
    → (insert_groups db groups s r).1 ≡ inr r'
    → Blames P r
    → Blames P r'
unfolding insert_groups
insert_groups-Blames db P [] s r r' c h b = subst (Blames P) (same_value h) b
insert_groups-Blames db P ((tenant, placed) ∷ groups) s r r' c h b =
    let scoped = set_tenant db tenant s in
    let cs = chunks insert_chunk_rest placed in
    let t = insert_chunks db cs scoped.0 r in
    elim (outcome_cases scoped) [
      | inl (e, failed) ↦ absurd (failed_not_done e (rw (failed, insert_groups) at h))
      | inr (u, set) ↦ elim (outcome_cases t) [
        | inl (e, failed) ↦ absurd (failed_not_done e (rw (set, failed, insert_groups) at h))
        | inr (r1, done) ↦
            insert_groups-Blames db P groups t.0 r1 r' (All-back _ placed (flat_groups groups) c)
              (rw (set, done, insert_groups) at h)
              (insert_chunks-Blames db P cs scoped.0 r r1
                (subst (Covers db P) (sym (flat-chunks insert_chunk_rest placed))
                  (All-front _ placed (flat_groups groups) c))
                done b)
      ]
    ]

add_to-All :
    (Q : Placed → Type 0) (groups : Groups) (t : Bytes) (x : Placed)
    → Q x
    → All Q (flat_groups groups)
    → All Q (flat_groups (add_to groups t x))
unfolding add_to
add_to-All Q [] t x q h = (q, tt)
add_to-All Q ((t', ps) ∷ groups) t x q h = elim (Bool-cases (bytes_eq t' t)) [
  | inl same ↦ rw same (
      All-join Q (ps ++ (x ∷ [])) (flat_groups groups)
        (All-join Q ps (x ∷ []) (All-front _ ps (flat_groups groups) h) (q, tt))
        (All-back _ ps (flat_groups groups) h))
  | inr other ↦ rw other (
      All-join Q ps (flat_groups (add_to groups t x)) (All-front _ ps (flat_groups groups) h)
        (add_to-All Q groups t x q (All-back _ ps (flat_groups groups) h)))
]

group-All :
    (Q : Placed → Type 0) (known : Bytes → Bool) (i : ℕ) (events : List Event) (r : Rejected)
    → (groups : Groups) → ((k : ℕ) (ev : Event) → get_elem? events k ≡ some ev → Q (i + k, ev))
    → All Q (flat_groups groups)
    → All Q (flat_groups (group known i events r groups).1)
unfolding group
group-All Q known i [] r groups each h = h
group-All Q known i (ev ∷ events) r groups each h =
    let later : (k : ℕ) (ev' : Event) → get_elem? events k ≡ some ev' → Q (i + 1 + k, ev') =
      λ k ev' found.
        (let at : i + suc k ≡ i + 1 + k = omega arith in
          subst (λ n. Q (n, ev')) at (each (suc k) ev' found)) in
    let here : Q (i, ev) =
      let at : i + 0 ≡ i = omega arith in subst (λ n. Q (n, ev)) at (each 0 ev refl) in
    elim (Bool-cases (known ev.tenant_id)) [
      | inl there ↦
          rw (there, group)
            (group-All Q known (i + 1) events r (add_to groups ev.tenant_id (i, ev)) later
              (add_to-All Q groups ev.tenant_id (i, ev) here h))
      | inr away ↦
          rw (away, group)
            (group-All Q known (i + 1) events (set_at r i unknown_tenant) groups later h)
    ]

-- An event whose tenant is not known.
abbrev pub IsUnknown : (Bytes → Bool) → List Event → ℕ → Error → Type 0
IsUnknown known events j e =
    (ev : Event) × (get_elem? events j ≡ some ev)
    × (known ev.tenant_id ≡ false)
    × (e ≡ unknown_tenant)

marked-IsUnknown :
    (known : Bytes → Bool) (events : List Event) (j : ℕ) (e : Error)
    → error_at (marked known events) j ≡ some e
    → IsUnknown known events j e
marked-IsUnknown known [] j e h = absurd cc
marked-IsUnknown known (ev ∷ events) zero e h = elim (Bool-cases (known ev.tenant_id)) [
  | inl there ↦ (let bad : none ≡ some e = rw there at h in absurd cc)
  | inr away ↦
      (let why : some unknown_tenant ≡ some e = rw away at h in
        (ev, refl, away, sym (some-injective unknown_tenant e why)))
]
marked-IsUnknown known (ev ∷ events) (suc j) e h = marked-IsUnknown known events j e h

-- Why an event is reported: its tenant is not known, or the database refused it.
abbrev pub Reason : Database → (Bytes → Bool) → List Event → ℕ → Error → Type 0
Reason db known events j e =
    IsUnknown known events j e ⊎ ((ev : Event) × (get_elem? events j ≡ some ev) × IsRefused db ev e)

from_start :
    (events : List Event) (k : ℕ) (ev : Event)
    → get_elem? events k ≡ some ev
    → get_elem? events (0 + k) ≡ some ev
from_start events k ev at =
    let e : k ≡ 0 + k = omega arith in subst (λ n. get_elem? events n ≡ some ev) e at

pub insert_known-Blames :
    (db : Database) (events : List Event) (s : Session) (found : List Bytes) (r : Rejected)
    → (insert_known db events s (inr found)).1 ≡ inr r
    → Blames (Reason db (contains found) events) r
unfolding insert_known
insert_known-Blames db events s found r h =
    let known = contains found in
    let grouped = group known 0 events (no_errors events) [] in
    let body : Session → Session × Outcome Rejected =
      λ s'. insert_groups db grouped.1 s' grouped.0 in
    let (done, same) = in_tx_done db body (sent_one s) r h in
    let P = Reason db known events in
    let marks : grouped.0 ≡ marked known events = group_marks known 0 [] events [] refl in
    insert_groups-Blames db P grouped.1 (sent_one (sent_one s)) grouped.0 r
      (group-All (λ p. (e : Error) → IsRefused db (event_of p) e → P p.0 e) known 0 events
        (no_errors events) [] (λ k ev at e refused. inr (ev, from_start events k ev at, refused))
        tt)
      done
      (λ j e found'.
        inl (marked-IsUnknown known events j e (ap (λ r. error_at r j) (sym marks) ∙ found')))
