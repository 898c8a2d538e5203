-- ===== src/Insert.antt =====
-- backend/internal/store/events.go: `EventRepo.Insert` and `MaintainPartitions`.
pub mod Count
pub mod Groups
pub mod Sent
pub mod Steps
pub mod Loops
pub mod Positions
pub mod Blamed
pub mod Accounts
pub mod Reported
pub mod Scoped
pub mod Guarded
pub mod Partitions
mod Tests
use loghub.Common.{
  ℕ, zero, suc, ◌+◌, Bool, true, false, not, ◌&&◌, ◌||◌, List, [], ◌∷◌, ◌++◌, map, Option, none,
  some, if◌then◌else◌, String, Bytes, codes, bytes_eq, contains, has_prefix, ◌⊎◌, inl, inr,
}
use loghub.Errors.{Error, Result, ok, err, new_error}
use loghub.Errors
use loghub.Event.{Event}
use loghub.Search.{ReadScope}
use loghub.Pg.{Failure, Fault, Outcome, wrap, Session, Database, sent_one, in_tx}

-- The index of an event in the request, and the event that it points at.
abbrev pub Placed : Type 0
Placed = ℕ × Event

-- Why each event was not stored, by position.
abbrev pub Rejected : Type 0
Rejected = List (Option Error)

abbrev pub no_errors : List Event → Rejected
no_errors [] = []
no_errors (ev ∷ events) = none ∷ no_errors events

unfoldable pub set_at : Rejected → ℕ → Error → Rejected
set_at [] i e = []
set_at (r ∷ rs) zero e = some e ∷ rs
set_at (r ∷ rs) (suc i) e = r ∷ set_at rs i e

abbrev pub unknown_tenant : Error
unknown_tenant = new_error Errors.invalid "unknown_tenant"

-- The events of each tenant, the tenants in order of arrival.
abbrev pub Groups : Type 0
Groups = List (Bytes × List Placed)

unfoldable pub add_to : Groups → Bytes → Placed → Groups
unfolding bytes_eq
add_to [] tenant p = (tenant, p ∷ []) ∷ []
add_to ((t, ps) ∷ groups) tenant p =
    let rest = add_to groups tenant p in
    if bytes_eq t tenant then (t, ps ++ p ∷ []) ∷ groups else (t, ps) ∷ rest

-- The loop that groups the events, from an index on.
unfoldable pub group : (Bytes → Bool) → ℕ → List Event → Rejected → Groups → Rejected × Groups
unfolding set_at add_to
group known i [] rejected groups = (rejected, groups)
group known i (ev ∷ events) rejected groups = elim (known ev.tenant_id) [
  | false ↦ group known (i + 1) events (set_at rejected i unknown_tenant) groups
  | true ↦ group known (i + 1) events rejected (add_to groups ev.tenant_id (i, ev))
]

-- The ids that `FilterTenantIDs` is asked for, each once.
unfoldable pub tenant_ids : List Bytes → List Event → List Bytes
unfolding bytes_eq
tenant_ids ids [] = ids
tenant_ids ids (ev ∷ events) = elim (contains ids ev.tenant_id) [
  | true ↦ tenant_ids ids events
  | false ↦ tenant_ids (ids ++ ev.tenant_id ∷ []) events
]

-- Chunks, none empty, the first of at most `room` elements behind its first.
unfoldable pub fill_chunk {ℓ} : {A : Type ℓ} → ℕ → ℕ → List A → List A × List (A × List A)
fill_chunk more room [] = ([], [])
fill_chunk more zero (x ∷ xs) = let (c, cs) = fill_chunk more more xs in ([], (x, c) ∷ cs)
fill_chunk more (suc room) (x ∷ xs) = let (c, cs) = fill_chunk more room xs in (x ∷ c, cs)

-- `slices.Chunk` with chunks of one element and `more` others.
unfoldable pub chunks {ℓ} : {A : Type ℓ} → ℕ → List A → List (A × List A)
unfolding fill_chunk
chunks more [] = []
chunks more (x ∷ xs) = let (c, cs) = fill_chunk more more xs in (x, c) ∷ cs

-- `insertChunk`, less one
abbrev pub insert_chunk_rest : ℕ
insert_chunk_rest = 999

abbrev pub unstorable_event : Error
unstorable_event = new_error Errors.invalid "unstorable_event"

-- `refusal`, by the code of the `PgError`
unfoldable pub refusal_code : Option Bytes → Option Error
unfolding bytes_eq has_prefix
refusal_code none = none
refusal_code (some code) =
    if bytes_eq code (codes "23503")
    then some unknown_tenant
    else if bytes_eq code (codes "54000")
        || (has_prefix code (codes "22") || has_prefix code (codes "23"))
    then some unstorable_event
    else none

unfoldable pub refusal : Fault → Option Error
unfolding refusal_code
refusal e = refusal_code e.code

-- `execBatch`: what follows the first failure only fails too.
unfoldable pub exec_batch : Database → List Event → Session → Session × Outcome Unit
unfolding wrap
exec_batch db [] s = (s, inr tt)
exec_batch db (ev ∷ events) s = elim (db.insert s.sent s.scope ev) [
  | some f ↦ (sent_one s, inl (wrap f))
  | none ↦ exec_batch db events (record s { sent = s.sent + 1; rows = ev ∷ s.rows })
]

-- The events of a chunk one at a time, each in a savepoint.
unfoldable pub insert_singly :
    Database → List Placed → Session → Rejected → Session × Outcome Rejected
unfolding in_tx exec_batch set_at refusal
insert_singly db [] s rejected = (s, inr rejected)
insert_singly db ((i, ev) ∷ placed) s rejected =
    let (s', tried) = in_tx db (exec_batch db (ev ∷ [])) s in
    elim tried [
      | inr done ↦ insert_singly db placed s' rejected
      | inl e ↦ elim (refusal e) [
        | none ↦ (s', inl e)
        | some refused ↦ insert_singly db placed s' (set_at rejected i refused)
      ]
    ]

abbrev pub event_of : Placed → Event
event_of (i, ev) = ev

-- `insertEvents`
unfoldable pub insert_events :
    Database → Placed × List Placed → Session → Rejected → Session × Outcome Rejected
unfolding in_tx exec_batch insert_singly refusal
insert_events db (p, ps) s rejected =
    let (s', tried) = in_tx db (exec_batch db (map event_of (p ∷ ps))) s in
    elim tried [
      | inr done ↦ (s', inr rejected)
      | inl e ↦ elim (refusal e) [
        | none ↦ (s', inl e)
        | some refused ↦ insert_singly db (p ∷ ps) s' rejected
      ]
    ]

unfoldable pub insert_chunks :
    Database → List (Placed × List Placed) → Session → Rejected → Session × Outcome Rejected
unfolding insert_events
insert_chunks db [] s rejected = (s, inr rejected)
insert_chunks db (chunk ∷ more) s rejected =
    let (s', tried) = insert_events db chunk s rejected in
    elim tried [ inl e ↦ (s', inl e) | inr rejected' ↦ insert_chunks db more s' rejected' ]

-- `setScope` for a tenant
unfoldable pub set_tenant : Database → Bytes → Session → Session × Outcome Unit
unfolding wrap
set_tenant db tenant s = elim (db.set_scope s.sent) [
  | some f ↦ (sent_one s, inl (wrap f))
  | none ↦ (
    record s { sent = s.sent + 1; scope = record { tenant_id = tenant; is_admin = false } },
    inr tt,
  )
]

-- The loop over the tenants.
unfoldable pub insert_groups : Database → Groups → Session → Rejected → Session × Outcome Rejected
unfolding set_tenant chunks insert_chunks
insert_groups db [] s rejected = (s, inr rejected)
insert_groups db ((tenant, placed) ∷ groups) s rejected =
    let (s', scoped) = set_tenant db tenant s in
    elim scoped [
      | inl e ↦ (s', inl e)
      | inr done ↦
          (let (s'', tried) = insert_chunks db (chunks insert_chunk_rest placed) s' rejected in
            elim tried [
              | inl e ↦ (s'', inl e)
              | inr rejected' ↦ insert_groups db groups s'' rejected'
            ])
    ]

unfoldable pub insert_known :
    Database → List Event → Session → Failure ⊎ List Bytes → Session × Outcome Rejected
unfolding group in_tx insert_groups wrap
insert_known db events s (inl f) = (sent_one s, inl (wrap f))
insert_known db events s (inr found) =
    let (rejected, groups) = group (contains found) 0 events (no_errors events) [] in
    in_tx db (λ s'. insert_groups db groups s' rejected) (sent_one s)

-- `EventRepo.Insert`: why each event was not stored, or an error.
unfoldable pub insert : Database → List Event → Session → Session × Outcome Rejected
unfolding tenant_ids insert_known
insert db [] s = (s, inr [])
insert db (ev ∷ events) s =
    insert_known db (ev ∷ events) s (db.filter_tenants s.sent (tenant_ids [] (ev ∷ events)))
