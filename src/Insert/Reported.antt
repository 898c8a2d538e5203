-- ===== src/Insert/Reported.antt =====
-- What a report of `Insert` says of each event.
use loghub.Common.{
  ℕ, ◌≡◌, sym, List, [], ◌∷◌, some, none, Bytes, contains, inl, inr, ◌⊎◌, get_elem?, false,
}
use loghub.Errors.{Error}
use loghub.Event.{Event}
use loghub.Pg.{Session, Database}
use loghub.Insert.{Rejected, unknown_tenant, tenant_ids, insert}
use loghub.Insert.Count.{error_at}
use loghub.Insert.Blamed.{IsRefused, Blames, Reason, insert_known-Blames}
use loghub.Insert.Accounts.{Accounts, insert-Accounts, found_cases, unknown_fails}
use loghub.Insert.Loops.{same_value}

-- An entry with an error is that of an event of the request. Either it says that the tenant is
-- unknown, and the database, asked which of the tenants of the events it knows, left that tenant
-- out; or the database refused the event when it was sent by itself, in a savepoint, with a failure
-- that stands for the error.
abbrev pub IsBlamed : Database → List Event → Session → ℕ → Error → Type 0
IsBlamed db events s j e =
    (ev : Event) × (get_elem? events j ≡ some ev)
    × (((e ≡ unknown_tenant)
          × ((found : List Bytes) × (db.filter_tenants s.sent (tenant_ids [] events) ≡ inr found)
              × (contains found ev.tenant_id ≡ false)))
        ⊎ IsRefused db ev e)

Reason-IsBlamed :
    (db : Database) (events : List Event) (s : Session) (found : List Bytes) (j : ℕ) (e : Error)
    → db.filter_tenants s.sent (tenant_ids [] events) ≡ inr found
    → Reason db (contains found) events j e
    → IsBlamed db events s j e
Reason-IsBlamed db events s found j e asked (inl (ev, at, away, why)) =
    (ev, at, inl (why, (found, asked, away)))
Reason-IsBlamed db events s found j e asked (inr (ev, at, refused)) = (ev, at, inr refused)

insert-Blames :
    (db : Database) (events : List Event) (s : Session) (rejected : Rejected)
    → (insert db events s).1 ≡ inr rejected
    → Blames (IsBlamed db events s) rejected
unfolding insert
insert-Blames db [] s rejected h j e found =
    let none_left : [] ≡ rejected = same_value h in
    let bad : none ≡ some e = rw (sym none_left) at found in absurd cc
insert-Blames db (ev ∷ events) s rejected h j e found =
    let ids = tenant_ids [] (ev ∷ events) in
    elim (found_cases (db.filter_tenants s.sent ids)) [
      | inl (f, failed) ↦ absurd (unknown_fails db (ev ∷ events) s f rejected (rw failed at h))
      | inr (known, asked) ↦
          Reason-IsBlamed db (ev ∷ events) s known j e asked
            (insert_known-Blames db (ev ∷ events) s known rejected (rw asked at h) j e found)
    ]

-- An insert that returns no error answers with one entry for each event, and adds to the database
-- exactly the events whose entries are nil, each as often as it was sent, and no other event. An
-- entry is an error only where the event's tenant is not among those that the database knows, when
-- the entry says so, or where the database refused the event when it was sent by itself, in a
-- savepoint, and the entry is the error that stands for that failure.
pub insert_reports :
    (db : Database) (events : List Event) (s : Session) (rejected : Rejected)
    → (insert db events s).1 ≡ inr rejected
    → Accounts events s (insert db events s).0 rejected
      × ((j : ℕ) (e : Error) → error_at rejected j ≡ some e → IsBlamed db events s j e)
insert_reports db events s rejected h =
    (insert-Accounts db events s rejected h, insert-Blames db events s rejected h)
