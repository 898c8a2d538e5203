-- ===== src/Ingest/Answered.antt =====
-- What an answer to an ingest request says of the database.
use mathlib.Core.Path.{subst}
use loghub.Common.{
  ◌+◌, ◌≡◌, refl, ap, ◌∙◌, Bool, true, false, not, Bool-cases, List, [], ◌∷◌, Option, none, some,
  any, arith, length, Bytes, trim_space, inl, inr, ◌⊎◌,
}
use loghub.Errors.{Error, Result, ok, err}
use loghub.Event.{Event}
use loghub.Authz.{can}
use loghub.Authz.Action
use loghub.Authz.Resource
use loghub.Batch.{Batch, Delivery, bad, good, start, deliver_all, store}
use loghub.Batch.Answer.{store-Answered, store_accounts, deliver_all-may}
use loghub.Pg.{Fault, Outcome, Session, Database}
use loghub.Pg.Savepoint.{IsLost}
use loghub.Insert.{Rejected, insert}
use loghub.Insert.Count.{count, error_at}
use loghub.Insert.Positions.{stored_from}
use loghub.Insert.Accounts.{insert-Accounts, insert_atomic}
use loghub.Normalize.Record.{Defaults, validate_defaults}
use loghub.Ndjson.{each_record}
use loghub.Ingest.Counted.{count_all, length-counted, no_strangers}
use loghub.Ingest.{
  unless, event_checked, Services, Request, Answer, Route, event, batch, file, may, insert_result,
  store_in, ingest, ingest_event, ingest_batch, ingest_file, ingest_lines, answer_body, event_body,
  event_result, start_batch, normalized, read_all, no_defaults, is_malformed, record_panics,
}

-- An error left the events as they were, or, where the answer to a COMMIT is lost after the database
-- stored the rows, added none of a tenant that the caller may not write to; a result that accepts events added that many, and none of
-- a tenant that the caller may not write to.
abbrev pub IsAnswered : Database → (Bytes → Bool) → Session → Session × Answer → Type 0
IsAnswered db may s (s', err e) =
    (s'.rows ≡ s.rows)
    ⊎ (IsLost db
        × (count (λ ev. not (may ev.tenant_id)) s'.rows
            ≡ count (λ ev. not (may ev.tenant_id)) s.rows))
IsAnswered db may s (s', ok (res, counted)) =
    (length s'.rows ≡ length s.rows + res.accepted)
    × (count (λ ev. not (may ev.tenant_id)) s'.rows ≡ count (λ ev. not (may ev.tenant_id)) s.rows)

failed_at :
    (insert : List Event → Result Rejected) (b : Batch) (events : List Event)
    → (answer : Result Rejected) (e : Error) → b.events ≡ events
    → insert b.events ≡ answer
    → store insert b ≡ err e
    → insert b.events ≡ err e
unfolding store
failed_at insert b [] answer e p q h = absurd (ground arith)
failed_at insert b (ev ∷ more) (err e') e p q h = ground arith
failed_at insert b (ev ∷ more) (ok refused) e p q h = absurd (ground arith)

not_ok : (r : Outcome Rejected) (e : Error) → insert_result r ≡ err e → (f : Fault) × (r ≡ inl f)
not_ok (inl f) e h = (f, refl)
not_ok (inr rejected) e h = absurd cc

is_ok : (r : Outcome Rejected) (rs : Rejected) → insert_result r ≡ ok rs → r ≡ inr rs
is_ok (inl f) rs h = absurd cc
is_ok (inr rejected) rs h = cc

nothing_sent : (db : Database) (s : Session) → (insert db [] s).0.rows ≡ s.rows
unfolding insert
nothing_sent db s = refl

module _ (sv_may : Bytes → Bool) (db : Database) (ds : List Delivery) (s : Session) where
  answered :
      (a : Answer)
      → store (λ events. insert_result (insert db events s).1) (deliver_all sv_may start ds) ≡ a
      → IsAnswered db sv_may s ((insert db (deliver_all sv_may start ds).events s).0, a)
  answered (err e) h =
      let b = deliver_all sv_may start ds in
      let ins : List Event → Result Rejected = λ events. insert_result (insert db events s).1 in
      let failed = failed_at ins b b.events (ins b.events) e refl refl h in
      let (f, why) = not_ok (insert db b.events s).1 e failed in
      elim (insert_atomic db b.events s f why) [
        | inl same ↦ inl same
        | inr (lost, (r, (long, rows))) ↦
            (let others = rows (λ ev. not (sv_may ev.tenant_id)) in
              let none_other = no_strangers sv_may r 0 b.events (deliver_all-may sv_may ds) in
              inr (lost, omega arith))
      ]
  answered (ok (res, counted)) h =
      let b = deliver_all sv_may start ds in
      let ins : List Event → Result Rejected = λ events. insert_result (insert db events s).1 in
      let (sum, accepted) = store_accounts sv_may ins ds h in
      elim (store-Answered ins b h) [
        | inl (nothing, r, c) ↦
            (let same : (insert db b.events s).0.rows ≡ s.rows = rw nothing (nothing_sent db s) in
              let none_counted : length counted ≡ 0 = ap length c in
              (
                ap length same ∙ omega arith,
                ap (λ rows. count (λ ev. not (sv_may ev.tenant_id)) rows) same,
              ))
        | inr (refused, took, r, c) ↦
            (let sent = is_ok (insert db b.events s).1 refused took in
              let (long, rows) = insert-Accounts db b.events s refused sent in
              let kept =
                length-counted refused 0 b.events refused
                  (λ k. ap (error_at refused) (omega arith)) in
              let all = rows (λ ev. true) in
              let before = count_all s.rows in
              let after = count_all (insert db b.events s).0.rows in
              let stored = count_all (stored_from refused 0 b.events) in
              let others = rows (λ ev. not (sv_may ev.tenant_id)) in
              let none_other = no_strangers sv_may refused 0 b.events (deliver_all-may sv_may ds) in
              let counted_all = ap length c in (omega arith, omega arith))
      ]

store_in-IsAnswered :
    (may : Bytes → Bool) (db : Database) (ds : List Delivery) (s : Session)
    → IsAnswered db may s (store_in db (deliver_all may start ds) s)
unfolding store_in
store_in-IsAnswered may db ds s = answered may db ds s _ refl

-- A result of a handler that did not panic.
abbrev IsAnsweredIfAny : Database → (Bytes → Bool) → Session → Option (Session × Answer) → Type 0
IsAnsweredIfAny db may s none = Unit
IsAnsweredIfAny db may s (some out) = IsAnswered db may s out

body-IsAnswered :
    (sv : Services) (d : Defaults) (req : Request) (s : Session) (failure : Option Error)
    → IsAnswered sv.db (may sv req.caller) s (answer_body sv d req s failure)
unfolding answer_body
body-IsAnswered sv d req s (some e) = inl refl
body-IsAnswered sv d req s none =
    store_in-IsAnswered (may sv req.caller) sv.db (read_all sv d req.body) s

lines-IsAnsweredIfAny :
    (sv : Services) (d : Defaults) (req : Request) (s : Session)
    → IsAnsweredIfAny sv.db (may sv req.caller) s (ingest_lines sv d req s)
unfolding ingest_lines
lines-IsAnsweredIfAny sv d req s = elim (Bool-cases (not req.has_media_type)) [
  | inl other ↦ rw other (inl refl)
  | inr fine ↦ elim (Bool-cases (any (record_panics sv d) (each_record req.body))) [
    | inl panic ↦ rw (fine, panic) tt
    | inr calm ↦ rw (fine, calm) (body-IsAnswered sv d req s req.body.failure)
  ]
]

event_result-IsAnsweredIfAny :
    (sv : Services) (req : Request) (s : Session) (r : Option (Result Event))
    → IsAnsweredIfAny sv.db (may sv req.caller) s (event_result sv req s r)
unfolding event_result
event_result-IsAnsweredIfAny sv req s none = tt
event_result-IsAnsweredIfAny sv req s (some (ok ev)) =
    store_in-IsAnswered (may sv req.caller) sv.db (good 0 ev ∷ []) s
event_result-IsAnsweredIfAny sv req s (some (err e)) = elim (Bool-cases (is_malformed e)) [
  | inl malformed ↦ rw malformed (inl refl)
  | inr other ↦ rw other (store_in-IsAnswered (may sv req.caller) sv.db (bad 0 e ∷ []) s)
]

event_body-IsAnsweredIfAny :
    (sv : Services) (req : Request) (s : Session) (failure : Option Error)
    → IsAnsweredIfAny sv.db (may sv req.caller) s (event_body sv req s failure)
unfolding event_body
event_body-IsAnsweredIfAny sv req s (some e) = inl refl
event_body-IsAnsweredIfAny sv req s none =
    event_result-IsAnsweredIfAny sv req s (normalized sv no_defaults req.body.bytes)

unless-IsAnsweredIfAny :
    (db : Database) (may : Bytes → Bool) (s : Session) (e : Option Error)
    → (next : Option (Session × Answer)) → IsAnsweredIfAny db may s next
    → IsAnsweredIfAny db may s (unless e s next)
unfolding unless
unless-IsAnsweredIfAny db may s (some e) next h = inl refl
unless-IsAnsweredIfAny db may s none next h = h

checked-IsAnsweredIfAny :
    (sv : Services) (req : Request) (s : Session) (other_type : Bool)
    → IsAnsweredIfAny sv.db (may sv req.caller) s (event_checked sv req s other_type)
unfolding event_checked
checked-IsAnsweredIfAny sv req s true = inl refl
checked-IsAnsweredIfAny sv req s false = event_body-IsAnsweredIfAny sv req s req.body.failure

ingest-IsAnsweredIfAny :
    (sv : Services) (route : Route) (req : Request) (s : Session)
    → IsAnsweredIfAny sv.db (may sv req.caller) s (ingest sv route req s)
unfolding ingest ingest_event ingest_batch ingest_file
ingest-IsAnsweredIfAny sv event req s =
    unless-IsAnsweredIfAny sv.db (may sv req.caller) s (start_batch sv req.caller) _
      (checked-IsAnsweredIfAny sv req s (not req.has_media_type))
ingest-IsAnsweredIfAny sv batch req s =
    unless-IsAnsweredIfAny sv.db (may sv req.caller) s (start_batch sv req.caller) _
      (lines-IsAnsweredIfAny sv no_defaults req s)
ingest-IsAnsweredIfAny sv (file tenant source) req s =
    let d : Defaults = record { tenant = trim_space tenant; source = trim_space source } in
    unless-IsAnsweredIfAny sv.db (may sv req.caller) s (start_batch sv req.caller) _ (
      unless-IsAnsweredIfAny sv.db (may sv req.caller) s (validate_defaults sv.libs.field d)
        (ingest_lines sv d req s) (lines-IsAnsweredIfAny sv d req s))

-- An ingest request on any of the three routes that does not panic is answered with a result and
-- adds as many events as it says it accepted, none of them of a tenant for which the caller may not
-- create events; or with an error, and then adds no event to the database, unless the answer to a
-- COMMIT was lost after the database stored the rows: then it may have added events, none of them
-- of such a tenant. The normalizer, the caller's rights and the insert are those of the program,
-- and the database may fail at any statement.
pub ingest-IsAnswered :
    (sv : Services) (route : Route) (req : Request) (s : Session) (out : Session × Answer)
    → ingest sv route req s ≡ some out
    → IsAnswered sv.db (can sv.enforcer req.caller Resource.events Action.create) s out
unfolding may
ingest-IsAnswered sv route req s out h =
    subst (IsAnsweredIfAny sv.db (can sv.enforcer req.caller Resource.events Action.create) s) h
      (ingest-IsAnsweredIfAny sv route req s)
