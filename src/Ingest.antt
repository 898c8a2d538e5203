-- ===== src/Ingest.antt =====
-- backend/internal/api/ingest.go: the three ingest handlers, with the enforcer, the normalizer and
-- the database behind them. The clock reads the same for all records of a request.
pub mod Counted
pub mod Answered
mod Tests
use loghub.Common.{
  ℕ, Bool, true, false, not, List, [], ◌∷◌, map, Option, none, some, if◌then◌else◌, any, ℤ, Bytes,
  trim_space, ◌⊎◌, inl, inr,
}
use loghub.Errors.{Error, Kind, Result, ok, err, new_error}
use loghub.Errors
use loghub.Event.{Event}
use loghub.Authz.{Caller, Enforcer, can, scopes, is_no_tenant, deny}
use loghub.Authz.Action
use loghub.Authz.Resource
use loghub.Normalize.Record.{Libs, Defaults, validate_defaults, normalize}
use loghub.Batch.{Batch, IngestResult, Delivery, bad, good, start, deliver_all, store}
use loghub.Ndjson.{Body, each_record, delivery}
use loghub.Pg.{Fault, Outcome, Session, Database}
use loghub.Insert.{Rejected, insert}

-- What the server holds, and the time.
pub record Services : Type 0 where
  pub enforcer : Enforcer
  pub libs : Libs
  pub retention : ℤ
  pub now : ℕ
  pub db : Database

-- A request: who sends it, whether its media type is the expected one, and its body.
pub record Request : Type 0 where
  pub caller : Caller
  pub has_media_type : Bool
  pub body : Body

-- The result and the events counted as ingested, or an error.
abbrev pub Answer : Type 0
Answer = Result (IngestResult × List (Bytes × Bytes))

unfoldable pub may : Services → Caller → Bytes → Bool
unfolding can
may sv caller tenant = can sv.enforcer caller Resource.events Action.create tenant

-- `startBatch`: the error, for a caller that may not create events for any tenant.
unfoldable pub start_batch : Services → Caller → Option Error
unfolding scopes deny
start_batch sv caller =
    if is_no_tenant (scopes sv.enforcer caller Resource.events Action.create)
    then some (deny caller)
    else none

abbrev pub unsupported_media_type : Error
unsupported_media_type = new_error Errors.malformed "unsupported_media_type"

abbrev pub insert_result : Outcome Rejected → Result Rejected
insert_result (inl e) = err e.error
insert_result (inr rejected) = ok rejected

-- `store`, on the database
unfoldable pub store_in : Database → Batch → Session → Session × Answer
unfolding insert store
store_in db b s =
    ((insert db b.events s).0, store (λ events. insert_result (insert db events s).1) b)

unfoldable pub normalized : Services → Defaults → Bytes → Option (Result Event)
unfolding normalize
normalized sv d record' = normalize sv.libs sv.retention d sv.now record'

abbrev pub is_panic : Option (Result Event) → Bool
is_panic none = true
is_panic (some r) = false

-- The result of a normalizer that did not panic.
abbrev pub settled : Option (Result Event) → Result Event
settled none = err (new_error Errors.internal "internal_error")
settled (some r) = r

unfoldable pub record_panics : Services → Defaults → ℕ × Option Bytes → Bool
unfolding normalized
record_panics sv d (index, none) = false
record_panics sv d (index, some record') = is_panic (normalized sv d record')

-- The outcomes of the records of a body.
unfoldable pub read_all : Services → Defaults → Body → List Delivery
unfolding normalized each_record
read_all sv d body =
    map (delivery (λ record'. settled (normalized sv d record'))) (each_record body)

unfoldable pub answer_body :
    Services → Defaults → Request → Session → Option Error → Session × Answer
unfolding store_in may deliver_all read_all
answer_body sv d req s (some e) = (s, err e)
answer_body sv d req s none =
    store_in sv.db (deliver_all (may sv req.caller) start (read_all sv d req.body)) s

-- `ingestNDJSON`; `none` is a panic, before anything is stored.
unfoldable pub ingest_lines : Services → Defaults → Request → Session → Option (Session × Answer)
unfolding each_record record_panics answer_body
ingest_lines sv d req s =
    if not req.has_media_type
    then some (s, err unsupported_media_type)
    else if any (record_panics sv d) (each_record req.body)
    then none
    else some (answer_body sv d req s req.body.failure)

-- An error found first, or what comes next.
unfoldable pub unless :
    Option Error → Session → Option (Session × Answer) → Option (Session × Answer)
unless (some e) s next = some (s, err e)
unless none s next = next

abbrev pub no_defaults : Defaults
no_defaults = record { tenant = []; source = [] }

-- `IngestBatch`
unfoldable pub ingest_batch : Services → Request → Session → Option (Session × Answer)
unfolding start_batch ingest_lines unless
ingest_batch sv req s = unless (start_batch sv req.caller) s (ingest_lines sv no_defaults req s)

-- `IngestFile`, with its two parameters, empty where they are missing
unfoldable pub ingest_file :
    Services → Bytes → Bytes → Request → Session → Option (Session × Answer)
unfolding start_batch ingest_lines validate_defaults trim_space unless
ingest_file sv tenant source req s =
    let d : Defaults = record { tenant = trim_space tenant; source = trim_space source } in
    unless (start_batch sv req.caller) s
      (unless (validate_defaults sv.libs.field d) s (ingest_lines sv d req s))

abbrev pub is_malformed : Error → Bool
is_malformed e = elim e.kind [ Kind.malformed ↦ true | _ ↦ false ]

abbrev pub not_an_object : Error
not_an_object = new_error Errors.malformed "invalid_json"

unfoldable pub event_result :
    Services → Request → Session → Option (Result Event) → Option (Session × Answer)
unfolding store_in may deliver_all
event_result sv req s none = none
event_result sv req s (some (ok ev)) =
    some (store_in sv.db (deliver_all (may sv req.caller) start (good 0 ev ∷ [])) s)
event_result sv req s (some (err e)) =
    if is_malformed e
    then some (s, err not_an_object)
    else some (store_in sv.db (deliver_all (may sv req.caller) start (bad 0 e ∷ [])) s)

unfoldable pub event_body : Services → Request → Session → Option Error → Option (Session × Answer)
unfolding event_result normalized
event_body sv req s (some e) = some (s, err e)
event_body sv req s none = event_result sv req s (normalized sv no_defaults req.body.bytes)

-- The check of the media type, and the rest of `IngestEvent`.
unfoldable pub event_checked : Services → Request → Session → Bool → Option (Session × Answer)
unfolding event_body
event_checked sv req s other_type =
    if other_type
    then some (s, err unsupported_media_type)
    else event_body sv req s req.body.failure

-- `IngestEvent`
unfoldable pub ingest_event : Services → Request → Session → Option (Session × Answer)
unfolding start_batch event_checked unless
ingest_event sv req s =
    unless (start_batch sv req.caller) s (event_checked sv req s (not req.has_media_type))

-- The three routes of the API.
pub data Route : Type 0 where
  event : Route
  batch : Route
  file : Bytes → Bytes → Route

unfoldable pub ingest : Services → Route → Request → Session → Option (Session × Answer)
unfolding ingest_event ingest_batch ingest_file
ingest sv event = ingest_event sv
ingest sv batch = ingest_batch sv
ingest sv (file tenant source) = ingest_file sv tenant source
