-- ===== src/Lib.antt =====
-- loghub: the core of the log collector's backend, backend/ in this repository.
--
-- The program takes log events over HTTP, in JSON and as syslog lines, normalizes them, stores
-- them per tenant in Postgres, and lets people search, count and be alerted of them. A request
-- first passes sign-in, which the limiter slows down, and then authorization, which says what the
-- caller may do in which tenant. The ingest handler reads a request into records, normalizes each
-- one, collects the events in a batch, inserts the batch and answers with what was taken and what
-- was not. The alert evaluator runs each tenant's rules over a window and sends what fired to
-- their webhooks. The search and count handlers check a filter, build one SQL statement from it,
-- and read its rows in the scope of the caller.
--
-- The files, and the code that each is about:
--
-- - Common, Common/*: shared names, Boolean tests on numbers, lists, and Go's strings as lists of
--   bytes.
-- - Errors: backend/internal/platform/errors/errors.go. A fallible function returns `ok` or `err`.
-- - Authz, Authz/*: backend/internal/authz/authz.go, with the policies that
--   backend/internal/api/policies.go compiles in. `new`, `can`, `scopes`, `deny` and `authorize`
--   are the functions of these names. Granted states what a grant is apart from the code, Built is
--   about what `new` accepts, Covered about `scopes`, Rules about the compiled policies.
-- - Alerting, Alerting/*: backend/internal/alerting/alerting.go, `WindowEnd` as `window_end` and
--   `Run` as `run`: a run is the list of the calls it makes. Window is about the window, Complete
--   about the run.
-- - Auth, Auth/*: backend/internal/auth, `Tokens.Parse` as `parse_token` and
--   `Authenticator.Authenticate` as `authenticate`; Issue has `Tokens.Issue` as `issue` and
--   `CheckPassword` as `check_password`.
-- - Decimal, Decimal/*: numbers in decimal, as `strconv.FormatInt` writes them.
-- - SignIn, SignIn/*: backend/internal/api/auth.go, `Login` as `login`: one step on the memory of
--   the limiter, from the guard to the session. Session is about who is signed in, Refusal about
--   what a refusal gives away.
-- - Reading, Reading/*: the handlers of backend/internal/api/search.go, counts.go and tenants.go,
--   `SearchEvents` as `search_events`, `TopValues` as `top_events`, `Timeline` as
--   `timeline_events` and `ListTenants` as `list_tenants`, up to the rendering of the answer.
-- - RequestId, RequestId/*: `newRequestID` of backend/internal/api/respond.go as `new_request_id`;
--   ten bytes are a number, and the random ones an argument.
-- - Rules, Rules/*: alert rules. Rules has their data and the checks of their texts, Decode has
--   `decodeAlertRule` of backend/internal/api/alerts.go as `decode_alert_rule`, where each check
--   of a field is an entry of a list, Handlers the handlers of that file, and Evaluation the
--   statement of backend/internal/store/alerts.go that evaluates a rule, with `CreateRule`. Texts
--   and Accepted are about the rules that are accepted, Created about who creates them, Shown
--   about who sees them, Placeholders about the statement.
-- - Limiter, Limiter/*: backend/internal/limiter, `Memory.Take` as `take` and `Limiter.Allow` as
--   `allow`. Each call is one step on the memory, since a mutex guards it.
-- - Event: the event that backend/internal/store/events.go stores.
-- - Pg, Pg/*: backend/internal/platform/pg/pg.go, `InTx` as `in_tx` and `Wrap` as `wrap`. A
--   `Database` says how each statement is answered, by the number of statements before it, so that
--   it can change its mind; the answer to a COMMIT can be lost, with the rows stored or not. A
--   `Session` holds the events that the transaction sees, and a rollback puts them back.
-- - Insert, Insert/*: the inserts of backend/internal/store/events.go, `EventRepo.Insert` as
--   `insert` and `MaintainPartitions` as `maintain_partitions`, with `setScope` of
--   backend/internal/store/postgres.go. An index of an event stands beside the event it points at.
--   Count, Sent, Steps, Loops, Groups and Positions lead to Accounts, and with Blamed to Reported;
--   Scoped and Guarded are about row-level security.
-- - Batch, Batch/*: the batch of backend/internal/api/ingest.go, with `add`, `reject`, `merge`,
--   `count` and `store`.
-- - Ndjson, Ndjson/*: the NDJSON handler of the same file, from the body to the answer.
-- - Ingest, Ingest/*: the three handlers of backend/internal/api/ingest.go, `IngestEvent`,
--   `IngestBatch` and `IngestFile`, put together from the enforcer, the normalizer, the batch and
--   the insert. A panic has no answer.
-- - Kv, Kv/*: backend/internal/ingest/kv.go, `parseKV` as `parse_kv`.
-- - Syslog, Syslog/*: backend/internal/ingest/syslog.go. Line has the two headers and
--   `parseSyslog` as `parse_syslog`, Structured is about `structuredDataEnd`. An index out of
--   range, which panics in Go, is a result of its own.
-- - Normalize, Normalize/*: backend/internal/ingest/normalize.go and sources.go, with
--   `Source.Valid` of backend/internal/api/gen/models.gen.go and `ValidTenantID` of
--   backend/internal/store/tenants.go. Builder and Payload are the builder and `fromJSON`, Line is
--   `fromSyslog`, AuthKind and Enrich are `enrich`, Storable is `storableJSON`, Record is
--   `Normalizer.Normalize` as `normalize` with `timestamp` and `assembleTags`. Kept, Bounds,
--   Implied and Accepted are about the events that come out, Rejected about the records that do
--   not pass, Tags about the tags. A field of a record is the JSON text of its value. A result
--   `none` is a panic, which only the syslog header has.
-- - Search, Search/*: backend/internal/store/search.go. Statement is the SQL, Page the parameters,
--   the cursor and `EventRepo.Search` as `search`.
-- - Counts, Counts/*: backend/internal/store/counts.go, `EventRepo.Top` as `top` and
--   `pickInterval` as `pick_interval`; Timeline is `EventRepo.Timeline`.
--
-- Each component with tests has a module Tests, which runs the definitions on small inputs.
--
-- Times are nanoseconds since the zero time of Go, as natural numbers, so they start with the year
-- 1; durations are nanoseconds too, and subtraction of times saturates where the code's does. A
-- string is its bytes. An address is the text that prints it. A map is a function or a list of
-- pairs, with what a missing key reads as written out. `parse_kv` takes as fuel one more than the
-- length of the body; a round of its loop takes at least a byte, so that is enough. All other
-- loops are structural recursion.
--
-- Code that is not in the repository is a parameter of the definitions that use it: the database,
-- the signature and the verification of tokens, bcrypt, time parsing, URLs, UTF-8 validity, case
-- mapping outside ASCII, address parsing, floats, with them the times that the limiter tells, what
-- `encoding/json` reads and writes, the base64 text of a cursor and the hash of a filter. A
-- theorem that needs something of it says so in a hypothesis.
--
-- Messages of errors, log lines and metrics that only people read are left out, except the count
-- of ingested events. Not modelled are the HTTP request of a webhook, the hashing of new
-- passwords, the job runner, the rendering of answers, HTTP wiring and configuration, the other
-- calls of the database, generated code, and the frontend.
pub mod Alerting
pub mod Auth
pub mod Authz
pub mod Batch
pub mod Common
pub mod Counts
pub mod Decimal
pub mod Errors
pub mod Event
pub mod Ingest
pub mod Insert
pub mod Kv
pub mod Limiter
pub mod Ndjson
pub mod Normalize
pub mod Pg
pub mod Reading
pub mod RequestId
pub mod Rules
pub mod Search
pub mod SignIn
pub mod Syslog
