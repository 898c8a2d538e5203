-- ===== src/Insert/Tests.antt =====
-- Runs of the insert, and each theorem about it on a database that knows one tenant and refuses the
-- events of one host.
use loghub.Common.{
  ℕ, ◌≡◌, refl, true, false, List, [], ◌∷◌, none, some, Bytes, codes, ◌+◌, ◌*◌, ◌^◌, pos, negsuc,
  ◌==◌, if◌then◌else◌, inl, inr,
}
use loghub.Errors.{Error, new_error}
use loghub.Errors
use loghub.Event.{Event}
use loghub.Normalize.Builder.{empty_event}
use loghub.Pg.{Failure, Fault, Session, Database, acknowledged, unanswered}
use loghub.Insert.{Rejected, insert, unknown_tenant, unstorable_event, chunks}
use loghub.Insert.Accounts.{Accounts, IsAllOrNone, insert_atomic}
use loghub.Insert.Count.{error_at}
use loghub.Insert.Reported.{IsBlamed, insert_reports}
use loghub.Insert.Scoped.{guarded}
use loghub.Insert.Guarded.{insert-guarded}
use loghub.Insert.Partitions.{day, days_of}

abbrev event : Bytes → ℕ → Event
event tenant ts = record empty_event { tenant_id = tenant; ts = ts }

abbrev bad_value : Failure
bad_value = record { is_network = false; code = some (codes "22021") }

abbrev refusing : Database
refusing = record {
  begin = λ n. none;
  commit = λ n. acknowledged;
  set_scope = λ n. none;
  insert = λ n scope ev. if ev.ts == 13 then some bad_value else none;
  filter_tenants = λ n ids. inr (codes "acme" ∷ codes "beta" ∷ []);
}

abbrev closing : Database
closing = record refusing { commit = λ n. if n == 18 then unanswered true true else acknowledged }

abbrev empty_session : Session
empty_session = record { sent = 0; rows = []; scope = record { tenant_id = []; is_admin = false } }

abbrev a_batch : List Event
a_batch =
    event (codes "acme") 1
    ∷ event (codes "other") 2
    ∷ event (codes "beta") 3
    ∷ event (codes "acme") 13
    ∷ event (codes "acme") 5
    ∷ []

abbrev a_report : Rejected
a_report = none ∷ some unknown_tenant ∷ none ∷ some unstorable_event ∷ none ∷ []

mixed_report : (insert refusing a_batch empty_session).1 ≡ inr a_report
unfolding insert
mixed_report = refl

mixed_rows :
    (insert refusing a_batch empty_session).0.rows
    ≡ event (codes "beta") 3 ∷ event (codes "acme") 5 ∷ event (codes "acme") 1 ∷ []
unfolding insert
mixed_rows = refl

abbrev unreachable_error : Fault
unreachable_error = record {
  error = new_error Errors.unavailable "database_unavailable";
  code = none;
}

never_commits : (insert closing a_batch empty_session).1 ≡ inl unreachable_error
unfolding insert
never_commits = refl

may_be_stored :
    (insert closing a_batch empty_session).0.rows
    ≡ event (codes "beta") 3 ∷ event (codes "acme") 5 ∷ event (codes "acme") 1 ∷ []
unfolding insert
may_be_stored = refl

three_chunks : chunks {A = ℕ} 1 (1 ∷ 2 ∷ 3 ∷ 4 ∷ 5 ∷ []) ≡ (1, 2 ∷ []) ∷ (3, 4 ∷ []) ∷ (5, []) ∷ []
unfolding chunks
three_chunks = refl

insert_reports_example :
    Accounts a_batch empty_session (insert refusing a_batch empty_session).0 a_report
    × ((j : ℕ) (e : Error)
        → error_at a_report j ≡ some e
        → IsBlamed refusing a_batch empty_session j e)
insert_reports_example = insert_reports refusing a_batch empty_session a_report mixed_report

insert_atomic_example :
    IsAllOrNone closing a_batch empty_session (insert closing a_batch empty_session).0
insert_atomic_example = insert_atomic closing a_batch empty_session unreachable_error never_commits

insert-guarded_example :
    insert (guarded refusing) a_batch empty_session ≡ insert refusing a_batch empty_session
insert-guarded_example = insert-guarded refusing a_batch empty_session

eight_days : days_of (pos (7 * day + 1)) ≡ 8
unfolding days_of
eight_days = refl

too_long : days_of (pos (2 ^ 63 + 1)) ≡ 0
unfolding days_of
too_long = refl

negative_days : days_of (negsuc 5) ≡ 0
unfolding days_of
negative_days = refl
