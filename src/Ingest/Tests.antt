-- ===== src/Ingest/Tests.antt =====
-- Runs of the ingest handlers, and the theorem about them at a concrete request.
use loghub.Common.{
  ◌≡◌, refl, true, false, not, [], ◌∷◌, none, some, ◌==◌, ◌+◌, if◌then◌else◌, pos, Bytes, codes,
  bytes_eq, inr,
}
use loghub.Errors.{ok}
use loghub.Event.{Event}
use loghub.Authz.{Caller, can}
use loghub.Authz.Action
use loghub.Authz.Resource
use loghub.Authz.Role
use loghub.Authz.Rules.{enforcer}
use loghub.Batch.{IngestResult}
use loghub.Normalize.Builder.{Fields, empty_event}
use loghub.Normalize.Storable.{atom}
use loghub.Normalize.Record.{Libs}
use loghub.Pg.{Session, Database, acknowledged}
use loghub.Insert.Count.{count}
use loghub.Ingest.{Services, Request, Answer, batch, ingest}
use loghub.Ingest.Answered.{ingest-IsAnswered}

abbrev unquoted : Bytes → Bytes
unquoted [] = []
unquoted (c ∷ s) = if c == b'"' then unquoted s else c ∷ unquoted s

abbrev fields : Fields
fields = (codes "tenant", codes "\"acme\"") ∷ (codes "source", codes "\"aws\"") ∷ []

abbrev libs : Libs
libs = record {
  field = record {
    to_valid = λ s. s;
    lower = λ s. s;
    parse_addr = λ s. some s;
    parse_float = λ s. none;
  };
  json = record {
    read_object = λ s. if bytes_eq s (codes "fw") then some fields else none;
    read_string = λ s. some (unquoted s);
    read_strings = λ s. none;
    read_cloud_trail = λ s. ([], []);
    write_object = λ fields. codes "{}";
    write_message = λ s. codes "{}";
  };
  raw = record {
    is_utf8 = λ s. true;
    decode = λ s. some (atom s);
    encode = λ j. some (codes "{}");
  };
  times = record { parse_rfc3339 = λ s. none; is_stamp = λ s. true };
  cloud_order = [];
}

abbrev quiet : Database
quiet = record {
  begin = λ n. none;
  commit = λ n. acknowledged;
  set_scope = λ n. none;
  insert = λ n scope ev. none;
  filter_tenants = λ n ids. inr ids;
}

abbrev services : Services
services = record { enforcer = enforcer; libs = libs; retention = pos 0; now = 1000; db = quiet }

abbrev collector : Caller
collector = record { role = Role.collector; tenant = []; user_id = pos 0 }

abbrev request : Request
request = record {
  caller = collector;
  has_media_type = true;
  body = record { bytes = codes "fw\nbad\n\nfw\n"; failure = none };
}

abbrev empty_session : Session
empty_session = record { sent = 0; rows = []; scope = record { tenant_id = []; is_admin = false } }

abbrev stored_event : Event
stored_event = record empty_event {
  ts = 1000;
  tenant_id = codes "acme";
  source = codes "aws";
  vendor = some (codes "aws");
  product = some (codes "cloudtrail");
  raw = codes "fw";
}

abbrev session_after : Session
session_after = record {
  sent = 8;
  rows = stored_event ∷ stored_event ∷ [];
  scope = record { tenant_id = codes "acme"; is_admin = false };
}

abbrev result_after : IngestResult
result_after = record {
  accepted = 2;
  rejected = 1;
  errors = record { index = 1; code = "invalid_json" } ∷ [];
}

abbrev answer_after : Answer
answer_after = ok (result_after, (codes "acme", codes "aws") ∷ (codes "acme", codes "aws") ∷ [])

two_of_three : ingest services batch request empty_session ≡ some (session_after, answer_after)
unfolding ingest loghub.Authz.has_grant loghub.Batch.result loghub.Batch.count_ingested
    loghub.Batch.merge
two_of_three = refl

ingest-IsAnswered_example :
    (2 ≡ 0 + 2)
    × (count
          (λ ev. not (can enforcer collector Resource.events Action.create ev.tenant_id))
          session_after.rows
        ≡ 0)
ingest-IsAnswered_example =
    ingest-IsAnswered services batch request empty_session (session_after, answer_after)
      two_of_three
