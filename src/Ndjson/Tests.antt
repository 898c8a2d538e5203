-- ===== src/Ndjson/Tests.antt =====
-- A run of an NDJSON request, and each theorem about it at a concrete input.
use loghub.Common.{
  ℕ, ◌+◌, ◌≡◌, refl, ◌⊎◌, Bool, true, false, List, [], ◌∷◌, ◌++◌, Option, none, some, if◌then◌else◌,
  length, take, Bytes, codes, bytes_eq, trim_space,
}
use loghub.Errors.{Error, Result, ok, err, new_error, invalid}
use loghub.Event.{Event}
use loghub.Batch.{
  max_reported, start, sort_by_index, deliver_all, store, merge, result, count_ingested,
}
use loghub.Batch.Outcome.{early, late, queued_lines}
use loghub.Ndjson.{Body, each_record, ingest_ndjson}
use loghub.Ndjson.Lines.{each_record-body_of}
use loghub.Ndjson.Report.{deliveries, ingest_ndjson_accounts, ingest_ndjson-errors}

abbrev event_of : Bytes → Event
event_of tenant = record {
  ts = 0;
  tenant_id = tenant;
  source = codes "api";
  vendor = none;
  product = none;
  event_type = none;
  event_subtype = none;
  severity = none;
  action = none;
  src_ip = none;
  src_port = none;
  dst_ip = none;
  dst_port = none;
  protocol = none;
  user_name = none;
  host = none;
  process = none;
  url = none;
  http_method = none;
  status_code = none;
  rule_name = none;
  rule_id = none;
  cloud_account_id = none;
  cloud_region = none;
  cloud_service = none;
  raw = [];
  tags = [];
}

-- A normalizer that reads a record as its tenant, and refuses "bad".
abbrev by_name : Bytes → Result Event
by_name r =
    if bytes_eq r (codes "bad") then err (new_error invalid "invalid_json") else ok (event_of r)

abbrev may_write : Bytes → Bool
may_write tenant = if bytes_eq tenant (codes "other") then false else true

-- An insert that turns the first event away.
abbrev first_refused : List Event → Result (List (Option Error))
first_refused [] = ok []
first_refused (ev ∷ events) = ok (some (new_error invalid "unknown_tenant") ∷ [])

abbrev request : Body
request = record { bytes = codes "a\r\n\nbad\nother\n b"; failure = none }

answer :
    ingest_ndjson by_name may_write first_refused request
    ≡ ok (
      record {
        accepted = 1;
        rejected = 3;
        errors =
            record { index = 0; code = "unknown_tenant" }
            ∷ record { index = 2; code = "invalid_json" }
            ∷ record { index = 3; code = "tenant_not_permitted" }
            ∷ [];
      },
      (codes "b", codes "api") ∷ [],
    )
unfolding ingest_ndjson each_record store deliver_all trim_space bytes_eq result count_ingested
    merge
answer = refl

-- A body that breaks off is not stored.
broken :
    ingest_ndjson by_name may_write first_refused
      (record { bytes = codes "a\nb"; failure = some (new_error invalid "x") })
    ≡ err (new_error invalid "x")
unfolding ingest_ndjson
broken = refl

-- A line with a carriage return, a blank one, and a rest.
abbrev two_lines : List Bytes
two_lines = codes "a\r" ∷ [] ∷ []

each_record-body_of_example :
    each_record (record { bytes = codes "a\r\n\nb"; failure = none })
    ≡ (0, some (codes "a")) ∷ (2, some (codes "b")) ∷ []
unfolding loghub.Ndjson.trim_cr trim_space
each_record-body_of_example =
    each_record-body_of two_lines (codes "b") none
      (((λ e. absurd cc), ((λ e. absurd cc), tt)), (tt, tt)) ((λ e. absurd cc), tt)

ingest_ndjson_accounts_example :
    (request.failure ≡ none) × (1 + 3 ≡ length (each_record request)) × (◌≡◌ {A = ℕ} 1 1)
ingest_ndjson_accounts_example =
    ingest_ndjson_accounts by_name may_write first_refused request answer

ingest_ndjson-errors_example :
    (refused : List (Option Error)) × ((((deliver_all may_write start
            (deliveries by_name request)).events
          ≡ [])
        × (refused ≡ []))
      ⊎ (first_refused (deliver_all may_write start (deliveries by_name request)).events
          ≡ ok refused))
    × ((record { index = 0; code = "unknown_tenant" }
          ∷ record { index = 2; code = "invalid_json" }
          ∷ record { index = 3; code = "tenant_not_permitted" }
          ∷ [])
        ≡ take max_reported (
            sort_by_index (
              early may_write (deliveries by_name request)
              ++ late (queued_lines may_write (deliveries by_name request)) refused)))
ingest_ndjson-errors_example = ingest_ndjson-errors by_name may_write first_refused request answer
