-- ===== src/Counts/Timeline.antt =====
-- Timelines: the rows that the database counts, and the buckets made of them.
use loghub.Common.{
  ℕ, zero, suc, ◌+◌, ◌*◌, ◌/◌, List, [], ◌∷◌, ◌++◌, Option, none, some, ◌==◌, if◌then◌else◌, length,
  Bytes, codes,
}
use loghub.Errors.{Result, ok, err}
use loghub.Search.{second, EventFilter, EventQuery, TextLib, ReadScope, scoped_to, resolve_count}
use loghub.Search.Statement.{Value, Condition, Built, sql, param, time, count, conditions, join}
use loghub.Counts.{Picked, pick_interval}

pub record Bucket : Type 0 where
  pub start : ℕ
  pub count : ℕ

pub record Timeline : Type 0 where
  pub from : ℕ
  pub to : ℕ
  pub interval : Bytes
  pub buckets : List Bucket

-- `Time.UnixMicro`, counted from the zero time: the epoch is a whole number of microseconds later.
abbrev pub micro : ℕ → ℕ
micro t = t / 1000

abbrev pub or_row : ℕ → Bucket → Option ℕ → Option ℕ
or_row key row (some n) = some n
or_row key row none = if micro row.start == key then some row.count else none

-- `counts[key]`: of rows with the same key the last one stays in the map.
unfoldable pub row_count : List Bucket → ℕ → Option ℕ
row_count [] key = none
row_count (row ∷ rows) key = or_row key row (row_count rows key)

abbrev pub or_zero : Option ℕ → ℕ
or_zero none = 0
or_zero (some n) = n

unfoldable pub bucket_at : List Bucket → ℕ → Bucket
unfolding row_count
bucket_at rows start = record { start = start; count = or_zero (row_count rows (micro start)) }

-- The buckets from the one numbered `i` on.
unfoldable pub fill_buckets : List Bucket → ℕ → ℕ → ℕ → ℕ → List Bucket
unfolding bucket_at
fill_buckets rows first width i zero = []
fill_buckets rows first width i (suc n) =
    bucket_at rows (first + i * width) ∷ fill_buckets rows first width (i + 1) n

-- The seconds of the interval are a whole number.
abbrev pub timeline_select : Picked → Built → Condition × List Value
timeline_select p (args, conds) = (
  sql (codes "SELECT date_bin(make_interval(secs => ")
      ∷ param (length args + 1)
      ∷ sql (codes "), ts, ")
      ∷ param (length args + 2)
      ∷ sql (codes "::timestamptz) AS start, count(*) AS count\nFROM events\nWHERE ")
      ∷ (join conds ++ (sql (codes "\nGROUP BY 1") ∷ [])),
  (args ++ (count (p.interval.width / second) ∷ [])) ++ (time p.first ∷ []),
)

abbrev pub BucketRead : Type 0
BucketRead = ReadScope → Condition × List Value → Result (List Bucket)

abbrev pub counted : EventQuery → Picked → Result (List Bucket) → Result Timeline
unfolding fill_buckets
counted q p (err e) = err e
counted q p (ok rows) = ok (record {
  from = q.from;
  to = q.to;
  interval = p.interval.name;
  buckets = fill_buckets rows p.first p.interval.width 0 p.n;
})

abbrev pub timeline_picked : BucketRead → ReadScope → EventQuery → Result Picked → Result Timeline
unfolding conditions
timeline_picked read scope q (err e) = err e
timeline_picked read scope q (ok p) = counted q p (read scope (timeline_select p (conditions q)))

abbrev pub timeline_resolved : BucketRead → ReadScope → Bytes → Result EventQuery → Result Timeline
unfolding pick_interval
timeline_resolved read scope name (err e) = err e
timeline_resolved read scope name (ok q) =
    timeline_picked read scope q (pick_interval name q.from q.to)

-- `EventRepo.Timeline`
unfoldable pub timeline :
    TextLib → BucketRead → ReadScope → EventFilter → Bytes → ℕ → Result Timeline
unfolding scoped_to resolve_count
timeline lib read scope f name now =
    timeline_resolved read scope name (resolve_count lib (scoped_to f scope) now)
