-- ===== src/Batch.antt =====
-- backend/internal/api/ingest.go: the batch that collects what became of each record of a request,
-- and the handler that stores it. The normalizer and the insert are parameters; `may` is what the
-- policies let the caller write to. Messages are left out of a rejection, as they are of an error.
pub mod Merge
pub mod Outcome
pub mod Answer
use text.Mathlib.Text.{◌==◌ as str_eq}
use loghub.Common.{
  ℕ, suc, String, ◌+◌, ◌-◌, Bool, true, false, List, [], ◌∷◌, ◌++◌, Option, none, some, leb, ltb,
  ◌==◌, if◌then◌else◌, length, take, Bytes,
}
use loghub.Errors.{Error, Result, ok, err}
use loghub.Event.{Event}
use loghub.Authz.{tenant_not_permitted}

abbrev pub max_reported : ℕ
max_reported = 100

-- `gen.IngestRejection`
pub record Rejection : Type 0 where
  pub index : ℕ
  pub code : String

pub record Batch : Type 0 where
  pub events : List Event
  pub lines : List ℕ
  pub rejected : ℕ
  pub refused : ℕ
  pub codes : List (String × ℕ)
  pub reported : List Rejection

-- what `startBatch` returns for a caller that may create events
abbrev pub start : Batch
start = record { events = []; lines = []; rejected = 0; refused = 0; codes = []; reported = [] }

abbrev pub rejection : ℕ → Error → Rejection
rejection index e = record { index = index; code = e.code }

-- `b.codes[code]++`
unfoldable pub bump : String → List (String × ℕ) → List (String × ℕ)
bump code [] = (code, 1) ∷ []
bump code ((k, n) ∷ codes) = if str_eq k code then (k, n + 1) ∷ codes else (k, n) ∷ bump code codes

-- `count`: the totals after one more rejection
unfoldable pub count : Batch → Rejection → Batch
count b r = record b { rejected = b.rejected + 1; codes = bump r.code b.codes }

-- `if len(reported) < maxReported { reported = append(reported, r) }`
unfoldable pub report : List Rejection → Rejection → List Rejection
report reported r = if ltb (length reported) max_reported then reported ++ r ∷ [] else reported

unfoldable pub reject : Batch → ℕ → Error → Batch
unfolding count report
reject b index e =
    let r = rejection index e in
    let counted = count b r in record counted { reported = report b.reported r }

unfoldable pub add : (Bytes → Bool) → Batch → ℕ → Event → Batch
unfolding reject
add may b index ev =
    if may ev.tenant_id
    then record b { events = b.events ++ ev ∷ []; lines = b.lines ++ index ∷ [] }
    else reject b index tenant_not_permitted

-- the loop of `merge`, over the lines of the events and what the insert says of each
unfoldable pub merge_late :
    List ℕ → List (Option Error) → Batch → List Rejection → Batch × List Rejection
unfolding count report
merge_late (line ∷ lines) (none ∷ refused) b late = merge_late lines refused b late
merge_late (line ∷ lines) (some e ∷ refused) b late =
    let r = rejection line e in
    let counted = count b r in
    merge_late lines refused (record counted { refused = b.refused + 1 }) (report late r)
merge_late _ _ b late = (b, late)

-- `slices.SortFunc` by index. The indexes of a request's rejections differ, so every sort gives
-- this order.
unfoldable pub insert_by_index : Rejection → List Rejection → List Rejection
insert_by_index r [] = r ∷ []
insert_by_index r (s ∷ rs) = if leb r.index s.index then r ∷ s ∷ rs else s ∷ insert_by_index r rs

unfoldable pub sort_by_index : List Rejection → List Rejection
unfolding insert_by_index
sort_by_index [] = []
sort_by_index (r ∷ rs) = insert_by_index r (sort_by_index rs)

abbrev merged : List Rejection → List Rejection → List Rejection
merged reported [] = reported
merged reported (r ∷ late) = take max_reported (sort_by_index (reported ++ r ∷ late))

unfoldable pub merge : Batch → List (Option Error) → Batch
unfolding merge_late sort_by_index
merge b refused =
    let (b', late) = merge_late b.lines refused b [] in
    record b' { reported = merged b'.reported late }

-- `gen.IngestResult`; `errors` is nil where nothing was rejected.
pub record IngestResult : Type 0 where
  pub accepted : ℕ
  pub rejected : ℕ
  pub errors : List Rejection

unfoldable pub result : Batch → IngestResult
result b = record {
  accepted = length b.events - b.refused;
  rejected = b.rejected;
  errors = b.reported;
}

-- `countBatch`: the tenants and sources of the events counted as ingested
unfoldable pub count_ingested : List Event → List (Option Error) → List (Bytes × Bytes)
count_ingested [] refused = []
count_ingested (ev ∷ events) [] = (ev.tenant_id, ev.source) ∷ count_ingested events []
count_ingested (ev ∷ events) (some e ∷ refused) = count_ingested events refused
count_ingested (ev ∷ events) (none ∷ refused) =
    (ev.tenant_id, ev.source) ∷ count_ingested events refused

-- What became of each record: too large, rejected by the normalizer, or an event.
pub data Delivery : Type 0 where
  bad : ℕ → Error → Delivery
  good : ℕ → Event → Delivery

unfoldable pub deliver : (Bytes → Bool) → Batch → Delivery → Batch
unfolding reject add
deliver may b (bad index e) = reject b index e
deliver may b (good index ev) = add may b index ev

-- the callback of `ingestNDJSON`, over the records in order
unfoldable pub deliver_all : (Bytes → Bool) → Batch → List Delivery → Batch
unfolding deliver
deliver_all may b [] = b
deliver_all may b (d ∷ ds) = deliver_all may (deliver may b d) ds

-- `store`: the answer and the events that are counted, or the insert's error and nothing.
unfoldable pub store :
    (List Event → Result (List (Option Error)))
    → Batch
    → Result (IngestResult × List (Bytes × Bytes))
store insert b = elim b.events [
  | [] ↦ ok (result b, [])
  | ev ∷ more ↦ elim (insert b.events) [
    | err e ↦ err e
    | ok refused ↦ ok (result (merge b refused), count_ingested b.events refused)
  ]
]
