-- ===== src/Ndjson.antt =====
-- backend/internal/api/ingest.go: `eachRecord`, and `ingestNDJSON` over it. A body is the bytes that
-- can be read and the error that ends them, if it is not the end of the body; the media type has
-- been checked. The buffer of the reader holds `max_record_bytes + 2` bytes.
pub mod Lines
pub mod Report
mod Tests
use mathlib.Core.List.{reverse}
use loghub.Common.{
  ℕ, suc, ◌+◌, Bool, true, false, List, [], ◌∷◌, ◌++◌, map, Option, none, some, leb, ltb, ◌==◌,
  ◌||◌, if◌then◌else◌, length, Bytes, trim_space,
}
use loghub.Errors.{Error, Result, ok, err, new_error, invalid}
use loghub.Event.{Event}
use loghub.Batch.{start, IngestResult, Delivery, bad, good, deliver_all, store}

abbrev pub max_record_bytes : ℕ
max_record_bytes = 1_048_576

pub record Body : Type 0 where
  pub bytes : Bytes
  pub failure : Option Error

abbrev pub in_front : ℕ → List Bytes → List Bytes
in_front c [] = (c ∷ []) ∷ []
in_front c (line ∷ lines) = (c ∷ line) ∷ lines

-- What the reader's calls for bytes up to a newline give, one after another, less the newline; what
-- stands behind the last newline comes last.
unfoldable pub split_lines : Bytes → List Bytes
split_lines [] = [] ∷ []
split_lines (c ∷ s) = let rest = split_lines s in if c == b'\n' then [] ∷ rest else in_front c rest

-- `bytes.TrimSuffix(line, "\r")`
unfoldable pub trim_cr : Bytes → Bytes
trim_cr [] = []
trim_cr (c ∷ []) = if c == 13 then [] else c ∷ []
trim_cr (c ∷ d ∷ s) = c ∷ trim_cr (d ∷ s)

-- One round of the loop, on a line that ends in a newline or at the end of the body: the record
-- passed to `fn`, if any, and `none` for nil.
unfoldable pub record_of : ℕ → Bytes → List (ℕ × Option Bytes)
unfolding trim_cr
record_of index segment =
    let too_long = leb (max_record_bytes + 2) (length segment) in
    let line = trim_cr segment in
    let record' = trim_space line in
    if too_long || ltb max_record_bytes (length line)
    then (index, none) ∷ []
    else if ltb 0 (length record')
    then (index, some record') ∷ []
    else []

unfoldable pub records_from : ℕ → List Bytes → List (ℕ × Option Bytes)
unfolding record_of
records_from index [] = []
records_from index (line ∷ lines) = record_of index line ++ records_from (index + 1) lines

abbrev pub all_but_last : List Bytes → List Bytes
all_but_last [] = []
all_but_last (line ∷ []) = []
all_but_last (line ∷ next ∷ lines) = line ∷ all_but_last (next ∷ lines)

-- `eachRecord`: the records passed to `fn`. A line that a read error cuts off is not.
unfoldable pub each_record : Body → List (ℕ × Option Bytes)
unfolding records_from split_lines
each_record body = elim body.failure [
  | none ↦ records_from 0 (split_lines body.bytes)
  | some e ↦ records_from 0 (all_but_last (split_lines body.bytes))
]

abbrev pub record_too_large : Error
record_too_large = new_error invalid "record_too_large"

-- the callback, as far as the batch sees it
abbrev pub outcome : ℕ → Result Event → Delivery
outcome index (ok ev) = good index ev
outcome index (err e) = bad index e

abbrev pub delivery : (Bytes → Result Event) → ℕ × Option Bytes → Delivery
delivery normalize (index, none) = bad index record_too_large
delivery normalize (index, some record') = outcome index (normalize record')

-- `ingestNDJSON`; the error of a body that cannot be read stands for the answer of `failRead`.
unfoldable pub ingest_ndjson :
    (Bytes → Result Event)
    → (Bytes → Bool)
    → (List Event → Result (List (Option Error)))
    → Body
    → Result (IngestResult × List (Bytes × Bytes))
ingest_ndjson normalize may insert body = elim body.failure [
  | some e ↦ err e
  | none ↦ store insert (deliver_all may start (map (delivery normalize) (each_record body)))
]
