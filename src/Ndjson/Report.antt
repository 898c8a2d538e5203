-- ===== src/Ndjson/Report.antt =====
-- What an NDJSON request is answered with, from its body to the report.
use loghub.Common.{
  ℕ, ◌+◌, ◌≤◌, ◌≡◌, refl, ◌∙◌, ◌⊎◌, Bool, List, [], ◌∷◌, ◌++◌, Option, none, some, map, arith,
  length, length-map, take, All, All-append, Bytes, Option-cases, inl, inr,
}
use loghub.Errors.{Error, Result, ok, err}
use loghub.Event.{Event}
use loghub.Batch.{max_reported, start, sort_by_index, IngestResult, Delivery, deliver_all, store}
use loghub.Batch.Outcome.{early, late, queued_lines}
use loghub.Batch.Answer.{line_of, InOrder, store_accounts, store-errors}
use loghub.Ndjson.{
  Body, record_of, records_from, each_record, all_but_last, split_lines, outcome, delivery,
  ingest_ndjson,
}

abbrev Above : ℕ → List (ℕ × Option Bytes) → Type 0
Above i rs = All (λ r. i ≤ r.0) rs

abbrev Rising : List (ℕ × Option Bytes) → Type 0
Rising [] = Unit
Rising (r ∷ rs) = Above r.0 rs × Rising rs

records_from-Above :
    (i index : ℕ) (lines : List Bytes) → i ≤ index → Above i (records_from index lines)
unfolding records_from
records_from-Above i index [] h = tt
records_from-Above i index (line ∷ lines) h =
    All-append (λ r. i ≤ r.0) (record_of index line) (records_from (index + 1) lines) (ground arith)
      (records_from-Above i (index + 1) lines (omega arith))

-- at most one record, with the line's own index
Rising-append :
    (index : ℕ) (line : Bytes) (rs : List (ℕ × Option Bytes))
    → Above index rs
    → Rising rs
    → Rising (record_of index line ++ rs)
unfolding record_of
Rising-append index line rs h k = ground arith

records_from-Rising : (index : ℕ) (lines : List Bytes) → Rising (records_from index lines)
unfolding records_from
records_from-Rising index [] = tt
records_from-Rising index (line ∷ lines) =
    Rising-append index line (records_from (index + 1) lines)
      (records_from-Above index (index + 1) lines (omega arith))
      (records_from-Rising (index + 1) lines)

module _ (normalize : Bytes → Result Event) where
  line_of-delivery : (r : ℕ × Option Bytes) → line_of (delivery normalize r) ≡ r.0
  line_of-delivery (index, none) = refl
  line_of-delivery (index, some record') = line_of-outcome index (normalize record')
    where
      line_of-outcome : (i : ℕ) (res : Result Event) → line_of (outcome i res) ≡ i
      line_of-outcome i (ok ev) = refl
      line_of-outcome i (err e) = refl

  Above-deliveries :
      (i : ℕ) (rs : List (ℕ × Option Bytes))
      → Above i rs
      → All (λ d. i ≤ line_of d) (map (delivery normalize) rs)
  Above-deliveries i [] h = tt
  Above-deliveries i (r ∷ rs) (p, h) = (rw (line_of-delivery r) p, Above-deliveries i rs h)

  Rising-InOrder :
      (rs : List (ℕ × Option Bytes)) → Rising rs → InOrder (map (delivery normalize) rs)
  Rising-InOrder [] h = tt
  Rising-InOrder (r ∷ rs) (p, h) =
      (rw (line_of-delivery r) (Above-deliveries r.0 rs p), Rising-InOrder rs h)

  abbrev pub deliveries : Body → List Delivery
  deliveries body = map (delivery normalize) (each_record body)

  ingest_ndjson-ok :
      (may : Bytes → Bool) (insert : List Event → Result (List (Option Error))) (body : Body)
      {out : IngestResult × List (Bytes × Bytes)}
      → ingest_ndjson normalize may insert body ≡ ok out
      → (body.failure ≡ none) × (store insert (deliver_all may start (deliveries body)) ≡ ok out)
  unfolding ingest_ndjson
  ingest_ndjson-ok may insert body h = elim (Option-cases body.failure) [
    | inl whole ↦ (whole, ground arith)
    | inr (e, broken) ↦ absurd (ground arith)
  ]

  deliveries-InOrder : (body : Body) → InOrder (deliveries body)
  unfolding each_record
  deliveries-InOrder body = elim (Option-cases body.failure) [
    | inl whole ↦ rw whole (Rising-InOrder _ (records_from-Rising 0 (split_lines body.bytes)))
    | inr (e, broken) ↦
        rw broken (Rising-InOrder _ (records_from-Rising 0 (all_but_last (split_lines body.bytes))))
  ]

  -- An NDJSON request that is answered was read whole, counts each of its records once, as accepted
  -- or as rejected, and counts as ingested as many events as it accepts.
  pub ingest_ndjson_accounts :
      (may : Bytes → Bool) (insert : List Event → Result (List (Option Error))) (body : Body)
      {res : IngestResult} {counted : List (Bytes × Bytes)}
      → ingest_ndjson normalize may insert body ≡ ok (res, counted)
      → (body.failure ≡ none)
        × (res.accepted + res.rejected ≡ length (each_record body))
        × (length counted ≡ res.accepted)
  ingest_ndjson_accounts may insert body h =
      let (whole, stored) = ingest_ndjson-ok may insert body h in
      let (sum, counted) = store_accounts may insert (deliveries body) stored in
      (whole, sum ∙ length-map (delivery normalize) (each_record body), counted)

  -- The errors that an answered NDJSON request lists are the first 100, by line, of all its
  -- rejections: those made before the insert, and those that the insert made of the queued events.
  pub ingest_ndjson-errors :
      (may : Bytes → Bool) (insert : List Event → Result (List (Option Error))) (body : Body)
      {res : IngestResult} {counted : List (Bytes × Bytes)}
      → ingest_ndjson normalize may insert body ≡ ok (res, counted)
      → let ds = deliveries body in
        let events = (deliver_all may start ds).events in
        (refused : List (Option Error)) × (((events ≡ []) × (refused ≡ []))
          ⊎ (insert events ≡ ok refused))
        × (res.errors
            ≡ take max_reported
                (sort_by_index (early may ds ++ late (queued_lines may ds) refused)))
  ingest_ndjson-errors may insert body h =
      store-errors may insert (deliveries body) (deliveries-InOrder body)
        (ingest_ndjson-ok may insert body h).1
