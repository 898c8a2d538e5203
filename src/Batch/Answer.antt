-- ===== src/Batch/Answer.antt =====
-- What the handler answers for the records of a request, on every path of `store`.
use mathlib.Core.List.{append-nil}
use loghub.Common.{
  length-map, ℕ, ◌+◌, ◌≤◌, ◌≡◌, refl, sym, ap, ◌∙◌, ◌⊎◌, inl, inr, Bool, true, List, [], ◌∷◌, ◌++◌,
  Option, none, some, map, arith, Bool-cases, length, take, All, Bytes,
}
use loghub.Errors.{Error, Result, ok, err}
use loghub.Event.{Event}
use loghub.Batch.{
  max_reported, Batch, start, sort_by_index, merge, IngestResult, result, count_ingested, Delivery,
  bad, good, deliver_all, store,
}
use loghub.Batch.Merge.{IsSorted, sort_of_IsSorted}
use loghub.Batch.Outcome.{
  early, queued, late, length-late, queued_lines, delivered, final, merge-reported, merge-totals,
}

abbrev pub line_of : Delivery → ℕ
line_of (bad index e) = index
line_of (good index ev) = index

-- The records come in the order of their lines.
abbrev pub InOrder : List Delivery → Type 0
InOrder [] = Unit
InOrder (d ∷ ds) = All (λ e. line_of d ≤ line_of e) ds × InOrder ds

module _ (may : Bytes → Bool) where
  early-above :
      (i : ℕ) (ds : List Delivery)
      → All (λ e. i ≤ line_of e) ds
      → All (λ r. i ≤ r.index) (early may ds)
  early-above i [] h = tt
  early-above i (bad index e ∷ ds) (p, h) = (p, early-above i ds h)
  early-above i (good index ev ∷ ds) (p, h) = ground (arith, early-above i ds h)

  pub early-IsSorted : (ds : List Delivery) → InOrder ds → IsSorted (early may ds)
  early-IsSorted [] h = tt
  early-IsSorted (bad index e ∷ ds) (p, h) = (early-above index ds p, early-IsSorted ds h)
  early-IsSorted (good index ev ∷ ds) (p, h) =
      ground (arith, early-above index ds p, early-IsSorted ds h)

  late-above :
      (i : ℕ) (ds : List Delivery) (refused : List (Option Error))
      → All (λ e. i ≤ line_of e) ds
      → All (λ r. i ≤ r.index) (late (queued_lines may ds) refused)
  late-above i [] refused h = tt
  late-above i (bad index e ∷ ds) refused (p, h) = late-above i ds refused h
  late-above i (good index ev ∷ ds) [] (p, h) = ground (arith, late-above i ds [] h)
  late-above i (good index ev ∷ ds) (none ∷ refused) (p, h) =
      ground (arith, late-above i ds refused h, late-above i ds (none ∷ refused) h)
  late-above i (good index ev ∷ ds) (some e ∷ refused) (p, h) =
      ground (arith, late-above i ds refused h, late-above i ds (some e ∷ refused) h)

  pub late-IsSorted :
      (ds : List Delivery) (refused : List (Option Error))
      → InOrder ds
      → IsSorted (late (queued_lines may ds) refused)
  late-IsSorted [] refused h = tt
  late-IsSorted (bad index e ∷ ds) refused (p, h) = late-IsSorted ds refused h
  late-IsSorted (good index ev ∷ ds) [] (p, h) = ground (arith, late-IsSorted ds [] h)
  late-IsSorted (good index ev ∷ ds) (none ∷ refused) (p, h) =
      ground (arith, late-IsSorted ds refused h, late-IsSorted ds (none ∷ refused) h)
  late-IsSorted (good index ev ∷ ds) (some e ∷ refused) (p, h) = ground (
    arith,
    late-above index ds refused p,
    late-IsSorted ds refused h,
    late-IsSorted ds (some e ∷ refused) h,
  )

  length-early-queued :
      (ds : List Delivery) → length (early may ds) + length (queued may ds) ≡ length ds
  length-early-queued [] = refl
  length-early-queued (bad index e ∷ ds) = omega (arith, length-early-queued ds)
  length-early-queued (good index ev ∷ ds) = ground (arith, length-early-queued ds)

  queued-may :
      (ds : List Delivery) → All (λ ev. may ev.tenant_id ≡ true) (map (λ q. q.1) (queued may ds))
  queued-may [] = tt
  queued-may (bad index e ∷ ds) = queued-may ds
  queued-may (good index ev ∷ ds) = elim (Bool-cases (may ev.tenant_id)) [
    | inl fine ↦ rw fine (fine, queued-may ds)
    | inr other ↦ rw other (queued-may ds)
  ]

  -- Whatever is delivered, every event that a batch holds for the insert is of a tenant that the
  -- caller may write to.
  pub deliver_all-may :
      (ds : List Delivery) → All (λ ev. may ev.tenant_id ≡ true) (deliver_all may start ds).events
  deliver_all-may ds = rw (final may ds).events (queued-may ds)

late_no_answers : (lines : List ℕ) → late lines [] ≡ []
late_no_answers [] = refl
late_no_answers (line ∷ lines) = refl

late-nil : (lines : List ℕ) → length (late lines []) ≡ 0
late-nil [] = refl
late-nil (line ∷ lines) = refl

length-count_ingested :
    (lines : List ℕ) (events : List Event) (refused : List (Option Error))
    → length lines ≡ length events
    → length (count_ingested events refused) + length (late lines refused) ≡ length events
unfolding count_ingested
length-count_ingested [] [] refused h = refl
length-count_ingested [] (ev ∷ events) refused h = absurd (omega arith)
length-count_ingested (line ∷ lines) [] refused h = absurd (omega arith)
length-count_ingested (line ∷ lines) (ev ∷ events) [] h =
    omega (arith, length-count_ingested lines events [] (omega arith), late-nil lines)
length-count_ingested (line ∷ lines) (ev ∷ events) (none ∷ refused) h =
    omega (arith, length-count_ingested lines events refused (omega arith))
length-count_ingested (line ∷ lines) (ev ∷ events) (some e ∷ refused) h =
    omega (arith, length-count_ingested lines events refused (omega arith))

-- The two ways in which `store` answers: with no event to insert, or after an insert.
abbrev pub Answered :
    (List Event → Result (List (Option Error)))
    → Batch
    → IngestResult
    → List (Bytes × Bytes)
    → Type 0
Answered insert b res counted =
    ((b.events ≡ []) × (res ≡ result b) × (counted ≡ []))
    ⊎ ((refused : List (Option Error)) × (insert b.events ≡ ok refused)
        × (res ≡ result (merge b refused))
        × (counted ≡ count_ingested b.events refused))

module _ (insert : List Event → Result (List (Option Error))) (b : Batch) where
  store_at :
      (events : List Event) (answer : Result (List (Option Error))) {res : IngestResult}
      {counted : List (Bytes × Bytes)}
      → b.events ≡ events
      → insert b.events ≡ answer
      → store insert b ≡ ok (res, counted)
      → Answered insert b res counted
  unfolding store
  store_at [] answer p q h = inl (p, ground arith, ground arith)
  store_at (ev ∷ more) (err e) p q h = absurd (ground arith)
  store_at (ev ∷ more) (ok refused) p q h = inr (refused, q, ground arith, ground arith)

  pub store-Answered :
      {res : IngestResult} {counted : List (Bytes × Bytes)}
      → store insert b ≡ ok (res, counted)
      → Answered insert b res counted
  store-Answered h = store_at b.events (insert b.events) refl refl h

module _ (may : Bytes → Bool) (insert : List Event → Result (List (Option Error)))
    (ds : List Delivery) where
  queued_lines-nil : late (queued_lines may ds) [] ≡ []
  queued_lines-nil = late_no_answers (queued_lines may ds)

  after_insert :
      (refused : List (Option Error)) {counted : List (Bytes × Bytes)} {accepted rejected : ℕ}
      → counted ≡ count_ingested (delivered may ds).events refused
      → accepted ≡ (result (merge (delivered may ds) refused)).accepted
      → rejected ≡ (result (merge (delivered may ds) refused)).rejected
      → length (delivered may ds).events ≡ length (queued may ds)
      → length (delivered may ds).lines ≡ length (queued may ds)
      → (accepted + rejected ≡ length ds) × (length counted ≡ accepted)
  unfolding result
  after_insert refused c a r sent lined =
      let b = delivered may ds in
      let (rejected, turned_away, events, _) = merge-totals may ds refused in
      let kept = ap length events ∙ length-map (λ q. q.1) (queued may ds) in
      let lines = ap (λ ls. length (late ls refused)) (final may ds).lines in
      let few = length-late b.lines refused in
      let uncounted = length-count_ingested b.lines b.events refused (lined ∙ sym sent) in
      let sum = length-early-queued may ds in
      (
        omega (arith, a, r, rejected, turned_away, kept, lines, few, lined, sum),
        ap length c ∙ omega (arith, a, turned_away, kept, lines, uncounted, sent),
      )

  -- Where the request is answered, each record is counted once: the accepted and the rejected add
  -- up to the records delivered, and as many events are counted as ingested as are accepted.
  pub store_accounts :
      {res : IngestResult} {counted : List (Bytes × Bytes)}
      → store insert (deliver_all may start ds) ≡ ok (res, counted)
      → (res.accepted + res.rejected ≡ length ds) × (length counted ≡ res.accepted)
  unfolding result
  store_accounts {res} {counted} h =
      let b = delivered may ds in
      let f = final may ds in
      let sent : length b.events ≡ length (queued may ds) =
        ap length f.events ∙ length-map (λ q. q.1) (queued may ds) in
      let lined : length b.lines ≡ length (queued may ds) =
        ap length f.lines ∙ length-map (λ q. q.0) (queued may ds) in
      let sum = length-early-queued may ds in
      elim (store-Answered insert b h) [
        | inl (nothing, r, c) ↦
            let accepted = ap (λ x. IngestResult.accepted x) r in
            let rejected = ap (λ x. IngestResult.rejected x) r in
            let empty = ap length nothing in
            let uncounted = ap length c in
            (
              omega (arith, accepted, rejected, empty, sent, sum, f.rejected, f.refused),
              omega (arith, accepted, empty, uncounted),
            )
        | inr (refused, q, r, c) ↦
            after_insert refused c (ap (λ x. IngestResult.accepted x) r)
              (ap (λ x. IngestResult.rejected x) r) sent lined
      ]

  -- Where the request is answered and its records came in the order of their lines, the errors
  -- listed are the first 100, by line, of all rejections: those made before the insert and those
  -- that the insert made.
  pub store-errors :
      {res : IngestResult} {counted : List (Bytes × Bytes)}
      → InOrder ds
      → store insert (deliver_all may start ds) ≡ ok (res, counted)
      → (refused : List (Option Error)) × ((((deliver_all may start ds).events ≡ [])
            × (refused ≡ []))
          ⊎ (insert (deliver_all may start ds).events ≡ ok refused))
        × (res.errors
            ≡ take max_reported
                (sort_by_index (early may ds ++ late (queued_lines may ds) refused)))
  unfolding result
  store-errors {res} {counted} order h =
      let b = delivered may ds in
      let f = final may ds in
      let before = early-IsSorted may ds order in
      elim (store-Answered insert b h) [
        | inl (nothing, r, c) ↦
            let none_late = queued_lines-nil in
            (
              [],
              inl (nothing, refl),
              ap (λ x. IngestResult.errors x) r
                  ∙ f.reported
                  ∙ rw (none_late, append-nil, sort_of_IsSorted (early may ds) before),
            )
        | inr (refused, q, r, c) ↦ (
          refused,
          inr q,
          ap (λ x. IngestResult.errors x) r
              ∙ merge-reported may ds refused before (late-IsSorted may ds refused order),
        )
      ]
