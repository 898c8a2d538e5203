-- ===== src/Batch/Outcome.antt =====
-- What a batch holds after its records are delivered, said without the batch.
use mathlib.Core.List.{append-nil, append_assoc, map-append}
use loghub.Common.{
  ℕ, zero, suc, String, ◌+◌, ◌≤◌, ◌≡◌, refl, sym, ap, ◌∙◌, inl, inr, Bool, List, [], ◌∷◌, ◌++◌,
  Option, none, some, map, arith, ltb, if◌then◌else◌, Bool-cases, length, take, length-append,
  Bytes,
}
use loghub.Errors.{Error}
use loghub.Event.{Event}
use loghub.Authz.{tenant_not_permitted}
use loghub.Batch.{
  max_reported, Rejection, rejection, Batch, start, bump, count, report, reject, add, merge_late,
  sort_by_index, merged, merge, Delivery, bad, good, deliver, deliver_all,
}
use loghub.Batch.Merge.{IsSorted, sort_of_IsSorted, take-sort}

-- what a record is rejected with before the insert
abbrev pub rejected_early : (Bytes → Bool) → Delivery → List Rejection
rejected_early may (bad index e) = rejection index e ∷ []
rejected_early may (good index ev) =
    if may ev.tenant_id then [] else rejection index tenant_not_permitted ∷ []

abbrev pub early : (Bytes → Bool) → List Delivery → List Rejection
early may [] = []
early may (d ∷ ds) = rejected_early may d ++ early may ds

-- the events that go to the insert, with their lines
abbrev pub queued : (Bytes → Bool) → List Delivery → List (ℕ × Event)
queued may [] = []
queued may (bad index e ∷ ds) = queued may ds
queued may (good index ev ∷ ds) =
    let rest = queued may ds in if may ev.tenant_id then (index, ev) ∷ rest else rest

-- what the insert turns away
abbrev pub late : List ℕ → List (Option Error) → List Rejection
late (line ∷ lines) (none ∷ refused) = late lines refused
late (line ∷ lines) (some e ∷ refused) = rejection line e ∷ late lines refused
late _ _ = []

take-snoc {ℓ} :
    {A : Type ℓ} (n : ℕ) (xs : List A) (r : A)
    → (if ltb (length (take n xs)) n then take n xs ++ r ∷ [] else take n xs)
      ≡ take n (xs ++ r ∷ [])
take-snoc zero xs r = refl
take-snoc (suc zero) [] r = refl
take-snoc (suc (suc n)) [] r = ground arith
take-snoc (suc n) (x ∷ xs) r = ground (arith, take-snoc n xs r)

report-take :
    (past : List Rejection) (r : Rejection)
    → report (take max_reported past) r ≡ take max_reported (past ++ r ∷ [])
unfolding report
report-take past r = take-snoc max_reported past r

abbrev pub total : List (String × ℕ) → ℕ
total [] = 0
total ((k, n) ∷ codes) = n + total codes

total-bump : (code : String) (codes : List (String × ℕ)) → total (bump code codes) ≡ total codes + 1
unfolding bump
total-bump code [] = refl
total-bump code ((k, n) ∷ codes) = ground (arith, total-bump code codes)

-- The state after some deliveries: which records stand in it, of those in `ds` so far.
pub record Holds (may : Bytes → Bool) (b : Batch) (past : List Rejection) (ready : List (ℕ × Event))
    : Type 0 where
  pub events : b.events ≡ map (λ q. q.1) ready
  pub lines : b.lines ≡ map (λ q. q.0) ready
  pub rejected : b.rejected ≡ length past
  pub refused : b.refused ≡ 0
  pub codes : total b.codes ≡ b.rejected
  pub reported : b.reported ≡ take max_reported past

module _ (may : Bytes → Bool) where
  reject-Holds :
      {b : Batch} (past : List Rejection) (ready : List (ℕ × Event)) (index : ℕ) (e : Error)
      → Holds may b past ready
      → Holds may (reject b index e) (past ++ rejection index e ∷ []) ready
  unfolding reject count
  reject-Holds {b} past ready index e h =
      let r = rejection index e in
      record {
        events = h.events;
        lines = h.lines;
        rejected = omega (arith, h.rejected, length-append past (r ∷ []));
        refused = h.refused;
        codes = omega (arith, h.codes, total-bump r.code b.codes);
        reported = rw h.reported (report-take past r);
      }

  queue-Holds :
      {b : Batch} (past : List Rejection) (ready : List (ℕ × Event)) (index : ℕ) (ev : Event)
      → Holds may b past ready
      → Holds may
          (record b { events = b.events ++ ev ∷ []; lines = b.lines ++ index ∷ [] })
          past
          (ready ++ (index, ev) ∷ [])
  queue-Holds past ready index ev h = record {
    events = rw (map-append, h.events);
    lines = rw (map-append, h.lines);
    rejected = h.rejected;
    refused = h.refused;
    codes = h.codes;
    reported = h.reported;
  }

  deliver-Holds :
      {b : Batch} (past : List Rejection) (ready : List (ℕ × Event)) (d : Delivery)
      → Holds may b past ready
      → Holds may (deliver may b d) (past ++ rejected_early may d) (ready ++ queued may (d ∷ []))
  unfolding deliver add
  deliver-Holds past ready (bad index e) h = rw append-nil (reject-Holds past ready index e h)
  deliver-Holds past ready (good index ev) h = elim (Bool-cases (may ev.tenant_id)) [
    | inl may_write ↦ rw may_write (simp append-nil (queue-Holds past ready index ev h))
    | inr may_not ↦
        rw may_not (simp append-nil (reject-Holds past ready index tenant_not_permitted h))
  ]

  queued-cons :
      (d : Delivery) (ds : List Delivery)
      → queued may (d ∷ ds) ≡ queued may (d ∷ []) ++ queued may ds
  queued-cons (bad index e) ds = refl
  queued-cons (good index ev) ds = ground arith

  pub deliver_all-Holds :
      (ds : List Delivery) {b : Batch} (past : List Rejection) (ready : List (ℕ × Event))
      → Holds may b past ready
      → Holds may (deliver_all may b ds) (past ++ early may ds) (ready ++ queued may ds)
  unfolding deliver_all
  deliver_all-Holds [] past ready h = simp append-nil h
  deliver_all-Holds (d ∷ ds) {b} past ready h =
      let next =
        deliver_all-Holds ds (past ++ rejected_early may d) (ready ++ queued may (d ∷ []))
          (deliver-Holds past ready d h) in
      rw (queued-cons d ds) (simp append_assoc at next)

  start-Holds : Holds may start [] []
  start-Holds = record {
    events = refl;
    lines = refl;
    rejected = refl;
    refused = refl;
    codes = refl;
    reported = refl;
  }

-- What `merge_late` adds: the totals, and the report of the late rejections.
merge_late_lem :
    (lines : List ℕ) (refused : List (Option Error)) (b : Batch) (past : List Rejection)
    → let out = merge_late lines refused b (take max_reported past) in
      (out.1 ≡ take max_reported (past ++ late lines refused))
      × (out.0.rejected ≡ b.rejected + length (late lines refused))
      × (out.0.refused ≡ b.refused + length (late lines refused))
      × (out.0.events ≡ b.events)
      × (out.0.reported ≡ b.reported)
      × (total out.0.codes ≡ total b.codes + length (late lines refused))
unfolding merge_late count
merge_late_lem [] refused b past =
    (simp append-nil, omega arith, omega arith, refl, refl, omega arith)
merge_late_lem (line ∷ lines) [] b past =
    (simp append-nil, omega arith, omega arith, refl, refl, omega arith)
merge_late_lem (line ∷ lines) (none ∷ refused) b past = merge_late_lem lines refused b past
merge_late_lem (line ∷ lines) (some e ∷ refused) b past =
    let r = rejection line e in
    let (reported, rejected, turned_away, events, kept, codes) =
      merge_late_lem lines refused
        (record b {
          rejected = b.rejected + 1;
          codes = bump r.code b.codes;
          refused = b.refused + 1;
        })
        (past ++ r ∷ []) in
    rw (report-take past r, merge_late)
      (
        simp append_assoc at reported,
        omega (arith, rejected),
        omega (arith, turned_away),
        events,
        kept,
        omega (arith, codes, total-bump r.code b.codes),
      )

-- The refusals are at most as many as the events, since there is one answer for each line.
pub length-late :
    (lines : List ℕ) (refused : List (Option Error)) → length (late lines refused) ≤ length lines
length-late [] refused = omega arith
length-late (line ∷ lines) [] = omega arith
length-late (line ∷ lines) (none ∷ refused) = omega (arith, length-late lines refused)
length-late (line ∷ lines) (some e ∷ refused) = omega (arith, length-late lines refused)

merged_lem :
    (xs ys : List Rejection)
    → IsSorted xs
    → IsSorted ys
    → merged (take max_reported xs) (take max_reported ys)
      ≡ take max_reported (sort_by_index (xs ++ ys))
merged_lem xs [] h k = rw (append-nil, sort_of_IsSorted xs h)
merged_lem xs (y ∷ ys) h k = take-sort max_reported xs (y ∷ ys) h k

module _ (may : Bytes → Bool) (ds : List Delivery) where
  abbrev pub delivered : Batch
  delivered = deliver_all may start ds

  pub final : Holds may delivered (early may ds) (queued may ds)
  final = deliver_all-Holds may ds [] [] (start-Holds may)

  -- The lines of the events that the batch sends to the insert.
  abbrev pub queued_lines : List ℕ
  queued_lines = map (λ q. q.0) (queued may ds)

  pub merge-reported :
      (refused : List (Option Error))
      → IsSorted (early may ds)
      → IsSorted (late queued_lines refused)
      → (merge delivered refused).reported
        ≡ take max_reported (sort_by_index (early may ds ++ late queued_lines refused))
  unfolding merge
  merge-reported refused h k =
      let (found, _, _, _, kept, _) = merge_late_lem delivered.lines refused delivered [] in
      rw (kept, found, final.reported, final.lines)
        (merged_lem (early may ds) (late queued_lines refused) h k)

  pub merge-totals :
      (refused : List (Option Error))
      → let b = merge delivered refused in
        (b.rejected ≡ length (early may ds) + length (late queued_lines refused))
        × (b.refused ≡ length (late queued_lines refused))
        × (b.events ≡ map (λ q. q.1) (queued may ds))
        × (total b.codes ≡ b.rejected)
  unfolding merge
  merge-totals refused =
      let (_, rejected, turned_away, events, _, codes) =
        merge_late_lem delivered.lines refused delivered [] in
      let same = ap (λ lines. length (late lines refused)) final.lines in
      (
        rejected ∙ omega (arith, same, final.rejected),
        turned_away ∙ omega (arith, same, final.refused),
        events ∙ final.events,
        codes ∙ ap (λ n. n + length (late delivered.lines refused)) final.codes ∙ sym rejected,
      )
