-- ===== src/Counts/Buckets.antt =====
-- The counts of a timeline's buckets, against the events of its window.
use native.Mathlib.Nat.{mul-le-mul_right}
use mathlib.Core.Path.{subst}
use loghub.Common.{
  ℕ, zero, suc, ◌+◌, ◌*◌, ◌≤◌, ◌<◌, ◌≡◌, refl, ap, sym, ◌∙◌, ◌&&◌, List, [], ◌∷◌, arith, ltb, leb,
  if◌then◌else◌, length, Bytes, All, ◌/◌, ◌%◌, ◌==◌, any, Bool, true, false, Bool-cases, none, some,
  inl, inr, ◌⊎◌,
}
use loghub.Errors.{ok}
use loghub.Counts.{Picked, pick_interval}
use loghub.Counts.Chosen.{pick_interval-Covers, pick_interval-IsWidth}
use loghub.Counts.Timeline.{Bucket, micro, row_count, or_zero, bucket_at, fill_buckets}

-- How many of the times lie from `a` up to `b`, which is not in.
abbrev pub count_in : List ℕ → ℕ → ℕ → ℕ
count_in [] a b = 0
count_in (t ∷ ts) a b = (if leb a t && ltb t b then 1 else 0) + count_in ts a b

-- What Postgres documents of `date_bin`, `GROUP BY` and `count`: each row's start is that of a
-- bucket and its count how many of the times lie in the bucket, and where some lie there is a row.
abbrev pub IsDateBin : List ℕ → List Bucket → ℕ → ℕ → Type 0
IsDateBin ts rows first width =
    All
      (λ row.
        ((i : ℕ) × (row.start ≡ first + i * width))
        × (row.count ≡ count_in ts row.start (row.start + width)))
      rows
    × ((i : ℕ)
        → 0 < count_in ts (first + i * width) (first + i * width + width)
        → any (λ row. row.start == first + i * width) rows ≡ true)

-- The count that is looked up for each bucket is that of the times in it.
abbrev IsCounted : List ℕ → List Bucket → ℕ → ℕ → Type 0
IsCounted ts rows first width =
    (i : ℕ)
    → or_zero (row_count rows (micro (first + i * width)))
      ≡ count_in ts (first + i * width) (first + i * width + width)

abbrev IsMicroRow : List ℕ → ℕ → Bucket → Type 0
IsMicroRow ts width row =
    ((j : ℕ) × (row.start ≡ 1000 * j)) × (row.count ≡ count_in ts row.start (row.start + width))

micro_exact : (k : ℕ) → micro (1000 * k) ≡ k
micro_exact k = omega arith

-- The rows are found by their starts in microseconds.
row_count_cases :
    (ts : List ℕ) (width k : ℕ) (rows : List Bucket)
    → All (IsMicroRow ts width) rows
    → (row_count rows k ≡ some (count_in ts (1000 * k) (1000 * k + width)))
      ⊎ ((row_count rows k ≡ none) × (any (λ row. row.start == 1000 * k) rows ≡ false))
unfolding row_count
row_count_cases ts width k [] h = inr (refl, refl)
row_count_cases ts width k (row ∷ rows) (((j, start), count), h) =
    elim (row_count_cases ts width k rows h) [
      | inl found ↦ inl (rw found refl)
      | inr (missing, other) ↦
          (let here : micro row.start ≡ j = rw start (micro_exact j) in
            elim (Bool-cases (j == k)) [
              | inl same ↦
                  (let at : row.start ≡ 1000 * k = ground arith in
                    inl (rw missing (rw here (rw same (ap some (rw at at count))))))
              | inr differs ↦
                  (let away : (row.start == 1000 * k) ≡ false = ground arith in
                    inr (rw missing (rw here (rw differs refl)), rw away other))
            ])
    ]

micro_start :
    (first width i : ℕ)
    → first % 1000 ≡ 0
    → width % 1000 ≡ 0
    → first + i * width ≡ 1000 * (first / 1000 + i * (width / 1000))
micro_start first width i h k =
    let a : width ≡ 1000 * (width / 1000) = omega arith in
    let b : i * width ≡ 1000 * (i * (width / 1000)) = ap (λ w. i * w) a ∙ omega arith in omega arith

All-map :
    (P Q : Bucket → Type 0) (rows : List Bucket)
    → ((row : Bucket) → P row → Q row)
    → All P rows
    → All Q rows
All-map P Q [] f h = tt
All-map P Q (row ∷ rows) f (p, h) = (f row p, All-map P Q rows f h)

none_in : (n : ℕ) (found : Bool) → (0 < n → found ≡ true) → found ≡ false → 0 ≡ n
none_in zero found h unfound = refl
none_in (suc n) found h unfound = absurd (let yes = h (omega arith) in cc)

date_bin-IsCounted :
    (ts : List ℕ) (rows : List Bucket) (first width : ℕ)
    → first % 1000 ≡ 0
    → width % 1000 ≡ 0
    → IsDateBin ts rows first width
    → IsCounted ts rows first width
date_bin-IsCounted ts rows first width p q (each, some_row) i =
    let k = first / 1000 + i * (width / 1000) in
    let whole =
      All-map _ (IsMicroRow ts width) rows
        (λ row h.
          ((first / 1000 + h.0.0 * (width / 1000), h.0.1 ∙ micro_start first width h.0.0 p q), h.1))
        each in
    let start : first + i * width ≡ 1000 * k = micro_start first width i p q in
    rw start (
      rw (micro_exact k) (elim (row_count_cases ts width k rows whole) [
        | inl found ↦ rw found refl
        | inr (missing, none_here) ↦
            (let row =
                subst (λ a. 0 < count_in ts a (a + width) → any (λ row. row.start == a) rows ≡ true)
                  start (some_row i) in
              rw missing (none_in _ _ row none_here))
      ]))

abbrev pub total : List Bucket → ℕ
total [] = 0
total (b ∷ bs) = b.count + total bs

count_in_empty : (ts : List ℕ) (a : ℕ) → count_in ts a a ≡ 0
count_in_empty [] a = refl
count_in_empty (t ∷ ts) a = ground (arith, count_in_empty ts a)

count_in_split :
    (ts : List ℕ) (a b c : ℕ) → a ≤ b → b ≤ c → count_in ts a b + count_in ts b c ≡ count_in ts a c
count_in_split [] a b c h k = refl
count_in_split (t ∷ ts) a b c h k = ground (arith, count_in_split ts a b c h k)

count_in-All :
    (ts : List ℕ) (a b : ℕ) → All (λ t. (a ≤ t) × (t < b)) ts → count_in ts a b ≡ length ts
count_in-All [] a b h = refl
count_in-All (t ∷ ts) a b ((p, q), h) = ground (arith, count_in-All ts a b h)

far_end : (first width i n : ℕ) → first + i * width + width ≤ first + (i + 1 + n) * width
far_end first width i n =
    let m : (i + 1) * width ≤ (i + 1 + n) * width = mul-le-mul_right width (omega arith) in
    omega arith

total-fill :
    (ts : List ℕ) (rows : List Bucket) (first width i n : ℕ)
    → IsCounted ts rows first width
    → total (fill_buckets rows first width i n)
      ≡ count_in ts (first + i * width) (first + (i + n) * width)
unfolding fill_buckets bucket_at
total-fill ts rows first width i zero h =
    let here : i + 0 ≡ i = omega arith in rw here (sym (count_in_empty ts (first + i * width)))
total-fill ts rows first width i (suc n) h =
    let a = first + i * width in
    let b = first + i * width + width in
    let c = first + (i + 1 + n) * width in
    let next : first + (i + 1) * width ≡ b = omega arith in
    let after : first + (i + suc n) * width ≡ c = ap (λ k. first + k * width) (omega arith) in
    let far : b ≤ c = far_end first width i n in
    let rest : total (fill_buckets rows first width (i + 1) n) ≡ count_in ts b c =
      rw next at (total-fill ts rows first width (i + 1) n h) in
    rw after (omega (arith, h i, rest, count_in_split ts a b c (omega arith) far))

All-widen :
    (ts : List ℕ) (a b c d : ℕ)
    → c ≤ a
    → b ≤ d
    → All (λ t. (a ≤ t) × (t < b)) ts
    → All (λ t. (c ≤ t) × (t < d)) ts
All-widen [] a b c d h k r = tt
All-widen (t ∷ ts) a b c d h k ((p, q), r) =
    ((omega arith, omega arith), All-widen ts a b c d h k r)

-- The start of the first bucket, as a multiple of the width, is whole microseconds too.
multiple-micro : (n w : ℕ) → w % 1000 ≡ 0 → n * w % 1000 ≡ 0
multiple-micro n w h = let at = micro_start 0 w n refl h in omega arith

-- Where the rows are those of `date_bin` for events that all lie in the window, the counts of a
-- timeline's buckets add up to the number of the events: each row is found again by its start, none
-- is lost at either end, and none is counted twice.
pub timeline_accounts :
    (name : Bytes) (from to : ℕ) {p : Picked} (ts : List ℕ) (rows : List Bucket)
    → from < to
    → pick_interval name from to ≡ ok p
    → All (λ t. (from ≤ t) × (t < to)) ts
    → IsDateBin ts rows p.first p.interval.width
    → total (fill_buckets rows p.first p.interval.width 0 p.n) ≡ length ts
timeline_accounts name from to {p} ts rows h e inside bins =
    let (whole, before, after, below, above, few) = pick_interval-Covers name from to h e in
    let (some_time, short, micros) = pick_interval-IsWidth name from to e in
    let at : p.first % 1000 ≡ 0 =
      rw whole (multiple-micro (from / p.interval.width) p.interval.width micros) in
    total-fill ts rows p.first p.interval.width 0 p.n
      (date_bin-IsCounted ts rows p.first p.interval.width at micros bins)
    ∙ count_in-All ts _ _ (All-widen ts from to _ _ (omega arith) (omega arith) inside)
