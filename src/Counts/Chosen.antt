-- ===== src/Counts/Chosen.antt =====
-- Which interval a timeline takes.
use mathlib.Core.Option.{some-injective}
use mathlib.Core.Path.{subst}
use loghub.Common.{
  ℕ, ◌≤◌, ◌<◌, ◌≡◌, refl, sym, Bool, true, false, inl, inr, List, [], ◌∷◌, none, some, arith, ltb,
  Bool-cases, Option-cases, Bytes, All,
}
use loghub.Errors.{Result, ok, err}
use loghub.Search.{invalid_param}
use loghub.Counts.{
  Interval, intervals, day, auto_intervals, max_intervals, find_interval, sub_time, parts, or_last,
  at_most, at_most_named, is_short, has_name, choose_interval, Picked, picked, pick_interval,
}
use loghub.Counts.Widths.{IsWidth, intervals-IsWidth, find-All, Covers, at_start, at_start-Covers}

ok_same {ℓ} : {A : Type ℓ} (a b : A) → ok a ≡ ok b → a ≡ b
ok_same a b h = cc

abbrev Fits : ℕ → Interval → Type 0
Fits window iv = IsWidth iv × (parts window iv.width ≤ max_intervals)

at_most-Fits :
    (window : ℕ) (iv : Interval) {out : Interval}
    → IsWidth iv
    → at_most window iv ≡ ok out
    → (iv ≡ out) × Fits window out
unfolding at_most
at_most-Fits window iv {out} h e = elim (Bool-cases (ltb max_intervals (parts window iv.width))) [
  | inl long ↦ (let bad : err invalid_param ≡ ok out = rw long at e in absurd cc)
  | inr fits ↦
      (let same : iv ≡ out = ok_same iv out (rw fits at e) in
        (same, subst (λ iv. Fits window iv) same (h, ground arith)))
]

last-IsWidth : (p : Interval → Bool) → IsWidth (or_last (find_interval p intervals))
last-IsWidth p = elim (Option-cases (find_interval p intervals)) [
  | inl no_match ↦ rw no_match (omega arith, omega arith, refl)
  | inr (iv, found) ↦ rw found (find-All IsWidth p intervals intervals-IsWidth found).0
]

named-Fits :
    (window : ℕ) (p : Interval → Bool) {out : Interval}
    → at_most_named window (find_interval p intervals) ≡ ok out
    → Fits window out
named-Fits window p {out} e = elim (Option-cases (find_interval p intervals)) [
  | inl no_match ↦ (let bad : err invalid_param ≡ ok out = rw no_match at e in absurd cc)
  | inr (iv, found) ↦
      (at_most-Fits window iv (find-All IsWidth p intervals intervals-IsWidth found).0
        (rw found at e)).1
]

choose_interval-Fits :
    (name : Bytes) (window : ℕ) {out : Interval}
    → choose_interval name window ≡ ok out
    → Fits window out
unfolding choose_interval
choose_interval-Fits [] window e =
    (at_most-Fits window (or_last (find_interval (is_short window) intervals))
      (last-IsWidth (is_short window)) e).1
choose_interval-Fits (c ∷ name) window e = named-Fits window (has_name (c ∷ name)) e

picked_lem :
    (from to : ℕ) (r : Result Interval) {p : Picked}
    → picked from to r ≡ ok p
    → (iv : Interval) × (r ≡ ok iv) × (p ≡ at_start from to iv)
unfolding picked at_start
picked_lem from to (err e) h = cc
picked_lem from to (ok iv) h = (iv, refl, sym (ok_same _ _ h))

-- The buckets of a timeline over a window that is not empty: the first starts at the last multiple
-- of the interval that is not after `from`, they cover the window, each holds a part of it, and
-- there are at most 1441 of them.
pub pick_interval-Covers :
    (name : Bytes) (from to : ℕ) {p : Picked}
    → from < to
    → pick_interval name from to ≡ ok p
    → Covers from to p
unfolding pick_interval
pick_interval-Covers name from to h e =
    let (iv, chosen, same) = picked_lem from to _ e in
    let (width, few) = choose_interval-Fits name _ chosen in
    subst (λ p. Covers from to p) (sym same) (at_start-Covers from to iv h width few)

pub pick_interval-IsWidth :
    (name : Bytes) (from to : ℕ) {p : Picked}
    → pick_interval name from to ≡ ok p
    → IsWidth p.interval
unfolding pick_interval at_start
pick_interval-IsWidth name from to e =
    let (iv, chosen, same) = picked_lem from to _ e in
    let (width, few) = choose_interval-Fits name _ chosen in
    subst (λ p. IsWidth p.interval) (sym same) width

-- each interval no longer than those that follow
abbrev Ascending : List Interval → Type 0
Ascending [] = Unit
Ascending (iv ∷ ivs) = All (λ x. iv.width ≤ x.width) ivs × Ascending ivs

intervals-Ascending : Ascending intervals
intervals-Ascending = ground arith

All-weaken :
    (P Q : Interval → Type 0) (ivs : List Interval)
    → ((iv : Interval) → P iv → Q iv)
    → All P ivs
    → All Q ivs
All-weaken P Q [] f h = tt
All-weaken P Q (iv ∷ ivs) f (p, h) = (f iv p, All-weaken P Q ivs f h)

find_first :
    (p : Interval → Bool) (ivs : List Interval) {iv : Interval}
    → Ascending ivs
    → find_interval p ivs ≡ some iv
    → All (λ x. p x ≡ true → iv.width ≤ x.width) ivs
unfolding find_interval
find_first p [] h e = tt
find_first p (x ∷ ivs) {iv} (q, h) e = elim (Bool-cases (p x)) [
  | inl found ↦
      (let same : x ≡ iv = some-injective x iv (rw found at e) in
        subst (λ iv. All (λ y. p y ≡ true → iv.width ≤ y.width) (x ∷ ivs)) same
          (λ t. omega arith, All-weaken _ _ ivs (λ y le t. le) q))
  | inr other ↦ (λ t. absurd cc, find_first p ivs h (rw other at e))
]

find_none :
    (p : Interval → Bool) (ivs : List Interval)
    → find_interval p ivs ≡ none
    → All (λ x. p x ≡ false) ivs
unfolding find_interval
find_none p [] e = tt
find_none p (x ∷ ivs) e = elim (Bool-cases (p x)) [
  | inl found ↦ (let bad : some x ≡ none = rw found at e in absurd cc)
  | inr other ↦ (other, find_none p ivs (rw other at e))
]

or_last_first :
    (p : Interval → Bool)
    → All (λ x. p x ≡ true → (or_last (find_interval p intervals)).width ≤ x.width) intervals
or_last_first p = elim (Option-cases (find_interval p intervals)) [
  | inl no_match ↦ rw no_match (
      All-weaken (λ x. p x ≡ false) (λ x. p x ≡ true → day ≤ x.width) intervals
        (λ x no t. absurd cc) (find_none p intervals no_match))
  | inr (iv, found) ↦ rw found (find_first p intervals intervals-Ascending found)
]

abbrev Shortest : ℕ → Interval → Type 0
Shortest window out =
    All (λ iv. parts window iv.width ≤ auto_intervals → out.width ≤ iv.width) intervals

short-Shortest :
    (window : ℕ) → Shortest window (or_last (find_interval (is_short window) intervals))
unfolding is_short
short-Shortest window =
    All-weaken
      (λ x.
        is_short window x ≡ true
        → (or_last (find_interval (is_short window) intervals)).width ≤ x.width)
      (λ x.
        parts window x.width ≤ auto_intervals
        → (or_last (find_interval (is_short window) intervals)).width ≤ x.width)
      intervals (λ iv first few. first (ground arith)) (or_last_first (is_short window))

-- Without a name, a timeline over a window takes an interval no longer than any of the intervals
-- that divide the window into at most 200 parts.
pub pick_interval_auto :
    (from to : ℕ) {p : Picked}
    → pick_interval [] from to ≡ ok p
    → All
        (λ iv. parts (sub_time to from) iv.width ≤ auto_intervals → p.interval.width ≤ iv.width)
        intervals
unfolding pick_interval at_start
pick_interval_auto from to {p} e =
    let window = sub_time to from in
    let chosen = or_last (find_interval (is_short window) intervals) in
    let (iv, at_iv, same) = picked_lem from to (at_most window chosen) e in
    let last : chosen ≡ iv =
      (at_most-Fits window chosen (last-IsWidth (is_short window)) at_iv).0 in
    let first : Shortest window iv =
      subst (λ iv. Shortest window iv) last (short-Shortest window) in
    subst (λ p. Shortest window p.interval) (sym same) first
