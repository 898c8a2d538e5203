-- ===== src/Counts/Widths.antt =====
-- The interval of a timeline and its buckets' bounds.
use mathlib.Core.Option.{some-injective}
use mathlib.Core.Path.{subst}
use native.Mathlib.Nat.{div-add-mod', mod-lt, div-mul-le_self, lt-div-mul-add, mul-le-mul_right}
use loghub.Common.{
  ℕ, ◌+◌, ◌-◌, ◌*◌, ◌/◌, ◌%◌, ◌≤◌, ◌<◌, min, ◌≡◌, Bool, true, inl, inr, List, [], ◌∷◌, some, arith,
  leb, leb→le, Bool-cases, All,
}
use loghub.Counts.{
  Interval, day, intervals, max_intervals, find_interval, max_duration, sub_time, parts, Picked,
}

-- A bucket's width: some time, a day at most, and a whole number of microseconds.
abbrev pub IsWidth : Interval → Type 0
IsWidth iv = (0 < iv.width) × (iv.width ≤ day) × (iv.width % 1000 ≡ 0)

pub intervals-IsWidth : All IsWidth intervals
intervals-IsWidth = ground arith

pub find-All :
    (P : Interval → Type 0) (p : Interval → Bool) (ivs : List Interval) {iv : Interval}
    → All P ivs
    → find_interval p ivs ≡ some iv
    → P iv × (p iv ≡ true)
unfolding find_interval
find-All P p [] h e = cc
find-All P p (x ∷ ivs) {iv} (q, h) e = elim (Bool-cases (p x)) [
  | inl found ↦
      (let same : x ≡ iv = some-injective x iv (rw found at e) in
        subst (λ iv. P iv × (p iv ≡ true)) same (q, found))
  | inr no_match ↦ find-All P p ivs h (rw no_match at e)
]

add_one_mul : (a w : ℕ) → (a + 1) * w ≡ a * w + w
add_one_mul a w = omega arith

add_one_sub : (q : ℕ) → q + 1 - 1 ≡ q
add_one_sub q = omega arith

-- `parts` is the division rounded up.
parts_lem : (d w : ℕ) → 0 < d → 0 < w → ((parts d w - 1) * w < d) × (d ≤ parts d w * w)
unfolding parts
parts_lem d w h k =
    let q = (d - 1) / w in
    let below : q * w < d = let m = div-mul-le_self (d - 1) w in omega arith in
    let above : d - 1 < q * w + w = lt-div-mul-add k in
    let next : (q + 1) * w ≡ q * w + w = add_one_mul q w in
    (rw (add_one_sub q) below, (let all : d ≤ (q + 1) * w = omega arith in all))

mul_lt : (a b w : ℕ) → a * w < b * w → a < b
mul_lt a b w h = elim (Bool-cases (leb b a)) [
  | inl le ↦ absurd (let m : b * w ≤ a * w = mul-le-mul_right w (leb→le b a le) in omega arith)
  | inr lt ↦ ground arith
]

-- A window of few enough parts is not longer than the longest duration, so its length is exact.
exact_window :
    (window w : ℕ)
    → 0 < window
    → 0 < w
    → w ≤ day
    → parts (min window max_duration) w ≤ max_intervals
    → window ≤ max_intervals * w
exact_window window w h k long few =
    let (a, b) = parts_lem (min window max_duration) w (omega arith) k in
    let c : parts (min window max_duration) w * w ≤ max_intervals * w = mul-le-mul_right w few in
    omega arith

-- The buckets' bounds, of an interval that suits the window.
abbrev pub Covers : ℕ → ℕ → Picked → Type 0
Covers from to p =
    (p.first ≡ from / p.interval.width * p.interval.width)
    × (p.first ≤ from)
    × (from < p.first + p.interval.width)
    × (p.first + (p.n - 1) * p.interval.width < to)
    × (to ≤ p.first + p.n * p.interval.width)
    × (p.n ≤ max_intervals + 1)

unfoldable pub at_start : ℕ → ℕ → Interval → Picked
unfolding sub_time parts
at_start from to iv =
    let first = from - from % iv.width in
    record { interval = iv; first = first; n = parts (sub_time to first) iv.width }

pub at_start-Covers :
    (from to : ℕ) (iv : Interval)
    → from < to
    → IsWidth iv
    → parts (sub_time to from) iv.width ≤ max_intervals
    → Covers from to (at_start from to iv)
unfolding sub_time at_start
at_start-Covers from to iv h (pos, long, micros) few =
    let w = iv.width in
    let first = from - from % w in
    let whole = div-add-mod' from w in
    let small : from % w < w = mod-lt from pos in
    let short : to - from ≤ max_intervals * w =
      exact_window (to - from) w (omega arith) pos long few in
    let exact : min (to - first) max_duration ≡ to - first = omega arith in
    let (below, above) = parts_lem (min (to - first) max_duration) w (omega arith) pos in
    let n = parts (min (to - first) max_duration) w in
    let fewer : n - 1 < max_intervals + 1 = mul_lt (n - 1) (max_intervals + 1) w (omega arith) in
    (omega arith, omega arith, omega arith, omega arith, omega arith, omega arith)
