-- ===== src/Limiter/Waiting.antt =====
-- What a refused client is told to wait is long enough, but for a nanosecond.
use native.Mathlib.Nat.{le-div_iff_mul-le, div-mul-le_self, mul-le-mul_left}
use loghub.Common.{
  ℕ, ◌+◌, ◌-◌, ◌*◌, ◌/◌, ◌≤◌, ◌<◌, ◌≡◌, sym, ◌∙◌, zero, suc, true, false, arith, some, Bytes,
}
use loghub.Limiter.{
  minute, Memory, interval, Remaining, is_enough, at_least, take, Limiter, new, RefillTime, decide,
  backend_key, allow,
}
use loghub.Limiter.Buckets.{answer, take-answer, view-take_refused}

-- The scaled wait is no shorter than the debt.
le_div : (x d n : ℕ) → 0 < d → d ≤ n → x ≤ x * n / d
le_div x d n h k = (le-div_iff_mul-le h).1 (mul-le-mul_left x k)

interval_pos : (per_minute : ℕ) → 0 < per_minute → per_minute ≤ minute → 0 < interval per_minute
interval_pos per_minute pos h = (le-div_iff_mul-le pos).1 (omega arith)

mul_pos : (a b : ℕ) → 0 < a → 0 < b → 0 < a * b
mul_pos a b h k = grind arith

-- How long `nanos` of `interval` take, rounded down.
abbrev pub refill_time : ℕ → ℕ → ℕ
refill_time per_minute nanos = nanos * minute / (interval per_minute * per_minute)

-- What float64 guarantees of a wait for at most one token: rounding and truncation make it at most a
-- nanosecond shorter or longer.
abbrev pub IsNear : RefillTime → Type 0
IsNear refill =
    (per_minute nanos : ℕ)
    → 0 < per_minute
    → per_minute ≤ minute
    → nanos ≤ interval per_minute
    → (refill_time per_minute nanos ≤ refill per_minute nanos + 1)
      × (refill per_minute nanos ≤ refill_time per_minute nanos + 1)

-- The wait is no shorter than what the bucket owes.
refill_time-le :
    (per_minute x : ℕ) → 0 < per_minute → per_minute ≤ minute → x ≤ refill_time per_minute x
refill_time-le per_minute x pos h =
    le_div x (interval per_minute * per_minute) minute
      (mul_pos (interval per_minute) per_minute (interval_pos per_minute pos h) pos)
      (div-mul-le_self minute per_minute)

-- The arithmetic of a second attempt: the bucket is full again at `full`, `owed` was missing.
second_attempt :
    (i b full now later : ℕ)
    → 0 < b
    → now ≤ later
    → now + (at_least now full - now + i - b * i) ≤ later
    → at_least later full - later + i ≤ b * i
second_attempt i zero full now later pos le wait = elim pos [ ]
second_attempt i (suc b) full now later pos le wait = ground arith

decide-allowed :
    (refill : RefillTime) (l : Limiter) (r : Remaining)
    → (decide refill l (some r)).allowed ≡ is_enough r
unfolding decide
decide-allowed refill l r = ground arith

decide-retry_after :
    (refill : RefillTime) (l : Limiter) (r : Remaining)
    → is_enough r ≡ false
    → (decide refill l (some r)).retry_after ≡ refill l.per_minute (r.debt - r.credit)
unfolding decide
decide-retry_after refill l r h = rw h

-- A bucket that holds no less than no token owes at most one.
owes_one :
    (m : Memory) (now : ℕ) (key : Bytes) (per_minute burst : ℕ)
    → 0 < burst
    → m.full key ≤ now + burst * interval per_minute
    → (answer m now key per_minute burst).debt - (answer m now key per_minute burst).credit
      ≤ interval per_minute
owes_one m now key per_minute burst pos le = ground arith

-- The same, for attempts on the backend.
take_after_wait :
    (refill : RefillTime) (m : Memory) (now later : ℕ) (key : Bytes) (per_minute burst : ℕ)
    → IsNear refill
    → 0 < burst
    → 0 < per_minute
    → per_minute ≤ minute
    → m.full key ≤ now + burst * interval per_minute
    → is_enough (answer m now key per_minute burst) ≡ false
    → now
        + refill per_minute
            ((answer m now key per_minute burst).debt - (answer m now key per_minute burst).credit)
      < later
    → is_enough (take (take m now key per_minute burst).0 later key per_minute burst).1 ≡ true
take_after_wait refill m now later key per_minute burst near pos rate small owed no_token wait =
    let i = interval per_minute in
    let r = answer m now key per_minute burst in
    let le : now ≤ later = omega arith in
    let enough = refill_time-le per_minute (r.debt - r.credit) rate small in
    let (told, _) =
      near per_minute (r.debt - r.credit) rate small
        (owes_one m now key per_minute burst pos owed) in
    let same = view-take_refused m now later key per_minute burst le no_token in
    let arrived : now + (r.debt - r.credit) ≤ later = omega arith in
    let fits = second_attempt i burst (m.full key) now later pos le arrived in
    rw (take-answer (take m now key per_minute burst).0 later key per_minute burst)
      (rw same (ground (arith, fits)))

-- A client that was refused, and that waits longer than it is told, be it by a nanosecond, is allowed
-- if nobody else has used its key in between, whatever the rounding of the wait that it is told. The
-- limiter is one that `New` makes, for a rate of at most one attempt a nanosecond, and the key's
-- bucket is full again after the time that all its tokens take, at the latest.
pub allow_after_wait :
    (refill : RefillTime) (name : Bytes) (per_minute : ℕ) {l : Limiter} (m : Memory) (now later : ℕ)
    (key : Bytes)
    → IsNear refill
    → new name per_minute ≡ some l
    → per_minute ≤ minute
    → m.full (backend_key l key) ≤ now + per_minute * interval per_minute
    → (allow refill l m now key).1.allowed ≡ false
    → now + (allow refill l m now key).1.retry_after < later
    → (allow refill l (allow refill l m now key).0 later key).1.allowed ≡ true
unfolding allow new
allow_after_wait refill name per_minute {l} m now later key near made small owed refused wait =
    let k = backend_key l key in
    let r = (take m now k l.per_minute l.burst).1 in
    let rate : l.per_minute ≡ per_minute = ground arith in
    let size : l.burst ≡ per_minute = ground arith in
    let no_token : is_enough r ≡ false = sym (decide-allowed refill l r) ∙ refused in
    let told = decide-retry_after refill l r no_token in
    let answered = take-answer m now k l.per_minute l.burst in
    rw decide-allowed (
      take_after_wait refill m now later k l.per_minute l.burst near (ground arith) (ground arith)
        (omega arith) (rw (rate, size) owed) (rw answered at no_token)
        (rw answered at (rw told at wait)))
