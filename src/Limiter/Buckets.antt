-- ===== src/Limiter/Buckets.antt =====
-- One step of the memory backend, seen from a single key.
use loghub.Common.{ℕ, ◌+◌, ◌-◌, ◌*◌, ◌≤◌, ◌≡◌, true, false, arith, Bytes, bytes_eq, bytes_eq_iff}
use loghub.Limiter.{Memory, put, forget, sweep, interval, Remaining, is_enough, at_least, take}

-- When a key's bucket is full, as an attempt at `now` sees it.
abbrev pub view : ℕ → Memory → Bytes → ℕ
view now m key = at_least now (m.full key)

pub view_grows :
    (m : Memory) (now later : ℕ) (key : Bytes) → now ≤ later → view now m key ≤ view later m key
view_grows m now later key h = ground arith

-- Forgetting full buckets changes no answer, then or later.
pub view-sweep :
    (m : Memory) (now later : ℕ) (key : Bytes)
    → now ≤ later
    → view later (sweep now m) key ≡ view later m key
unfolding sweep forget
view-sweep m now later key h = ground arith

-- The fields that `take` reads of its answer.
abbrev pub answer : Memory → ℕ → Bytes → ℕ → ℕ → Remaining
answer m now key per_minute burst = record {
  credit = burst * interval per_minute;
  debt = view now m key - now + interval per_minute;
}

pub take-answer :
    (m : Memory) (now : ℕ) (key : Bytes) (per_minute burst : ℕ)
    → (take m now key per_minute burst).1 ≡ answer m now key per_minute burst
unfolding take
take-answer m now key per_minute burst = ground (arith, view-sweep m now now key)

-- An attempt leaves the buckets of the other keys alone.
pub view-take_ne :
    (m : Memory) (now later : ℕ) (key other : Bytes) (per_minute burst : ℕ)
    → now ≤ later
    → bytes_eq key other ≡ false
    → view later (take m now key per_minute burst).0 other ≡ view later m other
unfolding take put
view-take_ne m now later key other per_minute burst h ne =
    ground (arith, view-sweep m now now key, view-sweep m now later other)

-- A refused attempt takes nothing.
pub view-take_refused :
    (m : Memory) (now later : ℕ) (key : Bytes) (per_minute burst : ℕ)
    → now ≤ later
    → is_enough (answer m now key per_minute burst) ≡ false
    → view later (take m now key per_minute burst).0 key ≡ view later m key
unfolding take
view-take_refused m now later key per_minute burst h no_token =
    ground (arith, view-sweep m now now key, view-sweep m now later key)

-- An allowed one moves the key's bucket on by one interval.
pub view-take_allowed :
    (m : Memory) (now later : ℕ) (key : Bytes) (per_minute burst : ℕ)
    → now ≤ later
    → is_enough (answer m now key per_minute burst) ≡ true
    → view later (take m now key per_minute burst).0 key
      ≡ at_least later (view now m key + interval per_minute)
unfolding take put
view-take_allowed m now later key per_minute burst h token =
    ground (arith, view-sweep m now now key, bytes_eq_iff key key)
