-- ===== src/Limiter.antt =====
-- backend/internal/limiter: the token buckets of memory.go, and the decision of limiter.go.
-- Times are nanoseconds since Go's zero time, durations nanoseconds; a missing key reads as the
-- zero time, 0. The float `remaining` is `credit - debt`, both in nanoseconds of `interval`: a
-- bucket of `burst` tokens less one, against the time until it is full. Its sign is exact, since
-- the operands are far below 2^53 and a nonzero difference is at least one part in `interval`.
mod Buckets
pub mod Rate
pub mod Waiting
mod Tests
use loghub.Common.{
  ℕ, String, ◌++◌, Option, none, some, codes, ◌+◌, ◌-◌, ◌*◌, ◌/◌, Bool, true, false, ◌&&◌, List, [],
  ◌∷◌, ltb, leb, if◌then◌else◌, Bytes, bytes_eq,
}

abbrev pub second : ℕ
second = 1_000_000_000

abbrev pub minute : ℕ
minute = 60 * second

-- `Memory`: when each key's bucket is full again, and when full buckets were last forgotten. The
-- map is a function; a key that it does not hold reads as the zero time.
pub record Memory : Type 0 where
  pub full : Bytes → ℕ
  pub swept : ℕ

-- `m.full[key] = t`
unfoldable pub put : (Bytes → ℕ) → Bytes → ℕ → Bytes → ℕ
put m key t k = if bytes_eq key k then t else m k

-- `delete` for each key whose bucket is full
unfoldable pub forget : ℕ → (Bytes → ℕ) → Bytes → ℕ
forget now m k = if leb (m k) now then 0 else m k

unfoldable pub sweep : ℕ → Memory → Memory
unfolding forget
sweep now m =
    if ltb (now - m.swept) minute then m else record { full = forget now m.full; swept = now }

abbrev pub interval : ℕ → ℕ
interval per_minute = minute / per_minute

-- What `Take` returns: `remaining` is `(credit - debt) / interval`.
pub record Remaining : Type 0 where
  pub credit : ℕ
  pub debt : ℕ

-- `remaining >= 0`
abbrev pub is_enough : Remaining → Bool
is_enough r = leb r.debt r.credit

-- `if full.Before(now) { full = now }`
abbrev pub at_least : ℕ → ℕ → ℕ
at_least now full = if ltb full now then now else full

unfoldable pub take : Memory → ℕ → Bytes → ℕ → ℕ → Memory × Remaining
unfolding sweep
take m now key per_minute burst =
    let m' = sweep now m in
    let full = at_least now (m'.full key) in
    let r : Remaining = record {
      credit = burst * interval per_minute;
      debt = full - now + interval per_minute;
    } in
    if is_enough r
    then (record m' { full = put m'.full key (full + interval per_minute) }, r)
    else (m', r)

-- `Decision`, its durations in nanoseconds.
pub record Decision : Type 0 where
  pub allowed : Bool
  pub limit : ℕ
  pub remaining : ℕ
  pub retry_after : ℕ
  pub reset_after : ℕ

-- `Limiter`; `New` sets `burst` to `perMinute`, and panics where there is no rate.
pub record Limiter : Type 0 where
  pub name : Bytes
  pub per_minute : ℕ
  pub burst : ℕ

unfoldable pub new : Bytes → ℕ → Option Limiter
new name per_minute =
    if ltb per_minute 1
    then none
    else some (record { name = name; per_minute = per_minute; burst = per_minute })

-- `time.Duration(n / rate * float64(time.Minute))` as floats compute it, for a rate a minute and `n`
-- tokens, given as nanoseconds of `interval`.
abbrev pub RefillTime : Type 0
RefillTime = ℕ → ℕ → ℕ

-- `Allow` on what the backend answered; `none` is its failure.
unfoldable pub decide : RefillTime → Limiter → Option Remaining → Decision
decide refill l none = record {
  allowed = true;
  limit = l.burst;
  remaining = l.burst;
  retry_after = 0;
  reset_after = 0;
}
decide refill l (some r) =
    if is_enough r
    then record {
      allowed = true;
      limit = l.burst;
      remaining = (r.credit - r.debt) / interval l.per_minute;
      retry_after = 0;
      reset_after = refill l.per_minute (l.burst * interval l.per_minute - (r.credit - r.debt));
    }
    else record {
      allowed = false;
      limit = l.burst;
      remaining = 0;
      retry_after = refill l.per_minute (r.debt - r.credit);
      reset_after =
          refill l.per_minute
            (l.burst * interval l.per_minute - (r.credit + interval l.per_minute - r.debt));
    }

-- `"ratelimit:" + l.name + ":" + key`
pub backend_key : Limiter → Bytes → Bytes
backend_key l key = codes "ratelimit:" ++ (l.name ++ (codes ":" ++ key))

-- `Allow` on the memory backend.
unfoldable pub allow : RefillTime → Limiter → Memory → ℕ → Bytes → Memory × Decision
unfolding backend_key
allow refill l m now key =
    let (m', r) = take m now (backend_key l key) l.per_minute l.burst in
    (m', decide refill l (some r))
