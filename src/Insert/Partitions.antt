-- ===== src/Insert/Partitions.antt =====
-- `MaintainPartitions`: the retention in whole days, as the database is asked for them.
use loghub.Common.{
  ℕ, ◌+◌, ◌-◌, ◌*◌, ◌/◌, ◌^◌, Option, none, some, ltb, leb, if◌then◌else◌, ℤ, pos, negsuc,
}
use loghub.Errors.{Error, new_error}
use loghub.Errors
use loghub.Search.{hour}
use loghub.Pg.{Failure, wrap}

abbrev pub day : ℕ
day = 24 * hour

-- The days, truncated towards zero, of a retention that an int64 holds; `retention + day - 1` wraps
-- around below zero from `2 ^ 63` on, and a negative sum has no day.
unfoldable pub days_of : ℤ → ℕ
days_of (negsuc n) = 0
days_of (pos n) = let sum = n + (day - 1) in if leb (2 ^ 63) sum then 0 else sum / day

abbrev pub failed_with : Option Failure → Option Error
failed_with none = none
failed_with (some f) = some (wrap f).error

-- `EventRepo.MaintainPartitions`: the error, if any. The days are the argument of the database's
-- procedure; they fit an int32, since an int64 of nanoseconds has about 106,751 days.
unfoldable pub maintain_partitions : (ℕ → Option Failure) → ℤ → Option Error
unfolding days_of
maintain_partitions db retention =
    let days = days_of retention in
    if ltb days 1 then some (new_error Errors.internal "internal_error") else failed_with (db days)
