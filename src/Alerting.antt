-- ===== src/Alerting.antt =====
-- backend/internal/alerting/alerting.go: the window that alert rules are evaluated over. Times are
-- nanoseconds since the zero time of Go.
pub mod Window
pub mod Run
pub mod Complete
mod Tests
use loghub.Common.{ℕ, ◌-◌, ◌*◌, ◌%◌}

abbrev pub minute : ℕ
minute = 60_000_000_000

abbrev pub lag : ℕ
lag = 30_000_000_000

-- `Truncate` rounds down to a multiple of the duration since the zero time.
unfoldable pub truncate : ℕ → ℕ → ℕ
truncate t d = t - t % d

-- `WindowEnd`
unfoldable pub window_end : ℕ → ℕ
unfolding truncate
window_end now = truncate (now - lag) minute
