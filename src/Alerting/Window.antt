-- ===== src/Alerting/Window.antt =====
-- The window of an evaluation.
use loghub.Common.{ℕ, ◌+◌, ◌%◌, ◌≤◌, ◌<◌, ◌≡◌, arith}
use loghub.Alerting.{minute, lag, window_end}

-- From the year 1's first half minute on, the window ends on a whole minute, at least the lag ago,
-- and less than a minute more than that.
pub window_end_lem :
    (now : ℕ)
    → lag ≤ now
    → (window_end now % minute ≡ 0)
      × (window_end now + lag ≤ now)
      × (now < window_end now + lag + minute)
unfolding window_end
window_end_lem now h = (omega arith, omega arith, omega arith)

-- Every evaluation at a time within the minute behind the end of a window and the lag asks about
-- the same window.
pub window_end_same :
    (now later : ℕ)
    → lag ≤ now
    → now ≤ later
    → later < window_end now + lag + minute
    → window_end later ≡ window_end now
unfolding window_end
window_end_same now later h k l = omega arith
