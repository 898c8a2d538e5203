-- ===== src/Counts/Tests.antt =====
-- Runs of the dashboard's counts, and each theorem about them at a concrete window.
use loghub.Common.{
  ℕ, zero, suc, ◌+◌, ◌*◌, ◌≡◌, refl, arith, List, [], ◌∷◌, none, length, codes, ◌==◌, ◌<◌, any,
  true,
}
use loghub.Errors.{ok, err}
use loghub.Search.{hour, second, invalid_param}
use loghub.Counts.{one_day, minute, day, Picked, pick_interval, field_column}
use loghub.Counts.Widths.{Covers}
use loghub.Counts.Chosen.{pick_interval-Covers}
use loghub.Counts.Timeline.{Bucket, fill_buckets}
use loghub.Counts.Buckets.{IsDateBin, count_in, total, timeline_accounts}

abbrev noon : ℕ
noon = 12 * hour

-- Five hours from half past twelve and a second on: intervals of five minutes.
five_hours :
    pick_interval [] (noon + 1801 * second) (noon + 5 * hour + 1801 * second)
    ≡ ok (record {
      interval = record { name = codes "5m"; width = 5 * minute };
      first = noon + 1800 * second;
      n = 61;
    })
unfolding pick_interval
five_hours = refl

too_long : pick_interval (codes "1m") noon (noon + 25 * hour) ≡ err invalid_param
unfolding pick_interval
too_long = refl

no_such_interval : pick_interval (codes "2m") noon (noon + hour) ≡ err invalid_param
unfolding pick_interval
no_such_interval = refl

longest :
    pick_interval [] day (1441 * day) ≡ ok (record { interval = one_day; first = day; n = 1440 })
unfolding pick_interval
longest = refl

unknown_field : field_column (codes "raw") ≡ none
unfolding field_column
unknown_field = refl

abbrev two_minutes : Picked
two_minutes = record {
  interval = record { name = codes "1m"; width = minute };
  first = noon;
  n = 2;
}

in_minutes : pick_interval [] noon (noon + 2 * minute) ≡ ok two_minutes
unfolding pick_interval
in_minutes = refl

pick_interval-Covers_example : Covers noon (noon + 2 * minute) two_minutes
pick_interval-Covers_example =
    pick_interval-Covers [] noon (noon + 2 * minute) (omega arith) in_minutes

abbrev times : List ℕ
times = (noon + 5 * second) ∷ (noon + 50 * second) ∷ []

abbrev rows : List Bucket
rows = record { start = noon; count = 2 } ∷ []

has_row :
    (i : ℕ)
    → 0 < count_in times (noon + i * minute) (noon + i * minute + minute)
    → any (λ row. row.start == noon + i * minute) rows ≡ true
has_row zero h = refl
has_row (suc i) h = absurd (ground arith)

rows-IsDateBin : IsDateBin times rows noon minute
rows-IsDateBin = ((((0, refl), refl), tt), has_row)

timeline_accounts_example : total (fill_buckets rows noon minute 0 2) ≡ length times
timeline_accounts_example =
    timeline_accounts [] noon (noon + 2 * minute) times rows (omega arith) in_minutes
      ((omega arith, omega arith), ((omega arith, omega arith), tt)) rows-IsDateBin
