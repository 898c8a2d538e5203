-- ===== src/Counts.antt =====
-- backend/internal/store/counts.go: the top values of a field, and timelines. Durations are
-- nanoseconds, and times nanoseconds since the zero time of Go, from the year 1 on.
pub mod Widths
pub mod Chosen
pub mod Timeline
pub mod Buckets
mod Tests
use loghub.Common.{
  ℕ, zero, suc, ◌+◌, ◌-◌, ◌*◌, ◌/◌, ◌%◌, min, Bool, true, false, List, [], ◌∷◌, ◌++◌, map, Option,
  none, some, ltb, leb, ◌==◌, if◌then◌else◌, length, ℤ, pos, negsuc, Bytes, codes, bytes_eq,
  is_empty,
}
use loghub.Errors.{Error, Result, ok, err}
use loghub.Search.{
  second, hour, EventFilter, EventQuery, TextLib, ReadScope, scoped_to, invalid_param,
  resolve_count,
}
use loghub.Search.Statement.{
  Value, Piece, Condition, Built, sql, param, time, count, conditions, join,
}

abbrev pub default_top_limit : ℕ
default_top_limit = 10

abbrev pub max_top_limit : ℕ
max_top_limit = 100

abbrev pub auto_intervals : ℕ
auto_intervals = 200

abbrev pub max_intervals : ℕ
max_intervals = 1440

-- A column, and the text that a value of it is reported as.
pub record FieldColumn : Type 0 where
  pub column : Bytes
  pub text : Bytes

unfoldable pub field_column : Bytes → Option FieldColumn
unfolding bytes_eq
field_column field =
    if bytes_eq field (codes "src_ip")
    then some (record { column = codes "src_ip"; text = codes "host(src_ip)" })
    else if bytes_eq field (codes "dst_ip")
    then some (record { column = codes "dst_ip"; text = codes "host(dst_ip)" })
    else if bytes_eq field (codes "user")
    then some (record { column = codes "user_name"; text = codes "user_name" })
    else if bytes_eq field (codes "host")
    then some (record { column = codes "host"; text = codes "host" })
    else if bytes_eq field (codes "event_type")
    then some (record { column = codes "event_type"; text = codes "event_type" })
    else none

unfoldable pub top_limit : ℤ → Option ℕ
top_limit (pos zero) = some default_top_limit
top_limit (pos (suc n)) = if ltb max_top_limit (suc n) then none else some (suc n)
top_limit (negsuc n) = none

abbrev pub top_select : FieldColumn → ℕ → Built → Condition × List Value
top_select field limit (args, conds) = (
  sql (codes "SELECT ")
      ∷ sql field.text
      ∷ sql (codes " AS value, count(*) AS count\nFROM events\nWHERE ")
      ∷ (join (conds ++ ((sql field.column ∷ sql (codes " IS NOT NULL") ∷ []) ∷ []))
          ++ (sql (codes "\nGROUP BY ")
              ∷ sql field.column
              ∷ sql (codes "\nORDER BY count(*) DESC, ")
              ∷ sql field.text
              ∷ sql (codes " COLLATE \"C\"\nLIMIT ")
              ∷ param (length args + 1)
              ∷ [])),
  args ++ (count limit ∷ []),
)

pub record TopValue : Type 0 where
  pub value : Bytes
  pub count : ℕ

pub record Top : Type 0 where
  pub from : ℕ
  pub to : ℕ
  pub values : List TopValue

abbrev pub TopRead : Type 0
TopRead = ReadScope → Condition × List Value → Result (List TopValue)

abbrev pub top_values : EventQuery → Result (List TopValue) → Result Top
top_values q (err e) = err e
top_values q (ok values) = ok (record { from = q.from; to = q.to; values = values })

abbrev pub top_run : TopRead → ReadScope → FieldColumn → ℕ → Result EventQuery → Result Top
unfolding conditions
top_run read scope field limit (err e) = err e
top_run read scope field limit (ok q) =
    top_values q (read scope (top_select field limit (conditions q)))

abbrev pub top_limited :
    TextLib → TopRead → ReadScope → EventFilter → ℕ → FieldColumn → Option ℕ → Result Top
unfolding scoped_to resolve_count
top_limited lib read scope f now field none = err invalid_param
top_limited lib read scope f now field (some limit) =
    top_run read scope field limit (resolve_count lib (scoped_to f scope) now)

abbrev pub top_field :
    TextLib → TopRead → ReadScope → EventFilter → ℕ → ℤ → Option FieldColumn → Result Top
unfolding top_limit
top_field lib read scope f now limit none = err invalid_param
top_field lib read scope f now limit (some field) =
    top_limited lib read scope f now field (top_limit limit)

-- `EventRepo.Top`
unfoldable pub top : TextLib → TopRead → ReadScope → EventFilter → Bytes → ℤ → ℕ → Result Top
unfolding field_column
top lib read scope f field limit now = top_field lib read scope f now limit (field_column field)

pub record Interval : Type 0 where
  pub name : Bytes
  pub width : ℕ

abbrev pub minute : ℕ
minute = 60 * second

abbrev pub day : ℕ
day = 24 * hour

abbrev pub one_day : Interval
one_day = record { name = codes "1d"; width = day }

-- The shortest first.
abbrev pub intervals : List Interval
intervals =
    record { name = codes "1m"; width = minute }
    ∷ record { name = codes "5m"; width = 5 * minute }
    ∷ record { name = codes "15m"; width = 15 * minute }
    ∷ record { name = codes "30m"; width = 30 * minute }
    ∷ record { name = codes "1h"; width = hour }
    ∷ record { name = codes "3h"; width = 3 * hour }
    ∷ record { name = codes "6h"; width = 6 * hour }
    ∷ record { name = codes "12h"; width = 12 * hour }
    ∷ one_day
    ∷ []

-- `slices.IndexFunc`, with the element in place of its index.
unfoldable pub find_interval : (Interval → Bool) → List Interval → Option Interval
find_interval p [] = none
find_interval p (iv ∷ ivs) = let rest = find_interval p ivs in if p iv then some iv else rest

abbrev pub max_duration : ℕ
max_duration = 9_223_372_036_854_775_807

-- `to.Sub(from)`, which saturates.
unfoldable pub sub_time : ℕ → ℕ → ℕ
sub_time to from = min (to - from) max_duration

-- How many intervals it takes to cover a window.
unfoldable pub parts : ℕ → ℕ → ℕ
parts window width = (window - 1) / width + 1

abbrev pub or_last : Option Interval → Interval
or_last none = one_day
or_last (some iv) = iv

abbrev pub at_most : ℕ → Interval → Result Interval
unfolding parts
at_most window iv = if ltb max_intervals (parts window iv.width) then err invalid_param else ok iv

abbrev pub at_most_named : ℕ → Option Interval → Result Interval
at_most_named window none = err invalid_param
at_most_named window (some iv) = at_most window iv

unfoldable pub is_short : ℕ → Interval → Bool
unfolding parts
is_short window iv = leb (parts window iv.width) auto_intervals

unfoldable pub has_name : Bytes → Interval → Bool
unfolding bytes_eq
has_name name iv = bytes_eq iv.name name

-- The interval named, or the shortest that divides the window into few enough parts.
unfoldable pub choose_interval : Bytes → ℕ → Result Interval
unfolding find_interval at_most is_short has_name
choose_interval name window =
    if is_empty name
    then at_most window (or_last (find_interval (is_short window) intervals))
    else at_most_named window (find_interval (has_name name) intervals)

-- An interval, the start of the first bucket, and how many buckets there are.
pub record Picked : Type 0 where
  pub interval : Interval
  pub first : ℕ
  pub n : ℕ

abbrev pub picked : ℕ → ℕ → Result Interval → Result Picked
unfolding sub_time parts
picked from to (err e) = err e
picked from to (ok iv) =
    let first = from - from % iv.width in
    ok (record { interval = iv; first = first; n = parts (sub_time to first) iv.width })

unfoldable pub pick_interval : Bytes → ℕ → ℕ → Result Picked
unfolding choose_interval sub_time parts
pick_interval name from to = picked from to (choose_interval name (sub_time to from))
