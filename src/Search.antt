-- ===== src/Search.antt =====
-- backend/internal/store/search.go: the filters of the event queries and their window. Times are
-- nanoseconds since the zero time of Go, from the year 1 on. An address is the text that prints it.
pub mod Statement
pub mod Page
mod ByteOrder
pub mod SameSet
pub mod Placeholders
pub mod Shape
pub mod Resume
mod Tests
use loghub.Common.{
  ℕ, zero, suc, ◌+◌, ◌-◌, ◌*◌, Bool, true, false, not, ◌&&◌, ◌||◌, List, [], ◌∷◌, ◌++◌, map, Option,
  none, some, ltb, ◌==◌, if◌then◌else◌, any, ℤ, pos, negsuc, Bytes, bytes_eq, is_empty, trim_space,
  to_lower,
}
use loghub.Errors.{Error, Result, ok, err, new_error, malformed}

abbrev pub second : ℕ
second = 1_000_000_000

abbrev pub hour : ℕ
hour = 3600 * second

abbrev pub default_search_window : ℕ
default_search_window = 24 * hour

abbrev pub search_ahead : ℕ
search_ahead = hour

-- An empty text, list or `none` does not filter.
pub record EventFilter : Type 0 where
  pub tenant : Bytes
  pub from : Option ℕ
  pub to : Option ℕ
  pub sources : List Bytes
  pub event_type : Bytes
  pub action : Bytes
  pub severity_min : Option ℤ
  pub severity_max : Option ℤ
  pub src_ip : Bytes
  pub user : Bytes
  pub host : Bytes
  pub tags : List Bytes
  pub query : Bytes

-- A checked filter with its window.
pub record EventQuery : Type 0 where
  pub filter : EventFilter
  pub addr : Option Bytes
  pub from : ℕ
  pub to : ℕ

-- What the checks take from Go's library: `utf8.ValidString`, `strings.ToLower` outside ASCII, and
-- `netip.ParseAddr` with the address unmapped and its zone dropped.
pub record TextLib : Type 0 where
  pub valid_string : Bytes → Bool
  pub lower : Bytes → Bytes
  pub parse_addr : Bytes → Option Bytes

-- `store.Scope`: whose events a caller sees.
pub record ReadScope : Type 0 where
  pub tenant_id : Bytes
  pub is_admin : Bool

unfoldable pub scoped_to : EventFilter → ReadScope → EventFilter
scoped_to f scope =
    if not scope.is_admin && is_empty (trim_space f.tenant)
    then record f { tenant = scope.tenant_id }
    else f

abbrev pub invalid_param : Error
invalid_param = new_error malformed "invalid_parameter"

abbrev pub int_less : ℤ → ℤ → Bool
int_less (pos a) (pos b) = ltb a b
int_less (pos a) (negsuc b) = false
int_less (negsuc a) (pos b) = true
int_less (negsuc a) (negsuc b) = ltb b a

abbrev pub is_bad_severity : Option ℤ → Bool
is_bad_severity none = false
is_bad_severity (some n) = int_less n (pos 0) || int_less (pos 10) n

abbrev pub is_crossed : Option ℤ → Option ℤ → Bool
is_crossed none high = false
is_crossed (some low) none = false
is_crossed (some low) (some high) = int_less high low

abbrev pub texts : EventFilter → List Bytes
texts f =
    (f.tenant ∷ f.event_type ∷ f.action ∷ f.user ∷ f.host ∷ f.query ∷ []) ++ (f.sources ++ f.tags)

-- What Postgres refuses in a text.
abbrev pub is_bad_text : TextLib → Bytes → Bool
is_bad_text lib t = not (lib.valid_string t) || any (λ c. c == 0) t

-- `<` on strings: by bytes.
unfoldable pub bytes_less : Bytes → Bytes → Bool
bytes_less s [] = false
bytes_less [] (y ∷ t) = true
bytes_less (x ∷ s) (y ∷ t) = ltb x y || (x == y && bytes_less s t)

unfoldable pub insert_sorted : Bytes → List Bytes → List Bytes
insert_sorted s [] = s ∷ []
insert_sorted s (t ∷ ts) =
    let rest = insert_sorted s ts in if bytes_less t s then t ∷ rest else s ∷ t ∷ ts

-- `slices.Sort`
unfoldable pub sort_bytes : List Bytes → List Bytes
unfolding insert_sorted
sort_bytes [] = []
sort_bytes (s ∷ ss) = insert_sorted s (sort_bytes ss)

-- `slices.Compact`
unfoldable pub compact : List Bytes → List Bytes
compact [] = []
compact (s ∷ []) = s ∷ []
compact (s ∷ t ∷ ts) = let rest = compact (t ∷ ts) in if bytes_eq s t then rest else s ∷ rest

-- The values trimmed and mapped, without the empty ones.
unfoldable pub cleaned : (Bytes → Bytes) → List Bytes → List Bytes
cleaned mapping [] = []
cleaned mapping (v ∷ vs) =
    let rest = cleaned mapping vs in
    let v' = mapping (trim_space v) in if is_empty v' then rest else v' ∷ rest

unfoldable pub normalize_set : (Bytes → Bytes) → List Bytes → List Bytes
unfolding cleaned sort_bytes compact
normalize_set mapping values = compact (sort_bytes (cleaned mapping values))

abbrev pub normalized : TextLib → EventFilter → EventFilter
normalized lib f = record f {
  tenant = trim_space f.tenant;
  event_type = trim_space f.event_type;
  action = to_lower lib.lower (trim_space f.action);
  user = trim_space f.user;
  host = trim_space f.host;
  sources = normalize_set (to_lower lib.lower) f.sources;
  tags = normalize_set (λ t. t) f.tags;
}

abbrev pub checked : EventFilter → Option Bytes → Result EventQuery
checked f addr = ok (record { filter = f; addr = addr; from = 0; to = 0 })

abbrev pub parsed : EventFilter → Option Bytes → Result EventQuery
parsed f none = err invalid_param
parsed f (some a) = checked f (some a)

-- The address of the filter, if it has one.
abbrev pub with_addr : TextLib → EventFilter → Result EventQuery
with_addr lib f =
    let s = trim_space f.src_ip in
    if is_empty s then checked f none else parsed f (lib.parse_addr s)

unfoldable pub resolve_filter : TextLib → EventFilter → Result EventQuery
unfolding normalize_set trim_space to_lower
resolve_filter lib f =
    if is_bad_severity f.severity_min || is_bad_severity f.severity_max
    then err invalid_param
    else if is_crossed f.severity_min f.severity_max
    then err invalid_param
    else if any (is_bad_text lib) (texts f)
    then err invalid_param
    else with_addr lib (normalized lib f)

abbrev pub default_window : ℕ → ℕ × ℕ
default_window now = (now - default_search_window, now + search_ahead)

abbrev pub or_given : Option ℕ → ℕ → ℕ
or_given none t = t
or_given (some t) _ = t

unfoldable pub set_window : EventQuery → ℕ → ℕ → Result EventQuery
set_window q from to =
    let start = or_given q.filter.from from in
    let end = or_given q.filter.to to in
    if ltb start end then ok (record q { from = start; to = end }) else err invalid_param

-- The window of a count, which defaults to that of a search.
abbrev pub in_window : Result EventQuery → ℕ × ℕ → Result EventQuery
in_window (err e) w = err e
in_window (ok q) (from, to) = set_window q from to

unfoldable pub resolve_count : TextLib → EventFilter → ℕ → Result EventQuery
unfolding resolve_filter set_window
resolve_count lib f now = in_window (resolve_filter lib f) (default_window now)
