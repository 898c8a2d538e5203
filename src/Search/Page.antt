-- ===== src/Search/Page.antt =====
-- Pages of a search: the checks of `resolveSearch`, the cursor, and `EventRepo.Search`.
use loghub.Common.{
  ℕ, zero, suc, ◌-◌, Bool, true, false, not, ◌||◌, List, [], Option, none, some, ltb, ◌==◌,
  if◌then◌else◌, length, take, get_elem?, ℤ, pos, negsuc, Bytes, codes, bytes_eq, is_empty,
}
use loghub.Errors.{Error, Result, ok, err, new_error, malformed}
use loghub.Event.{Event}
use loghub.Search.{
  EventFilter, EventQuery, TextLib, ReadScope, scoped_to, invalid_param, resolve_filter,
  default_window, in_window, set_window,
}
use loghub.Search.Statement.{Value, Condition, conditions, add_position, select}

abbrev pub default_search_limit : ℕ
default_search_limit = 50

abbrev pub max_search_limit : ℕ
max_search_limit = 1000

pub record SearchParams : Type 0 where
  pub filter : EventFilter
  pub order : Bytes
  pub limit : ℤ
  pub cursor : Bytes

pub record Cursor : Type 0 where
  pub version : ℤ
  pub from : ℕ
  pub to : ℕ
  pub ts : ℕ
  pub id : ℤ
  pub filter : Bytes

abbrev pub cursor_version : ℤ
cursor_version = pos 1

pub record SearchQuery : Type 0 where
  pub query : EventQuery
  pub ascending : Bool
  pub limit : ℕ
  pub after : Option Cursor
  pub hash : Bytes

-- A stored event: what was inserted, and what the table adds.
pub record StoredEvent : Type 0 where
  pub id : ℤ
  pub received_at : ℕ
  pub event : Event

-- The JSON and base64 text of a cursor and its reading, and `filterHash`: the hash of the order and
-- of the filter's texts and address.
pub record CursorLib : Type 0 where
  pub encode : Cursor → Bytes
  pub decode : Bytes → Option Cursor
  pub filter_hash : Bool → EventFilter → Option Bytes → Bytes

abbrev pub invalid_cursor : Error
invalid_cursor = new_error malformed "invalid_cursor"

unfoldable pub resolve_limit : ℤ → Option ℕ
resolve_limit (pos zero) = some default_search_limit
resolve_limit (pos (suc n)) = if ltb max_search_limit (suc n) then none else some (suc n)
resolve_limit (negsuc n) = none

-- Whether the order is ascending.
unfoldable pub resolve_order : Bytes → Option Bool
unfolding bytes_eq
resolve_order order =
    if is_empty order || bytes_eq order (codes "desc")
    then some false
    else if bytes_eq order (codes "asc")
    then some true
    else none

abbrev pub is_version : ℤ → Bool
is_version (pos n) = n == 1
is_version (negsuc n) = false

abbrev pub versioned : Option Cursor → Result Cursor
versioned none = err invalid_cursor
versioned (some c) = if is_version c.version then ok c else err invalid_cursor

unfoldable pub decode_cursor : CursorLib → Bytes → Result Cursor
decode_cursor lib s = versioned (lib.decode s)

unfoldable pub same_time : Option ℕ → ℕ → Bool
same_time none t = true
same_time (some explicit) t = explicit == t

-- A cursor of the same filter and window goes on with its window.
abbrev pub resume : SearchQuery → Result Cursor → Result (EventQuery × Option Cursor)
resume q (err e) = err e
resume q (ok c) =
    if not (bytes_eq c.filter q.hash)
      || (not (same_time q.query.filter.from c.from) || not (same_time q.query.filter.to c.to))
    then err invalid_cursor
    else ok (record q.query { from = c.from; to = c.to }, some c)

abbrev pub with_window : SearchQuery → Option Cursor → Result EventQuery → Result SearchQuery
with_window q after (err e) = err e
with_window q after (ok w) = ok (record q { query = w; after = after })

abbrev pub resumed : SearchQuery → Result (EventQuery × Option Cursor) → Result SearchQuery
resumed q (err e) = err e
resumed q (ok (w, after)) = with_window q after (set_window w w.from w.to)

-- The window of a checked query: the cursor's, or the default one, where the filter gives none.
unfoldable pub resolve_window : CursorLib → Bytes → ℕ → SearchQuery → Result SearchQuery
unfolding decode_cursor same_time set_window bytes_eq
resolve_window lib cursor now q =
    if is_empty cursor
    then with_window q none (in_window (ok q.query) (default_window now))
    else resumed q (resume q (decode_cursor lib cursor))

abbrev pub hashed :
    TextLib → CursorLib → SearchParams → ℕ → ℕ → Bool → Result EventQuery → Result SearchQuery
hashed texts lib p now limit ascending (err e) = err e
hashed texts lib p now limit ascending (ok w) = resolve_window lib p.cursor now (record {
  query = w;
  ascending = ascending;
  limit = limit;
  after = none;
  hash = lib.filter_hash ascending w.filter w.addr;
})

abbrev pub ordered : TextLib → CursorLib → SearchParams → ℕ → ℕ → Option Bool → Result SearchQuery
ordered texts lib p now limit none = err invalid_param
ordered texts lib p now limit (some ascending) =
    hashed texts lib p now limit ascending (resolve_filter texts p.filter)

abbrev pub limited : TextLib → CursorLib → SearchParams → ℕ → Option ℕ → Result SearchQuery
limited texts lib p now none = err invalid_param
limited texts lib p now (some limit) = ordered texts lib p now limit (resolve_order p.order)

unfoldable pub resolve_search : TextLib → CursorLib → SearchParams → ℕ → Result SearchQuery
unfolding resolve_limit resolve_order resolve_filter resolve_window
resolve_search texts lib p now = limited texts lib p now (resolve_limit p.limit)

abbrev pub position : Option Cursor → Option (ℕ × ℤ)
position none = none
position (some c) = some (c.ts, c.id)

-- `searchQuery.sql`
unfoldable pub statement : SearchQuery → Condition × List Value
unfolding conditions add_position
statement q =
    select q.ascending q.limit (add_position q.ascending (position q.after) (conditions q.query))

abbrev pub cursor_after : SearchQuery → StoredEvent → Cursor
cursor_after q e = record {
  version = cursor_version;
  from = q.query.from;
  to = q.query.to;
  ts = e.event.ts;
  id = e.id;
  filter = q.hash;
}

pub record EventPage : Type 0 where
  pub events : List StoredEvent
  pub next_cursor : Bytes

abbrev pub cursor_text : CursorLib → SearchQuery → Option StoredEvent → Bytes
cursor_text lib q none = []
cursor_text lib q (some e) = lib.encode (cursor_after q e)

-- The page out of the rows of the statement, which asks for one more than the page holds.
unfoldable pub page_of : CursorLib → SearchQuery → List StoredEvent → EventPage
page_of lib q events =
    if ltb q.limit (length events)
    then record {
      events = take q.limit events;
      next_cursor = cursor_text lib q (get_elem? events (q.limit - 1));
    }
    else record { events = events; next_cursor = [] }

abbrev pub read_page : CursorLib → SearchQuery → Result (List StoredEvent) → Result EventPage
read_page lib q (err e) = err e
read_page lib q (ok events) = ok (page_of lib q events)

-- The database: the rows of a statement, read in a scope.
abbrev pub Read : Type 0
Read = ReadScope → Condition × List Value → Result (List StoredEvent)

abbrev pub run : CursorLib → Read → ReadScope → Result SearchQuery → Result EventPage
run lib read scope (err e) = err e
run lib read scope (ok q) = read_page lib q (read scope (statement q))

-- `EventRepo.Search`
unfoldable pub search : TextLib → CursorLib → Read → ReadScope → SearchParams → ℕ → Result EventPage
unfolding scoped_to resolve_search statement page_of
search texts lib read scope p now =
    run lib read scope
      (resolve_search texts lib (record p { filter = scoped_to p.filter scope }) now)
