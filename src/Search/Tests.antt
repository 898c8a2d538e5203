-- ===== src/Search/Tests.antt =====
-- Runs of the search, and each theorem about it at a concrete input.
use loghub.Common.{
  ℕ, zero, suc, ◌+◌, ◌*◌, ◌<◌, ◌≤◌, ◌≡◌, refl, ap, arith, Bool, true, false, not, ◌||◌, List, [],
  ◌∷◌, Option, none, some, map, All, ltb, length, take, contains, ℤ, pos, negsuc, Bytes, codes,
  bytes_eq, is_empty,
}
use loghub.Errors.{ok, err}
use loghub.Event.{Event}
use loghub.Search.{
  hour, EventFilter, EventQuery, TextLib, ReadScope, scoped_to, invalid_param, cleaned,
  normalize_set, resolve_filter, resolve_count,
}
use loghub.Search.Statement.{Value, Piece, time, text, texts, int, count, sql, param, like_escape}
use loghub.Search.Page.{
  SearchParams, Cursor, SearchQuery, StoredEvent, CursorLib, invalid_cursor, resolve_search,
  statement, cursor_after, same_time,
}
use loghub.Search.SameSet.{normalize_set_unique}
use loghub.Search.Placeholders.{Refers, statement-Refers}
use loghub.Search.Shape.{statement_same}
use loghub.Search.Resume.{resolve_search_resumes, resolve_search_window}

abbrev no_filter : EventFilter
no_filter = record {
  tenant = [];
  from = none;
  to = none;
  sources = [];
  event_type = [];
  action = [];
  severity_min = none;
  severity_max = none;
  src_ip = [];
  user = [];
  host = [];
  tags = [];
  query = [];
}

abbrev ascii : TextLib
ascii = record { valid_string = λ s. true; lower = λ s. s; parse_addr = λ s. some s }

abbrev write_int : ℤ → Bytes → Bytes
write_int (pos n) s = 0 ∷ n ∷ s
write_int (negsuc n) s = 1 ∷ n ∷ s

abbrev write_cursor : Cursor → Bytes
write_cursor c = write_int c.version (c.from ∷ c.to ∷ c.ts ∷ write_int c.id c.filter)

abbrev sign : ℕ → ℕ → ℤ
sign zero n = pos n
sign (suc k) n = negsuc n

abbrev read_cursor : Bytes → Option Cursor
read_cursor (v ∷ n ∷ from ∷ to ∷ ts ∷ i ∷ m ∷ filter) =
    some
      (record { version = sign v n; from = from; to = to; ts = ts; id = sign i m; filter = filter })
read_cursor s = none

abbrev cursors : CursorLib
cursors = record {
  encode = write_cursor;
  decode = read_cursor;
  filter_hash = λ ascending f addr. f.tenant;
}

write_int_not_empty : (v : ℤ) (s : Bytes) → is_empty (write_int v s) ≡ false
write_int_not_empty (pos n) s = refl
write_int_not_empty (negsuc n) s = refl

write_not_empty : (c : Cursor) → is_empty (write_cursor c) ≡ false
write_not_empty c = write_int_not_empty c.version _

read_parts :
    (v : ℤ) (from to ts : ℕ) (i : ℤ) (filter : Bytes)
    → read_cursor (write_int v (from ∷ to ∷ ts ∷ write_int i filter))
      ≡ some (record { version = v; from = from; to = to; ts = ts; id = i; filter = filter })
read_parts (pos v) from to ts (pos i) filter = refl
read_parts (pos v) from to ts (negsuc i) filter = refl
read_parts (negsuc v) from to ts (pos i) filter = refl
read_parts (negsuc v) from to ts (negsuc i) filter = refl

read_write : (c : Cursor) → read_cursor (write_cursor c) ≡ some c
read_write c = read_parts c.version c.from c.to c.ts c.id c.filter

abbrev noon : ℕ
noon = 100 * hour

abbrev event_at : ℕ → Event
event_at ts = record {
  ts = ts;
  tenant_id = codes "acme";
  source = codes "firewall";
  vendor = none;
  product = none;
  event_type = none;
  event_subtype = none;
  severity = none;
  action = none;
  src_ip = none;
  src_port = none;
  dst_ip = none;
  dst_port = none;
  protocol = none;
  user_name = none;
  host = none;
  process = none;
  url = none;
  http_method = none;
  status_code = none;
  rule_name = none;
  rule_id = none;
  cloud_account_id = none;
  cloud_region = none;
  cloud_service = none;
  raw = [];
  tags = [];
}

abbrev stored : ℕ → ℕ → StoredEvent
stored id ts = record { id = pos id; received_at = ts; event = event_at ts }

abbrev params : SearchParams
params = record {
  filter = record no_filter {
    tenant = codes " acme ";
    sources = codes "b" ∷ codes " A" ∷ codes "b" ∷ [];
    query = codes "a%";
  };
  order = [];
  limit = pos 2;
  cursor = [];
}

abbrev found : SearchQuery
found = record {
  query = record {
    filter = record no_filter {
      tenant = codes "acme";
      sources = codes "a" ∷ codes "b" ∷ [];
      query = codes "a%";
    };
    addr = none;
    from = 76 * hour;
    to = 101 * hour;
  };
  ascending = false;
  limit = 2;
  after = none;
  hash = codes "acme";
}

-- The text is trimmed, the sources are in lower case and sorted, and the window is the default one.
accepted : resolve_search ascii cursors params noon ≡ ok found
unfolding resolve_search loghub.Search.bytes_less
accepted = refl

bad_limit :
    resolve_search ascii cursors (record params { limit = pos 1001 }) noon ≡ err invalid_param
unfolding resolve_search
bad_limit = refl

bad_cursor :
    resolve_search ascii cursors (record params { cursor = codes "x" }) noon ≡ err invalid_cursor
unfolding resolve_search
bad_cursor = refl

-- A cursor of another filter is refused.
other_tenant_cursor :
    resolve_search ascii cursors
      (record params {
        filter = record no_filter { tenant = codes "other" };
        cursor = write_cursor (cursor_after found (stored 5 noon));
      })
      noon
    ≡ err invalid_cursor
unfolding resolve_search
other_tenant_cursor = refl

escaped : like_escape (codes "5%_\\") ≡ codes "5\\%\\_\\\\"
unfolding like_escape
escaped = refl

parameters :
    (statement found).1
    ≡ time (76 * hour)
      ∷ time (101 * hour)
      ∷ text (codes "acme")
      ∷ texts (codes "a" ∷ codes "b" ∷ [])
      ∷ text (codes "%a\\%%")
      ∷ count 3
      ∷ []
unfolding statement
parameters = refl

swap : (x y : Bool) → (x || (y || (x || false))) ≡ (y || (x || false))
swap true true = refl
swap true false = refl
swap false true = refl
swap false false = refl

same_values :
    (s : Bytes)
    → contains (cleaned (λ s. s) (codes "b" ∷ codes "a" ∷ codes "b " ∷ [])) s
      ≡ contains (cleaned (λ s. s) (codes " a" ∷ codes "b" ∷ [])) s
unfolding cleaned loghub.Common.trim_space
same_values s = swap (bytes_eq (codes "b") s) (bytes_eq (codes "a") s)

normalize_set_unique_example :
    normalize_set (λ s. s) (codes "b" ∷ codes "a" ∷ codes "b " ∷ [])
    ≡ normalize_set (λ s. s) (codes " a" ∷ codes "b" ∷ [])
normalize_set_unique_example =
    normalize_set_unique (λ s. s) (codes "b" ∷ codes "a" ∷ codes "b " ∷ [])
      (codes " a" ∷ codes "b" ∷ []) same_values

statement-Refers_example : All (Refers (length (statement found).1)) (statement found).0
statement-Refers_example = statement-Refers found

abbrev hostile : SearchQuery
hostile = record found {
  query = record found.query {
    filter = record found.query.filter { tenant = codes "' OR 1=1"; query = codes "x') --" };
  };
}

statement_same_example : (statement found).0 ≡ (statement hostile).0
unfolding loghub.Search.Statement.escaped_in_json
statement_same_example =
    statement_same found hostile
      (refl, refl, refl, refl, refl, refl, refl, refl, refl, refl, refl, refl) refl refl

abbrev rows : List StoredEvent
rows = stored 1 noon ∷ stored 2 noon ∷ stored 3 noon ∷ []

resolve_search_resumes_example :
    resolve_search ascii cursors
      (record params { cursor = write_cursor (cursor_after found (stored 5 noon)) })
      (noon + hour)
    ≡ ok (record found { after = some (cursor_after found (stored 5 noon)) })
resolve_search_resumes_example =
    resolve_search_resumes ascii cursors write_not_empty read_write params noon (noon + hour)
      (stored 5 noon) accepted

resolve_search_window_example :
    (76 * hour < 101 * hour)
    × (same_time none (76 * hour) ≡ true)
    × (same_time none (101 * hour) ≡ true)
resolve_search_window_example = resolve_search_window ascii cursors params noon accepted
