-- ===== src/Normalize/Builder.antt =====
-- The builder of an event, and what it reads of a record's fields.
use loghub.Common.{
  Bool, ◌||◌, List, [], ◌∷◌, ◌++◌, Option, none, some, ◌==◌, if◌then◌else◌, Bytes, codes, bytes_eq,
  is_empty, trim_space,
}
use loghub.Event.{Event}
use loghub.Kv.{is_digit}
use loghub.Normalize.{FieldLib, Setter, lookup, setters}

abbrev pub Fields : Type 0
Fields = List (Bytes × Bytes)

-- What `encoding/json` reads of a JSON text as a map of texts, a string, a list of strings, and
-- the two fields of a `cloudTrail`, which are empty where they are missing; and what it writes: a
-- map of texts, and the object that holds a line as its `message`.
pub record JsonLib : Type 0 where
  pub read_object : Bytes → Option Fields
  pub read_string : Bytes → Option Bytes
  pub read_strings : Bytes → Option (List Bytes)
  pub read_cloud_trail : Bytes → Bytes × Bytes
  pub write_object : Fields → Bytes
  pub write_message : Bytes → Bytes

pub record Builder : Type 0 where
  pub fields : Fields
  pub ev : Event
  pub sender_tags : List Bytes
  pub derived : List Bytes

abbrev pub empty_event : Event
empty_event = record {
  ts = 0;
  tenant_id = [];
  source = [];
  vendor = none;
  product = none;
  event_type = none;
  event_subtype = none;
  severity = none;
  action = none;
  src_ip = none;
  src_port = none;
  dst_ip = none;
  dst_port = none;
  protocol = none;
  user_name = none;
  host = none;
  process = none;
  url = none;
  http_method = none;
  status_code = none;
  rule_name = none;
  rule_id = none;
  cloud_account_id = none;
  cloud_region = none;
  cloud_service = none;
  raw = [];
  tags = [];
}

abbrev pub new_builder : Fields → Builder
new_builder fields = record { fields = fields; ev = empty_event; sender_tags = []; derived = [] }

abbrev pub add_tag : Builder → Bytes → Builder
add_tag b t = record b { derived = b.derived ++ t ∷ [] }

abbrev pub invalid : Builder → Bytes → Builder
invalid b key = add_tag b (codes "invalid:" ++ key)

unfoldable pub not_null : Option Bytes → Option Bytes
unfolding bytes_eq
not_null none = none
not_null (some raw) = if bytes_eq raw (codes "null") then none else some raw

-- A field, unless it is absent or JSON null.
unfoldable pub value : Fields → Bytes → Option Bytes
unfolding lookup not_null
value fields key = not_null (lookup key fields)

-- A JSON string or number as text.
unfoldable pub scalar : JsonLib → Bytes → Option Bytes
unfolding is_digit
scalar json [] = none
scalar json (c ∷ raw) =
    if c == b'"'
    then json.read_string (c ∷ raw)
    else if c == b'-' || is_digit c
    then some (c ∷ raw)
    else none

abbrev pub or_empty : Option Bytes → Bytes
or_empty none = []
or_empty (some s) = s

unfoldable pub extra_of : JsonLib → Option Bytes → Bytes
unfolding scalar trim_space
extra_of json none = []
extra_of json (some raw) = trim_space (or_empty (scalar json raw))

unfoldable pub extra : JsonLib → Fields → Bytes → Bytes
unfolding value extra_of
extra json fields key = extra_of json (value fields key)

abbrev pub given_or : Bytes → Bytes → Option Bytes
given_or fallback s = if is_empty s then some fallback else some s

unfoldable pub string_or : Bytes → Option Bytes → Option Bytes
unfolding trim_space
string_or fallback none = none
string_or fallback (some s) = given_or fallback (trim_space s)

unfoldable pub identity_of : JsonLib → Bytes → Option Bytes → Option Bytes
unfolding string_or
identity_of json fallback none = some fallback
identity_of json fallback (some raw) = string_or fallback (json.read_string raw)

-- The record's own tenant or source, or the default; `none` if it is not a string.
unfoldable pub identity : JsonLib → Fields → Bytes → Bytes → Option Bytes
unfolding value identity_of
identity json fields key fallback = identity_of json fallback (value fields key)

abbrev pub finish_set : Builder → Bytes → Event × Bool → Builder
finish_set b key (ev, fits) = let b' = record b { ev = ev } in if fits then b' else invalid b' key

abbrev pub set_with : Builder → Bytes → Bytes → Option Setter → Builder
set_with b key v none = b
set_with b key v (some set) = finish_set b key (set b.ev v)

-- Sets a field of the schema to a text, and tags the event if the text cannot be coerced. A field
-- that the schema does not have is passed over.
unfoldable pub set_field : FieldLib → Builder → Bytes → Bytes → Bytes → Builder
unfolding lookup setters
set_field lib b key field v = set_with b key v (lookup field (setters lib))

abbrev pub tags_read : Builder → Option (List Bytes) → Builder
tags_read b none = invalid (record b { sender_tags = [] }) (codes "_tags")
tags_read b (some tags) = record b { sender_tags = tags }

abbrev pub tags_of : JsonLib → Builder → Option Bytes → Builder
tags_of json b none = b
tags_of json b (some raw) = tags_read b (json.read_strings raw)

-- `readSenderTags`
unfoldable pub read_sender_tags : JsonLib → Builder → Builder
unfolding value
read_sender_tags json b = tags_of json b (value b.fields (codes "_tags"))
