-- ===== src/Syslog/Line.antt =====
-- The two headers and `parseSyslog`.
use loghub.Common.{
  ℕ, zero, suc, ◌%◌, Bool, ◌&&◌, ◌||◌, List, [], ◌∷◌, Option, none, some, ltb, ◌==◌, if◌then◌else◌,
  length, take, drop, Bytes, codes, bytes_eq, is_empty, cut_prefix, trim_prefix, cut,
}
use loghub.Kv.{is_letter, is_digit}
use loghub.Syslog.{
  SyslogMsg, TimeLib, body_only, parse_pri, SdEnd, ended, refused, panics, structured_data_end,
}

-- What a header's parser returns; `panicked` is an index out of range.
pub data Header : Type 0 where
  parsed : SyslogMsg → Header
  no_header : Header
  panicked : Header

unfoldable pub nil_value : Bytes → Bytes
unfolding bytes_eq
nil_value s = if bytes_eq s (codes "-") then [] else s

abbrev pub with_field : Bytes → Option (List Bytes × Bytes) → Option (List Bytes × Bytes)
with_field f none = none
with_field f (some (fs, rest)) = some (f ∷ fs, rest)

-- The next `n` fields, each of which a space ends.
unfoldable pub fields : ℕ → Bytes → Option (List Bytes × Bytes)
unfolding cut
fields zero s = some ([], s)
fields (suc n) s =
    let (f, rest, found) = cut s b' ' in
    let more = fields n rest in if found then with_field f more else none

abbrev pub byte_order_mark : Bytes
byte_order_mark = 0xEF ∷ 0xBB ∷ 0xBF ∷ []

unfoldable pub message : SyslogMsg → SdEnd → Header
unfolding trim_prefix
message m (ended rest) =
    parsed (record m { body = trim_prefix (trim_prefix rest (codes " ")) byte_order_mark })
message m refused = no_header
message m panics = panicked

unfoldable pub timed : Option ℕ → SyslogMsg → Bytes → Header
unfolding structured_data_end
timed none m rest = no_header
timed (some t) m rest = message (record m { time = some t }) (structured_data_end rest)

unfoldable pub from_fields : TimeLib → Option (List Bytes × Bytes) → Header
unfolding bytes_eq structured_data_end
from_fields lib (some (ts ∷ host ∷ app ∷ fs, rest)) =
    let m = record (body_only []) { host = nil_value host; app = nil_value app } in
    if bytes_eq ts (codes "-")
    then message m (structured_data_end rest)
    else timed (lib.parse_rfc3339 ts) m rest
from_fields lib _ = no_header

unfoldable pub parse_5424 : TimeLib → Bytes → Header
unfolding fields from_fields
parse_5424 lib s = from_fields lib (fields 5 s)

unfoldable pub is_tag_byte : ℕ → Bool
unfolding is_letter is_digit
is_tag_byte c =
    is_letter c || (is_digit c || (c == b'_' || (c == b'.' || (c == b'/' || c == b'-'))))

-- The longest start of a text whose bytes pass, and the rest.
unfoldable pub span : (ℕ → Bool) → Bytes → Bytes × Bytes
span p [] = ([], [])
span p (c ∷ s) = let (run, rest) = span p s in if p c then (c ∷ run, rest) else ([], c ∷ s)

abbrev pub after_colon : Bytes → Option Bytes
after_colon [] = none
after_colon (c ∷ []) = if c == b':' then some [] else none
after_colon (c ∷ d ∷ s) = if c == b':' && d == b' ' then some s else none

abbrev pub after_bracket : Bytes × Bytes → Option Bytes
after_bracket ([], rest) = none
after_bracket (d ∷ run, []) = none
after_bracket (d ∷ run, c ∷ rest) = if c == b']' then after_colon rest else none

unfoldable pub after_name : Bytes → Option Bytes
unfolding span is_digit
after_name [] = none
after_name (c ∷ s) = if c == b'[' then after_bracket (span is_digit s) else after_colon (c ∷ s)

abbrev pub tagged : Bytes → Option Bytes → Option (Bytes × Bytes)
tagged run none = none
tagged run (some rest) = some (run, rest)

unfoldable pub tag_of : Bytes × Bytes → Option (Bytes × Bytes)
unfolding after_name
tag_of (run, rest) =
    if is_empty run || ltb 48 (length run) then none else tagged run (after_name rest)

-- A match of `tag3164`: the app and what follows the match. None of the bytes that may follow the
-- name is one of the name, so the longest run is the only one that can match.
unfoldable pub tag_3164 : Bytes → Option (Bytes × Bytes)
unfolding span is_tag_byte tag_of
tag_3164 s = tag_of (span is_tag_byte s)

abbrev pub with_tag : Bytes → Bytes → Option (Bytes × Bytes) → Header
with_tag host s none = parsed (record (body_only s) { host = host })
with_tag host s (some (app, rest)) = parsed (record (body_only rest) { host = host; app = app })

unfoldable pub after_host : Bytes × Bytes × Bool → Header
unfolding tag_3164
after_host (host, rest, found) = with_tag host rest (tag_3164 rest)

unfoldable pub untagged : Bytes → Option (Bytes × Bytes) → Header
unfolding cut after_host
untagged s none = after_host (cut s b' ')
untagged s (some tag) = with_tag [] s (some tag)

unfoldable pub stamped : TimeLib → Bytes → Bytes → Header
unfolding tag_3164 untagged
stamped lib stamp [] = no_header
stamped lib stamp (c ∷ s) =
    if c == b' ' && lib.is_stamp stamp then untagged s (tag_3164 s) else no_header

-- The layout Stamp is 15 bytes long.
unfoldable pub parse_3164 : TimeLib → Bytes → Header
unfolding stamped
parse_3164 lib s = stamped lib (take 15 s) (drop 15 s)

unfoldable pub trim_line : Bytes → Bytes
trim_line [] = []
trim_line (c ∷ s) =
    let rest = trim_line s in if is_empty rest && (c == 13 || c == 10) then [] else c ∷ rest

abbrev pub with_severity : ℕ → SyslogMsg → SyslogMsg
with_severity pri m = record m { severity = some (pri % 8) }

abbrev pub or_body : ℕ → Bytes → Header → Option SyslogMsg
or_body pri rest (parsed m) = some (with_severity pri m)
or_body pri rest no_header = some (with_severity pri (body_only rest))
or_body pri rest panicked = none

unfoldable pub or_3164 : TimeLib → ℕ → Bytes → Header → Option SyslogMsg
unfolding parse_3164
or_3164 lib pri rest (parsed m) = some (with_severity pri m)
or_3164 lib pri rest no_header = or_body pri rest (parse_3164 lib rest)
or_3164 lib pri rest panicked = none

unfoldable pub version_1 : TimeLib → Option Bytes → Header
unfolding parse_5424
version_1 lib none = no_header
version_1 lib (some after) = parse_5424 lib after

unfoldable pub after_pri : TimeLib → Bytes → Option (ℕ × Bytes) → Option SyslogMsg
unfolding version_1 or_3164 cut_prefix
after_pri lib line none = some (body_only line)
after_pri lib line (some (pri, rest)) =
    or_3164 lib pri rest (version_1 lib (cut_prefix rest (codes "1 ")))

-- `parseSyslog`; `none` is a panic.
unfoldable pub parse_syslog : TimeLib → Bytes → Option SyslogMsg
unfolding trim_line parse_pri after_pri
parse_syslog lib line = after_pri lib (trim_line line) (parse_pri (trim_line line))
