-- ===== src/Syslog.antt =====
-- backend/internal/ingest/syslog.go: syslog headers. A position in the line is the text from there
-- on. An index out of range, which panics, is a result of its own.
pub mod Line
pub mod Structured
mod Tests
use loghub.Common.{
  ℕ, zero, suc, ◌+◌, ◌-◌, ◌*◌, ◌%◌, Bool, true, false, not, ◌&&◌, ◌||◌, List, [], ◌∷◌, Option, none,
  some, ltb, leb, ◌==◌, if◌then◌else◌, length, take, drop, ℤ, pos, negsuc, Bytes, codes, bytes_eq,
  is_empty, cut_prefix, trim_prefix, has_prefix, cut, index_byte,
}
use loghub.Kv.{is_letter, is_digit}

pub record SyslogMsg : Type 0 where
  pub severity : Option ℕ
  pub time : Option ℕ
  pub host : Bytes
  pub app : Bytes
  pub body : Bytes

abbrev pub body_only : Bytes → SyslogMsg
body_only body = record { severity = none; time = none; host = []; app = []; body = body }

-- `time.Parse` with the layout RFC3339, and whether it reads a text with the layout Stamp.
pub record TimeLib : Type 0 where
  pub parse_rfc3339 : Bytes → Option ℕ
  pub is_stamp : Bytes → Bool

unfoldable pub digits : ℕ → Bytes → Option ℕ
unfolding is_digit
digits n [] = some n
digits n (c ∷ s) = let rest = digits (10 * n + (c - b'0')) s in if is_digit c then rest else none

abbrev pub unsigned : Bytes → Option ℕ
unsigned [] = none
unsigned (c ∷ s) = digits 0 (c ∷ s)

abbrev pub negated : Option ℕ → Option ℤ
negated none = none
negated (some zero) = some (pos zero)
negated (some (suc n)) = some (negsuc n)

abbrev pub signed : Option ℕ → Option ℤ
signed none = none
signed (some n) = some (pos n)

-- `strconv.Atoi`, on a text too short to overflow.
unfoldable pub atoi : Bytes → Option ℤ
unfolding digits
atoi [] = none
atoi (c ∷ s) =
    if c == b'-'
    then negated (unsigned s)
    else if c == b'+'
    then signed (unsigned s)
    else signed (unsigned (c ∷ s))

abbrev pub in_range : Option ℤ → Option ℕ
in_range none = none
in_range (some (pos n)) = if ltb 191 n then none else some n
in_range (some (negsuc n)) = none

abbrev pub with_rest : Bytes → Option ℕ → Option (ℕ × Bytes)
with_rest rest none = none
with_rest rest (some n) = some (n, rest)

unfoldable pub pri_at : Bytes → Option ℕ → Option (ℕ × Bytes)
unfolding atoi
pri_at line none = none
pri_at line (some end) =
    if ltb end 2 || ltb 4 end
    then none
    else with_rest (drop (end + 1) line) (in_range (atoi (take (end - 1) (drop 1 line))))

-- `parsePRI`
unfoldable pub parse_pri : Bytes → Option (ℕ × Bytes)
unfolding has_prefix pri_at index_byte
parse_pri line = if has_prefix line (codes "<") then pri_at line (index_byte line b'>') else none

-- Where the structured data ends: at the text given, or it is none, or the code's index leaves the
-- line, which panics.
pub data SdEnd : Type 0 where
  ended : Bytes → SdEnd
  refused : SdEnd
  panics : SdEnd

-- Behind an element, or at the start.
abbrev pub sd_stop : Bool → Bytes → SdEnd
sd_stop started [] = if started then ended [] else refused
sd_stop started (c ∷ s) = if started && c == b' ' then ended (c ∷ s) else refused

-- The loops of `structuredDataEnd`: `none` is between elements, `some v` inside one, where `v` is
-- `inValue`. An escape skips the byte behind it, and where there is none the index passes the end
-- of the line and is used.
unfoldable pub sd_from : Option Bool → Bool → Bytes → SdEnd
sd_from none started [] = sd_stop started []
sd_from none started (c ∷ s) =
    let inside = sd_from (some false) true s in
    if c == b'[' then inside else sd_stop started (c ∷ s)
sd_from (some v) started [] = refused
sd_from (some v) started (c ∷ []) =
    if c == b'\\' && v
    then panics
    else if c == b']' && not (if c == b'"' then not v else v)
    then ended []
    else refused
sd_from (some v) started (c ∷ d ∷ s) =
    let skipped = sd_from (some v) started s in
    let closed = sd_from none true (d ∷ s) in
    let next = sd_from (some (if c == b'"' then not v else v)) started (d ∷ s) in
    if c == b'\\' && v
    then skipped
    else if c == b']' && not (if c == b'"' then not v else v)
    then closed
    else next

-- `structuredDataEnd`
unfoldable pub structured_data_end : Bytes → SdEnd
unfolding sd_from
structured_data_end [] = refused
structured_data_end (c ∷ s) = if c == b'-' then sd_stop true s else sd_from none false (c ∷ s)
