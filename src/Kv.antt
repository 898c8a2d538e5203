-- ===== src/Kv.antt =====
-- backend/internal/ingest/kv.go: key=value bodies. A position in the body is the text from there
-- on; the outer loop takes fuel, one unit for each round.
pub mod Total
pub mod RoundTrip
mod Tests
use loghub.Common.{
  ℕ, zero, suc, ◌+◌, Bool, true, false, ◌&&◌, ◌||◌, List, [], ◌∷◌, ◌++◌, Option, none, some, leb,
  ◌==◌, if◌then◌else◌, length, Bytes, is_empty,
}

unfoldable pub is_blank : ℕ → Bool
is_blank c = c == b' ' || c == b'\t'

unfoldable pub is_letter : ℕ → Bool
is_letter c = (leb b'a' c && leb c b'z') || (leb b'A' c && leb c b'Z')

unfoldable pub is_digit : ℕ → Bool
is_digit c = leb b'0' c && leb c b'9'

pub record KvPair : Type 0 where
  pub key : Bytes
  pub value : Bytes
  pub quoted : Bool

-- What may stand in a key; the flag is `i > 0`.
unfoldable pub is_key_byte : Bool → ℕ → Bool
unfolding is_letter is_digit
is_key_byte started c =
    is_letter c || c == b'_' || (started && (is_digit c || c == b'.' || c == b'-'))

abbrev pub with_byte : ℕ → Option (Bytes × Bytes) → Option (Bytes × Bytes)
with_byte c none = none
with_byte c (some (key, rest)) = some (c ∷ key, rest)

-- `keyAt`: the key, and what follows `key=`.
unfoldable pub key_from : Bool → Bytes → Option (Bytes × Bytes)
unfolding is_key_byte
key_from started [] = none
key_from started (c ∷ s) =
    let rest = key_from true s in
    if c == b'=' && started
    then some ([], s)
    else if is_key_byte started c
    then with_byte c rest
    else none

abbrev pub key_at : Bytes → Option (Bytes × Bytes)
key_at = key_from false

abbrev pub in_value : ℕ → Bytes × Bytes → Bytes × Bytes
in_value c (value, rest) = (c ∷ value, rest)

-- `unquote`, from behind the opening quote: the value, and what follows the closing one.
unfoldable pub unquote : Bytes → Bytes × Bytes
unquote [] = ([], [])
unquote (c ∷ []) = if c == b'"' then ([], []) else (c ∷ [], [])
unquote (c ∷ d ∷ s) =
    let escaped = unquote s in
    let plain = unquote (d ∷ s) in
    if c == b'\\' && (d == b'"' || d == b'\\')
    then in_value d escaped
    else if c == b'"'
    then ([], d ∷ s)
    else in_value c plain

-- `tokenEnd`: the bytes up to the next blank, and the rest.
unfoldable pub token : Bytes → Bytes × Bytes
unfolding is_blank
token [] = ([], [])
token (c ∷ s) = let rest = token s in if is_blank c then ([], c ∷ s) else in_value c rest

unfoldable pub skip_blanks : Bytes → Bytes
unfolding is_blank
skip_blanks [] = []
skip_blanks (c ∷ s) = let rest = skip_blanks s in if is_blank c then rest else c ∷ s

-- A token that starts no pair continues the last value, unless that was quoted.
unfoldable pub extend : KvPair → Bytes → KvPair
extend p t =
    if p.quoted
    then p
    else if is_empty p.value
    then record p { value = t }
    else record p { value = p.value ++ (b' ' ∷ t) }

unfoldable pub extend_last : List KvPair → Bytes → List KvPair
unfolding extend
extend_last [] t = []
extend_last (p ∷ []) t = extend p t ∷ []
extend_last (p ∷ q ∷ ps) t = p ∷ extend_last (q ∷ ps) t

-- an unquoted value
abbrev pub plain_pair : Bytes → List KvPair → Bytes × Bytes → Bytes × List KvPair
plain_pair key pairs (t, rest) =
    (rest, pairs ++ (record { key = key; value = t; quoted = false } ∷ []))

abbrev pub quoted_pair : Bytes → List KvPair → Bytes × Bytes → Bytes × List KvPair
quoted_pair key pairs (value, rest) =
    (rest, pairs ++ (record { key = key; value = value; quoted = true } ∷ []))

-- what follows `key=`
unfoldable pub read_value : Bytes → Bytes → List KvPair → Bytes × List KvPair
unfolding token unquote
read_value key [] pairs = plain_pair key pairs (token [])
read_value key (c ∷ s) pairs =
    if c == b'"' then quoted_pair key pairs (unquote s) else plain_pair key pairs (token (c ∷ s))

abbrev pub continued : List KvPair → Bytes × Bytes → Bytes × List KvPair
continued pairs (t, rest) = (rest, extend_last pairs t)

-- One round, at a byte that is no blank.
unfoldable pub round : Bytes → List KvPair → Bytes × List KvPair
unfolding key_from read_value token extend_last
round s pairs = elim (key_at s) [
  | none ↦ continued pairs (token s)
  | some (key, rest) ↦ read_value key rest pairs
]

-- The loop of `parseKV`; `none` is a lack of fuel.
unfoldable pub parse_from : ℕ → Bytes → List KvPair → Option (List KvPair)
unfolding skip_blanks
parse_from zero s pairs = none
parse_from (suc fuel) s pairs = elim (skip_blanks s) [
  | [] ↦ some pairs
  | c ∷ t ↦ (let (rest, pairs') = round (c ∷ t) pairs in parse_from fuel rest pairs')
]

abbrev pub result_or : Option (List KvPair) → List KvPair
result_or none = []
result_or (some pairs) = pairs

unfoldable pub parse_kv : Bytes → List KvPair
parse_kv body = result_or (parse_from (length body + 1) body [])
