-- ===== src/Kv/RoundTrip.antt =====
-- Reading back pairs that are written with quoted values, and what every key looks like.
use mathlib.Core.List.{append-nil, append_assoc}
use mathlib.Core.Option.{some-injective}
use mathlib.Core.Path.{subst}
use loghub.Common.{
  ℕ, zero, suc, ◌+◌, ◌≤◌, ◌<◌, ◌≡◌, refl, ap, sym, ◌∙◌, Bool, true, false, ◌||◌, List, [], ◌∷◌,
  ◌++◌, some, map, arith, ◌==◌, if◌then◌else◌, Bool-cases, Option-cases, length, length-append,
  Bytes, All, All-append, inl, inr,
}
use loghub.Kv.{
  KvPair, is_blank, is_key_byte, in_value, key_from, key_at, unquote, token, skip_blanks,
  extend_last, read_value, round, parse_from, parse_kv, result_or,
}
use loghub.Kv.Total.{parse_kv_total, skip_blanks-cases}

abbrev pub KeyBytes : Bool → Bytes → Type 0
KeyBytes started key = All (λ c. is_key_byte started c ≡ true) key

-- A key: a letter or `_`, then letters, digits, `_`, `.` and `-`.
abbrev pub IsKey : Bytes → Type 0
IsKey [] = ⊥
IsKey (c ∷ key) = (is_key_byte false c ≡ true) × KeyBytes true key

-- A value between quotes: quotes and backslashes are escaped.
abbrev pub escape : Bytes → Bytes
escape [] = []
escape (c ∷ s) =
    let rest = escape s in if c == b'"' || c == b'\\' then b'\\' ∷ c ∷ rest else c ∷ rest

-- One pair, as the senders that quote write it.
abbrev pub write_pair : Bytes × Bytes → Bytes → Bytes
write_pair (key, value) rest = key ++ (b'=' ∷ b'"' ∷ (escape value ++ (b'"' ∷ b' ' ∷ rest)))

abbrev pub write : List (Bytes × Bytes) → Bytes
write [] = []
write (kv ∷ kvs) = write_pair kv (write kvs)

abbrev pub pair_of : Bytes × Bytes → KvPair
pair_of (key, value) = record { key = key; value = value; quoted = true }

key_byte_not_eq : (started : Bool) (c : ℕ) → is_key_byte started c ≡ true → (c == b'=') ≡ false
unfolding is_key_byte
key_byte_not_eq started c h = ground arith

key_byte_not_blank : (started : Bool) (c : ℕ) → is_key_byte started c ≡ true → is_blank c ≡ false
unfolding is_key_byte is_blank
key_byte_not_blank started c h = ground arith

key_from-key :
    (key rest : Bytes) → KeyBytes true key → key_from true (key ++ (b'=' ∷ rest)) ≡ some (key, rest)
unfolding key_from
key_from-key [] rest h = refl
key_from-key (c ∷ key) rest (p, h) =
    ground (arith, key_byte_not_eq true c p, key_from-key key rest h, p)

key_at-key : (key rest : Bytes) → IsKey key → key_at (key ++ (b'=' ∷ rest)) ≡ some (key, rest)
unfolding key_from
key_at-key [] rest h = absurd h
key_at-key (c ∷ key) rest (p, h) = ground (arith, key_from-key key rest h, p)

unquote_plain :
    (c : ℕ) (s : Bytes)
    → (c == b'"' || c == b'\\') ≡ false
    → unquote (c ∷ s) ≡ in_value c (unquote s)
unfolding unquote
unquote_plain c [] h = ground arith
unquote_plain c (d ∷ s) h = ground arith

unquote_escaped :
    (c : ℕ) (s : Bytes)
    → (c == b'"' || c == b'\\') ≡ true
    → unquote (b'\\' ∷ c ∷ s) ≡ in_value c (unquote s)
unfolding unquote
unquote_escaped c s h = ground arith

unquote-escape :
    (value rest : Bytes) → unquote (escape value ++ (b'"' ∷ b' ' ∷ rest)) ≡ (value, b' ' ∷ rest)
unquote-escape [] rest = unfold unquote in refl
unquote-escape (c ∷ value) rest =
    let ih = unquote-escape value rest in
    elim (Bool-cases (c == b'"' || c == b'\\')) [
      | inl special ↦ rw special (unquote_escaped c _ special ∙ ap (in_value c) ih)
      | inr plain ↦ rw plain (unquote_plain c _ plain ∙ ap (in_value c) ih)
    ]

round-write_pair :
    (key value rest : Bytes) (pairs : List KvPair)
    → IsKey key
    → round (write_pair (key, value) rest) pairs ≡ (b' ' ∷ rest, pairs ++ pair_of (key, value) ∷ [])
unfolding round
round-write_pair key value rest pairs h =
    rw (key_at-key key (b'"' ∷ (escape value ++ (b'"' ∷ b' ' ∷ rest))) h, round)
      (unfold read_value in rw (unquote-escape value rest))

-- A written pair starts with a byte that is no blank.
skip_blanks-write_pair :
    (key value rest : Bytes)
    → IsKey key
    → (c : ℕ) × (t : Bytes) × (write_pair (key, value) rest ≡ c ∷ t)
      × (skip_blanks (b' ' ∷ write_pair (key, value) rest) ≡ c ∷ t)
unfolding skip_blanks is_blank
skip_blanks-write_pair [] value rest h = absurd h
skip_blanks-write_pair (c ∷ key) value rest (p, h) =
    (c, _, refl, ground (arith, key_byte_not_blank false c p))

parse_from_step :
    (fuel : ℕ) (s u rest : Bytes) (pairs pairs' : List KvPair) (c : ℕ) (t : Bytes)
    → skip_blanks s ≡ c ∷ t
    → u ≡ c ∷ t
    → round u pairs ≡ (rest, pairs')
    → parse_from (suc fuel) s pairs ≡ parse_from fuel rest pairs'
unfolding parse_from
parse_from_step fuel s u rest pairs pairs' c t at_c e done =
    let next : round (c ∷ t) pairs ≡ (rest, pairs') = rw (← e) done in
    rw (at_c, parse_from) (rw next)

parse_from-write :
    (kvs : List (Bytes × Bytes)) (fuel : ℕ) (pairs : List KvPair)
    → All (λ kv. IsKey kv.0) kvs
    → length kvs < fuel
    → parse_from fuel (b' ' ∷ write kvs) pairs ≡ some (pairs ++ map pair_of kvs)
unfolding parse_from
parse_from-write kvs zero pairs h lt = absurd (omega arith)
parse_from-write [] (suc fuel) pairs h lt = unfold skip_blanks in rw append-nil
parse_from-write ((key, value) ∷ kvs) (suc fuel) pairs (p, h) lt =
    let (c, t, e, at_c) = skip_blanks-write_pair key value (write kvs) p in
    parse_from_step fuel (b' ' ∷ write ((key, value) ∷ kvs)) (write_pair (key, value) (write kvs))
      (b' ' ∷ write kvs) pairs (pairs ++ pair_of (key, value) ∷ []) c t at_c e
      (round-write_pair key value (write kvs) pairs p)
    ∙ parse_from-write kvs fuel (pairs ++ pair_of (key, value) ∷ []) h (omega arith)
    ∙ ap some (append_assoc pairs (pair_of (key, value) ∷ []) (map pair_of kvs))

length-write : (kvs : List (Bytes × Bytes)) → length kvs ≤ length (write kvs)
length-write [] = omega arith
length-write ((key, value) ∷ kvs) = omega (
  arith,
  length-write kvs,
  length-append key (b'=' ∷ b'"' ∷ (escape value ++ (b'"' ∷ b' ' ∷ write kvs))),
  length-append (escape value) (b'"' ∷ b' ' ∷ write kvs),
)

skip_blanks_space : (s : Bytes) → skip_blanks (b' ' ∷ s) ≡ skip_blanks s
unfolding skip_blanks is_blank
skip_blanks_space s = refl

parse_from_space :
    (fuel : ℕ) (s : Bytes) (pairs : List KvPair)
    → parse_from fuel (b' ' ∷ s) pairs ≡ parse_from fuel s pairs
unfolding parse_from
parse_from_space zero s pairs = refl
parse_from_space (suc fuel) s pairs = rw (skip_blanks_space s, parse_from)

-- Whatever the values are, quotes, backslashes and blanks included, pairs with proper keys that
-- are written with quoted and escaped values are read back, in order.
pub parse_kv-write :
    (kvs : List (Bytes × Bytes))
    → All (λ kv. IsKey kv.0) kvs
    → parse_kv (write kvs) ≡ map pair_of kvs
unfolding parse_kv
parse_kv-write kvs h = ap result_or (
    sym (parse_from_space (length (write kvs) + 1) (write kvs) [])
    ∙ parse_from-write kvs (length (write kvs) + 1) [] h (omega (arith, length-write kvs)))

key_from-IsKey :
    (s : Bytes) {key rest : Bytes} → key_from true s ≡ some (key, rest) → KeyBytes true key
unfolding key_from
key_from-IsKey [] h = cc
key_from-IsKey (c ∷ s) h = elim (Option-cases (key_from true s)) [
  | inl no_key ↦ ground arith
  | inr ((k, r), found) ↦ ground (arith, key_from-IsKey s found)
]

key_at-IsKey : (s : Bytes) {key rest : Bytes} → key_at s ≡ some (key, rest) → IsKey key
unfolding key_from
key_at-IsKey [] h = cc
key_at-IsKey (c ∷ s) h = elim (Option-cases (key_from true s)) [
  | inl no_key ↦ ground arith
  | inr ((k, r), found) ↦ ground (arith, key_from-IsKey s found)
]

abbrev HasKey : KvPair → Type 0
HasKey p = IsKey p.key

extend_last-keys :
    (pairs : List KvPair) (t : Bytes) → All HasKey pairs → All HasKey (extend_last pairs t)
unfolding extend_last
extend_last-keys [] t h = tt
extend_last-keys (p ∷ []) t h = ground arith
extend_last-keys (p ∷ q ∷ ps) t (h, k) = (h, extend_last-keys (q ∷ ps) t k)

read_value-keys :
    (key rest : Bytes) (pairs : List KvPair)
    → IsKey key
    → All HasKey pairs
    → All HasKey (read_value key rest pairs).1
unfolding read_value
read_value-keys key [] pairs p h = All-append HasKey pairs _ h (p, tt)
read_value-keys key (c ∷ s) pairs p h = elim (Bool-cases (c == b'"')) [
  | inl quote ↦ rw quote (All-append HasKey pairs _ h (p, tt))
  | inr plain ↦ rw plain (All-append HasKey pairs _ h (p, tt))
]

round-keys : (s : Bytes) (pairs : List KvPair) → All HasKey pairs → All HasKey (round s pairs).1
unfolding round
round-keys s pairs h = elim (Option-cases (key_at s)) [
  | inl no_key ↦ rw (no_key, round) (extend_last-keys pairs (token s).0 h)
  | inr ((key, rest), found) ↦
      rw (found, round) (read_value-keys key rest pairs (key_at-IsKey s found) h)
]

parse_from-keys :
    (fuel : ℕ) (s : Bytes) (pairs : List KvPair) {out : List KvPair}
    → All HasKey pairs
    → parse_from fuel s pairs ≡ some out
    → All HasKey out
unfolding parse_from
parse_from-keys zero s pairs h e = cc
parse_from-keys (suc fuel) s pairs {out} h e = elim (skip_blanks-cases s) [
  | inl nothing ↦
      subst (λ ps. All HasKey ps) (some-injective pairs out (rw (nothing, parse_from) at e)) h
  | inr (c, t, at_c, other) ↦
      parse_from-keys fuel (round (c ∷ t) pairs).0 (round (c ∷ t) pairs).1
        (round-keys (c ∷ t) pairs h) (rw (at_c, parse_from) at e)
]

-- Whatever the body, every key that is read is a letter or `_` followed by letters, digits, `_`,
-- `.` and `-`, so it holds no blank and no `=`.
pub parse_kv-IsKey : (body : Bytes) → All (λ p. IsKey p.key) (parse_kv body)
parse_kv-IsKey body = parse_from-keys (length body + 1) body [] tt (parse_kv_total body)
