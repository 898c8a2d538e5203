-- ===== src/Kv/Total.antt =====
-- The loop of `parseKV` ends: each round takes at least a byte, so the length of the body is fuel
-- enough.
use loghub.Common.{
  ℕ, zero, suc, ◌+◌, ◌≤◌, ◌<◌, ◌≡◌, refl, ap, sym, ◌∙◌, Bool, true, false, List, [], ◌∷◌, some,
  arith, Bool-cases, Option-cases, length, Bytes, ◌⊎◌, inl, inr,
}
use loghub.Kv.{
  KvPair, is_blank, key_from, key_at, unquote, token, skip_blanks, read_value, round, parse_from,
  parse_kv, result_or,
}

length-skip_blanks : (s : Bytes) → length (skip_blanks s) ≤ length s
unfolding skip_blanks
length-skip_blanks [] = omega arith
length-skip_blanks (c ∷ s) = ground (arith, length-skip_blanks s)

length-token : (s : Bytes) → length (token s).1 ≤ length s
unfolding token
length-token [] = omega arith
length-token (c ∷ s) = ground (arith, length-token s)

length-unquote : (s : Bytes) → length (unquote s).1 ≤ length s
unfolding unquote
length-unquote [] = omega arith
length-unquote (c ∷ []) = ground arith
length-unquote (c ∷ d ∷ s) = ground (arith, length-unquote s, length-unquote (d ∷ s))

length-key_from :
    (started : Bool) (s : Bytes) {key rest : Bytes}
    → key_from started s ≡ some (key, rest)
    → length rest < length s
unfolding key_from
length-key_from started [] h = absurd (ground arith)
length-key_from started (c ∷ s) {key} {rest} h = elim (Option-cases (key_from true s)) [
  | inl none_found ↦ ground arith
  | inr ((k, r), found) ↦ ground (arith, length-key_from true s found)
]

length-read_value :
    (key rest : Bytes) (pairs : List KvPair) → length (read_value key rest pairs).0 ≤ length rest
unfolding read_value
length-read_value key [] pairs = omega arith
length-read_value key (c ∷ s) pairs = ground (arith, length-unquote s, length-token (c ∷ s))

token-short : (c : ℕ) (t : Bytes) → is_blank c ≡ false → length (token (c ∷ t)).1 ≤ length t
unfolding token
token-short c t h = ground (arith, length-token t)

-- A round from a byte that is no blank takes at least that byte.
pub length-round :
    (c : ℕ) (t : Bytes) (pairs : List KvPair)
    → is_blank c ≡ false
    → length (round (c ∷ t) pairs).0 ≤ length t
unfolding round
length-round c t pairs h = elim (Option-cases (key_at (c ∷ t))) [
  | inl no_key ↦ rw (no_key, round) (token-short c t h)
  | inr ((key, rest), found) ↦
      rw (found, round)
        (omega (arith, length-read_value key rest pairs, length-key_from false (c ∷ t) found))
]

pub skip_blanks-cases :
    (s : Bytes)
    → (skip_blanks s ≡ [])
      ⊎ ((c : ℕ) × (t : Bytes) × (skip_blanks s ≡ c ∷ t) × (is_blank c ≡ false))
unfolding skip_blanks
skip_blanks-cases [] = inl refl
skip_blanks-cases (c ∷ s) = elim (Bool-cases (is_blank c)) [
  | inl blank ↦ rw blank (skip_blanks-cases s)
  | inr other ↦ rw other (inr (c, s, refl, other))
]

pub parse_from_total :
    (fuel : ℕ) (s : Bytes) (pairs : List KvPair)
    → length s < fuel
    → (out : List KvPair) × (parse_from fuel s pairs ≡ some out)
unfolding parse_from
parse_from_total zero s pairs h = elim h [ ]
parse_from_total (suc fuel) s pairs h = elim (skip_blanks-cases s) [
  | inl nothing ↦ (pairs, rw (nothing, parse_from))
  | inr (c, t, at_c, other) ↦
      let short = ap length at_c in
      let (out, e) =
        parse_from_total fuel (round (c ∷ t) pairs).0 (round (c ∷ t) pairs).1
          (omega (arith, short, length-skip_blanks s, length-round c t pairs other)) in
      (out, rw (at_c, parse_from) e)
]

-- `parseKV` returns on every body: the loop ends within the fuel that it is given.
pub parse_kv_total : (body : Bytes) → parse_from (length body + 1) body [] ≡ some (parse_kv body)
unfolding parse_kv
parse_kv_total body =
    let (out, e) = parse_from_total (length body + 1) body [] (omega arith) in
    e ∙ ap (λ o. some (result_or o)) (sym e)
