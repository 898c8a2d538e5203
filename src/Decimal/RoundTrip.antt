-- ===== src/Decimal/RoundTrip.antt =====
-- A printed number is read back as itself.
use loghub.Common.{
  ℕ, zero, suc, ◌+◌, ◌-◌, ◌*◌, ◌/◌, ◌%◌, ◌<◌, ◌≡◌, ◌≢◌, refl, [], ◌∷◌, ◌++◌, ltb, arith, true,
  false, Bool-cases, inl, inr, Option, none, some, pos, Bytes, ◌==◌, ap, ◌∙◌, ltb→lt,
}
use loghub.Kv.{is_digit}
use loghub.Syslog.{digits, atoi}
use loghub.Auth.{min_int64, parse_int64}
use loghub.Decimal.{digit, show, format_int}

digits-append :
    (acc v : ℕ) (s : Bytes) (c : ℕ)
    → digits acc s ≡ some v
    → is_digit c ≡ true
    → digits acc (s ++ c ∷ []) ≡ some (10 * v + (c - b'0'))
unfolding digits
digits-append acc v [] c h d = let same : acc ≡ v = cc in rw (d, same) refl
digits-append acc v (x ∷ s) c h d = elim (Bool-cases (is_digit x)) [
  | inl yes_digit ↦
      (let rest : digits (10 * acc + (x - b'0')) s ≡ some v = rw (yes_digit, digits) at h in
        rw yes_digit (digits-append (10 * acc + (x - b'0')) v s c rest d))
  | inr other ↦ (let bad : none ≡ some v = rw (other, digits) at h in cc)
]

is_digit-digit : (n : ℕ) → n < 10 → is_digit (digit n) ≡ true
unfolding is_digit
is_digit-digit n h = ground arith

digits_one : (n : ℕ) → n < 10 → digits 0 (digit n ∷ []) ≡ some n
unfolding digits
digits_one n h = rw (is_digit-digit n h) (ap some (omega arith))

digits-show : (fuel n : ℕ) → n < fuel → digits 0 (show fuel n) ≡ some n
unfolding show
digits-show zero n h = absurd (omega arith)
digits-show (suc fuel) n h = elim (Bool-cases (ltb n 10)) [
  | inl small ↦ rw small (digits_one n (ltb→lt n 10 small))
  | inr big ↦
      (let front = digits-show fuel (n / 10) (ground arith) in
        let last = is_digit-digit (n % 10) (omega arith) in
        rw big (
          digits-append 0 (n / 10) (show fuel (n / 10)) (digit (n % 10)) front last
          ∙ ap some (omega arith)))
]

not_none : (n : ℕ) → Path (Option ℕ) none (some n) → ⊥
not_none n h = cc

no_sign : (c sign : ℕ) → is_digit c ≡ true → sign < b'0' → (c == sign) ≡ false
unfolding is_digit
no_sign c sign h k = ground arith

-- Digits that are read are no sign.
atoi-digits : (s : Bytes) (n : ℕ) → s ≢ [] → digits 0 s ≡ some n → atoi s ≡ some (pos n)
unfolding atoi digits
atoi-digits [] n some_digit h = absurd (some_digit refl)
atoi-digits (c ∷ s) n some_digit h = elim (Bool-cases (is_digit c)) [
  | inr other ↦ absurd (not_none n (rw (other, digits) at h))
  | inl yes_digit ↦
      (let minus : (c == b'-') ≡ false = no_sign c b'-' yes_digit (omega arith) in
        let plus : (c == b'+') ≡ false = no_sign c b'+' yes_digit (omega arith) in
        let read : digits (0 + (c - b'0')) s ≡ some n = rw (yes_digit, digits) at h in
        rw (minus, plus, yes_digit, read) refl)
]

append_one_ne : (s : Bytes) (c : ℕ) → s ++ c ∷ [] ≢ []
append_one_ne [] c h = cc
append_one_ne (x ∷ s) c h = cc

show-ne : (fuel n : ℕ) → show (suc fuel) n ≢ []
unfolding show
show-ne fuel n h = elim (Bool-cases (ltb n 10)) [
  | inl small ↦ (let no : digit n ∷ [] ≡ [] = rw small at h in cc)
  | inr big ↦ append_one_ne (show fuel (n / 10)) (digit (n % 10)) (rw (big, show) at h)
]

lt→ltb : (a b : ℕ) → a < b → ltb a b ≡ true
lt→ltb a b h = ground arith

-- A positive 64-bit integer is read back.
pub parse_int64-format_int :
    (n : ℕ) → n < min_int64 → parse_int64 (format_int (pos n)) ≡ some (pos n)
unfolding parse_int64 format_int
parse_int64-format_int n h =
    let read = digits-show (suc n) n (omega arith) in
    let fits : ltb n min_int64 ≡ true = lt→ltb n min_int64 h in
    rw (atoi-digits (show (suc n) n) n (show-ne n n) read) (rw fits refl)
