-- ===== src/Decimal.antt =====
-- `strconv.FormatInt(n, 10)`, and that it is read back.
pub mod RoundTrip
use loghub.Common.{
  ℕ, zero, suc, ◌+◌, ◌*◌, ◌/◌, ◌%◌, List, [], ◌∷◌, ◌++◌, ltb, if◌then◌else◌, ℤ, pos, negsuc, Bytes,
}

abbrev pub digit : ℕ → ℕ
digit n = b'0' + n

-- The digits of a number; each round drops one, so the number is fuel enough.
unfoldable pub show : ℕ → ℕ → Bytes
show zero n = []
show (suc fuel) n =
    let front = show fuel (n / 10) in
    if ltb n 10 then digit n ∷ [] else front ++ digit (n % 10) ∷ []

unfoldable pub format_int : ℤ → Bytes
unfolding show
format_int (pos n) = show (suc n) n
format_int (negsuc n) = b'-' ∷ show (suc (suc n)) (suc n)
