-- ===== src/RequestId/Order.antt =====
-- Identifiers of requests sort by time.
use loghub.Common.{
  ℕ, zero, suc, ◌/◌, ◌%◌, ◌<◌, ◌≡◌, ◌⊎◌, refl, sym, ◌∙◌, Bool, true, ◌&&◌, [], ◌∷◌, ◌++◌, length,
  length-append, ltb, all, Bytes, arith, inl, inr,
}
use loghub.Search.{bytes_less}
use loghub.RequestId.{id_encoding, nth, base_32, id_number, new_request_id}

base_32-length : (k n : ℕ) → length (base_32 k n) ≡ k
unfolding base_32
base_32-length zero n = refl
base_32-length (suc k) n = omega (
  arith,
  base_32-length k (n / 32),
  length-append (base_32 k (n / 32)) (nth id_encoding (n % 32) ∷ []),
)

abbrev increasing : Bytes → Bool
increasing [] = true
increasing (x ∷ xs) = all (λ y. ltb x y) xs && increasing xs

all-nth : (x : ℕ) (xs : Bytes) (n : ℕ) → all (λ y. ltb x y) xs ≡ true → n < length xs → x < nth xs n
all-nth x [] n h k = absurd (omega arith)
all-nth x (y ∷ xs) zero h k = ground arith
all-nth x (y ∷ xs) (suc n) h k = all-nth x xs n (ground arith) (omega arith)

nth-increasing :
    (xs : Bytes) (a b : ℕ) → increasing xs ≡ true → a < b → b < length xs → nth xs a < nth xs b
nth-increasing [] a b h k l = absurd (omega arith)
nth-increasing (x ∷ xs) zero zero h k l = absurd (omega arith)
nth-increasing (x ∷ xs) zero (suc b) h k l = all-nth x xs b (ground arith) (omega arith)
nth-increasing (x ∷ xs) (suc a) zero h k l = absurd (omega arith)
nth-increasing (x ∷ xs) (suc a) (suc b) h k l =
    nth-increasing xs a b (ground arith) (omega arith) (omega arith)

-- What comes behind texts of one length does not change their order.
less-append :
    (s t u v : Bytes)
    → length s ≡ length t
    → bytes_less s t ≡ true
    → bytes_less (s ++ u) (t ++ v) ≡ true
unfolding bytes_less
less-append [] [] u v h k = cc
less-append [] (y ∷ t) u v h k = absurd (omega arith)
less-append (x ∷ s) [] u v h k = cc
less-append (x ∷ s) (y ∷ t) u v h k = let later = less-append s t u v (omega arith) in ground arith

append-less : (s u v : Bytes) → bytes_less u v ≡ true → bytes_less (s ++ u) (s ++ v) ≡ true
unfolding bytes_less
append-less [] u v h = h
append-less (x ∷ s) u v h = let later = append-less s u v h in ground arith

one_less : (a b : ℕ) → a < b → bytes_less (a ∷ []) (b ∷ []) ≡ true
unfolding bytes_less
one_less a b h = ground arith

-- What is left of a number behind its lowest digits.
abbrev high : ℕ → ℕ → ℕ
high zero n = n
high (suc k) n = high k (n / 32)

digit_less : (a b : ℕ) → a < b → b < 32 → nth id_encoding a < nth id_encoding b
digit_less a b h l = nth-increasing id_encoding a b refl h l

by_digit : (n m : ℕ) → n < m → (n / 32 < m / 32) ⊎ ((n / 32 ≡ m / 32) × (n % 32 < m % 32))
by_digit n m h = ground arith

base_32-less : (k n m : ℕ) → n < m → high k m ≡ 0 → bytes_less (base_32 k n) (base_32 k m) ≡ true
unfolding base_32
base_32-less zero n m h l = absurd (omega arith)
base_32-less (suc k) n m h l = elim (by_digit n m h) [
  | inl less ↦
      less-append (base_32 k (n / 32)) (base_32 k (m / 32)) _ _
        (base_32-length k (n / 32) ∙ sym (base_32-length k (m / 32)))
        (base_32-less k (n / 32) (m / 32) less l)
  | inr (same, less) ↦ rw same (
      append-less (base_32 k (m / 32)) _ _ (
        one_less (nth id_encoding (n % 32)) (nth id_encoding (m % 32))
          (digit_less (n % 32) (m % 32) less (omega arith))))
]

id_number-less :
    (early late r s : ℕ)
    → early < late
    → late < 281_474_976_710_656
    → id_number early r < id_number late s
unfolding id_number
id_number-less early late r s h l = omega arith

id_number-fits : (ms r : ℕ) → high 16 (id_number ms r) ≡ 0
unfolding id_number
id_number-fits ms r = omega arith

-- The identifier of a request has 16 characters.
pub new_request_id-length : (ms random : ℕ) → length (new_request_id ms random) ≡ 16
unfolding new_request_id
new_request_id-length ms random = base_32-length 16 (id_number ms random)

-- Up to the year 10889, where the milliseconds since 1970 outgrow 48 bits, a request's identifier has
-- 16 characters and is less, as a text, than that of a request in a later millisecond, whatever the
-- random bits.
pub new_request_id-less :
    (early late r s : ℕ)
    → early < late
    → late < 281_474_976_710_656
    → (length (new_request_id early r) ≡ 16)
      × (bytes_less (new_request_id early r) (new_request_id late s) ≡ true)
unfolding new_request_id
new_request_id-less early late r s h l = (
  new_request_id-length early r,
  base_32-less 16 (id_number early r) (id_number late s) (id_number-less early late r s h l)
      (id_number-fits late s),
)
