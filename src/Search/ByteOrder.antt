-- ===== src/Search/ByteOrder.antt =====
-- The order of strings by bytes is a strict total order.
use mathlib.Core.Path.{subst}
use loghub.Common.{
  ◌≡◌, refl, true, false, [], ◌∷◌, arith, Bool-cases, Bytes, bytes_eq, bytes_eq_iff, inl, inr,
}
use loghub.Search.{bytes_less}

pub less_irrefl : (a : Bytes) → bytes_less a a ≡ false
unfolding bytes_less
less_irrefl [] = refl
less_irrefl (x ∷ a) = ground (arith, less_irrefl a)

pub less_not_more : (a b : Bytes) → bytes_less a b ≡ true → bytes_less b a ≡ false
unfolding bytes_less
less_not_more [] (y ∷ b) h = refl
less_not_more [] [] h = cc
less_not_more (x ∷ a) [] h = cc
less_not_more (x ∷ a) (y ∷ b) h = ground (arith, less_not_more a b)

pub less_total : (a b : Bytes) → bytes_less a b ≡ false → bytes_less b a ≡ false → a ≡ b
unfolding bytes_less
less_total [] [] h k = refl
less_total [] (y ∷ b) h k = cc
less_total (x ∷ a) [] h k = cc
less_total (x ∷ a) (y ∷ b) h k = ground (arith, less_total a b)

pub less_le :
    (a b c : Bytes) → bytes_less a b ≡ true → bytes_less c b ≡ false → bytes_less a c ≡ true
unfolding bytes_less
less_le a [] c h k = cc
less_le [] (y ∷ b) [] h k = cc
less_le [] (y ∷ b) (z ∷ c) h k = refl
less_le (x ∷ a) (y ∷ b) [] h k = cc
less_le (x ∷ a) (y ∷ b) (z ∷ c) h k = ground (arith, less_le a b c)

pub le_le :
    (a b c : Bytes) → bytes_less b a ≡ false → bytes_less c b ≡ false → bytes_less c a ≡ false
unfolding bytes_less
le_le [] b [] h k = refl
le_le [] b (z ∷ c) h k = refl
le_le (x ∷ a) [] c h k = cc
le_le (x ∷ a) (y ∷ b) [] h k = cc
le_le (x ∷ a) (y ∷ b) (z ∷ c) h k = ground (arith, le_le a b c)

pub eq_refl : (a : Bytes) → bytes_eq a a ≡ true
eq_refl a = (bytes_eq_iff a a).1 refl

pub no_loop : (a : Bytes) → bytes_less a a ≡ true → ⊥
no_loop a h = let i = less_irrefl a in cc

pub less_not_eq : (a b : Bytes) → bytes_less a b ≡ true → bytes_eq b a ≡ false
less_not_eq a b h = elim (Bool-cases (bytes_eq b a)) [
  | inl same ↦ absurd (no_loop a (subst (λ b. bytes_less a b ≡ true) ((bytes_eq_iff b a).0 same) h))
  | inr other ↦ other
]
