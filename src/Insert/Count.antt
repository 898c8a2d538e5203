-- ===== src/Insert/Count.antt =====
-- Counting the events of a list, and the events at a position.
use loghub.Common.{
  ℕ, zero, suc, ◌+◌, ◌≡◌, ◌≤◌, ◌<◌, refl, ap, Bool, true, false, ◌&&◌, List, [], ◌∷◌, ◌++◌, Option,
  none, some, arith, ◌==◌, length,
}
use loghub.Errors.{Error}
use loghub.Event.{Event}
use loghub.Insert.{Placed, Rejected, set_at}

abbrev pub tally : Bool → ℕ
tally true = 1
tally false = 0

abbrev pub count {ℓ} : {A : Type ℓ} → (A → Bool) → List A → ℕ
count p [] = 0
count p (x ∷ xs) = tally (p x) + count p xs

pub count-append {ℓ} :
    {A : Type ℓ} (p : A → Bool) (xs ys : List A) → count p (xs ++ ys) ≡ count p xs + count p ys
count-append p [] ys = omega arith
count-append p (x ∷ xs) ys = omega (arith, count-append p xs ys)

-- Whether an event stands at a position.
abbrev pub at : ℕ → Placed → Bool
at j (i, ev) = i == j

abbrev pub error_at : Rejected → ℕ → Option Error
error_at [] i = none
error_at (r ∷ rs) zero = r
error_at (r ∷ rs) (suc i) = error_at rs i

abbrev pub is_none : Option Error → Bool
is_none none = true
is_none (some e) = false

-- Whether an event counts, and nothing says that it was not stored.
abbrev pub is_kept : (Event → Bool) → Rejected → Placed → Bool
is_kept p rejected (i, ev) = is_none (error_at rejected i) && p ev

pub length-set_at : (rs : Rejected) (i : ℕ) (e : Error) → length (set_at rs i e) ≡ length rs
unfolding set_at
length-set_at [] i e = refl
length-set_at (r ∷ rs) zero e = refl
length-set_at (r ∷ rs) (suc i) e = ap suc (length-set_at rs i e)

pub error_at-set_at :
    (rs : Rejected) (i : ℕ) (e : Error) → i < length rs → error_at (set_at rs i e) i ≡ some e
unfolding set_at
error_at-set_at [] i e h = absurd (omega arith)
error_at-set_at (r ∷ rs) zero e h = refl
error_at-set_at (r ∷ rs) (suc i) e h = error_at-set_at rs i e (omega arith)

pub error_at-set_at_other :
    (rs : Rejected) (i j : ℕ) (e : Error)
    → (i == j) ≡ false
    → error_at (set_at rs i e) j ≡ error_at rs j
unfolding set_at
error_at-set_at_other [] i j e h = refl
error_at-set_at_other (r ∷ rs) zero zero e h = absurd cc
error_at-set_at_other (r ∷ rs) zero (suc j) e h = refl
error_at-set_at_other (r ∷ rs) (suc i) zero e h = refl
error_at-set_at_other (r ∷ rs) (suc i) (suc j) e h = error_at-set_at_other rs i j e (ground arith)

at_self : (i : ℕ) (ev : Event) → at i (i, ev) ≡ true
at_self i ev = ground arith

-- Two reports that agree at the positions of a list keep the same events of it.
pub count_kept_same :
    (p : Event → Bool) (rs rs' : Rejected) (work : List Placed)
    → ((j : ℕ) → 1 ≤ count (at j) work → error_at rs j ≡ error_at rs' j)
    → count (is_kept p rs) work ≡ count (is_kept p rs') work
count_kept_same p rs rs' [] h = refl
count_kept_same p rs rs' ((i, ev) ∷ work) h =
    let here : error_at rs i ≡ error_at rs' i = h i (rw (at_self i ev) (omega arith)) in
    rw here (
      ap (λ n. tally (is_none (error_at rs' i) && p ev) + n)
        (count_kept_same p rs rs' work (λ j le. h j (omega arith))))
