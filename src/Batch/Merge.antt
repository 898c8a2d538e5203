-- ===== src/Batch/Merge.antt =====
-- The report of a batch is the first `max_reported` rejections in the order of the request.
use loghub.Common.{
  ℕ, zero, suc, ◌≤◌, ◌≡◌, refl, sym, ap, ◌∙◌, inl, inr, true, false, List, [], ◌∷◌, ◌++◌, arith,
  leb, leb→le, Bool-cases, take, take-take, All,
}
use loghub.Batch.{Rejection, insert_by_index, sort_by_index}

-- no index falls along the list
abbrev pub IsSorted : List Rejection → Type 0
IsSorted [] = Unit
IsSorted (r ∷ rs) = All (λ s. r.index ≤ s.index) rs × IsSorted rs

insert-head :
    (r : Rejection) (rs : List Rejection)
    → All (λ s. r.index ≤ s.index) rs
    → insert_by_index r rs ≡ r ∷ rs
unfolding insert_by_index
insert-head r [] h = refl
insert-head r (s ∷ rs) (le, h) = ground arith

pub sort_of_IsSorted : (rs : List Rejection) → IsSorted rs → sort_by_index rs ≡ rs
unfolding sort_by_index
sort_of_IsSorted [] h = refl
sort_of_IsSorted (r ∷ rs) (le, h) = rw (sort_of_IsSorted rs h) (insert-head r rs le)

-- Two lists, each in order, put together in order.
pub merge_lists : List Rejection → List Rejection → List Rejection
merge_lists [] ys = ys
merge_lists (x ∷ xs) [] = x ∷ xs
merge_lists (x ∷ xs) (y ∷ ys) = elim (leb x.index y.index) [
  | true ↦ x ∷ merge_lists xs (y ∷ ys)
  | false ↦ y ∷ merge_lists (x ∷ xs) ys
]

abbrev Below : ℕ → List Rejection → Type 0
Below i rs = All (λ s. i ≤ s.index) rs

Below-trans : (i j : ℕ) (rs : List Rejection) → i ≤ j → Below j rs → Below i rs
Below-trans i j [] le h = tt
Below-trans i j (r ∷ rs) le (k, h) = (omega arith, Below-trans i j rs le h)

Below-merge :
    (i : ℕ) (xs ys : List Rejection) → Below i xs → Below i ys → Below i (merge_lists xs ys)
unfolding merge_lists
Below-merge i [] ys h k = k
Below-merge i (x ∷ xs) [] h k = h
Below-merge i (x ∷ xs) (y ∷ ys) (p, h) (q, k) = elim (Bool-cases (leb x.index y.index)) [
  | inl le ↦ rw (le, merge_lists) (p, Below-merge i xs (y ∷ ys) h (q, k))
  | inr gt ↦ rw (gt, merge_lists) (q, Below-merge i (x ∷ xs) ys (p, h) k)
]

y_first :
    (r : Rejection) (xs : List Rejection) (y : Rejection) (ys : List Rejection)
    → leb r.index y.index ≡ false
    → Below r.index xs
    → insert_by_index r (merge_lists xs (y ∷ ys)) ≡ y ∷ insert_by_index r (merge_lists xs ys)
unfolding merge_lists insert_by_index
y_first r [] y ys gt h = rw gt
y_first r (x ∷ xs) y ys gt (p, h) =
    let later : leb x.index y.index ≡ false = ground arith in rw (later, merge_lists) (rw gt)

insert-merge :
    (r : Rejection) (xs ys : List Rejection)
    → Below r.index xs
    → IsSorted ys
    → insert_by_index r (merge_lists xs ys) ≡ merge_lists (r ∷ xs) ys
unfolding merge_lists insert_by_index
insert-merge r [] [] h k = refl
insert-merge r (x ∷ xs) [] h k = insert-head r (x ∷ xs) h
insert-merge r xs (y ∷ ys) h (q, k) = elim (Bool-cases (leb r.index y.index)) [
  | inl le ↦
      let low = Below-trans r.index y.index ys (leb→le _ _ le) q in
      rw (le, merge_lists)
        (insert-head r _ (Below-merge r.index xs (y ∷ ys) h (leb→le _ _ le, low)))
  | inr gt ↦ rw (gt, merge_lists) (y_first r xs y ys gt h ∙ ap (◌∷◌ y) (insert-merge r xs ys h k))
]

sort-append :
    (xs ys : List Rejection)
    → IsSorted xs
    → IsSorted ys
    → sort_by_index (xs ++ ys) ≡ merge_lists xs ys
unfolding sort_by_index merge_lists
sort-append [] ys h k = sort_of_IsSorted ys k
sort-append (x ∷ xs) ys (le, h) k =
    ap (insert_by_index x) (sort-append xs ys h k) ∙ insert-merge x xs ys le k

take-merge :
    (n m k : ℕ) (xs ys : List Rejection)
    → n ≤ m
    → n ≤ k
    → take n (merge_lists (take m xs) (take k ys)) ≡ take n (merge_lists xs ys)
unfolding merge_lists
take-merge zero m k xs ys p q = refl
take-merge (suc n) zero k xs ys p q = absurd (omega arith)
take-merge (suc n) (suc m) zero xs ys p q = absurd (omega arith)
take-merge (suc n) (suc m) (suc k) [] [] p q = refl
take-merge (suc n) (suc m) (suc k) [] (y ∷ ys) p q = ap (◌∷◌ y) (take-take n k ys (omega arith))
take-merge (suc n) (suc m) (suc k) (x ∷ xs) [] p q = ap (◌∷◌ x) (take-take n m xs (omega arith))
take-merge (suc n) (suc m) (suc k) (x ∷ xs) (y ∷ ys) p q = elim (Bool-cases (leb x.index y.index)) [
  | inl le ↦
      rw (le, merge_lists)
        (ap (◌∷◌ x) (take-merge n m (suc k) xs (y ∷ ys) (omega arith) (omega arith)))
  | inr gt ↦
      rw (gt, merge_lists)
        (ap (◌∷◌ y) (take-merge n (suc m) k (x ∷ xs) ys (omega arith) (omega arith)))
]

Below-take : (i n : ℕ) (rs : List Rejection) → Below i rs → Below i (take n rs)
Below-take i zero rs h = tt
Below-take i (suc n) [] h = tt
Below-take i (suc n) (r ∷ rs) (p, h) = (p, Below-take i n rs h)

pub take-IsSorted : (n : ℕ) (rs : List Rejection) → IsSorted rs → IsSorted (take n rs)
take-IsSorted zero rs h = tt
take-IsSorted (suc n) [] h = tt
take-IsSorted (suc n) (r ∷ rs) (p, h) = (Below-take r.index n rs p, take-IsSorted n rs h)

-- Of two sorted lists the first `n` are enough to find the first `n` of both.
pub take-sort :
    (n : ℕ) (xs ys : List Rejection)
    → IsSorted xs
    → IsSorted ys
    → take n (sort_by_index (take n xs ++ take n ys)) ≡ take n (sort_by_index (xs ++ ys))
take-sort n xs ys h k =
    ap (take n) (sort-append (take n xs) (take n ys) (take-IsSorted n xs h) (take-IsSorted n ys k))
    ∙ take-merge n n n xs ys (omega arith) (omega arith)
    ∙ sym (ap (take n) (sort-append xs ys h k))
