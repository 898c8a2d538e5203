-- ===== src/Search/SameSet.antt =====
-- The sets of a filter, which `normalizeSet` sorts and rids of duplicates: the order of strings,
-- and lists that are strictly sorted by it.
use mathlib.Core.Path.{subst}
use loghub.Common.{
  ◌≡◌, refl, ap, sym, ◌∙◌, Bool, true, false, ◌||◌, List, [], ◌∷◌, arith, Bool-cases, Bytes,
  bytes_eq, bytes_eq_iff, contains, All, inl, inr,
}
use loghub.Search.ByteOrder.{less_not_more, less_total, less_le, le_le, eq_refl, less_not_eq}
use loghub.Search.{bytes_less, insert_sorted, sort_bytes, compact, cleaned, normalize_set}

or_or : (a b : Bool) → (a || (a || b)) ≡ (a || b)
or_or true b = refl
or_or false b = refl

insert-contains :
    (s : Bytes) (ts : List Bytes) (x : Bytes)
    → contains (insert_sorted s ts) x ≡ (bytes_eq s x || contains ts x)
unfolding insert_sorted
insert-contains s [] x = refl
insert-contains s (t ∷ ts) x = ground (arith, insert-contains s ts x)

sort-contains : (ss : List Bytes) (x : Bytes) → contains (sort_bytes ss) x ≡ contains ss x
unfolding sort_bytes
sort-contains [] x = refl
sort-contains (s ∷ ss) x =
    insert-contains s (sort_bytes ss) x ∙ ap (bytes_eq s x ||◌) (sort-contains ss x)

compact-contains : (ss : List Bytes) (x : Bytes) → contains (compact ss) x ≡ contains ss x
unfolding compact
compact-contains [] x = refl
compact-contains (s ∷ []) x = refl
compact-contains (s ∷ t ∷ ts) x = elim (Bool-cases (bytes_eq s t)) [
  | inl same ↦
      (let e : s ≡ t = (bytes_eq_iff s t).0 same in
        rw same
          (rw (compact-contains (t ∷ ts) x) (rw e (sym (or_or (bytes_eq t x) (contains ts x))))))
  | inr other ↦ rw other (ap (bytes_eq s x ||◌) (compact-contains (t ∷ ts) x))
]

-- sorted, duplicates allowed
abbrev Ordered : List Bytes → Type 0
Ordered [] = Unit
Ordered (s ∷ ss) = All (λ t. bytes_less t s ≡ false) ss × Ordered ss

-- Sorted by bytes, without duplicates.
abbrev pub IsSetOrder : List Bytes → Type 0
IsSetOrder [] = Unit
IsSetOrder (s ∷ ss) = All (λ t. bytes_less s t ≡ true) ss × IsSetOrder ss

insert-All :
    (P : Bytes → Type 0) (s : Bytes) (ts : List Bytes) → P s → All P ts → All P (insert_sorted s ts)
unfolding insert_sorted
insert-All P s [] p h = (p, tt)
insert-All P s (t ∷ ts) p (q, h) = elim (Bool-cases (bytes_less t s)) [
  | inl after ↦ rw after (q, insert-All P s ts p h)
  | inr before ↦ rw before (p, (q, h))
]

All-map : (P Q : Bytes → Type 0) (xs : List Bytes) → ((x : Bytes) → P x → Q x) → All P xs → All Q xs
All-map P Q [] f h = tt
All-map P Q (x ∷ xs) f (p, h) = (f x p, All-map P Q xs f h)

insert-Ordered : (s : Bytes) (ts : List Bytes) → Ordered ts → Ordered (insert_sorted s ts)
unfolding insert_sorted
insert-Ordered s [] h = (tt, tt)
insert-Ordered s (t ∷ ts) (p, h) = elim (Bool-cases (bytes_less t s)) [
  | inl after ↦ rw after (
    insert-All (λ u. bytes_less u t ≡ false) s ts (less_not_more t s after) p,
    insert-Ordered s ts h,
  )
  | inr before ↦ rw before ((before, All-map _ _ ts (λ u k. le_le s t u before k) p), (p, h))
]

sort-Ordered : (ss : List Bytes) → Ordered (sort_bytes ss)
unfolding sort_bytes
sort-Ordered [] = tt
sort-Ordered (s ∷ ss) = insert-Ordered s (sort_bytes ss) (sort-Ordered ss)

compact-All : (P : Bytes → Type 0) (ss : List Bytes) → All P ss → All P (compact ss)
unfolding compact
compact-All P [] h = tt
compact-All P (s ∷ []) h = h
compact-All P (s ∷ t ∷ ts) (p, h) = elim (Bool-cases (bytes_eq s t)) [
  | inl same ↦ rw same (compact-All P (t ∷ ts) h)
  | inr other ↦ rw other (p, compact-All P (t ∷ ts) h)
]

before_next :
    (s t : Bytes) (ts : List Bytes)
    → bytes_eq s t ≡ false
    → Ordered (s ∷ t ∷ ts)
    → All (λ u. bytes_less s u ≡ true) (t ∷ ts)
before_next s t ts other ((p, ps), (q, h)) = elim (Bool-cases (bytes_less s t)) [
  | inl less ↦ (less, All-map _ _ ts (λ u k. less_le s t u less k) q)
  | inr more ↦ absurd (let same = (bytes_eq_iff s t).1 (less_total s t more p) in cc)
]

compact-IsSetOrder : (ss : List Bytes) → Ordered ss → IsSetOrder (compact ss)
unfolding compact
compact-IsSetOrder [] h = tt
compact-IsSetOrder (s ∷ []) h = (tt, tt)
compact-IsSetOrder (s ∷ t ∷ ts) h = elim (Bool-cases (bytes_eq s t)) [
  | inl same ↦ rw same (compact-IsSetOrder (t ∷ ts) h.1)
  | inr other ↦ rw other (
    compact-All (λ u. bytes_less s u ≡ true) (t ∷ ts) (before_next s t ts other h),
    compact-IsSetOrder (t ∷ ts) h.1,
  )
]

contains_less :
    (x : Bytes) (ys : List Bytes) → All (λ y. bytes_less x y ≡ true) ys → contains ys x ≡ false
contains_less x [] h = refl
contains_less x (y ∷ ys) (p, h) = rw (less_not_eq x y p) (contains_less x ys h)

head_contained : (x : Bytes) (xs : List Bytes) → contains (x ∷ xs) x ≡ true
head_contained x xs = rw (eq_refl x) refl

-- The head of a list with the members of another is not before the other's head.
head_not_less :
    (x : Bytes) (xs : List Bytes) (y : Bytes) (ys : List Bytes)
    → IsSetOrder (y ∷ ys)
    → contains (x ∷ xs) x ≡ contains (y ∷ ys) x
    → bytes_less x y ≡ false
head_not_less x xs y ys (p, k) e = elim (Bool-cases (bytes_less x y)) [
  | inl less ↦ absurd (
      let out =
        contains_less x (y ∷ ys)
          (less, All-map _ _ ys (λ u q. less_le x y u less (less_not_more y u q)) p) in
      let inside = head_contained x xs in cc)
  | inr other ↦ other
]

tail_contains :
    (x : Bytes) (xs ys : List Bytes) (s : Bytes)
    → IsSetOrder (x ∷ xs)
    → IsSetOrder (x ∷ ys)
    → contains (x ∷ xs) s ≡ contains (x ∷ ys) s
    → contains xs s ≡ contains ys s
tail_contains x xs ys s (p, h) (q, k) e = elim (Bool-cases (bytes_eq x s)) [
  | inl same ↦
      (let at_s : x ≡ s = (bytes_eq_iff x s).0 same in
        subst (λ s. contains xs s ≡ contains ys s) at_s
          (contains_less x xs p ∙ sym (contains_less x ys q)))
  | inr other ↦ rw other at e
]

abbrev SameMembers : List Bytes → List Bytes → Type 0
SameMembers xs ys = (s : Bytes) → contains xs s ≡ contains ys s

same_head :
    (x : Bytes) (xs : List Bytes) (y : Bytes) (ys : List Bytes)
    → x ≡ y
    → IsSetOrder (x ∷ xs)
    → IsSetOrder (y ∷ ys)
    → SameMembers (x ∷ xs) (y ∷ ys)
    → (SameMembers xs ys → xs ≡ ys)
    → x ∷ xs ≡ y ∷ ys
same_head x xs y ys same h k e rest =
    let k' : IsSetOrder (x ∷ ys) = subst (λ z. IsSetOrder (z ∷ ys)) (sym same) k in
    let e' : SameMembers (x ∷ xs) (x ∷ ys) =
      subst (λ z. SameMembers (x ∷ xs) (z ∷ ys)) (sym same) e in
    let tails : xs ≡ ys = rest (λ s. tail_contains x xs ys s h k' (e' s)) in cc

-- Lists in set order with the same members are equal.
set_order_unique :
    (xs ys : List Bytes)
    → IsSetOrder xs
    → IsSetOrder ys
    → ((s : Bytes) → contains xs s ≡ contains ys s)
    → xs ≡ ys
set_order_unique [] [] h k e = refl
set_order_unique [] (y ∷ ys) h k e = absurd (let i = head_contained y ys in let j = e y in cc)
set_order_unique (x ∷ xs) [] h k e = absurd (let i = head_contained x xs in let j = e x in cc)
set_order_unique (x ∷ xs) (y ∷ ys) h k e =
    let same : x ≡ y =
      less_total x y (head_not_less x xs y ys k (e x)) (head_not_less y ys x xs h (sym (e y))) in
    same_head x xs y ys same h k e (set_order_unique xs ys h.1 k.1)

set-IsSetOrder :
    (mapping : Bytes → Bytes) (values : List Bytes) → IsSetOrder (normalize_set mapping values)
unfolding normalize_set
set-IsSetOrder mapping values =
    compact-IsSetOrder (sort_bytes (cleaned mapping values)) (sort-Ordered (cleaned mapping values))

normalize_set-contains :
    (mapping : Bytes → Bytes) (values : List Bytes) (s : Bytes)
    → contains (normalize_set mapping values) s ≡ contains (cleaned mapping values) s
unfolding normalize_set
normalize_set-contains mapping values s =
    compact-contains (sort_bytes (cleaned mapping values)) s
    ∙ sort-contains (cleaned mapping values) s

-- A normalized set is strictly sorted by bytes, so it repeats nothing, and it holds exactly the
-- trimmed, mapped and not empty values of the list.
pub normalize_set_lem :
    (mapping : Bytes → Bytes) (values : List Bytes)
    → IsSetOrder (normalize_set mapping values)
      × ((s : Bytes)
          → contains (normalize_set mapping values) s ≡ contains (cleaned mapping values) s)
normalize_set_lem mapping values =
    (set-IsSetOrder mapping values, normalize_set-contains mapping values)

-- Two lists that have the same values once trimmed and mapped, in whatever order and however
-- often, are normalized to one and the same list.
pub normalize_set_unique :
    (mapping : Bytes → Bytes) (a b : List Bytes)
    → ((s : Bytes) → contains (cleaned mapping a) s ≡ contains (cleaned mapping b) s)
    → normalize_set mapping a ≡ normalize_set mapping b
normalize_set_unique mapping a b e =
    set_order_unique _ _ (set-IsSetOrder mapping a) (set-IsSetOrder mapping b)
      (λ s. normalize_set-contains mapping a s ∙ e s ∙ sym (normalize_set-contains mapping b s))
