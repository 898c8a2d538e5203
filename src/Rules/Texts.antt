-- ===== src/Rules/Texts.antt =====
-- The texts of a new alert rule that the API accepts.
use loghub.Common.{
  ◌≤◌, ◌≡◌, Bool, true, false, not, ◌&&◌, Bool-cases, List, [], ◌∷◌, ◌++◌, Option, none, some, inl,
  inr, if◌then◌else◌, leb, length, Bytes, is_empty, contains, trim_space, arith, All, All-append,
}
use loghub.Search.{sort_bytes, insert_sorted, bytes_less}
use loghub.Rules.{max_rule_text, has_zero, rule_text, rule_tags}
use loghub.Rules.Decode.{given}

-- A text that the database holds and that an event may have.
abbrev pub IsRuleText : Bytes → Type 0
IsRuleText t = (is_empty t ≡ false) × (length t ≤ max_rule_text) × (has_zero t ≡ false)

abbrev pub Given {ℓ} : {A : Type ℓ} → (A → Type 0) → Option A → Type 0
Given P none = Unit
Given P (some a) = P a

-- Whether a text can be used as a filter.
abbrev pub fits_filter : Bytes → Bool
fits_filter t = leb (length t) max_rule_text && not (has_zero t)

fits-IsRuleText : (t : Bytes) → fits_filter t ≡ true → is_empty t ≡ false → IsRuleText t
fits-IsRuleText t h k = (k, ground arith, ground arith)

pub text-Given :
    (mapping : Bytes → Bytes) (s : Bytes)
    → (rule_text mapping s).1 ≡ true
    → Given IsRuleText (given (rule_text mapping s).0)
unfolding rule_text
text-Given mapping s h = elim (Bool-cases (is_empty (mapping (trim_space s)))) [
  | inl none_given ↦ rw none_given tt
  | inr some_given ↦ rw some_given (fits-IsRuleText (mapping (trim_space s)) h some_given)
]

more_fine :
    (kept : List Bytes) (v : Bytes)
    → All IsRuleText kept
    → fits_filter v ≡ true
    → All IsRuleText (if not (is_empty v) && not (contains kept v) then kept ++ (v ∷ []) else kept)
more_fine kept v k fine = elim (Bool-cases (not (is_empty v) && not (contains kept v))) [
  | inl new ↦
      rw new (All-append IsRuleText kept (v ∷ []) k (fits-IsRuleText v fine (ground arith), tt))
  | inr old ↦ rw old k
]

pub tags-fine :
    (kept tags : List Bytes)
    → All IsRuleText kept
    → (rule_tags kept tags).1 ≡ true
    → All IsRuleText (rule_tags kept tags).0
unfolding rule_tags
tags-fine kept [] k h = k
tags-fine kept (tag ∷ tags) k h =
    let v = trim_space tag in
    let more = if not (is_empty v) && not (contains kept v) then kept ++ (v ∷ []) else kept in
    elim (Bool-cases (fits_filter v)) [
      | inr bad ↦ (let no : Path Bool false true = rw bad at h in cc)
      | inl fine ↦ rw fine (tags-fine more tags (more_fine kept v k fine) (rw fine at h))
    ]

insert_sorted-All :
    (P : Bytes → Type 0) (s : Bytes) (ts : List Bytes) → P s → All P ts → All P (insert_sorted s ts)
unfolding insert_sorted
insert_sorted-All P s [] p h = (p, tt)
insert_sorted-All P s (t ∷ ts) p (h, hs) = elim (Bool-cases (bytes_less t s)) [
  | inl later ↦ rw later (h, insert_sorted-All P s ts p hs)
  | inr here ↦ rw here (p, (h, hs))
]

pub sort_bytes-All : (P : Bytes → Type 0) (ts : List Bytes) → All P ts → All P (sort_bytes ts)
unfolding sort_bytes
sort_bytes-All P [] h = tt
sort_bytes-All P (t ∷ ts) (h, hs) = insert_sorted-All P t (sort_bytes ts) h (sort_bytes-All P ts hs)
