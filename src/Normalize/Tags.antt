-- ===== src/Normalize/Tags.antt =====
-- The tags of an event, out of the sender's and the derived ones.
use mathlib.Core.Path.{subst}
use loghub.Common.{
  ◌≡◌, refl, Bool, true, false, not, ◌&&◌, ◌||◌, List, [], ◌∷◌, ◌++◌, arith, leb, Bool-cases, any,
  length, Bytes, bytes_eq, bytes_eq_iff, contains, is_empty, All, inl, inr,
}
use loghub.Normalize.{FieldLib, max_text, clean_text}
use loghub.Normalize.Builder.{Builder}
use loghub.Normalize.Record.{keep_tags, flag_long, assemble_tags}

-- Whether a text is kept as a tag, once it is cleaned.
abbrev pub is_tag : Bytes → Bool
is_tag t = not (is_empty t) && leb (length t) max_text

abbrev pub NoRepeat : List Bytes → Type 0
NoRepeat [] = Unit
NoRepeat (t ∷ ts) = (contains ts t ≡ false) × NoRepeat ts

-- Whether one of the tags is a text, once it is cleaned.
abbrev pub has_tag : FieldLib → List Bytes → Bytes → Bool
has_tag lib tags x = any (λ t. is_tag (clean_text lib t) && bytes_eq (clean_text lib t) x) tags

same_refl : (t : Bytes) → bytes_eq t t ≡ true
same_refl t = (bytes_eq_iff t t).1 refl

-- A tag that is kept now, among those that are kept later.
new_tag :
    (seen : List Bytes) (t x : Bytes) (rest : Bool)
    → contains seen t ≡ false
    → (bytes_eq t x || (not (bytes_eq t x || contains seen x) && rest))
      ≡ (not (contains seen x) && (bytes_eq t x || rest))
new_tag seen t x rest h = elim (Bool-cases (bytes_eq t x)) [
  | inl same ↦
      (let new : contains seen x ≡ false =
          subst (λ x. contains seen x ≡ false) ((bytes_eq_iff t x).0 same) h in
        rw same (rw new refl))
  | inr other ↦ rw other refl
]

-- A tag that is passed over, since it is seen or none.
old_tag :
    (seen : List Bytes) (t x : Bytes) (rest fits : Bool)
    → (fits && not (contains seen t)) ≡ false
    → (not (contains seen x) && rest) ≡ (not (contains seen x) && ((fits && bytes_eq t x) || rest))
old_tag seen t x rest false h = refl
old_tag seen t x rest true h = elim (Bool-cases (bytes_eq t x)) [
  | inl same ↦
      (let old : contains seen x ≡ true =
          subst (λ x. contains seen x ≡ true) ((bytes_eq_iff t x).0 same) (ground arith) in
        rw old refl)
  | inr other ↦ rw other refl
]

-- What keeping a tag says of it.
kept_parts :
    (empty fits seen : Bool)
    → (not empty && (fits && not seen)) ≡ true
    → ((not empty && fits) ≡ true) × (seen ≡ false)
kept_parts false true false h = (refl, refl)
kept_parts false false seen h = cc
kept_parts false true true h = cc
kept_parts true fits seen h = cc

passed_parts :
    (empty fits seen : Bool)
    → (not empty && (fits && not seen)) ≡ false
    → ((not empty && fits) && not seen) ≡ false
passed_parts true fits seen h = refl
passed_parts false fits seen h = h

keep_tags-contains :
    (lib : FieldLib) (seen tags : List Bytes) (x : Bytes)
    → contains (keep_tags lib seen tags) x ≡ (not (contains seen x) && has_tag lib tags x)
unfolding keep_tags
keep_tags-contains lib seen [] x = ground arith
keep_tags-contains lib seen (t ∷ tags) x =
    let t' = clean_text lib t in
    let e = is_empty t' in
    let l = leb (length t') max_text in
    let c = contains seen t' in
    elim (Bool-cases (not e && (l && not c))) [
      | inl kept ↦
          (let (fits, new) = kept_parts e l c kept in
            rw kept (
              rw fits (
                rw (keep_tags-contains lib (t' ∷ seen) tags x)
                  (new_tag seen t' x (has_tag lib tags x) new))))
      | inr passed ↦ rw passed (
          rw (keep_tags-contains lib seen tags x)
            (old_tag seen t' x (has_tag lib tags x) (not e && l) (passed_parts e l c passed)))
    ]

keep_tags-All :
    (lib : FieldLib) (seen tags : List Bytes) → All (λ t. is_tag t ≡ true) (keep_tags lib seen tags)
unfolding keep_tags
keep_tags-All lib seen [] = tt
keep_tags-All lib seen (t ∷ tags) =
    let t' = clean_text lib t in
    let e = is_empty t' in
    let l = leb (length t') max_text in
    let c = contains seen t' in
    elim (Bool-cases (not e && (l && not c))) [
      | inl kept ↦ rw kept ((kept_parts e l c kept).0, keep_tags-All lib (t' ∷ seen) tags)
      | inr passed ↦ rw passed (keep_tags-All lib seen tags)
    ]

keep_tags-NoRepeat : (lib : FieldLib) (seen tags : List Bytes) → NoRepeat (keep_tags lib seen tags)
unfolding keep_tags
keep_tags-NoRepeat lib seen [] = tt
keep_tags-NoRepeat lib seen (t ∷ tags) =
    let t' = clean_text lib t in
    let e = is_empty t' in
    let l = leb (length t') max_text in
    let c = contains seen t' in
    elim (Bool-cases (not e && (l && not c))) [
      | inl kept ↦ rw kept (
        (let once : contains (keep_tags lib (t' ∷ seen) tags) t' ≡ false =
              rw (keep_tags-contains lib (t' ∷ seen) tags t') (rw (same_refl t') refl) in
            once),
        keep_tags-NoRepeat lib (t' ∷ seen) tags,
      )
      | inr passed ↦ rw passed (keep_tags-NoRepeat lib seen tags)
    ]

-- The tags of an event are the sender's and the derived ones that are neither empty nor over the
-- limit of a text once they are cleaned, each once and no other.
pub assemble_tags_lem :
    (lib : FieldLib) (b : Builder)
    → NoRepeat (assemble_tags lib b)
      × All (λ t. is_tag t ≡ true) (assemble_tags lib b)
      × ((x : Bytes)
          → contains (assemble_tags lib b) x
            ≡ has_tag lib (b.sender_tags ++ (flag_long lib b).derived) x)
unfolding assemble_tags
assemble_tags_lem lib b =
    let tags = b.sender_tags ++ (flag_long lib b).derived in
    (keep_tags-NoRepeat lib [] tags, keep_tags-All lib [] tags, keep_tags-contains lib [] tags)
