-- ===== src/Ingest/Counted.antt =====
-- The events that a report keeps, as the batch counts them and as the insert stores them.
use loghub.Common.{
  ℕ, suc, ◌+◌, ◌≡◌, refl, sym, ap, ◌∙◌, Bool, true, not, Bool-cases, List, [], ◌∷◌, Option, none,
  some, arith, length, Bytes, All, inl, inr,
}
use loghub.Errors.{Error}
use loghub.Event.{Event}
use loghub.Batch.{count_ingested}
use loghub.Insert.{Rejected}
use loghub.Insert.Count.{count, error_at, is_none}
use loghub.Insert.Positions.{stored_from}
use loghub.Ingest.{may}

pub count_all : (events : List Event) → count (λ ev. true) events ≡ length events
count_all [] = refl
count_all (ev ∷ events) = omega (arith, count_all events)

shifted :
    (rejected rs : Rejected) (i : ℕ) (r : Option Error)
    → ((k : ℕ) → error_at (r ∷ rs) k ≡ error_at rejected (i + k))
    → (k : ℕ) → error_at rs k ≡ error_at rejected (i + 1 + k)
shifted rejected rs i r h k =
    let moved : i + suc k ≡ i + 1 + k = omega arith in h (suc k) ∙ ap (error_at rejected) moved

first_of :
    (rejected rs : Rejected) (i : ℕ)
    → ((k : ℕ) → error_at rs k ≡ error_at rejected (i + k))
    → error_at rejected i ≡ error_at rs 0
first_of rejected rs i h =
    let here : i + 0 ≡ i = omega arith in sym (h 0 ∙ ap (error_at rejected) here)

pub length-counted :
    (rejected : Rejected) (i : ℕ) (events : List Event) (rs : Rejected)
    → ((k : ℕ) → error_at rs k ≡ error_at rejected (i + k))
    → length (count_ingested events rs) ≡ length (stored_from rejected i events)
unfolding count_ingested
length-counted rejected i [] rs h = refl
length-counted rejected i (ev ∷ events) [] h = rw (first_of rejected [] i h) (
    ap suc (
      length-counted rejected (i + 1) events []
        (λ k. h (suc k) ∙ ap (error_at rejected) (omega arith))))
length-counted rejected i (ev ∷ events) (none ∷ rs) h =
    rw (first_of rejected (none ∷ rs) i h)
      (ap suc (length-counted rejected (i + 1) events rs (shifted rejected rs i none h)))
length-counted rejected i (ev ∷ events) (some e ∷ rs) h =
    rw (first_of rejected (some e ∷ rs) i h)
      (length-counted rejected (i + 1) events rs (shifted rejected rs i (some e) h))

pub no_strangers :
    (may : Bytes → Bool) (rejected : Rejected) (i : ℕ) (events : List Event)
    → All (λ ev. may ev.tenant_id ≡ true) events
    → count (λ ev. not (may ev.tenant_id)) (stored_from rejected i events) ≡ 0
no_strangers may rejected i [] h = refl
no_strangers may rejected i (ev ∷ events) (own, h) =
    let rest = no_strangers may rejected (i + 1) events h in
    elim (Bool-cases (is_none (error_at rejected i))) [
      | inl kept ↦ rw (kept, own) (omega arith)
      | inr refused ↦ rw refused rest
    ]
