-- ===== src/Insert/Positions.antt =====
-- The positions of the events of known tenants, and the events that a report keeps.
use loghub.Common.{
  ℕ, zero, suc, ◌+◌, ◌≡◌, ◌≤◌, ◌<◌, refl, ap, Bool, true, false, Bool-cases, List, [], ◌∷◌, none,
  some, arith, length, ◌==◌, Bytes, if◌then◌else◌, inl, inr,
}
use loghub.Event.{Event}
use loghub.Insert.{Rejected, unknown_tenant}
use loghub.Insert.Count.{tally, count, at, error_at, is_none, is_kept}
use loghub.Insert.Groups.{known_from, marked}

-- The events whose positions, from one on, hold no error.
abbrev pub stored_from : Rejected → ℕ → List Event → List Event
stored_from rejected i [] = []
stored_from rejected i (ev ∷ events) =
    let rest = stored_from rejected (i + 1) events in
    if is_none (error_at rejected i) then ev ∷ rest else rest

pub none_before :
    (known : Bytes → Bool) (i j : ℕ) (events : List Event)
    → j < i
    → count (at j) (known_from known i events) ≡ 0
none_before known i j [] h = refl
none_before known i j (ev ∷ events) h =
    let rest = none_before known (i + 1) j events (omega arith) in
    let no : (i == j) ≡ false = ground arith in
    elim (Bool-cases (known ev.tenant_id)) [
      | inl there ↦ rw (there, no) (omega arith)
      | inr away ↦ rw away rest
    ]

pub fresh_from :
    (known : Bytes → Bool) (i j k : ℕ) (events : List Event)
    → j ≡ i + k
    → (count (at j) (known_from known i events) ≤ 1)
      × (1 ≤ count (at j) (known_from known i events)
          → (error_at (marked known events) k ≡ none) × (k < length events))
fresh_from known i j k [] h = (omega arith, λ le. absurd (omega arith))
fresh_from known i j zero (ev ∷ events) h =
    let rest = none_before known (i + 1) j events (omega arith) in
    let yes : (i == j) ≡ true = ground arith in
    elim (Bool-cases (known ev.tenant_id)) [
      | inl there ↦ rw (there, yes) (omega arith, λ le. (refl, omega arith))
      | inr away ↦ rw away (omega arith, λ le. absurd (omega arith))
    ]
fresh_from known i j (suc k) (ev ∷ events) h =
    let (once, free) = fresh_from known (i + 1) j k events (omega arith) in
    let no : (i == j) ≡ false = ground arith in
    elim (Bool-cases (known ev.tenant_id)) [
      | inl there ↦
          rw (there, no) (omega arith, λ le. (let (a, b) = free (omega arith) in (a, omega arith)))
      | inr away ↦ rw away (once, λ le. (let (a, b) = free le in (a, omega arith)))
    ]

pub length-marked :
    (known : Bytes → Bool) (events : List Event) → length (marked known events) ≡ length events
length-marked known [] = refl
length-marked known (ev ∷ events) = ap suc (length-marked known events)

-- A report that says of the unknown tenants' events what `marked` says keeps none of them.
pub kept_from :
    (known : Bytes → Bool) (p : Event → Bool) (r : Rejected) (i : ℕ) (events : List Event)
    → ((j k : ℕ)
        → j ≡ i + k
        → count (at j) (known_from known i events) ≡ 0
        → error_at r j ≡ error_at (marked known events) k)
    → count (is_kept p r) (known_from known i events) ≡ count p (stored_from r i events)
kept_from known p r i [] h = refl
kept_from known p r i (ev ∷ events) h = elim (Bool-cases (known ev.tenant_id)) [
  | inl there ↦
      (let rest = kept_from known p r (i + 1) events (λ j k e away.
          (let no : (i == j) ≡ false = ground arith in
            h j (suc k) (omega arith) (rw (there, no) (omega arith)))) in
        elim (Bool-cases (is_none (error_at r i))) [
          | inl free ↦ rw (there, free) (ap (λ n. tally (p ev) + n) rest)
          | inr marked_here ↦ rw (there, marked_here) (omega arith)
        ])
  | inr away ↦
      (let rest =
          kept_from known p r (i + 1) events
            (λ j k e none_here. h j (suc k) (omega arith) (rw away none_here)) in
        let alone : count (at i) (known_from known i (ev ∷ events)) ≡ 0 =
          rw away (none_before known (i + 1) i events (omega arith)) in
        let same = h i zero (omega arith) alone in
        let here : error_at r i ≡ some unknown_tenant = rw away at same in rw (away, here) rest)
]
