-- ===== src/Insert/Sent.antt =====
-- What an insert that is not given up does with the events that it sends: the database takes each
-- one, or its position holds the refusal.
use loghub.Common.{ℕ, ◌+◌, ◌≡◌, ◌≤◌, ◌<◌, refl, sym, ◌∙◌, Bool, List, [], ◌++◌, none, arith, length}
use loghub.Event.{Event}
use loghub.Pg.{Session}
use loghub.Insert.{Placed, Rejected}
use loghub.Insert.Count.{count, count-append, at, error_at, is_kept, count_kept_same}

-- The positions of a list differ, lie in the report, and hold no error.
abbrev pub IsFresh : Rejected → List Placed → Type 0
IsFresh rejected work =
    (j : ℕ)
    → (count (at j) work ≤ 1)
      × (1 ≤ count (at j) work → (error_at rejected j ≡ none) × (j < length rejected))

-- Of the events of a list, exactly those without an error at their positions went to the database;
-- no other position changed.
abbrev pub Sent : List Placed → Session → Rejected → Session → Rejected → Type 0
Sent work s rejected s' rejected' =
    (length rejected' ≡ length rejected)
    × ((j : ℕ) → count (at j) work ≡ 0 → error_at rejected' j ≡ error_at rejected j)
    × ((p : Event → Bool) → count p s'.rows ≡ count p s.rows + count (is_kept p rejected') work)

pub Fresh-left : (r : Rejected) (a b : List Placed) → IsFresh r (a ++ b) → IsFresh r a
Fresh-left r a b fresh j =
    let both = count-append (at j) a b in
    (let once = (fresh j).0 in omega arith, λ le. (fresh j).1 (omega arith))

pub Fresh-right :
    (s s' : Session) (r r' : Rejected) (a b : List Placed)
    → IsFresh r (a ++ b)
    → Sent a s r s' r'
    → IsFresh r' b
Fresh-right s s' r r' a b fresh (long, same, rows) j =
    let both = count-append (at j) a b in
    let once = (fresh j).0 in
    (
      omega arith,
      λ le.
          (let (free, inside) = (fresh j).1 (omega arith) in
            (same j (omega arith) ∙ free, omega arith)),
    )

pub Sent-append :
    (s s' s'' : Session) (r r' r'' : Rejected) (a b : List Placed)
    → IsFresh r (a ++ b)
    → Sent a s r s' r'
    → Sent b s' r' s'' r''
    → Sent (a ++ b) s r s'' r''
Sent-append s s' s'' r r' r'' a b fresh (long, same, rows) (long', same', rows') = (
  long' ∙ long,
  λ j none_here.
      (let both = count-append (at j) a b in same' j (omega arith) ∙ same j (omega arith)),
  λ p.
      (let both = count-append (is_kept p r'') a b in
        let kept = count_kept_same p r' r'' a (λ j le.
          (let once = (fresh j).0 in
            let each = count-append (at j) a b in sym (same' j (omega arith)))) in
        let first = rows p in let second = rows' p in omega arith),
)

pub Sent-nil : (s : Session) (r : Rejected) → Sent [] s r s r
Sent-nil s r = (refl, λ j h. refl, λ p. omega arith)
