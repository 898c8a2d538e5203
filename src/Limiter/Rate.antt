-- ===== src/Limiter/Rate.antt =====
-- How often a key is allowed over a run of attempts, whatever the other keys do in between.
use loghub.Common.{
  ℕ, ◌+◌, ◌-◌, ◌*◌, ◌≤◌, ◌≡◌, ◌↔◌, refl, ap, ◌⊎◌, inl, inr, true, List, [], ◌∷◌, arith,
  if◌then◌else◌, Bool-cases, Bytes, bytes_eq, bytes_eq_iff,
}
use loghub.Limiter.{Memory, interval, Remaining, is_enough, take}
use loghub.Limiter.Buckets.{
  view, answer, take-answer, view_grows, view-take_ne, view-take_refused, view-take_allowed,
}

-- Attempts, each with its time and its key, from `start` to `stop` on a clock that never goes back.
abbrev pub InOrder : ℕ → List (ℕ × Bytes) → ℕ → Type 0
InOrder start [] stop = start ≤ stop
InOrder start ((now, key) ∷ rest) stop = (start ≤ now) × InOrder now rest stop

InOrder-le : (reqs : List (ℕ × Bytes)) (start stop : ℕ) → InOrder start reqs stop → start ≤ stop
InOrder-le [] start stop h = h
InOrder-le ((now, k) ∷ rest) start stop (le, h) = omega (arith, InOrder-le rest now stop h)

-- The arithmetic of an allowed attempt, over any interval `i`: the bucket stood at `v`, at `now`.
allowed_step :
    (i b n v now first stop : ℕ)
    → now ≤ v
    → now ≤ stop
    → first ≤ v
    → v - now + i ≤ b * i
    → (n ≡ 0) ⊎ (v + i + n * i ≤ stop + b * i)
    → first + (1 + n) * i ≤ stop + b * i
allowed_step i b n v now first stop p q r token (inl e) = rw e (omega arith)
allowed_step i b n v now first stop p q r token (inr h) = omega arith

is_enough_iff : (r : Remaining) → (is_enough r ≡ true) ↔ (r.debt ≤ r.credit)
is_enough_iff r = ground arith

module _ (per_minute burst : ℕ) (key : Bytes) where
  -- How many of the attempts by `key` the backend allows, when the attempts reach it in turn.
  unfoldable pub allowed_count : Memory → List (ℕ × Bytes) → ℕ
  allowed_count m [] = 0
  allowed_count m ((now, k) ∷ rest) =
      let (m', r) = take m now k per_minute burst in
      (if bytes_eq k key then if is_enough r then 1 else 0 else 0) + allowed_count m' rest

  -- Where the bucket stands after the attempts allowed so far: never past its burst.
  abbrev Bounded : Memory → ℕ → ℕ → List (ℕ × Bytes) → Type 0
  Bounded m start stop reqs =
      (allowed_count m reqs ≡ 0)
      ⊎ (view start m key + allowed_count m reqs * interval per_minute
          ≤ stop + burst * interval per_minute)

  own_step :
      (m : Memory) (now : ℕ) (k : Bytes) (start stop : ℕ) (rest : List (ℕ × Bytes))
      → k ≡ key
      → now ≤ stop
      → view start m key ≤ view now m key
      → Bounded (take m now k per_minute burst).0 now stop rest
      → let n =
          (if is_enough (answer m now k per_minute burst) then 1 else 0)
          + allowed_count (take m now k per_minute burst).0 rest in
        (n ≡ 0) ⊎ (view start m key + n * interval per_minute ≤ stop + burst * interval per_minute)
  own_step m now k start stop rest e le grows ih =
      let i = interval per_minute in
      let at_k = ap (view now m) e in
      elim (Bool-cases (is_enough (answer m now k per_minute burst))) [
        | inl token ↦
            let moved = view-take_allowed m now now k per_minute burst (omega arith) token in
            let after = ap (view now (take m now k per_minute burst).0) e in
            let there : view now (take m now k per_minute burst).0 key ≡ view now m k + i =
              ground arith in
            rw token (
              inr (
                allowed_step i burst (allowed_count (take m now k per_minute burst).0 rest)
                  (view now m k) now (view start m key) stop (ground arith) le (omega arith)
                  ((is_enough_iff (answer m now k per_minute burst)).0 token) (rw there at ih)))
        | inr no_token ↦
            let same = view-take_refused m now now k per_minute burst (omega arith) no_token in
            let after = ap (view now (take m now k per_minute burst).0) e in
            rw no_token (ground (arith, ih, same, after, at_k))
      ]

  allowed_count-Bounded :
      (reqs : List (ℕ × Bytes)) (m : Memory) (start stop : ℕ)
      → InOrder start reqs stop
      → Bounded m start stop reqs
  unfolding allowed_count
  allowed_count-Bounded [] m start stop h = inl refl
  allowed_count-Bounded ((now, k) ∷ rest) m start stop (le, h) =
      let ih = allowed_count-Bounded rest (take m now k per_minute burst).0 now stop h in
      let grows = view_grows m start now key le in
      elim (Bool-cases (bytes_eq k key)) [
        | inr other ↦
            let same = view-take_ne m now now k key per_minute burst (omega arith) other in
            rw other (ground (arith, ih, same, grows))
        | inl own ↦
            let e : k ≡ key = (bytes_eq_iff k key).0 own in
            rw (own, take-answer m now k per_minute burst)
              (own_step m now k start stop rest e (InOrder-le rest now stop h) grows ih)
      ]

  -- From any state, over attempts in order of time, a key is allowed at most a full burst and one
  -- more attempt for each whole interval between the first moment and the last.
  pub allowed_count_bound :
      (m : Memory) (reqs : List (ℕ × Bytes)) (start stop : ℕ)
      → InOrder start reqs stop
      → allowed_count m reqs * interval per_minute ≤ burst * interval per_minute + (stop - start)
  allowed_count_bound m reqs start stop h =
      let b = allowed_count-Bounded reqs m start stop h in
      let le = InOrder-le reqs start stop h in
      let from_start : start ≤ view start m key = ground arith in
      elim b [ inl none_allowed ↦ rw none_allowed (omega arith) | inr bounded ↦ omega arith ]
