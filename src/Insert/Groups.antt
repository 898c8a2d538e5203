-- ===== src/Insert/Groups.antt =====
-- The grouping of events by tenant: nothing is lost or doubled, and the events of unknown tenants
-- are refused at their positions.
use loghub.Common.{
  ℕ, ◌+◌, ◌≡◌, refl, ap, Bool, Bool-cases, List, [], ◌∷◌, ◌++◌, Option, none, some, arith, length,
  length-append, Bytes, bytes_eq, if◌then◌else◌, inl, inr,
}
use loghub.Errors.{Error}
use loghub.Event.{Event}
use loghub.Insert.{Placed, Rejected, Groups, no_errors, set_at, add_to, group, unknown_tenant}
use loghub.Insert.Count.{tally, count, count-append}
use loghub.Insert.Loops.{flat_groups}

-- The events of known tenants, with their positions.
abbrev pub known_from : (Bytes → Bool) → ℕ → List Event → List Placed
known_from known i [] = []
known_from known i (ev ∷ events) =
    let rest = known_from known (i + 1) events in
    if known ev.tenant_id then (i, ev) ∷ rest else rest

abbrev pub marked : (Bytes → Bool) → List Event → Rejected
marked known [] = []
marked known (ev ∷ events) =
    (if known ev.tenant_id then none else some unknown_tenant) ∷ marked known events

count-add_to :
    (q : Placed → Bool) (groups : Groups) (t : Bytes) (x : Placed)
    → count q (flat_groups (add_to groups t x)) ≡ count q (flat_groups groups) + tally (q x)
unfolding add_to
count-add_to q [] t x = omega arith
count-add_to q ((t', ps) ∷ groups) t x = elim (Bool-cases (bytes_eq t' t)) [
  | inl same ↦
      (let here = count-append q ps (x ∷ []) in
        let before = count-append q ps (flat_groups groups) in
        let after = count-append q (ps ++ x ∷ []) (flat_groups groups) in rw same (omega arith))
  | inr other ↦
      (let before = count-append q ps (flat_groups groups) in
        let after = count-append q ps (flat_groups (add_to groups t x)) in
        let rest = count-add_to q groups t x in rw other (omega arith))
]

pub count-group :
    (known : Bytes → Bool) (q : Placed → Bool) (i : ℕ) (events : List Event) (r : Rejected)
    → (groups : Groups)
    → count q (flat_groups (group known i events r groups).1)
      ≡ count q (flat_groups groups) + count q (known_from known i events)
unfolding group
count-group known q i [] r groups = omega arith
count-group known q i (ev ∷ events) r groups = elim (Bool-cases (known ev.tenant_id)) [
  | inl there ↦
      (let added = count-add_to q groups ev.tenant_id (i, ev) in
        let rest = count-group known q (i + 1) events r (add_to groups ev.tenant_id (i, ev)) in
        rw (there, group) (omega arith))
  | inr away ↦
      (let rest = count-group known q (i + 1) events (set_at r i unknown_tenant) groups in
        rw (away, group) rest)
]

set_at-append :
    (pre : Rejected) (r : Option Error) (rs : Rejected) (e : Error)
    → set_at (pre ++ r ∷ rs) (length pre) e ≡ pre ++ some e ∷ rs
unfolding set_at
set_at-append [] r rs e = refl
set_at-append (r' ∷ pre) r rs e = ap (◌∷◌ r') (set_at-append pre r rs e)

append_one :
    (pre : Rejected) (r : Option Error) (rs : Rejected) → (pre ++ r ∷ []) ++ rs ≡ pre ++ r ∷ rs
append_one [] r rs = refl
append_one (r' ∷ pre) r rs = ap (◌∷◌ r') (append_one pre r rs)

pub group_marks :
    (known : Bytes → Bool) (i : ℕ) (pre : Rejected) (events : List Event) (groups : Groups)
    → i ≡ length pre
    → (group known i events (pre ++ no_errors events) groups).0 ≡ pre ++ marked known events
unfolding group
group_marks known i pre [] groups h = refl
group_marks known i pre (ev ∷ events) groups h = elim (Bool-cases (known ev.tenant_id)) [
  | inl there ↦
      (let long = length-append pre (none ∷ []) in
        let rest =
          group_marks known (i + 1) (pre ++ none ∷ []) events (add_to groups ev.tenant_id (i, ev))
            (omega arith) in
        rw (there, group)
          (rw (append_one pre none (no_errors events), append_one pre none (marked known events)) at
            rest))
  | inr away ↦
      (let long = length-append pre (some unknown_tenant ∷ []) in
        let rest =
          group_marks known (i + 1) (pre ++ some unknown_tenant ∷ []) events groups (omega arith) in
        let here : set_at (pre ++ none ∷ no_errors events) i unknown_tenant
            ≡ pre ++ some unknown_tenant ∷ no_errors events =
          rw h (set_at-append pre none (no_errors events) unknown_tenant) in
        rw (away, group, here)
          (rw
            (
              append_one pre (some unknown_tenant) (no_errors events),
              append_one pre (some unknown_tenant) (marked known events),
            )
            at rest))
]
