-- ===== src/Rules/Placeholders.antt =====
-- The statement that evaluates a rule: its placeholders, and that there is one.
use mathlib.Core.Path.{subst}
use loghub.Common.{
  ℕ, ◌+◌, ◌≤◌, ◌≡◌, refl, true, Bool-cases, bytes_eq, bytes_eq_iff, List, [], ◌∷◌, Option, none,
  some, arith, length, length-append, ℤ, Bytes, codes, All, All-append, inl, inr, contains,
}
use loghub.Errors.{ok}
use loghub.Search.Statement.{
  Value, Condition, Built, param, time, text, int, add_cond, add_int, add_texts,
}
use loghub.Search.Placeholders.{Refers, Bound, All-All, cond-Bound, texts-Bound, int-Bound}
use loghub.Counts.{FieldColumn, field_column}
use loghub.Rules.Evaluation.{
  AlertRule, minutes_before, add_given, rule_window, rule_conditions, join_conditions,
  counted_groups, fired_groups, evaluation_select, evaluation_of, evaluation, group_by_values,
}

given-Bound :
    (before : Bytes) (t : Option Bytes) (s : Built) → Bound s → Bound (add_given before t s)
unfolding add_given
given-Bound before none s h = h
given-Bound before (some t) s h = cond-Bound before (text t) [] s h

join_conditions-Refers :
    (n : ℕ) (cs : List Condition) → All (All (Refers n)) cs → All (Refers n) (join_conditions cs)
unfolding join_conditions
join_conditions-Refers n [] h = tt
join_conditions-Refers n (c ∷ []) h = h.0
join_conditions-Refers n (c ∷ d ∷ cs) (p, h) =
    All-append (Refers n) c _ p (tt, join_conditions-Refers n (d ∷ cs) h)

window-Bound : (r : AlertRule) (group : FieldColumn) (end : ℕ) → Bound (rule_window r group end)
window-Bound r group end = (
  (tt, ((omega arith, omega arith), tt)),
  (
    (tt, ((omega arith, omega arith), tt)),
    ((tt, ((omega arith, omega arith), tt)), ((tt, (tt, tt)), tt)),
  ),
)

rule_conditions-Bound :
    (r : AlertRule) (group : FieldColumn) (end : ℕ) → Bound (rule_conditions r group end)
unfolding rule_conditions
rule_conditions-Bound r group end =
    let s0 = rule_window r group end in
    let s1 = add_given (codes "source = ") r.new.source s0 in
    let s2 = add_given (codes "event_type = ") r.new.event_type s1 in
    let s3 = add_given (codes "action = ") r.new.action s2 in
    let s4 = add_int (codes "severity >= ") r.new.severity_min s3 in
    texts-Bound (codes "tags @> ") r.new.tags [] s4 (
      int-Bound (codes "severity >= ") r.new.severity_min s3 (
        given-Bound (codes "action = ") r.new.action s2 (
          given-Bound (codes "event_type = ") r.new.event_type s1
            (given-Bound (codes "source = ") r.new.source s0 (window-Bound r group end)))))

-- The parameters of the window stay.
abbrev HasFour : Built → Type 0
HasFour s = 4 ≤ length s.0

cond-four :
    (before : Bytes) (v : Value) (after : Bytes) (s : Built)
    → HasFour s
    → HasFour (add_cond before v after s)
unfolding add_cond
cond-four before v after (args, conds) h = omega (arith, h, length-append args (v ∷ []))

given-four :
    (before : Bytes) (t : Option Bytes) (s : Built) → HasFour s → HasFour (add_given before t s)
unfolding add_given
given-four before none s h = h
given-four before (some t) s h = cond-four before (text t) [] s h

int-four : (before : Bytes) (n : Option ℤ) (s : Built) → HasFour s → HasFour (add_int before n s)
unfolding add_int
int-four before none s h = h
int-four before (some n) s h = cond-four before (int n) [] s h

texts-four :
    (before : Bytes) (ts : List Bytes) (after : Bytes) (s : Built)
    → HasFour s
    → HasFour (add_texts before ts after s)
unfolding add_texts
texts-four before [] after s h = h
texts-four before (t ∷ ts) after s h = cond-four before _ after s h

rule_conditions-four :
    (r : AlertRule) (group : FieldColumn) (end : ℕ) → HasFour (rule_conditions r group end)
unfolding rule_conditions
rule_conditions-four r group end =
    let s0 = rule_window r group end in
    let s1 = add_given (codes "source = ") r.new.source s0 in
    let s2 = add_given (codes "event_type = ") r.new.event_type s1 in
    let s3 = add_given (codes "action = ") r.new.action s2 in
    let s4 = add_int (codes "severity >= ") r.new.severity_min s3 in
    texts-four (codes "tags @> ") r.new.tags [] s4 (
      int-four (codes "severity >= ") r.new.severity_min s3 (
        given-four (codes "action = ") r.new.action s2 (
          given-four (codes "event_type = ") r.new.event_type s1
            (given-four (codes "source = ") r.new.source s0 (omega arith)))))

-- A statement whose every placeholder is the number of one of its parameters.
abbrev pub IsBound : Condition × List Value → Type 0
IsBound (body, args) = All (Refers (length args)) body

counted_groups-Refers :
    (n threshold : ℕ) (group : FieldColumn) (conds : List Condition)
    → Refers n (param threshold)
    → All (All (Refers n)) conds
    → All (Refers n) (counted_groups group threshold conds)
counted_groups-Refers n threshold group conds r h = (
  tt,
  (
    tt,
    (
      tt,
      All-append (Refers n) (join_conditions conds) _ (join_conditions-Refers n conds h)
          (tt, (tt, (tt, (r, tt)))),
    ),
  ),
)

fired_groups-Refers : (m n : ℕ) → 4 ≤ n → m + 4 ≤ n → All (Refers n) (fired_groups m)
fired_groups-Refers m n four h = ground arith

select-IsBound :
    (r : AlertRule) (group : FieldColumn) (end : ℕ) (s : Built)
    → Bound s
    → HasFour s
    → IsBound (evaluation_select r group end s)
select-IsBound r group end (args, conds) h four =
    let n = length-append args (
      int r.new.threshold
      ∷ time (minutes_before end r.new.cooldown_minutes)
      ∷ text r.new.name
      ∷ text r.new.group_by
      ∷ []) in
    All-append (Refers _) (counted_groups group (length args + 1) conds) _
      (counted_groups-Refers _ (length args + 1) group conds (omega arith, omega (arith, n))
        (All-All _ _ conds (omega (arith, n)) h))
      (fired_groups-Refers (length args) _ (omega (arith, n, four)) (omega (arith, n)))

-- What holds of every text of a list holds of a text that it contains.
pub contains-All :
    (P : Bytes → Type 0) (xs : List Bytes) (s : Bytes) → All P xs → contains xs s ≡ true → P s
contains-All P [] s h k = cc
contains-All P (x ∷ xs) s (p, h) k = elim (Bool-cases (bytes_eq x s)) [
  | inl it ↦ subst P ((bytes_eq_iff x s).0 it) p
  | inr other ↦ contains-All P xs s h (rw other at k)
]

abbrev IsColumn : Bytes → Type 0
IsColumn g = (c : FieldColumn) × (field_column g ≡ some c)

columns : All IsColumn group_by_values
unfolding field_column
columns = ((_, refl), ((_, refl), ((_, refl), ((_, refl), tt))))

-- A rule that groups by one of the fields for it has a statement that evaluates it, and every
-- placeholder of the statement is the number of one of its bind parameters.
pub evaluation-IsBound :
    (r : AlertRule) (end : ℕ)
    → contains group_by_values r.new.group_by ≡ true
    → (q : Condition × List Value) × (evaluation r end ≡ ok q) × IsBound q
unfolding evaluation evaluation_of
evaluation-IsBound r end h =
    let (group, known) = contains-All IsColumn group_by_values r.new.group_by columns h in
    (
      evaluation_select r group end (rule_conditions r group end),
      rw (known, h) refl,
      select-IsBound r group end (rule_conditions r group end) (rule_conditions-Bound r group end)
          (rule_conditions-four r group end),
    )
