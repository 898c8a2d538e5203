-- ===== src/Search/Placeholders.antt =====
-- The statement of a search: its placeholders and its text.
use mathlib.Core.List.{append_assoc}
use loghub.Common.{
  ℕ, ◌+◌, ◌≤◌, Bool, List, [], ◌∷◌, ◌++◌, Option, none, some, arith, Bool-cases, length,
  length-append, ℤ, Bytes, codes, All, All-append, inl, inr,
}
use loghub.Search.{EventQuery}
use loghub.Search.Statement.{
  Value, time, text, int, count, first_pass, where_kind, where_actor, where_window, Piece,
  Condition, Built, sql, param, add_cond, add_text, add_texts, add_int, add_addr, add_query,
  escaped_in_json, like_escape, conditions, join, add_position, select,
}
use loghub.Search.Page.{SearchQuery, position, statement}

-- The placeholder of a parameter that there is.
abbrev pub Refers : ℕ → Piece → Type 0
Refers n (sql t) = Unit
Refers n (param k) = (1 ≤ k) × (k ≤ n)

abbrev pub Bound : Built → Type 0
Bound (args, conds) = All (All (Refers (length args))) conds

Refers-mono : (n m : ℕ) (p : Piece) → n ≤ m → Refers n p → Refers m p
Refers-mono n m (sql t) h r = tt
Refers-mono n m (param k) h (a, b) = (a, omega arith)

All-Refers : (n m : ℕ) (c : Condition) → n ≤ m → All (Refers n) c → All (Refers m) c
All-Refers n m [] h r = tt
All-Refers n m (p ∷ c) h (r, rs) = (Refers-mono n m p h r, All-Refers n m c h rs)

pub All-All :
    (n m : ℕ) (cs : List Condition) → n ≤ m → All (All (Refers n)) cs → All (All (Refers m)) cs
All-All n m [] h r = tt
All-All n m (c ∷ cs) h (r, rs) = (All-Refers n m c h r, All-All n m cs h rs)

-- A step that binds parameters and adds conditions that refer to them.
extended :
    (args more : List Value) (conds new : List Condition)
    → Bound (args, conds)
    → All (All (Refers (length (args ++ more)))) new
    → Bound (args ++ more, conds ++ new)
extended args more conds new h k =
    All-append _ conds new
      (All-All (length args) (length (args ++ more)) conds (omega (arith, length-append args more))
        h)
      k

pub cond-Bound :
    (before : Bytes) (v : Value) (after : Bytes) (s : Built)
    → Bound s
    → Bound (add_cond before v after s)
unfolding add_cond
cond-Bound before v after (args, conds) h =
    extended args (v ∷ []) conds _ h
      ((tt, ((omega arith, omega (arith, length-append args (v ∷ []))), (tt, tt))), tt)

text-Bound : (before t : Bytes) (s : Built) → Bound s → Bound (add_text before t s)
unfolding add_text
text-Bound before [] s h = h
text-Bound before (c ∷ t) s h = cond-Bound before _ [] s h

pub texts-Bound :
    (before : Bytes) (ts : List Bytes) (after : Bytes) (s : Built)
    → Bound s
    → Bound (add_texts before ts after s)
unfolding add_texts
texts-Bound before [] after s h = h
texts-Bound before (t ∷ ts) after s h = cond-Bound before _ after s h

pub int-Bound : (before : Bytes) (n : Option ℤ) (s : Built) → Bound s → Bound (add_int before n s)
unfolding add_int
int-Bound before none s h = h
int-Bound before (some n) s h = cond-Bound before _ [] s h

addr-Bound : (before : Bytes) (a : Option Bytes) (s : Built) → Bound s → Bound (add_addr before a s)
unfolding add_addr
addr-Bound before none s h = h
addr-Bound before (some a) s h = cond-Bound before _ [] s h

first_pass-Refers :
    (query : Bytes) (n k : ℕ)
    → Refers n (param k)
    → All (All (Refers n)) (first_pass query (param k))
first_pass-Refers query n k r = elim (Bool-cases (escaped_in_json query)) [
  | inl escaped ↦ rw escaped tt
  | inr plain ↦ rw plain ((tt, (r, tt)), tt)
]

query-Bound : (query : Bytes) (s : Built) → Bound s → Bound (add_query query s)
unfolding add_query
query-Bound [] s h = h
query-Bound (c ∷ t) (args, conds) h =
    let n = length-append args (text (b'%' ∷ (like_escape (c ∷ t) ++ (b'%' ∷ []))) ∷ []) in
    All-append _ (conds ++ first_pass (c ∷ t) (param (length args + 1))) _
      (extended args (text (b'%' ∷ (like_escape (c ∷ t) ++ (b'%' ∷ []))) ∷ []) conds
        (first_pass (c ∷ t) (param (length args + 1))) h
        (first_pass-Refers (c ∷ t) _ _ (omega arith, omega (arith, n))))
      ((tt, ((omega arith, omega (arith, n)), (tt, tt))), tt)

position-Bound :
    (ascending : Bool) (p : Option (ℕ × ℤ)) (s : Built)
    → Bound s
    → Bound (add_position ascending p s)
unfolding add_position
position-Bound ascending none s h = h
position-Bound ascending (some (ts, id)) (args, conds) h =
    rw (append_assoc args (time ts ∷ []) (int id ∷ [])) (
      let n = length-append args (time ts ∷ int id ∷ []) in
      extended args (time ts ∷ int id ∷ []) conds _ h (
        (
          tt,
          (
            tt,
            (
              tt,
              ((omega arith, omega (arith, n)), (tt, ((omega arith, omega (arith, n)), (tt, tt)))),
            ),
          ),
        ),
        tt,
      ))

join-Refers : (n : ℕ) (cs : List Condition) → All (All (Refers n)) cs → All (Refers n) (join cs)
unfolding join
join-Refers n [] h = tt
join-Refers n (c ∷ []) h = h.0
join-Refers n (c ∷ d ∷ cs) (p, h) = All-append (Refers n) c _ p (tt, join-Refers n (d ∷ cs) h)

kind-Bound : (q : EventQuery) (s : Built) → Bound s → Bound (where_kind q s)
kind-Bound q s h =
    let f = q.filter in
    let s1 = add_text (codes "tenant_id = ") f.tenant s in
    let s2 = add_texts (codes "source = ANY(") f.sources (codes ")") s1 in
    let s3 = add_text (codes "event_type = ") f.event_type s2 in
    text-Bound (codes "action = ") f.action s3 (
      text-Bound (codes "event_type = ") f.event_type s2 (
        texts-Bound (codes "source = ANY(") f.sources (codes ")") s1
          (text-Bound (codes "tenant_id = ") f.tenant s h)))

actor-Bound : (q : EventQuery) (s : Built) → Bound s → Bound (where_actor q s)
actor-Bound q s h =
    let f = q.filter in
    let s1 = add_int (codes "severity >= ") f.severity_min s in
    let s2 = add_int (codes "severity <= ") f.severity_max s1 in
    let s3 = add_addr (codes "src_ip = ") q.addr s2 in
    let s4 = add_text (codes "user_name = ") f.user s3 in
    text-Bound (codes "host = ") f.host s4 (
      text-Bound (codes "user_name = ") f.user s3 (
        addr-Bound (codes "src_ip = ") q.addr s2 (
          int-Bound (codes "severity <= ") f.severity_max s1
            (int-Bound (codes "severity >= ") f.severity_min s h))))

window-Bound : (q : EventQuery) → Bound (where_window q)
unfolding add_cond
window-Bound q =
    cond-Bound (codes "ts < ") (time q.to) [] (add_cond (codes "ts >= ") (time q.from) [] ([], []))
      (cond-Bound (codes "ts >= ") (time q.from) [] ([], []) tt)

conditions-Bound : (q : EventQuery) → Bound (conditions q)
unfolding conditions
conditions-Bound q =
    let s1 = where_kind q (where_window q) in
    let s2 = where_actor q s1 in
    query-Bound q.filter.query (add_texts (codes "tags @> ") q.filter.tags [] s2) (
      texts-Bound (codes "tags @> ") q.filter.tags [] s2
        (actor-Bound q s1 (kind-Bound q (where_window q) (window-Bound q))))

select-Refers :
    (ascending : Bool) (limit : ℕ) (s : Built)
    → Bound s
    → All (Refers (length (select ascending limit s).1)) (select ascending limit s).0
select-Refers ascending limit (args, conds) h =
    let n = length-append args (count (limit + 1) ∷ []) in
    (
      tt,
      (
        tt,
        (
          tt,
          All-append _ (join conds) _ (join-Refers _ conds (All-All _ _ conds (omega (arith, n)) h))
              (tt, (tt, (tt, (tt, (tt, ((omega arith, omega (arith, n)), tt)))))),
        ),
      ),
    )

-- Every placeholder of a search's statement is the number of one of its bind parameters.
pub statement-Refers : (q : SearchQuery) → All (Refers (length (statement q).1)) (statement q).0
unfolding statement
statement-Refers q =
    select-Refers q.ascending q.limit
      (add_position q.ascending (position q.after) (conditions q.query))
      (position-Bound q.ascending (position q.after) (conditions q.query)
        (conditions-Bound q.query))
