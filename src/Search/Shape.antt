-- ===== src/Search/Shape.antt =====
-- The text of a search's statement holds no value of the filter.
use loghub.Common.{
  ℕ, ◌+◌, ◌≡◌, refl, Bool, true, false, List, [], ◌∷◌, ◌++◌, Option, none, some, arith, length,
  length-append, ℤ, Bytes, codes, is_empty,
}
use loghub.Search.{EventQuery}
use loghub.Search.Statement.{
  Value, time, text, int, Built, add_cond, add_text, add_texts, add_int, add_addr, add_query,
  escaped_in_json, like_escape, where_window, where_kind, conditions, add_position, select,
}
use loghub.Search.Page.{SearchQuery, Cursor, position, statement}

abbrev is_some {ℓ} : {A : Type ℓ} → Option A → Bool
is_some none = false
is_some (some a) = true

abbrev is_nil {ℓ} : {A : Type ℓ} → List A → Bool
is_nil [] = true
is_nil (x ∷ xs) = false

-- Two queries that filter by the same fields, in the same direction, from the start or from a
-- position, and whose free texts need escaping in JSON alike.
abbrev pub SameFields : EventQuery → EventQuery → Type 0
SameFields q r =
    (is_empty q.filter.tenant ≡ is_empty r.filter.tenant)
    × (is_nil q.filter.sources ≡ is_nil r.filter.sources)
    × (is_empty q.filter.event_type ≡ is_empty r.filter.event_type)
    × (is_empty q.filter.action ≡ is_empty r.filter.action)
    × (is_some q.filter.severity_min ≡ is_some r.filter.severity_min)
    × (is_some q.filter.severity_max ≡ is_some r.filter.severity_max)
    × (is_some q.addr ≡ is_some r.addr)
    × (is_empty q.filter.user ≡ is_empty r.filter.user)
    × (is_empty q.filter.host ≡ is_empty r.filter.host)
    × (is_nil q.filter.tags ≡ is_nil r.filter.tags)
    × (is_empty q.filter.query ≡ is_empty r.filter.query)
    × (escaped_in_json q.filter.query ≡ escaped_in_json r.filter.query)

-- The same text, and as many parameters.
abbrev Same : Built → Built → Type 0
Same s t = (length s.0 ≡ length t.0) × (s.1 ≡ t.1)

two_more :
    (args : List Value) (v w : Value) → length ((args ++ (v ∷ [])) ++ (w ∷ [])) ≡ length args + 2
two_more args v w =
    omega (arith, length-append (args ++ (v ∷ [])) (w ∷ []), length-append args (v ∷ []))

abbrev pattern_of : Bytes → Value
unfolding like_escape
pattern_of query = text (b'%' ∷ (like_escape query ++ (b'%' ∷ [])))

Same-cond :
    (before : Bytes) (v w : Value) (after : Bytes) (s t : Built)
    → Same s t
    → Same (add_cond before v after s) (add_cond before w after t)
unfolding add_cond
Same-cond before v w after (args, conds) (args', conds') (n, c) =
    (omega (arith, n, length-append args (v ∷ []), length-append args' (w ∷ [])), rw n (rw c refl))

Same-text :
    (before a b : Bytes) (s t : Built)
    → is_empty a ≡ is_empty b
    → Same s t
    → Same (add_text before a s) (add_text before b t)
unfolding add_text
Same-text before [] [] s t e h = h
Same-text before [] (y ∷ b) s t e h = cc
Same-text before (x ∷ a) [] s t e h = cc
Same-text before (x ∷ a) (y ∷ b) s t e h = Same-cond before _ _ [] s t h

Same-texts :
    (before : Bytes) (a b : List Bytes) (after : Bytes) (s t : Built)
    → is_nil a ≡ is_nil b
    → Same s t
    → Same (add_texts before a after s) (add_texts before b after t)
unfolding add_texts
Same-texts before [] [] after s t e h = h
Same-texts before [] (y ∷ b) after s t e h = cc
Same-texts before (x ∷ a) [] after s t e h = cc
Same-texts before (x ∷ a) (y ∷ b) after s t e h = Same-cond before _ _ after s t h

Same-int :
    (before : Bytes) (a b : Option ℤ) (s t : Built)
    → is_some a ≡ is_some b
    → Same s t
    → Same (add_int before a s) (add_int before b t)
unfolding add_int
Same-int before none none s t e h = h
Same-int before none (some y) s t e h = cc
Same-int before (some x) none s t e h = cc
Same-int before (some x) (some y) s t e h = Same-cond before _ _ [] s t h

Same-addr :
    (before : Bytes) (a b : Option Bytes) (s t : Built)
    → is_some a ≡ is_some b
    → Same s t
    → Same (add_addr before a s) (add_addr before b t)
unfolding add_addr
Same-addr before none none s t e h = h
Same-addr before none (some y) s t e h = cc
Same-addr before (some x) none s t e h = cc
Same-addr before (some x) (some y) s t e h = Same-cond before _ _ [] s t h

Same-query :
    (a b : Bytes) (s t : Built)
    → is_empty a ≡ is_empty b
    → escaped_in_json a ≡ escaped_in_json b
    → Same s t
    → Same (add_query a s) (add_query b t)
unfolding add_query
Same-query [] [] s t e k h = h
Same-query [] (y ∷ b) s t e k h = cc
Same-query (x ∷ a) [] s t e k h = cc
Same-query (x ∷ a) (y ∷ b) (args, conds) (args', conds') e k (n, c) = (
  omega (
    arith,
    n,
    length-append args (pattern_of (x ∷ a) ∷ []),
    length-append args' (pattern_of (y ∷ b) ∷ []),
  ),
  rw n (rw c (rw k refl)),
)

Same-position :
    (ascending : Bool) (p p' : Option (ℕ × ℤ)) (s t : Built)
    → is_some p ≡ is_some p'
    → Same s t
    → Same (add_position ascending p s) (add_position ascending p' t)
unfolding add_position
Same-position d none none s t e h = h
Same-position d none (some y) s t e h = cc
Same-position d (some x) none s t e h = cc
Same-position d (some (ts, id)) (some (ts', id')) (args, conds) (args', conds') e (n, c) = (
  omega (arith, n, two_more args (time ts) (int id), two_more args' (time ts') (int id')),
  rw n (rw c refl),
)

Same-kind :
    (q r : EventQuery)
    → is_empty q.filter.tenant ≡ is_empty r.filter.tenant
    → is_nil q.filter.sources ≡ is_nil r.filter.sources
    → is_empty q.filter.event_type ≡ is_empty r.filter.event_type
    → is_empty q.filter.action ≡ is_empty r.filter.action
    → Same (where_kind q (where_window q)) (where_kind r (where_window r))
Same-kind q r tenant sources kind action =
    Same-text (codes "action = ") q.filter.action r.filter.action _ _ action (
      Same-text (codes "event_type = ") q.filter.event_type r.filter.event_type _ _ kind (
        Same-texts (codes "source = ANY(") q.filter.sources r.filter.sources (codes ")") _ _ sources
          (Same-text (codes "tenant_id = ") q.filter.tenant r.filter.tenant _ _ tenant (
            Same-cond (codes "ts < ") (time q.to) (time r.to) [] _ _ (
              Same-cond (codes "ts >= ") (time q.from) (time r.from) [] ([], []) ([], [])
                (refl, refl))))))

Same-conditions : (q r : EventQuery) → SameFields q r → Same (conditions q) (conditions r)
unfolding conditions
Same-conditions q r
      (tenant, sources, kind, action, low, high, addr, user, host, tags, query, json) =
    Same-query q.filter.query r.filter.query _ _ query json (
      Same-texts (codes "tags @> ") q.filter.tags r.filter.tags [] _ _ tags (
        Same-text (codes "host = ") q.filter.host r.filter.host _ _ host (
          Same-text (codes "user_name = ") q.filter.user r.filter.user _ _ user (
            Same-addr (codes "src_ip = ") q.addr r.addr _ _ addr (
              Same-int (codes "severity <= ") q.filter.severity_max r.filter.severity_max _ _ high (
                Same-int (codes "severity >= ") q.filter.severity_min r.filter.severity_min _ _ low
                  (Same-kind q r tenant sources kind action)))))))

Same-select :
    (d e : Bool) (limit limit' : ℕ) (s t : Built)
    → d ≡ e
    → Same s t
    → (select d limit s).0 ≡ (select e limit' t).0
Same-select d e limit limit' (args, conds) (args', conds') h (n, c) = rw h (rw n (rw c refl))

positioned :
    (a b : Option Cursor) → is_some a ≡ is_some b → is_some (position a) ≡ is_some (position b)
positioned none none e = refl
positioned none (some y) e = cc
positioned (some x) none e = cc
positioned (some x) (some y) e = refl

-- The text of a search's statement, its placeholders included, depends only on which filters are
-- set, on the order, on whether there is a cursor, and on whether the free text needs escaping in
-- JSON: two queries alike in these have the same text, whatever the values.
pub statement_same :
    (q r : SearchQuery)
    → SameFields q.query r.query
    → q.ascending ≡ r.ascending
    → is_some q.after ≡ is_some r.after
    → (statement q).0 ≡ (statement r).0
unfolding statement
statement_same q r h d p = Same-select q.ascending r.ascending q.limit r.limit _ _ d (
    rw d (
      Same-position r.ascending (position q.after) (position r.after) _ _
        (positioned q.after r.after p) (Same-conditions q.query r.query h)))
