-- ===== src/Search/Statement.antt =====
-- The SQL of a search, `searchQuery.sql` and `eventQuery.where`: fixed fragments of text, and
-- placeholders, which stand for `$1`, `$2`, ... and number the bind parameters.
use loghub.Common.{
  ℕ, ◌+◌, Bool, ◌||◌, List, [], ◌∷◌, ◌++◌, Option, none, some, ltb, ◌==◌, if◌then◌else◌, any,
  length, ℤ, Bytes, codes, is_empty,
}
use loghub.Search.{EventQuery}

-- A bind parameter.
pub data Value : Type 0 where
  time : ℕ → Value
  text : Bytes → Value
  texts : List Bytes → Value
  int : ℤ → Value
  addr : Bytes → Value
  count : ℕ → Value

pub data Piece : Type 0 where
  sql : Bytes → Piece
  param : ℕ → Piece

abbrev pub Condition : Type 0
Condition = List Piece

-- The parameters bound so far, and the conditions built so far.
abbrev pub Built : Type 0
Built = List Value × List Condition

-- One condition about one new parameter.
unfoldable pub add_cond : Bytes → Value → Bytes → Built → Built
add_cond before v after (args, conds) =
    (args ++ (v ∷ []), conds ++ ((sql before ∷ param (length args + 1) ∷ sql after ∷ []) ∷ []))

unfoldable pub add_text : Bytes → Bytes → Built → Built
unfolding add_cond
add_text before t s = if is_empty t then s else add_cond before (text t) [] s

unfoldable pub add_texts : Bytes → List Bytes → Bytes → Built → Built
unfolding add_cond
add_texts before [] after s = s
add_texts before (t ∷ ts) after s = add_cond before (texts (t ∷ ts)) after s

unfoldable pub add_int : Bytes → Option ℤ → Built → Built
unfolding add_cond
add_int before none s = s
add_int before (some n) s = add_cond before (int n) [] s

unfoldable pub add_addr : Bytes → Option Bytes → Built → Built
unfolding add_cond
add_addr before none s = s
add_addr before (some a) s = add_cond before (addr a) [] s

-- `likeEscaper.Replace`
unfoldable pub like_escape : Bytes → Bytes
like_escape [] = []
like_escape (c ∷ s) =
    let rest = like_escape s in
    if c == b'\\' || (c == b'%' || c == b'_') then b'\\' ∷ c ∷ rest else c ∷ rest

unfoldable pub escaped_in_json : Bytes → Bool
escaped_in_json s = any (λ c. c == b'"' || (c == b'\\' || ltb c 0x20)) s

-- The cheap first pass, where the text needs no escaping in JSON.
abbrev pub first_pass : Bytes → Piece → List Condition
first_pass query pattern =
    if escaped_in_json query then [] else (sql (codes "raw::text ILIKE ") ∷ pattern ∷ []) ∷ []

abbrev pub value_match : Piece → Condition
value_match pattern =
    sql (
      codes
        "EXISTS (\n\tSELECT 1 FROM jsonb_path_query(raw, 'strict $.**') AS v\n\tWHERE jsonb_typeof(v) IN ('string', 'number') AND v #>> '{}' ILIKE ")
    ∷ pattern
    ∷ sql (codes ")")
    ∷ []

unfoldable pub add_query : Bytes → Built → Built
unfolding like_escape escaped_in_json
add_query query (args, conds) =
    let pattern = param (length args + 1) in
    if is_empty query then (args, conds) else (
      args ++ (text (b'%' ∷ (like_escape query ++ (b'%' ∷ []))) ∷ []),
      (conds ++ first_pass query pattern) ++ (value_match pattern ∷ []),
    )

abbrev pub where_window : EventQuery → Built
where_window q =
    add_cond (codes "ts < ") (time q.to) [] (add_cond (codes "ts >= ") (time q.from) [] ([], []))

abbrev pub where_kind : EventQuery → Built → Built
where_kind q s =
    let f = q.filter in
    add_text (codes "action = ") f.action (
      add_text (codes "event_type = ") f.event_type (
        add_texts (codes "source = ANY(") f.sources (codes ")")
          (add_text (codes "tenant_id = ") f.tenant s)))

abbrev pub where_actor : EventQuery → Built → Built
where_actor q s =
    let f = q.filter in
    add_text (codes "host = ") f.host (
      add_text (codes "user_name = ") f.user (
        add_addr (codes "src_ip = ") q.addr (
          add_int (codes "severity <= ") f.severity_max
            (add_int (codes "severity >= ") f.severity_min s))))

-- `eventQuery.where`
unfoldable pub conditions : EventQuery → Built
unfolding add_cond add_text add_texts add_int add_addr add_query
conditions q =
    add_query q.filter.query (
      add_texts (codes "tags @> ") q.filter.tags [] (where_actor q (where_kind q (where_window q))))

-- `strings.Join(conds, "\n  AND ")`
unfoldable pub join : List Condition → Condition
join [] = []
join (c ∷ []) = c
join (c ∷ d ∷ cs) = c ++ (sql (codes "\n  AND ") ∷ join (d ∷ cs))

abbrev pub event_columns : Bytes
event_columns =
    codes
      "id, ts, received_at, tenant_id, source, vendor, product,\n\tevent_type, event_subtype, severity, action, src_ip, src_port, dst_ip, dst_port,\n\tprotocol, user_name, host, process, url, http_method, status_code, rule_name,\n\trule_id, cloud_account_id, cloud_region, cloud_service, raw, tags"

-- Whether the oldest come first, and the position to go on from.
unfoldable pub add_position : Bool → Option (ℕ × ℤ) → Built → Built
add_position ascending none s = s
add_position ascending (some (ts, id)) (args, conds) = (
  (args ++ (time ts ∷ [])) ++ (int id ∷ []),
  conds
      ++ ((sql (codes "(ts, id) ")
            ∷ sql (if ascending then codes ">" else codes "<")
            ∷ sql (codes " (")
            ∷ param (length args + 1)
            ∷ sql (codes ", ")
            ∷ param (length args + 2)
            ∷ sql (codes ")")
            ∷ [])
          ∷ []),
)

abbrev pub select : Bool → ℕ → Built → Condition × List Value
select ascending limit (args, conds) =
    let dir = if ascending then codes "ASC" else codes "DESC" in
    (
      sql (codes "SELECT ")
          ∷ sql event_columns
          ∷ sql (codes "\nFROM events\nWHERE ")
          ∷ (join conds
              ++ (sql (codes "\nORDER BY ts ")
                  ∷ sql dir
                  ∷ sql (codes ", id ")
                  ∷ sql dir
                  ∷ sql (codes "\nLIMIT ")
                  ∷ param (length args + 1)
                  ∷ [])),
      args ++ (count (limit + 1) ∷ []),
    )
