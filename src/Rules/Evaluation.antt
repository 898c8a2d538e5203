-- ===== src/Rules/Evaluation.antt =====
-- backend/internal/store/alerts.go: the statement that evaluates a rule, and `AlertRepo.CreateRule`.
-- A stored rule has the bounds that the table checks, so its durations do not overflow.
use loghub.Common.{
  ℕ, ◌+◌, ◌-◌, ◌*◌, suc, not, List, [], ◌∷◌, ◌++◌, Option, none, some, if◌then◌else◌, length, ℤ,
  pos, negsuc, Bytes, codes, bytes_eq, contains,
}
use loghub.Errors.{Error, Result, ok, err}
use loghub.Search.Statement.{
  Value, Condition, Built, sql, param, time, text, int, add_cond, add_int, add_texts,
}
use loghub.Counts.{FieldColumn, field_column, minute}
use loghub.Insert.{unknown_tenant}
use loghub.Auth.Issue.{internal_error}
use loghub.Rules.{NewAlertRule}

-- `store.AlertRule`: what was inserted, and what the table adds.
pub record AlertRule : Type 0 where
  pub id : ℤ
  pub new : NewAlertRule
  pub created_at : ℕ

-- `GroupBy`
abbrev pub group_by_values : List Bytes
group_by_values = codes "src_ip" ∷ codes "dst_ip" ∷ codes "user" ∷ codes "host" ∷ []

-- `end.Add(-d)`, for a number of minutes
abbrev pub minutes_before : ℕ → ℤ → ℕ
minutes_before end (pos n) = end - n * minute
minutes_before end (negsuc n) = end + suc n * minute

unfoldable pub add_given : Bytes → Option Bytes → Built → Built
unfolding add_cond
add_given before none s = s
add_given before (some t) s = add_cond before (text t) [] s

-- The four parameters that are always there, and the conditions about them.
abbrev pub rule_window : AlertRule → FieldColumn → ℕ → Built
rule_window r group end = (
  int r.id ∷ text r.new.tenant_id ∷ time (minutes_before end r.new.window_minutes) ∷ time end ∷ [],
  (sql (codes "tenant_id = ") ∷ param 2 ∷ [])
      ∷ (sql (codes "ts >= ") ∷ param 3 ∷ [])
      ∷ (sql (codes "ts < ") ∷ param 4 ∷ [])
      ∷ (sql group.column ∷ sql (codes " IS NOT NULL") ∷ [])
      ∷ [],
)

unfoldable pub rule_conditions : AlertRule → FieldColumn → ℕ → Built
unfolding add_given add_int add_texts
rule_conditions r group end = add_texts (codes "tags @> ") r.new.tags [] (
    add_int (codes "severity >= ") r.new.severity_min (
      add_given (codes "action = ") r.new.action (
        add_given (codes "event_type = ") r.new.event_type
          (add_given (codes "source = ") r.new.source (rule_window r group end)))))

-- `strings.Join(conds, "\n    AND ")`
unfoldable pub join_conditions : List Condition → Condition
join_conditions [] = []
join_conditions (c ∷ []) = c
join_conditions (c ∷ d ∷ cs) = c ++ (sql (codes "\n    AND ") ∷ join_conditions (d ∷ cs))

-- The groups of matching events that reach the threshold.
abbrev pub counted_groups : FieldColumn → ℕ → List Condition → Condition
counted_groups group threshold conds =
    sql (codes "WITH counted AS (\n  SELECT ")
    ∷ sql group.text
    ∷ sql (codes " AS group_key, count(*) AS matched\n  FROM events\n  WHERE ")
    ∷ (join_conditions conds
        ++ (sql (codes "\n  GROUP BY ")
            ∷ sql group.column
            ∷ sql (codes "\n  HAVING count(*) >= ")
            ∷ param threshold
            ∷ []))

-- The firings, but for groups that fired within the cooldown.
abbrev pub fired_groups : ℕ → Condition
fired_groups n =
    sql (
      codes
        "\n)\nINSERT INTO alerts (rule_id, tenant_id, group_key, window_start, window_end, matched)\nSELECT ")
    ∷ param 1
    ∷ sql (codes "::bigint, ")
    ∷ param 2
    ∷ sql (codes "::text, c.group_key, ")
    ∷ param 3
    ∷ sql (codes "::timestamptz, ")
    ∷ param 4
    ∷ sql (
        codes
          "::timestamptz, c.matched\nFROM counted c\nWHERE NOT EXISTS (\n  SELECT FROM alerts a\n  WHERE a.rule_id = ")
    ∷ param 1
    ∷ sql (codes "\n    AND a.group_key = c.group_key\n    AND a.window_end > ")
    ∷ param (n + 2)
    ∷ sql (
        codes
          "\n)\nORDER BY c.group_key\nON CONFLICT (rule_id, group_key, window_start) DO NOTHING\nRETURNING id, rule_id, ")
    ∷ param (n + 3)
    ∷ sql (codes "::text AS rule_name, ")
    ∷ param (n + 4)
    ∷ sql (
        codes
          "::text AS group_by,\n  tenant_id, group_key, window_start, window_end, matched, created_at")
    ∷ []

abbrev pub evaluation_select : AlertRule → FieldColumn → ℕ → Built → Condition × List Value
evaluation_select r group end (args, conds) = (
  counted_groups group (length args + 1) conds ++ fired_groups (length args),
  args
      ++ (int r.new.threshold
          ∷ time (minutes_before end r.new.cooldown_minutes)
          ∷ text r.new.name
          ∷ text r.new.group_by
          ∷ []),
)

unfoldable pub evaluation_of : AlertRule → ℕ → Option FieldColumn → Result (Condition × List Value)
unfolding rule_conditions join_conditions bytes_eq
evaluation_of r end none = err internal_error
evaluation_of r end (some group) =
    if not (contains group_by_values r.new.group_by)
    then err internal_error
    else ok (evaluation_select r group end (rule_conditions r group end))

-- `evaluation`
unfoldable pub evaluation : AlertRule → ℕ → Result (Condition × List Value)
unfolding field_column evaluation_of
evaluation r end = evaluation_of r end (field_column r.new.group_by)

-- How the database answers an insert of a rule; a tenant that does not exist breaks a foreign key.
pub data Inserted : Type 0 where
  stored : AlertRule → Inserted
  no_such_tenant : Inserted
  failed : Error → Inserted

-- `CreateRule`
abbrev pub created : Inserted → Result AlertRule
created (stored r) = ok r
created no_such_tenant = err unknown_tenant
created (failed e) = err e
