-- ===== src/Normalize/Record.antt =====
-- `Normalize`: the checks of a record's tenant and source, and the event that comes out.
use loghub.Common.{
  ℕ, suc, zero, String, ◌+◌, ◌-◌, ◌*◌, Bool, not, ◌&&◌, ◌||◌, List, [], ◌∷◌, ◌++◌, Option, none,
  some, ltb, leb, if◌then◌else◌, any, length, ℤ, pos, negsuc, Bytes, codes, bytes_eq, is_empty,
  contains, trim_space, to_lower,
}
use loghub.Errors.{Error, Result, ok, err, new_error}
use loghub.Errors
use loghub.Event.{Event}
use loghub.Search.{hour}
use loghub.Syslog.{TimeLib}
use loghub.Normalize.{FieldLib, max_text, is_source, is_tenant_id, clean_text}
use loghub.Normalize.Builder.{
  Fields, JsonLib, Builder, new_builder, add_tag, invalid, value, scalar, or_empty, extra, identity,
}
use loghub.Normalize.Payload.{from_json}
use loghub.Normalize.Line.{syslog_line, from_syslog}
use loghub.Normalize.Enrich.{enrich, normalize_action}
use loghub.Normalize.Storable.{RawLib, storable_json}

abbrev pub default_retention : ℕ
default_retention = 7 * 24 * hour

abbrev pub future_skew : ℕ
future_skew = hour

pub record Defaults : Type 0 where
  pub tenant : Bytes
  pub source : Bytes

abbrev pub invalid_parameter : Error
invalid_parameter = new_error Errors.malformed "invalid_parameter"

-- `Defaults.Validate`: the error, if a record could not be stored with the defaults.
unfoldable pub validate_defaults : FieldLib → Defaults → Option Error
unfolding is_tenant_id is_source to_lower
validate_defaults lib d =
    if not (is_empty d.tenant) && not (is_tenant_id d.tenant)
    then some invalid_parameter
    else if not (is_empty d.source) && not (is_source (to_lower lib.lower d.source))
    then some invalid_parameter
    else none

-- The libraries of a normalizer, and the order in which it meets the keys of `cloud`.
pub record Libs : Type 0 where
  pub field : FieldLib
  pub json : JsonLib
  pub raw : RawLib
  pub times : TimeLib
  pub cloud_order : List Bytes

unfoldable pub resolve_retention : ℤ → ℕ
resolve_retention (pos zero) = default_retention
resolve_retention (pos (suc n)) = suc n
resolve_retention (negsuc n) = default_retention

abbrev pub or_time : ℕ → Option ℕ → ℕ
or_time ts none = ts
or_time ts (some t) = t

abbrev pub stamp_parsed : Builder → ℕ → Option ℕ → Builder × ℕ
stamp_parsed b ts none = (invalid b (codes "timestamp"), ts)
stamp_parsed b ts (some t) = (b, t)

unfoldable pub stamp_of : Libs → Builder → ℕ → Option Bytes → Builder × ℕ
unfolding scalar trim_space
stamp_of libs b ts none = (b, ts)
stamp_of libs b ts (some raw) =
    stamp_parsed b ts (libs.times.parse_rfc3339 (trim_space (or_empty (scalar libs.json raw))))

-- The time of receipt by the collector, or now; then the header's.
unfoldable pub received : Libs → Builder → ℕ → Option ℕ → ℕ
unfolding extra
received libs b now header =
    or_time
      (or_time now (libs.times.parse_rfc3339 (extra libs.json b.fields (codes "received_at"))))
      header

unfoldable pub rebased : ℕ → ℕ → Builder × ℕ → Builder × ℕ
rebased now retention (b, ts) =
    if ltb ts (now - retention) || ltb (now + future_skew) ts
    then (add_tag b (codes "rebased:timestamp"), now)
    else (b, ts)

-- `timestamp`
unfoldable pub timestamp : Libs → ℕ → ℕ → Option ℕ → Builder → Builder × ℕ
unfolding rebased stamp_of received value
timestamp libs now retention header b =
    rebased now retention
      (stamp_of libs b (received libs b now header) (value b.fields (codes "@timestamp")))

unfoldable pub is_long : FieldLib → Bytes → Bool
unfolding clean_text
is_long lib t = ltb max_text (length (clean_text lib t))

-- The tags that are kept, of those that are not seen yet.
unfoldable pub keep_tags : FieldLib → List Bytes → List Bytes → List Bytes
unfolding clean_text bytes_eq
keep_tags lib seen [] = []
keep_tags lib seen (t ∷ tags) =
    let t' = clean_text lib t in
    let kept = keep_tags lib (t' ∷ seen) tags in
    let rest = keep_tags lib seen tags in
    if not (is_empty t') && (leb (length t') max_text && not (contains seen t'))
    then t' ∷ kept
    else rest

unfoldable pub flag_long : FieldLib → Builder → Builder
unfolding is_long
flag_long lib b = if any (is_long lib) b.sender_tags then invalid b (codes "_tags") else b

-- `assembleTags`
unfoldable pub assemble_tags : FieldLib → Builder → List Bytes
unfolding flag_long keep_tags
assemble_tags lib b = keep_tags lib [] (b.sender_tags ++ (flag_long lib b).derived)

-- The last steps: the time, what the source implies, the action, the tags and raw.
unfoldable pub finish : Libs → ℕ → ℕ → Option ℕ → Builder → Event
unfolding timestamp enrich normalize_action assemble_tags storable_json
finish libs now retention header b =
    let (stamped, ts) = timestamp libs now retention header b in
    let timed = record stamped { ev = record stamped.ev { ts = ts } } in
    let b' = enrich libs.field libs.json timed in
    record b'.ev {
      action = normalize_action libs.field b'.ev.action;
      tags = assemble_tags libs.field b';
      raw = storable_json libs.raw b'.ev.raw;
    }

abbrev pub with_tenant : Bytes → Builder → Builder
with_tenant tenant b = record b { ev = record b.ev { tenant_id = tenant } }

abbrev pub with_source : Bytes → Builder → Builder
with_source source b = record b { ev = record b.ev { source = source } }

unfoldable pub of_header : Libs → ℕ → ℕ → Option (Builder × Option ℕ) → Option (Result Event)
unfolding finish
of_header libs now retention none = none
of_header libs now retention (some (b, header)) = some (ok (finish libs now retention header b))

unfoldable pub fill_line : Libs → ℕ → ℕ → Bytes → Builder → Bytes → Option (Result Event)
unfolding from_syslog of_header
fill_line libs now retention source b line =
    of_header libs now retention (from_syslog libs.field libs.json libs.times line source b)

unfoldable pub fill_json : Libs → ℕ → ℕ → Bytes → Bytes → Builder → Option (Result Event)
unfolding from_json finish
fill_json libs now retention text source b = some (
    ok (
      finish libs now retention none
        (from_json libs.field libs.json libs.cloud_order text (with_source source b))))

abbrev pub refuse : String → Option (Result Event)
refuse code = some (err (new_error Errors.invalid code))

-- With a tenant, a source or none, and a syslog line or none.
unfoldable pub fill :
    Libs → ℕ → ℕ → Bytes → Fields → Bytes → Bytes → Option Bytes → Option (Result Event)
unfolding fill_line fill_json
fill libs now retention text fields tenant source (some line) =
    fill_line libs now retention source (with_tenant tenant (new_builder fields)) line
fill libs now retention text fields tenant source none =
    if is_empty source
    then refuse "missing_source"
    else fill_json libs now retention text source (with_tenant tenant (new_builder fields))

unfoldable pub check_source :
    Libs → ℕ → ℕ → Bytes → Fields → Bytes → Option Bytes → Option (Result Event)
unfolding is_source to_lower syslog_line fill
check_source libs now retention text fields tenant none = refuse "unknown_source"
check_source libs now retention text fields tenant (some named) =
    let source = to_lower libs.field.lower named in
    if not (is_empty source) && not (is_source source)
    then refuse "unknown_source"
    else fill libs now retention text fields tenant source (syslog_line libs.json fields source)

unfoldable pub check_tenant :
    Libs → Defaults → ℕ → ℕ → Bytes → Fields → Option Bytes → Option (Result Event)
unfolding is_tenant_id identity check_source
check_tenant libs d now retention text fields none = refuse "invalid_tenant"
check_tenant libs d now retention text fields (some tenant) =
    if is_empty tenant
    then refuse "missing_tenant"
    else if not (is_tenant_id tenant)
    then refuse "invalid_tenant"
    else check_source libs now retention text fields tenant
        (identity libs.json fields (codes "source") d.source)

unfoldable pub of_fields : Libs → Defaults → ℕ → ℕ → Bytes → Option Fields → Option (Result Event)
unfolding identity check_tenant
of_fields libs d now retention text none = some (err (new_error Errors.malformed "invalid_json"))
of_fields libs d now retention text (some fields) =
    check_tenant libs d now retention text fields
      (identity libs.json fields (codes "tenant") d.tenant)

-- `Normalizer.Normalize`, at a time; `none` is a panic.
unfoldable pub normalize : Libs → ℤ → Defaults → ℕ → Bytes → Option (Result Event)
unfolding resolve_retention of_fields
normalize libs retention d now text =
    of_fields libs d now (resolve_retention retention) text (libs.json.read_object text)
