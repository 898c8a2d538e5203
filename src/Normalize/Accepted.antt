-- ===== src/Normalize/Accepted.antt =====
-- The events that `Normalize` returns.
use mathlib.Core.Path.{subst}
use loghub.Common.{
  ℕ, ◌+◌, ◌-◌, ◌≤◌, ◌≡◌, refl, sym, ◌∙◌, Bool, true, false, not, ◌&&◌, ◌||◌, List, [], ◌∷◌, Option,
  none, some, arith, ltb, Bool-cases, Option-cases, any, ℤ, Bytes, codes, is_empty, contains,
  to_lower, ◌⊎◌, inl, inr,
}
use loghub.Errors.{ok}
use loghub.Event.{Event}
use loghub.Kv.{KvPair, parse_kv}
use loghub.Syslog.Line.{parse_syslog}
use loghub.Normalize.{FieldLib, is_source, is_tenant_id}
use loghub.Normalize.Builder.{Fields, Builder, new_builder, value, identity}
use loghub.Normalize.Payload.{from_json}
use loghub.Normalize.Line.{
  firewall_keys, syslog_line, guess_source, of_message, of_parsed, from_syslog,
}
use loghub.Normalize.Enrich.{enrich}
use loghub.Normalize.Record.{
  Libs, Defaults, future_skew, resolve_retention, rebased, stamp_parsed, stamp_of, received,
  timestamp, finish, with_tenant, with_source, of_header, fill_line, fill_json, refuse, fill,
  check_source, check_tenant, of_fields, normalize,
}
use loghub.Normalize.Bounds.{IsBounded, IsEventOf}
use loghub.Normalize.Kept.{from_json-Good, of_message-Good}
use loghub.Normalize.Implied.{enrich-IsEventOf}

-- A time that is no older than the retention, and not too far ahead.
abbrev pub InWindow : ℕ → ℕ → ℕ → Type 0
InWindow now retention ts = (now - retention ≤ ts) × (ts ≤ now + future_skew)

rebased-InWindow :
    (now retention : ℕ) (r : Builder × ℕ) → InWindow now retention (rebased now retention r).1
unfolding rebased
rebased-InWindow now retention (b, ts) =
    elim (Bool-cases (ltb ts (now - retention) || ltb (now + future_skew) ts)) [
      | inl outside ↦ rw outside (omega arith, omega arith)
      | inr inside ↦ rw inside (ground arith, ground arith)
    ]

rebased-ev : (now retention : ℕ) (r : Builder × ℕ) → (rebased now retention r).0.ev ≡ r.0.ev
unfolding rebased
rebased-ev now retention (b, ts) =
    elim (Bool-cases (ltb ts (now - retention) || ltb (now + future_skew) ts)) [
      | inl outside ↦ rw outside refl
      | inr inside ↦ rw inside refl
    ]

parsed-ev : (b : Builder) (ts : ℕ) (t : Option ℕ) → (stamp_parsed b ts t).0.ev ≡ b.ev
parsed-ev b ts none = refl
parsed-ev b ts (some t) = refl

stamp-ev :
    (libs : Libs) (b : Builder) (ts : ℕ) (raw : Option Bytes) → (stamp_of libs b ts raw).0.ev ≡ b.ev
unfolding stamp_of
stamp-ev libs b ts none = refl
stamp-ev libs b ts (some raw) = parsed-ev b ts _

-- What the last steps make of an event.
finish_lem :
    (libs : Libs) (now retention : ℕ) (header : Option ℕ) (b : Builder) (t s : Bytes)
    → IsEventOf t s 0 b.ev
    → (ts : ℕ) × InWindow now retention ts × IsEventOf t s ts (finish libs now retention header b)
unfolding finish timestamp
finish_lem libs now retention header b t s h =
    let found =
      stamp_of libs b (received libs b now header) (value b.fields (codes "@timestamp")) in
    let (stamped, ts) = rebased now retention found in
    let same : stamped.ev ≡ b.ev =
      rebased-ev now retention found ∙ stamp-ev libs b (received libs b now header) _ in
    let kept : IsEventOf t s 0 stamped.ev = subst (λ e. IsEventOf t s 0 e) (sym same) h in
    let timed = record stamped { ev = record stamped.ev { ts = ts } } in
    let known : IsEventOf t s ts timed.ev = ground arith in
    let rich : IsEventOf t s ts (enrich libs.field libs.json timed).ev =
      enrich-IsEventOf libs.field t s ts libs.json timed known in
    (
      ts,
      rebased-InWindow now retention found,
      (let all : IsEventOf t s ts (finish libs now retention header b) = ground arith in all),
    )

-- What is stored of a record: its tenant and source are known to be well formed, its time is
-- within the retention, and its texts and numbers are within their bounds.
abbrev pub IsStorable : ℕ → ℕ → Event → Type 0
IsStorable now retention ev =
    (is_tenant_id ev.tenant_id ≡ true)
    × (is_source ev.source ≡ true)
    × InWindow now retention ev.ts
    × IsBounded ev

storable_lem :
    (now retention ts : ℕ) (t s : Bytes) (ev : Event)
    → is_tenant_id t ≡ true
    → is_source s ≡ true
    → InWindow now retention ts
    → IsEventOf t s ts ev
    → IsStorable now retention ev
storable_lem now retention ts t s ev tenant source (low, high) h = (
  subst (λ t. is_tenant_id t ≡ true) (sym h.tenant_id) tenant,
  subst (λ s. is_source s ≡ true) (sym h.source_is) source,
  subst (λ ts. InWindow now retention ts) (sym h.time) (low, high),
  h.bounded,
)

finish-IsStorable :
    (libs : Libs) (now retention : ℕ) (header : Option ℕ) (b : Builder) (t s : Bytes)
    → is_tenant_id t ≡ true
    → is_source s ≡ true
    → IsEventOf t s 0 b.ev
    → IsStorable now retention (finish libs now retention header b)
finish-IsStorable libs now retention header b t s tenant source h =
    let (ts, within, kept) = finish_lem libs now retention header b t s h in
    storable_lem now retention ts t s (finish libs now retention header b) tenant source within kept

-- No source, or one of those that there are.
abbrev pub NoneOrSource : Bytes → Type 0
NoneOrSource s = (is_empty s ≡ true) ⊎ (is_source s ≡ true)

guess_source-lem :
    (lib : FieldLib) (pairs : List KvPair) (s : Bytes)
    → NoneOrSource s
    → is_source (guess_source lib pairs s) ≡ true
unfolding guess_source is_source
guess_source-lem lib pairs [] h =
    elim (Bool-cases (any (λ p. contains firewall_keys (to_lower lib.lower p.key)) pairs)) [
      | inl firewall ↦ rw firewall refl
      | inr network ↦ rw network refl
    ]
guess_source-lem lib pairs (c ∷ s) (inl no_source) = cc
guess_source-lem lib pairs (c ∷ s) (inr source) = source

new_builder-IsEventOf :
    (fields : Fields) (t : Bytes) → IsEventOf t [] 0 (with_tenant t (new_builder fields)).ev
new_builder-IsEventOf fields t = ground arith

some_ok : (x y : Event) → some (ok x) ≡ some (ok y) → x ≡ y
some_ok x y h = cc

fill_line-IsStorable :
    (libs : Libs) (now retention : ℕ) (source t : Bytes) (b : Builder) (line : Bytes) {ev : Event}
    → is_tenant_id t ≡ true
    → NoneOrSource source
    → IsEventOf t [] 0 b.ev
    → fill_line libs now retention source b line ≡ some (ok ev)
    → IsStorable now retention ev
unfolding fill_line of_header from_syslog of_parsed
fill_line-IsStorable libs now retention source t b line {ev} tenant named h e =
    elim (Option-cases (parse_syslog libs.times line)) [
      | inl panic ↦ (let bad : none ≡ some (ok ev) = rw panic at e in absurd cc)
      | inr (m, read) ↦
          (let b' = of_message libs.field libs.json line source b m in
            let same : finish libs now retention m.time b' ≡ ev = some_ok _ _ (rw read at e) in
            subst (λ ev. IsStorable now retention ev) same
              (finish-IsStorable libs now retention m.time b' t _ tenant
                (guess_source-lem libs.field (parse_kv m.body) source named)
                (of_message-Good t [] 0 libs.field libs.json line source b m h)))
    ]

fill-IsStorable :
    (libs : Libs) (now retention : ℕ) (text : Bytes) (fields : Fields) (t source : Bytes)
    → (line : Option Bytes) {ev : Event} → is_tenant_id t ≡ true
    → NoneOrSource source
    → fill libs now retention text fields t source line ≡ some (ok ev)
    → IsStorable now retention ev
unfolding fill fill_json
fill-IsStorable libs now retention text fields t source (some line) tenant named e =
    fill_line-IsStorable libs now retention source t (with_tenant t (new_builder fields)) line
      tenant named (new_builder-IsEventOf fields t) e
fill-IsStorable libs now retention text fields t [] none tenant named e = cc
fill-IsStorable libs now retention text fields t (c ∷ s) none tenant (inl no_source) e = cc
fill-IsStorable libs now retention text fields t (c ∷ s) none {ev} tenant (inr source) e =
    let b = with_source (c ∷ s) (with_tenant t (new_builder fields)) in
    let same = some_ok _ ev e in
    subst (λ ev. IsStorable now retention ev) same
      (finish-IsStorable libs now retention none
        (from_json libs.field libs.json libs.cloud_order text b) t (c ∷ s) tenant source
        (from_json-Good t (c ∷ s) 0 libs.field libs.json libs.cloud_order text b (ground arith)))

pub not_both : (a b : Bool) → (not a && not b) ≡ false → (a ≡ true) ⊎ (b ≡ true)
not_both true b h = inl refl
not_both false true h = inr refl
not_both false false h = cc

check_source-IsStorable :
    (libs : Libs) (now retention : ℕ) (text : Bytes) (fields : Fields) (t : Bytes)
    → (named : Option Bytes) {ev : Event} → is_tenant_id t ≡ true
    → check_source libs now retention text fields t named ≡ some (ok ev)
    → IsStorable now retention ev
unfolding check_source
check_source-IsStorable libs now retention text fields t none tenant e = cc
check_source-IsStorable libs now retention text fields t (some name) {ev} tenant e =
    let source = to_lower libs.field.lower name in
    elim (Bool-cases (not (is_empty source) && not (is_source source))) [
      | inl unknown ↦
          (let bad : refuse "unknown_source" ≡ some (ok ev) = rw unknown at e in absurd cc)
      | inr known ↦
          fill-IsStorable libs now retention text fields t source
            (syslog_line libs.json fields source) tenant (not_both _ _ known) (rw known at e)
    ]

check_tenant-IsStorable :
    (libs : Libs) (d : Defaults) (now retention : ℕ) (text : Bytes) (fields : Fields)
    → (t : Option Bytes) {ev : Event}
    → check_tenant libs d now retention text fields t ≡ some (ok ev)
    → IsStorable now retention ev
unfolding check_tenant
check_tenant-IsStorable libs d now retention text fields none e = cc
check_tenant-IsStorable libs d now retention text fields (some []) e = cc
check_tenant-IsStorable libs d now retention text fields (some (c ∷ t)) {ev} e =
    elim (Bool-cases (is_tenant_id (c ∷ t))) [
      | inl valid ↦
          check_source-IsStorable libs now retention text fields (c ∷ t)
            (identity libs.json fields (codes "source") d.source) valid (rw valid at e)
      | inr bad ↦ (let no : refuse "invalid_tenant" ≡ some (ok ev) = rw bad at e in absurd cc)
    ]

of_fields-IsStorable :
    (libs : Libs) (d : Defaults) (now retention : ℕ) (text : Bytes) (fields : Option Fields)
    → {ev : Event} → of_fields libs d now retention text fields ≡ some (ok ev)
    → IsStorable now retention ev
unfolding of_fields
of_fields-IsStorable libs d now retention text none e = cc
of_fields-IsStorable libs d now retention text (some fields) e =
    check_tenant-IsStorable libs d now retention text fields
      (identity libs.json fields (codes "tenant") d.tenant) e

-- Every event that `Normalize` returns can be stored: its tenant has the form of a tenant's
-- identifier, its source is a known one, its time is neither older than the retention nor more
-- than an hour ahead, its texts but the action are not empty and at most 2048 bytes long, and its
-- severity, ports and status code are in their ranges.
pub normalize-IsStorable :
    (libs : Libs) (retention : ℤ) (d : Defaults) (now : ℕ) (text : Bytes) {ev : Event}
    → normalize libs retention d now text ≡ some (ok ev)
    → IsStorable now (resolve_retention retention) ev
unfolding normalize
normalize-IsStorable libs retention d now text e =
    of_fields-IsStorable libs d now (resolve_retention retention) text (libs.json.read_object text)
      e
