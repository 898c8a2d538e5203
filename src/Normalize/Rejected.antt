-- ===== src/Normalize/Rejected.antt =====
-- Which records `Normalize` takes.
use loghub.Common.{
  ℕ, ◌≡◌, refl, Bool, true, false, not, ◌&&◌, ◌≢◌, ◌↔◌, [], ◌∷◌, Option, none, some, Bool-cases,
  Option-cases, ℤ, Bytes, codes, is_empty, to_lower, ◌⊎◌, inl, inr,
}
use loghub.Errors.{Result, ok, err}
use loghub.Event.{Event}
use loghub.Syslog.Line.{parse_syslog}
use loghub.Normalize.{is_source, is_tenant_id}
use loghub.Normalize.Builder.{Fields, Builder, new_builder, identity}
use loghub.Normalize.Line.{syslog_line, from_syslog, of_parsed}
use loghub.Normalize.Record.{
  Libs, Defaults, resolve_retention, with_tenant, of_header, fill_line, fill_json, fill,
  check_source, check_tenant, of_fields, normalize,
}
use loghub.Normalize.Accepted.{NoneOrSource, not_both}

abbrev Takes : Option (Result Event) → Type 0
Takes none = ⊥
Takes (some (ok ev)) = Unit
Takes (some (err e)) = ⊥

-- A line whose header can be read without a panic, or a source.
abbrev pub HasShape : Libs → Bytes → Option Bytes → Type 0
HasShape libs source none = is_empty source ≡ false
HasShape libs source (some line) = parse_syslog libs.times line ≢ none

-- A record that names a known source, or none, and is a line or names one.
abbrev pub HasSource : Libs → Fields → Option Bytes → Type 0
HasSource libs fields none = ⊥
HasSource libs fields (some named) =
    let source = to_lower libs.field.lower named in
    NoneOrSource source × HasShape libs source (syslog_line libs.json fields source)

abbrev pub HasTenant : Option Bytes → Type 0
HasTenant none = ⊥
HasTenant (some t) = is_tenant_id t ≡ true

-- A JSON object with a tenant's identifier and a source, the defaults in place of what is missing.
abbrev pub IsTakeable : Libs → Defaults → Option Fields → Type 0
IsTakeable libs d none = ⊥
IsTakeable libs d (some fields) =
    HasTenant (identity libs.json fields (codes "tenant") d.tenant)
    × HasSource libs fields (identity libs.json fields (codes "source") d.source)

Takes-line :
    (libs : Libs) (now retention : ℕ) (source : Bytes) (b : Builder) (line : Bytes)
    → Takes (fill_line libs now retention source b line) ↔ (parse_syslog libs.times line ≢ none)
unfolding fill_line of_header from_syslog of_parsed
Takes-line libs now retention source b line = elim (Option-cases (parse_syslog libs.times line)) [
  | inl panic ↦ rw panic (λ h. absurd h, λ h. h refl)
  | inr (m, read) ↦ rw read (λ h e. cc, λ h. tt)
]

Takes-fill :
    (libs : Libs) (now retention : ℕ) (text : Bytes) (fields : Fields) (t source : Bytes)
    → (line : Option Bytes)
    → Takes (fill libs now retention text fields t source line) ↔ HasShape libs source line
unfolding fill fill_json
Takes-fill libs now retention text fields t source (some line) =
    Takes-line libs now retention source (with_tenant t (new_builder fields)) line
Takes-fill libs now retention text fields t [] none = (λ h. absurd h, λ h. cc)
Takes-fill libs now retention text fields t (c ∷ s) none = (λ h. refl, λ h. tt)

neither : (a b : Bool) → (not a && not b) ≡ true → (a ≡ true) ⊎ (b ≡ true) → ⊥
neither true b h k = cc
neither false true h k = cc
neither false false h (inl k) = cc
neither false false h (inr k) = cc

Takes-source :
    (libs : Libs) (now retention : ℕ) (text : Bytes) (fields : Fields) (t : Bytes)
    → (named : Option Bytes)
    → Takes (check_source libs now retention text fields t named) ↔ HasSource libs fields named
unfolding check_source
Takes-source libs now retention text fields t none = (λ h. h, λ h. h)
Takes-source libs now retention text fields t (some name) =
    let source = to_lower libs.field.lower name in
    let line = syslog_line libs.json fields source in
    let (there, back) = Takes-fill libs now retention text fields t source line in
    elim (Bool-cases (not (is_empty source) && not (is_source source))) [
      | inl unknown ↦ rw unknown (λ h. absurd h, λ h. neither _ _ unknown h.0)
      | inr known ↦ rw known (λ h. (not_both _ _ known, there h), λ h. back h.1)
    ]

no_empty_id : is_tenant_id [] ≡ true → ⊥
unfolding is_tenant_id
no_empty_id h = cc

Takes-tenant :
    (libs : Libs) (d : Defaults) (now retention : ℕ) (text : Bytes) (fields : Fields)
    → (t : Option Bytes)
    → Takes (check_tenant libs d now retention text fields t)
      ↔ HasTenant t × HasSource libs fields (identity libs.json fields (codes "source") d.source)
unfolding check_tenant
Takes-tenant libs d now retention text fields none = (λ h. absurd h, λ h. h.0)
Takes-tenant libs d now retention text fields (some []) =
    (λ h. absurd h, λ h. absurd (no_empty_id h.0))
Takes-tenant libs d now retention text fields (some (c ∷ t)) =
    let named = identity libs.json fields (codes "source") d.source in
    let (there, back) = Takes-source libs now retention text fields (c ∷ t) named in
    elim (Bool-cases (is_tenant_id (c ∷ t))) [
      | inl valid ↦ rw valid (λ h. (refl, there h), λ h. back h.1)
      | inr bad ↦ rw bad (λ h. absurd h, λ h. cc)
    ]

Takes-fields :
    (libs : Libs) (d : Defaults) (now retention : ℕ) (text : Bytes) (fields : Option Fields)
    → Takes (of_fields libs d now retention text fields) ↔ IsTakeable libs d fields
unfolding of_fields
Takes-fields libs d now retention text none = (λ h. h, λ h. absurd h)
Takes-fields libs d now retention text (some fields) =
    Takes-tenant libs d now retention text fields
      (identity libs.json fields (codes "tenant") d.tenant)

taken : (r : Option (Result Event)) → Takes r ↔ ((ev : Event) × (r ≡ some (ok ev)))
taken none = (λ h. absurd h, λ h. absurd (let e = h.1 in cc))
taken (some (ok ev)) = (λ h. (ev, refl), λ h. tt)
taken (some (err e)) = (λ h. absurd h, λ h. absurd (let e = h.1 in cc))

-- `Normalize` returns an event exactly for a JSON object whose tenant, or the default one, has the
-- form of a tenant's identifier, and whose source, or the default one, is known, or missing where
-- its message is a line; the header of the line that is parsed must not panic. No other field can
-- make it reject a record.
pub normalize_iff :
    (libs : Libs) (retention : ℤ) (d : Defaults) (now : ℕ) (text : Bytes)
    → ((ev : Event) × (normalize libs retention d now text ≡ some (ok ev)))
      ↔ IsTakeable libs d (libs.json.read_object text)
unfolding normalize
normalize_iff libs retention d now text =
    let r = of_fields libs d now (resolve_retention retention) text (libs.json.read_object text) in
    let (there, back) =
      Takes-fields libs d now (resolve_retention retention) text (libs.json.read_object text) in
    (λ h. there ((taken r).1 h), λ h. (taken r).0 (back h))
