-- ===== src/Normalize/Bounds.antt =====
-- What the setters can store: texts and numbers within the bounds of the schema.
use mathlib.Core.Option.{some-injective}
use mathlib.Core.Path.{subst}
use loghub.Common.{
  ℕ, ◌≤◌, ◌<◌, ◌≡◌, List, [], ◌∷◌, Option, none, some, arith, ltb, Bool-cases, length, ℤ, pos,
  negsuc, Bytes, bytes_eq, is_empty, trim_space, to_lower, All, All-append, inl, inr,
}
use loghub.Event.{Event}
use loghub.Normalize.{
  max_text, FieldLib, Setter, lookup, set_cleaned, set_text, clean_text, set_int, in_bounds,
  parse_int, text_setters, number_setters, setters,
}

-- A text that is stored is not empty, and at most 2048 bytes long.
abbrev pub TextFits : Option Bytes → Type 0
TextFits none = Unit
TextFits (some v) = (0 < length v) × (length v ≤ max_text)

abbrev pub AtMost : ℕ → Option ℕ → Type 0
AtMost high none = Unit
AtMost high (some n) = n ≤ high

-- Every text but the action, which is put in lower case last, and every number.
pub record IsBounded (e : Event) : Type 0 where
  pub vendor : TextFits e.vendor
  pub product : TextFits e.product
  pub event_type : TextFits e.event_type
  pub event_subtype : TextFits e.event_subtype
  pub protocol : TextFits e.protocol
  pub user_name : TextFits e.user_name
  pub host : TextFits e.host
  pub process : TextFits e.process
  pub url : TextFits e.url
  pub http_method : TextFits e.http_method
  pub rule_name : TextFits e.rule_name
  pub rule_id : TextFits e.rule_id
  pub cloud_account_id : TextFits e.cloud_account_id
  pub cloud_region : TextFits e.cloud_region
  pub cloud_service : TextFits e.cloud_service
  pub severity : AtMost 10 e.severity
  pub src_port : AtMost 65535 e.src_port
  pub dst_port : AtMost 65535 e.dst_port
  pub status_code : AtMost 999 e.status_code

set_cleaned-TextFits : (v : Bytes) → TextFits (set_cleaned v).0
set_cleaned-TextFits [] = tt
set_cleaned-TextFits (c ∷ v) = elim (Bool-cases (ltb max_text (length (c ∷ v)))) [
  | inl long ↦ rw long tt
  | inr fits ↦ rw fits (ground arith)
]

pub set_text-TextFits :
    (lib : FieldLib) (o : Option Bytes) (v : Bytes) → TextFits o → TextFits (set_text lib o v).0
unfolding set_text
set_text-TextFits lib none v h = set_cleaned-TextFits (clean_text lib v)
set_text-TextFits lib (some w) v h = h

in_bounds-AtMost : (high : ℕ) (n : Option ℤ) → AtMost high (in_bounds high n).0
in_bounds-AtMost high none = tt
in_bounds-AtMost high (some (negsuc n)) = tt
in_bounds-AtMost high (some (pos n)) = elim (Bool-cases (ltb high n)) [
  | inl large ↦ rw large tt
  | inr fits ↦ rw fits (ground arith)
]

set_int-AtMost :
    (lib : FieldLib) (high : ℕ) (o : Option ℕ) (v : Bytes)
    → AtMost high o
    → AtMost high (set_int lib high o v).0
unfolding set_int
set_int-AtMost lib high (some w) v h = h
set_int-AtMost lib high none v h = elim (Bool-cases (is_empty (trim_space v))) [
  | inl empty ↦ rw empty tt
  | inr some_text ↦ rw some_text (in_bounds-AtMost high (parse_int lib (trim_space v)))
]

-- An event of a tenant, a source and a time, within the bounds.
pub record IsEventOf (tenant source : Bytes) (ts : ℕ) (e : Event) : Type 0 where
  pub tenant_id : e.tenant_id ≡ tenant
  pub time : e.ts ≡ ts
  pub source_is : e.source ≡ source
  pub bounded : IsBounded e

abbrev pub Keeps : Setter → Type 0
Keeps set =
    (tenant source : Bytes) (ts : ℕ) (e : Event) (v : Bytes)
    → IsEventOf tenant source ts e
    → IsEventOf tenant source ts (set e v).0

text_setters-Keep : (lib : FieldLib) → All (λ kv. Keeps kv.1) (text_setters lib)
unfolding text_setters
text_setters-Keep lib = (
  λ t s w e v h. ground (arith, set_text-TextFits lib e.vendor v h.bounded.vendor),
  (
    λ t s w e v h. ground (arith, set_text-TextFits lib e.product v h.bounded.product),
    (
      λ t s w e v h. ground (arith, set_text-TextFits lib e.event_type v h.bounded.event_type),
      (
        λ t s w e v h.
            ground (arith, set_text-TextFits lib e.event_subtype v h.bounded.event_subtype),
        (
          λ t s w e v h. ground arith,
          (
            λ t s w e v h.
                ground (
                  arith,
                  set_text-TextFits lib e.protocol (to_lower lib.lower v) h.bounded.protocol,
                ),
            (
              λ t s w e v h.
                  ground (arith, set_text-TextFits lib e.user_name v h.bounded.user_name),
              (
                λ t s w e v h. ground (arith, set_text-TextFits lib e.host v h.bounded.host),
                (
                  λ t s w e v h.
                      ground (arith, set_text-TextFits lib e.process v h.bounded.process),
                  (
                    λ t s w e v h. ground (arith, set_text-TextFits lib e.url v h.bounded.url),
                    (
                      λ t s w e v h.
                          ground
                            (arith, set_text-TextFits lib e.http_method v h.bounded.http_method),
                      (
                        λ t s w e v h.
                            ground (arith, set_text-TextFits lib e.rule_name v h.bounded.rule_name),
                        (
                          λ t s w e v h.
                              ground (arith, set_text-TextFits lib e.rule_id v h.bounded.rule_id),
                          tt,
                        ),
                      ),
                    ),
                  ),
                ),
              ),
            ),
          ),
        ),
      ),
    ),
  ),
)

number_setters-Keep : (lib : FieldLib) → All (λ kv. Keeps kv.1) (number_setters lib)
unfolding number_setters
number_setters-Keep lib = (
  λ t s w e v h. ground arith,
  (
    λ t s w e v h. ground arith,
    (
      λ t s w e v h. ground (arith, set_int-AtMost lib 10 e.severity v h.bounded.severity),
      (
        λ t s w e v h. ground (arith, set_int-AtMost lib 65535 e.src_port v h.bounded.src_port),
        (
          λ t s w e v h. ground (arith, set_int-AtMost lib 65535 e.dst_port v h.bounded.dst_port),
          (
            λ t s w e v h.
                ground (arith, set_int-AtMost lib 999 e.status_code v h.bounded.status_code),
            tt,
          ),
        ),
      ),
    ),
  ),
)

pub setters-Keep : (lib : FieldLib) → All (λ kv. Keeps kv.1) (setters lib)
unfolding setters
setters-Keep lib =
    All-append (λ kv. Keeps kv.1) (text_setters lib) (number_setters lib) (text_setters-Keep lib)
      (number_setters-Keep lib)

-- What a map has of all its values, it has of one that is looked up.
pub lookup-All {ℓ κ} :
    {V : Type ℓ} (P : V → Type κ) (key : Bytes) (m : List (Bytes × V)) {v : V}
    → All (λ kv. P kv.1) m
    → lookup key m ≡ some v
    → P v
unfolding lookup
lookup-All P key [] h e = cc
lookup-All P key ((k, w) ∷ m) {v} (p, h) e = elim (Bool-cases (bytes_eq k key)) [
  | inl same ↦ subst (λ w. P w) (some-injective w v (rw same at e)) p
  | inr other ↦ lookup-All P key m h (rw other at e)
]
