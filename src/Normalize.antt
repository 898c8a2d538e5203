-- ===== src/Normalize.antt =====
-- backend/internal/ingest/normalize.go: a record of a vendor's as an event of the common schema.
-- Here are the event that a record fills in, and the setters of its fields. JSON text stays text:
-- what `encoding/json` reads of it and writes is a parameter.
pub mod Builder
pub mod Payload
pub mod Line
pub mod AuthKind
pub mod Enrich
pub mod Storable
pub mod Record
pub mod Kept
pub mod Bounds
pub mod Implied
pub mod Accepted
pub mod Tags
pub mod Rejected
mod Tests
use loghub.Common.{
  ℕ, zero, suc, ◌+◌, ◌-◌, ◌*◌, Bool, true, false, not, ◌&&◌, ◌||◌, List, [], ◌∷◌, ◌++◌, Option,
  none, some, ltb, leb, ◌==◌, if◌then◌else◌, all, length, ℤ, pos, negsuc, Bytes, codes, bytes_eq,
  is_empty, contains, trim_space, to_lower,
}
use loghub.Event.{Event}
use loghub.Auth.{parse_int64}
use loghub.Kv.{is_letter, is_digit}

abbrev pub max_text : ℕ
max_text = 2048

-- A float that `strconv.ParseFloat` reads: a whole number, with the integer that it is, or any
-- other finite number or NaN, or an infinity.
pub data Float : Type 0 where
  whole : ℤ → Float
  broken : Float
  infinite : Float

-- What the setters take from Go's library: `strings.ToValidUTF8` with U+FFFD, `strings.ToLower`
-- outside ASCII, `netip.ParseAddr` with the address unmapped and its zone dropped, and
-- `strconv.ParseFloat`.
pub record FieldLib : Type 0 where
  pub to_valid : Bytes → Bytes
  pub lower : Bytes → Bytes
  pub parse_addr : Bytes → Option Bytes
  pub parse_float : Bytes → Option Float

-- `gen.Source.Valid`
abbrev pub sources : List Bytes
sources =
    codes "api"
    ∷ codes "ad"
    ∷ codes "aws"
    ∷ codes "crowdstrike"
    ∷ codes "firewall"
    ∷ codes "m365"
    ∷ codes "network"
    ∷ []

unfoldable pub is_source : Bytes → Bool
unfolding bytes_eq
is_source s = contains sources s

-- The pattern `^[A-Za-z0-9_-]{1,64}$`.
abbrev pub is_tenant_byte : ℕ → Bool
unfolding is_letter is_digit
is_tenant_byte c = is_letter c || (is_digit c || (c == b'_' || c == b'-'))

unfoldable pub is_tenant_id : Bytes → Bool
unfolding is_tenant_byte
is_tenant_id id = not (is_empty id) && (leb (length id) 64 && all is_tenant_byte id)

-- The value of a key in a Go map, as a list of pairs.
unfoldable pub lookup {ℓ} : {V : Type ℓ} → Bytes → List (Bytes × V) → Option V
unfolding bytes_eq
lookup key [] = none
lookup key ((k, v) ∷ m) = if bytes_eq k key then some v else lookup key m

-- U+FFFD
abbrev pub replacement : Bytes → Bytes
replacement rest = 0xEF ∷ 0xBF ∷ 0xBD ∷ rest

unfoldable pub clean_nul : Bytes → Bytes
clean_nul [] = []
clean_nul (c ∷ s) = let rest = clean_nul s in if c == 0 then replacement rest else c ∷ rest

unfoldable pub clean_text : FieldLib → Bytes → Bytes
unfolding clean_nul trim_space
clean_text lib v = clean_nul (lib.to_valid (trim_space v))

abbrev pub set_cleaned : Bytes → Option Bytes × Bool
set_cleaned [] = (none, true)
set_cleaned (c ∷ v) = if ltb max_text (length (c ∷ v)) then (none, false) else (some (c ∷ v), true)

-- A setter returns the field, and whether the value can be coerced.
unfoldable pub set_text : FieldLib → Option Bytes → Bytes → Option Bytes × Bool
unfolding clean_text
set_text lib (some w) v = (some w, true)
set_text lib none v = set_cleaned (clean_text lib v)

abbrev pub found_addr : Option Bytes → Option Bytes × Bool
found_addr none = (none, false)
found_addr (some a) = (some a, true)

unfoldable pub set_addr : FieldLib → Option Bytes → Bytes → Option Bytes × Bool
unfolding trim_space
set_addr lib (some w) v = (some w, true)
set_addr lib none v =
    let v' = trim_space v in if is_empty v' then (none, true) else found_addr (lib.parse_addr v')

-- 2^53
abbrev pub max_exact : ℕ
max_exact = 9_007_199_254_740_992

abbrev pub whole_float : Option Float → Option ℤ
whole_float none = none
whole_float (some broken) = none
whole_float (some infinite) = none
whole_float (some (whole (pos n))) = if ltb max_exact n then none else some (pos n)
whole_float (some (whole (negsuc n))) = if leb max_exact n then none else some (negsuc n)

abbrev pub or_float : Option ℤ → Option Float → Option ℤ
or_float (some n) f = some n
or_float none f = whole_float f

unfoldable pub parse_int : FieldLib → Bytes → Option ℤ
unfolding parse_int64
parse_int lib v = or_float (parse_int64 v) (lib.parse_float v)

abbrev pub in_bounds : ℕ → Option ℤ → Option ℕ × Bool
in_bounds high none = (none, false)
in_bounds high (some (negsuc n)) = (none, false)
in_bounds high (some (pos n)) = if ltb high n then (none, false) else (some n, true)

-- `setInt`, whose lower bound is 0 in every call.
unfoldable pub set_int : FieldLib → ℕ → Option ℕ → Bytes → Option ℕ × Bool
unfolding trim_space parse_int
set_int lib high (some w) v = (some w, true)
set_int lib high none v =
    let v' = trim_space v in if is_empty v' then (none, true) else in_bounds high (parse_int lib v')

abbrev pub Setter : Type 0
Setter = Event → Bytes → Event × Bool

abbrev pub put_in {ℓ} : {A : Type ℓ} → (A → Event) → A × Bool → Event × Bool
put_in f (x, fits) = (f x, fits)

unfoldable pub text_setters : FieldLib → List (Bytes × Setter)
unfolding set_text
text_setters lib =
    (codes "vendor", λ e v. put_in (λ x. record e { vendor = x }) (set_text lib e.vendor v))
    ∷ (codes "product", λ e v. put_in (λ x. record e { product = x }) (set_text lib e.product v))
    ∷ (
      codes "event_type",
      λ e v. put_in (λ x. record e { event_type = x }) (set_text lib e.event_type v),
    )
    ∷ (
      codes "event_subtype",
      λ e v. put_in (λ x. record e { event_subtype = x }) (set_text lib e.event_subtype v),
    )
    ∷ (codes "action", λ e v. put_in (λ x. record e { action = x }) (set_text lib e.action v))
    ∷ (
      codes "protocol",
      λ e v.
          put_in (λ x. record e { protocol = x }) (set_text lib e.protocol (to_lower lib.lower v)),
    )
    ∷ (codes "user", λ e v. put_in (λ x. record e { user_name = x }) (set_text lib e.user_name v))
    ∷ (codes "host", λ e v. put_in (λ x. record e { host = x }) (set_text lib e.host v))
    ∷ (codes "process", λ e v. put_in (λ x. record e { process = x }) (set_text lib e.process v))
    ∷ (codes "url", λ e v. put_in (λ x. record e { url = x }) (set_text lib e.url v))
    ∷ (
      codes "http_method",
      λ e v. put_in (λ x. record e { http_method = x }) (set_text lib e.http_method v),
    )
    ∷ (
      codes "rule_name",
      λ e v. put_in (λ x. record e { rule_name = x }) (set_text lib e.rule_name v),
    )
    ∷ (codes "rule_id", λ e v. put_in (λ x. record e { rule_id = x }) (set_text lib e.rule_id v))
    ∷ []

unfoldable pub number_setters : FieldLib → List (Bytes × Setter)
unfolding set_addr set_int
number_setters lib =
    (codes "src_ip", λ e v. put_in (λ x. record e { src_ip = x }) (set_addr lib e.src_ip v))
    ∷ (codes "dst_ip", λ e v. put_in (λ x. record e { dst_ip = x }) (set_addr lib e.dst_ip v))
    ∷ (
      codes "severity",
      λ e v. put_in (λ x. record e { severity = x }) (set_int lib 10 e.severity v),
    )
    ∷ (
      codes "src_port",
      λ e v. put_in (λ x. record e { src_port = x }) (set_int lib 65535 e.src_port v),
    )
    ∷ (
      codes "dst_port",
      λ e v. put_in (λ x. record e { dst_port = x }) (set_int lib 65535 e.dst_port v),
    )
    ∷ (
      codes "status_code",
      λ e v. put_in (λ x. record e { status_code = x }) (set_int lib 999 e.status_code v),
    )
    ∷ []

-- The map `setters`.
unfoldable pub setters : FieldLib → List (Bytes × Setter)
unfolding text_setters number_setters
setters lib = text_setters lib ++ number_setters lib
