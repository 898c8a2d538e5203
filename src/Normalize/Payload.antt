-- ===== src/Normalize/Payload.antt =====
-- `fromJSON`: an event out of the fields of a JSON record.
use loghub.Common.{
  Bool, true, false, List, [], ◌∷◌, ◌++◌, Option, none, some, any, ◌==◌, if◌then◌else◌, Bytes,
  codes, bytes_eq, contains,
}
use loghub.Normalize.{FieldLib, Setter, lookup, put_in, set_text}
use loghub.Normalize.Builder.{
  Fields, JsonLib, Builder, invalid, value, scalar, set_field, set_with, read_sender_tags,
}

-- In the order of precedence.
abbrev pub json_keys : List Bytes
json_keys =
    codes "vendor"
    ∷ codes "product"
    ∷ codes "event_type"
    ∷ codes "event_subtype"
    ∷ codes "severity"
    ∷ codes "action"
    ∷ codes "src_ip"
    ∷ codes "ip"
    ∷ codes "src_port"
    ∷ codes "dst_ip"
    ∷ codes "dst_port"
    ∷ codes "protocol"
    ∷ codes "user"
    ∷ codes "host"
    ∷ codes "process"
    ∷ codes "url"
    ∷ codes "http_method"
    ∷ codes "status_code"
    ∷ codes "rule_name"
    ∷ codes "rule_id"
    ∷ []

unfoldable pub json_alias : Bytes → Bytes
unfolding bytes_eq
json_alias key = if bytes_eq key (codes "ip") then codes "src_ip" else key

unfoldable pub set_scalar : FieldLib → Builder → Bytes → Option Bytes → Builder
unfolding set_field json_alias
set_scalar lib b key none = invalid b key
set_scalar lib b key (some v) = set_field lib b key (json_alias key) v

unfoldable pub read_raw : FieldLib → JsonLib → Builder → Bytes → Option Bytes → Builder
unfolding set_scalar scalar
read_raw lib json b key none = b
read_raw lib json b key (some raw) = set_scalar lib b key (scalar json raw)

unfoldable pub read_key : FieldLib → JsonLib → Builder → Bytes → Builder
unfolding read_raw value
read_key lib json b key = read_raw lib json b key (value b.fields key)

unfoldable pub read_keys : FieldLib → JsonLib → Builder → List Bytes → Builder
unfolding read_key
read_keys lib json b [] = b
read_keys lib json b (key ∷ keys) = read_keys lib json (read_key lib json b key) keys

-- The fields of `cloud`.
unfoldable pub cloud_setters : FieldLib → List (Bytes × Setter)
unfolding set_text
cloud_setters lib =
    (
      codes "account_id",
      λ e v. put_in (λ x. record e { cloud_account_id = x }) (set_text lib e.cloud_account_id v),
    )
    ∷ (
      codes "region",
      λ e v. put_in (λ x. record e { cloud_region = x }) (set_text lib e.cloud_region v),
    )
    ∷ (
      codes "service",
      λ e v. put_in (λ x. record e { cloud_service = x }) (set_text lib e.cloud_service v),
    )
    ∷ []

unfoldable pub set_cloud : FieldLib → Builder → Bytes → Option Bytes → Builder
unfolding lookup cloud_setters
set_cloud lib b key none = invalid b (codes "cloud." ++ key)
set_cloud lib b key (some v) = set_with b (codes "cloud." ++ key) v (lookup key (cloud_setters lib))

unfoldable pub read_cloud_raw : FieldLib → JsonLib → Builder → Bytes → Option Bytes → Builder
unfolding set_cloud scalar
read_cloud_raw lib json b key none = b
read_cloud_raw lib json b key (some raw) = set_cloud lib b key (scalar json raw)

-- Over the keys in some order, since a Go map has none.
unfoldable pub read_cloud_keys : FieldLib → JsonLib → Fields → Builder → List Bytes → Builder
unfolding value read_cloud_raw
read_cloud_keys lib json cloud b [] = b
read_cloud_keys lib json cloud b (key ∷ keys) =
    read_cloud_keys lib json cloud (read_cloud_raw lib json b key (value cloud key)) keys

unfoldable pub cloud_object : FieldLib → JsonLib → List Bytes → Builder → Option Fields → Builder
unfolding read_cloud_keys
cloud_object lib json order b none = invalid b (codes "cloud")
cloud_object lib json order b (some cloud) = read_cloud_keys lib json cloud b order

unfoldable pub cloud_of : FieldLib → JsonLib → List Bytes → Builder → Option Bytes → Builder
unfolding cloud_object
cloud_of lib json order b none = b
cloud_of lib json order b (some raw) = cloud_object lib json order b (json.read_object raw)

unfoldable pub read_cloud : FieldLib → JsonLib → List Bytes → Builder → Builder
unfolding cloud_of value
read_cloud lib json order b = cloud_of lib json order b (value b.fields (codes "cloud"))

abbrev pub collector_keys : List Bytes
collector_keys = codes "received_at" ∷ codes "peer_ip" ∷ codes "input" ∷ []

unfoldable pub has_key : Fields → Bytes → Bool
unfolding bytes_eq
has_key fields key = any (λ kv. bytes_eq kv.0 key) fields

-- The fields but the collector's.
unfoldable pub stripped : Fields → Fields
unfolding bytes_eq
stripped [] = []
stripped ((k, v) ∷ fields) =
    let rest = stripped fields in if contains collector_keys k then rest else (k, v) ∷ rest

unfoldable pub whole_record : JsonLib → Fields → Bytes → Bytes
unfolding has_key stripped
whole_record json fields text =
    if any (has_key fields) collector_keys then json.write_object (stripped fields) else text

abbrev pub raw_of : Builder → Option Bytes → Builder × Bool
raw_of b none = (b, false)
raw_of b (some []) = (invalid b (codes "raw"), false)
raw_of b (some (c ∷ raw)) =
    if c == b'{'
    then (record b { ev = record b.ev { raw = c ∷ raw } }, true)
    else (invalid b (codes "raw"), false)

unfoldable pub or_whole : JsonLib → Bytes → Builder × Bool → Builder
unfolding whole_record
or_whole json text (b, true) = b
or_whole json text (b, false) = record b {
  ev = record b.ev { raw = whole_record json b.fields text };
}

-- JSON text is never empty.
-- The raw payload: an object that the sender names, or the whole record.
unfoldable pub read_payload : JsonLib → Bytes → Builder → Builder
unfolding or_whole value
read_payload json text b = or_whole json text (raw_of b (value b.fields (codes "raw")))

-- `fromJSON`; `order` is the one in which the keys of `cloud` are read.
unfoldable pub from_json : FieldLib → JsonLib → List Bytes → Bytes → Builder → Builder
unfolding read_keys read_cloud read_sender_tags read_payload
from_json lib json order text b =
    read_payload json text
      (read_sender_tags json (read_cloud lib json order (read_keys lib json b json_keys)))
