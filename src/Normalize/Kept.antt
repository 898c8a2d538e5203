-- ===== src/Normalize/Kept.antt =====
-- Every step of the builder keeps the event within the bounds, and its tenant and source.
use loghub.Common.{
  ℕ, zero, suc, ◌≤◌, Bool, true, false, List, [], ◌∷◌, ◌++◌, Option, none, some, arith, ◌==◌,
  Bool-cases, Option-cases, get_elem?, Bytes, codes, to_lower, All, inl, inr,
}
use loghub.Event.{Event}
use loghub.Kv.{KvPair, parse_kv}
use loghub.Syslog.{SyslogMsg}
use loghub.Normalize.{FieldLib, Setter, lookup, setters, set_text}
use loghub.Normalize.Builder.{
  Fields, JsonLib, Builder, value, scalar, extra, finish_set, set_with, set_field, tags_read,
  tags_of, read_sender_tags,
}
use loghub.Normalize.Payload.{
  json_keys, json_alias, set_scalar, read_raw, read_key, read_keys, cloud_setters, set_cloud,
  read_cloud_raw, read_cloud_keys, cloud_object, cloud_of, read_cloud, raw_of, or_whole,
  read_payload, from_json,
}
use loghub.Normalize.Line.{
  kv_field, set_pairs, syslog_severity, mapped_severity, set_sender, guess_source, with_source,
  of_message,
}
use loghub.Normalize.Bounds.{AtMost, IsEventOf, Keeps, set_text-TextFits, setters-Keep, lookup-All}

cloud_setters-Keep : (lib : FieldLib) → All (λ kv. Keeps kv.1) (cloud_setters lib)
unfolding cloud_setters
cloud_setters-Keep lib = (
  λ t s w e v h.
      ground (arith, set_text-TextFits lib e.cloud_account_id v h.bounded.cloud_account_id),
  (
    λ t s w e v h. ground (arith, set_text-TextFits lib e.cloud_region v h.bounded.cloud_region),
    (
      λ t s w e v h.
          ground (arith, set_text-TextFits lib e.cloud_service v h.bounded.cloud_service),
      tt,
    ),
  ),
)

table-AtMost : (table : List ℕ) (i : ℕ) → All (λ n. n ≤ 10) table → AtMost 10 (get_elem? table i)
table-AtMost [] i h = tt
table-AtMost (n ∷ table) zero h = h.0
table-AtMost (n ∷ table) (suc i) h = table-AtMost table i h.1

mapped-AtMost : (o header : Option ℕ) → AtMost 10 o → AtMost 10 (mapped_severity o header)
mapped-AtMost (some n) header h = h
mapped-AtMost none none h = tt
mapped-AtMost none (some sev) h = table-AtMost syslog_severity sev (omega arith)

module _ (t s : Bytes) (w : ℕ) where
  abbrev Good : Builder → Type 0
  Good b = IsEventOf t s w b.ev

  finish_set-Good :
      (b : Builder) (key : Bytes) (r : Event × Bool)
      → IsEventOf t s w r.0
      → Good (finish_set b key r)
  finish_set-Good b key (ev, true) h = h
  finish_set-Good b key (ev, false) h = h

  set_with-Good :
      (b : Builder) (key v : Bytes) (m : List (Bytes × Setter)) (field : Bytes)
      → All (λ kv. Keeps kv.1) m
      → Good b
      → Good (set_with b key v (lookup field m))
  set_with-Good b key v m field keeps h = elim (Option-cases (lookup field m)) [
    | inl no_field ↦ rw no_field h
    | inr (set, found) ↦
        rw found
          (finish_set-Good b key (set b.ev v) (lookup-All Keeps field m keeps found t s w b.ev v h))
  ]

  set_field-Good :
      (lib : FieldLib) (b : Builder) (key field v : Bytes)
      → Good b
      → Good (set_field lib b key field v)
  unfolding set_field
  set_field-Good lib b key field v h =
      set_with-Good b key v (setters lib) field (setters-Keep lib) h

  set_scalar-Good :
      (lib : FieldLib) (b : Builder) (key : Bytes) (v : Option Bytes)
      → Good b
      → Good (set_scalar lib b key v)
  unfolding set_scalar
  set_scalar-Good lib b key none h = h
  set_scalar-Good lib b key (some v) h = set_field-Good lib b key (json_alias key) v h

  read_raw-Good :
      (lib : FieldLib) (json : JsonLib) (b : Builder) (key : Bytes) (raw : Option Bytes)
      → Good b
      → Good (read_raw lib json b key raw)
  unfolding read_raw
  read_raw-Good lib json b key none h = h
  read_raw-Good lib json b key (some raw) h = set_scalar-Good lib b key (scalar json raw) h

  read_keys-Good :
      (lib : FieldLib) (json : JsonLib) (b : Builder) (keys : List Bytes)
      → Good b
      → Good (read_keys lib json b keys)
  unfolding read_keys read_key
  read_keys-Good lib json b [] h = h
  read_keys-Good lib json b (key ∷ keys) h =
      read_keys-Good lib json (read_key lib json b key) keys
        (read_raw-Good lib json b key (value b.fields key) h)

  set_cloud-Good :
      (lib : FieldLib) (b : Builder) (key : Bytes) (v : Option Bytes)
      → Good b
      → Good (set_cloud lib b key v)
  unfolding set_cloud
  set_cloud-Good lib b key none h = h
  set_cloud-Good lib b key (some v) h =
      set_with-Good b (codes "cloud." ++ key) v (cloud_setters lib) key (cloud_setters-Keep lib) h

  read_cloud_raw-Good :
      (lib : FieldLib) (json : JsonLib) (b : Builder) (key : Bytes) (raw : Option Bytes)
      → Good b
      → Good (read_cloud_raw lib json b key raw)
  unfolding read_cloud_raw
  read_cloud_raw-Good lib json b key none h = h
  read_cloud_raw-Good lib json b key (some raw) h = set_cloud-Good lib b key (scalar json raw) h

  read_cloud_keys-Good :
      (lib : FieldLib) (json : JsonLib) (cloud : Fields) (b : Builder) (keys : List Bytes)
      → Good b
      → Good (read_cloud_keys lib json cloud b keys)
  unfolding read_cloud_keys
  read_cloud_keys-Good lib json cloud b [] h = h
  read_cloud_keys-Good lib json cloud b (key ∷ keys) h =
      read_cloud_keys-Good lib json cloud (read_cloud_raw lib json b key (value cloud key)) keys
        (read_cloud_raw-Good lib json b key (value cloud key) h)

  cloud_object-Good :
      (lib : FieldLib) (json : JsonLib) (order : List Bytes) (b : Builder) (cloud : Option Fields)
      → Good b
      → Good (cloud_object lib json order b cloud)
  unfolding cloud_object
  cloud_object-Good lib json order b none h = h
  cloud_object-Good lib json order b (some cloud) h = read_cloud_keys-Good lib json cloud b order h

  cloud_of-Good :
      (lib : FieldLib) (json : JsonLib) (order : List Bytes) (b : Builder) (raw : Option Bytes)
      → Good b
      → Good (cloud_of lib json order b raw)
  unfolding cloud_of
  cloud_of-Good lib json order b none h = h
  cloud_of-Good lib json order b (some raw) h =
      cloud_object-Good lib json order b (json.read_object raw) h

  tags_read-Good : (b : Builder) (tags : Option (List Bytes)) → Good b → Good (tags_read b tags)
  tags_read-Good b none h = h
  tags_read-Good b (some tags) h = h

  tags_of-Good :
      (json : JsonLib) (b : Builder) (raw : Option Bytes) → Good b → Good (tags_of json b raw)
  tags_of-Good json b none h = h
  tags_of-Good json b (some raw) h = tags_read-Good b (json.read_strings raw) h

  read_sender_tags-Good : (json : JsonLib) (b : Builder) → Good b → Good (read_sender_tags json b)
  unfolding read_sender_tags
  read_sender_tags-Good json b h = tags_of-Good json b (value b.fields (codes "_tags")) h

  raw_of-Good : (b : Builder) (raw : Option Bytes) → Good b → Good (raw_of b raw).0
  raw_of-Good b none h = h
  raw_of-Good b (some []) h = h
  raw_of-Good b (some (c ∷ raw)) h = elim (Bool-cases (c == b'{')) [
    | inl object ↦ rw object (ground arith)
    | inr other ↦ rw other h
  ]

  or_whole-Good :
      (json : JsonLib) (text : Bytes) (r : Builder × Bool) → Good r.0 → Good (or_whole json text r)
  unfolding or_whole
  or_whole-Good json text (b, true) h = h
  or_whole-Good json text (b, false) h = ground arith

  pub from_json-Good :
      (lib : FieldLib) (json : JsonLib) (order : List Bytes) (text : Bytes) (b : Builder)
      → Good b
      → Good (from_json lib json order text b)
  unfolding from_json read_cloud read_payload
  from_json-Good lib json order text b h =
      let b1 = read_keys lib json b json_keys in
      let b2 = read_cloud lib json order b1 in
      let b3 = read_sender_tags json b2 in
      or_whole-Good json text (raw_of b3 (value b3.fields (codes "raw"))) (
        raw_of-Good b3 (value b3.fields (codes "raw")) (
          read_sender_tags-Good json b2 (
            cloud_of-Good lib json order b1 (value b1.fields (codes "cloud"))
              (read_keys-Good lib json b json_keys h))))

  set_pairs-Good :
      (lib : FieldLib) (b : Builder) (pairs : List KvPair) → Good b → Good (set_pairs lib b pairs)
  unfolding set_pairs
  set_pairs-Good lib b [] h = h
  set_pairs-Good lib b (p ∷ pairs) h =
      let field = kv_field (to_lower lib.lower p.key) in
      set_pairs-Good lib (set_field lib b p.key field p.value) pairs
        (set_field-Good lib b p.key field p.value h)

  set_sender-Good :
      (lib : FieldLib) (json : JsonLib) (m : SyslogMsg) (b : Builder)
      → Good b
      → Good (set_sender lib json m b)
  unfolding set_sender
  set_sender-Good lib json m b h =
      let host = set_text-TextFits lib b.ev.host m.host h.bounded.host in
      let peer =
        set_text-TextFits lib (set_text lib b.ev.host m.host).0
          (extra json b.fields (codes "peer_ip")) host in
      let process = set_text-TextFits lib b.ev.process m.app h.bounded.process in
      let severity = mapped-AtMost b.ev.severity m.severity h.bounded.severity in ground arith

-- A line's event has the source that the record names, or the one that is guessed.
pub of_message-Good :
    (t s : Bytes) (w : ℕ) (lib : FieldLib) (json : JsonLib) (line source : Bytes) (b : Builder)
    (m : SyslogMsg)
    → IsEventOf t s w b.ev
    → IsEventOf t
        (guess_source lib (parse_kv m.body) source)
        w
        (of_message lib json line source b m).ev
unfolding of_message
of_message-Good t s w lib json line source b m h =
    let pairs = parse_kv m.body in
    let guessed = guess_source lib pairs source in
    let named : IsEventOf t guessed w (with_source guessed b).ev = ground arith in
    let b1 = set_pairs lib (with_source guessed b) pairs in
    let b2 = set_sender lib json m b1 in
    let filled : IsEventOf t guessed w (read_sender_tags json b2).ev =
      read_sender_tags-Good t guessed w json b2 (
        set_sender-Good t guessed w lib json m b1
          (set_pairs-Good t guessed w lib (with_source guessed b) pairs named)) in
    ground arith
