-- ===== src/Normalize/Line.antt =====
-- `syslogLine` and `fromSyslog`: an event out of a syslog line.
use loghub.Common.{
  ℕ, not, ◌||◌, List, [], ◌∷◌, Option, none, some, any, ◌==◌, if◌then◌else◌, get_elem?, Bytes,
  codes, bytes_eq, is_empty, contains, to_lower,
}
use loghub.Kv.{KvPair, parse_kv}
use loghub.Syslog.{SyslogMsg, TimeLib}
use loghub.Syslog.Line.{parse_syslog}
use loghub.Normalize.{FieldLib, lookup, set_text}
use loghub.Normalize.Builder.{Fields, JsonLib, Builder, value, extra, set_field, read_sender_tags}

abbrev pub line_of : JsonLib → Option Bytes → Option Bytes
line_of json none = none
line_of json (some []) = none
line_of json (some (c ∷ raw)) = if c == b'"' then json.read_string (c ∷ raw) else none

-- The syslog line to parse: a string `message`, if the source is unknown or is a syslog category.
unfoldable pub syslog_line : JsonLib → Fields → Bytes → Option Bytes
unfolding bytes_eq value
syslog_line json fields source =
    if is_empty source || (bytes_eq source (codes "firewall") || bytes_eq source (codes "network"))
    then line_of json (value fields (codes "message"))
    else none

abbrev pub kv_aliases : List (Bytes × Bytes)
kv_aliases =
    (codes "src", codes "src_ip")
    ∷ (codes "dst", codes "dst_ip")
    ∷ (codes "spt", codes "src_port")
    ∷ (codes "sport", codes "src_port")
    ∷ (codes "dpt", codes "dst_port")
    ∷ (codes "dport", codes "dst_port")
    ∷ (codes "proto", codes "protocol")
    ∷ (codes "policy", codes "rule_name")
    ∷ (codes "event", codes "event_type")
    ∷ (codes "reason", codes "event_subtype")
    ∷ []

abbrev pub firewall_keys : List Bytes
firewall_keys =
    codes "action"
    ∷ codes "src"
    ∷ codes "dst"
    ∷ codes "spt"
    ∷ codes "dpt"
    ∷ codes "proto"
    ∷ codes "policy"
    ∷ codes "src_ip"
    ∷ codes "dst_ip"
    ∷ []

abbrev pub or_key : Bytes → Option Bytes → Bytes
or_key key none = key
or_key key (some field) = field

unfoldable pub kv_field : Bytes → Bytes
unfolding lookup
kv_field key = or_key key (lookup key kv_aliases)

-- The source of a line whose record names none.
unfoldable pub guess_source : FieldLib → List KvPair → Bytes → Bytes
unfolding bytes_eq to_lower
guess_source lib pairs source =
    if not (is_empty source)
    then source
    else if any (λ p. contains firewall_keys (to_lower lib.lower p.key)) pairs
    then codes "firewall"
    else codes "network"

unfoldable pub set_pairs : FieldLib → Builder → List KvPair → Builder
unfolding set_field kv_field to_lower
set_pairs lib b [] = b
set_pairs lib b (p ∷ pairs) =
    set_pairs lib (set_field lib b p.key (kv_field (to_lower lib.lower p.key)) p.value) pairs

-- From syslog severity, 0 emergency to 7 debug, onto 0 to 10.
abbrev pub syslog_severity : List ℕ
syslog_severity = 10 ∷ 9 ∷ 8 ∷ 7 ∷ 5 ∷ 3 ∷ 2 ∷ 0 ∷ []

abbrev pub mapped_severity : Option ℕ → Option ℕ → Option ℕ
mapped_severity (some n) header = some n
mapped_severity none none = none
mapped_severity none (some sev) = get_elem? syslog_severity sev

-- What the header and the collector say of the sender.
unfoldable pub set_sender : FieldLib → JsonLib → SyslogMsg → Builder → Builder
unfolding set_text extra
set_sender lib json m b =
    let host = (set_text lib b.ev.host m.host).0 in
    record b {
      ev = record b.ev {
        host = (set_text lib host (extra json b.fields (codes "peer_ip"))).0;
        process = (set_text lib b.ev.process m.app).0;
        severity = mapped_severity b.ev.severity m.severity;
      };
    }

abbrev pub message_raw : JsonLib → Bytes → Builder → Builder
message_raw json line b = record b { ev = record b.ev { raw = json.write_message line } }

abbrev pub with_source : Bytes → Builder → Builder
with_source source b = record b { ev = record b.ev { source = source } }

unfoldable pub of_message : FieldLib → JsonLib → Bytes → Bytes → Builder → SyslogMsg → Builder
unfolding parse_kv guess_source set_pairs set_sender read_sender_tags
of_message lib json line source b m =
    let pairs = parse_kv m.body in
    message_raw json line (
      read_sender_tags json (
        set_sender lib json m
          (set_pairs lib (with_source (guess_source lib pairs source) b) pairs)))

unfoldable pub of_parsed :
    FieldLib → JsonLib → Bytes → Bytes → Builder → Option SyslogMsg → Option (Builder × Option ℕ)
unfolding of_message
of_parsed lib json line source b none = none
of_parsed lib json line source b (some m) = some (of_message lib json line source b m, m.time)

-- `fromSyslog`, with the time of the header; `none` is the panic of `parseSyslog`.
unfoldable pub from_syslog :
    FieldLib → JsonLib → TimeLib → Bytes → Bytes → Builder → Option (Builder × Option ℕ)
unfolding parse_syslog of_parsed
from_syslog lib json times line source b =
    of_parsed lib json line source b (parse_syslog times line)
