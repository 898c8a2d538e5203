-- ===== src/Normalize/Tests.antt =====
-- Runs of the normalizer, and each theorem about it at a concrete record. A record is read by a
-- small JSON reader: the text names one of two maps of fields, and a string is what is between the
-- quotes.
use loghub.Common.{
  ◌≡◌, refl, true, [], ◌∷◌, none, some, ◌==◌, if◌then◌else◌, pos, Bytes, codes, bytes_eq, All,
  contains, ◌++◌, ◌↔◌,
}
use loghub.Errors.{Error, Result, ok, err, new_error}
use loghub.Errors
use loghub.Event.{Event}
use loghub.Normalize.Builder.{Fields, Builder, new_builder}
use loghub.Normalize.Storable.{atom}
use loghub.Normalize.Record.{Libs, Defaults, normalize, assemble_tags, resolve_retention, flag_long}
use loghub.Normalize.Accepted.{IsStorable, normalize-IsStorable}
use loghub.Normalize.Rejected.{IsTakeable, normalize_iff}
use loghub.Normalize.Tags.{NoRepeat, is_tag, has_tag, assemble_tags_lem}

abbrev unquoted : Bytes → Bytes
unquoted [] = []
unquoted (c ∷ s) = if c == b'"' then unquoted s else c ∷ unquoted s

abbrev firewall_fields : Fields
firewall_fields =
    (codes "tenant", codes "\"acme\"")
    ∷ (codes "source", codes "\"Firewall\"")
    ∷ (codes "src_ip", codes "\"10.0.0.1\"")
    ∷ (codes "dst_port", codes "443")
    ∷ (codes "severity", codes "11")
    ∷ (codes "action", codes "\"Allowed\"")
    ∷ []

abbrev few_fields : Fields
few_fields = (codes "severity", codes "3") ∷ []

abbrev libs : Libs
libs = record {
  field = record {
    to_valid = λ s. s;
    lower = λ s. s;
    parse_addr = λ s. some s;
    parse_float = λ s. none;
  };
  json = record {
    read_object = λ s.
        if bytes_eq s (codes "firewall")
        then some firewall_fields
        else if bytes_eq s (codes "few")
        then some few_fields
        else none;
    read_string = λ s. some (unquoted s);
    read_strings = λ s. none;
    read_cloud_trail = λ s. ([], []);
    write_object = λ fields. codes "{}";
    write_message = λ s. codes "{}";
  };
  raw = record {
    is_utf8 = λ s. true;
    decode = λ s. some (atom s);
    encode = λ j. some (codes "{}");
  };
  times = record { parse_rfc3339 = λ s. none; is_stamp = λ s. true };
  cloud_order = [];
}

abbrev no_defaults : Defaults
no_defaults = record { tenant = []; source = [] }

abbrev firewall_out : Event
firewall_out = record {
  ts = 1000;
  tenant_id = codes "acme";
  source = codes "firewall";
  vendor = none;
  product = none;
  event_type = some (codes "traffic");
  event_subtype = none;
  severity = none;
  action = some (codes "allow");
  src_ip = some (codes "10.0.0.1");
  src_port = none;
  dst_ip = none;
  dst_port = some 443;
  protocol = none;
  user_name = none;
  host = none;
  process = none;
  url = none;
  http_method = none;
  status_code = none;
  rule_name = none;
  rule_id = none;
  cloud_account_id = none;
  cloud_region = none;
  cloud_service = none;
  raw = codes "firewall";
  tags = codes "invalid:severity" ∷ [];
}

-- A severity over 10 is left out and tagged, and the source and the action are folded.
firewall_event : normalize libs (pos 0) no_defaults 1000 (codes "firewall") ≡ some (ok firewall_out)
unfolding normalize
firewall_event = refl

no_tenant :
    normalize libs (pos 0) no_defaults 1000 (codes "few")
    ≡ some (err (new_error Errors.invalid "missing_tenant"))
unfolding normalize
no_tenant = refl

not_json :
    normalize libs (pos 0) no_defaults 1000 (codes "other")
    ≡ some (err (new_error Errors.malformed "invalid_json"))
unfolding normalize
not_json = refl

normalize-IsStorable_example : IsStorable 1000 (resolve_retention (pos 0)) firewall_out
normalize-IsStorable_example =
    normalize-IsStorable libs (pos 0) no_defaults 1000 (codes "firewall") {ev = firewall_out}
      firewall_event

normalize_iff_example :
    ((ev : Event) × (normalize libs (pos 0) no_defaults 1000 (codes "firewall") ≡ some (ok ev)))
    ↔ IsTakeable libs no_defaults (some firewall_fields)
unfolding bytes_eq
normalize_iff_example = normalize_iff libs (pos 0) no_defaults 1000 (codes "firewall")

abbrev tagged : Builder
tagged = record {
  fields = [];
  ev = (new_builder []).ev;
  sender_tags = codes "a" ∷ [] ∷ codes "b" ∷ codes "a" ∷ [];
  derived = codes "b" ∷ codes "c" ∷ [];
}

tags_once : assemble_tags libs.field tagged ≡ codes "a" ∷ codes "b" ∷ codes "c" ∷ []
unfolding assemble_tags
tags_once = refl

assemble_tags_lem_example :
    NoRepeat (assemble_tags libs.field tagged)
    × All (λ t. is_tag t ≡ true) (assemble_tags libs.field tagged)
    × ((x : Bytes)
        → contains (assemble_tags libs.field tagged) x
          ≡ has_tag libs.field (tagged.sender_tags ++ (flag_long libs.field tagged).derived) x)
assemble_tags_lem_example = assemble_tags_lem libs.field tagged
