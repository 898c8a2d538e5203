-- ===== src/Event.antt =====
-- backend/internal/store/events.go: `NewEventParams`, one normalized event. A pointer field is an
-- `Option`, a time is nanoseconds since Go's zero time, and an address is its canonical text.
use loghub.Common.{ℕ, Bytes, List, Option}

pub record Event : Type 0 where
  pub ts : ℕ
  pub tenant_id : Bytes
  pub source : Bytes
  pub vendor : Option Bytes
  pub product : Option Bytes
  pub event_type : Option Bytes
  pub event_subtype : Option Bytes
  pub severity : Option ℕ
  pub action : Option Bytes
  pub src_ip : Option Bytes
  pub src_port : Option ℕ
  pub dst_ip : Option Bytes
  pub dst_port : Option ℕ
  pub protocol : Option Bytes
  pub user_name : Option Bytes
  pub host : Option Bytes
  pub process : Option Bytes
  pub url : Option Bytes
  pub http_method : Option Bytes
  pub status_code : Option ℕ
  pub rule_name : Option Bytes
  pub rule_id : Option Bytes
  pub cloud_account_id : Option Bytes
  pub cloud_region : Option Bytes
  pub cloud_service : Option Bytes
  pub raw : Bytes
  pub tags : List Bytes
