-- ===== src/Authz/Resource.antt =====
-- The constants of type `Resource` (backend/internal/authz/authz.go).
use loghub.Common.{ℕ}

abbrev pub health : ℕ
health = 1

abbrev pub sessions : ℕ
sessions = 2

abbrev pub events : ℕ
events = 3

abbrev pub alert_rules : ℕ
alert_rules = 4

abbrev pub alerts : ℕ
alerts = 5

abbrev pub tenant_names : ℕ
tenant_names = 6

abbrev pub resource_end : ℕ
resource_end = 7
