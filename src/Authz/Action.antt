-- ===== src/Authz/Action.antt =====
-- The constants of type `Action` (backend/internal/authz/authz.go).
use loghub.Common.{ℕ}

abbrev pub read : ℕ
read = 1

abbrev pub create : ℕ
create = 2

abbrev pub any_action : ℕ
any_action = 3
