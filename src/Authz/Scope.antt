-- ===== src/Authz/Scope.antt =====
-- The constants of type `Scope` (backend/internal/authz/authz.go).
use loghub.Common.{ℕ}

abbrev pub own_tenant : ℕ
own_tenant = 1

abbrev pub any_tenant : ℕ
any_tenant = 2
