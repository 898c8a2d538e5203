-- ===== src/Authz/Role.antt =====
-- The constants of type `Role` (backend/internal/authz/authz.go).
use loghub.Common.{ℕ}

abbrev pub anonymous : ℕ
anonymous = 0

abbrev pub admin : ℕ
admin = 1

abbrev pub viewer : ℕ
viewer = 2

abbrev pub collector : ℕ
collector = 3

abbrev pub any_role : ℕ
any_role = 4
