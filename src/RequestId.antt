-- ===== src/RequestId.antt =====
-- backend/internal/api/respond.go: the identifier of a request, `newRequestID`.
pub mod Order
mod Tests
use loghub.Common.{ℕ, zero, suc, ◌+◌, ◌*◌, ◌/◌, ◌%◌, List, [], ◌∷◌, ◌++◌, Bytes, codes}

-- Crockford's alphabet.
abbrev pub id_encoding : Bytes
id_encoding = codes "0123456789ABCDEFGHJKMNPQRSTVWXYZ"

abbrev pub nth : Bytes → ℕ → ℕ
nth [] n = 0
nth (x ∷ xs) zero = x
nth (x ∷ xs) (suc n) = nth xs n

-- `EncodeToString` without padding, of bytes that are whole groups of five bits: the digits of the
-- number that the bytes are, the highest first.
unfoldable pub base_32 : ℕ → ℕ → Bytes
base_32 zero n = []
base_32 (suc k) n = base_32 k (n / 32) ++ (nth id_encoding (n % 32) ∷ [])

-- The ten bytes as a number: a 64-bit word of milliseconds, whose last two bytes are overwritten with
-- the first two of the four random ones.
unfoldable pub id_number : ℕ → ℕ → ℕ
id_number ms random =
    ms * 65_536 % 18_446_744_073_709_551_616 / 65_536 * 4_294_967_296 + random % 4_294_967_296

-- `newRequestID`, of the time in milliseconds since 1970 and of 32 random bits
unfoldable pub new_request_id : ℕ → ℕ → Bytes
unfolding base_32 id_number
new_request_id ms random = base_32 16 (id_number ms random)
