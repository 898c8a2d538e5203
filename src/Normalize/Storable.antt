-- ===== src/Normalize/Storable.antt =====
-- `storableJSON`: raw in a form that Postgres accepts as jsonb.
use loghub.Common.{
  ℕ, Bool, false, not, ◌&&◌, ◌||◌, [], ◌∷◌, Option, none, some, ◌==◌, leb, if◌then◌else◌, Bytes,
  codes, has_prefix, lower_byte,
}
use loghub.Normalize.{clean_nul}

-- A decoded JSON value; numbers keep their text, and so do the other atoms.
mutual
  pub data Json : Type 0 where
    atom : Bytes → Json
    text : Bytes → Json
    array : Items → Json
    object : Members → Json

  pub data Items : Type 0 where
    nil : Items
    cons : Json → Items → Items

  pub data Members : Type 0 where
    end : Members
    member : Bytes → Json → Members → Members

-- `utf8.Valid`, and what `encoding/json` decodes of a text with `UseNumber`, which replaces what
-- is not UTF-8, and encodes without escaping HTML, less the newline behind it.
pub record RawLib : Type 0 where
  pub is_utf8 : Bytes → Bool
  pub decode : Bytes → Option Json
  pub encode : Json → Option Bytes

abbrev pub is_risky_digit : ℕ → Bool
is_risky_digit c = c == b'8' || (c == b'9' || (leb b'a' (lower_byte c) && leb (lower_byte c) b'f'))

unfoldable pub risky_at : Bytes → Bool
unfolding has_prefix
risky_at (a ∷ u ∷ c ∷ d ∷ s) =
    (a == b'\\' && lower_byte u == b'u')
    && (has_prefix (c ∷ d ∷ s) (codes "0000") || (lower_byte c == b'd' && is_risky_digit d))
risky_at _ = false

-- The pattern `(?i)\\u(0000|d[89a-f])` somewhere in a text.
unfoldable pub is_risky : Bytes → Bool
unfolding risky_at
is_risky [] = false
is_risky (c ∷ s) = risky_at (c ∷ s) || is_risky s

-- NUL is replaced in every text and key. A later key that becomes equal to another takes its
-- place when the value is encoded, as it does in a Go map.
unfoldable mutual
  unfolding clean_nul

  pub clean_json : Json → Json
  clean_json (atom s) = atom s
  clean_json (text s) = text (clean_nul s)
  clean_json (array xs) = array (clean_items xs)
  clean_json (object ms) = object (clean_members ms)

  pub clean_items : Items → Items
  clean_items nil = nil
  clean_items (cons x xs) = cons (clean_json x) (clean_items xs)

  pub clean_members : Members → Members
  clean_members end = end
  clean_members (member k v ms) = member (clean_nul k) (clean_json v) (clean_members ms)

abbrev pub or_raw : Bytes → Option Bytes → Bytes
or_raw raw none = raw
or_raw raw (some out) = out

unfoldable pub reencoded : RawLib → Bytes → Option Json → Bytes
unfolding clean_json
reencoded lib raw none = raw
reencoded lib raw (some v) = or_raw raw (lib.encode (clean_json v))

unfoldable pub storable_json : RawLib → Bytes → Bytes
unfolding is_risky reencoded
storable_json lib raw =
    if lib.is_utf8 raw && not (is_risky raw) then raw else reencoded lib raw (lib.decode raw)
