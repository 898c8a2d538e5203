-- ===== src/Kv/Tests.antt =====
-- Runs of the key=value parser, and its theorems at concrete bodies.
use loghub.Common.{◌≡◌, refl, false, List, [], ◌∷◌, some, map, Bytes, codes}
use loghub.Kv.{is_key_byte, KvPair, key_at, parse_from, parse_kv}
use loghub.Kv.Total.{parse_kv_total}
use loghub.Kv.RoundTrip.{write, pair_of, parse_kv-write}

abbrev plain : Bytes → Bytes → KvPair
plain k v = record { key = k; value = v; quoted = false }

continued_value :
    parse_kv (codes "action=deny  msg=DNS blocked")
    ≡ plain (codes "action") (codes "deny") ∷ plain (codes "msg") (codes "DNS blocked") ∷ []
unfolding parse_kv parse_from loghub.Kv.round
continued_value = refl

-- an escaped quote, an empty value, and text before the first pair
mixed_values :
    parse_kv (codes "up 3x=1 q=\"a \\\"b\\\"\" e= tail")
    ≡ pair_of (codes "q", codes "a \"b\"") ∷ plain (codes "e") (codes "tail") ∷ []
unfolding parse_kv parse_from loghub.Kv.round
mixed_values = refl

abbrev two_pairs : List (Bytes × Bytes)
two_pairs = (codes "msg", codes "a \"b\"\\") ∷ (codes "_x.y-1", []) ∷ []

parse_kv-write_example : parse_kv (write two_pairs) ≡ map pair_of two_pairs
unfolding is_key_byte
parse_kv-write_example =
    parse_kv-write two_pairs
      ((refl, (refl, (refl, tt))), ((refl, (refl, (refl, (refl, (refl, (refl, tt)))))), tt))

parse_kv_total_example : parse_from 9 (codes "a=1 2b=3") [] ≡ some (parse_kv (codes "a=1 2b=3"))
parse_kv_total_example = parse_kv_total (codes "a=1 2b=3")
