-- ===== src/Ndjson/Lines.antt =====
-- How a body is cut into lines and records.
use loghub.Common.{
  ℕ, ◌+◌, ◌≤◌, ◌≡◌, ◌≢◌, refl, ap, List, [], ◌∷◌, ◌++◌, none, some, arith, ltb, ◌==◌, if◌then◌else◌,
  length, All, Bytes, trim_space, ◌∙◌, Option, false,
}
use loghub.Errors.{Error}
use loghub.Ndjson.{
  max_record_bytes, split_lines, trim_cr, record_of, records_from, all_but_last, each_record,
}

abbrev pub IsLine : Bytes → Type 0
IsLine line = All (λ c. c ≢ b'\n') line

-- Lines, each with a newline behind it, and what follows the last one.
abbrev pub body_of : List Bytes → Bytes → Bytes
body_of [] t = t
body_of (line ∷ lines) t = line ++ (b'\n' ∷ body_of lines t)

split-line :
    (line s : Bytes) → IsLine line → split_lines (line ++ (b'\n' ∷ s)) ≡ line ∷ split_lines s
unfolding split_lines
split-line [] s h = refl
split-line (c ∷ line) s (ne, h) =
    let other : (c == b'\n') ≡ false = ground arith in rw (split-line line s h) (rw other refl)

split-end : (t : Bytes) → IsLine t → split_lines t ≡ t ∷ []
unfolding split_lines
split-end [] h = refl
split-end (c ∷ t) (ne, h) =
    let other : (c == b'\n') ≡ false = ground arith in rw (split-end t h) (rw other refl)

split-body :
    (lines : List Bytes) (t : Bytes)
    → All IsLine lines
    → IsLine t
    → split_lines (body_of lines t) ≡ lines ++ (t ∷ [])
split-body [] t h k = split-end t k
split-body (line ∷ lines) t (p, h) k =
    split-line line (body_of lines t) p ∙ ap (◌∷◌ line) (split-body lines t h k)

all_but_last-append : (lines : List Bytes) (t : Bytes) → all_but_last (lines ++ (t ∷ [])) ≡ lines
all_but_last-append [] t = refl
all_but_last-append (line ∷ []) t = refl
all_but_last-append (line ∷ next ∷ lines) t = ap (◌∷◌ line) (all_but_last-append (next ∷ lines) t)

length-trim_cr : (s : Bytes) → length s ≤ length (trim_cr s) + 1
unfolding trim_cr
length-trim_cr [] = omega arith
length-trim_cr (c ∷ []) = ground arith
length-trim_cr (c ∷ d ∷ s) = omega (arith, length-trim_cr (d ∷ s))

-- What is passed of a line: that it is too large when, less its line ending, it is longer than a
-- record may be; otherwise it is passed trimmed, unless it is blank.
abbrev pub passed : ℕ → Bytes → List (ℕ × Option Bytes)
passed index line =
    if ltb max_record_bytes (length (trim_cr line))
    then (index, none) ∷ []
    else if ltb 0 (length (trim_space (trim_cr line)))
    then (index, some (trim_space (trim_cr line))) ∷ []
    else []

abbrev pub all_passed : ℕ → List Bytes → List (ℕ × Option Bytes)
all_passed index [] = []
all_passed index (line ∷ lines) = passed index line ++ all_passed (index + 1) lines

-- The reader's buffer makes no difference.
record_of_lem : (index : ℕ) (segment : Bytes) → record_of index segment ≡ passed index segment
unfolding record_of
record_of_lem index segment = ground (arith, length-trim_cr segment)

records_from_lem :
    (index : ℕ) (lines : List Bytes) → records_from index lines ≡ all_passed index lines
unfolding records_from
records_from_lem index [] = refl
records_from_lem index (line ∷ lines) =
    rw (record_of_lem index line) (rw (records_from_lem (index + 1) lines) refl)

-- The lines of a body that are read: what follows the last newline too, unless an error cut it off.
abbrev pub read_lines : Option Error → List Bytes → Bytes → List Bytes
read_lines none lines t = lines ++ (t ∷ [])
read_lines (some e) lines t = lines

-- Of a body of any lines with a newline behind each, and a rest without one, each line is passed
-- in order under its number, blank lines counted and not passed; a line that less its line ending
-- is longer than a record may be is passed as too large, and any other one trimmed. The rest is
-- passed in the same way, unless reading failed there.
pub each_record-body_of :
    (lines : List Bytes) (t : Bytes) (failure : Option Error)
    → All IsLine lines
    → IsLine t
    → each_record (record { bytes = body_of lines t; failure = failure })
      ≡ all_passed 0 (read_lines failure lines t)
unfolding each_record
each_record-body_of lines t none h k =
    ap (records_from 0) (split-body lines t h k) ∙ records_from_lem 0 (lines ++ (t ∷ []))
each_record-body_of lines t (some e) h k =
    ap (λ ls. records_from 0 (all_but_last ls)) (split-body lines t h k)
    ∙ (ap (records_from 0) (all_but_last-append lines t) ∙ records_from_lem 0 lines)
