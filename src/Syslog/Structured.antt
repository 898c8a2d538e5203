-- ===== src/Syslog/Structured.antt =====
-- Structured data: elements that are written with escaped values, and the end of a line inside one.
use loghub.Common.{
  ℕ, ◌≡◌, refl, ◌∙◌, Bool, true, false, not, ◌&&◌, ◌||◌, ◌≢◌, List, [], ◌∷◌, ◌++◌, Option, none,
  some, arith, ◌==◌, if◌then◌else◌, Bool-cases, inl, inr, Bytes, All,
}
use loghub.Syslog.{SdEnd, ended, refused, panics, sd_stop, sd_from, structured_data_end}

-- No quote and no closing bracket.
abbrev pub IsPlain : Bytes → Type 0
IsPlain s = All (λ c. (c == b'"' || c == b']') ≡ false) s

-- A value with its quotes, backslashes and closing brackets escaped.
abbrev pub write_value : Bytes → Bytes
write_value [] = []
write_value (c ∷ s) =
    let rest = write_value s in
    if c == b'"' || (c == b'\\' || c == b']') then b'\\' ∷ c ∷ rest else c ∷ rest

abbrev pub write_params : List (Bytes × Bytes) → Bytes → Bytes
write_params [] rest = rest
write_params ((name, value) ∷ ps) rest =
    b' ' ∷ (name ++ (b'=' ∷ b'"' ∷ (write_value value ++ (b'"' ∷ write_params ps rest))))

-- `[id name="value" ...]`
abbrev pub write_element : Bytes × List (Bytes × Bytes) → Bytes → Bytes
write_element (id, ps) rest = b'[' ∷ (id ++ write_params ps (b']' ∷ rest))

abbrev pub write_elements : List (Bytes × List (Bytes × Bytes)) → Bytes → Bytes
write_elements [] rest = rest
write_elements (e ∷ es) rest = write_element e (write_elements es rest)

abbrev pub IsElement : Bytes × List (Bytes × Bytes) → Type 0
IsElement (id, ps) = IsPlain id × All (λ p. IsPlain p.0) ps

other_byte :
    (v t : Bool) (c : ℕ) (s : Bytes)
    → (c == b'"') ≡ false
    → (c == b']') ≡ false
    → (c == b'\\' && v) ≡ false
    → sd_from (some v) t (c ∷ s) ≡ sd_from (some v) t s
unfolding sd_from
other_byte v t c [] q b e = rw e (rw q (rw b refl))
other_byte v t c (d ∷ s) q b e = rw e (rw q (rw b refl))

quote_byte : (v t : Bool) (s : Bytes) → sd_from (some v) t (b'"' ∷ s) ≡ sd_from (some (not v)) t s
unfolding sd_from
quote_byte v t [] = refl
quote_byte v t (d ∷ s) = refl

close : (t : Bool) (s : Bytes) → sd_from (some false) t (b']' ∷ s) ≡ sd_from none true s
unfolding sd_from
close t [] = refl
close t (c ∷ s) = refl

escaped :
    (t : Bool) (c : ℕ) (s : Bytes) → sd_from (some true) t (b'\\' ∷ c ∷ s) ≡ sd_from (some true) t s
unfolding sd_from
escaped t c s = refl

at_space : (msg : Bytes) → sd_from none true (b' ' ∷ msg) ≡ ended (b' ' ∷ msg)
unfolding sd_from
at_space msg = refl

dangling : (t : Bool) → sd_from (some true) t (b'\\' ∷ []) ≡ panics
unfolding sd_from
dangling t = refl

plain_run :
    (t : Bool) (s rest : Bytes)
    → IsPlain s
    → sd_from (some false) t (s ++ rest) ≡ sd_from (some false) t rest
plain_run t [] rest h = refl
plain_run t (c ∷ s) rest (p, h) =
    other_byte false t c (s ++ rest) (ground arith) (ground arith) (ground arith)
    ∙ plain_run t s rest h

value_run :
    (t : Bool) (s rest : Bytes)
    → sd_from (some true) t (write_value s ++ rest) ≡ sd_from (some true) t rest
value_run t [] rest = refl
value_run t (c ∷ s) rest = elim (Bool-cases (c == b'"' || (c == b'\\' || c == b']'))) [
  | inl special ↦ rw special (escaped t c (write_value s ++ rest) ∙ value_run t s rest)
  | inr other ↦ rw other (
      other_byte true t c (write_value s ++ rest) (ground arith) (ground arith) (ground arith)
      ∙ value_run t s rest)
]

params_run :
    (t : Bool) (ps : List (Bytes × Bytes)) (rest : Bytes)
    → All (λ p. IsPlain p.0) ps
    → sd_from (some false) t (write_params ps rest) ≡ sd_from (some false) t rest
params_run t [] rest h = refl
params_run t ((name, value) ∷ ps) rest (p, h) =
    other_byte false t b' ' _ refl refl refl
    ∙ plain_run t name _ p
    ∙ other_byte false t b'=' _ refl refl refl
    ∙ quote_byte false t _
    ∙ value_run t value _
    ∙ quote_byte true t _
    ∙ params_run t ps rest h

element_run :
    (t : Bool) (e : Bytes × List (Bytes × Bytes)) (rest : Bytes)
    → IsElement e
    → sd_from none t (write_element e rest) ≡ sd_from none true rest
unfolding sd_from
element_run t (id, ps) rest (p, h) =
    plain_run true id _ p ∙ params_run true ps _ h ∙ close true rest

elements_run :
    (es : List (Bytes × List (Bytes × Bytes))) (rest : Bytes)
    → All IsElement es
    → sd_from none true (write_elements es rest) ≡ sd_from none true rest
elements_run [] rest h = refl
elements_run (e ∷ es) rest (p, h) =
    element_run true e (write_elements es rest) p ∙ elements_run es rest h

-- Structured data ends where its elements end: for one or more elements, written with escaped
-- values, whose identifiers and names hold no quote and no closing bracket, and a space behind
-- them, the field ends at that space, whatever the values are.
pub structured_data_end-write :
    (e : Bytes × List (Bytes × Bytes)) (es : List (Bytes × List (Bytes × Bytes))) (msg : Bytes)
    → All IsElement (e ∷ es)
    → structured_data_end (write_elements (e ∷ es) (b' ' ∷ msg)) ≡ ended (b' ' ∷ msg)
unfolding structured_data_end
structured_data_end-write e es msg (p, h) =
    element_run false e (write_elements es (b' ' ∷ msg)) p
    ∙ elements_run es (b' ' ∷ msg) h
    ∙ at_space msg

-- A line that ends behind a backslash in a value panics: where an element, its identifier without
-- quote and closing bracket, has an open value, whatever is escaped in it, and a backslash is the
-- last byte, the index of `structuredDataEnd` leaves the line.
pub structured_data_end_panics :
    (id value : Bytes)
    → IsPlain id
    → structured_data_end (b'[' ∷ (id ++ (b'"' ∷ (write_value value ++ (b'\\' ∷ []))))) ≡ panics
unfolding structured_data_end
structured_data_end_panics id value p =
    plain_run true id _ p
    ∙ quote_byte false true (write_value value ++ (b'\\' ∷ []))
    ∙ value_run true value (b'\\' ∷ [])
    ∙ dangling true

if_not :
    (b : Bool) (x y : SdEnd)
    → (x ≡ panics → ⊥)
    → (y ≡ panics → ⊥)
    → (if b then x else y) ≡ panics
    → ⊥
if_not true x y h k = h
if_not false x y h k = k

ended_not : (s : Bytes) → ended s ≡ panics → ⊥
ended_not s e = cc

refused_not : refused ≡ panics → ⊥
refused_not e = cc

stop_not : (t : Bool) (s : Bytes) → sd_stop t s ≡ panics → ⊥
stop_not t [] = if_not t (ended []) refused (ended_not []) refused_not
stop_not t (c ∷ s) = if_not (t && c == b' ') (ended (c ∷ s)) refused (ended_not (c ∷ s)) refused_not

no_panic :
    (v : Option Bool) (t : Bool) (s : Bytes)
    → All (λ c. (c == b'\\') ≡ false) s
    → sd_from v t s ≡ panics
    → ⊥
unfolding sd_from
no_panic none t [] h e = stop_not t [] e
no_panic none t (c ∷ s) (p, h) e =
    if_not (c == b'[') (sd_from (some false) true s) (sd_stop t (c ∷ s))
      (no_panic (some false) true s h) (stop_not t (c ∷ s)) e
no_panic (some v) t [] h e = cc
no_panic (some v) t (c ∷ []) (p, h) e =
    if_not (c == b']' && not (if c == b'"' then not v else v)) (ended []) refused (ended_not [])
      refused_not (rw p at e)
no_panic (some v) t (c ∷ d ∷ s) (p, h) e =
    let v' = if c == b'"' then not v else v in
    if_not (c == b']' && not v') (sd_from none true (d ∷ s)) (sd_from (some v') t (d ∷ s))
      (no_panic none true (d ∷ s) h) (no_panic (some v') t (d ∷ s) h) (rw p at e)

-- Structured data without a backslash never panics.
pub structured_data_end_safe :
    (s : Bytes) → All (λ c. (c == b'\\') ≡ false) s → structured_data_end s ≢ panics
unfolding structured_data_end
structured_data_end_safe [] h e = refused_not e
structured_data_end_safe (c ∷ s) h e =
    if_not (c == b'-') (sd_stop true s) (sd_from none false (c ∷ s)) (stop_not true s)
      (no_panic none false (c ∷ s) h) e
