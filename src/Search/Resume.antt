-- ===== src/Search/Resume.antt =====
-- Going on from a page: the next cursor, read back with the parameters of its page.
use mathlib.Core.Path.{subst}
use loghub.Common.{
  ℕ, zero, suc, ◌-◌, ◌≤◌, ◌<◌, ◌≡◌, refl, sym, ◌∙◌, Bool, true, false, not, ◌||◌, ◌⊎◌, inl, inr,
  List, [], ◌∷◌, Option, none, some, arith, ltb, ltb→lt, Bool-cases, Option-cases, length,
  length-take, take, take_all, get_elem?, Bytes, bytes_eq, bytes_eq_iff, is_empty, any, trim_space,
}
use loghub.Errors.{Error, Result, ok, err}
use loghub.Search.{
  EventQuery, TextLib, invalid_param, resolve_filter, set_window, or_given, EventFilter, with_addr,
  parsed, normalized, is_bad_severity, is_crossed, is_bad_text, texts,
}
use loghub.Search.Page.{
  SearchParams, Cursor, SearchQuery, StoredEvent, CursorLib, resolve_limit, resolve_order,
  invalid_cursor, cursor_version, decode_cursor, same_time, resume, with_window, resumed,
  resolve_window, hashed, ordered, resolve_search, cursor_after, page_of,
}

get_some {ℓ} :
    {A : Type ℓ} (i : ℕ) (xs : List A) → i < length xs → (x : A) × (get_elem? xs i ≡ some x)
get_some i [] h = absurd (omega arith)
get_some zero (x ∷ xs) h = (x, refl)
get_some (suc i) (x ∷ xs) h = get_some i xs (omega arith)

-- A page holds at most `limit` events, those that the database gave first, and there is a cursor
-- for another page exactly if the database gave more; `encode` makes no empty text.
pub page_of_lem :
    (lib : CursorLib)
    → ((c : Cursor) → is_empty (lib.encode c) ≡ false)
    → (q : SearchQuery) (events : List StoredEvent) → 0 < q.limit
    → (length (page_of lib q events).events ≤ q.limit)
      × (take q.limit events ≡ (page_of lib q events).events)
      × (is_empty (page_of lib q events).next_cursor ≡ not (ltb q.limit (length events)))
unfolding page_of
page_of_lem lib h q events pos = elim (Bool-cases (ltb q.limit (length events))) [
  | inl more ↦
      (let (e, found) = get_some (q.limit - 1) events (let m = ltb→lt _ _ more in omega arith) in
        rw (more, page_of)
          (omega (arith, length-take q.limit events), refl, rw found (h (cursor_after q e))))
  | inr last ↦
      (let short : length events ≤ q.limit = ground arith in
        rw (last, page_of) (short, take_all q.limit events short, refl))
]

Result-cases {ℓ} :
    {A : Type ℓ} (r : Result A) → ((e : Error) × (r ≡ err e)) ⊎ ((a : A) × (r ≡ ok a))
Result-cases (err e) = inl (e, refl)
Result-cases (ok a) = inr (a, refl)

-- A window that is not empty and agrees with what the filter gives of it.
abbrev IsWindow : EventQuery → ℕ → ℕ → Type 0
IsWindow w a b =
    (ltb a b ≡ true) × (same_time w.filter.from a ≡ true) × (same_time w.filter.to b ≡ true)

same_given : (o : Option ℕ) (t : ℕ) → same_time o (or_given o t) ≡ true
unfolding same_time
same_given none t = refl
same_given (some x) t = ground arith

given_same : (o : Option ℕ) (t : ℕ) → same_time o t ≡ true → or_given o t ≡ t
unfolding same_time
given_same none t h = refl
given_same (some x) t h = ground arith

abbrev at_window : EventQuery → ℕ → ℕ → EventQuery
at_window w a b = record w { from = a; to = b }

abbrev at_query : SearchQuery → Option Cursor → EventQuery → SearchQuery
at_query q after w = record q { query = w; after = after }

ok_inj {ℓ} : {A : Type ℓ} (a b : A) → ok a ≡ ok b → a ≡ b
ok_inj a b h = cc

with_window_lem :
    (q : SearchQuery) (after : Option Cursor) (w : EventQuery) (from to : ℕ) {q' : SearchQuery}
    → with_window q after (set_window w from to) ≡ ok q'
    → (a : ℕ) × (b : ℕ) × (q' ≡ at_query q after (at_window w a b)) × IsWindow w a b
unfolding set_window
with_window_lem q after w from to {q'} h =
    let a = or_given w.filter.from from in
    let b = or_given w.filter.to to in
    elim (Bool-cases (ltb a b)) [
      | inl window ↦
          (let same : at_query q after (at_window w a b) ≡ q' = ok_inj _ _ (rw window at h) in
            (a, b, sym same, (window, same_given w.filter.from from, same_given w.filter.to to)))
      | inr empty ↦ (let bad : err invalid_param ≡ ok q' = rw empty at h in absurd cc)
    ]

window_again :
    (w : EventQuery) (a b : ℕ)
    → IsWindow w a b
    → set_window (at_window w a b) a b ≡ ok (at_window w a b)
unfolding set_window
window_again w a b (less, from, to) =
    rw (given_same w.filter.from a from) (rw (given_same w.filter.to b to) (rw less refl))

-- What `resume` found right.
resume_lem :
    (q : SearchQuery) (d : Result Cursor) {q' : SearchQuery}
    → resumed q (resume q d) ≡ ok q'
    → (a : ℕ) × (b : ℕ) × (x : Option Cursor) × (q' ≡ at_query q x (at_window q.query a b))
      × IsWindow q.query a b
resume_lem q (err e) h = cc
resume_lem q (ok c) {q'} h =
    elim (Bool-cases (
      not (bytes_eq c.filter q.hash)
      || (not (same_time q.query.filter.from c.from) || not (same_time q.query.filter.to c.to)))) [
        | inl other ↦
            (let bad : resumed q (err invalid_cursor) ≡ ok q' = rw other at h in absurd cc)
        | inr same ↦
            (let (a, b, e, w) =
                with_window_lem q (some c) (at_window q.query c.from c.to) c.from c.to
                  (rw same at h) in
              (a, b, some c, e, w))
      ]

resolve_window_lem :
    (lib : CursorLib) (cursor : Bytes) (now : ℕ) (q : SearchQuery) {q' : SearchQuery}
    → resolve_window lib cursor now q ≡ ok q'
    → (a : ℕ) × (b : ℕ) × (x : Option Cursor) × (q' ≡ at_query q x (at_window q.query a b))
      × IsWindow q.query a b
unfolding resolve_window
resolve_window_lem lib [] now q h =
    let (a, b, e, w) = with_window_lem q none q.query _ _ h in (a, b, none, e, w)
resolve_window_lem lib (c ∷ s) now q h = resume_lem q (decode_cursor lib (c ∷ s)) h

-- Reading back a cursor of the query's own window.
resolve_window_again :
    (lib : CursorLib) (now : ℕ) (q : SearchQuery) (c : Cursor)
    → is_empty (lib.encode c) ≡ false
    → lib.decode (lib.encode c) ≡ some c
    → c.version ≡ cursor_version
    → c.filter ≡ q.hash
    → IsWindow q.query c.from c.to
    → resolve_window lib (lib.encode c) now q
      ≡ ok (at_query q (some c) (at_window q.query c.from c.to))
unfolding resolve_window decode_cursor
resolve_window_again lib now q c some_text back version hash (less, from, to) = rw some_text (
    rw back (
      rw version (
        rw ((bytes_eq_iff c.filter q.hash).1 hash)
          (rw from (rw to (rw (window_again q.query c.from c.to (less, from, to)) refl))))))

abbrev start_query : CursorLib → ℕ → Bool → EventQuery → SearchQuery
start_query lib limit ascending w = record {
  query = w;
  ascending = ascending;
  limit = limit;
  after = none;
  hash = lib.filter_hash ascending w.filter w.addr;
}

-- A resolved filter keeps the ends that the request gives.
abbrev SameEnds : EventFilter → EventFilter → Type 0
SameEnds f g = (g.from ≡ f.from) × (g.to ≡ f.to)

with_addr-ends :
    (lib : TextLib) (f : EventFilter) {w : EventQuery}
    → with_addr lib f ≡ ok w
    → SameEnds f w.filter
with_addr-ends lib f {w} h = elim (Bool-cases (is_empty (trim_space f.src_ip))) [
  | inl without ↦
      (let same : record { filter = f; addr = none; from = 0; to = 0 } ≡ w =
          ok_inj _ _ (rw without at h) in
        subst (λ w. SameEnds f w.filter) same (refl, refl))
  | inr given ↦
      (let h' : parsed f (lib.parse_addr (trim_space f.src_ip)) ≡ ok w = rw given at h in
        elim (Option-cases (lib.parse_addr (trim_space f.src_ip))) [
          | inl unread ↦ (let bad : err invalid_param ≡ ok w = rw unread at h' in absurd cc)
          | inr (a, addr) ↦
              (let same : record { filter = f; addr = some a; from = 0; to = 0 } ≡ w =
                  ok_inj _ _ (rw addr at h') in
                subst (λ w. SameEnds f w.filter) same (refl, refl))
        ])
]

resolve_filter-ends :
    (lib : TextLib) (f : EventFilter) {w : EventQuery}
    → resolve_filter lib f ≡ ok w
    → SameEnds f w.filter
unfolding resolve_filter
resolve_filter-ends lib f {w} h =
    let bad_severity = is_bad_severity f.severity_min || is_bad_severity f.severity_max in
    elim (Bool-cases bad_severity) [
      | inl refused ↦ (let bad : err invalid_param ≡ ok w = rw refused at h in absurd cc)
      | inr severe ↦ elim (Bool-cases (is_crossed f.severity_min f.severity_max)) [
        | inl refused ↦
            (let bad : err invalid_param ≡ ok w = rw (severe, refused) at h in absurd cc)
        | inr ordered ↦ elim (Bool-cases (any (is_bad_text lib) (texts f))) [
          | inl refused ↦
              (let bad : err invalid_param ≡ ok w = rw (severe, ordered, refused) at h in absurd cc)
          | inr fine ↦
              (let h' : with_addr lib (normalized lib f) ≡ ok w = rw (severe, ordered, fine) at h in
                with_addr-ends lib (normalized lib f) h')
        ]
      ]
    ]

-- The checks before the window.
resolve_search_lem :
    (texts : TextLib) (lib : CursorLib) (p : SearchParams) (now : ℕ) {q : SearchQuery}
    → resolve_search texts lib p now ≡ ok q
    → (q0 : SearchQuery) × (resolve_window lib p.cursor now q0 ≡ ok q)
      × SameEnds p.filter q0.query.filter
      × ((cursor : Bytes) (now : ℕ)
          → resolve_search texts lib (record p { cursor = cursor }) now
            ≡ resolve_window lib cursor now q0)
unfolding resolve_search
resolve_search_lem texts lib p now {q} h = elim (Option-cases (resolve_limit p.limit)) [
  | inl no_limit ↦ (let bad : err invalid_param ≡ ok q = rw no_limit at h in absurd cc)
  | inr (limit, at_limit) ↦
      (let h' : ordered texts lib p now limit (resolve_order p.order) ≡ ok q = rw at_limit at h in
        elim (Option-cases (resolve_order p.order)) [
          | inl no_order ↦ (let bad : err invalid_param ≡ ok q = rw no_order at h' in absurd cc)
          | inr (ascending, at_order) ↦
              (let h'' : hashed texts lib p now limit ascending (resolve_filter texts p.filter)
                    ≡ ok q =
                  rw at_order at h' in
                elim (Result-cases (resolve_filter texts p.filter)) [
                  | inl (e, refused) ↦ (let bad : err e ≡ ok q = rw refused at h'' in absurd cc)
                  | inr (w, checked) ↦ (
                    start_query lib limit ascending w,
                    rw checked at h'',
                    resolve_filter-ends texts p.filter checked,
                    λ cursor now'. rw at_limit (rw at_order (rw checked refl)),
                  )
                ])
        ])
]

-- Where a cursor's text is not empty and reads back as the cursor, the cursor that is made after
-- any event of an accepted search is accepted with the parameters of that search, at any later
-- time: the query is the same, its window included, and goes on after that event.
pub resolve_search_resumes :
    (texts : TextLib) (lib : CursorLib)
    → ((c : Cursor) → is_empty (lib.encode c) ≡ false)
    → ((c : Cursor) → lib.decode (lib.encode c) ≡ some c)
    → (p : SearchParams) (now later : ℕ) {q : SearchQuery} (e : StoredEvent)
    → resolve_search texts lib p now ≡ ok q
    → resolve_search texts lib (record p { cursor = lib.encode (cursor_after q e) }) later
      ≡ ok (record q { after = some (cursor_after q e) })
resolve_search_resumes texts lib some_text back p now later {q} e h =
    let (q0, windowed, ends, again) = resolve_search_lem texts lib p now h in
    let (a, b, x, same, window) = resolve_window_lem lib p.cursor now q0 windowed in
    again (lib.encode (cursor_after q e)) later
    ∙ subst
        (λ q.
          resolve_window lib (lib.encode (cursor_after q e)) later q0
          ≡ ok (record q { after = some (cursor_after q e) }))
        (sym same)
        (resolve_window_again lib later q0 (cursor_after (at_query q0 x (at_window q0.query a b)) e)
          (some_text _) (back _) refl refl window)

-- The window of an accepted search is not empty, and its ends are the ones that the request gives,
-- where it gives them.
pub resolve_search_window :
    (texts : TextLib) (lib : CursorLib) (p : SearchParams) (now : ℕ) {q : SearchQuery}
    → resolve_search texts lib p now ≡ ok q
    → (q.query.from < q.query.to)
      × (same_time p.filter.from q.query.from ≡ true)
      × (same_time p.filter.to q.query.to ≡ true)
resolve_search_window texts lib p now {q} h =
    let (q0, windowed, (start, end), again) = resolve_search_lem texts lib p now h in
    let (a, b, x, same, (less, from, to)) = resolve_window_lem lib p.cursor now q0 windowed in
    subst
      (λ q.
        (q.query.from < q.query.to)
        × (same_time p.filter.from q.query.from ≡ true)
        × (same_time p.filter.to q.query.to ≡ true))
      (sym same) (ltb→lt a b less, rw start at from, rw end at to)
