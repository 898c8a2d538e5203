-- ===== src/Reading/Permitted.antt =====
-- What the read handlers answer is what the caller may read.
use mathlib.Core.Path.{subst}
use loghub.Common.{
  ℕ, ◌≡◌, ◌⊎◌, refl, sym, true, false, Bool-cases, List, [], ◌∷◌, inl, inr, ==_iff, ℤ, Bytes,
  length, ltb, All, All-every, All-take,
}
use loghub.Errors.{Result, ok, err, not_ok, ok_value}
use loghub.Authz.{Caller, Enforcer, scopes, is_no_tenant, only, deny, can, built, new}
use loghub.Authz.Role
use loghub.Authz.Action
use loghub.Authz.Resource
use loghub.Authz.Covered.{can-only, own_can}
use loghub.Authz.Rules.{policies, read_events_iff}
use loghub.Search.{EventFilter, ReadScope}
use loghub.Search.Page.{
  SearchParams, SearchQuery, EventPage, StoredEvent, Read, search, read_page, page_of, run,
  statement, resolve_search,
}
use loghub.Search.{scoped_to}
use loghub.Reading.{
  ReadServices, SearchRequest, TenantRow, scope_of, event_filter, page_limit, search_limited,
  search_filtered, search_events, list_tenants,
}

All-only :
    (asked : Bytes) (P : Bytes → Type 0) (rows : List TenantRow)
    → P asked
    → All (λ (t : TenantRow). t.id ≡ asked) rows
    → All (λ (t : TenantRow). P t.id) rows
All-only asked P [] p h = tt
All-only asked P (t ∷ rows) p (h, hs) = (subst P (sym h) p, All-only asked P rows p hs)

-- The tenants listed are ones whose name the caller may read, where the store lists only the tenant
-- that it is asked for.
pub list_tenants-can :
    (sv : ReadServices) (c : Caller) {rows : List TenantRow}
    → ((asked : Bytes) (rows : List TenantRow)
        → sv.tenants asked ≡ ok rows
        → (asked ≡ []) ⊎ All (λ (t : TenantRow). t.id ≡ asked) rows)
    → list_tenants sv c ≡ ok rows
    → All (λ (t : TenantRow). can sv.enforcer c Resource.tenant_names Action.read t.id ≡ true) rows
unfolding list_tenants
list_tenants-can sv c {rows} lists h =
    let readable = scopes sv.enforcer c Resource.tenant_names Action.read in
    let may =
      λ (tenant : Bytes). can sv.enforcer c Resource.tenant_names Action.read tenant ≡ true in
    elim (Bool-cases (is_no_tenant readable)) [
      | inl refused ↦ absurd (not_ok (deny c) {a = rows} (rw refused at h))
      | inr fine ↦
          (let listed : sv.tenants (only readable).0 ≡ ok rows = rw fine at h in
            elim (lists (only readable).0 rows listed) [
              | inl every ↦
                  All-every (λ (t : TenantRow). may t.id) rows
                    (λ t. can-only sv.enforcer c _ _ t.id fine (inl every))
              | inr one ↦
                  All-only (only readable).0 may rows
                    (can-only sv.enforcer c _ _ (only readable).0 fine (inr refl)) one
            ])
    ]

-- What row-level security promises of the rows read in a scope.
abbrev pub Secures : Read → Type 0
Secures read =
    (scope : ReadScope) (q : SearchQuery) (rows : List StoredEvent)
    → read scope (statement q) ≡ ok rows
    → (scope.is_admin ≡ true) ⊎ All (λ (e : StoredEvent). e.event.tenant_id ≡ scope.tenant_id) rows

-- An event that the caller may read.
abbrev pub MayRead : Enforcer → Caller → StoredEvent → Type 0
MayRead e c ev = can e c Resource.events Action.read ev.event.tenant_id ≡ true

event_filter-some :
    (sv : ReadServices) (c : Caller) (sources : List Bytes) (f : EventFilter) {f' : EventFilter}
    → event_filter sv c sources f ≡ ok f'
    → is_no_tenant (scopes sv.enforcer c Resource.events Action.read) ≡ false
unfolding event_filter
event_filter-some sv c sources f {f'} h =
    elim (Bool-cases (is_no_tenant (scopes sv.enforcer c Resource.events Action.read))) [
      | inl refused ↦ absurd (not_ok (deny c) {a = f'} (rw refused at h))
      | inr fine ↦ fine
    ]

page_of-All :
    (P : StoredEvent → Type 0) (sv : ReadServices) (q : SearchQuery) (rows : List StoredEvent)
    → All P rows
    → All P (page_of sv.cursors q rows).events
unfolding page_of
page_of-All P sv q rows h = elim (Bool-cases (ltb q.limit (length rows))) [
  | inl more ↦ rw more (All-take P q.limit rows h)
  | inr all ↦ rw all h
]

search-read :
    (sv : ReadServices) (scope : ReadScope) (p : SearchParams) (now : ℕ) {page : EventPage}
    → search sv.lib sv.cursors sv.events scope p now ≡ ok page
    → (q : SearchQuery) × (rows : List StoredEvent) × (sv.events scope (statement q) ≡ ok rows)
      × (page_of sv.cursors q rows ≡ page)
unfolding search
search-read sv scope p now h =
    run-read (resolve_search sv.lib sv.cursors (record p { filter = scoped_to p.filter scope }) now)
      h
  where
    page-read :
        (q : SearchQuery) (r : Result (List StoredEvent)) {page : EventPage}
        → read_page sv.cursors q r ≡ ok page
        → (rows : List StoredEvent) × (r ≡ ok rows) × (page_of sv.cursors q rows ≡ page)
    page-read q (err e) h = absurd (not_ok e h)
    page-read q (ok rows) h = (rows, refl, ok_value h)

    run-read :
        (r : Result SearchQuery) {page : EventPage}
        → run sv.cursors sv.events scope r ≡ ok page
        → (q : SearchQuery) × (rows : List StoredEvent) × (sv.events scope (statement q) ≡ ok rows)
          × (page_of sv.cursors q rows ≡ page)
    run-read (err e) h = absurd (not_ok e h)
    run-read (ok q) h =
        (let (rows, read, same) = page-read q (sv.events scope (statement q)) h in
          (q, rows, read, same))

search_limited-ok :
    (sv : ReadServices) (c : Caller) (p : SearchRequest) (now : ℕ) (f : EventFilter) (n : Result ℤ)
    {page : EventPage}
    → search_limited sv c p now f n ≡ ok page
    → (q : SearchQuery) × (rows : List StoredEvent) × (sv.events (scope_of c) (statement q)
        ≡ ok rows)
      × (page_of sv.cursors q rows ≡ page)
unfolding search_limited scope_of
search_limited-ok sv c p now f (err e) h = absurd (not_ok e h)
search_limited-ok sv c p now f (ok n) h =
    search-read sv (scope_of c)
      (record { filter = f; order = p.order; limit = n; cursor = p.cursor }) now h

search_events-ok :
    (sv : ReadServices) (c : Caller) (p : SearchRequest) (now : ℕ) {page : EventPage}
    → search_events sv c p now ≡ ok page
    → (is_no_tenant (scopes sv.enforcer c Resource.events Action.read) ≡ false)
      × ((q : SearchQuery) × (rows : List StoredEvent) × (sv.events (scope_of c) (statement q)
            ≡ ok rows)
          × (page_of sv.cursors q rows ≡ page))
unfolding search_events search_filtered
search_events-ok sv c p now {page} h = filtered-ok (event_filter sv c p.sources p.filter) refl h
  where
    filtered-ok :
        (r : Result EventFilter)
        → event_filter sv c p.sources p.filter ≡ r
        → search_filtered sv c p now r ≡ ok page
        → (is_no_tenant (scopes sv.enforcer c Resource.events Action.read) ≡ false)
          × ((q : SearchQuery) × (rows : List StoredEvent) × (sv.events (scope_of c) (statement q)
                ≡ ok rows)
              × (page_of sv.cursors q rows ≡ page))
    filtered-ok (err e) known h = absurd (not_ok e h)
    filtered-ok (ok f) known h = (
      event_filter-some sv c p.sources p.filter known,
      search_limited-ok sv c p now f (page_limit p.limit) h,
    )

-- Under the compiled policies, every event on a page that a search answers with is one that the
-- caller may read, where row-level security shows no one but an admin another tenant's events.
pub search_events-MayRead :
    (sv : ReadServices) (c : Caller) (p : SearchRequest) (now : ℕ) {page : EventPage}
    → new policies ≡ built sv.enforcer
    → Secures sv.events
    → search_events sv c p now ≡ ok page
    → All (MayRead sv.enforcer c) page.events
unfolding scope_of
search_events-MayRead sv c p now {page} compiled secures h =
    let (fine, (q, rows, read, same)) = search_events-ok sv c p now h in
    subst (λ (out : EventPage). All (MayRead sv.enforcer c) out.events) same
      (page_of-All (MayRead sv.enforcer c) sv q rows (elim (secures (scope_of c) q rows read) [
        | inl is_admin ↦ All-every (MayRead sv.enforcer c) rows (λ ev.
            (read_events_iff c ev.event.tenant_id compiled).1
              (inl ((==_iff c.role Role.admin).0 is_admin)))
        | inr own ↦ All-own rows fine own
      ]))
  where
    All-own :
        (rows : List StoredEvent)
        → is_no_tenant (scopes sv.enforcer c Resource.events Action.read) ≡ false
        → All (λ (e : StoredEvent). e.event.tenant_id ≡ c.tenant) rows
        → All (MayRead sv.enforcer c) rows
    All-own [] fine h = tt
    All-own (ev ∷ rows) fine (h, hs) = (
      own_can sv.enforcer c Resource.events Action.read ev.event.tenant_id fine h,
      All-own rows fine hs,
    )
