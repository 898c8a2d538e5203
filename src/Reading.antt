-- ===== src/Reading.antt =====
-- backend/internal/api/search.go, counts.go and tenants.go: the handlers that read events and
-- tenants. An answer is what the store returned, before it is rendered.
pub mod Permitted
mod Tests
use loghub.Common.{
  ℕ, Bool, true, false, not, ◌&&◌, List, [], ◌∷◌, ◌++◌, Option, none, some, ◌==◌, if◌then◌else◌, ℤ,
  pos, is_positive, Bytes, is_empty, trim_space, to_lower,
}
use loghub.Errors.{Error, Result, ok, err}
use loghub.Authz.{
  Caller, Enforcer, Tenants, scopes, is_no_tenant, covers, only, deny, tenant_not_permitted,
}
use loghub.Authz.Role
use loghub.Authz.Action
use loghub.Authz.Resource
use loghub.Normalize.{is_source}
use loghub.Search.{EventFilter, TextLib, ReadScope, invalid_param}
use loghub.Search.Page.{SearchParams, CursorLib, EventPage, Read, search}
use loghub.Counts.{TopRead, Top, top}
use loghub.Counts.Timeline.{BucketRead, Timeline, timeline}

-- A row of the table of tenants.
pub record TenantRow : Type 0 where
  pub id : Bytes
  pub name : Bytes

-- What the handlers have of the server. `tenants` is `TenantRepo.List`.
pub record ReadServices : Type 0 where
  pub enforcer : Enforcer
  pub lib : TextLib
  pub cursors : CursorLib
  pub events : Read
  pub top : TopRead
  pub buckets : BucketRead
  pub tenants : Bytes → Result (List TenantRow)

-- `scopeOf`
unfoldable pub scope_of : Caller → ReadScope
scope_of c = record { tenant_id = c.tenant; is_admin = c.role == Role.admin }

-- Whether each source is blank or a known category.
unfoldable pub known_sources : TextLib → List Bytes → Bool
unfolding trim_space to_lower is_source
known_sources lib [] = true
known_sources lib (source ∷ sources) =
    let rest = known_sources lib sources in
    let v = to_lower lib.lower (trim_space source) in
    if not (is_empty v) && not (is_source v) then false else rest

-- The tenant of a filter, within what the caller may read.
unfoldable pub narrowed : Tenants → EventFilter → Result EventFilter
unfolding trim_space
narrowed readable f =
    let tenant = trim_space f.tenant in
    if not (is_empty tenant) && not (covers readable tenant)
    then err tenant_not_permitted
    else if is_empty tenant && (only readable).1
    then ok (record f { tenant = (only readable).0 })
    else ok f

-- `eventFilter`
unfoldable pub event_filter : ReadServices → Caller → List Bytes → EventFilter → Result EventFilter
unfolding scopes deny known_sources narrowed
event_filter sv c sources f =
    let readable = scopes sv.enforcer c Resource.events Action.read in
    if is_no_tenant readable
    then err (deny c)
    else if not (known_sources sv.lib sources)
    then err invalid_param
    else narrowed readable (record f { sources = f.sources ++ sources })

-- The limit of a request, where zero asks the store for the default.
abbrev pub page_limit : Option ℤ → Result ℤ
page_limit none = ok (pos 0)
page_limit (some n) = if is_positive n then ok n else err invalid_param

pub record SearchRequest : Type 0 where
  pub filter : EventFilter
  pub sources : List Bytes
  pub order : Bytes
  pub cursor : Bytes
  pub limit : Option ℤ

unfoldable pub search_limited :
    ReadServices → Caller → SearchRequest → ℕ → EventFilter → Result ℤ → Result EventPage
unfolding search scope_of
search_limited sv c p now f (err e) = err e
search_limited sv c p now f (ok n) =
    search sv.lib sv.cursors sv.events (scope_of c)
      (record { filter = f; order = p.order; limit = n; cursor = p.cursor }) now

unfoldable pub search_filtered :
    ReadServices → Caller → SearchRequest → ℕ → Result EventFilter → Result EventPage
unfolding search_limited
search_filtered sv c p now (err e) = err e
search_filtered sv c p now (ok f) = search_limited sv c p now f (page_limit p.limit)

-- `SearchEvents`
unfoldable pub search_events : ReadServices → Caller → SearchRequest → ℕ → Result EventPage
unfolding event_filter search_filtered
search_events sv c p now = search_filtered sv c p now (event_filter sv c p.sources p.filter)

pub record TopRequest : Type 0 where
  pub filter : EventFilter
  pub sources : List Bytes
  pub field : Bytes
  pub limit : Option ℤ

unfoldable pub top_asked :
    ReadServices → Caller → TopRequest → ℕ → EventFilter → Result ℤ → Result Top
unfolding top scope_of
top_asked sv c p now f (err e) = err e
top_asked sv c p now f (ok n) = top sv.lib sv.top (scope_of c) f p.field n now

unfoldable pub top_filtered :
    ReadServices → Caller → TopRequest → ℕ → Result EventFilter → Result Top
unfolding top_asked
top_filtered sv c p now (err e) = err e
top_filtered sv c p now (ok f) = top_asked sv c p now f (page_limit p.limit)

-- `TopValues`
unfoldable pub top_events : ReadServices → Caller → TopRequest → ℕ → Result Top
unfolding event_filter top_filtered
top_events sv c p now = top_filtered sv c p now (event_filter sv c p.sources p.filter)

pub record TimelineRequest : Type 0 where
  pub filter : EventFilter
  pub sources : List Bytes
  pub interval : Bytes

unfoldable pub timeline_filtered :
    ReadServices → Caller → TimelineRequest → ℕ → Result EventFilter → Result Timeline
unfolding timeline scope_of
timeline_filtered sv c p now (err e) = err e
timeline_filtered sv c p now (ok f) = timeline sv.lib sv.buckets (scope_of c) f p.interval now

-- `Timeline`
unfoldable pub timeline_events : ReadServices → Caller → TimelineRequest → ℕ → Result Timeline
unfolding event_filter timeline_filtered
timeline_events sv c p now = timeline_filtered sv c p now (event_filter sv c p.sources p.filter)

-- `ListTenants`
unfoldable pub list_tenants : ReadServices → Caller → Result (List TenantRow)
unfolding scopes deny
list_tenants sv c =
    let readable = scopes sv.enforcer c Resource.tenant_names Action.read in
    if is_no_tenant readable then err (deny c) else sv.tenants (only readable).0
