-- ===== src/Reading/Tests.antt =====
-- Runs of the page_read handlers, and each theorem about them at a concrete request of a acme_viewer.
use loghub.Common.{
  ◌*◌, ◌≡◌, ◌⊎◌, refl, sym, true, List, [], ◌∷◌, none, some, inl, inr, if◌then◌else◌, pos, Bytes,
  codes, bytes_eq, bytes_eq_iff, Bool-cases, All,
}
use loghub.Errors.{ok, err, ok_value}
use loghub.Authz.{Caller, can, tenant_not_permitted}
use loghub.Authz.Role
use loghub.Authz.Action
use loghub.Authz.Resource
use loghub.Authz.Rules.{enforcer, new-policies}
use loghub.Normalize.Builder.{empty_event}
use loghub.Search.{hour, EventFilter, ReadScope}
use loghub.Search.Page.{StoredEvent, EventPage}
use loghub.Reading.{ReadServices, SearchRequest, TenantRow, search_events, list_tenants}
use loghub.Reading.Permitted.{Secures, MayRead, search_events-MayRead, list_tenants-can}

abbrev acme_viewer : Caller
acme_viewer = record { role = Role.viewer; tenant = codes "acme"; user_id = pos 7 }

abbrev row : StoredEvent
row = record {
  id = pos 1;
  received_at = 99 * hour;
  event = record empty_event { tenant_id = codes "acme" };
}

abbrev rows_in : ReadScope → List StoredEvent
rows_in scope = if bytes_eq scope.tenant_id (codes "acme") then row ∷ [] else []

abbrev tenant_row : Bytes → TenantRow
tenant_row id = record { id = id; name = codes "Tenant" }

abbrev listed : Bytes → List TenantRow
listed [] = tenant_row (codes "acme") ∷ tenant_row (codes "globex") ∷ []
listed (c ∷ asked) = tenant_row (c ∷ asked) ∷ []

abbrev services : ReadServices
services = record {
  enforcer = enforcer;
  lib = record { valid_string = λ s. true; lower = λ s. s; parse_addr = λ s. some s };
  cursors = record {
    encode = λ c. c.filter;
    decode = λ s. none;
    filter_hash = λ ascending f addr. f.tenant;
  };
  events = λ scope q. ok (rows_in scope);
  top = λ scope q. ok [];
  buckets = λ scope q. ok [];
  tenants = λ asked. ok (listed asked);
}

abbrev no_filter : EventFilter
no_filter = record {
  tenant = [];
  from = none;
  to = none;
  sources = [];
  event_type = [];
  action = [];
  severity_min = none;
  severity_max = none;
  src_ip = [];
  user = [];
  host = [];
  tags = [];
  query = [];
}

abbrev request : SearchRequest
request = record {
  filter = no_filter;
  sources = codes " firewall" ∷ codes " " ∷ [];
  order = [];
  cursor = [];
  limit = some (pos 10);
}

abbrev page : EventPage
page = record { events = row ∷ []; next_cursor = [] }

page_read : search_events services acme_viewer request (100 * hour) ≡ ok page
unfolding search_events loghub.Authz.has_grant
page_read = refl

refused :
    search_events services acme_viewer
      (record request { filter = record no_filter { tenant = codes "globex" } })
      (100 * hour)
    ≡ err tenant_not_permitted
unfolding search_events loghub.Authz.has_grant
refused = refl

rows_in-own :
    (scope : ReadScope)
    → All (λ (e : StoredEvent). e.event.tenant_id ≡ scope.tenant_id) (rows_in scope)
rows_in-own scope = elim (Bool-cases (bytes_eq scope.tenant_id (codes "acme"))) [
  | inl own ↦ rw own (sym ((bytes_eq_iff scope.tenant_id (codes "acme")).0 own), tt)
  | inr other ↦ rw other tt
]

secured : Secures services.events
secured scope q rows h = inr (rw (sym (ok_value h)) (rows_in-own scope))

search_events-MayRead_example : All (MayRead enforcer acme_viewer) page.events
search_events-MayRead_example =
    search_events-MayRead services acme_viewer request (100 * hour) new-policies secured page_read

only_asked :
    (asked : Bytes) (rows : List TenantRow)
    → services.tenants asked ≡ ok rows
    → (asked ≡ []) ⊎ All (λ (t : TenantRow). t.id ≡ asked) rows
only_asked [] rows h = inl refl
only_asked (c ∷ asked) rows h = inr (rw (sym (ok_value h)) (refl, tt))

list_tenants-can_example :
    All
      (λ (t : TenantRow). can enforcer acme_viewer Resource.tenant_names Action.read t.id ≡ true)
      (tenant_row (codes "acme") ∷ [])
unfolding list_tenants loghub.Authz.has_grant
list_tenants-can_example = list_tenants-can services acme_viewer only_asked refl
