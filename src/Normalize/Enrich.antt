-- ===== src/Normalize/Enrich.antt =====
-- backend/internal/ingest/sources.go: what a source implies and its records leave out.
use loghub.Common.{
  ◌||◌, List, [], ◌∷◌, Option, none, some, if◌then◌else◌, Bytes, codes, bytes_eq, has_prefix,
  to_lower,
}
use loghub.Event.{Event}
use loghub.Normalize.{FieldLib, lookup, set_text}
use loghub.Normalize.Builder.{Fields, JsonLib, Builder, add_tag, value, extra, or_empty}
use loghub.Normalize.AuthKind.{
  AuthKind, auth_none, login_success, login_failure, logout, guess_auth, with_outcome,
}

-- The fields that a source fills in; a text that does not fit is dropped.
unfoldable pub imply_maker : FieldLib → Bytes → Bytes → Event → Event
unfolding set_text
imply_maker lib vendor product e = record e {
  vendor = (set_text lib e.vendor vendor).0;
  product = (set_text lib e.product product).0;
}

unfoldable pub imply_type : FieldLib → Bytes → Event → Event
unfolding set_text
imply_type lib v e = record e { event_type = (set_text lib e.event_type v).0 }

unfoldable pub imply_subtype : FieldLib → Bytes → Event → Event
unfolding set_text
imply_subtype lib v e = record e { event_subtype = (set_text lib e.event_subtype v).0 }

unfoldable pub imply_action : FieldLib → Bytes → Event → Event
unfolding set_text
imply_action lib v e = record e { action = (set_text lib e.action v).0 }

abbrev pub trail_of : JsonLib → Option Bytes → Bytes × Bytes
trail_of json none = ([], [])
trail_of json (some raw) = json.read_cloud_trail raw

-- `cloudTrail`: the event's name and the outcome of a console login.
unfoldable pub cloud_trail : JsonLib → Fields → Bytes × Bytes
unfolding value
cloud_trail json fields = trail_of json (value fields (codes "raw"))

unfoldable pub aws_named : FieldLib → Bytes → Event → Event × AuthKind
unfolding bytes_eq has_prefix imply_action
aws_named lib console e =
    let name = or_empty e.event_type in
    if bytes_eq name (codes "ConsoleLogin")
    then (e, if bytes_eq console (codes "Failure") then login_failure else login_success)
    else if has_prefix name (codes "Create")
    then (imply_action lib (codes "create") e, auth_none)
    else if has_prefix name (codes "Delete")
    then (imply_action lib (codes "delete") e, auth_none)
    else (e, auth_none)

unfoldable pub from_aws : FieldLib → JsonLib → Fields → Event → Event × AuthKind
unfolding imply_maker imply_type cloud_trail aws_named
from_aws lib json fields e =
    let (name, console) = cloud_trail json fields in
    aws_named lib console
      (imply_type lib name (imply_maker lib (codes "aws") (codes "cloudtrail") e))

unfoldable pub m365_auth : Bytes → AuthKind
unfolding bytes_eq
m365_auth name =
    if bytes_eq name (codes "UserLoggedIn")
    then login_success
    else if bytes_eq name (codes "UserLoginFailed")
    then login_failure
    else auth_none

unfoldable pub from_m365 : FieldLib → JsonLib → Fields → Event → Event × AuthKind
unfolding imply_maker m365_auth with_outcome extra
from_m365 lib json fields e =
    let e' = imply_maker lib (codes "microsoft") (codes "m365") e in
    (
      e',
      with_outcome lib (m365_auth (or_empty e'.event_type))
          (extra json fields (codes "status") ∷ []),
    )

unfoldable pub ad_auth : Bytes → AuthKind
unfolding bytes_eq
ad_auth id =
    if bytes_eq id (codes "4624")
    then login_success
    else if bytes_eq id (codes "4625")
    then login_failure
    else if bytes_eq id (codes "4634") || bytes_eq id (codes "4647")
    then logout
    else auth_none

abbrev pub logon_types : List (Bytes × Bytes)
logon_types =
    (codes "2", codes "interactive")
    ∷ (codes "3", codes "network")
    ∷ (codes "4", codes "batch")
    ∷ (codes "5", codes "service")
    ∷ (codes "7", codes "unlock")
    ∷ (codes "8", codes "network_cleartext")
    ∷ (codes "9", codes "new_credentials")
    ∷ (codes "10", codes "remote_interactive")
    ∷ (codes "11", codes "cached_interactive")
    ∷ []

unfoldable pub from_ad : FieldLib → JsonLib → Fields → Event → Event × AuthKind
unfolding imply_maker imply_subtype ad_auth lookup extra
from_ad lib json fields e = (
  imply_subtype lib (or_empty (lookup (extra json fields (codes "logon_type")) logon_types))
      (imply_maker lib (codes "microsoft") (codes "windows") e),
  ad_auth (extra json fields (codes "event_id")),
)

unfoldable pub from_api : FieldLib → JsonLib → Fields → Event → Event × AuthKind
unfolding guess_auth with_outcome extra
from_api lib json fields e = (
  e,
  with_outcome lib (guess_auth (or_empty e.event_type))
      (extra json fields (codes "status") ∷ extra json fields (codes "outcome") ∷ []),
)

-- The switch over the source.
unfoldable pub of_source : FieldLib → JsonLib → Fields → Event → Event × AuthKind
unfolding bytes_eq imply_maker imply_type from_aws from_m365 from_ad from_api
of_source lib json fields e =
    if bytes_eq e.source (codes "crowdstrike")
    then (imply_maker lib (codes "crowdstrike") (codes "falcon") e, auth_none)
    else if bytes_eq e.source (codes "aws")
    then from_aws lib json fields e
    else if bytes_eq e.source (codes "m365")
    then from_m365 lib json fields e
    else if bytes_eq e.source (codes "ad")
    then from_ad lib json fields e
    else if bytes_eq e.source (codes "api")
    then from_api lib json fields e
    else if bytes_eq e.source (codes "firewall")
    then (imply_type lib (codes "traffic") e, auth_none)
    else if bytes_eq e.source (codes "network")
    then (imply_type lib (codes "syslog") e, auth_none)
    else (e, auth_none)

unfoldable pub tag_auth : FieldLib → Builder → Event × AuthKind → Builder
unfolding imply_action
tag_auth lib b (e, auth_none) = record b { ev = e }
tag_auth lib b (e, login_success) =
    add_tag (record b { ev = imply_action lib (codes "login") e }) (codes "auth_success")
tag_auth lib b (e, login_failure) =
    add_tag (record b { ev = imply_action lib (codes "login") e }) (codes "auth_failure")
tag_auth lib b (e, logout) = record b { ev = imply_action lib (codes "logout") e }

unfoldable pub enrich : FieldLib → JsonLib → Builder → Builder
unfolding of_source tag_auth
enrich lib json b = tag_auth lib b (of_source lib json b.fields b.ev)

abbrev pub action_synonyms : List (Bytes × Bytes)
action_synonyms =
    (codes "drop", codes "deny")
    ∷ (codes "dropped", codes "deny")
    ∷ (codes "block", codes "deny")
    ∷ (codes "blocked", codes "deny")
    ∷ (codes "reject", codes "deny")
    ∷ (codes "rejected", codes "deny")
    ∷ (codes "denied", codes "deny")
    ∷ (codes "accept", codes "allow")
    ∷ (codes "accepted", codes "allow")
    ∷ (codes "permit", codes "allow")
    ∷ (codes "permitted", codes "allow")
    ∷ (codes "pass", codes "allow")
    ∷ (codes "allowed", codes "allow")
    ∷ (codes "logon", codes "login")
    ∷ (codes "logoff", codes "logout")
    ∷ []

abbrev pub or_same : Bytes → Option Bytes → Bytes
or_same a none = a
or_same a (some s) = s

unfoldable pub folded_action : Bytes → Bytes
unfolding lookup
folded_action a = or_same a (lookup a action_synonyms)

unfoldable pub normalize_action : FieldLib → Option Bytes → Option Bytes
unfolding folded_action to_lower
normalize_action lib none = none
normalize_action lib (some a) = some (folded_action (to_lower lib.lower a))
