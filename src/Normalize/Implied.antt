-- ===== src/Normalize/Implied.antt =====
-- What a source implies keeps the event within the bounds, and its tenant and source.
use loghub.Common.{ℕ, Bool, true, false, arith, if◌then◌else◌, Bytes, codes, bytes_eq, has_prefix}
use loghub.Event.{Event}
use loghub.Normalize.{FieldLib}
use loghub.Normalize.Builder.{Fields, JsonLib, Builder, or_empty}
use loghub.Normalize.AuthKind.{AuthKind, auth_none, login_success, login_failure, logout}
use loghub.Normalize.Enrich.{
  imply_maker, imply_type, imply_subtype, imply_action, cloud_trail, aws_named, from_aws, from_m365,
  from_ad, from_api, of_source, tag_auth, enrich,
}
use loghub.Normalize.Bounds.{IsEventOf, set_text-TextFits}

module _ (lib : FieldLib) (t s : Bytes) (w : ℕ) where
  imply_maker-IsEventOf :
      (vendor product : Bytes) (e : Event)
      → IsEventOf t s w e
      → IsEventOf t s w (imply_maker lib vendor product e)
  unfolding imply_maker
  imply_maker-IsEventOf vendor product e h =
      let p = set_text-TextFits lib e.vendor vendor h.bounded.vendor in
      let q = set_text-TextFits lib e.product product h.bounded.product in ground arith

  imply_type-IsEventOf :
      (v : Bytes) (e : Event) → IsEventOf t s w e → IsEventOf t s w (imply_type lib v e)
  unfolding imply_type
  imply_type-IsEventOf v e h =
      let p = set_text-TextFits lib e.event_type v h.bounded.event_type in ground arith

  imply_subtype-IsEventOf :
      (v : Bytes) (e : Event) → IsEventOf t s w e → IsEventOf t s w (imply_subtype lib v e)
  unfolding imply_subtype
  imply_subtype-IsEventOf v e h =
      let p = set_text-TextFits lib e.event_subtype v h.bounded.event_subtype in ground arith

  imply_action-IsEventOf :
      (v : Bytes) (e : Event) → IsEventOf t s w e → IsEventOf t s w (imply_action lib v e)
  unfolding imply_action
  imply_action-IsEventOf v e h = ground arith

  abbrev Fine : Event × AuthKind → Type 0
  Fine r = IsEventOf t s w r.0

  -- Both branches of a test.
  if-Fine : (b : Bool) (x y : Event × AuthKind) → Fine x → Fine y → Fine (if b then x else y)
  if-Fine true x y h k = h
  if-Fine false x y h k = k

  aws_named-Fine :
      (console : Bytes) (e : Event) → IsEventOf t s w e → Fine (aws_named lib console e)
  unfolding aws_named
  aws_named-Fine console e h =
      let name = or_empty e.event_type in
      if-Fine (bytes_eq name (codes "ConsoleLogin")) _ _ h (
        if-Fine (has_prefix name (codes "Create")) _ _ (imply_action-IsEventOf (codes "create") e h)
          (if-Fine (has_prefix name (codes "Delete")) _ _
            (imply_action-IsEventOf (codes "delete") e h) h))

  of_source-Fine :
      (json : JsonLib) (fields : Fields) (e : Event)
      → IsEventOf t s w e
      → Fine (of_source lib json fields e)
  unfolding of_source from_aws from_m365 from_ad from_api
  of_source-Fine json fields e h =
      let maker = λ (vendor product : Bytes). imply_maker-IsEventOf vendor product e h in
      if-Fine (bytes_eq e.source (codes "crowdstrike")) _ _
        (maker (codes "crowdstrike") (codes "falcon"))
        (if-Fine (bytes_eq e.source (codes "aws")) _ _
          (aws_named-Fine (cloud_trail json fields).1 _ (
            imply_type-IsEventOf (cloud_trail json fields).0 _
              (maker (codes "aws") (codes "cloudtrail"))))
          (if-Fine (bytes_eq e.source (codes "m365")) _ _ (maker (codes "microsoft") (codes "m365"))
            (if-Fine (bytes_eq e.source (codes "ad")) _ _
              (imply_subtype-IsEventOf _ _ (maker (codes "microsoft") (codes "windows")))
              (if-Fine (bytes_eq e.source (codes "api")) _ _ h (
                if-Fine (bytes_eq e.source (codes "firewall")) _ _
                  (imply_type-IsEventOf (codes "traffic") e h)
                  (if-Fine (bytes_eq e.source (codes "network")) _ _
                    (imply_type-IsEventOf (codes "syslog") e h) h))))))

  tag_auth-IsEventOf :
      (b : Builder) (r : Event × AuthKind) → Fine r → IsEventOf t s w (tag_auth lib b r).ev
  unfolding tag_auth
  tag_auth-IsEventOf b (e, auth_none) h = h
  tag_auth-IsEventOf b (e, login_success) h = imply_action-IsEventOf (codes "login") e h
  tag_auth-IsEventOf b (e, login_failure) h = imply_action-IsEventOf (codes "login") e h
  tag_auth-IsEventOf b (e, logout) h = imply_action-IsEventOf (codes "logout") e h

  pub enrich-IsEventOf :
      (json : JsonLib) (b : Builder) → IsEventOf t s w b.ev → IsEventOf t s w (enrich lib json b).ev
  unfolding enrich
  enrich-IsEventOf json b h =
      tag_auth-IsEventOf b (of_source lib json b.fields b.ev) (of_source-Fine json b.fields b.ev h)
