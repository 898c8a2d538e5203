-- ===== src/Authz/Covered.antt =====
-- What may be done in the tenants that `Scopes` answers with.
use loghub.Common.{
  ◌≡◌, ◌⊎◌, refl, sym, ◌∙◌, true, false, [], inl, inr, Bytes, ℕ, bytes_eq_iff, arith,
}
use loghub.Authz.{Caller, Enforcer, Tenants, scopes, is_no_tenant, covers, only, can}
use loghub.Authz.Granted.{covers-scopes}

-- What a set of tenants that is not empty covers.
only-covers :
    (readable : Tenants) (tenant : Bytes)
    → is_no_tenant readable ≡ false
    → ((only readable).0 ≡ []) ⊎ (tenant ≡ (only readable).0)
    → covers readable tenant ≡ true
only-covers readable tenant some_tenant h = ground (arith, bytes_eq_iff tenant readable.one)

pub can-only :
    (e : Enforcer) (c : Caller) (r a : ℕ) (tenant : Bytes)
    → is_no_tenant (scopes e c r a) ≡ false
    → ((only (scopes e c r a)).0 ≡ []) ⊎ (tenant ≡ (only (scopes e c r a)).0)
    → can e c r a tenant ≡ true
can-only e c r a tenant some_tenant h =
    sym (covers-scopes e c r a tenant) ∙ only-covers (scopes e c r a) tenant some_tenant h

own_only :
    (e : Enforcer) (c : Caller) (r a : ℕ) (tenant : Bytes)
    → is_no_tenant (scopes e c r a) ≡ false
    → tenant ≡ c.tenant
    → ((scopes e c r a).all ≡ true) ⊎ (tenant ≡ (scopes e c r a).one)
unfolding scopes
own_only e c r a tenant some_tenant h = ground arith

-- The caller's own tenant is covered whenever some tenant is.
pub own_can :
    (e : Enforcer) (c : Caller) (r a : ℕ) (tenant : Bytes)
    → is_no_tenant (scopes e c r a) ≡ false
    → tenant ≡ c.tenant
    → can e c r a tenant ≡ true
own_can e c r a tenant some_tenant h =
    let readable = scopes e c r a in
    sym (covers-scopes e c r a tenant) ∙ elim (own_only e c r a tenant some_tenant h) [
      | inl every ↦ rw every refl
      | inr one ↦ only-covers readable tenant some_tenant (inr one)
    ]
