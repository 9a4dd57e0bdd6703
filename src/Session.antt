-- ===== src/Session.antt =====
-- How a request is authenticated and authorised, from the verified token to the handler:
-- src/modules/auth/strategies/jwt.strategy.ts, then the global RolesGuard (src/app.module.ts),
-- then TenantGuard on the controllers that have it.
-- The user object that `validate` returns is the one in the process-wide cache: the request and
-- the cache share it, and TenantGuard assigns to its fields. So the objects stand on a heap.
pub mod Roles
pub mod Tests
use flow_ai.Common.{
  ℕ, Bool, true, false, ◌&&◌, Option, none, some, List, [], ◌∷◌, ◌++◌, if◌then◌else◌, length,
  get_elem?, set_elem,
}
use flow_ai.Database.{Table}
use flow_ai.Redis.{Redis}
use flow_ai.TtlCache
use flow_ai.TtlCache.{TtlCache}
use flow_ai.Tenancy.{
  Role, User, Member, CachedMembership, Denial, not_authenticated, membership_keys,
}
use flow_ai.Tenancy.Guard
use flow_ai.Tenancy.RolesGuard
use flow_ai.Tenancy.RolesGuard.{proceed, deny}

-- The columns of a user that `validate` selects and the guards read.
pub record UserRow : Type 0 where
  pub is_super_admin : Bool
  pub is_active : Bool

-- `userCache` holds references, `null` for a user who may not sign in; 30 seconds.
abbrev pub user_ttl_ms : ℕ
user_ttl_ms = 30000

pub record Process : Type 0 where
  pub user_cache : TtlCache (Option ℕ)
  pub heap : List User

-- A route: the list of its @Roles decorator, and whether its controller uses TenantGuard.
pub record Route : Type 0 where
  pub required : Option (List Role)
  pub tenant : Bool

pub record Call : Type 0 where
  pub sub : ℕ
  pub now : ℕ
  pub header : Option ℕ
  pub param : Option ℕ
  pub query : Option ℕ

pub data Outcome : Type 0 where
  unauthenticated : Outcome
  rejected : Denial → Outcome
  served : User → Outcome

-- The object that a row of the database becomes: it names no role and no organization.
abbrev pub fresh_user : ℕ → UserRow → User
fresh_user sub row = record {
  id = sub;
  is_super_admin = row.is_super_admin;
  organization_id = none;
  role = none;
  membership_id = none;
}

abbrev pub sign_in : Process → ℕ → ℕ → Option UserRow → Option ℕ × Process
sign_in p sub now none = (none, record p { user_cache = TtlCache.set p.user_cache sub none now })
sign_in p sub now (some row) =
    if row.is_active
    then (
      some (length p.heap),
      record {
        user_cache = TtlCache.set p.user_cache sub (some (length p.heap)) now;
        heap = p.heap ++ fresh_user sub row ∷ [];
      },
    )
    else (none, record p { user_cache = TtlCache.set p.user_cache sub none now })

module _ (users : Table UserRow) where
  -- JwtStrategy.validate: a reference to the user object, or null.
  pub validate : users.State → Process → ℕ → ℕ → Option ℕ × Process
  validate accounts p sub now =
      let (hit, cache) = TtlCache.get p.user_cache sub now in
      elim hit [
        | some ref ↦ (ref, record p { user_cache = cache })
        | none ↦ sign_in (record p { user_cache = cache }) sub now (users.find accounts sub)
      ]

module _ (t : Table Member) (r : Redis membership_keys (Option CachedMembership)) where
  -- What TenantGuard assigns is seen by all who hold the reference.
  abbrev pub settle : Process → ℕ → Guard.Verdict × r.State → Outcome × Process × r.State
  settle p ref (Guard.refused, cache) = (rejected not_authenticated, p, cache)
  settle p ref (Guard.forbidden d, cache) = (rejected d, p, cache)
  settle p ref (Guard.allowed u, cache) =
      (served u, record p { heap = set_elem p.heap ref u }, cache)

  abbrev pub authorise :
      t.State → r.State → Route → Call → Process → ℕ → User → Outcome × Process × r.State
  authorise members cache route call p ref u =
      elim (RolesGuard.can_activate route.required (some u)) [
        | deny d ↦ (rejected d, p, cache)
        | proceed ↦
            if route.tenant
            then settle p ref (
                Guard.can_activate t r members cache (record {
                  user = some u;
                  header = call.header;
                  param = call.param;
                  query = call.query;
                }))
            else (served u, p, cache)
      ]

  module _ (users : Table UserRow) where
    -- The guards of one request, up to its handler.
    pub serve :
        users.State → t.State → r.State → Route → Call → Process → Outcome × Process × r.State
    serve accounts members cache route call p =
        let (found, p') = validate users accounts p call.sub call.now in
        elim found [
          | none ↦ (unauthenticated, p', cache)
          | some ref ↦ elim (get_elem? p'.heap ref) [
            | none ↦ (unauthenticated, p', cache)
            | some u ↦ authorise members cache route call p' ref u
          ]
        ]
