-- ===== src/Session/Tests.antt =====
-- The session theorems at a user who owns organization 5.
use flow_ai.Common.{ℕ, ◌≡◌, refl, true, false, Option, none, some, [], ◌∷◌, arith}
use flow_ai.Database.Rows.{rows}
use flow_ai.Redis.Entries.{Server, server}
use flow_ai.TtlCache
use flow_ai.TtlCache.{new}
use flow_ai.TtlCache.Store.{lookup, assign, without}
use flow_ai.Tenancy
use flow_ai.Tenancy.{
  Role, owner, active, User, Member, CachedMembership, missing_role, membership_keys,
}
use flow_ai.Tenancy.MembershipCache
use flow_ai.Tenancy.Guard
use flow_ai.Tenancy.RolesGuard
use flow_ai.Tenancy.RolesGuard.{has_role}
use flow_ai.Session.{UserRow, Process, Route, Call, rejected, served, validate, serve}
use flow_ai.Session.Roles.{roles_refuse_fresh_user, roles_leak}

abbrev row : UserRow
row = record { is_super_admin = false; is_active = true }

abbrev owner_of_5 : Member
owner_of_5 = record {
  organization_id = 5;
  user_id = 0;
  role = owner;
  status = active;
  invite_email = none;
  invite_token = none;
  joined_at = none;
}

abbrev redis_up : Server Tenancy.MembershipKey (Option CachedMembership)
redis_up = record { is_up = true; entries = [] }

process : Process
process = record { user_cache = new 30000 5000; heap = [] }

abbrev call : ℕ → ℕ → Call
call org now = record { sub = 0; now = now; header = some org; param = none; query = none }

abbrev clients_route : Route
clients_route = record { required = none; tenant = true }

abbrev delete_organization : Route
delete_organization = record { required = some (owner ∷ []); tenant = false }

abbrev as_owner : User
as_owner = record {
  id = 0;
  is_super_admin = false;
  organization_id = some 5;
  role = some owner;
  membership_id = some 0;
}

-- The owner, freshly signed in, may not delete the organization.
roles_refuse_fresh_user_example :
    (serve
      (rows Member)
      (server membership_keys (Option CachedMembership))
      (rows UserRow)
      (some row ∷ [])
      (some owner_of_5 ∷ [])
      redis_up
      delete_organization
      (call 5 0)
      process).0
    ≡ rejected missing_role
unfolding process new TtlCache.get lookup
roles_refuse_fresh_user_example =
    roles_refuse_fresh_user (rows UserRow) (rows Member)
      (server membership_keys (Option CachedMembership)) (some row ∷ []) (some owner_of_5 ∷ [])
      redis_up process row (call 5 0) refl refl refl delete_organization owner [] refl refl

-- After one request for organization 5 the user may delete organization 6.
roles_leak_example :
    (serve
      (rows Member)
      (server membership_keys (Option CachedMembership))
      (rows UserRow)
      (some row ∷ [])
      (some owner_of_5 ∷ [])
      redis_up
      delete_organization
      (call 6 1000)
      (serve
        (rows Member)
        (server membership_keys (Option CachedMembership))
        (rows UserRow)
        (some row ∷ [])
        (some owner_of_5 ∷ [])
        redis_up
        clients_route
        (call 5 0)
        process).1).0
    ≡ served as_owner
unfolding process new TtlCache.get TtlCache.set lookup assign without serve validate
    Guard.can_activate RolesGuard.can_activate has_role Guard.membership_of Guard.stored
    MembershipCache.get MembershipCache.set
roles_leak_example =
    roles_leak (rows UserRow) (rows Member) (server membership_keys (Option CachedMembership))
      (some row ∷ []) (some owner_of_5 ∷ []) redis_up process row (call 5 0) refl refl refl
      clients_route delete_organization as_owner owner [] (some row ∷ []) (some owner_of_5 ∷ [])
      redis_up (call 6 1000) refl refl refl refl refl refl refl refl (omega arith)
