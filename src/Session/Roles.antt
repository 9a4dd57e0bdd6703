-- ===== src/Session/Roles.antt =====
-- What the @Roles decorator of a route amounts to, given where RolesGuard finds the role.
use flow_ai.Common.{
  ℕ, ◌+◌, ◌≤◌, ◌≡◌, ◌∙◌, true, false, Option, none, some, List, [], ◌∷◌, ◌++◌, arith, length,
  get_elem?, set_elem, get_elem?-last, get_elem?-set_elem,
}
use flow_ai.Database.{Table}
use flow_ai.Redis.{Redis}
use flow_ai.TtlCache
use flow_ai.TtlCache.{TtlCache}
use flow_ai.TtlCache.Laws.{get-set, ttl_ms-get}
use flow_ai.Tenancy.{Role, User, Member, CachedMembership, missing_role, membership_keys}
use flow_ai.Tenancy.Guard
use flow_ai.Tenancy.RolesGuard
use flow_ai.Tenancy.RolesGuard.{has_role, proceed, deny}
use flow_ai.Session.{
  UserRow, Process, Route, Call, rejected, served, fresh_user, user_ttl_ms, validate, settle,
  authorise, serve,
}

settle_served :
    (t : Table Member) (r : Redis membership_keys (Option CachedMembership)) (p : Process) (ref : ℕ)
    (u : User) (v : Guard.Verdict × r.State)
    → (settle t r p ref v).0 ≡ served u
    → (settle t r p ref v).1 ≡ record p { heap = set_elem p.heap ref u }
settle_served t r p ref u (Guard.refused, c) e = ground arith
settle_served t r p ref u (Guard.forbidden d, c) e = ground arith
settle_served t r p ref u (Guard.allowed w, c) e = ground arith

-- A request of a user whose object is cached is authorised on the object as it stands.
serve_hit :
    (users : Table UserRow) (t : Table Member) (r : Redis membership_keys (Option CachedMembership))
    (accounts : users.State) (members : t.State) (cache : r.State) (route : Route) (call : Call)
    (p : Process) (ref : ℕ) (u : User) (x : Role) (xs : List Role)
    → (TtlCache.get p.user_cache call.sub call.now).0 ≡ some (some ref)
    → get_elem? p.heap ref ≡ some u
    → route.required ≡ some (x ∷ xs)
    → route.tenant ≡ false
    → has_role (x ∷ xs) u.role ≡ true
    → (serve t r users accounts members cache route call p).0 ≡ served u
unfolding serve validate RolesGuard.can_activate
serve_hit users t r accounts members cache route call p ref u x xs hit here required plain has =
    ground arith

module _ (users : Table UserRow) (t : Table Member)
    (r : Redis membership_keys (Option CachedMembership)) (accounts : users.State)
    (members : t.State) (cache : r.State) (p : Process) (row : UserRow) (call : Call)
    (known : users.find accounts call.sub ≡ some row) (active : row.is_active ≡ true)
    (miss : (TtlCache.get p.user_cache call.sub call.now).0 ≡ none) where
  -- The process after the sign-in of a user who was not in the cache.
  abbrev signed_in : Process
  signed_in = record {
    user_cache =
        TtlCache.set (TtlCache.get p.user_cache call.sub call.now).1 call.sub (some (length p.heap))
          call.now;
    heap = p.heap ++ fresh_user call.sub row ∷ [];
  }

  validate_miss : validate users accounts p call.sub call.now ≡ (some (length p.heap), signed_in)
  unfolding validate
  validate_miss = ground arith

  serve_miss :
      (route : Route)
      → serve t r users accounts members cache route call p
        ≡ authorise t r members cache route call signed_in (length p.heap) (fresh_user call.sub row)
  unfolding serve
  serve_miss route = ground (arith, validate_miss, get_elem?-last p.heap (fresh_user call.sub row))

  -- An active user whose object is not in the process's cache, and who is no super admin, is
  -- refused on every route that requires a role, whatever role the membership gives.
  pub roles_refuse_fresh_user :
      (route : Route) (x : Role) (xs : List Role)
      → row.is_super_admin ≡ false
      → route.required ≡ some (x ∷ xs)
      → (serve t r users accounts members cache route call p).0 ≡ rejected missing_role
  unfolding RolesGuard.can_activate has_role
  roles_refuse_fresh_user route x xs plain required = ground (arith, serve_miss route)

  after_open_route :
      (route : Route) (u : User)
      → route.required ≡ none
      → route.tenant ≡ true
      → (serve t r users accounts members cache route call p).0 ≡ served u
      → (serve t r users accounts members cache route call p).1
        ≡ record signed_in { heap = set_elem signed_in.heap (length p.heap) u }
  unfolding RolesGuard.can_activate
  after_open_route route u required tenant e = ground (
    arith,
    serve_miss route,
    settle_served t r signed_in (length p.heap) u (
        Guard.can_activate t r members cache (record {
          user = some (fresh_user call.sub row);
          header = call.header;
          param = call.param;
          query = call.query;
        })),
  )

  -- A role that TenantGuard found for one organization stays on the shared user object. An active
  -- user who was not in the process's cache is let in by TenantGuard; if the next request that the
  -- process serves is the same user's, within the time that the object is cached, it passes the
  -- @Roles check of every route without TenantGuard for which that role is enough, whatever
  -- organization the route is about and whatever the database and Redis then say.
  pub roles_leak :
      (open_route gated : Route) (u : User) (x : Role) (xs : List Role) (accounts' : users.State)
      (members' : t.State) (cache' : r.State) (later : Call)
      → open_route.required ≡ none
      → open_route.tenant ≡ true
      → (serve t r users accounts members cache open_route call p).0 ≡ served u
      → gated.required ≡ some (x ∷ xs)
      → gated.tenant ≡ false
      → has_role (x ∷ xs) u.role ≡ true
      → later.sub ≡ call.sub
      → p.user_cache.ttl_ms ≡ user_ttl_ms
      → later.now ≤ call.now + user_ttl_ms
      → (serve t r users accounts' members' cache' gated later
          (serve t r users accounts members cache open_route call p).1).0
        ≡ served u
  roles_leak open_route gated u x xs accounts' members' cache' later none' tenant out required plain
        has same ttl soon =
      rw (after_open_route open_route u none' tenant out) (
        serve_hit users t r accounts' members' cache' gated later _ (length p.heap) u x xs
          (rw same (
            get-set (TtlCache.get p.user_cache call.sub call.now).1 call.sub (some (length p.heap))
              call.now later.now
            ∙ ground (arith, ttl_ms-get p.user_cache call.sub call.now)))
          (get_elem?-set_elem _ (length p.heap) _ u
            (get_elem?-last p.heap (fresh_user call.sub row)))
          required plain has)
