-- ===== src/Gateway/Tests.antt =====
-- The theorems on the gateway at a member of organization 3 who joins its room.
use flow_ai.Common.{ℕ, refl, true, false, Option, none, some, List, [], ◌∷◌, ◌==◌, if◌then◌else◌}
use flow_ai.Database.Rows.{rows}
use flow_ai.Redis.Entries.{server}
use flow_ai.Session.{UserRow}
use flow_ai.Tenancy.{Member, CachedMembership, membership_keys, Role, MemberStatus}
use flow_ai.TtlCache.Store.{lookup, assign}
use flow_ai.Tenancy.MembershipCache
use flow_ai.Tenancy.Guard.{is_org_member, membership_of, stored}
use flow_ai.Gateway.{Sockets, Project, ChatChannelMember, World, handle_connection, handle_join}
use flow_ai.Gateway.Rooms.{Event, connects, joins, step, run, Identified, Asked, members_reached}

abbrev member : Member
member = record {
  organization_id = 3;
  user_id = 0;
  role = Role.employee;
  status = MemberStatus.active;
  invite_email = none;
  invite_token = none;
  joined_at = none;
}

abbrev world :
    World
      (rows Member)
      (server membership_keys (Option CachedMembership))
      (rows UserRow)
      (rows Project)
      (rows ChatChannelMember)
world = record {
  members = some member ∷ [];
  cache = record { is_up = true; entries = [] };
  user_rows = some (record { is_super_admin = false; is_active = true }) ∷ [];
  project_rows = [];
  channel_rows = some (record { channel_id = 5; user_id = 0 }) ∷ [];
}

abbrev verify : ℕ → Option ℕ
verify token = if token == 9 then some 0 else none

-- Socket 1 connects with the token of user 0, and then joins.
abbrev events : List (
    Event
      (rows Member)
      (server membership_keys (Option CachedMembership))
      (rows UserRow)
      (rows Project)
      (rows ChatChannelMember)
      verify)
events = joins 1 (some 3) world ∷ connects 1 (some 9) ∷ []

abbrev sockets : Sockets
sockets =
    run (rows Member) (server membership_keys (Option CachedMembership)) (rows UserRow)
      (rows Project) (rows ChatChannelMember) verify events

members_reached_example :
    (user : ℕ) × Identified
      (rows Member)
      (server membership_keys (Option CachedMembership))
      (rows UserRow)
      (rows Project)
      (rows ChatChannelMember)
      verify
      1
      user
      events
    × Asked
        (rows Member)
        (server membership_keys (Option CachedMembership))
        (rows UserRow)
        (rows Project)
        (rows ChatChannelMember)
        verify
        1
        user
        3
        events
unfolding run step handle_connection handle_join lookup assign is_org_member membership_of stored
    MembershipCache.get
members_reached_example =
    members_reached (rows Member) (server membership_keys (Option CachedMembership)) (rows UserRow)
      (rows Project) (rows ChatChannelMember) verify events 1 3 refl
