-- ===== src/Gateway.antt =====
-- src/gateway/events.gateway.ts: who is connected, the rooms of the sockets, and what is sent to
-- them. Socket.io is the rooms: a new connection is in none, and a socket that goes leaves all. The
-- token of a connection is the cookie's or else the handshake's, and `verify` is the JWT library.
pub mod Authors
pub mod Vouched
pub mod Rooms
pub mod Tests
use flow_ai.Common.{
  ℕ, Bool, true, false, ◌&&◌, ◌||◌, not, Option, none, some, List, [], ◌∷◌, ◌++◌, ◌==◌, is_some,
  or_default, if◌then◌else◌,
}
use flow_ai.Database.{Table}
use flow_ai.Redis.{Redis}
use flow_ai.Session.{UserRow}
use flow_ai.Tenancy.{Member, CachedMembership, MembershipKey, membership_keys}
use flow_ai.Tenancy.Guard
use flow_ai.TtlCache.Store.{Entries, lookup, assign, without}

pub data Room : Type 0 where
  user_room org_room project_room channel_room : ℕ → Room

abbrev pub same_room : Room → Room → Bool
same_room (user_room i) (user_room j) = i == j
same_room (org_room i) (org_room j) = i == j
same_room (project_room i) (project_room j) = i == j
same_room (channel_room i) (channel_room j) = i == j
same_room _ _ = false

-- connectedClients, and the rooms of the sockets.
pub record Sockets : Type 0 where
  pub connected : Entries ℕ
  pub rooms : List (ℕ × Room)

pub record Project : Type 0 where
  pub organization_id : ℕ

pub record ChatChannelMember : Type 0 where
  pub channel_id : ℕ
  pub user_id : ℕ

pub record ChatMessage : Type 0 where
  pub channel_id : ℕ
  pub user_id : ℕ
  pub content : ℕ

-- The answer to a join.
pub data Joined : Type 0 where
  success not_authenticated org_id_required not_a_member not_authorized : Joined

abbrev pub left_rooms : ℕ → List (ℕ × Room) → List (ℕ × Room)
left_rooms socket [] = []
left_rooms socket ((s, room) ∷ rooms) =
    let rest = left_rooms socket rooms in if s == socket then rest else (s, room) ∷ rest

abbrev pub in_room : Room → ℕ → List (ℕ × Room) → Bool
in_room room socket [] = false
in_room room socket ((s, q) ∷ rooms) =
    (s == socket && same_room q room) || in_room room socket rooms

-- The sockets that server.to(room).emit reaches.
abbrev pub audience : Room → List (ℕ × Room) → List ℕ
audience room [] = []
audience room ((s, q) ∷ rooms) =
    let rest = audience room rooms in if same_room q room then s ∷ rest else rest

-- data.limit || 50
abbrev pub limit_of : Option ℕ → ℕ
limit_of none = 50
limit_of (some n) = if n == 0 then 50 else n

abbrev pub reversed : List ChatMessage → List ChatMessage
reversed [] = []
reversed (m ∷ ms) = reversed ms ++ m ∷ []

unfoldable pub handle_disconnect : ℕ → Sockets → Sockets
handle_disconnect socket g = record {
  connected = without socket g.connected;
  rooms = left_rooms socket g.rooms;
}

abbrev pub join_room : ℕ → Room → Sockets → Sockets
join_room socket room g = record g { rooms = (socket, room) ∷ g.rooms }

unfoldable pub handle_connection : (ℕ → Option ℕ) → ℕ → Option ℕ → Sockets → Sockets
handle_connection verify socket token g =
    let fresh = left_rooms socket g.rooms in
    elim token [
      | none ↦ handle_disconnect socket g
      | some t ↦ elim (verify t) [
        | none ↦ handle_disconnect socket g
        | some user ↦ record {
          connected = assign socket user g.connected;
          rooms = (socket, user_room user) ∷ fresh;
        }
      ]
    ]

module _ (t : Table Member) (r : Redis membership_keys (Option CachedMembership))
    (users : Table UserRow) (projects : Table Project)
    (channel_members : Table ChatChannelMember) where
  -- What the handlers read besides the sockets, and the cache that they write.
  pub record World : Type 0 where
    pub members : t.State
    pub cache : r.State
    pub user_rows : users.State
    pub project_rows : projects.State
    pub channel_rows : channel_members.State

  abbrev pub is_super_admin : ℕ → World → Bool
  is_super_admin user w = elim (users.find w.user_rows user) [
    | none ↦ false
    | some u ↦ u.is_super_admin
  ]

  abbrev pub is_member : ℕ → ℕ → World → Bool × r.State
  is_member user org w =
      Guard.is_org_member t r w.members w.cache (is_super_admin user w)
        (record { org = org; user = user })

  abbrev pub is_channel_member : ℕ → ℕ → World → Bool
  is_channel_member user channel w = is_some (
      channel_members.find_first w.channel_rows
        (λ i m. m.channel_id == channel && m.user_id == user))

  unfoldable pub handle_join : ℕ → Option ℕ → World → Sockets → Joined × r.State × Sockets
  handle_join socket org_id w g = elim (lookup socket g.connected) [
    | none ↦ (not_authenticated, w.cache, handle_disconnect socket g)
    | some user ↦ elim org_id [
      | none ↦ (org_id_required, w.cache, g)
      | some org ↦
          let (member, cache) = is_member user org w in
          if member
          then (success, cache, join_room socket (org_room org) g)
          else (not_a_member, cache, g)
    ]
  ]

  unfoldable pub handle_join_project : ℕ → ℕ → World → Sockets → Joined × r.State × Sockets
  handle_join_project socket project_id w g = elim (lookup socket g.connected) [
    | none ↦ (not_authenticated, w.cache, handle_disconnect socket g)
    | some user ↦ elim (projects.find w.project_rows project_id) [
      | none ↦ (not_authorized, w.cache, g)
      | some project ↦
          let (member, cache) = is_member user project.organization_id w in
          if member
          then (success, cache, join_room socket (project_room project_id) g)
          else (not_authorized, cache, g)
    ]
  ]

  unfoldable pub handle_join_channel : ℕ → ℕ → World → Sockets → Joined × Sockets
  handle_join_channel socket channel w g = elim (lookup socket g.connected) [
    | none ↦ (not_authenticated, handle_disconnect socket g)
    | some user ↦
        if is_channel_member user channel w
        then (success, join_room socket (channel_room channel) g)
        else (not_a_member, g)
  ]

  module _ (messages : Table ChatMessage) where
    -- The message that is sent to the channel's room, if any. It goes out even when the database
    -- throws (`stores` false).
    unfoldable pub handle_chat_message :
        Bool
        → ℕ
        → (channel content : ℕ) → World
        → Sockets
        → messages.State
        → Option ChatMessage × Sockets × messages.State
    handle_chat_message stores socket channel content w g m = elim (lookup socket g.connected) [
      | none ↦ (none, handle_disconnect socket g, m)
      | some user ↦
          let message : ChatMessage = record {
            channel_id = channel;
            user_id = user;
            content = content;
          } in
          let m' = if stores then (messages.create m message).1 else m in
          if is_channel_member user channel w then (some message, g, m') else (none, g, m)
    ]

    -- `find_many` is findMany of a channel, newest first, of at most so many messages.
    unfoldable pub handle_load_history :
        (find_many : messages.State → (channel limit : ℕ) → List ChatMessage)
        → ℕ
        → ℕ
        → Option ℕ
        → World
        → Sockets
        → messages.State
        → Option (List ChatMessage) × Sockets
    handle_load_history find_many socket channel limit w g m = elim (lookup socket g.connected) [
      | none ↦ (none, handle_disconnect socket g)
      | some user ↦
          if is_channel_member user channel w
          then (some (reversed (find_many m channel (limit_of limit))), g)
          else (some [], g)
    ]
