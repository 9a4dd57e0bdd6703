-- ===== src/Gateway/Vouched.antt =====
-- What holds of the users of the sockets in the rooms of organizations, and what the changes of
-- the sockets leave of it.
use flow_ai.Common.{
  ℕ, ◌≡◌, refl, true, false, ◌&&◌, Option, none, some, List, [], ◌∷◌, arith, ◌==◌, if◌then◌else◌,
  Option-cases, Bool-cases, inl, inr, subst, includes,
}
use flow_ai.TtlCache.Store.{lookup, assign, lookup-assign, lookup-without}
use flow_ai.Gateway.{
  Room, user_room, org_room, same_room, Sockets, in_room, audience, left_rooms, handle_connection,
  handle_disconnect, join_room,
}

-- Each socket in a room of an organization is that of a user for whom `P` holds.
unfoldable pub Vouched : (ℕ → ℕ → ℕ → Type 0) → Sockets → Type 0
Vouched P g =
    (socket org : ℕ)
    → in_room (org_room org) socket g.rooms ≡ true
    → (user : ℕ) × (lookup socket g.connected ≡ some user) × P socket user org

pub in_room-left_rooms :
    (room : Room) (s socket : ℕ) (rooms : List (ℕ × Room))
    → in_room room s (left_rooms socket rooms)
      ≡ (if socket == s then false else in_room room s rooms)
in_room-left_rooms room s socket [] = ground arith
in_room-left_rooms room s socket ((j, q) ∷ rooms) =
    ground (arith, in_room-left_rooms room s socket rooms)

-- What holds of the other sockets after one of them has gone or is new.
abbrev pub Elsewhere : ℕ → (ℕ → ℕ → ℕ → Type 0) → ℕ → ℕ → ℕ → Type 0
Elsewhere socket P s user org = ((socket == s) ≡ false) × P s user org

pub disconnect-Vouched :
    (P : ℕ → ℕ → ℕ → Type 0) (socket : ℕ) (g : Sockets)
    → Vouched P g
    → Vouched (Elsewhere socket P) (handle_disconnect socket g)
unfolding Vouched handle_disconnect
disconnect-Vouched P socket g h s org k =
    let gone = in_room-left_rooms (org_room org) s socket g.rooms in
    let (user, e, p) = h s org (ground (arith, gone)) in
    let other : (socket == s) ≡ false = ground (arith, gone) in
    (user, ground (arith, gone, lookup-without socket s g.connected), (other, p))

-- A new connection is in the room of its user alone.
pub fresh-Vouched :
    (P : ℕ → ℕ → ℕ → Type 0) (socket user : ℕ) (g : Sockets)
    → Vouched P g
    → Vouched (Elsewhere socket P) (record {
      connected = assign socket user g.connected;
      rooms = (socket, user_room user) ∷ left_rooms socket g.rooms;
    })
unfolding Vouched
fresh-Vouched P socket user g h s org k =
    let gone = in_room-left_rooms (org_room org) s socket g.rooms in
    let (u, e, p) = h s org (ground (arith, gone)) in
    let other : (socket == s) ≡ false = ground (arith, gone) in
    (u, ground (arith, gone, lookup-assign socket s user g.connected), (other, p))

pub connect-Vouched :
    (verify : ℕ → Option ℕ) (P : ℕ → ℕ → ℕ → Type 0) (socket : ℕ) (token : Option ℕ) (g : Sockets)
    → Vouched P g
    → Vouched (Elsewhere socket P) (handle_connection verify socket token g)
unfolding handle_connection
connect-Vouched verify P socket none g h = disconnect-Vouched P socket g h
connect-Vouched verify P socket (some x) g h = elim (Option-cases (verify x)) [
  | inl e ↦ rw (e, handle_connection) (disconnect-Vouched P socket g h)
  | inr (user, e) ↦ rw (e, handle_connection) (fresh-Vouched P socket user g h)
]

-- A join of a room, which for the room of an organization `P` must allow.
pub enter-Vouched :
    (P : ℕ → ℕ → ℕ → Type 0) (socket user : ℕ) (room : Room) (g : Sockets)
    → lookup socket g.connected ≡ some user
    → ((org : ℕ) → same_room room (org_room org) ≡ true → P socket user org)
    → Vouched P g
    → Vouched P (join_room socket room g)
unfolding Vouched
enter-Vouched P socket user room g e allowed h s org k =
    elim (Bool-cases (socket == s && same_room room (org_room org))) [
      | inl here ↦
          let same : socket ≡ s = ground arith in
          (user, ground arith, subst (λ k. P k user org) same (allowed org (ground arith)))
      | inr other ↦ h s org (ground arith)
    ]

pub Vouched-more :
    (P Q : ℕ → ℕ → ℕ → Type 0) (g : Sockets)
    → ((s user org : ℕ) → P s user org → Q s user org)
    → Vouched P g
    → Vouched Q g
unfolding Vouched
Vouched-more P Q g more h s org k = let (user, e, p) = h s org k in (user, e, more s user org p)

pub gone-Vouched :
    (P : ℕ → ℕ → ℕ → Type 0) (socket : ℕ) (g : Sockets)
    → Vouched P g
    → Vouched P (handle_disconnect socket g)
gone-Vouched P socket g h =
    Vouched-more (Elsewhere socket P) P (handle_disconnect socket g) (λ s u o p. p.1)
      (disconnect-Vouched P socket g h)

pub includes-audience :
    (room : Room) (s : ℕ) (rooms : List (ℕ × Room))
    → includes s (audience room rooms) ≡ in_room room s rooms
includes-audience room s [] = refl
includes-audience room s ((j, q) ∷ rooms) = ground (arith, includes-audience room s rooms)

-- A join changes connectedClients at most by removing a socket that is not in it.
pub kept_or_gone :
    (socket s user : ℕ) (g : Sockets)
    → lookup s (handle_disconnect socket g).connected ≡ some user
    → ((socket == s) ≡ false) × (lookup s g.connected ≡ some user)
unfolding handle_disconnect
kept_or_gone socket s user g e = (
  ground (arith, lookup-without socket s g.connected),
  ground (arith, lookup-without socket s g.connected),
)
