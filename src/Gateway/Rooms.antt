-- ===== src/Gateway/Rooms.antt =====
-- Who receives what is sent to an organization.
use flow_ai.Common.{
  ℕ, ◌≡◌, refl, true, false, Option, none, some, List, [], ◌∷◌, arith, ◌==◌, Option-cases,
  Bool-cases, inl, inr, ◌⊎◌, ap, subst, includes,
}
use flow_ai.Database.{Table}
use flow_ai.Redis.{Redis}
use flow_ai.Session.{UserRow}
use flow_ai.Tenancy.{Member, CachedMembership, membership_keys}
use flow_ai.TtlCache.Store.{lookup, lookup-assign, lookup-without}
use flow_ai.Gateway.{
  org_room, project_room, channel_room, same_room, Sockets, Project, ChatChannelMember, World,
  is_member, is_channel_member, audience, handle_connection, handle_disconnect, handle_join,
  handle_join_project, handle_join_channel,
}
use flow_ai.Gateway.Vouched.{
  Vouched, disconnect-Vouched, connect-Vouched, enter-Vouched, Vouched-more, gone-Vouched,
  includes-audience, kept_or_gone,
}

module _ (t : Table Member) (r : Redis membership_keys (Option CachedMembership))
    (users : Table UserRow) (projects : Table Project) (channel_members : Table ChatChannelMember)
    (verify : ℕ → Option ℕ) where
  abbrev Around : Type 0
  Around = World t r users projects channel_members

  -- What reaches the gateway; the world is as the other requests have left it by then.
  pub data Event : Type 0 where
    connects : (socket : ℕ) (token : Option ℕ) → Event
    disconnects : (socket : ℕ) → Event
    joins : (socket : ℕ) (org : Option ℕ) → World t r users projects channel_members → Event
    joins_project : (socket project : ℕ) → World t r users projects channel_members → Event
    joins_channel : (socket channel : ℕ) → World t r users projects channel_members → Event

  unfoldable pub step : Event → Sockets → Sockets
  step (connects socket token) g = handle_connection verify socket token g
  step (disconnects socket) g = handle_disconnect socket g
  step (joins socket org w) g = (handle_join t r users projects channel_members socket org w g).2
  step (joins_project socket project w) g =
      (handle_join_project t r users projects channel_members socket project w g).2
  step (joins_channel socket channel w) g =
      (handle_join_channel t r users projects channel_members socket channel w g).1

  -- The events, the last one first.
  unfoldable pub run : List Event → Sockets
  run [] = record { connected = []; rooms = [] }
  run (e ∷ es) = step e (run es)

  -- Since the socket last connected it has asked for the room of the organization, when the user
  -- was found to be a member.
  pub Asked : (socket user org : ℕ) → List Event → Type 0
  Asked socket user org [] = ⊥
  Asked socket user org (joins k o w ∷ es) =
      ((k ≡ socket)
        × (o ≡ some org)
        × ((is_member t r users projects channel_members user org w).0 ≡ true))
      ⊎ Asked socket user org es
  Asked socket user org (connects k token ∷ es) = ((k == socket) ≡ false) × Asked socket user org es
  Asked socket user org (disconnects k ∷ es) = ((k == socket) ≡ false) × Asked socket user org es
  Asked socket user org (joins_project k project w ∷ es) = Asked socket user org es
  Asked socket user org (joins_channel k channel w ∷ es) = Asked socket user org es

  -- The socket last connected with a token of the user, and has not gone since.
  pub Identified : (socket user : ℕ) → List Event → Type 0
  Identified socket user [] = ⊥
  Identified socket user (connects k token ∷ es) =
      ((k ≡ socket) × (x : ℕ) × (token ≡ some x) × (verify x ≡ some user))
      ⊎ (((k == socket) ≡ false) × Identified socket user es)
  Identified socket user (disconnects k ∷ es) = ((k == socket) ≡ false) × Identified socket user es
  Identified socket user (joins k o w ∷ es) = Identified socket user es
  Identified socket user (joins_project k project w ∷ es) = Identified socket user es
  Identified socket user (joins_channel k channel w ∷ es) = Identified socket user es

  now_member :
      (user org i : ℕ) (w : World t r users projects channel_members)
      → (is_member t r users projects channel_members user org w).0 ≡ true
      → org ≡ i
      → (some org ≡ some i) × ((is_member t r users projects channel_members user i w).0 ≡ true)
  now_member user org i w member same = (
    ap some same,
    subst (λ j. (is_member t r users projects channel_members user j w).0 ≡ true) same member,
  )

  join-Vouched :
      (socket : ℕ) (org : Option ℕ) (w : World t r users projects channel_members) (g : Sockets)
      (es : List Event)
      → Vouched (λ s u o. Asked s u o es) g
      → Vouched
          (λ s u o. Asked s u o (joins socket org w ∷ es))
          (handle_join t r users projects channel_members socket org w g).2
  unfolding handle_join Asked
  join-Vouched socket none w g es h =
      let Now = λ (s u o : ℕ). Asked s u o (joins socket none w ∷ es) in
      let later = Vouched-more (λ s u o. Asked s u o es) Now g (λ s u o p. inr p) h in
      elim (Option-cases (lookup socket g.connected)) [
        | inl n ↦ rw (n, handle_join) (gone-Vouched Now socket g later)
        | inr (user, e) ↦ rw (e, handle_join) later
      ]
  join-Vouched socket (some o) w g es h =
      let Now = λ (s u i : ℕ). Asked s u i (joins socket (some o) w ∷ es) in
      let later = Vouched-more (λ s u i. Asked s u i es) Now g (λ s u i p. inr p) h in
      elim (Option-cases (lookup socket g.connected)) [
        | inl n ↦ rw (n, handle_join) (gone-Vouched Now socket g later)
        | inr (user, e) ↦
            elim (Bool-cases (is_member t r users projects channel_members user o w).0) [
              | inr other ↦ rw (e, other, handle_join) later
              | inl member ↦
                  let allowed : (i : ℕ)
                      → same_room (org_room o) (org_room i) ≡ true
                      → Now socket user i =
                    λ i k.
                      inl (
                        let (a, b) = now_member user o i w member (ground arith) in (refl, a, b)) in
                  rw (e, member, handle_join)
                    (enter-Vouched Now socket user (org_room o) g e allowed later)
            ]
      ]

  project-Vouched :
      (P : ℕ → ℕ → ℕ → Type 0) (socket project : ℕ) (w : World t r users projects channel_members)
      (g : Sockets)
      → Vouched P g
      → Vouched P (handle_join_project t r users projects channel_members socket project w g).2
  unfolding handle_join_project
  project-Vouched P socket project w g h = elim (Option-cases (lookup socket g.connected)) [
    | inl n ↦ rw (n, handle_join_project) (gone-Vouched P socket g h)
    | inr (user, e) ↦ elim (Option-cases (projects.find w.project_rows project)) [
      | inl n ↦ rw (e, n, handle_join_project) h
      | inr (p, f) ↦
          elim (Bool-cases
            (is_member t r users projects channel_members user p.organization_id w).0) [
              | inr other ↦ rw (e, f, other, handle_join_project) h
              | inl member ↦
                  rw (e, f, member, handle_join_project)
                    (enter-Vouched P socket user (project_room project) g e
                      (λ i k. absurd (ground arith)) h)
            ]
    ]
  ]

  channel-Vouched :
      (P : ℕ → ℕ → ℕ → Type 0) (socket channel : ℕ) (w : World t r users projects channel_members)
      (g : Sockets)
      → Vouched P g
      → Vouched P (handle_join_channel t r users projects channel_members socket channel w g).1
  unfolding handle_join_channel
  channel-Vouched P socket channel w g h = elim (Option-cases (lookup socket g.connected)) [
    | inl n ↦ rw (n, handle_join_channel) (gone-Vouched P socket g h)
    | inr (user, e) ↦
        elim (Bool-cases (is_channel_member t r users projects channel_members user channel w)) [
          | inr other ↦ rw (e, other, handle_join_channel) h
          | inl member ↦
              rw (e, member, handle_join_channel)
                (enter-Vouched P socket user (channel_room channel) g e
                  (λ i k. absurd (ground arith)) h)
        ]
  ]

  step-Vouched :
      (e : Event) (es : List Event) (g : Sockets)
      → Vouched (λ s u o. Asked s u o es) g
      → Vouched (λ s u o. Asked s u o (e ∷ es)) (step e g)
  unfolding step Asked
  step-Vouched (connects socket token) es g h =
      connect-Vouched verify (λ s u o. Asked s u o es) socket token g h
  step-Vouched (disconnects socket) es g h = disconnect-Vouched (λ s u o. Asked s u o es) socket g h
  step-Vouched (joins socket org w) es g h = join-Vouched socket org w g es h
  step-Vouched (joins_project socket project w) es g h =
      project-Vouched (λ s u o. Asked s u o es) socket project w g h
  step-Vouched (joins_channel socket channel w) es g h =
      channel-Vouched (λ s u o. Asked s u o es) socket channel w g h

  nobody : Vouched (λ s u o. Asked s u o []) (record { connected = []; rooms = [] })
  unfolding Vouched
  nobody s org k = absurd (ground arith)

  run-Vouched : (es : List Event) → Vouched (λ s u o. Asked s u o es) (run es)
  unfolding run
  run-Vouched [] = nobody
  run-Vouched (e ∷ es) = step-Vouched e es (run es) (run-Vouched es)

  connect-Identified :
      (socket : ℕ) (token : Option ℕ) (es : List Event) (g : Sockets) (s user : ℕ)
      → (lookup s g.connected ≡ some user → Identified s user es)
      → lookup s (handle_connection verify socket token g).connected ≡ some user
      → Identified s user (connects socket token ∷ es)
  unfolding handle_connection Identified
  connect-Identified socket none es g s user before h =
      let (other, e) = kept_or_gone socket s user g h in inr (other, before e)
  connect-Identified socket (some x) es g s user before h = elim (Option-cases (verify x)) [
    | inl n ↦
        let same : handle_connection verify socket (some x) g ≡ handle_disconnect socket g =
          rw (n, handle_connection) refl in
        let (other, e) =
          kept_or_gone socket s user g (subst (λ q. lookup s q.connected ≡ some user) same h) in
        inr (other, before e)
    | inr (u, f) ↦
        let stored = lookup-assign socket s u g.connected in
        elim (Bool-cases (socket == s)) [
          | inl here ↦ inl (ground arith, x, refl, ground (arith, stored))
          | inr other ↦ inr (other, before (ground (arith, stored)))
        ]
  ]

  join_connected :
      (socket s user : ℕ) (org : Option ℕ) (w : World t r users projects channel_members)
      (g : Sockets)
      → lookup s (handle_join t r users projects channel_members socket org w g).2.connected
        ≡ some user
      → lookup s g.connected ≡ some user
  unfolding handle_join handle_disconnect
  join_connected socket s user org w g h = ground (arith, lookup-without socket s g.connected)

  project_connected :
      (socket s user project : ℕ) (w : World t r users projects channel_members) (g : Sockets)
      → lookup s
          (handle_join_project t r users projects channel_members socket project w g).2.connected
        ≡ some user
      → lookup s g.connected ≡ some user
  unfolding handle_join_project handle_disconnect
  project_connected socket s user project w g h =
      ground (arith, lookup-without socket s g.connected)

  channel_connected :
      (socket s user channel : ℕ) (w : World t r users projects channel_members) (g : Sockets)
      → lookup s
          (handle_join_channel t r users projects channel_members socket channel w g).1.connected
        ≡ some user
      → lookup s g.connected ≡ some user
  unfolding handle_join_channel handle_disconnect
  channel_connected socket s user channel w g h =
      ground (arith, lookup-without socket s g.connected)

  run-Identified :
      (es : List Event) (s user : ℕ)
      → lookup s (run es).connected ≡ some user
      → Identified s user es
  unfolding run step Identified lookup
  run-Identified [] s user h = absurd (ground arith)
  run-Identified (connects socket token ∷ es) s user h =
      connect-Identified socket token es (run es) s user (run-Identified es s user) h
  run-Identified (disconnects socket ∷ es) s user h =
      let (other, e) = kept_or_gone socket s user (run es) h in (other, run-Identified es s user e)
  run-Identified (joins socket org w ∷ es) s user h =
      run-Identified es s user (join_connected socket s user org w (run es) h)
  run-Identified (joins_project socket project w ∷ es) s user h =
      run-Identified es s user (project_connected socket s user project w (run es) h)
  run-Identified (joins_channel socket channel w ∷ es) s user h =
      run-Identified es s user (channel_connected socket s user channel w (run es) h)

  -- After any events, each socket that what is sent to an organization reaches last connected with
  -- a token that the JWT library verified to be a user's, has not disconnected since, and has since
  -- asked for the room of that organization, when the test of membership found that very user to be
  -- a member.
  pub members_reached :
      (es : List Event) (socket org : ℕ)
      → includes socket (audience (org_room org) (run es).rooms) ≡ true
      → (user : ℕ) × Identified socket user es × Asked socket user org es
  unfolding Vouched
  members_reached es socket org h =
      let (user, e, asked) =
        run-Vouched es socket org
          (ground (arith, includes-audience (org_room org) socket (run es).rooms)) in
      (user, run-Identified es socket user e, asked)
