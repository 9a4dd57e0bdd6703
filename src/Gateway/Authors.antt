-- ===== src/Gateway/Authors.antt =====
-- Who is the author of a chat message.
use flow_ai.Common.{
  ℕ, ◌≡◌, refl, Bool, true, Option, none, some, if◌then◌else◌, Option-cases, Bool-cases, inl, inr,
  ◌⊎◌,
}
use flow_ai.Database.{Table}
use flow_ai.Redis.{Redis}
use flow_ai.Session.{UserRow}
use flow_ai.Tenancy.{Member, CachedMembership, membership_keys}
use flow_ai.TtlCache.Store.{lookup}
use flow_ai.Gateway.{
  Sockets, Project, ChatChannelMember, ChatMessage, World, is_channel_member, handle_chat_message,
}

module _ (t : Table Member) (r : Redis membership_keys (Option CachedMembership))
    (users : Table UserRow) (projects : Table Project)
    (channel_members : Table ChatChannelMember) where
  -- A chat message is sent to its channel, and stored, only in the name of the user of its socket's
  -- connection, and only if that user is a member of the channel; otherwise nothing is stored.
  pub author_is_connected :
      (messages : Table ChatMessage) (stores : Bool) (socket channel content : ℕ)
      (w : World t r users projects channel_members) (g : Sockets) (m : messages.State)
      → let (sent, g', m') =
          handle_chat_message t r users projects channel_members messages stores socket channel
            content w g m in
        ((sent ≡ none) × (m' ≡ m))
        ⊎ ((user : ℕ) × (message : ChatMessage) × (sent ≡ some message)
            × (message ≡ record { channel_id = channel; user_id = user; content = content })
            × (lookup socket g.connected ≡ some user)
            × (is_channel_member t r users projects channel_members user channel w ≡ true)
            × (m' ≡ (if stores then (messages.create m message).1 else m)))
  unfolding handle_chat_message
  author_is_connected messages stores socket channel content w g m =
      elim (Option-cases (lookup socket g.connected)) [
        | inl n ↦ rw (n, handle_chat_message) (inl (refl, refl))
        | inr (user, e) ↦
            elim (Bool-cases
              (is_channel_member t r users projects channel_members user channel w)) [
                | inr other ↦ rw (e, other, handle_chat_message) (inl (refl, refl))
                | inl member ↦
                    rw (e, member, handle_chat_message)
                      (inr (user, _, refl, refl, refl, member, refl))
              ]
      ]
