-- ===== src/Tenancy/Organizations.antt =====
-- The member operations of src/modules/organizations/organizations.service.ts. Each is a
-- function of the stored members, the users and the shared cache, in the order of the calls.
pub mod Keeps
pub mod Joins
pub mod History
use flow_ai.Common.{
  ℕ, Bool, true, false, ◌&&◌, ◌==◌, Option, none, some, if◌then◌else◌, is_some, Result, ok, failed,
  not_found, conflict, forbidden,
}
use flow_ai.Database.{Table}
use flow_ai.Redis.{Redis}
use flow_ai.Tenancy.{
  Role, owner, Member, MemberStatus, active, invited, CachedMembership, MembershipKey,
  membership_keys,
}
use flow_ai.Tenancy.MembershipCache
use flow_ai.Tenancy.Guard.{held_by}

-- The columns of a user that an invitation reads and writes.
pub record Account : Type 0 where
  pub email : ℕ
  pub first_name : ℕ
  pub last_name : ℕ

pub record InviteDto : Type 0 where
  pub email : ℕ
  pub role : Role

abbrev pub has_token : ℕ → ℕ → Member → Bool
has_token token _ m = elim m.invite_token [ none ↦ false | some t ↦ t == token ]

abbrev pub is_owner : Role → Bool
is_owner owner = true
is_owner _ = false

abbrev pub is_invited : MemberStatus → Bool
is_invited invited = true
is_invited _ = false

abbrev pub in_org : ℕ → ℕ → ℕ → Member → Bool
in_org org id i m = i == id && m.organization_id == org

-- The rows that the operations add.
abbrev pub active_member : ℕ → ℕ → Role → ℕ → Member
active_member org user role now = record {
  organization_id = org;
  user_id = user;
  role = role;
  status = active;
  invite_email = none;
  invite_token = none;
  joined_at = some now;
}

abbrev pub invited_member : ℕ → ℕ → Role → ℕ → ℕ → Member
invited_member org user role email token = record {
  organization_id = org;
  user_id = user;
  role = role;
  status = invited;
  invite_email = some email;
  invite_token = some token;
  joined_at = none;
}

-- The update of an accepted invitation.
abbrev pub joined : ℕ → ℕ → Member → Member
joined user now m = record m {
  user_id = user;
  status = active;
  joined_at = some now;
  invite_token = none;
}

module _ (t : Table Member) (users : Table Account)
    (r : Redis membership_keys (Option CachedMembership)) where
  pub record Store : Type 0 where
    pub members : t.State
    pub accounts : users.State
    pub cache : r.State

  -- create: the creator becomes the owner of the organization that was just made.
  unfoldable pub create : ℕ → ℕ → ℕ → Store → Store
  create org user now s = record s {
    members = (t.create s.members (active_member org user owner now)).1;
  }

  -- A user who exists joins at once; the invalidation drops a cached "not a member".
  unfoldable pub invite_existing : ℕ → Role → ℕ → ℕ → Store → Result ℕ × Store
  invite_existing org role user now s =
      if is_some (t.find_first s.members (held_by (record { org = org; user = user })))
      then (failed conflict, s)
      else let (id, members) = t.create s.members (active_member org user role now) in
        (
          ok id,
          record s {
            members = members;
            cache = MembershipCache.invalidate r s.cache (record { org = org; user = user });
          },
        )

  -- A placeholder user and a membership that waits for its token.
  unfoldable pub invite_new : ℕ → Role → Account → ℕ → Store → Result ℕ × Store
  invite_new org role account token s =
      let (user, accounts) = users.create s.accounts account in
      let (id, members) = t.create s.members (invited_member org user role account.email token) in
      (ok id, record s { members = members; accounts = accounts })

  -- `lower` is toLowerCase, `local_part` the text before the @, `empty` the empty text, and
  -- `token` the random token.
  unfoldable pub invite_member :
      (lower local_part : ℕ → ℕ) (empty token now org : ℕ) → InviteDto → Store → Result ℕ × Store
  unfolding invite_existing invite_new
  invite_member lower local_part empty token now org dto s =
      elim (users.find_first s.accounts (λ _ u. u.email == lower dto.email)) [
        | some (user, _) ↦ invite_existing org dto.role user now s
        | none ↦
            invite_new org dto.role
              (record {
                email = lower dto.email;
                first_name = local_part dto.email;
                last_name = empty;
              })
              token s
      ]

  unfoldable pub change_role : ℕ → ℕ → Role → Option (ℕ × Member) → Store → Result ℕ × Store
  change_role org id role none s = (failed not_found, s)
  change_role org id role (some (_, m)) s = if is_owner m.role then (failed forbidden, s) else (
    ok id,
    record s {
      members = (t.update s.members id (λ m. record m { role = role })).1;
      cache = MembershipCache.invalidate r s.cache (record { org = org; user = m.user_id });
    },
  )

  unfoldable pub update_member_role : ℕ → ℕ → Role → Store → Result ℕ × Store
  unfolding change_role
  update_member_role org id role s =
      change_role org id role (t.find_first s.members (in_org org id)) s

  unfoldable pub discard : ℕ → ℕ → Option (ℕ × Member) → Store → Result ℕ × Store
  discard org id none s = (failed not_found, s)
  discard org id (some (_, m)) s = if is_owner m.role then (failed forbidden, s) else (
    ok id,
    record s {
      members = t.delete_many s.members (λ i _. i == id);
      cache = MembershipCache.invalidate r s.cache (record { org = org; user = m.user_id });
    },
  )

  unfoldable pub remove_member : ℕ → ℕ → Store → Result ℕ × Store
  unfolding discard
  remove_member org id s = discard org id (t.find_first s.members (in_org org id)) s

  unfoldable pub take_up : ℕ → ℕ → Option (ℕ × Member) → Store → Result ℕ × Store
  take_up user now none s = (failed not_found, s)
  take_up user now (some (id, m)) s =
      if is_invited m.status
      then (
        ok id,
        record s {
          members = (t.update s.members id (joined user now)).1;
          cache =
              MembershipCache.invalidate r s.cache
                (record { org = m.organization_id; user = user });
        },
      )
      else (failed not_found, s)

  unfoldable pub accept_invite : ℕ → ℕ → ℕ → Store → Result ℕ × Store
  unfolding take_up
  accept_invite token user now s = take_up user now (t.find_first s.members (has_token token)) s
