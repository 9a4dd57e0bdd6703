-- ===== src/Tenancy/Organizations/History.antt =====
-- Any interleaving of whole operations on the members and of guarded requests, with entries of
-- the cache running out in between.
use flow_ai.Common.{ℕ, ◌≡◌, ◌≢◌, Option, none, some, arith, Option-cases, inl, inr, ◌==◌}
use flow_ai.Database.{Table}
use flow_ai.Redis.{Redis}
use flow_ai.Tenancy.{Role, Member, CachedMembership, MembershipKey, membership_keys}
use flow_ai.Tenancy.Guard.{membership_of}
use flow_ai.Tenancy.Coherence.{membership_of-IsCoherent}
use flow_ai.Tenancy.Organizations.{
  Account, InviteDto, Store, in_org, has_token, create, invite_member, update_member_role,
  remove_member, accept_invite,
}
use flow_ai.Tenancy.Organizations.Keeps.{
  IsSound, Reaches, IsOnly, change_role-IsSound, discard-IsSound, take_up-IsSound,
}
use flow_ai.Tenancy.Organizations.Joins.{
  create-IsSound, invite_existing-IsSound, invite_new-IsSound,
}

module _ (t : Table Member) (users : Table Account)
    (r : Redis membership_keys (Option CachedMembership)) where
  abbrev pub AllReach : Store t users r → Type 0
  AllReach s = (k : MembershipKey) → Reaches t users r s k

  -- The user of an accepted invitation exists and is in the organization by this row at most.
  abbrev pub MayAccept : ℕ → ℕ → Store t users r → Type 0
  MayAccept token user s =
      (users.find s.accounts user ≢ none)
      × ((id : ℕ) (m : Member)
          → t.find_first s.members (has_token token) ≡ some (id, m)
          → IsOnly t users r s.members id (record { org = m.organization_id; user = user }))

  -- The organization was just made: it has no member, and no entry in the cache.
  abbrev pub IsNew : ℕ → Store t users r → Type 0
  IsNew org s =
      ((i : ℕ) (m : Member) → t.find s.members i ≡ some m → m.organization_id ≢ org)
      × ((k : MembershipKey) → k.org ≡ org → r.view s.cache k ≡ none)

  pub data Step (s s' : Store t users r) : Type 0 where
    creates :
        (org user now : ℕ)
        → users.find s.accounts user ≢ none
        → IsNew org s
        → s' ≡ create t users r org user now s
        → Step s s'
    invites :
        (lower local_part : ℕ → ℕ) (empty token now org : ℕ) (dto : InviteDto)
        → AllReach s
        → s' ≡ (invite_member t users r lower local_part empty token now org dto s).1
        → Step s s'
    changes :
        (org id : ℕ) (role : Role)
        → AllReach s
        → s' ≡ (update_member_role t users r org id role s).1
        → Step s s'
    removes : (org id : ℕ) → AllReach s → s' ≡ (remove_member t users r org id s).1 → Step s s'
    accepts :
        (token user now : ℕ)
        → AllReach s
        → MayAccept token user s
        → s' ≡ (accept_invite t users r token user now s).1
        → Step s s'
    looks_up :
        (k : MembershipKey)
        → s' ≡ record s { cache = (membership_of t r s.members s.cache k).1 }
        → Step s s'
    expires :
        (cache : r.State)
        → ((k : MembershipKey) (v : Option CachedMembership)
            → r.view cache k ≡ some v
            → r.view s.cache k ≡ some v)
        → s' ≡ record s { cache = cache }
        → Step s s'

  pub data Reach (s : Store t users r) : Store t users r → Type 0 where
    here : Reach s s
    next : {s' s'' : Store t users r} → Reach s s' → Step s' s'' → Reach s s''

  invite_member-IsSound :
      (lower local_part : ℕ → ℕ) (empty token now org : ℕ) (dto : InviteDto) (s : Store t users r)
      → AllReach s
      → IsSound t users r s
      → IsSound t users r (invite_member t users r lower local_part empty token now org dto s).1
  unfolding invite_member
  invite_member-IsSound lower local_part empty token now org dto s up sound =
      elim (Option-cases (users.find_first s.accounts (λ _ u. u.email == lower dto.email))) [
        | inl n ↦ rw (n, invite_member) (invite_new-IsSound t users r s sound org dto.role _ token)
        | inr ((user, u), f) ↦
            let (e, h) =
              users.find_first-some s.accounts (λ _ u. u.email == lower dto.email) user u f in
            rw (f, invite_member)
              (invite_existing-IsSound t users r s sound org dto.role user now up (λ n. cc))
      ]

  update_member_role-IsSound :
      (org id : ℕ) (role : Role) (s : Store t users r)
      → AllReach s
      → IsSound t users r s
      → IsSound t users r (update_member_role t users r org id role s).1
  unfolding update_member_role
  update_member_role-IsSound org id role s up sound =
      elim (Option-cases (t.find_first s.members (in_org org id))) [
        | inl n ↦ rw (n, update_member_role) sound
        | inr ((i, m), f) ↦
            let (e, h) = t.find_first-some s.members (in_org org id) i m f in
            let same : i ≡ id = ground arith in
            rw (f, update_member_role)
              (change_role-IsSound t users r org id m s sound role i up (rw same at e)
                (ground arith))
      ]

  remove_member-IsSound :
      (org id : ℕ) (s : Store t users r)
      → AllReach s
      → IsSound t users r s
      → IsSound t users r (remove_member t users r org id s).1
  unfolding remove_member
  remove_member-IsSound org id s up sound =
      elim (Option-cases (t.find_first s.members (in_org org id))) [
        | inl n ↦ rw (n, remove_member) sound
        | inr ((i, m), f) ↦
            let (e, h) = t.find_first-some s.members (in_org org id) i m f in
            let same : i ≡ id = ground arith in
            rw (f, remove_member)
              (discard-IsSound t users r org id m s sound i up (rw same at e) (ground arith))
      ]

  accept_invite-IsSound :
      (token user now : ℕ) (s : Store t users r)
      → AllReach s
      → MayAccept token user s
      → IsSound t users r s
      → IsSound t users r (accept_invite t users r token user now s).1
  unfolding accept_invite
  accept_invite-IsSound token user now s up may sound =
      elim (Option-cases (t.find_first s.members (has_token token))) [
        | inl n ↦ rw (n, accept_invite) sound
        | inr ((id, m), f) ↦
            let (e, h) = t.find_first-some s.members (has_token token) id m f in
            rw (f, accept_invite)
              (take_up-IsSound t users r m.organization_id id m s sound user now up e may.0
                (may.1 id m f))
      ]

  pub Step-IsSound :
      {s s' : Store t users r} → Step s s' → IsSound t users r s → IsSound t users r s'
  Step-IsSound (creates org user now e new p) v =
      rw p (create-IsSound t users r _ v org user now e new.0 new.1)
  Step-IsSound (invites lower local_part empty token now org dto up p) v =
      rw p (invite_member-IsSound lower local_part empty token now org dto _ up v)
  Step-IsSound (changes org id role up p) v = rw p (update_member_role-IsSound org id role _ up v)
  Step-IsSound (removes org id up p) v = rw p (remove_member-IsSound org id _ up v)
  Step-IsSound (accepts token user now up may p) v =
      rw p (accept_invite-IsSound token user now _ up may v)
  Step-IsSound {s} (looks_up k p) v = rw p (record {
    unique = v.unique;
    linked = v.linked;
    coherent = membership_of-IsCoherent t r s.members s.cache k v.coherent;
  })
  Step-IsSound (expires cache less p) v = rw p (record {
    unique = v.unique;
    linked = v.linked;
    coherent = λ k o e. v.coherent k o (less k o e);
  })

  -- After any history from a sound state the state is sound.
  pub Reach-IsSound :
      {s s' : Store t users r} → IsSound t users r s → Reach s s' → IsSound t users r s'
  Reach-IsSound v here = v
  Reach-IsSound v (next h step) = Step-IsSound step (Reach-IsSound v h)
