-- ===== src/Tenancy/Access/Tests.antt =====
-- The access theorems at an organization with two members.
use flow_ai.Common.{ℕ, zero, suc, ◌⊎◌, ◌≡◌, refl, true, false, Option, none, some, [], ◌∷◌, arith}
use flow_ai.Database.Rows.{rows}
use flow_ai.Redis.Entries.{server}
use flow_ai.Tenancy.{
  owner, admin, employee, User, Member, CachedMembership, membership_keys, not_a_member,
}
use flow_ai.Tenancy.Guard.{Request, allowed, forbidden, admit, stored, can_activate, membership_of}
use flow_ai.Tenancy.Organizations.{Account, Store, active_member, update_member_role, remove_member}
use flow_ai.Tenancy.Organizations.Keeps.{IsSound}
use flow_ai.Tenancy.Organizations.History.{here, next, looks_up}
use flow_ai.Tenancy.Access.{verdict_after_history, removed_is_refused, changed_role_applies}

abbrev someone : Account
someone = record { email = 1; first_name = 2; last_name = 3 }

abbrev State : Type 0
State = Store (rows Member) (rows Account) (server membership_keys (Option CachedMembership))

-- User 1 owns organization 5, and user 0 works for it.
abbrev start : State
start = record {
  members = some (active_member 5 1 owner 0) ∷ some (active_member 5 0 employee 0) ∷ [];
  accounts = some someone ∷ some someone ∷ [];
  cache = record { is_up = true; entries = [] };
}

rows_of_start :
    (i : ℕ) (m : Member)
    → (rows Member).find start.members i ≡ some m
    → ((i ≡ 0) × (m ≡ active_member 5 1 owner 0)) ⊎ ((i ≡ 1) × (m ≡ active_member 5 0 employee 0))
rows_of_start zero m e = ground arith
rows_of_start (suc zero) m e = ground arith
rows_of_start (suc (suc i)) m e = ground arith

start-IsSound :
    IsSound (rows Member) (rows Account) (server membership_keys (Option CachedMembership)) start
start-IsSound = record {
  unique = λ k i j a b ei ej hi hj. ground (arith, rows_of_start i a ei, rows_of_start j b ej);
  linked = λ i m e. ground (arith, rows_of_start i m e);
  coherent = λ k v e. cc;
}

abbrev worker : User
worker = record {
  id = 0;
  is_super_admin = false;
  organization_id = none;
  role = none;
  membership_id = none;
}

abbrev request : Request
request = record { user = some worker; header = some 5; param = none; query = none }

abbrev looked_up : State
looked_up = record start {
  cache =
      (membership_of (rows Member) (server membership_keys (Option CachedMembership)) start.members
        start.cache (record { org = 5; user = 0 })).1;
}

verdict_after_history_example :
    (can_activate
      (rows Member)
      (server membership_keys (Option CachedMembership))
      looked_up.members
      looked_up.cache
      request).0
    ≡ admit worker 5 (stored (rows Member) looked_up.members (record { org = 5; user = 0 }))
verdict_after_history_example =
    verdict_after_history (rows Member) (rows Account)
      (server membership_keys (Option CachedMembership)) start start-IsSound request worker 5 refl
      refl refl looked_up (next here (looks_up (record { org = 5; user = 0 }) refl))

removed_is_refused_example :
    let s' =
      (remove_member
        (rows Member)
        (rows Account)
        (server membership_keys (Option CachedMembership))
        5
        1
        start).1 in
    (can_activate
      (rows Member)
      (server membership_keys (Option CachedMembership))
      s'.members
      s'.cache
      request).0
    ≡ forbidden not_a_member
removed_is_refused_example =
    removed_is_refused (rows Member) (rows Account)
      (server membership_keys (Option CachedMembership)) start start-IsSound request worker 5 refl
      refl refl 1 (active_member 5 0 employee 0) (λ k e. cc) refl refl refl refl

changed_role_applies_example :
    let s' =
      (update_member_role
        (rows Member)
        (rows Account)
        (server membership_keys (Option CachedMembership))
        5
        1
        admin
        start).1 in
    (can_activate
      (rows Member)
      (server membership_keys (Option CachedMembership))
      s'.members
      s'.cache
      request).0
    ≡ allowed
        (record worker { organization_id = some 5; role = some admin; membership_id = some 1 })
changed_role_applies_example =
    changed_role_applies (rows Member) (rows Account)
      (server membership_keys (Option CachedMembership)) start start-IsSound request worker 5 refl
      refl refl 1 (active_member 5 0 employee 0) admin (λ k e. cc) refl refl refl refl refl
