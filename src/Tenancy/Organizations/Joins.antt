-- ===== src/Tenancy/Organizations/Joins.antt =====
-- The operations that add a membership keep what `IsSound` says.
use flow_ai.Common.{
  ℕ, ◌≡◌, ◌≢◌, ◌⊎◌, sym, ap, ◌∙◌, Option, none, some, arith, Option-cases, inl, inr,
}
use flow_ai.Database.{Table}
use flow_ai.Redis.{Redis}
use flow_ai.Tenancy.{Role, owner, Member, CachedMembership, MembershipKey, membership_keys}
use flow_ai.Tenancy.Guard.{held_by}
use flow_ai.Tenancy.Coherence.{IsUnique}
use flow_ai.Tenancy.Decisions.{decision-congr}
use flow_ai.Tenancy.Organizations.{
  Account, Store, active_member, invited_member, create, invite_existing, invite_new,
}
use flow_ai.Tenancy.Organizations.Keeps.{IsSound, Reaches, invalidated-IsCoherent}

module _ (t : Table Member) (before : t.State) (row : Member) where
  abbrev after : t.State
  after = (t.create before row).1

  -- No row has the organization and the user of the new one.
  abbrev pub IsFree : Type 0
  IsFree =
      (i : ℕ) (m : Member)
      → t.find before i ≡ some m
      → m.organization_id ≡ row.organization_id
      → m.user_id ≢ row.user_id

  old_or_new_row :
      (i : ℕ) (m : Member)
      → t.find after i ≡ some m
      → (t.find before i ≡ some m) ⊎ (((t.create before row).0 ≡ i) × (m ≡ row))
  old_or_new_row i m e = ground (arith, t.find-create before row i)

  create-IsUnique : IsUnique t before → IsFree → IsUnique t after
  create-IsUnique u free k i j a b ei ej hi hj =
      ground (arith, old_or_new_row i a ei, old_or_new_row j b ej, u k i j a b, free i a, free j b)

module _ (t : Table Member) (users : Table Account)
    (r : Redis membership_keys (Option CachedMembership)) (s : Store t users r)
    (sound : IsSound t users r s) where
  pub create-IsSound :
      (org user now : ℕ)
      → users.find s.accounts user ≢ none
      → ((i : ℕ) (m : Member) → t.find s.members i ≡ some m → m.organization_id ≢ org)
      → ((k : MembershipKey) → k.org ≡ org → r.view s.cache k ≡ none)
      → IsSound t users r (create t users r org user now s)
  unfolding create
  create-IsSound org user now exists new uncached =
      let row = active_member org user owner now in
      let unique' =
        create-IsUnique t s.members row sound.unique (λ i m e h. absurd (new i m e h)) in
      record {
        unique = unique';
        linked = λ i m e. ground (arith, old_or_new_row t s.members row i m e, sound.linked i m);
        coherent = λ k v e.
            sound.coherent k v e
            ∙ sym (
                decision-congr t s.members _ k sound.unique unique' (λ j. ground (
                  arith,
                  t.find-create s.members row j,
                  t.create-fresh s.members row,
                  uncached k,
                  ap (t.find s.members) {x = (t.create s.members row).0} {y = j},
                )));
      }

  pub invite_existing-IsSound :
      (org : ℕ) (role : Role) (user now : ℕ)
      → ((k : MembershipKey) → Reaches t users r s k)
      → users.find s.accounts user ≢ none
      → IsSound t users r (invite_existing t users r org role user now s).1
  unfolding invite_existing
  invite_existing-IsSound org role user now up exists =
      elim (Option-cases (t.find_first s.members (held_by (record { org = org; user = user })))) [
        | inr (hit, f) ↦ rw (f, invite_existing) sound
        | inl n ↦
            let row = active_member org user role now in
            let free : IsFree t s.members row = λ i m e h h'. ground (
              arith,
              t.find_first-none s.members (held_by (record { org = org; user = user })) i m n e,
            ) in
            let unique' = create-IsUnique t s.members row sound.unique free in
            rw (n, invite_existing)
              (record {
                unique = unique';
                linked =
                    λ i m e. ground (arith, old_or_new_row t s.members row i m e, sound.linked i m);
                coherent =
                    invalidated-IsCoherent t users r s.members _ s.cache
                      (record { org = org; user = user }) sound.unique unique' sound.coherent (up _)
                      λ k differs j. ground (
                        arith,
                        t.find-create s.members row j,
                        t.create-fresh s.members row,
                        ap (t.find s.members) {x = (t.create s.members row).0} {y = j},
                      );
              })
      ]

  pub invite_new-IsSound :
      (org : ℕ) (role : Role) (account : Account) (token : ℕ)
      → IsSound t users r (invite_new t users r org role account token s).1
  unfolding invite_new
  invite_new-IsSound org role account token =
      let user = (users.create s.accounts account).0 in
      let row = invited_member org user role account.email token in
      let unknown = users.create-fresh s.accounts account in
      let free : IsFree t s.members row =
        λ i m e h h'. sound.linked i m e (ap (users.find s.accounts) h' ∙ unknown) in
      let unique' = create-IsUnique t s.members row sound.unique free in
      record {
        unique = unique';
        linked = λ i m e. ground (
          arith,
          old_or_new_row t s.members row i m e,
          sound.linked i m,
          users.find-create s.accounts account m.user_id,
        );
        coherent = λ k v e.
            sound.coherent k v e
            ∙ sym (
                decision-congr t s.members _ k sound.unique unique' (λ j. ground (
                  arith,
                  t.find-create s.members row j,
                  t.create-fresh s.members row,
                  ap (t.find s.members) {x = (t.create s.members row).0} {y = j},
                )));
      }
