-- ===== src/Projects/Isolation.antt =====
-- What the requests of other organizations leave of a project and of its members.
use flow_ai.Common.{
  ℕ, ◌≡◌, refl, ◌∙◌, Bool, true, false, ◌&&◌, not, some, List, [], ◌∷◌, arith, ◌==◌, Option-cases,
  Result-cases, or_default, inl, inr, ok,
}
use flow_ai.Database.{Table, matching}
use flow_ai.Projects.{
  Project, ProjectMember, archived, lead, member, changed, made, joined, is_member, is_owned,
  find_one, update, delete, create, add_member, remove_member,
}
use flow_ai.Projects.Members.{Request, creates, updates, deletes, adds, removes, step, run}

abbrev pub sender : Request → ℕ
sender (creates org user dto) = org
sender (updates org id dto now) = org
sender (deletes org id) = org
sender (adds org project user role) = org
sender (removes org project user) = org

abbrev pub are_others : ℕ → List Request → Bool
are_others org [] = true
are_others org (x ∷ xs) = not (sender x == org) && are_others org xs

abbrev pub is_in : ℕ → ProjectMember → Bool
is_in p m = m.project_id == p

module _ (projects : Table Project) (members : Table ProjectMember) (p : ℕ) where
  pub Untouched : (s t : projects.State × members.State) → Type 0
  Untouched s t =
      (projects.find t.0 p ≡ projects.find s.0 p)
      × ((j : ℕ)
          → matching (is_in p) (members.find t.1 j) ≡ matching (is_in p) (members.find s.1 j))

  Untouched-refl : (s : projects.State × members.State) → Untouched s s
  unfolding Untouched
  Untouched-refl s = (refl, λ j. refl)

  module _ (s : projects.State × members.State) (r : Project)
      (here : projects.find s.0 p ≡ some r) where
    -- A project that an organization finds and that is not of it is another one.
    found_elsewhere :
        (org id : ℕ) (x : ℕ × Project)
        → (org == r.organization_id) ≡ false
        → find_one projects org id s.0 ≡ ok x
        → (id == p) ≡ false
    unfolding find_one
    found_elsewhere org id x other e =
        elim (Option-cases (projects.find_first s.0 (is_owned org id))) [
          | inl n ↦ absurd (ground (arith, n))
          | inr ((j, q), g) ↦
              let (there, own) = projects.find_first-some s.0 (is_owned org id) j q g in
              ground arith
        ]

    update-Untouched :
        (id : ℕ) (f : Project → Project)
        → (id == p) ≡ false
        → Untouched s ((projects.update s.0 id f).1, s.1)
    unfolding Untouched
    update-Untouched id f other = (ground (arith, projects.find-update s.0 id f p), λ j. refl)

    step-Untouched :
        (x : Request)
        → (sender x == r.organization_id) ≡ false
        → Untouched s (step projects members x s)
    unfolding step Untouched create update delete add_member remove_member
    step-Untouched (creates org user dto) other =
        let row = made org user dto in
        let id = (projects.create s.0 row).0 in
        let fresh = projects.create-fresh s.0 row in
        let apart : (id == p) ≡ false = ground (arith, fresh) in
        (
          ground (arith, projects.find-create s.0 row p, fresh),
          λ j. ground (
            arith,
            members.find-create s.1 (joined id user lead) j,
            members.create-fresh s.1 (joined id user lead),
          ),
        )
    step-Untouched (updates org id dto now) other =
        elim (Result-cases (find_one projects org id s.0)) [
          | inl (e, h) ↦ rw (h, step, update) (Untouched-refl s)
          | inr (x, h) ↦
              rw (h, step, update)
                (update-Untouched id (changed now dto) (found_elsewhere org id x other h))
        ]
    step-Untouched (deletes org id) other = elim (Result-cases (find_one projects org id s.0)) [
      | inl (e, h) ↦ rw (h, step, delete) (Untouched-refl s)
      | inr (x, h) ↦
          rw (h, step, delete)
            (update-Untouched id (λ q. record q { status = archived })
              (found_elsewhere org id x other h))
    ]
    step-Untouched (adds org project user role) other =
        let row = joined project user (or_default role member) in
        elim (Result-cases (find_one projects org project s.0)) [
          | inl (e, h) ↦ rw (h, step, add_member) (Untouched-refl s)
          | inr (x, h) ↦
              let apart = found_elsewhere org project x other h in
              elim (Option-cases (members.find_first s.1 (is_member project user))) [
                | inr (y, g) ↦ rw (h, g, step, add_member) (Untouched-refl s)
                | inl n ↦
                    rw (h, n, step, add_member)
                      (
                        refl,
                        λ j.
                            ground
                              (arith, members.find-create s.1 row j, members.create-fresh s.1 row),
                      )
              ]
        ]
    step-Untouched (removes org project user) other =
        elim (Result-cases (find_one projects org project s.0)) [
          | inl (e, h) ↦ rw (h, step, remove_member) (Untouched-refl s)
          | inr (x, h) ↦
              let apart = found_elsewhere org project x other h in
              rw (h, step, remove_member)
                (refl, λ j. ground (arith, members.find-delete_many s.1 (is_member project user) j))
        ]

  -- Requests of other organizations leave a project and its members as they are, whatever projects
  -- and members they name.
  pub projects_kept_apart :
      (xs : List Request) (s : projects.State × members.State) (r : Project)
      → projects.find s.0 p ≡ some r
      → are_others r.organization_id xs ≡ true
      → Untouched s (run projects members xs s)
  unfolding run Untouched
  projects_kept_apart [] s r here others = Untouched-refl s
  projects_kept_apart (x ∷ xs) s r here others =
      let first = step-Untouched s r here x (ground arith) in
      let t = step projects members x s in
      let rest = projects_kept_apart xs t r (first.0 ∙ here) (ground arith) in
      (rest.0 ∙ first.0, λ j. rest.1 j ∙ first.1 j)
