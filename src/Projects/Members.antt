-- ===== src/Projects/Members.antt =====
-- The members of projects: each user once, in projects that exist.
use flow_ai.Common.{
  ℕ, ◌≡◌, true, false, ok, Option, some, List, [], ◌∷◌, arith, ◌==◌, is_some, Option-cases,
  Result-cases, Bool-cases, or_default, inl, inr,
}
use flow_ai.Database.{Table}
use flow_ai.Projects.{
  Project, ProjectMember, CreateProjectDto, UpdateProjectDto, MemberRole, archived, lead, member,
  changed, made, joined, is_member, is_owned, find_one, update, delete, create, add_member,
  remove_member,
}

pub data Request : Type 0 where
  creates : (org user : ℕ) (dto : CreateProjectDto) → Request
  updates : (org id : ℕ) (dto : UpdateProjectDto) (now : ℕ) → Request
  deletes : (org id : ℕ) → Request
  adds : (org project user : ℕ) (role : Option MemberRole) → Request
  removes : (org project user : ℕ) → Request

module _ (projects : Table Project) (members : Table ProjectMember) where
  unfoldable pub step : Request → projects.State × members.State → projects.State × members.State
  step (creates org user dto) s = (create projects members org user dto s).1
  step (updates org id dto now) s = ((update projects org id dto now s.0).1, s.1)
  step (deletes org id) s = ((delete projects org id s.0).1, s.1)
  step (adds org project user role) s = (add_member projects members org project user role s).1
  step (removes org project user) s = (remove_member projects members org project user s).1

  unfoldable pub run :
      List Request → projects.State × members.State → projects.State × members.State
  run [] s = s
  run (x ∷ xs) s = run xs (step x s)

  pub record Sound (ps : projects.State) (ms : members.State) : Type 0 where
    pub once :
        (i j : ℕ) (a b : ProjectMember)
        → members.find ms i ≡ some a
        → members.find ms j ≡ some b
        → a.project_id ≡ b.project_id
        → a.user_id ≡ b.user_id
        → i ≡ j
    pub placed :
        (i : ℕ) (a : ProjectMember)
        → members.find ms i ≡ some a
        → is_some (projects.find ps a.project_id) ≡ true

  -- A change of a project leaves it where it is.
  update-Sound :
      (ps : projects.State) (ms : members.State) (id : ℕ) (f : Project → Project)
      → Sound ps ms
      → Sound (projects.update ps id f).1 ms
  update-Sound ps ms id f sound = record {
    once = sound.once;
    placed = λ i a e. ground (arith, sound.placed i a e, projects.find-update ps id f a.project_id);
  }

  -- A row for a user that the project does not have.
  join-Sound :
      (ps : projects.State) (ms : members.State) (project user : ℕ) (role : MemberRole)
      → Sound ps ms
      → is_some (projects.find ps project) ≡ true
      → ((i : ℕ) (a : ProjectMember)
          → members.find ms i ≡ some a
          → is_member project user i a ≡ false)
      → Sound ps (members.create ms (joined project user role)).1
  join-Sound ps ms project user role sound there free =
      let row = joined project user role in
      let id = (members.create ms row).0 in
      let now_at = λ (j : ℕ). members.find-create ms row j in
      record {
        once = λ i j a b ei ej u v. elim (Bool-cases (id == i)) [
          | inl here ↦ elim (Bool-cases (id == j)) [
            | inl too ↦ ground arith
            | inr other ↦ absurd (ground (arith, now_at i, now_at j, free j b))
          ]
          | inr other ↦ elim (Bool-cases (id == j)) [
            | inl here ↦ absurd (ground (arith, now_at i, now_at j, free i a))
            | inr both ↦
                sound.once i j a b (ground (arith, now_at i)) (ground (arith, now_at j)) u v
          ]
        ];
        placed = λ i a e. elim (Bool-cases (id == i)) [
          | inl here ↦ ground (arith, now_at i)
          | inr other ↦ ground (arith, now_at i, sound.placed i a)
        ];
      }

  -- A new project has no members yet.
  create-Sound :
      (org user : ℕ) (dto : CreateProjectDto) (s : projects.State × members.State)
      → Sound s.0 s.1
      → let t = (create projects members org user dto s).1 in Sound t.0 t.1
  unfolding create
  create-Sound org user dto s sound =
      let row = made org user dto in
      let id = (projects.create s.0 row).0 in
      let now_at = λ (j : ℕ). projects.find-create s.0 row j in
      let fresh = projects.create-fresh s.0 row in
      let kept : Sound (projects.create s.0 row).1 s.1 = record {
        once = sound.once;
        placed = λ i a e. ground (arith, sound.placed i a e, now_at a.project_id);
      } in
      join-Sound (projects.create s.0 row).1 s.1 id user lead kept (ground (arith, now_at id))
        (λ i a e. ground (arith, sound.placed i a e, fresh))

  found :
      (org id i : ℕ) (r : Project) (ps : projects.State)
      → find_one projects org id ps ≡ ok (i, r)
      → is_some (projects.find ps id) ≡ true
  unfolding find_one
  found org id i r ps e = elim (Option-cases (projects.find_first ps (is_owned org id))) [
    | inl n ↦ ground (arith, n)
    | inr ((j, q), g) ↦
        let (here, own) = projects.find_first-some ps (is_owned org id) j q g in ground arith
  ]

  add-Sound :
      (org project user : ℕ) (role : Option MemberRole) (s : projects.State × members.State)
      → Sound s.0 s.1
      → let t = (add_member projects members org project user role s).1 in Sound t.0 t.1
  unfolding add_member
  add-Sound org project user role s sound =
      elim (Result-cases (find_one projects org project s.0)) [
        | inl (e, h) ↦ rw (h, add_member) sound
        | inr ((i, r), h) ↦ elim (Option-cases (members.find_first s.1 (is_member project user))) [
          | inr (x, g) ↦ rw (h, g, add_member) sound
          | inl n ↦
              rw (h, n, add_member)
                (join-Sound s.0 s.1 project user (or_default role member) sound
                  (found org project i r s.0 h)
                  (λ j a. members.find_first-none s.1 (is_member project user) j a n))
        ]
      ]

  remove-Sound :
      (org project user : ℕ) (s : projects.State × members.State)
      → Sound s.0 s.1
      → let t = (remove_member projects members org project user s).1 in Sound t.0 t.1
  unfolding remove_member
  remove-Sound org project user s sound =
      let left = λ (j : ℕ). members.find-delete_many s.1 (is_member project user) j in
      let was =
        λ (j : ℕ) (a : ProjectMember)
            (e : members.find (members.delete_many s.1 (is_member project user)) j ≡ some a).
          let r : members.find s.1 j ≡ some a = ground (arith, left j) in r in
      let kept : Sound s.0 (members.delete_many s.1 (is_member project user)) = record {
        once = λ i j a b ei ej. sound.once i j a b (was i a ei) (was j b ej);
        placed = λ i a e. sound.placed i a (was i a e);
      } in
      elim (Result-cases (find_one projects org project s.0)) [
        | inl (e, h) ↦ rw (h, remove_member) sound
        | inr (x, h) ↦ rw (h, remove_member) kept
      ]

  update_request-Sound :
      (org id : ℕ) (dto : UpdateProjectDto) (now : ℕ) (s : projects.State × members.State)
      → Sound s.0 s.1
      → Sound (update projects org id dto now s.0).1 s.1
  unfolding update
  update_request-Sound org id dto now s sound = elim (Result-cases (find_one projects org id s.0)) [
    | inl (e, h) ↦ rw (h, update) sound
    | inr (x, h) ↦ rw (h, update) (update-Sound s.0 s.1 id (changed now dto) sound)
  ]

  delete-Sound :
      (org id : ℕ) (s : projects.State × members.State)
      → Sound s.0 s.1
      → Sound (delete projects org id s.0).1 s.1
  unfolding delete
  delete-Sound org id s sound = elim (Result-cases (find_one projects org id s.0)) [
    | inl (e, h) ↦ rw (h, delete) sound
    | inr (x, h) ↦
        rw (h, delete) (update-Sound s.0 s.1 id (λ r. record r { status = archived }) sound)
  ]

  step-Sound :
      (x : Request) (s : projects.State × members.State)
      → Sound s.0 s.1
      → Sound (step x s).0 (step x s).1
  unfolding step
  step-Sound (creates org user dto) s sound = create-Sound org user dto s sound
  step-Sound (updates org id dto now) s sound = update_request-Sound org id dto now s sound
  step-Sound (deletes org id) s sound = delete-Sound org id s sound
  step-Sound (adds org project user role) s sound = add-Sound org project user role s sound
  step-Sound (removes org project user) s sound = remove-Sound org project user s sound

  -- After any requests of any organizations that create, change and archive projects and add and
  -- remove members, from tables where it is so, no project has the same user twice as a member and
  -- each membership is of a project that exists.
  pub project_members-Sound :
      (xs : List Request) (s : projects.State × members.State)
      → Sound s.0 s.1
      → Sound (run xs s).0 (run xs s).1
  unfolding run
  project_members-Sound [] s sound = sound
  project_members-Sound (x ∷ xs) s sound =
      project_members-Sound xs (step x s) (step-Sound x s sound)
