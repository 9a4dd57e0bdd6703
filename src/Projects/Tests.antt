-- ===== src/Projects/Tests.antt =====
-- A project whose members come twice and go, and a request of another organization.
use flow_ai.Common.{◌≡◌, refl, Option, none, some, List, [], ◌∷◌, arith}
use flow_ai.Database.Rows.{rows}
use flow_ai.Projects.{
  Project, ProjectMember, CreateProjectDto, UpdateProjectDto, archived, completed, lead, member,
  called, create, add_member, remove_member, delete, find_one,
}
use flow_ai.Projects.Members.{
  Request, creates, updates, deletes, adds, removes, step, run, Sound, project_members-Sound,
}
use flow_ai.Projects.Isolation.{Untouched, projects_kept_apart}

abbrev site : CreateProjectDto
site = record { name = 7; status = none; start_date = none; deadline = some 90 }

abbrev requests : List Request
requests =
    creates 1 10 site
    ∷ adds 1 0 11 none
    ∷ adds 1 0 11 (some lead)
    ∷ adds 2 0 12 (some (called 5))
    ∷ removes 1 0 10
    ∷ deletes 1 0
    ∷ []

nobody : Sound (rows Project) (rows ProjectMember) [] []
nobody = record { once = λ i j a b ei ej u v. ground arith; placed = λ i a e. ground arith }

project_members-Sound_example :
    Sound
      (rows Project)
      (rows ProjectMember)
      (run (rows Project) (rows ProjectMember) requests ([], [])).0
      (run (rows Project) (rows ProjectMember) requests ([], [])).1
project_members-Sound_example =
    project_members-Sound (rows Project) (rows ProjectMember) requests ([], []) nobody

-- One membership is left, of user 11.
only_one_left :
    (run (rows Project) (rows ProjectMember) requests ([], [])).1
    ≡ none ∷ some (record { project_id = 0; user_id = 11; role = member }) ∷ []
unfolding run step create add_member remove_member delete find_one
only_one_left = refl

abbrev dto : UpdateProjectDto
dto = record { name = some 8; status = some completed; start_date = none; deadline = none }

-- Organization 2 goes for the project of organization 1 in every way.
abbrev strangers : List Request
strangers =
    updates 2 0 dto 50 ∷ adds 2 0 12 none ∷ removes 2 0 11 ∷ creates 2 12 site ∷ deletes 2 0 ∷ []

abbrev before : List (Option Project) × List (Option ProjectMember)
before = run (rows Project) (rows ProjectMember) requests ([], [])

abbrev kept : Project
kept = record {
  organization_id = 1;
  created_by_id = 10;
  name = 7;
  status = archived;
  start_date = none;
  deadline = some 90;
  completed_at = none;
}

project_is_kept : (rows Project).find before.0 0 ≡ some kept
unfolding run step create add_member remove_member delete find_one
project_is_kept = refl

projects_kept_apart_example :
    Untouched
      (rows Project)
      (rows ProjectMember)
      0
      before
      (run (rows Project) (rows ProjectMember) strangers before)
projects_kept_apart_example =
    projects_kept_apart (rows Project) (rows ProjectMember) 0 strangers before kept project_is_kept
      refl
