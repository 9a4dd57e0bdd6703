-- ===== src/Tenancy/RolesGuard.antt =====
-- src/common/guards/roles.guard.ts
use flow_ai.Common.{ℕ, ◌==◌, Bool, false, ◌||◌, Option, none, some, List, [], ◌∷◌, if◌then◌else◌}
use flow_ai.Tenancy.{
  Role, super_admin, owner, admin, project_manager, finance_manager, employee, client, User, Denial,
  not_authenticated, missing_role,
}

pub data Decision : Type 0 where
  proceed : Decision
  deny : Denial → Decision

-- The position of a role in the schema's enum; `includes` compares enum values.
abbrev pub rank : Role → ℕ
rank super_admin = 0
rank owner = 1
rank admin = 2
rank project_manager = 3
rank finance_manager = 4
rank employee = 5
rank client = 6

abbrev pub same_role : Role → Role → Bool
same_role a b = rank a == rank b

-- `requiredRoles.includes(user.role)`: an absent role is in no list.
unfoldable pub has_role : List Role → Option Role → Bool
has_role [] role = false
has_role (x ∷ xs) none = false
has_role (x ∷ xs) (some role) = same_role x role || has_role xs (some role)

-- `required` is the list of the @Roles decorator, if the handler or its class has one.
unfoldable pub can_activate : Option (List Role) → Option User → Decision
can_activate none user = proceed
can_activate (some []) user = proceed
can_activate (some (x ∷ xs)) none = deny not_authenticated
can_activate (some (x ∷ xs)) (some u) =
    if u.is_super_admin
    then proceed
    else if has_role (x ∷ xs) u.role
    then proceed
    else deny missing_role
