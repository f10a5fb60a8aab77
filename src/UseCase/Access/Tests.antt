-- ===== src/UseCase/Access/Tests.antt =====
-- Runs of `AuthorizationManager` of apps/tcc/usecase/usecases/base/config.py.
use taunggyi_city_church.Common.{◌≡◌, refl, true, false, Option, none, some, [], ◌∷◌, inl}
use taunggyi_city_church.UseCase.Access.{
  Actor, Resource, AuthorizationManager, UseCaseConfiguration, default_configuration, manager,
  is_authorized, known_role, clear_cache,
}
use taunggyi_city_church.UseCase.Access.Ranks.{IsFresh, may_run}
use taunggyi_city_church.UseCase.Access.Allowed.{is_authorized_lem}

abbrev no_memory : AuthorizationManager
no_memory = record { permission_cache = λ k. none }

abbrev the_manager : Actor
the_manager = record {
  id = 7;
  is_active = none;
  is_authenticated = some true;
  is_superuser = none;
  role = some "manager";
  get_permissions = some ("can_view_audit_logs" ∷ []);
  department_id = none;
}

abbrev audit_config : UseCaseConfiguration
audit_config = record default_configuration {
  required_roles = "user" ∷ [];
  required_permissions = "can_view_audit_logs" ∷ "can_update_users" ∷ [];
}

manager_known : known_role the_manager ≡ some manager
unfolding known_role
manager_known = refl

abbrev own_resource : Option Resource
own_resource = some (record { user_id = some 7; department_id = none })

is_authorized_lem_example :
    ((is_authorized (some the_manager) audit_config own_resource no_memory).0
      ≡ may_run the_manager manager audit_config own_resource)
    × IsFresh the_manager manager
        (is_authorized (some the_manager) audit_config own_resource no_memory).1
is_authorized_lem_example =
    is_authorized_lem the_manager manager audit_config own_resource no_memory manager_known
      (inl refl)

-- A member of staff has a role that the manager does not know.
abbrev of_staff : Actor
of_staff = record the_manager { role = some "staff"; get_permissions = none }

staff_refused : (is_authorized (some of_staff) audit_config none no_memory).0 ≡ false
unfolding is_authorized
staff_refused = refl

remembered :
    ((clear_cache
        (some 7)
        (is_authorized (some the_manager) audit_config none no_memory).1).permission_cache
      7)
    ≡ none
unfolding clear_cache
remembered = refl
