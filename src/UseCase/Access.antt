-- ===== src/UseCase/Access.antt =====
-- apps/tcc/usecase/usecases/base/config.py: roles, permissions and `AuthorizationManager`. Its methods
-- are coroutines that await nothing. The log is not modelled.
pub mod Ranks
pub mod Allowed
mod Tests
use taunggyi_city_church.Common.{
  ℕ, Bool, true, false, not, ◌&&◌, ◌||◌, Option, none, some, List, [], ◌∷◌, ◌++◌, map, String,
  str_eq, or_else, ◌==◌, any, is_empty, if◌then◌else◌,
}

pub data Permission : Type 0 where
  can_manage_users can_view_users can_delete_users can_update_users can_create_users : Permission
  can_manage_roles can_view_audit_logs : Permission

pub data Role : Type 0 where
  super_admin admin manager user guest : Role

abbrev pub permission_value : Permission → String
permission_value can_manage_users = "can_manage_users"
permission_value can_view_users = "can_view_users"
permission_value can_delete_users = "can_delete_users"
permission_value can_update_users = "can_update_users"
permission_value can_create_users = "can_create_users"
permission_value can_manage_roles = "can_manage_roles"
permission_value can_view_audit_logs = "can_view_audit_logs"

abbrev pub role_value : Role → String
role_value super_admin = "super_admin"
role_value admin = "admin"
role_value manager = "manager"
role_value user = "user"
role_value guest = "guest"

abbrev pub permissions : List Permission
permissions =
    can_manage_users ∷ can_view_users ∷ can_delete_users ∷ can_update_users ∷ can_create_users
    ∷ can_manage_roles ∷ can_view_audit_logs ∷ []

abbrev pub roles : List Role
roles = super_admin ∷ admin ∷ manager ∷ user ∷ guest ∷ []

-- a member of an enumeration by its value; where there is none, the call raises a ValueError
abbrev pub by_value : {A : Type 0} → (A → String) → String → List A → Option A
by_value value s [] = none
by_value value s (x ∷ xs) = if str_eq (value x) s then some x else by_value value s xs

-- `Permission(name)` and `Role(name)`
unfoldable pub permission_of : String → Option Permission
permission_of name = by_value permission_value name permissions

unfoldable pub role_of : String → Option Role
role_of name = by_value role_value name roles

-- `ROLE_HIERARCHY`
unfoldable pub role_hierarchy : Role → List Role
role_hierarchy super_admin = admin ∷ manager ∷ user ∷ guest ∷ []
role_hierarchy admin = manager ∷ user ∷ guest ∷ []
role_hierarchy manager = user ∷ guest ∷ []
role_hierarchy user = guest ∷ []
role_hierarchy guest = []

-- `ROLE_PERMISSIONS`, with sets as lists
unfoldable pub role_permissions : Role → List Permission
role_permissions super_admin = permissions
role_permissions admin =
    can_manage_users ∷ can_view_users ∷ can_delete_users ∷ can_update_users ∷ can_create_users
    ∷ can_view_audit_logs ∷ []
role_permissions manager = can_view_users ∷ can_update_users ∷ can_create_users ∷ []
role_permissions user = can_view_users ∷ []
role_permissions guest = []

pub record UseCaseConfiguration : Type 0 where
  pub require_authentication : Bool
  pub required_roles : List String
  pub required_permissions : List String
  pub transactional : Bool
  pub validate_input : Bool
  pub validate_output : Bool
  pub audit_log : Bool

-- `UseCaseConfiguration()`
abbrev pub default_configuration : UseCaseConfiguration
default_configuration = record {
  require_authentication = true;
  required_roles = [];
  required_permissions = [];
  transactional = true;
  validate_input = true;
  validate_output = true;
  audit_log = true;
}

-- What the checks read of a user; an attribute that may be missing is none.
pub record Actor : Type 0 where
  pub id : ℕ
  pub is_active : Option Bool
  pub is_authenticated : Option Bool
  pub is_superuser : Option Bool
  pub role : Option String
  pub get_permissions : Option (List String)
  pub department_id : Option ℕ

pub record Resource : Type 0 where
  pub user_id : Option ℕ
  pub department_id : Option ℕ

-- The keys `user_{id}_permissions` of the cache are the ids.
pub record AuthorizationManager : Type 0 where
  pub permission_cache : ℕ → Option (List Permission)

-- `_is_valid_user`
unfoldable pub is_valid_user : Option Actor → Bool
is_valid_user none = false
is_valid_user (some u) = or_else u.is_active true && or_else u.is_authenticated true

-- The role of a user, where it has one that is known. An empty text is no role's value.
unfoldable pub known_role : Actor → Option Role
unfolding role_of
known_role u = elim u.role [ none ↦ none | some name ↦ role_of name ]

-- the names of a role and of those below it
unfoldable pub effective_names : Role → List String
unfolding role_hierarchy
effective_names r = map role_value (r ∷ role_hierarchy r)

-- `_has_required_roles`
unfoldable pub has_required_roles : Actor → List String → Bool
unfolding known_role effective_names
has_required_roles u required_roles =
    if is_empty required_roles then true else elim (known_role u) [
      | none ↦ false
      | some r ↦ any (λ name. any (λ n. str_eq n name) (effective_names r)) required_roles
    ]

-- `p in permissions`
unfoldable pub has : Permission → List Permission → Bool
has p ps = any (λ q. str_eq (permission_value p) (permission_value q)) ps

-- the members that are named, the unknown names left out
unfoldable pub known_permissions : List String → List Permission
unfolding permission_of
known_permissions [] = []
known_permissions (name ∷ rest) = elim (permission_of name) [
  | none ↦ known_permissions rest
  | some p ↦ p ∷ known_permissions rest
]

-- the permissions of some roles together
unfoldable pub permissions_of_roles : List Role → List Permission
unfolding role_permissions
permissions_of_roles [] = []
permissions_of_roles (r ∷ rest) = role_permissions r ++ permissions_of_roles rest

unfoldable pub effective_permissions : Role → List String → List Permission
unfolding permissions_of_roles role_hierarchy known_permissions
effective_permissions r explicit =
    permissions_of_roles (r ∷ role_hierarchy r) ++ known_permissions explicit

abbrev pub remember : ℕ → List Permission → AuthorizationManager → AuthorizationManager
remember id ps m = record m {
  permission_cache = λ k. if k == id then some ps else m.permission_cache k;
}

-- `_get_user_permissions`
unfoldable pub get_user_permissions :
    Actor → AuthorizationManager → List Permission × AuthorizationManager
unfolding effective_permissions known_role
get_user_permissions u m = elim (m.permission_cache u.id) [
  | some ps ↦ (ps, m)
  | none ↦ elim (known_role u) [
    | none ↦ ([], m)
    | some r ↦
        let ps = effective_permissions r (or_else u.get_permissions []) in (ps, remember u.id ps m)
  ]
]

-- `_check_resource_permission`
unfoldable pub check_resource_permission : Actor → Resource → Bool
check_resource_permission u resource = elim resource.user_id [
  | some owner ↦ owner == u.id
  | none ↦ elim resource.department_id [
    | none ↦ true
    | some d ↦ elim u.department_id [ none ↦ true | some d' ↦ d == d' ]
  ]
]

-- `resource and not _check_resource_permission(…)`, turned round
abbrev pub resource_allows : Actor → Option Resource → Bool
resource_allows u none = true
resource_allows u (some resource) = check_resource_permission u resource

-- the loop of `_has_required_permissions`
unfoldable pub each_granted : Actor → List Permission → Option Resource → List String → Bool
unfolding permission_of has check_resource_permission
each_granted u held resource [] = true
each_granted u held resource (name ∷ rest) =
    let later = each_granted u held resource rest in
    elim (permission_of name) [
      | none ↦ false
      | some p ↦
          if not (has p held)
          then false
          else if not (resource_allows u resource)
          then false
          else later
    ]

-- `_has_required_permissions`
unfoldable pub has_required_permissions :
    Actor → List String → Option Resource → AuthorizationManager → Bool × AuthorizationManager
unfolding get_user_permissions each_granted
has_required_permissions u required resource m =
    if is_empty required
    then (true, m)
    else let (held, m') = get_user_permissions u m in (each_granted u held resource required, m')

unfoldable pub is_authorized :
    Option Actor
    → UseCaseConfiguration
    → Option Resource
    → AuthorizationManager
    → Bool × AuthorizationManager
unfolding is_valid_user has_required_roles has_required_permissions
is_authorized who config resource m =
    if not config.require_authentication
    then (true, m)
    else if not (is_valid_user who)
    then (false, m)
    else elim who [
      | none ↦ (false, m)
      | some u ↦
          if not (has_required_roles u config.required_roles)
          then (false, m)
          else has_required_permissions u config.required_permissions resource m
    ]

-- `clear_cache`; an empty id is none
unfoldable pub clear_cache : Option ℕ → AuthorizationManager → AuthorizationManager
clear_cache none m = record m { permission_cache = λ k. none }
clear_cache (some id) m = record m {
  permission_cache = λ k. if k == id then none else m.permission_cache k;
}
