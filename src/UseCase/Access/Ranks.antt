-- ===== src/UseCase/Access/Ranks.antt =====
-- `AuthorizationManager` of apps/tcc/usecase/usecases/base/config.py against a description by ranks.
use taunggyi_city_church.Common.{
  ℕ, ◌≡◌, refl, ap, subst, ◌∙◌, Bool, true, false, not, ◌&&◌, ◌||◌, Option, none, some, List, [],
  ◌∷◌, ◌++◌, ◌⊎◌, inl, inr, String, str_eq, eq_iff, arith, leb, or_else, any, all, is_empty,
  Bool-cases, Option-cases,
}
use taunggyi_city_church.UseCase.Access.{
  Permission, can_manage_users, can_view_users, can_delete_users, can_update_users,
  can_create_users, can_manage_roles, can_view_audit_logs, Role, super_admin, admin, manager, user,
  guest, role_of, AuthorizationManager, UseCaseConfiguration, known_role, has_required_roles,
  get_user_permissions, Actor, Resource, known_permissions, effective_permissions, permission_of,
  each_granted, resource_allows, role_hierarchy, effective_names, has, permissions_of_roles,
  role_permissions, roles, role_value,
}

-- the height of a role in the hierarchy
abbrev pub rank : Role → ℕ
rank super_admin = 4
rank admin = 3
rank manager = 2
rank user = 1
rank guest = 0

-- the lowest rank that has a permission
abbrev pub needed : Permission → ℕ
needed can_manage_roles = 4
needed can_manage_users = 3
needed can_delete_users = 3
needed can_view_audit_logs = 3
needed can_update_users = 2
needed can_create_users = 2
needed can_view_users = 1

abbrev pub ranks_below : Role → Option Role → Bool
ranks_below r none = false
ranks_below r (some q) = leb (rank q) (rank r)

abbrev Missing : String → List Role → Type 0
Missing name [] = Unit {0}
Missing name (q ∷ rest) = (str_eq (role_value q) name ≡ false) × Missing name rest

-- A text is the value of a role or of none in a list.
named : (name : String) (rs : List Role) → ((q : Role) × (role_value q ≡ name)) ⊎ Missing name rs
named name [] = inr tt
named name (q ∷ rest) = elim (Bool-cases (str_eq (role_value q) name)) [
  | inl e ↦ inl (q, (eq_iff _ _).0 e)
  | inr e ↦ elim (named name rest) [ inl found ↦ inl found | inr missing ↦ inr (e, missing) ]
]

names_table :
    (r q : Role)
    → any (λ n. str_eq n (role_value q)) (effective_names r)
      ≡ ranks_below r (role_of (role_value q))
unfolding effective_names role_of role_hierarchy
names_table super_admin super_admin = refl
names_table super_admin _ = refl
names_table admin super_admin = refl
names_table admin _ = refl
names_table manager super_admin = refl
names_table manager _ = refl
names_table user super_admin = refl
names_table user _ = refl
names_table guest super_admin = refl
names_table guest _ = refl

names-Missing :
    (r : Role) (name : String)
    → Missing name roles
    → any (λ n. str_eq n name) (effective_names r) ≡ ranks_below r (role_of name)
unfolding effective_names role_of role_hierarchy
names-Missing super_admin name (a, (b, (c, (d, (e, _))))) = rw (a, b, c, d, e) refl
names-Missing r name (a, (b, (c, (d, (e, _))))) = rw (a, b, c, d, e) refl

effective_names_lem :
    (r : Role) (name : String)
    → any (λ n. str_eq n name) (effective_names r) ≡ ranks_below r (role_of name)
effective_names_lem r name = elim (named name roles) [
  | inl (q, e) ↦
      subst (λ n. any (λ n'. str_eq n' n) (effective_names r) ≡ ranks_below r (role_of n)) e
        (names_table r q)
  | inr missing ↦ names-Missing r name missing
]

has_append : (p : Permission) (xs ys : List Permission) → has p (xs ++ ys) ≡ (has p xs || has p ys)
unfolding has
has_append p [] ys = refl
has_append p (x ∷ xs) ys = ground (arith, has_append p xs ys)

permissions_of_rank :
    (r : Role) (p : Permission)
    → has p (permissions_of_roles (r ∷ role_hierarchy r)) ≡ leb (needed p) (rank r)
unfolding has permissions_of_roles role_hierarchy role_permissions
permissions_of_rank super_admin can_manage_users = refl
permissions_of_rank super_admin _ = refl
permissions_of_rank admin can_manage_users = refl
permissions_of_rank admin _ = refl
permissions_of_rank manager can_manage_users = refl
permissions_of_rank manager _ = refl
permissions_of_rank user can_manage_users = refl
permissions_of_rank user _ = refl
permissions_of_rank guest can_manage_users = refl
permissions_of_rank guest _ = refl

effective_lem :
    (r : Role) (explicit : List String) (p : Permission)
    → has p (effective_permissions r explicit)
      ≡ (leb (needed p) (rank r) || has p (known_permissions explicit))
unfolding effective_permissions
effective_lem r explicit p =
    has_append p (permissions_of_roles (r ∷ role_hierarchy r)) (known_permissions explicit)
    ∙ ap (λ (b : Bool). b || has p (known_permissions explicit)) (permissions_of_rank r p)

-- what is asked of one role name and of one permission name, by ranks
abbrev pub explicit_names : Actor → List String
explicit_names u = or_else u.get_permissions []

abbrev pub grants : Actor → Role → Option Resource → Option Permission → Bool
grants u r resource none = false
grants u r resource (some p) =
    (leb (needed p) (rank r) || has p (known_permissions (explicit_names u)))
    && resource_allows u resource

any_named :
    (r : Role) (names : List String)
    → any (λ name. any (λ n. str_eq n name) (effective_names r)) names
      ≡ any (λ name. ranks_below r (role_of name)) names
any_named r [] = refl
any_named r (name ∷ rest) = rw (effective_names_lem r name, any_named r rest) refl

pub each_lem :
    (u : Actor) (r : Role) (resource : Option Resource) (names : List String)
    → each_granted u (effective_permissions r (explicit_names u)) resource names
      ≡ all (λ name. grants u r resource (permission_of name)) names
unfolding each_granted
each_lem u r resource [] = refl
each_lem u r resource (name ∷ rest) = elim (Option-cases (permission_of name)) [
  | inl e ↦ rw (e, each_granted) refl
  | inr (p, e) ↦
      rw (e, each_granted)
        (ground (arith, effective_lem r (explicit_names u) p, each_lem u r resource rest))
]

-- What the manager remembers of a user, if anything, is what it would compute.
abbrev pub IsFresh : Actor → Role → AuthorizationManager → Type 0
IsFresh u r m =
    (m.permission_cache u.id ≡ none)
    ⊎ (m.permission_cache u.id ≡ some (effective_permissions r (explicit_names u)))

-- the decision for a user with a known role, by ranks
abbrev pub may_run : Actor → Role → UseCaseConfiguration → Option Resource → Bool
may_run u r config resource =
    not config.require_authentication
    || ((or_else u.is_active true && or_else u.is_authenticated true)
        && ((is_empty config.required_roles
              || any (λ name. ranks_below r (role_of name)) config.required_roles)
            && all (λ name. grants u r resource (permission_of name)) config.required_permissions))

pub roles_lem :
    (u : Actor) (r : Role) (names : List String)
    → known_role u ≡ some r
    → has_required_roles u names
      ≡ (is_empty names || any (λ name. ranks_below r (role_of name)) names)
unfolding has_required_roles
roles_lem u r [] k = refl
roles_lem u r (name ∷ rest) k = rw (k, has_required_roles) (any_named r (name ∷ rest))

abbrev pub Answers :
    Actor → Role → AuthorizationManager → List Permission × AuthorizationManager → Type 0
Answers u r m got =
    (got.0 ≡ effective_permissions r (explicit_names u))
    × (got.1.permission_cache u.id ≡ some (effective_permissions r (explicit_names u)))

pub permissions_lem :
    (u : Actor) (r : Role) (m : AuthorizationManager)
    → known_role u ≡ some r
    → IsFresh u r m
    → Answers u r m (get_user_permissions u m)
unfolding get_user_permissions
permissions_lem u r m k (inl e) = rw (e, get_user_permissions, k) (ground arith)
permissions_lem u r m k (inr e) = rw (e, get_user_permissions) (refl, e)
