-- ===== src/UseCase/Access/Allowed.antt =====
-- Whom `is_authorized` of apps/tcc/usecase/usecases/base/config.py lets through.
use taunggyi_city_church.Common.{
  ◌≡◌, refl, sym, ◌∙◌, true, ◌&&◌, Option, some, List, [], ◌∷◌, inl, inr, String, or_else,
  Bool-cases, all,
}
use taunggyi_city_church.UseCase.Access.{
  Actor, Resource, Role, AuthorizationManager, UseCaseConfiguration, known_role, has_required_roles,
  has_required_permissions, is_authorized, is_valid_user, permission_of,
}
use taunggyi_city_church.UseCase.Access.Ranks.{
  grants, IsFresh, may_run, roles_lem, permissions_lem, each_lem,
}

required_lem :
    (u : Actor) (r : Role) (names : List String) (resource : Option Resource)
    (m : AuthorizationManager)
    → known_role u ≡ some r
    → IsFresh u r m
    → ((has_required_permissions u names resource m).0
        ≡ all (λ name. grants u r resource (permission_of name)) names)
      × IsFresh u r (has_required_permissions u names resource m).1
unfolding has_required_permissions
required_lem u r [] resource m k fresh = (refl, fresh)
required_lem u r (name ∷ rest) resource m k fresh =
    let (held, kept) = permissions_lem u r m k fresh in
    (rw held (each_lem u r resource (name ∷ rest)), inr kept)

-- For a user whose role is one of the five and of whom nothing outdated is remembered, is_authorized
-- says yes exactly when no authentication is required or when the user is active and authenticated,
-- some required role (if there is any) ranks no higher than that of the user, and each required
-- permission is one that a rank no higher than that of the user has or that the user has explicitly,
-- and is not denied for the resource. Nothing outdated is remembered of the user afterwards.
pub is_authorized_lem :
    (u : Actor) (r : Role) (config : UseCaseConfiguration) (resource : Option Resource)
    (m : AuthorizationManager)
    → known_role u ≡ some r
    → IsFresh u r m
    → ((is_authorized (some u) config resource m).0 ≡ may_run u r config resource)
      × IsFresh u r (is_authorized (some u) config resource m).1
unfolding is_authorized is_valid_user
is_authorized_lem u r config resource m k fresh = elim (Bool-cases config.require_authentication) [
  | inr open_to_all ↦ rw open_to_all (refl, fresh)
  | inl asked ↦ elim (Bool-cases (or_else u.is_active true && or_else u.is_authenticated true)) [
    | inr invalid ↦ rw (asked, invalid) (refl, fresh)
    | inl valid ↦ elim (Bool-cases (has_required_roles u config.required_roles)) [
      | inr without ↦
          rw (asked, valid, without, (sym (roles_lem u r config.required_roles k) ∙ without))
            (refl, fresh)
      | inl with_role ↦
          rw (asked, valid, with_role, (sym (roles_lem u r config.required_roles k) ∙ with_role))
            (required_lem u r config.required_permissions resource m k fresh)
    ]
  ]
]
