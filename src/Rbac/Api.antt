-- ===== src/Rbac/Api.antt =====
-- app/modules/rbac/api/router.py. The session and the guard of a request come in front of the body of
-- its handler.
use fast_kit.Rbac.UseCases.{
  revoke_permission_execute, get_role_execute, assign_role_execute, assign_permission_execute,
  create_role_execute, revoke_role_execute, role_assignments_execute, create_permission_execute,
}
use fast_kit.Auth.Guards.{require_permission}
use fast_kit.Rbac.Tables.{RolePermissionAssignment, UserRoleAssignment}
use fast_kit.Rbac.Repository.{
  list_permission_rows, list_role_rows, get_user_permissions, user_has_permission,
  get_user_role_assignments,
}
use fast_kit.Kit.{Text, codes, ℕ, String, Bool, Option, none, some, List, map, pure, ◌>>=◌}
use fast_kit.Accounts.Values.{
  User, AccountFailure, Role, Permission, app_exception, role_not_found_error,
  role_already_exists_error, role_already_assigned_error, role_not_assigned_error,
  permission_not_found_error, permission_already_exists_error, permission_not_assigned_error,
  permission_already_assigned_error, permission_denied_error,
}
use fast_kit.Accounts.Site.{request, except, Services, Action}

-- `RBAC_EXCEPTIONS`; what it does not list is an unknown error.
abbrev map_rbac_error : AccountFailure → AccountFailure
map_rbac_error permission_not_found_error = app_exception "PERMISSION_NOT_FOUND" 404
map_rbac_error permission_already_exists_error = app_exception "PERMISSION_ALREADY_EXISTS" 409
map_rbac_error role_not_found_error = app_exception "ROLE_NOT_FOUND" 404
map_rbac_error role_already_exists_error = app_exception "ROLE_ALREADY_EXISTS" 409
map_rbac_error permission_denied_error = app_exception "PERMISSION_DENIED" 403
map_rbac_error role_already_assigned_error = app_exception "ROLE_ALREADY_ASSIGNED" 409
map_rbac_error role_not_assigned_error = app_exception "ROLE_NOT_ASSIGNED" 400
map_rbac_error permission_already_assigned_error = app_exception "PERMISSION_ALREADY_ASSIGNED" 409
map_rbac_error permission_not_assigned_error = app_exception "PERMISSION_NOT_ASSIGNED" 400
map_rbac_error _ = app_exception "UNKNOWN_ERROR" 500

-- The classes that the handlers catch.
abbrev pub exists_errors : AccountFailure → Option AccountFailure
exists_errors permission_already_exists_error =
    some (map_rbac_error permission_already_exists_error)
exists_errors role_already_exists_error = some (map_rbac_error role_already_exists_error)
exists_errors _ = none

abbrev pub role_errors : AccountFailure → Option AccountFailure
role_errors role_not_found_error = some (map_rbac_error role_not_found_error)
role_errors _ = none

abbrev pub link_errors : AccountFailure → Option AccountFailure
link_errors role_not_found_error = some (map_rbac_error role_not_found_error)
link_errors permission_not_found_error = some (map_rbac_error permission_not_found_error)
link_errors permission_already_assigned_error =
    some (map_rbac_error permission_already_assigned_error)
link_errors _ = none

abbrev pub unlink_errors : AccountFailure → Option AccountFailure
unlink_errors role_not_found_error = some (map_rbac_error role_not_found_error)
unlink_errors permission_not_found_error = some (map_rbac_error permission_not_found_error)
unlink_errors permission_not_assigned_error = some (map_rbac_error permission_not_assigned_error)
unlink_errors _ = none

abbrev pub member_errors : AccountFailure → Option AccountFailure
member_errors role_not_found_error = some (map_rbac_error role_not_found_error)
member_errors role_already_assigned_error = some (map_rbac_error role_already_assigned_error)
member_errors _ = none

abbrev pub leave_errors : AccountFailure → Option AccountFailure
leave_errors role_not_found_error = some (map_rbac_error role_not_found_error)
leave_errors role_not_assigned_error = some (map_rbac_error role_not_assigned_error)
leave_errors _ = none

module _ (env : Services) where
  -- A handler behind `Depends(require_permission(permission))`.
  unfoldable pub endpoint : {A : Type 0} → String → Text → (User → Action A) → Action A
  unfolding request require_permission
  endpoint permission token body =
      request (require_permission env (codes permission) token >>= body)

  unfoldable pub create_permission : Text → Permission → Action Permission
  unfolding endpoint except create_permission_execute
  create_permission token permission =
      endpoint "rbac:permission:create" token
        (λ _. except exists_errors (create_permission_execute env permission))

  unfoldable pub list_permissions : Text → ℕ → ℕ → Action (List Permission × ℕ)
  unfolding endpoint list_permission_rows
  list_permissions token offset limit =
      endpoint "rbac:permission:list" token (λ _. list_permission_rows env offset limit)

  unfoldable pub create_role : Text → Role → Action Role
  unfolding endpoint except create_role_execute
  create_role token role =
      endpoint "rbac:role:create" token (λ _. except exists_errors (create_role_execute env role))

  unfoldable pub list_roles : Text → ℕ → ℕ → Action (List Role × ℕ)
  unfolding endpoint list_role_rows
  list_roles token offset limit =
      endpoint "rbac:role:list" token (λ _. list_role_rows env offset limit)

  unfoldable pub read_role : Text → Text → Action Role
  unfolding endpoint except get_role_execute
  read_role token uuid =
      endpoint "rbac:role:read" token (λ _. except role_errors (get_role_execute env uuid))

  unfoldable pub assign_permission : Text → Text → Text → Action (Unit {0})
  unfolding endpoint except assign_permission_execute
  assign_permission token role_uuid permission_uuid =
      endpoint "rbac:role:assign_permission" token (λ current_user.
        except link_errors
          (assign_permission_execute env role_uuid permission_uuid current_user.id))

  unfoldable pub revoke_permission : Text → Text → Text → Action (Unit {0})
  unfolding endpoint except revoke_permission_execute
  revoke_permission token role_uuid permission_uuid =
      endpoint "rbac:role:revoke_permission" token
        (λ _. except unlink_errors (revoke_permission_execute env role_uuid permission_uuid))

  unfoldable pub read_role_permissions : Text → Text → Action (List RolePermissionAssignment)
  unfolding endpoint except role_assignments_execute
  read_role_permissions token role_uuid =
      endpoint "rbac:role:read_permissions" token
        (λ _. except role_errors (role_assignments_execute env role_uuid))

  unfoldable pub assign_role : Text → Text → ℕ → Action (Unit {0})
  unfolding endpoint except assign_role_execute
  assign_role token role_uuid user_id = endpoint "rbac:role:assign_user" token (λ current_user.
      except member_errors (assign_role_execute env user_id role_uuid current_user.id))

  unfoldable pub revoke_role : Text → Text → ℕ → Action (Unit {0})
  unfolding endpoint except revoke_role_execute
  revoke_role token role_uuid user_id =
      endpoint "rbac:role:revoke_user" token
        (λ _. except leave_errors (revoke_role_execute env user_id role_uuid))

  unfoldable pub read_user_permissions : Text → ℕ → Action (List Text)
  unfolding endpoint get_user_permissions
  read_user_permissions token user_id = endpoint "rbac:user:read_permissions" token (λ _.
      get_user_permissions env user_id >>= λ permissions.
      pure (map (λ (p : Permission). p.name) permissions))

  unfoldable pub read_user_roles : Text → ℕ → Action (List UserRoleAssignment)
  unfolding endpoint get_user_role_assignments
  read_user_roles token user_id =
      endpoint "rbac:user:read_roles" token (λ _. get_user_role_assignments env user_id)

  unfoldable pub check_user_permission : Text → ℕ → Text → Action Bool
  unfolding endpoint user_has_permission
  check_user_permission token user_id permission =
      endpoint "rbac:user:check_permission" token (λ _. user_has_permission env user_id permission)
