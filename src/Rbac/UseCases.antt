-- ===== src/Rbac/UseCases.antt =====
-- app/modules/rbac/use_cases.
use fast_kit.Auth.Guards.{cache_delete_names}
use fast_kit.Rbac.Tables.{RolePermissionAssignment}
use fast_kit.Rbac.Repository.{
  remove_permission_from_role, assign_role_to_user, create_permission_row, create_role_row,
  remove_role_from_user, assign_permission_to_role, get_role_by_uuid, user_has_role,
  get_role_by_name, get_role_permissions, get_user_ids_for_role, get_role_permission_assignments,
  get_permission_by_name, get_permission_by_uuid,
}
use fast_kit.Kit.{
  Text, ℕ, Bool, false, not, Option, none, some, List, num_eq, is_some, option_map, any, pure,
  or_raise, raise_if, ◌>>=◌, ◌>>◌, for_each,
}
use fast_kit.Accounts.Values.{
  Role, Permission, role_not_found_error, role_already_exists_error, role_already_assigned_error,
  role_not_assigned_error, permission_not_found_error, permission_already_exists_error,
  permission_not_assigned_error,
}
use fast_kit.Accounts.Site.{commit, Services, Action}

-- `not role or role.id is None`
abbrev pub keyed : {A : Type 0} → (A → Option ℕ) → Option A → Option (A × ℕ)
keyed id none = none
keyed id (some a) = option_map (λ n. (a, n)) (id a)

abbrev pub role_id : Role → Option ℕ
role_id r = r.id

abbrev pub permission_id : Permission → Option ℕ
permission_id p = p.id

abbrev pub has_key : ℕ → Permission → Bool
has_key id p = elim p.id [ none ↦ false | some n ↦ num_eq n id ]

module _ (env : Services) where
  unfoldable pub create_permission_execute : Permission → Action Permission
  unfolding get_permission_by_name create_permission_row commit
  create_permission_execute permission = do
    existing ← get_permission_by_name env permission.name
    raise_if (is_some existing) permission_already_exists_error
    saved ← create_permission_row env permission
    commit env
    pure saved

  unfoldable pub create_role_execute : Role → Action Role
  unfolding get_role_by_name create_role_row commit
  create_role_execute role = do
    existing ← get_role_by_name env role.name
    raise_if (is_some existing) role_already_exists_error
    saved ← create_role_row env role
    commit env
    pure saved

  -- The role with its key, and the permission with its key.
  unfoldable pub find_role : Text → Action (Role × ℕ)
  unfolding get_role_by_uuid
  find_role role_uuid =
      get_role_by_uuid env role_uuid >>= λ role. or_raise (keyed role_id role) role_not_found_error

  unfoldable pub find_permission : Text → Action (Permission × ℕ)
  unfolding get_permission_by_uuid
  find_permission permission_uuid = get_permission_by_uuid env permission_uuid >>= λ permission.
      or_raise (keyed permission_id permission) permission_not_found_error

  -- The lists of all users that have the role are dropped.
  unfoldable pub invalidate_members : ℕ → Action (Unit {0})
  unfolding get_user_ids_for_role cache_delete_names
  invalidate_members role = get_user_ids_for_role env role >>= for_each (cache_delete_names env)

  unfoldable pub assign_permission_execute : Text → Text → Option ℕ → Action (Unit {0})
  unfolding find_role find_permission assign_permission_to_role commit invalidate_members
  assign_permission_execute role_uuid permission_uuid assigned_by = do
    role ← find_role role_uuid
    permission ← find_permission permission_uuid
    assign_permission_to_role env role.1 permission.1 assigned_by
    commit env
    invalidate_members role.1

  unfoldable pub revoke_permission_execute : Text → Text → Action (Unit {0})
  unfolding find_role find_permission get_role_permissions remove_permission_from_role commit
      invalidate_members
  revoke_permission_execute role_uuid permission_uuid = do
    role ← find_role role_uuid
    permission ← find_permission permission_uuid
    role_perms ← get_role_permissions env role.1
    raise_if (not (any (has_key permission.1) role_perms)) permission_not_assigned_error
    remove_permission_from_role env role.1 permission.1
    commit env
    invalidate_members role.1

  unfoldable pub assign_role_execute : ℕ → Text → Option ℕ → Action (Unit {0})
  unfolding find_role user_has_role assign_role_to_user commit cache_delete_names
  assign_role_execute user_id role_uuid assigned_by = do
    role ← find_role role_uuid
    already_has ← user_has_role env user_id role.0.name
    raise_if already_has role_already_assigned_error
    assign_role_to_user env user_id role.1 assigned_by
    commit env
    cache_delete_names env user_id

  unfoldable pub revoke_role_execute : ℕ → Text → Action (Unit {0})
  unfolding find_role user_has_role remove_role_from_user commit cache_delete_names
  revoke_role_execute user_id role_uuid = do
    role ← find_role role_uuid
    has_role ← user_has_role env user_id role.0.name
    raise_if (not has_role) role_not_assigned_error
    remove_role_from_user env user_id role.1
    commit env
    cache_delete_names env user_id

  unfoldable pub get_role_execute : Text → Action Role
  unfolding get_role_by_uuid
  get_role_execute uuid = get_role_by_uuid env uuid >>= λ role. or_raise role role_not_found_error

  unfoldable pub role_assignments_execute : Text → Action (List RolePermissionAssignment)
  unfolding find_role get_role_permission_assignments
  role_assignments_execute uuid =
      find_role uuid >>= λ role. get_role_permission_assignments env role.1
