-- ===== src/Rbac/Repository.antt =====
-- The repository of app/modules/rbac/infrastructure/persistence on its four tables. The columns
-- `created_at` and `updated_at` are left out.
use fast_kit.Rbac.Tables.{
  UserRoleAssignment, RolePermissionAssignment, distinct, map_permission_to_domain,
  map_role_to_domain, is_live_permission, is_live_role, permissions_of, counts_permission, roles_of,
  assigned_to, is_pair, is_member, is_known, add_pair, drop_pair, add_member, drop_member,
  counts_role, members,
}
use fast_kit.Kit.{
  Text, text_eq, ℕ, ◌+◌, Bool, true, false, not, ◌&&◌, ◌||◌, Option, none, some, List, [], ◌∷◌,
  ◌++◌, map, if◌then◌else◌, option_map, length, take, drop, where_, any, find, pure, raise_if,
  ◌>>=◌, ◌>>◌,
}
use fast_kit.Accounts.Values.{
  Permission, PermissionModel, Role, RoleModel, RolePermissionModel, UserRoleModel, integrity_error,
}
use fast_kit.Accounts.Site.{statement, query, Services, Action}

module _ (env : Services) where
  unfoldable pub create_permission_row : Permission → Action Permission
  unfolding statement
  create_permission_row permission s =
      let m : PermissionModel = record {
        id = s.db.next_id;
        uuid = env.uuid7 s.db.next_id;
        name = permission.name;
        description = permission.description;
        resource = permission.resource;
        action = permission.action;
        deleted_at = none;
      } in
      (raise_if (any (λ p. text_eq p.name m.name || text_eq p.uuid m.uuid) s.db.permissions)
            integrity_error
          >> (statement env
                (λ t. record t { permissions = t.permissions ++ m ∷ []; next_id = t.next_id + 1 })
              >> pure (map_permission_to_domain m)))
        s

  unfoldable pub get_permission_by_name : Text → Action (Option Permission)
  unfolding query
  get_permission_by_name name = query env (λ t.
      option_map map_permission_to_domain
        (find (λ p. text_eq p.name name && is_live_permission p) t.permissions))

  unfoldable pub get_permission_by_uuid : Text → Action (Option Permission)
  unfolding query
  get_permission_by_uuid uuid = query env (λ t.
      option_map map_permission_to_domain
        (find (λ p. text_eq p.uuid uuid && is_live_permission p) t.permissions))

  unfoldable pub list_permission_rows : ℕ → ℕ → Action (List Permission × ℕ)
  unfolding query
  list_permission_rows offset limit = do
    total ← query env (λ t. length (where_ is_live_permission t.permissions))
    items ← query env (λ t.
        map map_permission_to_domain
          (take limit (drop offset (where_ is_live_permission t.permissions))))
    pure (items, total)

  unfoldable pub create_role_row : Role → Action Role
  unfolding statement
  create_role_row role s =
      let m : RoleModel = record {
        id = s.db.next_id;
        uuid = env.uuid7 s.db.next_id;
        name = role.name;
        description = role.description;
        deleted_at = none;
      } in
      (raise_if (any (λ r. text_eq r.name m.name || text_eq r.uuid m.uuid) s.db.roles)
            integrity_error
          >> (statement env (λ t. record t { roles = t.roles ++ m ∷ []; next_id = t.next_id + 1 })
              >> pure (map_role_to_domain false s.db m)))
        s

  unfoldable pub get_role_by_name : Text → Action (Option Role)
  unfolding query
  get_role_by_name name = query env (λ t.
      option_map (map_role_to_domain true t)
        (find (λ r. text_eq r.name name && is_live_role r) t.roles))

  unfoldable pub get_role_by_uuid : Text → Action (Option Role)
  unfolding query
  get_role_by_uuid uuid = query env (λ t.
      option_map (map_role_to_domain true t)
        (find (λ r. text_eq r.uuid uuid && is_live_role r) t.roles))

  unfoldable pub list_role_rows : ℕ → ℕ → Action (List Role × ℕ)
  unfolding query
  list_role_rows offset limit = do
    total ← query env (λ t. length (where_ is_live_role t.roles))
    items ← query env (λ t.
        map (map_role_to_domain true t) (take limit (drop offset (where_ is_live_role t.roles))))
    pure (items, total)

  -- `session.add`; the foreign keys are checked when the session is flushed.
  unfoldable pub add_role_permission : ℕ → ℕ → Option ℕ → Action (Unit {0})
  unfolding statement
  add_role_permission role_id permission_id assigned_by s =
      (raise_if (not (is_known assigned_by s.db)) integrity_error
          >> statement env (add_pair role_id permission_id assigned_by s.now))
        s

  unfoldable pub assign_permission_to_role : ℕ → ℕ → Option ℕ → Action (Unit {0})
  unfolding query add_role_permission
  assign_permission_to_role role_id permission_id assigned_by =
      query env (λ t. any (is_pair role_id permission_id) t.role_permissions) >>= λ existing.
      if existing then pure tt else add_role_permission role_id permission_id assigned_by

  unfoldable pub remove_permission_from_role : ℕ → ℕ → Action (Unit {0})
  unfolding query statement
  remove_permission_from_role role_id permission_id =
      query env (λ t. any (is_pair role_id permission_id) t.role_permissions) >>= λ existing.
      if existing then statement env (drop_pair role_id permission_id) else pure tt

  unfoldable pub get_role_permissions : ℕ → Action (List Permission)
  unfolding query
  get_role_permissions role_id = query env (λ t.
      map (λ (x : PermissionModel × RolePermissionModel). map_permission_to_domain x.0)
        (assigned_to role_id t))

  unfoldable pub add_user_role : ℕ → ℕ → Option ℕ → Action (Unit {0})
  unfolding statement
  add_user_role user_id role_id assigned_by s =
      (raise_if (not (is_known (some user_id) s.db && is_known assigned_by s.db)) integrity_error
          >> statement env (add_member user_id role_id assigned_by s.now))
        s

  unfoldable pub assign_role_to_user : ℕ → ℕ → Option ℕ → Action (Unit {0})
  unfolding query add_user_role
  assign_role_to_user user_id role_id assigned_by =
      query env (λ t. any (is_member user_id role_id) t.user_roles) >>= λ existing.
      if existing then pure tt else add_user_role user_id role_id assigned_by

  unfoldable pub remove_role_from_user : ℕ → ℕ → Action (Unit {0})
  unfolding query statement
  remove_role_from_user user_id role_id =
      query env (λ t. any (is_member user_id role_id) t.user_roles) >>= λ existing.
      if existing then statement env (drop_member user_id role_id) else pure tt

  unfoldable pub get_user_roles : ℕ → Action (List Role)
  unfolding query
  get_user_roles user_id = query env (λ t.
      map (λ (x : RoleModel × UserRoleModel). map_role_to_domain true t x.0) (roles_of user_id t))

  unfoldable pub get_user_permissions : ℕ → Action (List Permission)
  unfolding query distinct
  get_user_permissions user_id =
      query env (λ t. map map_permission_to_domain (permissions_of user_id t))

  unfoldable pub user_has_permission : ℕ → Text → Action Bool
  unfolding query
  user_has_permission user_id permission_name =
      query env (counts_permission user_id permission_name)

  unfoldable pub user_has_role : ℕ → Text → Action Bool
  unfolding query
  user_has_role user_id role_name = query env (counts_role user_id role_name)

  unfoldable pub get_user_ids_for_role : ℕ → Action (List ℕ)
  unfolding query
  get_user_ids_for_role role_id = query env (members role_id)

  unfoldable pub get_user_role_assignments : ℕ → Action (List UserRoleAssignment)
  unfolding query
  get_user_role_assignments user_id = query env (λ t.
      map
        (λ (x : RoleModel × UserRoleModel). record {
          role = map_role_to_domain false t x.0;
          assigned_by = x.1.assigned_by;
          assigned_at = x.1.assigned_at;
        })
        (roles_of user_id t))

  unfoldable pub get_role_permission_assignments : ℕ → Action (List RolePermissionAssignment)
  unfolding query
  get_role_permission_assignments role_id = query env (λ t.
      map
        (λ (x : PermissionModel × RolePermissionModel). record {
          permission = map_permission_to_domain x.0;
          assigned_by = x.1.assigned_by;
          assigned_at = x.1.assigned_at;
        })
        (assigned_to role_id t))
