-- ===== src/Rbac/Tables.antt =====
-- What the queries and the writes of app/modules/rbac/infrastructure/persistence/repository.py are
-- of the tables: the joins, the rows and their entities. A join is the list of the combinations of
-- rows that meet its condition.
pub mod Grants
use fast_kit.Kit.{
  Text, text_eq, ℕ, Bool, true, false, not, ◌&&◌, Option, none, some, List, [], ◌∷◌, ◌++◌, map,
  if◌then◌else◌, ltb, num_eq, is_some, length, where_, any, join,
}
use fast_kit.Accounts.Values.{
  Permission, PermissionModel, Role, RoleModel, RolePermissionModel, UserRoleModel,
}
use fast_kit.Accounts.Site.{Tables}

pub record UserRoleAssignment : Type 0 where
  pub role : Role
  pub assigned_by : Option ℕ
  pub assigned_at : ℕ

pub record RolePermissionAssignment : Type 0 where
  pub permission : Permission
  pub assigned_by : Option ℕ
  pub assigned_at : ℕ

abbrev option_eq : Option Text → Option Text → Bool
option_eq none none = true
option_eq (some s) (some t) = text_eq s t
option_eq none (some _) = false
option_eq (some _) none = false

-- `SELECT DISTINCT` compares the columns; of the rows that have passed, none is deleted.
abbrev pub same_columns : PermissionModel → PermissionModel → Bool
same_columns p q =
    num_eq p.id q.id
    && text_eq p.name q.name
    && text_eq p.uuid q.uuid
    && option_eq p.description q.description
    && text_eq p.resource q.resource
    && text_eq p.action q.action

unfoldable pub distinct : List PermissionModel → List PermissionModel
distinct [] = []
distinct (p ∷ ps) = p ∷ where_ (λ q. not (same_columns p q)) (distinct ps)

abbrev pub map_permission_to_domain : PermissionModel → Permission
map_permission_to_domain m = record {
  id = some m.id;
  uuid = some m.uuid;
  name = m.name;
  description = m.description;
  resource = m.resource;
  action = m.action;
}

-- `RoleModel.permissions`: what the association has, deleted or not.
abbrev role_permissions_of : RoleModel → Tables → List PermissionModel
role_permissions_of r t =
    map (λ (x : RolePermissionModel × PermissionModel). x.1)
      (join (λ (rp : RolePermissionModel) (p : PermissionModel). num_eq p.id rp.permission_id)
        (where_ (λ rp. num_eq rp.role_id r.id) t.role_permissions) t.permissions)

abbrev pub map_role_to_domain : Bool → Tables → RoleModel → Role
map_role_to_domain include_permissions t m = record {
  id = some m.id;
  uuid = some m.uuid;
  name = m.name;
  description = m.description;
  permissions =
      if include_permissions then map map_permission_to_domain (role_permissions_of m t) else [];
}

abbrev pub is_live_permission : PermissionModel → Bool
is_live_permission p = not (is_some p.deleted_at)

abbrev pub is_live_role : RoleModel → Bool
is_live_role r = not (is_some r.deleted_at)

-- The permissions of roles of users: the joins of `get_user_permissions` and `user_has_permission`.
abbrev pub Access : Type 0
Access = ((PermissionModel × RolePermissionModel) × UserRoleModel) × RoleModel

abbrev pub on_permission : PermissionModel → RolePermissionModel → Bool
on_permission p rp = num_eq p.id rp.permission_id

abbrev pub on_user : PermissionModel × RolePermissionModel → UserRoleModel → Bool
on_user x ur = num_eq x.1.role_id ur.role_id

abbrev pub on_role : (PermissionModel × RolePermissionModel) × UserRoleModel → RoleModel → Bool
on_role x r = num_eq r.id x.1.role_id

abbrev pub with_links : Tables → List (PermissionModel × RolePermissionModel)
with_links t = join on_permission t.permissions t.role_permissions

abbrev pub with_users : Tables → List ((PermissionModel × RolePermissionModel) × UserRoleModel)
with_users t = join on_user (with_links t) t.user_roles

abbrev pub accesses : Tables → List Access
accesses t = join on_role (with_users t) t.roles

abbrev pub gives : ℕ → Access → Bool
gives user_id x = num_eq x.0.1.user_id user_id && is_live_permission x.0.0.0 && is_live_role x.1

abbrev pub permissions_of : ℕ → Tables → List PermissionModel
permissions_of user_id t =
    distinct (map (λ (x : Access). x.0.0.0) (where_ (gives user_id) (accesses t)))

abbrev pub permission_names : ℕ → Tables → List Text
permission_names user_id t = map (λ (p : PermissionModel). p.name) (permissions_of user_id t)

abbrev pub counts_permission : ℕ → Text → Tables → Bool
counts_permission user_id permission_name t = ltb 0 (
    length (
      where_ (λ (x : Access). gives user_id x && text_eq x.0.0.0.name permission_name)
        (accesses t)))

-- The roles of a user, with the rows that assign them.
abbrev pub roles_of : ℕ → Tables → List (RoleModel × UserRoleModel)
roles_of user_id t =
    where_ (λ (x : RoleModel × UserRoleModel). num_eq x.1.user_id user_id && is_live_role x.0)
      (join (λ (r : RoleModel) (ur : UserRoleModel). num_eq r.id ur.role_id) t.roles t.user_roles)

-- The permissions of a role, with the rows that assign them.
abbrev pub assigned_to : ℕ → Tables → List (PermissionModel × RolePermissionModel)
assigned_to role_id t =
    where_
      (λ (x : PermissionModel × RolePermissionModel).
        num_eq x.1.role_id role_id && is_live_permission x.0)
      (join (λ (p : PermissionModel) (rp : RolePermissionModel). num_eq p.id rp.permission_id)
        t.permissions t.role_permissions)

abbrev pub is_pair : ℕ → ℕ → RolePermissionModel → Bool
is_pair role_id permission_id rp =
    num_eq rp.role_id role_id && num_eq rp.permission_id permission_id

abbrev pub is_member : ℕ → ℕ → UserRoleModel → Bool
is_member user_id role_id ur = num_eq ur.user_id user_id && num_eq ur.role_id role_id

abbrev pub is_known : Option ℕ → Tables → Bool
is_known none t = true
is_known (some id) t = any (λ u. num_eq u.id id) t.users

-- The writes.
abbrev pub add_pair : ℕ → ℕ → Option ℕ → ℕ → Tables → Tables
add_pair role_id permission_id assigned_by now t = record t {
  role_permissions =
      t.role_permissions
      ++ record {
        role_id = role_id;
        permission_id = permission_id;
        assigned_by = assigned_by;
        assigned_at = now;
      }
        ∷ [];
}

abbrev pub drop_pair : ℕ → ℕ → Tables → Tables
drop_pair role_id permission_id t = record t {
  role_permissions = where_ (λ rp. not (is_pair role_id permission_id rp)) t.role_permissions;
}

abbrev pub add_member : ℕ → ℕ → Option ℕ → ℕ → Tables → Tables
add_member user_id role_id assigned_by now t = record t {
  user_roles =
      t.user_roles
      ++ record {
        user_id = user_id;
        role_id = role_id;
        assigned_by = assigned_by;
        assigned_at = now;
      }
        ∷ [];
}

abbrev pub drop_member : ℕ → ℕ → Tables → Tables
drop_member user_id role_id t = record t {
  user_roles = where_ (λ ur. not (is_member user_id role_id ur)) t.user_roles;
}

abbrev pub counts_role : ℕ → Text → Tables → Bool
counts_role user_id role_name t = ltb 0 (
    length
      (where_ (λ (x : RoleModel × UserRoleModel). text_eq x.0.name role_name) (roles_of user_id t)))

abbrev pub members : ℕ → Tables → List ℕ
members role_id t =
    map (λ (ur : UserRoleModel). ur.user_id) (where_ (λ ur. num_eq ur.role_id role_id) t.user_roles)
