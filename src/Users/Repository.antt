-- ===== src/Users/Repository.antt =====
-- The repository of app/modules/user/infrastructure/persistence on the table of users. The columns
-- `created_at` and `updated_at` are left out.
use fast_kit.Kit.{
  Text, text_eq, ℕ, ◌+◌, Bool, true, not, ◌&&◌, ◌||◌, Option, none, some, List, [], ◌∷◌, ◌++◌, map,
  if◌then◌else◌, num_eq, is_some, or_else, option_map, length, take, drop, where_, any, find,
  update_where, pure, lift, raise_if, ◌>>=◌, ◌>>◌, Result, ok, err,
}
use fast_kit.Accounts.Values.{
  UserRoleModel, RolePermissionModel, same_status, AccountFailure, User, UserModel, UserStatus,
  integrity_error, attribute_error,
}
use fast_kit.Accounts.Site.{statement, query, Tables, Services, Action}

-- `Email` and `PhoneNumber` check the columns again when a row is read; the columns were checked by the
-- same patterns when the row was written, and the second check is left out.
abbrev pub map_to_domain : UserModel → User
map_to_domain m = record {
  id = some m.id;
  uuid = some m.uuid;
  email = m.email;
  hashed_password = m.hashed_password;
  phone_number = some m.phone_number;
  username = m.username;
  first_name = m.first_name;
  last_name = m.last_name;
  status = m.status;
  is_superuser = m.is_superuser;
  deleted_at = m.deleted_at;
}

abbrev pub row_of : Services → User → Text → Tables → UserModel
row_of env u phone_number t = record {
  id = or_else u.id t.next_id;
  uuid = or_else u.uuid (env.uuid7 t.next_id);
  email = u.email;
  hashed_password = u.hashed_password;
  phone_number = phone_number;
  username = u.username;
  first_name = u.first_name;
  last_name = u.last_name;
  status = u.status;
  is_superuser = u.is_superuser;
  deleted_at = u.deleted_at;
}

-- The row of an entity; `entity.phone_number.value` raises if there is no phone number. A row that
-- has no key and no uuid yet gets them when it is inserted.
abbrev pub map_to_persistence : Services → User → Tables → Result AccountFailure UserModel
map_to_persistence env u t = elim u.phone_number [
  | none ↦ err attribute_error
  | some phone_number ↦ ok (row_of env u phone_number t)
]

-- The unique columns.
abbrev pub clashes : UserModel → UserModel → Bool
clashes m r =
    text_eq m.email r.email
    || text_eq m.phone_number r.phone_number
    || text_eq m.username r.username
    || text_eq m.uuid r.uuid

abbrev pub is_id : ℕ → UserModel → Bool
is_id id r = num_eq r.id id

abbrev pub insert_row : UserModel → Tables → Tables
insert_row m t = record t { users = t.users ++ m ∷ []; next_id = t.next_id + 1 }

abbrev pub replace_row : UserModel → Tables → Tables
replace_row m t = record t { users = update_where (is_id m.id) (λ _. m) t.users }

abbrev unset : ℕ → Option ℕ → Option ℕ
unset id none = none
unset id (some n) = if num_eq n id then none else some n

abbrev is_gone : List UserModel → ℕ → Bool
is_gone gone id = any (is_id id) gone

-- `ON DELETE CASCADE` and `ON DELETE SET NULL`, for one user.
abbrev pub cascade : ℕ → Tables → Tables
cascade id t = record t {
  user_roles =
      map (λ (r : UserRoleModel). record r { assigned_by = unset id r.assigned_by })
        (where_ (λ r. not (num_eq r.user_id id)) t.user_roles);
  role_permissions =
      map (λ (r : RolePermissionModel). record r { assigned_by = unset id r.assigned_by })
        t.role_permissions;
}

abbrev pub cascade_all : List UserModel → Tables → Tables
cascade_all [] t = t
cascade_all (m ∷ ms) t = cascade_all ms (cascade m.id t)

abbrev pub delete_rows : Text → Tables → Tables
delete_rows uuid t =
    let rest = cascade_all (where_ (λ m. text_eq m.uuid uuid) t.users) t in
    record rest { users = where_ (λ m. not (text_eq m.uuid uuid)) t.users }

abbrev is_wanted : Option UserStatus → Bool → UserModel → Bool
is_wanted status include_deleted m =
    (include_deleted || not (is_some m.deleted_at))
    && elim status [ none ↦ true | some st ↦ same_status m.status st ]

module _ (env : Services) where
  unfoldable pub get_by_email : Text → Action (Option User)
  unfolding query
  get_by_email email =
      query env (λ t. option_map map_to_domain (find (λ m. text_eq m.email email) t.users))

  unfoldable pub get_by_id : ℕ → Action (Option User)
  unfolding query
  get_by_id user_id = query env (λ t. option_map map_to_domain (find (is_id user_id) t.users))

  unfoldable pub get_by_uuid : Text → Action (Option User)
  unfolding query
  get_by_uuid uuid =
      query env (λ t. option_map map_to_domain (find (λ m. text_eq m.uuid uuid) t.users))

  unfoldable pub get_by_username : Text → Action (Option User)
  unfolding query
  get_by_username username =
      query env (λ t. option_map map_to_domain (find (λ m. text_eq m.username username) t.users))

  -- A new row, if no row has one of its unique values.
  unfoldable pub insert : UserModel → Action User
  unfolding statement
  insert m s =
      (raise_if (any (clashes m) s.db.users) integrity_error
          >> (statement env (insert_row m) >> pure (map_to_domain m)))
        s

  -- The row of that key, changed; the other rows must not have its unique values.
  unfoldable pub replace_user : UserModel → Action User
  unfolding statement
  replace_user m s =
      (raise_if (any (λ r. not (is_id m.id r) && clashes m r) s.db.users) integrity_error
          >> (statement env (replace_row m) >> pure (map_to_domain m)))
        s

  unfoldable pub create_user : User → Action User
  unfolding insert
  create_user user s = (lift (map_to_persistence env user s.db) >>= insert) s

  -- `session.merge` looks for the row of the entity's key.
  unfoldable pub merge : UserModel → Action User
  unfolding insert replace_user
  merge m s = (if any (is_id m.id) s.db.users then replace_user m else insert m) s

  unfoldable pub update_user : User → Action User
  unfolding merge
  update_user user s = (lift (map_to_persistence env user s.db) >>= merge) s

  unfoldable pub delete_by_uuid : Text → Action (Unit {0})
  unfolding statement
  delete_by_uuid uuid = statement env (delete_rows uuid)

  unfoldable pub list_all : Option UserStatus → Bool → ℕ → ℕ → Action (List User × ℕ)
  unfolding query
  list_all status include_deleted offset limit = do
    total ← query env (λ t. length (where_ (is_wanted status include_deleted) t.users))
    users ← query env (λ t.
        map map_to_domain
          (take limit (drop offset (where_ (is_wanted status include_deleted) t.users))))
    pure (users, total)
