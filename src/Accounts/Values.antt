-- ===== src/Accounts/Values.antt =====
-- The entities of app/modules/user/domain and app/modules/rbac/domain, the rows of their tables, and
-- the exceptions that the modules raise.
use fast_kit.Kit.{Text, ℕ, String, Bool, true, false, Option, List}

pub data UserStatus : Type 0 where
  pending_verification : UserStatus
  active : UserStatus
  inactive : UserStatus
  suspended : UserStatus

abbrev pub same_status : UserStatus → UserStatus → Bool
same_status pending_verification pending_verification = true
same_status active active = true
same_status inactive inactive = true
same_status suspended suspended = true
same_status _ _ = false

-- Where the source lets a field be `None` that has a default of `None`, it is an option here.
pub record User : Type 0 where
  pub id : Option ℕ
  pub uuid : Option Text
  pub email : Text
  pub hashed_password : Text
  pub phone_number : Option Text
  pub username : Text
  pub first_name : Option Text
  pub last_name : Option Text
  pub status : UserStatus
  pub is_superuser : Bool
  pub deleted_at : Option ℕ

pub record UserModel : Type 0 where
  pub id : ℕ
  pub uuid : Text
  pub email : Text
  pub hashed_password : Text
  pub phone_number : Text
  pub username : Text
  pub first_name : Option Text
  pub last_name : Option Text
  pub status : UserStatus
  pub is_superuser : Bool
  pub deleted_at : Option ℕ

pub record Permission : Type 0 where
  pub id : Option ℕ
  pub uuid : Option Text
  pub name : Text
  pub description : Option Text
  pub resource : Text
  pub action : Text

pub record PermissionModel : Type 0 where
  pub id : ℕ
  pub uuid : Text
  pub name : Text
  pub description : Option Text
  pub resource : Text
  pub action : Text
  pub deleted_at : Option ℕ

pub record Role : Type 0 where
  pub id : Option ℕ
  pub uuid : Option Text
  pub name : Text
  pub description : Option Text
  pub permissions : List Permission

pub record RoleModel : Type 0 where
  pub id : ℕ
  pub uuid : Text
  pub name : Text
  pub description : Option Text
  pub deleted_at : Option ℕ

pub record RolePermissionModel : Type 0 where
  pub role_id : ℕ
  pub permission_id : ℕ
  pub assigned_by : Option ℕ
  pub assigned_at : ℕ

pub record UserRoleModel : Type 0 where
  pub user_id : ℕ
  pub role_id : ℕ
  pub assigned_by : Option ℕ
  pub assigned_at : ℕ

-- The exceptions by their classes. `integrity_error` is what the database's constraints raise,
-- `value_error` a value object's and `attribute_error` Python's own; `app_exception` has the code and
-- the status of the answer. The last three are failed calls of services.
pub data AccountFailure : Type 0 where
  user_already_exists_error : AccountFailure
  user_not_found_error : AccountFailure
  passwords_do_not_match_error : AccountFailure
  weak_password_error : AccountFailure
  invalid_phone_number_error : AccountFailure
  cannot_update_to_inactive_error : AccountFailure
  user_not_deleted_error : AccountFailure
  invalid_credentials_error : AccountFailure
  account_suspended_error : AccountFailure
  token_expired_error : AccountFailure
  token_blacklisted_error : AccountFailure
  invalid_token_error : Text → AccountFailure
  permission_denied_error : AccountFailure
  permission_not_found_error : AccountFailure
  permission_already_exists_error : AccountFailure
  role_not_found_error : AccountFailure
  role_already_exists_error : AccountFailure
  role_already_assigned_error : AccountFailure
  role_not_assigned_error : AccountFailure
  permission_already_assigned_error : AccountFailure
  permission_not_assigned_error : AccountFailure
  integrity_error : AccountFailure
  value_error : AccountFailure
  attribute_error : AccountFailure
  app_exception : String → ℕ → AccountFailure
  cache_failed : AccountFailure
  store_failed : AccountFailure
  publish_failed : AccountFailure

pub data AccountEvent : Type 0 where
  user_registered : Text → Text → Text → Option Text → Option Text → AccountEvent
  user_updated : Text → Text → AccountEvent
  user_logged_in : Text → Text → AccountEvent
  user_refreshed_token : Text → Text → Text → AccountEvent
  user_logged_out : Text → Text → Option Text → AccountEvent
