-- ===== src/Users/Api.antt =====
-- app/modules/user/api/router.py. The schemas of requests and answers and the rate limit in front of
-- `register` are left out.
pub mod Permitted
use fast_kit.Users.UseCases.{
  RegisterUserCommand, prune_user_execute, by_username, register_user_execute, restore_user_execute,
  update_user_status_execute, by_uuid, delete_user_execute, by_email,
}
use fast_kit.Users.Repository.{list_all}
use fast_kit.Accounts.Values.{
  User, suspended, active, pending_verification, app_exception, AccountFailure, UserStatus,
  user_already_exists_error, user_not_found_error, passwords_do_not_match_error,
  weak_password_error, invalid_phone_number_error, cannot_update_to_inactive_error,
  user_not_deleted_error,
}
use fast_kit.Accounts.Site.{Action, except, request, Services}
use fast_kit.Rbac.Api.{endpoint}
use fast_kit.Kit.{Text, ℕ, Bool, Option, none, some, List}

-- `DOMAIN_TO_APP`; what it does not list is an unknown error.
abbrev map_error : AccountFailure → AccountFailure
map_error user_already_exists_error = app_exception "USER_ALREADY_EXISTS" 409
map_error user_not_found_error = app_exception "USER_NOT_FOUND" 404
map_error passwords_do_not_match_error = app_exception "PASSWORDS_DO_NOT_MATCH" 422
map_error weak_password_error = app_exception "WEAK_PASSWORD" 422
map_error invalid_phone_number_error = app_exception "INVALID_PHONE_NUMBER" 422
map_error cannot_update_to_inactive_error = app_exception "CANNOT_UPDATE_TO_INACTIVE" 422
map_error user_not_deleted_error = app_exception "USER_NOT_DELETED" 422
map_error _ = app_exception "UNKNOWN_ERROR" 500

-- The classes that the handlers catch.
abbrev register_errors : AccountFailure → Option AccountFailure
register_errors user_already_exists_error = some (map_error user_already_exists_error)
register_errors passwords_do_not_match_error = some (map_error passwords_do_not_match_error)
register_errors weak_password_error = some (map_error weak_password_error)
register_errors invalid_phone_number_error = some (map_error invalid_phone_number_error)
register_errors _ = none

abbrev pub status_errors : AccountFailure → Option AccountFailure
status_errors user_not_found_error = some (map_error user_not_found_error)
status_errors cannot_update_to_inactive_error = some (map_error cannot_update_to_inactive_error)
status_errors _ = none

abbrev pub lookup_errors : AccountFailure → Option AccountFailure
lookup_errors user_not_found_error = some (map_error user_not_found_error)
lookup_errors _ = none

abbrev pub restore_errors : AccountFailure → Option AccountFailure
restore_errors user_not_found_error = some (map_error user_not_found_error)
restore_errors user_not_deleted_error = some (map_error user_not_deleted_error)
restore_errors _ = none

-- `UpdatableStatus`
pub data UpdatableStatus : Type 0 where
  to_pending_verification : UpdatableStatus
  to_active : UpdatableStatus
  to_suspended : UpdatableStatus

abbrev pub status_value : UpdatableStatus → UserStatus
status_value to_pending_verification = pending_verification
status_value to_active = active
status_value to_suspended = suspended

module _ (env : Services) where
  unfoldable pub register_handler : Option Text → (ℕ → Bool) → RegisterUserCommand → Action User
  unfolding request except register_user_execute
  register_handler first_superuser_email is_decimal command =
      request (
        except register_errors (register_user_execute env first_superuser_email is_decimal command))

  unfoldable pub update_status_handler : Text → Text → UpdatableStatus → Action User
  unfolding endpoint except update_user_status_execute
  update_status_handler token uuid status =
      endpoint env "user:update" token
        (λ _. except status_errors (update_user_status_execute env uuid (status_value status)))

  unfoldable pub delete_user_handler : Text → Text → Action User
  unfolding endpoint except delete_user_execute
  delete_user_handler token uuid =
      endpoint env "user:delete" token (λ _. except lookup_errors (delete_user_execute env uuid))

  unfoldable pub prune_user_handler : Text → Text → Action User
  unfolding endpoint except prune_user_execute
  prune_user_handler token uuid =
      endpoint env "user:delete" token (λ _. except lookup_errors (prune_user_execute env uuid))

  unfoldable pub restore_user_handler : Text → Text → Action User
  unfolding endpoint except restore_user_execute
  restore_user_handler token uuid =
      endpoint env "user:update" token (λ _. except restore_errors (restore_user_execute env uuid))

  unfoldable pub by_uuid_handler : Text → Text → Action User
  unfolding endpoint except by_uuid
  by_uuid_handler token uuid =
      endpoint env "user:read" token (λ _. except lookup_errors (by_uuid env uuid))

  unfoldable pub by_username_handler : Text → Text → Action User
  unfolding endpoint except by_username
  by_username_handler token username =
      endpoint env "user:read" token (λ _. except lookup_errors (by_username env username))

  unfoldable pub by_email_handler : Text → Text → Action User
  unfolding endpoint except by_email
  by_email_handler token email =
      endpoint env "user:read" token (λ _. except lookup_errors (by_email env email))

  unfoldable pub list_users_handler :
      Text → Option UserStatus → Bool → ℕ → ℕ → Action (List User × ℕ)
  unfolding endpoint list_all
  list_users_handler token status include_deleted offset limit =
      endpoint env "user:read" token (λ _. list_all env status include_deleted offset limit)
