-- ===== src/Auth/Api.antt =====
-- The handlers `login`, `refresh` and `logout` of app/modules/auth/api/router.py, without the rate
-- limits in front of them, and what app/core/exception_handlers.py answers to an exception.
use fast_kit.Auth.Tokens.{refresh_execute, TokenPair}
use fast_kit.Auth.Login.{login_execute}
use fast_kit.Auth.Logout.{logout_execute}
use fast_kit.Accounts.Site.{request, except, Services, Action}
use fast_kit.Accounts.Values.{
  AccountFailure, invalid_credentials_error, account_suspended_error, token_expired_error,
  token_blacklisted_error, invalid_token_error, permission_denied_error, app_exception,
  permission_not_found_error, permission_already_exists_error, role_not_found_error,
  role_already_exists_error, role_already_assigned_error, role_not_assigned_error,
  permission_already_assigned_error, permission_not_assigned_error,
}
use fast_kit.Kit.{Text, ℕ, String, Option, none, some}

-- `AUTH_EXCEPTIONS`; what it does not list is an authentication error.
abbrev map_auth_error : AccountFailure → AccountFailure
map_auth_error invalid_credentials_error = app_exception "INVALID_CREDENTIALS" 401
map_auth_error account_suspended_error = app_exception "ACCOUNT_SUSPENDED" 403
map_auth_error token_expired_error = app_exception "TOKEN_EXPIRED" 401
map_auth_error token_blacklisted_error = app_exception "TOKEN_BLACKLISTED" 401
map_auth_error (invalid_token_error _) = app_exception "INVALID_TOKEN" 401
map_auth_error permission_denied_error = app_exception "PERMISSION_DENIED" 403
map_auth_error _ = app_exception "AUTH_ERROR" 401

-- The subclasses of `AuthenticationError`.
abbrev pub auth_errors : AccountFailure → Option AccountFailure
auth_errors invalid_credentials_error = some (map_auth_error invalid_credentials_error)
auth_errors account_suspended_error = some (map_auth_error account_suspended_error)
auth_errors token_expired_error = some (map_auth_error token_expired_error)
auth_errors token_blacklisted_error = some (map_auth_error token_blacklisted_error)
auth_errors (invalid_token_error text) = some (map_auth_error (invalid_token_error text))
auth_errors permission_denied_error = some (map_auth_error permission_denied_error)
auth_errors _ = none

-- The code and the status of the answer to an exception that leaves a handler.
abbrev pub answer : AccountFailure → String × ℕ
answer (app_exception code status_code) = (code, status_code)
answer invalid_credentials_error = ("INVALID_CREDENTIALS", 401)
answer account_suspended_error = ("ACCOUNT_SUSPENDED", 403)
answer token_expired_error = ("TOKEN_EXPIRED", 401)
answer token_blacklisted_error = ("TOKEN_BLACKLISTED", 401)
answer (invalid_token_error _) = ("INVALID_TOKEN", 401)
answer permission_denied_error = ("PERMISSION_DENIED", 403)
answer permission_not_found_error = ("PERMISSION_NOT_FOUND", 404)
answer permission_already_exists_error = ("PERMISSION_ALREADY_EXISTS", 409)
answer role_not_found_error = ("ROLE_NOT_FOUND", 404)
answer role_already_exists_error = ("ROLE_ALREADY_EXISTS", 409)
answer role_already_assigned_error = ("ROLE_ALREADY_ASSIGNED", 409)
answer role_not_assigned_error = ("ROLE_NOT_ASSIGNED", 400)
answer permission_already_assigned_error = ("PERMISSION_ALREADY_ASSIGNED", 409)
answer permission_not_assigned_error = ("PERMISSION_NOT_ASSIGNED", 400)
answer _ = ("INTERNAL_ERROR", 500)

module _ (env : Services) where
  unfoldable pub login_handler : Text → Text → Action TokenPair
  unfolding request except login_execute
  login_handler email password = request (except auth_errors (login_execute env email password))

  unfoldable pub refresh_handler : Text → Action TokenPair
  unfolding request except refresh_execute
  refresh_handler refresh_token = request (except auth_errors (refresh_execute env refresh_token))

  -- The access token is that of the request's header.
  unfoldable pub logout_handler : Text → Text → Action (Unit {0})
  unfolding request except logout_execute
  logout_handler access_token refresh_token =
      request (except auth_errors (logout_execute env refresh_token access_token))
