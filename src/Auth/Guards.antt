-- ===== src/Auth/Guards.antt =====
-- The guards of app/modules/auth/api/dependencies.py: an access token, an account in use, and a
-- permission. They read the cache of app/core/cache.py that also keeps the lists of permissions.
use fast_kit.Rbac.Repository.{get_user_permissions}
use fast_kit.Auth.Tokens.{check_account, is_type, exists}
use fast_kit.Users.Repository.{get_by_uuid}
use fast_kit.Kit.{
  Text, codes, text_eq, ℕ, ◌+◌, ◌*◌, not, ◌&&◌, Option, none, some, List, ◌∷◌, map, if◌then◌else◌,
  ltb, num_eq, option_map, where_, any, find, pure, raise, raise_if, ◌>>=◌, ◌>>◌, Result, ok, err,
}
use fast_kit.Accounts.Values.{
  Permission, User, AccountFailure, invalid_token_error, token_blacklisted_error,
  token_expired_error, permission_denied_error, cache_failed,
}
use fast_kit.Accounts.Site.{
  call, Site, Services, Action, Claims, PermissionsEntry, DecodeError, expired_signature_error,
  invalid_token,
}

-- What `except` makes of the errors of `decode`.
abbrev pub decoded_access : Result DecodeError Claims → Result AccountFailure Claims
decoded_access (ok claims) = ok claims
decoded_access (err expired_signature_error) = err token_expired_error
decoded_access (err invalid_token) = err (invalid_token_error (codes "Invalid access token."))

-- The list under `user_permissions:<id>`, until it expires.
abbrev pub cached_names : ℕ → Site → Option (List Text)
cached_names user_id s =
    option_map (λ (e : PermissionsEntry). e.names)
      (find (λ e. num_eq e.user_id user_id && ltb s.now e.expires_at) s.permissions_cache)

abbrev pub drop_names : ℕ → Site → Site
drop_names user_id s = record s {
  permissions_cache = where_ (λ e. not (num_eq e.user_id user_id)) s.permissions_cache;
}

abbrev pub keep_names : ℕ → List Text → Site → Site
keep_names user_id names s =
    let rest = drop_names user_id s in
    record rest {
      permissions_cache =
          record { user_id = user_id; names = names; expires_at = s.now + 300 * 1000 }
          ∷ rest.permissions_cache;
    }

module _ (env : Services) where
  -- The checks of `require_authenticated_user`, up to the lookup of the user.
  unfoldable pub check_claims : Claims → Action Claims
  unfolding exists
  check_claims claims = do
    raise_if (not (is_type "access" claims))
        (invalid_token_error (codes "Token is not an access token."))
    revoked ← exists env claims.jti
    raise_if revoked token_blacklisted_error
    pure claims

  unfoldable pub check_decoded : Result AccountFailure Claims → Action Claims
  unfolding check_claims
  check_decoded (err e) = raise e
  check_decoded (ok claims) = check_claims claims

  unfoldable pub check_token : Text → Action Claims
  unfolding check_decoded
  check_token token s = check_decoded (decoded_access (env.decode s.now token)) s

  -- The checks of `require_authenticated`, which the source writes out on their own.
  unfoldable pub subject_of_claims : Claims → Action Text
  unfolding exists
  subject_of_claims claims = do
    raise_if (not (is_type "access" claims))
        (invalid_token_error (codes "Token is not an access token."))
    revoked ← exists env claims.jti
    raise_if revoked token_blacklisted_error
    pure claims.sub

  unfoldable pub subject_of_decoded : Result AccountFailure Claims → Action Text
  unfolding subject_of_claims
  subject_of_decoded (err e) = raise e
  subject_of_decoded (ok claims) = subject_of_claims claims

  unfoldable pub require_authenticated : Text → Action Text
  unfolding subject_of_decoded
  require_authenticated token s = subject_of_decoded (decoded_access (env.decode s.now token)) s

  unfoldable pub require_authenticated_user : Text → Action User
  unfolding check_token get_by_uuid check_account
  require_authenticated_user token = do
    claims ← check_token token
    user ← get_by_uuid env claims.sub
    check_account env user

  unfoldable pub cache_get_names : ℕ → Action (Option (List Text))
  unfolding call
  cache_get_names user_id = call env cache_failed (cached_names user_id) (λ s. s)

  unfoldable pub cache_set_names : ℕ → List Text → Action (Unit {0})
  unfolding call
  cache_set_names user_id names = call env cache_failed (λ _. tt) (keep_names user_id names)

  unfoldable pub cache_delete_names : ℕ → Action (Unit {0})
  unfolding call
  cache_delete_names user_id = call env cache_failed (λ _. tt) (drop_names user_id)

  -- The names of the cache, or those of the database, which are then kept for five minutes.
  unfoldable pub load_names : ℕ → Option (List Text) → Action (List Text)
  unfolding get_user_permissions cache_set_names
  load_names user_id (some names) = pure names
  load_names user_id none = do
    perms ← get_user_permissions env user_id
    let names = map (λ (p : Permission). p.name) perms
    cache_set_names user_id names
    pure names

  unfoldable pub check_permission_of : Text → User → Option ℕ → Action User
  unfolding cache_get_names load_names
  check_permission_of permission user none =
      raise (invalid_token_error (codes "User identifier is missing."))
  check_permission_of permission user (some id) = do
    cached_perms ← cache_get_names id
    names ← load_names id cached_perms
    raise_if (not (any (text_eq permission) names)) permission_denied_error
    pure user

  unfoldable pub check_permission : Text → User → Action User
  unfolding check_permission_of
  check_permission permission user =
      if user.is_superuser then pure user else check_permission_of permission user user.id

  unfoldable pub require_permission : Text → Text → Action User
  unfolding require_authenticated_user check_permission
  require_permission permission token =
      require_authenticated_user token >>= check_permission permission
