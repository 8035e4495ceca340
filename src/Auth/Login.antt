-- ===== src/Auth/Login.antt =====
-- app/modules/auth/use_cases/login.py.
pub mod Checked
use fast_kit.Users.Repository.{get_by_email, update_user}
use fast_kit.Users.Validation.{is_email}
use fast_kit.Auth.Tokens.{create_token_pair, TokenPair}
use fast_kit.Users.UseCases.{uuid_text, update_password_hash, drop_credentials}
use fast_kit.Kit.{
  Text, codes, text_eq→eq, text_eq_refl, text_eq, ℕ, zero, suc, ◌+◌, ◌-◌, ◌*◌, ◌/◌, ◌%◌, ◌^◌, ◌≤◌,
  ◌<◌, min, max, String, ◌≡◌, refl, sym, ap, ◌∙◌, fun_ext, subst, ◌≢◌, ◌↔◌, ◌⊎◌, inl, inr, Bool,
  true, false, not, ◌&&◌, ◌||◌, false≢true, Option, none, some, List, [], ◌∷◌, ◌++◌, map,
  append-nil, append_assoc, map-append, arith, ◌==◌, eq_iff, eq_refl, if◌then◌else◌, ltb, leb,
  num_eq, is_some, or_else, Bool-cases, Option-cases, num_eq→eq, num_eq_refl, text-cases, text_ne,
  if-not, option_map, and_true, num_eq_of_eq, not-false, option_map-some, length, take, drop,
  where_, any, find, update_where, length-append, length-take, length-update_where, All, All-append,
  insert_ordered, order_by, Any-append_left, Any-append_right, Any-map, In, In-update_where,
  In-update_where_of, All-of_In, In-where_, In-take, In-insert_ordered, In-order_by, In-append,
  find-holds, Any, here, there, Method, pure, raise, gets, lift, or_raise, modify, raise_if, ◌>>=◌,
  ◌>>◌, is_ok, bind-ok, bind-err, for_each, Result, ok, err, Ensures-bind, Ensures-if,
  Ensures-weaken, state-Ensures, Ensures-self, Ensures-both, Ensures-for_each, Exactly,
  Ensures-then, Ensures-raise_if, Ensures-returned, Ensures-never, Ensures, returns, raises,
  decimal, parse_decimal, parse-decimal, pair_with, join, In-join, join-In, where_-In, any-In,
  In-any, counted-In, In-map, map-In, find-In, In-end,
}
use fast_kit.Accounts.Values.{
  User, UserStatus, AccountFailure, pending_verification, active, inactive, suspended,
  account_suspended_error, invalid_credentials_error, value_error, cache_failed, user_logged_in,
}
use fast_kit.Accounts.Site.{publish, call, Site, Services, Action, CredentialsEntry}

-- The entity that is built from the cache: no key, no phone number, no superuser.
abbrev pub cached_user : CredentialsEntry → User
cached_user e = record {
  id = none;
  uuid = e.uuid;
  email = e.email;
  hashed_password = e.hashed_password;
  phone_number = none;
  username = e.username;
  first_name = none;
  last_name = none;
  status = e.status;
  is_superuser = false;
  deleted_at = none;
}

abbrev pub cached_credentials : Text → Site → Option CredentialsEntry
cached_credentials email s =
    find (λ e. text_eq e.email email && ltb s.now e.expires_at) s.credentials_cache

abbrev pub keep_credentials : Text → User → Site → Site
keep_credentials email user s =
    let rest = drop_credentials email s in
    record rest {
      credentials_cache =
          record {
            email = email;
            uuid = user.uuid;
            hashed_password = user.hashed_password;
            status = user.status;
            username = user.username;
            expires_at = s.now + 300 * 1000;
          }
          ∷ rest.credentials_cache;
    }

module _ (env : Services) where
  unfoldable pub cache_get_credentials : Text → Action (Option CredentialsEntry)
  unfolding call
  cache_get_credentials email = call env cache_failed (cached_credentials email) (λ s. s)

  unfoldable pub cache_login : Text → User → Action (Unit {0})
  unfolding call
  cache_login email user = call env cache_failed (λ _. tt) (keep_credentials email user)

  -- `_get_user`, from the reading of the cache on; `Email` may refuse the text.
  unfoldable pub resolve_user : Text → Option CredentialsEntry → Action User
  unfolding is_email get_by_email
  resolve_user email (some cached) =
      raise_if (not (is_email email)) value_error
      >> pure (cached_user (record cached { email = email }))
  resolve_user email none =
      raise_if (not (is_email email)) value_error
      >> (get_by_email env email >>= λ user. or_raise user invalid_credentials_error)

  unfoldable pub get_user : Text → Action User
  unfolding cache_get_credentials resolve_user
  get_user email = cache_get_credentials email >>= resolve_user email

  unfoldable pub check_login_status : UserStatus → Action (Unit {0})
  check_login_status suspended = raise account_suspended_error
  check_login_status inactive = raise invalid_credentials_error
  check_login_status pending_verification = pure tt
  check_login_status active = pure tt

  -- The entity with a new hash, which is flushed but not committed.
  unfoldable pub rehash : Text → User → Action User
  unfolding update_user
  rehash password user =
      if env.need_to_rehash user.hashed_password
      then (update_user env (update_password_hash (env.get_password_hash password) user)
          >> pure (update_password_hash (env.get_password_hash password) user))
      else pure user

  unfoldable pub issue_login : Text → User → Action TokenPair
  unfolding cache_login create_token_pair publish
  issue_login email user = do
    cache_login email user
    tokens ← create_token_pair env (uuid_text user.uuid)
    publish env (user_logged_in (uuid_text user.uuid) email)
    pure tokens

  unfoldable pub login_found : Text → Text → User → Action TokenPair
  unfolding check_login_status rehash issue_login
  login_found email password user =
      check_login_status user.status
      >> (raise_if (not (env.verify_password password user.hashed_password))
            invalid_credentials_error
          >> (rehash password user >>= issue_login email))

  unfoldable pub login_execute : Text → Text → Action TokenPair
  unfolding get_user login_found
  login_execute email password = get_user email >>= login_found email password
