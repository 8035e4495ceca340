-- ===== src/Users/UseCases.antt =====
-- app/modules/user/use_cases, and the handler of app/modules/auth/infrastructure/event_handlers.py
-- that the bus runs for each change of a user. What a local handler raises is only logged.

use fast_kit.Users.Validation.{is_phone_number, is_email, is_strong}
use fast_kit.Users.Repository.{
  get_by_uuid, get_by_email, create_user, get_by_username, update_user, delete_by_uuid,
}
use fast_kit.Kit.{
  Text, codes, text_eq, ℕ, Bool, false, not, Option, none, some, if◌then◌else◌, is_some, or_else,
  where_, pure, raise, gets, lift, or_raise, raise_if, ◌>>=◌, ◌>>◌, Result, ok, err,
}
use fast_kit.Accounts.Values.{
  suspended, same_status, User, UserStatus, AccountFailure, pending_verification, active, inactive,
  user_already_exists_error, user_not_found_error, passwords_do_not_match_error,
  weak_password_error, invalid_phone_number_error, cannot_update_to_inactive_error,
  user_not_deleted_error, value_error, cache_failed, user_registered, user_updated,
}
use fast_kit.Accounts.Site.{commit, call, publish, Site, Services, Action}

pub record RegisterUserCommand : Type 0 where
  pub email : Text
  pub password : Text
  pub password2 : Text
  pub username : Text
  pub phone_number : Text
  pub first_name : Option Text
  pub last_name : Option Text

-- The methods of `User`.
abbrev pub verify : User → Result AccountFailure User
verify u =
    if same_status u.status pending_verification
    then ok (record u { status = active })
    else err value_error

abbrev deactivate : User → User
deactivate u = record u { status = inactive }

abbrev suspend : User → User
suspend u = record u { status = suspended }

abbrev pub soft_delete : ℕ → User → User
soft_delete deleted_at u = record u { status = inactive; deleted_at = some deleted_at }

abbrev pub restore : User → User
restore u = record u { status = pending_verification; deleted_at = none }

abbrev pub update_status : UserStatus → User → Result AccountFailure User
update_status new_status u =
    if same_status new_status inactive
    then err value_error
    else ok (record u { status = new_status })

abbrev pub update_password_hash : Text → User → User
update_password_hash new_hash u = record u { hashed_password = new_hash }

abbrev pub drop_credentials : Text → Site → Site
drop_credentials email s = record s {
  credentials_cache = where_ (λ e. not (text_eq e.email email)) s.credentials_cache;
}

-- `str(user.uuid)`
abbrev pub uuid_text : Option Text → Text
uuid_text uuid = or_else uuid (codes "None")

-- A local handler: what it raises is dropped, what it did stays.
unfoldable pub swallow : Action (Unit {0}) → Action (Unit {0})
swallow m s = (ok tt, (m s).1)

module _ (env : Services) where
  -- The keys `profile:<uuid>` and `auth:credentials:<email>` are deleted; no profile is modelled.
  unfoldable pub invalidate_user_caches : Text → Action (Unit {0})
  unfolding call
  invalidate_user_caches email =
      call env cache_failed (λ _. tt) (λ s. s)
      >> call env cache_failed (λ _. tt) (drop_credentials email)

  unfoldable pub publish_updated : User → Action (Unit {0})
  unfolding publish swallow invalidate_user_caches
  publish_updated user =
      publish env (user_updated (uuid_text user.uuid) user.email)
      >> swallow (invalidate_user_caches user.email)

  -- `update`, `commit`, `publish`: the end of each change.
  unfoldable pub save : User → Action User
  unfolding update_user commit publish_updated
  save user = do
    updated_user ← update_user env user
    commit env
    publish_updated updated_user
    pure updated_user

  unfoldable pub delete_user_found : Option User → Action User
  unfolding save
  delete_user_found none = raise user_not_found_error
  delete_user_found (some user) = gets (λ s. s.now) >>= λ now. save (soft_delete now user)

  unfoldable pub delete_user_execute : Text → Action User
  unfolding get_by_uuid delete_user_found
  delete_user_execute uuid = get_by_uuid env uuid >>= delete_user_found

  unfoldable pub restore_user_found : Option User → Action User
  unfolding save
  restore_user_found none = raise user_not_found_error
  restore_user_found (some user) =
      raise_if (not (is_some user.deleted_at)) user_not_deleted_error >> save (restore user)

  unfoldable pub restore_user_execute : Text → Action User
  unfolding get_by_uuid restore_user_found
  restore_user_execute uuid = get_by_uuid env uuid >>= restore_user_found

  unfoldable pub update_status_found : UserStatus → Option User → Action User
  unfolding save
  update_status_found new_status none = raise user_not_found_error
  update_status_found new_status (some user) =
      raise_if (same_status new_status inactive) cannot_update_to_inactive_error
      >> (lift (update_status new_status user) >>= save)

  unfoldable pub update_user_status_execute : Text → UserStatus → Action User
  unfolding get_by_uuid update_status_found
  update_user_status_execute uuid new_status =
      get_by_uuid env uuid >>= update_status_found new_status

  unfoldable pub prune_user_found : Text → Option User → Action User
  unfolding delete_by_uuid commit publish_updated
  prune_user_found uuid none = raise user_not_found_error
  prune_user_found uuid (some user) = do
    delete_by_uuid env uuid
    commit env
    publish_updated user
    pure user

  unfoldable pub prune_user_execute : Text → Action User
  unfolding get_by_uuid prune_user_found
  prune_user_execute uuid = get_by_uuid env uuid >>= prune_user_found uuid

  -- `first_superuser_email` is the setting, `is_decimal` what `\d` matches.
  module _ (first_superuser_email : Option Text) (is_decimal : ℕ → Bool) where
    abbrev is_first_superuser : Text → Bool
    is_first_superuser email = elim first_superuser_email [
      | none ↦ false
      | some e ↦ text_eq email e
    ]

    abbrev pub new_user : RegisterUserCommand → User
    new_user command = record {
      id = none;
      uuid = none;
      email = command.email;
      hashed_password = env.get_password_hash command.password;
      phone_number = some command.phone_number;
      username = command.username;
      first_name = command.first_name;
      last_name = command.last_name;
      status = pending_verification;
      is_superuser = is_first_superuser command.email;
      deleted_at = none;
    }

    unfoldable pub register_new : RegisterUserCommand → Option User → Action User
    unfolding create_user commit publish
    register_new command (some _) = raise user_already_exists_error
    register_new command none = do
      saved_user ← create_user env (new_user command)
      commit env
      publish env (
          user_registered command.email command.username command.phone_number command.first_name
            command.last_name)
      pure saved_user

    unfoldable pub register_user_execute : RegisterUserCommand → Action User
    unfolding is_strong is_phone_number is_email get_by_email register_new
    register_user_execute command =
        raise_if (not (text_eq command.password command.password2)) passwords_do_not_match_error
        >> (raise_if (not (is_strong command.password)) weak_password_error
            >> (raise_if (not (is_phone_number is_decimal command.phone_number))
                  invalid_phone_number_error
                >> (raise_if (not (is_email command.email)) value_error
                    >> (get_by_email env command.email >>= register_new command))))

  -- `GetUserUseCase` and `ListUsersUseCase`.
  unfoldable pub found_user : Option User → Action User
  found_user o = or_raise o user_not_found_error

  unfoldable pub by_uuid : Text → Action User
  unfolding get_by_uuid found_user
  by_uuid uuid = get_by_uuid env uuid >>= found_user

  unfoldable pub by_username : Text → Action User
  unfolding get_by_username found_user
  by_username username = get_by_username env username >>= found_user

  unfoldable pub by_email : Text → Action User
  unfolding is_email get_by_email found_user
  by_email email =
      raise_if (not (is_email email)) value_error >> (get_by_email env email >>= found_user)
