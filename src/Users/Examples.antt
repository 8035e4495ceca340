-- ===== src/Users/Examples.antt =====
-- Value objects and changes of users at concrete inputs.
use fast_kit.Accounts.Values.{UserModel, active, UserStatus}
use fast_kit.Users.UseCases.{
  RegisterUserCommand, update_user_status_execute, register_user_execute, restore_user_execute,
  delete_user_execute,
}
use fast_kit.Users.Soundness.Changes.{
  set_status, restore_deleted, delete, register, after-IsSound, Change, after,
}
use fast_kit.Accounts.Site.{request, invalid_token, Services, Tables, Site}
use fast_kit.Users.Soundness.{IsSound}
use fast_kit.Users.Validation.Formats.{is_email_iff, IsAddress}
use fast_kit.Users.Validation.{between, is_strong, is_phone_number, is_email}
use fast_kit.Kit.{
  codes, text_eq, ◌≡◌, refl, ◌↔◌, Bool, true, false, not, ◌&&◌, none, List, [], ◌∷◌, ◌++◌, map,
  is_some, err,
}

accepts : is_email (codes "ann.b+1@site-1.co.org") ≡ true
unfolding is_email
accepts = refl

accepts_line_break : is_email (codes "ann@site.org" ++ 10 ∷ []) ≡ true
unfolding is_email
accepts_line_break = refl

refuses : is_email (codes "ann@site") ≡ false
unfolding is_email
refuses = refl

phone : is_phone_number (between 48 57) (codes "+4512345678") ≡ true
unfolding is_phone_number
phone = refl

short_phone : is_phone_number (between 48 57) (codes "+4") ≡ false
unfolding is_phone_number
short_phone = refl

strong : (is_strong (codes "Secret-1") && not (is_strong (codes "secret-1"))) ≡ true
unfolding is_strong
strong = refl

is_email_iff_example : (is_email (codes "ann@site.org") ≡ true) ↔ IsAddress (codes "ann@site.org")
is_email_iff_example = is_email_iff (codes "ann@site.org")

-- A user registers on an empty site, is deleted, restored and set to active; a second user has the
-- same email in vain.
abbrev no_tables : Tables
no_tables = record {
  users = [];
  permissions = [];
  roles = [];
  role_permissions = [];
  user_roles = [];
  next_id = 1;
}

abbrev empty_site : Site
empty_site = record {
  db = no_tables;
  stored = no_tables;
  blacklist = [];
  permissions_cache = [];
  credentials_cache = [];
  published = [];
  calls = 0;
  draws = 0;
  now = 1000;
}

abbrev calm : Services
calm = record {
  decode = λ _ _. err invalid_token;
  encode = λ claims. claims.jti;
  uuid4 = λ n. n ∷ [];
  uuid7 = λ n. n ∷ [];
  get_password_hash = λ t. t;
  verify_password = text_eq;
  need_to_rehash = λ _. false;
  call_fails = λ _. false;
}

abbrev ann : RegisterUserCommand
ann = record {
  username = codes "ann";
  email = codes "ann@site.org";
  password = codes "Secret-1";
  password2 = codes "Secret-1";
  phone_number = codes "+12025550100";
  first_name = none;
  last_name = none;
}

abbrev some_changes : List Change
some_changes =
    register ann
    ∷ delete (1 ∷ [])
    ∷ restore_deleted (1 ∷ [])
    ∷ register ann
    ∷ set_status (1 ∷ []) active
    ∷ []

statuses_after : List Change → List (UserStatus × Bool)
unfolding after
statuses_after changes =
    map (λ (m : UserModel). (m.status, is_some m.deleted_at))
      (after calm none (between 48 57) changes empty_site).stored.users

is_active : statuses_after some_changes ≡ (active, false) ∷ []
unfolding statuses_after after text_eq is_email is_strong is_phone_number request
    update_user_status_execute register_user_execute restore_user_execute delete_user_execute
is_active = refl

-- A deleted user whose status is set is active and still deleted.
active_and_deleted :
    statuses_after (register ann ∷ delete (1 ∷ []) ∷ set_status (1 ∷ []) active ∷ [])
    ≡ (active, true) ∷ []
unfolding statuses_after after text_eq is_email is_strong is_phone_number request
    update_user_status_execute register_user_execute delete_user_execute
active_and_deleted = refl

no_tables-IsSound : IsSound no_tables
no_tables-IsSound = record { apart = tt; deleted = λ _ i. elim i [ ]; keyed = λ _ i. elim i [ ] }

after-IsSound_example : IsSound (after calm none (between 48 57) some_changes empty_site).stored
after-IsSound_example =
    after-IsSound calm none (between 48 57) some_changes empty_site no_tables-IsSound
