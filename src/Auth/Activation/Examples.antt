-- ===== src/Auth/Activation/Examples.antt =====
-- A user asks for a code, activates the account with it, and cannot do so again.
use fast_kit.Auth.Activation.Finish.{Anything}
use fast_kit.Accounts.Site.{invalid_token, Services, Tables}
use fast_kit.Auth.Activation.Once.{activate_account_once, IsActivation}
use fast_kit.Auth.Activation.{
  ActivationFailure, send_activation_otp_execute, activate_account_execute, in_session, Office,
}
use fast_kit.Kit.{
  Text, codes, text_eq, ℕ, ◌≡◌, refl, false, none, List, [], ◌∷◌, map, length, Result, ok, err,
  Ensures,
}
use fast_kit.Otp.Store.{Surroundings}
use fast_kit.Accounts.Values.{UserStatus, UserModel, pending_verification, active}

abbrev waiting : UserModel
waiting = record {
  id = 1;
  uuid = codes "u1";
  email = codes "ann@site.org";
  hashed_password = codes "hash";
  phone_number = codes "+12025550100";
  username = codes "ann";
  first_name = none;
  last_name = none;
  status = pending_verification;
  is_superuser = false;
  deleted_at = none;
}

abbrev one_row : Tables
one_row = record {
  users = waiting ∷ [];
  permissions = [];
  roles = [];
  role_permissions = [];
  user_roles = [];
  next_id = 2;
}

abbrev first_office : Office
first_office = record {
  site = record {
    db = one_row;
    stored = one_row;
    blacklist = [];
    permissions_cache = [];
    credentials_cache = [];
    published = [];
    calls = 0;
    draws = 0;
    now = 1000000;
  };
  desk = record {
    otps = [];
    committed = [];
    cache = [];
    published = [];
    statements = 0;
    publishes = 0;
    next_id = 1;
    now = 1000;
  };
}

-- Every call succeeds, and every digit is a seven.
abbrev services : Services
services = record {
  decode = λ _ _. err invalid_token;
  encode = λ claims. claims.jti;
  uuid4 = λ n. n ∷ [];
  uuid7 = λ n. n ∷ [];
  get_password_hash = λ t. t;
  verify_password = text_eq;
  need_to_rehash = λ _. false;
  call_fails = λ _. false;
}

abbrev surroundings : Surroundings
surroundings = record {
  db_fails = λ _. false;
  publish_fails = λ _. false;
  randbelow = λ _. 7;
  get_password_hash = λ t. t;
  verify_password = text_eq;
}

asked : Result ActivationFailure (Text × Text × ℕ) × Office
unfolding in_session send_activation_otp_execute
asked =
    in_session (send_activation_otp_execute services surroundings length 0 (codes "u1"))
      first_office

email_is_sent : asked.0 ≡ ok (codes "ann@site.org", codes "777777", 60)
unfolding asked in_session send_activation_otp_execute text_eq
email_is_sent = refl

done : Text → Result ActivationFailure (Unit {0}) × Office
unfolding in_session activate_account_execute asked
done code =
    in_session (activate_account_execute services surroundings length (codes "u1") code) asked.1

statuses : Office → List UserStatus
statuses o = map (λ (m : UserModel). m.status) o.site.stored.users

is_activated : statuses (done (codes "777777")).1 ≡ active ∷ []
unfolding statuses done asked in_session activate_account_execute text_eq
is_activated = refl

wrong_code : statuses (done (codes "777778")).1 ≡ pending_verification ∷ []
unfolding statuses done asked in_session activate_account_execute text_eq
wrong_code = refl

activate_account_once_example :
    Ensures
      (λ _ p.
        IsActivation services surroundings length (codes "u1") (codes "777777") asked.1 p
        × Ensures
            (λ _ _. ⊥)
            Anything
            (in_session
              (activate_account_execute services surroundings length (codes "u1") (codes "777777"))
              p))
      Anything
      (in_session
        (activate_account_execute services surroundings length (codes "u1") (codes "777777"))
        asked.1)
activate_account_once_example =
    activate_account_once services services surroundings surroundings length (codes "u1")
      (codes "777777") (codes "777777") asked.1
