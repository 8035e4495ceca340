-- ===== src/Auth/Examples.antt =====
-- Refreshes, logouts and logins at concrete inputs.
use fast_kit.Users.Validation.{is_email}
use fast_kit.Auth.Login.Checked.{login-IsChecked, IsChecked}
use fast_kit.Auth.Login.{login_execute}
use fast_kit.Auth.Logout.Revoked.{logout_revokes}
use fast_kit.Auth.Guards.{require_authenticated, require_authenticated_user, require_permission}
use fast_kit.Auth.Logout.{logout_execute}
use fast_kit.Auth.Tokens.{refresh_execute, TokenPair}
use fast_kit.Auth.Tokens.Rotation.{refresh_once, IsSigned}
use fast_kit.Kit.{
  Text, codes, text_eq, ◌≡◌, refl, sym, ◌∙◌, Bool, true, false, none, some, [], ◌∷◌, arith,
  if◌then◌else◌, ltb, is_ok, Result, ok, err, Ensures,
}
use fast_kit.Accounts.Values.{invalid_credentials_error, active}
use fast_kit.Accounts.Site.{
  request, DecodeError, Tables, Site, Services, Claims, expired_signature_error,
}

abbrev old_claims : Claims
old_claims = record {
  sub = codes "u1";
  type = some (codes "refresh");
  jti = codes "t1";
  iat = 1000;
  exp = 2000;
}

-- PyJWT on one kind of token, which expires at 2000 seconds; every call of a service succeeds.
abbrev one_user : Services
one_user = record {
  decode = λ now _. if ltb now 2000000 then ok old_claims else err expired_signature_error;
  encode = λ claims. claims.jti;
  uuid4 = λ n. n ∷ [];
  uuid7 = λ n. n ∷ [];
  get_password_hash = λ t. t;
  verify_password = text_eq;
  need_to_rehash = λ _. false;
  call_fails = λ _. false;
}

abbrev one_tables : Tables
one_tables = record {
  users =
      record {
        id = 1;
        uuid = codes "u1";
        email = codes "ann@site.org";
        hashed_password = codes "Secret-1";
        phone_number = codes "+12025550100";
        username = codes "ann";
        first_name = none;
        last_name = none;
        status = active;
        is_superuser = false;
        deleted_at = none;
      }
      ∷ [];
  permissions = [];
  roles = [];
  role_permissions = [];
  user_roles = [];
  next_id = 2;
}

abbrev fresh_state : Site
fresh_state = record {
  db = one_tables;
  stored = one_tables;
  blacklist = [];
  permissions_cache = [];
  credentials_cache = [];
  published = [];
  calls = 0;
  draws = 7;
  now = 1500500;
}

-- The refresh returns, and its key lasts for 499 seconds.
refresh_returns : is_ok (refresh_execute one_user (codes "token") fresh_state).0 ≡ true
unfolding refresh_execute text_eq
refresh_returns = refl

refresh_lists :
    (refresh_execute one_user (codes "token") fresh_state).1.blacklist
    ≡ record { jti = codes "t1"; expires_at = 1999500 } ∷ []
unfolding refresh_execute text_eq
refresh_lists = refl

given-same :
    (b : Bool) (p : Claims)
    → let r : Result DecodeError Claims =
        if b then ok old_claims else err expired_signature_error in
      r ≡ ok p → old_claims ≡ p
given-same true p h = cc h
given-same false p h = cc h

token-IsSigned : IsSigned one_user (codes "token")
token-IsSigned s t p q e e' = sym (given-same (ltb s 2000000) p e) ∙ given-same (ltb t 2000000) q e'

-- The pair that the refresh gives.
abbrev new_pair : TokenPair
new_pair = record { access_token = 7 ∷ []; refresh_token = 8 ∷ [] }

-- The state after the refresh, 498 seconds later.
abbrev later_state : Site
later_state = record fresh_state {
  blacklist = record { jti = codes "t1"; expires_at = 1999500 } ∷ [];
  calls = 9;
  now = 1998500;
}

refresh_gives : (refresh_execute one_user (codes "token") fresh_state).0 ≡ ok new_pair
unfolding refresh_execute text_eq
refresh_gives = refl

refresh_once_example : is_ok (refresh_execute one_user (codes "token") later_state).0 ≡ false
refresh_once_example =
    refresh_once one_user (codes "token") fresh_state later_state new_pair old_claims token-IsSigned
      refl refresh_gives (sym refresh_lists) (omega arith)

-- A logout with two tokens: the text of a token is its kind.
abbrev claims_of : Text → Claims
claims_of token = record {
  sub = codes "u1";
  type = some token;
  jti = token;
  iat = 1000;
  exp = 2000;
}

abbrev two_tokens : Services
two_tokens = record one_user { decode = λ _ token. ok (claims_of token) }

two_tokens-IsSigned : (token : Text) → IsSigned two_tokens token
two_tokens-IsSigned token s t p q e e' = cc (e, e')

logout_returns :
    (logout_execute two_tokens (codes "refresh") (codes "access") fresh_state).0 ≡ ok tt
unfolding logout_execute text_eq
logout_returns = refl

-- The state after the logout, 498 seconds later.
abbrev logged_out : Site
logged_out = record fresh_state {
  blacklist =
      record { jti = codes "access"; expires_at = 1999500 }
      ∷ record { jti = codes "refresh"; expires_at = 1999500 }
      ∷ [];
  now = 1998500;
}

logout_lists :
    (logout_execute two_tokens (codes "refresh") (codes "access") fresh_state).1.blacklist
    ≡ logged_out.blacklist
unfolding logout_execute text_eq
logout_lists = refl

apart : text_eq (codes "refresh") (codes "access") ≡ false
unfolding text_eq
apart = refl

logout_revokes_example :
    (is_ok (require_authenticated two_tokens (codes "access") logged_out).0 ≡ false)
    × (is_ok (require_authenticated_user two_tokens (codes "access") logged_out).0 ≡ false)
    × (is_ok (require_permission two_tokens (codes "user:read") (codes "access") logged_out).0
        ≡ false)
    × (is_ok (refresh_execute two_tokens (codes "refresh") logged_out).0 ≡ false)
logout_revokes_example =
    logout_revokes two_tokens (codes "user:read") (codes "refresh") (codes "access")
      (claims_of (codes "refresh")) (claims_of (codes "access")) fresh_state logged_out
      (two_tokens-IsSigned (codes "refresh")) (two_tokens-IsSigned (codes "access")) refl refl refl
      apart logout_returns (sym logout_lists) (omega arith) (omega arith)

-- A login that returns, and one with a wrong password.
login_returns :
    (login_execute one_user (codes "ann@site.org") (codes "Secret-1") fresh_state).0
    ≡ ok (record { access_token = 7 ∷ []; refresh_token = 8 ∷ [] })
unfolding login_execute is_email text_eq
login_returns = refl

login_refuses :
    (login_execute one_user (codes "ann@site.org") (codes "secret-1") fresh_state).0
    ≡ err invalid_credentials_error
unfolding login_execute is_email text_eq
login_refuses = refl

login-IsChecked_example :
    Ensures
      (λ _ u.
        IsChecked one_user fresh_state (codes "ann@site.org") (codes "Secret-1")
        × (u.stored ≡ one_tables))
      (λ u. u.stored ≡ one_tables)
      (request (login_execute one_user (codes "ann@site.org") (codes "Secret-1")) fresh_state)
login-IsChecked_example =
    login-IsChecked one_user (codes "ann@site.org") (codes "Secret-1") fresh_state
