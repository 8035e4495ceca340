-- ===== src/Auth/Tokens.antt =====
-- app/core/jwt.py and app/modules/auth/use_cases/refresh.py, with the blacklist that they keep in
-- app/core/cache.py. The times in claims and for keys are in seconds.
pub mod Rotation
use fast_kit.Users.Repository.{get_by_uuid}
use fast_kit.Kit.{
  Text, codes, text_eq→eq, text_eq_refl, text_eq, ℕ, zero, suc, ◌+◌, ◌-◌, ◌*◌, ◌/◌, ◌%◌, ◌^◌, ◌≤◌,
  ◌<◌, min, max, String, ◌≡◌, refl, sym, ap, ◌∙◌, fun_ext, subst, ◌≢◌, ◌↔◌, ◌⊎◌, inl, inr, Bool,
  true, false, not, ◌&&◌, ◌||◌, false≢true, Option, none, some, List, [], ◌∷◌, ◌++◌, map,
  append-nil, append_assoc, map-append, arith, ◌==◌, eq_iff, eq_refl, if◌then◌else◌, ltb, leb,
  num_eq, is_some, or_else, Bool-cases, Option-cases, num_eq→eq, num_eq_refl, text-cases, text_ne,
  if-not, option_map, and_true, num_eq_of_eq, not-false, option_map-some, length, take, drop,
  where_, any, find, update_where, length-append, length-take, length-update_where, All, All-append,
  insert_ordered, order_by, Any-append_left, Any-append_right, Any-map, In, In-update_where,
  In-update_where_of, All-of_In, In-where_, In-take, In-insert_ordered, In-order_by, In-append,
  find-holds, Any, here, there, Method, pure, raise, gets, lift, or_raise, modify, raise_if, ◌>>=◌,
  ◌>>◌, is_ok, bind-ok, bind-err, for_each, Result, ok, err, Ensures-bind, Ensures-if,
  Ensures-weaken, state-Ensures, Ensures-self, Ensures-both, Ensures-for_each, Exactly,
  Ensures-then, Ensures-raise_if, Ensures-returned, Ensures-never, Ensures, returns, raises,
  decimal, parse_decimal, parse-decimal, pair_with, join, In-join, join-In, where_-In, any-In,
  In-any, counted-In, In-map, map-In, find-In, In-end,
}
use fast_kit.Accounts.Values.{
  User, UserStatus, pending_verification, active, inactive, suspended, AccountFailure,
  invalid_token_error, token_expired_error, token_blacklisted_error, cache_failed,
  user_refreshed_token,
}
use fast_kit.Accounts.Site.{
  Action, call, publish, Claims, DecodeError, Site, BlacklistEntry, Services,
  expired_signature_error, invalid_token,
}

pub record TokenPair : Type 0 where
  pub access_token : Text
  pub refresh_token : Text

abbrev access_token_expire_minutes : ℕ
access_token_expire_minutes = 15

abbrev refresh_token_expire_days : ℕ
refresh_token_expire_days = 7

-- Whether a claim `type` is this text.
abbrev pub is_type : String → Claims → Bool
is_type kind claims = elim claims.type [ none ↦ false | some t ↦ text_eq t (codes kind) ]

-- Whole seconds from now to the expiry, but one at least.
abbrev pub time_left : Claims → ℕ → ℕ
time_left claims now = max ((claims.exp * 1000 - now) / 1000) 1

abbrev pub is_listed : Text → ℕ → BlacklistEntry → Bool
is_listed jti now e = text_eq e.jti jti && ltb now e.expires_at

abbrev pub add_entry : Text → ℕ → Site → Site
add_entry jti ttl s = record s {
  blacklist =
      record { jti = jti; expires_at = s.now + ttl * 1000 }
      ∷ where_ (λ e. not (text_eq e.jti jti)) s.blacklist;
}

-- What `except` makes of the errors of `decode`.
abbrev pub decoded : Result DecodeError Claims → Result AccountFailure Claims
decoded (ok claims) = ok claims
decoded (err expired_signature_error) = err token_expired_error
decoded (err invalid_token) = err (invalid_token_error (codes "Invalid refresh token."))

module _ (env : Services) where
  unfoldable pub exists : Text → Action Bool
  unfolding call
  exists jti = call env cache_failed (λ s. any (is_listed jti s.now) s.blacklist) (λ s. s)

  unfoldable pub set_blacklisted : Text → ℕ → Action (Unit {0})
  unfolding call
  set_blacklisted jti ttl = call env cache_failed (λ _. tt) (add_entry jti ttl)

  -- A token of this type for so many seconds.
  unfoldable pub create_token : Text → Text → ℕ → Action Text
  create_token kind user_uuid seconds s = (
    ok (
        env.encode (record {
          sub = user_uuid;
          type = some kind;
          jti = env.uuid4 s.draws;
          iat = s.now / 1000;
          exp = s.now / 1000 + seconds;
        })),
    record s { draws = s.draws + 1 },
  )

  unfoldable pub create_token_pair : Text → Action TokenPair
  unfolding create_token
  create_token_pair user_uuid = do
    access ← create_token (codes "access") user_uuid (access_token_expire_minutes * 60)
    refresh ← create_token (codes "refresh") user_uuid (refresh_token_expire_days * 86400)
    pure (record { access_token = access; refresh_token = refresh })

  unfoldable pub check_status : User → UserStatus → Action User
  check_status user suspended = raise (invalid_token_error (codes "Account is suspended."))
  check_status user inactive = raise (invalid_token_error (codes "Account is deactivated."))
  check_status user pending_verification = pure user
  check_status user active = pure user

  unfoldable pub check_account : Option User → Action User
  unfolding check_status
  check_account none = raise (invalid_token_error (codes "User not found."))
  check_account (some user) = check_status user user.status

  -- The event and the result, behind the write of the blacklist.
  unfoldable pub issue_tokens : Claims → Action TokenPair
  unfolding create_token_pair publish
  issue_tokens claims = do
    tokens ← create_token_pair claims.sub
    publish env (user_refreshed_token claims.sub claims.jti claims.jti)
    pure tokens

  unfoldable pub rotate : Claims → Action TokenPair
  unfolding set_blacklisted issue_tokens
  rotate claims s = (set_blacklisted claims.jti (time_left claims s.now) >> issue_tokens claims) s

  -- The checks behind the decoding, and the rotation.
  unfoldable pub refresh_claims : Claims → Action TokenPair
  unfolding exists get_by_uuid check_account rotate
  refresh_claims claims =
      raise_if (not (is_type "refresh" claims))
        (invalid_token_error (codes "Token is not a refresh token."))
      >> (exists claims.jti >>= λ revoked.
          raise_if revoked token_blacklisted_error
          >> (get_by_uuid env claims.sub >>= λ user. check_account user >> rotate claims))

  unfoldable pub refresh_decoded : Result AccountFailure Claims → Action TokenPair
  unfolding refresh_claims
  refresh_decoded (err e) = raise e
  refresh_decoded (ok claims) = refresh_claims claims

  unfoldable pub refresh_execute : Text → Action TokenPair
  unfolding refresh_decoded
  refresh_execute token s = refresh_decoded (decoded (env.decode s.now token)) s
