-- ===== src/Auth/Logout.antt =====
-- app/modules/auth/use_cases/logout.py.
pub mod Revoked
use fast_kit.Auth.Tokens.{time_left, is_type, set_blacklisted}
use fast_kit.Kit.{
  Text, codes, text_eq→eq, text_eq_refl, text_eq, ℕ, zero, suc, ◌+◌, ◌-◌, ◌*◌, ◌/◌, ◌%◌, ◌^◌, ◌≤◌,
  ◌<◌, min, max, String, ◌≡◌, refl, sym, ap, ◌∙◌, fun_ext, subst, ◌≢◌, ◌↔◌, ◌⊎◌, inl, inr, Bool,
  true, false, not, ◌&&◌, ◌||◌, false≢true, Option, none, some, List, [], ◌∷◌, ◌++◌, map,
  append-nil, append_assoc, map-append, arith, ◌==◌, eq_iff, eq_refl, if◌then◌else◌, ltb, leb,
  num_eq, is_some, or_else, Bool-cases, Option-cases, num_eq→eq, num_eq_refl, text-cases, text_ne,
  if-not, option_map, and_true, num_eq_of_eq, not-false, option_map-some, length, take, drop,
  where_, any, find, update_where, length-append, length-take, length-update_where, All, All-append,
  insert_ordered, order_by, Any-append_left, Any-append_right, Any-map, In, In-update_where,
  In-update_where_of, All-of_In, In-where_, In-take, In-insert_ordered, In-order_by, In-append,
  find-holds, Any, here, there, Method, pure, raise, gets, lift, or_raise, modify, raise_if, ◌>>=◌,
  ◌>>◌, is_ok, bind-ok, bind-err, for_each, Result, ok, err, Ensures-bind, Ensures-if,
  Ensures-weaken, state-Ensures, Ensures-self, Ensures-both, Ensures-for_each, Exactly,
  Ensures-then, Ensures-raise_if, Ensures-returned, Ensures-never, Ensures, returns, raises,
  decimal, parse_decimal, parse-decimal, pair_with, join, In-join, join-In, where_-In, any-In,
  In-any, counted-In, In-map, map-In, find-In, In-end,
}
use fast_kit.Accounts.Values.{AccountFailure, invalid_token_error, user_logged_out}
use fast_kit.Accounts.Site.{
  publish, Site, Services, Action, Claims, DecodeError, expired_signature_error, invalid_token,
}

-- The payload of a token: `None` if it has expired.
abbrev pub payload_of : String → Result DecodeError Claims → Result AccountFailure (Option Claims)
payload_of message (ok claims) = ok (some claims)
payload_of message (err expired_signature_error) = ok none
payload_of message (err invalid_token) = err (invalid_token_error (codes message))

abbrev pub is_empty : Text → Bool
is_empty [] = true
is_empty (_ ∷ _) = false

-- `if command.access_token`
abbrev pub access_payload : Services → Text → ℕ → Result AccountFailure (Option Claims)
access_payload env token now =
    if is_empty token then ok none else payload_of "Invalid access token." (env.decode now token)

abbrev pub jti_of : Option Claims → Option Text
jti_of payload = option_map (λ (c : Claims). c.jti) payload

abbrev sub_of : Option Claims → Text
sub_of payload = elim payload [ none ↦ [] | some c ↦ c.sub ]

-- The user of the refresh token, or else of the access token.
abbrev pub user_of : Option Claims → Option Claims → Text
user_of refresh access = if is_empty (sub_of refresh) then sub_of access else sub_of refresh

module _ (env : Services) where
  unfoldable pub revoke : String → String → Option Claims → Action (Unit {0})
  unfolding set_blacklisted
  revoke kind message none s = (ok tt, s)
  revoke kind message (some claims) s =
      (raise_if (not (is_type kind claims)) (invalid_token_error (codes message))
          >> set_blacklisted env claims.jti (time_left claims s.now))
        s

  unfoldable pub announce_logout : Option Claims → Option Claims → Action (Unit {0})
  unfolding publish
  announce_logout refresh access =
      if is_empty (user_of refresh access)
      then pure tt
      else publish env
          (user_logged_out (user_of refresh access) (or_else (jti_of refresh) []) (jti_of access))

  unfoldable pub revoke_access : Option Claims → Option Claims → Action (Unit {0})
  unfolding revoke announce_logout
  revoke_access refresh access =
      revoke "access" "Token is not an access token." access >> announce_logout refresh access

  -- From the refresh token's payload on.
  unfoldable pub revoke_both : Text → Option Claims → Action (Unit {0})
  unfolding revoke revoke_access
  revoke_both access_token refresh =
      revoke "refresh" "Token is not a refresh token." refresh
      >> (gets (λ s. s.now) >>= λ now.
          lift (access_payload env access_token now) >>= revoke_access refresh)

  unfoldable pub logout_execute : Text → Text → Action (Unit {0})
  unfolding revoke_both
  logout_execute refresh_token access_token s =
      (lift (payload_of "Invalid refresh token." (env.decode s.now refresh_token))
          >>= revoke_both access_token)
        s
