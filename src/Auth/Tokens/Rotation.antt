-- ===== src/Auth/Tokens/Rotation.antt =====
-- Refresh tokens and the blacklist, over two refreshes.
use fast_kit.Users.Repository.{map_to_domain, get_by_uuid}
use fast_kit.Accounts.Site.Rules.{query_lem, publish_lem, call_lem}
use fast_kit.Auth.Tokens.{
  is_type, add_entry, is_listed, create_token, decoded, set_blacklisted, time_left,
  create_token_pair, exists, refresh_execute, check_account, TokenPair, refresh_claims,
  refresh_decoded, issue_tokens, check_status, rotate,
}
use fast_kit.Kit.{
  Text, codes, text_eq_refl, text_eq, ℕ, ◌+◌, ◌-◌, ◌*◌, ◌/◌, ◌≤◌, ◌<◌, max, ◌≡◌, refl, sym, ap, ◌∙◌,
  subst, Bool, true, false, not, ◌&&◌, ◌||◌, Option, none, some, List, ◌∷◌, arith, ltb, option_map,
  where_, any, find, pure, raise_if, ◌>>=◌, ◌>>◌, is_ok, Result, ok, err, Ensures-bind,
  Ensures-weaken, Ensures-raise_if, Ensures-returned, Ensures-never, Ensures, returns, raises,
}
use fast_kit.Accounts.Values.{
  invalid_token_error, user_refreshed_token, token_blacklisted_error, cache_failed, UserStatus,
  User, AccountFailure, pending_verification, active, inactive, suspended,
}
use fast_kit.Accounts.Site.{
  publish, DecodeError, call, BlacklistEntry, Action, Site, Claims, Services, invalid_token,
  expired_signature_error,
}

pub ltb_of_lt : (a b : ℕ) → a < b → ltb a b ≡ true
ltb_of_lt a b h = ground arith

-- The key outlasts every time that is a second before the expiry.
pub listed_until :
    (exp now t : ℕ) → t + 1000 ≤ exp * 1000 → t < now + max ((exp * 1000 - now) / 1000) 1 * 1000
listed_until exp now t h = omega arith

module _ (env : Services) where
  -- A token has the same claims whenever it can be decoded.
  abbrev pub IsSigned : Text → Type 0
  IsSigned token =
      (s t : ℕ) (p q : Claims) → env.decode s token ≡ ok p → env.decode t token ≡ ok q → p ≡ q

  -- A call about whose failure nothing is said.
  call_ends :
      {A : Type 0} (Q : A → Site → Type 0) (e : AccountFailure) (read : Site → A)
      (write : Site → Site) (s : Site)
      → Q (read s) (record (write s) { calls = s.calls + 1 })
      → Ensures Q (λ _. Unit {0}) (call env e read write s)
  call_ends Q e read write s q = call_lem env Q (λ _. Unit {0}) e read write s q tt

  -- The refresh never returns a pair.
  abbrev Refuses : Action TokenPair → Site → Type 0
  Refuses m s = Ensures (λ _ _. ⊥) (λ _. Unit {0}) (m s)

  refresh_claims-Refuses :
      (claims : Claims) (s : Site)
      → any (is_listed claims.jti s.now) s.blacklist ≡ true
      → Refuses (refresh_claims env claims) s
  unfolding refresh_claims exists
  refresh_claims-Refuses claims s listed =
      let after = λ (user : Option User). check_account env user >> rotate env claims in
      let rest = λ (revoked : Bool).
        raise_if revoked token_blacklisted_error >> (get_by_uuid env claims.sub >>= after) in
      Ensures-raise_if (λ _ _. ⊥) (λ _. Unit {0}) (not (is_type "refresh" claims))
        (invalid_token_error (codes "Token is not a refresh token."))
        (exists env claims.jti >>= rest) s tt
        (λ _.
          Ensures-bind (λ b _. b ≡ true) (λ _ _. ⊥) (λ _. Unit {0}) (exists env claims.jti) rest s
            (call_ends (λ b _. b ≡ true) cache_failed
              (λ u. any (is_listed claims.jti u.now) u.blacklist) (λ u. u) s listed)
            (λ b u yes. subst (λ c. Refuses (rest c) u) (sym yes) (raises tt)))

  -- The blacklist has the claims' key until a time.
  abbrev Lists : Text → ℕ → Site → Type 0
  Lists jti until s =
      (more : List BlacklistEntry) × (s.blacklist ≡ record { jti = jti; expires_at = until } ∷ more)

  issue_tokens-Lists :
      (claims : Claims) (until : ℕ) (s : Site)
      → Lists claims.jti until s
      → Ensures (λ _. Lists claims.jti until) (λ _. Unit {0}) (issue_tokens env claims s)
  unfolding issue_tokens create_token_pair create_token
  issue_tokens-Lists claims until s h =
      let L = Lists claims.jti until in
      let event = user_refreshed_token claims.sub claims.jti claims.jti in
      Ensures-bind (λ _. L) (λ _. L) (λ _. Unit {0}) (create_token_pair env claims.sub)
        (λ tokens. publish env event >> pure tokens) s (returns h)
        (λ tokens u k.
          Ensures-bind (λ _. L) (λ _. L) (λ _. Unit {0}) (publish env event) (λ _. pure tokens) u
            (publish_lem env L (λ _. Unit {0}) event u k tt) (λ _ v k'. returns k'))

  rotate-Lists :
      (claims : Claims) (s : Site)
      → Ensures
          (λ _. Lists claims.jti (s.now + time_left claims s.now * 1000))
          (λ _. Unit {0})
          (rotate env claims s)
  unfolding rotate set_blacklisted
  rotate-Lists claims s =
      let ttl = time_left claims s.now in
      let L = Lists claims.jti (s.now + ttl * 1000) in
      Ensures-bind (λ _. L) (λ _. L) (λ _. Unit {0}) (set_blacklisted env claims.jti ttl)
        (λ _. issue_tokens env claims) s
        (call_ends (λ _. L) cache_failed (λ _. tt) (add_entry claims.jti ttl) s
          (where_ (λ e. not (text_eq e.jti claims.jti)) s.blacklist, refl))
        (λ _ u h. issue_tokens-Lists claims (s.now + ttl * 1000) u h)

  check_status-same :
      (user : User) (status : UserStatus) (s : Site)
      → Ensures (λ _ u. u ≡ s) (λ _. Unit {0}) (check_status env user status s)
  unfolding check_status
  check_status-same user pending_verification s = returns refl
  check_status-same user active s = returns refl
  check_status-same user inactive s = raises tt
  check_status-same user suspended s = raises tt

  check_account-now :
      (o : Option User) (s : Site)
      → Ensures (λ _ u. u.now ≡ s.now) (λ _. Unit {0}) (check_account env o s)
  unfolding check_account
  check_account-now none s = raises tt
  check_account-now (some user) s =
      Ensures-weaken _ _ _ _ (λ _ u e. ap (λ (x : Site). x.now) e) (λ _ _. tt) _
        (check_status-same user user.status s)

  refresh_claims-Lists :
      (claims : Claims) (s : Site)
      → Ensures
          (λ _. Lists claims.jti (s.now + time_left claims s.now * 1000))
          (λ _. Unit {0})
          (refresh_claims env claims s)
  unfolding refresh_claims exists get_by_uuid
  refresh_claims-Lists claims s =
      let Q : TokenPair → Site → Type 0 =
        λ _. Lists claims.jti (s.now + time_left claims s.now * 1000) in
      let T = λ (_ : Site). Unit {0} in
      let after = λ (user : Option User). check_account env user >> rotate env claims in
      let rest = λ (revoked : Bool).
        raise_if revoked token_blacklisted_error >> (get_by_uuid env claims.sub >>= after) in
      Ensures-raise_if Q T (not (is_type "refresh" claims))
        (invalid_token_error (codes "Token is not a refresh token."))
        (exists env claims.jti >>= rest) s tt
        (λ _.
          Ensures-bind (λ _ u. u.now ≡ s.now) Q T (exists env claims.jti) rest s
            (call_ends (λ _ u. u.now ≡ s.now) cache_failed
              (λ u. any (is_listed claims.jti u.now) u.blacklist) (λ u. u) s refl)
            (λ b u e.
              Ensures-raise_if Q T b token_blacklisted_error (get_by_uuid env claims.sub >>= after)
                u tt
                (λ _.
                  Ensures-bind (λ _ v. v.now ≡ s.now) Q T (get_by_uuid env claims.sub) after u
                    (query_lem env (λ _ v. v.now ≡ s.now) T
                      (λ t.
                        option_map map_to_domain (find (λ m. text_eq m.uuid claims.sub) t.users))
                      u e tt)
                    (λ o v e'.
                      Ensures-bind (λ _ x. x.now ≡ s.now) Q T (check_account env o)
                        (λ _. rotate env claims) v
                        (Ensures-weaken _ _ _ _ (λ _ x k. k ∙ e') (λ _ _. tt) _
                          (check_account-now o v))
                        (λ _ x k.
                          subst
                            (λ n.
                              Ensures (λ _. Lists claims.jti (n + time_left claims n * 1000)) T
                                (rotate env claims x))
                            k (rotate-Lists claims x))))))

  Lists-is_listed :
      (claims : Claims) (now : ℕ) (s : Site)
      → Lists claims.jti (now + time_left claims now * 1000) s
      → s.now + 1000 ≤ claims.exp * 1000
      → any (is_listed claims.jti s.now) s.blacklist ≡ true
  Lists-is_listed claims now s (more, e) h =
      let until = now + time_left claims now * 1000 in
      ap (any (is_listed claims.jti s.now)) e
      ∙ ap (λ b. b || any (is_listed claims.jti s.now) more)
          (ap (λ b. b && ltb s.now until) (text_eq_refl claims.jti)
            ∙ ltb_of_lt s.now until (listed_until claims.exp now s.now h))

  -- What the first refresh leaves: in every later state with its blacklist, up to a second before
  -- the token expires, a refresh with the token does not return.
  abbrev IsSpent : Text → ℕ → Site → Type 0
  IsSpent token now s =
      (claims : Claims) × (env.decode now token ≡ ok claims)
      × ((later : Site)
          → later.blacklist ≡ s.blacklist
          → later.now + 1000 ≤ claims.exp * 1000
          → is_ok (refresh_execute env token later).0 ≡ false)

  pub refresh_decoded-Refuses :
      (claims : Claims) (r : Result DecodeError Claims) (s : Site)
      → ((q : Claims) → r ≡ ok q → claims ≡ q)
      → any (is_listed claims.jti s.now) s.blacklist ≡ true
      → Refuses (refresh_decoded env (decoded r)) s
  unfolding refresh_decoded
  refresh_decoded-Refuses claims (err expired_signature_error) s same listed = raises tt
  refresh_decoded-Refuses claims (err invalid_token) s same listed = raises tt
  refresh_decoded-Refuses claims (ok q) s same listed =
      refresh_claims-Refuses q s
        (subst (λ c. any (is_listed c.jti s.now) s.blacklist ≡ true) (same q refl) listed)

  refresh_decoded-spends :
      (token : Text) (r : Result DecodeError Claims) (s : Site)
      → IsSigned token
      → env.decode s.now token ≡ r
      → Ensures (λ _. IsSpent token s.now) (λ _. Unit {0}) (refresh_decoded env (decoded r) s)
  unfolding refresh_decoded refresh_execute
  refresh_decoded-spends token (err expired_signature_error) s signed e = raises tt
  refresh_decoded-spends token (err invalid_token) s signed e = raises tt
  refresh_decoded-spends token (ok claims) s signed e =
      Ensures-weaken _ _ _ _
        (λ _ u lists. (
          claims,
          e,
          λ later same soon.
              Ensures-never (λ _. Unit {0}) _
                (refresh_decoded-Refuses claims (env.decode later.now token) later
                  (λ q e'. signed s.now later.now claims q e e')
                  (Lists-is_listed claims s.now later (lists.0, same ∙ lists.1) soon)),
        ))
        (λ _ _. tt) _ (refresh_claims-Lists claims s)

  -- If a refresh returns, and PyJWT gives the token the same claims whenever it decodes it, then no
  -- refresh with the same token returns from then on, in any state with the blacklist that the first
  -- one left, up to one second before the token expires.
  pub refresh_once :
      (token : Text) (s later : Site) (pair : TokenPair) (claims : Claims)
      → IsSigned token
      → env.decode s.now token ≡ ok claims
      → (refresh_execute env token s).0 ≡ ok pair
      → later.blacklist ≡ (refresh_execute env token s).1.blacklist
      → later.now + 1000 ≤ claims.exp * 1000
      → is_ok (refresh_execute env token later).0 ≡ false
  unfolding refresh_execute
  refresh_once token s later pair claims signed decodes succeeds same soon =
      let (other, e, refused) =
        Ensures-returned (λ _. Unit {0}) (λ _. IsSpent token s.now) (refresh_execute env token s)
          pair (refresh_decoded-spends token (env.decode s.now token) s signed refl) succeeds in
      refused later same (
        subst (λ (c : Claims). later.now + 1000 ≤ c.exp * 1000)
          (signed s.now s.now claims other decodes e) soon)
