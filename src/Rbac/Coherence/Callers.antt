-- ===== src/Rbac/Coherence/Callers.antt =====
-- Who makes a request: the checks of the token and of the account.
use fast_kit.Users.Repository.{map_to_domain, get_by_uuid}
use fast_kit.Accounts.Site.Rules.{query_lem, call_lem}
use fast_kit.Auth.Tokens.{check_status, is_listed, is_type, exists, check_account}
use fast_kit.Rbac.Coherence.{Agrees}
use fast_kit.Auth.Guards.{
  decoded_access, check_token, require_authenticated_user, check_decoded, check_claims,
}
use fast_kit.Accounts.Site.{
  DecodeError, expired_signature_error, invalid_token, query, Tables, Site, Services,
  PermissionsEntry, Claims,
}
use fast_kit.Kit.{
  Text, codes, text_eq, ◌≡◌, refl, sym, ap, ◌∙◌, subst, Bool, true, false, not, ◌||◌, Option, none,
  some, option_map, not-false, any, find, In, pure, raise_if, ◌>>=◌, ◌>>◌, Result, ok, err,
  Ensures-bind, Ensures-weaken, Ensures-raise_if, Ensures, returns, raises,
}
use fast_kit.Accounts.Values.{
  same_status, UserStatus, pending_verification, active, inactive, suspended, User, AccountFailure,
  invalid_token_error, token_blacklisted_error, cache_failed,
}

-- The token is an access token that is signed, has not expired and is not revoked, and the user is
-- the one whom it names, who is neither suspended nor inactive.
pub record IsCaller (env : Services) (token : Text) (t : Tables) (s : Site) (user : User)
    : Type 0 where
  pub claims : Claims
  pub signed : env.decode s.now token ≡ ok claims
  pub access : is_type "access" claims ≡ true
  pub unrevoked : any (is_listed claims.jti s.now) s.blacklist ≡ false
  pub found : option_map map_to_domain (find (λ m. text_eq m.uuid claims.sub) t.users) ≡ some user
  pub in_use : (same_status user.status suspended || same_status user.status inactive) ≡ false

-- The view and the committed tables are these, and the cached lists agree with them.
abbrev pub Good : Tables → Site → Type 0
Good t s =
    (s.db ≡ t) × (s.stored ≡ t) × ((e : PermissionsEntry) → In e s.permissions_cache → Agrees t e)

decoded_access-ok :
    (r : Result DecodeError Claims) (c : Claims) → decoded_access r ≡ ok c → r ≡ ok c
decoded_access-ok (ok _) c h = ap (λ x. x) (cc h)
decoded_access-ok (err expired_signature_error) c h = cc h
decoded_access-ok (err invalid_token) c h = cc h

module _ (env : Services) (t : Tables) where
  -- What the checks of a token find.
  abbrev IsValid : Site → Claims → Type 0
  IsValid s claims =
      (is_type "access" claims ≡ true) × (any (is_listed claims.jti s.now) s.blacklist ≡ false)

  check_claims-Good :
      (claims : Claims) (s : Site)
      → Good t s
      → Ensures
          (λ c u. (c ≡ claims) × IsValid s claims × Good t u)
          (Good t)
          (check_claims env claims s)
  unfolding check_claims exists
  check_claims-Good claims s g =
      let rest = λ (revoked : Bool). raise_if revoked token_blacklisted_error >> pure claims in
      let listed = λ (u : Site). any (is_listed claims.jti u.now) u.blacklist in
      let Q = λ (c : Claims) (u : Site). (c ≡ claims) × IsValid s claims × Good t u in
      Ensures-raise_if Q (Good t) (not (is_type "access" claims))
        (invalid_token_error (codes "Token is not an access token."))
        (exists env claims.jti >>= rest) s g
        (λ access.
          Ensures-bind (λ b u. (b ≡ listed s) × Good t u) Q (Good t) (exists env claims.jti) rest s
            (call_lem env (λ b u. (b ≡ listed s) × Good t u) (Good t) cache_failed listed (λ u. u) s
              (refl, g) g)
            (λ revoked u k.
              Ensures-raise_if Q (Good t) revoked token_blacklisted_error (pure claims) u k.1
                (λ clear.
                  returns
                    (refl, (not-false (is_type "access" claims) access, sym k.0 ∙ clear), k.1))))

  check_decoded-Good :
      (r : Result AccountFailure Claims) (s : Site)
      → Good t s
      → Ensures (λ c u. (r ≡ ok c) × IsValid s c × Good t u) (Good t) (check_decoded env r s)
  unfolding check_decoded
  check_decoded-Good (err e) s g = raises g
  check_decoded-Good (ok claims) s g =
      Ensures-weaken _ _ _ _
        (λ c u q. (ap (λ x. ok x) (sym q.0), subst (IsValid s) (sym q.0) q.1, q.2)) (λ _ x. x) _
        (check_claims-Good claims s g)

  -- An account that may be used.
  abbrev InUse : User → Type 0
  InUse user = (same_status user.status suspended || same_status user.status inactive) ≡ false

  check_status-Good :
      (user : User) (status : UserStatus) (s : Site)
      → user.status ≡ status
      → Good t s
      → Ensures
          (λ x u. (x ≡ user) × InUse user × Good t u)
          (Good t)
          (check_status env user status s)
  unfolding check_status
  check_status-Good user pending_verification s e g = returns (refl, rw e refl, g)
  check_status-Good user active s e g = returns (refl, rw e refl, g)
  check_status-Good user inactive s e g = raises g
  check_status-Good user suspended s e g = raises g

  check_account-Good :
      (o : Option User) (s : Site)
      → Good t s
      → Ensures (λ x u. (o ≡ some x) × InUse x × Good t u) (Good t) (check_account env o s)
  unfolding check_account
  check_account-Good none s g = raises g
  check_account-Good (some user) s g =
      Ensures-weaken _ _ _ _ (λ x u q. (ap (λ y. some y) (sym q.0), subst InUse (sym q.0) q.1, q.2))
        (λ _ x. x) _ (check_status-Good user user.status s refl g)

  pub user-Good :
      (token : Text) (s : Site)
      → Good t s
      → Ensures
          (λ user u. IsCaller env token t s user × Good t u)
          (Good t)
          (require_authenticated_user env token s)
  unfolding require_authenticated_user check_token get_by_uuid
  user-Good token s g =
      let load = λ (claims : Claims) (t : Tables).
        option_map map_to_domain (find (λ m. text_eq m.uuid claims.sub) t.users) in
      let r = decoded_access (env.decode s.now token) in
      let Q = λ (user : User) (u : Site). IsCaller env token t s user × Good t u in
      Ensures-bind (λ c u. (r ≡ ok c) × IsValid s c × Good t u) Q (Good t) (check_token env token)
        (λ claims. query env (load claims) >>= check_account env) s (check_decoded-Good r s g)
        (λ claims u k.
          Ensures-bind (λ o u. (o ≡ load claims t) × Good t u) Q (Good t) (query env (load claims))
            (check_account env) u
            (query_lem env (λ o u. (o ≡ load claims t) × Good t u) (Good t) (load claims) u
              (ap (load claims) k.2.0, k.2) k.2)
            (λ o v q.
              Ensures-weaken _ _ _ _
                (λ user w x. (
                  record {
                    claims = claims;
                    signed = decoded_access-ok (env.decode s.now token) claims k.0;
                    access = k.1.0;
                    unrevoked = k.1.1;
                    found = sym q.0 ∙ x.0;
                    in_use = x.1;
                  },
                  x.2,
                ))
                (λ _ x. x) _ (check_account-Good o v q.1)))
