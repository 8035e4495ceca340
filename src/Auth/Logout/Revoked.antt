-- ===== src/Auth/Logout/Revoked.antt =====
-- What a logout leaves on the blacklist, and the guards and refreshes after it.
use fast_kit.Accounts.Site.Rules.{publish_lem, call_lem}
use fast_kit.Auth.Tokens.Rotation.{refresh_decoded-Refuses, IsSigned, listed_until, ltb_of_lt}
use fast_kit.Users.Repository.{get_by_uuid}
use fast_kit.Auth.Tokens.{
  check_account, decoded, refresh_decoded, refresh_execute, is_type, exists, set_blacklisted,
  time_left, add_entry, is_listed,
}
use fast_kit.Auth.Guards.{
  decoded_access, check_token, check_decoded, require_authenticated, check_claims,
  subject_of_decoded, subject_of_claims, require_authenticated_user, require_permission,
  check_permission,
}
use fast_kit.Auth.Logout.{
  payload_of, access_payload, jti_of, user_of, is_empty, revoke_both, announce_logout,
  logout_execute, revoke, revoke_access,
}
use fast_kit.Kit.{
  Text, codes, text_eq→eq, text_eq_refl, text_eq, ℕ, ◌+◌, ◌*◌, ◌≤◌, String, ◌≡◌, refl, sym, ap, ◌∙◌,
  subst, Bool, true, false, not, ◌&&◌, ◌||◌, Option, none, some, List, [], arith, if◌then◌else◌,
  ltb, or_else, and_true, where_, any, pure, gets, lift, raise_if, ◌>>=◌, ◌>>◌, is_ok, Result, ok,
  err, Ensures-bind, Ensures-if, Ensures-weaken, Ensures-raise_if, Ensures-returned, Ensures-never,
  Ensures, returns, raises, where_-In, any-In, In-any,
}
use fast_kit.Accounts.Values.{
  user_logged_out, AccountFailure, invalid_token_error, token_blacklisted_error, cache_failed,
}
use fast_kit.Accounts.Site.{
  publish, Site, Services, Action, Claims, DecodeError, BlacklistEntry, expired_signature_error,
  invalid_token,
}

-- A key stays when another one is written.
listed-kept :
    (jti other : Text) (now : ℕ) (l : List BlacklistEntry)
    → text_eq jti other ≡ false
    → any (is_listed jti now) l ≡ true
    → any (is_listed jti now) (where_ (λ e. not (text_eq e.jti other)) l) ≡ true
listed-kept jti other now l apart h =
    let (e, i, q) = any-In (is_listed jti now) l h in
    let (same, _) = and_true (text_eq e.jti jti) (ltb now e.expires_at) q in
    let kept = λ (e : BlacklistEntry). not (text_eq e.jti other) in
    In-any (is_listed jti now) e (where_ kept l)
      (where_-In kept e l i (
        subst (λ t. not (text_eq t other) ≡ true) (sym (text_eq→eq e.jti jti same)) (ap not apart)))
      q

-- The blacklist has the key at every time up to a second before the claims expire.
abbrev IsRevoked : Claims → List BlacklistEntry → Type 0
IsRevoked claims l = (t : ℕ) → t + 1000 ≤ claims.exp * 1000 → any (is_listed claims.jti t) l ≡ true

IsRevoked-add :
    (claims : Claims) (s : Site)
    → IsRevoked claims (add_entry claims.jti (time_left claims s.now) s).blacklist
IsRevoked-add claims s t h =
    ap
      (λ b.
        b
        || any (is_listed claims.jti t) (where_ (λ e. not (text_eq e.jti claims.jti)) s.blacklist))
      (ap (λ b. b && ltb t (s.now + time_left claims s.now * 1000)) (text_eq_refl claims.jti)
        ∙ ltb_of_lt t (s.now + time_left claims s.now * 1000) (listed_until claims.exp s.now t h))

IsRevoked-kept :
    (claims other : Claims) (ttl : ℕ) (s : Site)
    → text_eq claims.jti other.jti ≡ false
    → IsRevoked claims s.blacklist
    → IsRevoked claims (add_entry other.jti ttl s).blacklist
IsRevoked-kept claims other ttl s apart r t h =
    rw (listed-kept claims.jti other.jti t s.blacklist apart (r t h)) (ground arith)

module _ (env : Services) where
  abbrev Anything : Site → Type 0
  Anything _ = Unit {0}

  -- The checks of the type and of the blacklist, whatever follows them, refuse a listed key.
  checks-Refuse :
      {A : Type 0} (claims : Claims) (last : Action A) (s : Site)
      → any (is_listed claims.jti s.now) s.blacklist ≡ true
      → Ensures
          (λ _ _. ⊥)
          Anything
          ((raise_if
                (not (is_type "access" claims))
                (invalid_token_error (codes "Token is not an access token."))
              >> (exists env claims.jti >>= λ revoked.
                  raise_if revoked token_blacklisted_error >> last))
            s)
  unfolding exists
  checks-Refuse claims last s listed =
      let rest = λ (revoked : Bool). raise_if revoked token_blacklisted_error >> last in
      Ensures-raise_if (λ _ _. ⊥) Anything (not (is_type "access" claims))
        (invalid_token_error (codes "Token is not an access token."))
        (exists env claims.jti >>= rest) s tt
        (λ _.
          Ensures-bind (λ b _. b ≡ true) (λ _ _. ⊥) Anything (exists env claims.jti) rest s
            (call_lem env (λ b _. b ≡ true) Anything cache_failed
              (λ u. any (is_listed claims.jti u.now) u.blacklist) (λ u. u) s listed tt)
            (λ b u yes_b.
              subst (λ c. Ensures (λ _ _. ⊥) Anything (rest c u)) (sym yes_b) (raises tt)))

  subject_of_decoded-Refuses :
      (claims : Claims) (r : Result DecodeError Claims) (s : Site)
      → ((q : Claims) → r ≡ ok q → claims ≡ q)
      → any (is_listed claims.jti s.now) s.blacklist ≡ true
      → Ensures (λ _ _. ⊥) Anything (subject_of_decoded env (decoded_access r) s)
  unfolding subject_of_decoded subject_of_claims
  subject_of_decoded-Refuses claims (err expired_signature_error) s same listed = raises tt
  subject_of_decoded-Refuses claims (err invalid_token) s same listed = raises tt
  subject_of_decoded-Refuses claims (ok q) s same listed =
      checks-Refuse q (pure q.sub) s
        (subst (λ c. any (is_listed c.jti s.now) s.blacklist ≡ true) (same q refl) listed)

  check_decoded-Refuses :
      (claims : Claims) (r : Result DecodeError Claims) (s : Site)
      → ((q : Claims) → r ≡ ok q → claims ≡ q)
      → any (is_listed claims.jti s.now) s.blacklist ≡ true
      → Ensures (λ _ _. ⊥) Anything (check_decoded env (decoded_access r) s)
  unfolding check_decoded check_claims
  check_decoded-Refuses claims (err expired_signature_error) s same listed = raises tt
  check_decoded-Refuses claims (err invalid_token) s same listed = raises tt
  check_decoded-Refuses claims (ok q) s same listed =
      checks-Refuse q (pure q) s
        (subst (λ c. any (is_listed c.jti s.now) s.blacklist ≡ true) (same q refl) listed)

  guard-Refuses :
      (token : Text) (claims : Claims) (s : Site)
      → ((q : Claims) → env.decode s.now token ≡ ok q → claims ≡ q)
      → any (is_listed claims.jti s.now) s.blacklist ≡ true
      → Ensures (λ _ _. ⊥) Anything (require_authenticated env token s)
  unfolding require_authenticated
  guard-Refuses token claims s same listed =
      subject_of_decoded-Refuses claims (env.decode s.now token) s same listed

  user_guard-Refuses :
      (token : Text) (claims : Claims) (s : Site)
      → ((q : Claims) → env.decode s.now token ≡ ok q → claims ≡ q)
      → any (is_listed claims.jti s.now) s.blacklist ≡ true
      → Ensures (λ _ _. ⊥) Anything (require_authenticated_user env token s)
  unfolding require_authenticated_user check_token
  user_guard-Refuses token claims s same listed =
      Ensures-bind (λ _ _. ⊥) (λ _ _. ⊥) Anything (check_token env token)
        (λ c. get_by_uuid env c.sub >>= check_account env) s
        (check_decoded-Refuses claims (env.decode s.now token) s same listed) (λ c u x. absurd x)

  permission_guard-Refuses :
      (permission token : Text) (claims : Claims) (s : Site)
      → ((q : Claims) → env.decode s.now token ≡ ok q → claims ≡ q)
      → any (is_listed claims.jti s.now) s.blacklist ≡ true
      → Ensures (λ _ _. ⊥) Anything (require_permission env permission token s)
  unfolding require_permission
  permission_guard-Refuses permission token claims s same listed =
      Ensures-bind (λ _ _. ⊥) (λ _ _. ⊥) Anything (require_authenticated_user env token)
        (check_permission env permission) s (user_guard-Refuses token claims s same listed)
        (λ c u x. absurd x)

  revoke-IsRevoked :
      (kind message : String) (claims : Claims) (s : Site)
      → Ensures
          (λ _ u.
            (u.blacklist ≡ (add_entry claims.jti (time_left claims s.now) s).blacklist)
            × (u.now ≡ s.now))
          Anything
          (revoke env kind message (some claims) s)
  unfolding revoke set_blacklisted
  revoke-IsRevoked kind message claims s =
      let ttl = time_left claims s.now in
      let Q = λ (_ : Unit {0}) (u : Site).
        (u.blacklist ≡ (add_entry claims.jti ttl s).blacklist) × (u.now ≡ s.now) in
      Ensures-raise_if Q Anything (not (is_type kind claims)) (invalid_token_error (codes message))
        (set_blacklisted env claims.jti ttl) s tt
        (λ _.
          call_lem env Q Anything cache_failed (λ _. tt) (add_entry claims.jti ttl) s (refl, refl)
            tt)

  announce-blacklist :
      (refresh access : Option Claims) (s : Site)
      → Ensures (λ _ u. u.blacklist ≡ s.blacklist) Anything (announce_logout env refresh access s)
  unfolding announce_logout
  announce-blacklist refresh access s =
      let event =
        user_logged_out (user_of refresh access) (or_else (jti_of refresh) []) (jti_of access) in
      Ensures-if (λ _ u. u.blacklist ≡ s.blacklist) Anything (is_empty (user_of refresh access))
        (pure tt) (publish env event) s (λ _. returns refl)
        (λ _. publish_lem env (λ u. u.blacklist ≡ s.blacklist) Anything event s refl tt)

  -- Both tokens decode: then both keys are listed at the end.
  module _ (refresh access : Claims) (apart : text_eq refresh.jti access.jti ≡ false) where
    abbrev Both : Site → Type 0
    Both u = IsRevoked refresh u.blacklist × IsRevoked access u.blacklist

    revoke_access-Both :
        (s : Site)
        → IsRevoked refresh s.blacklist
        → Ensures (λ _. Both) Anything (revoke_access env (some refresh) (some access) s)
    unfolding revoke_access
    revoke_access-Both s r =
        let l = (add_entry access.jti (time_left access s.now) s).blacklist in
        Ensures-bind (λ _ u. (u.blacklist ≡ l) × (u.now ≡ s.now)) (λ _. Both) Anything
          (revoke env "access" "Token is not an access token." (some access))
          (λ _. announce_logout env (some refresh) (some access)) s
          (revoke-IsRevoked "access" "Token is not an access token." access s)
          (λ _ u q.
            Ensures-weaken _ _ _ _
              (λ _ v e.
                let same : v.blacklist ≡ l = e ∙ q.0 in
                (
                  subst (IsRevoked refresh) (sym same)
                      (IsRevoked-kept refresh access (time_left access s.now) s apart r),
                  subst (IsRevoked access) (sym same) (IsRevoked-add access s),
                ))
              (λ _ _. tt) _ (announce-blacklist (some refresh) (some access) u))

    logout-Both :
        (refresh_token access_token : Text) (s : Site)
        → env.decode s.now refresh_token ≡ ok refresh
        → env.decode s.now access_token ≡ ok access
        → is_empty access_token ≡ false
        → Ensures (λ _. Both) Anything (logout_execute env refresh_token access_token s)
    unfolding logout_execute revoke_both
    logout-Both refresh_token access_token s dr da given =
        let l = (add_entry refresh.jti (time_left refresh s.now) s).blacklist in
        let rest = gets (λ u. u.now) >>= λ now.
        lift (access_payload env access_token now) >>= revoke_access env (some refresh) in
        rw dr (
          Ensures-bind (λ _ u. (u.blacklist ≡ l) × (u.now ≡ s.now)) (λ _. Both) Anything
            (revoke env "refresh" "Token is not a refresh token." (some refresh)) (λ _. rest) s
            (revoke-IsRevoked "refresh" "Token is not a refresh token." refresh s)
            (λ _ u q.
              let payload : access_payload env access_token u.now ≡ ok (some access) =
                ap (access_payload env access_token) q.1
                ∙ ap
                    (λ b.
                      if b
                      then ok none
                      else payload_of "Invalid access token." (env.decode s.now access_token))
                    given
                ∙ ap (payload_of "Invalid access token.") da in
              subst
                (λ (r : Result AccountFailure (Option Claims)).
                  Ensures (λ _. Both) Anything ((lift r >>= revoke_access env (some refresh)) u))
                (sym payload)
                (revoke_access-Both u
                  (subst (IsRevoked refresh) (sym q.0) (IsRevoked-add refresh s)))))

-- If a logout with two tokens of different keys returns, then, up to a second before each of them
-- expires and in any state with the blacklist that it left, each of the three guards refuses the
-- access token (of an authenticated caller, of a user, and of a permission), and no refresh with the
-- refresh token returns. PyJWT gives a token the same claims whenever it decodes
-- it.
pub logout_revokes :
    (env : Services) (permission refresh_token access_token : Text) (refresh access : Claims)
    (s later : Site)
    → IsSigned env refresh_token
    → IsSigned env access_token
    → env.decode s.now refresh_token ≡ ok refresh
    → env.decode s.now access_token ≡ ok access
    → is_empty access_token ≡ false
    → text_eq refresh.jti access.jti ≡ false
    → (logout_execute env refresh_token access_token s).0 ≡ ok tt
    → later.blacklist ≡ (logout_execute env refresh_token access_token s).1.blacklist
    → later.now + 1000 ≤ refresh.exp * 1000
    → later.now + 1000 ≤ access.exp * 1000
    → (is_ok (require_authenticated env access_token later).0 ≡ false)
      × (is_ok (require_authenticated_user env access_token later).0 ≡ false)
      × (is_ok (require_permission env permission access_token later).0 ≡ false)
      × (is_ok (refresh_execute env refresh_token later).0 ≡ false)
unfolding refresh_execute
logout_revokes env permission refresh_token access_token refresh access s later signed_r signed_a dr
      da given apart succeeds same soon_r soon_a =
    let left = λ (_ : Site). Unit {0} in
    let both =
      Ensures-returned left (λ _. Both env refresh access apart)
        (logout_execute env refresh_token access_token s) tt
        (logout-Both env refresh access apart refresh_token access_token s dr da given) succeeds in
    let listed_r : any (is_listed refresh.jti later.now) later.blacklist ≡ true =
      ap (any (is_listed refresh.jti later.now)) same ∙ both.0 later.now soon_r in
    let listed_a : any (is_listed access.jti later.now) later.blacklist ≡ true =
      ap (any (is_listed access.jti later.now)) same ∙ both.1 later.now soon_a in
    (
      Ensures-never left (require_authenticated env access_token later) (
          guard-Refuses env access_token access later
            (λ q e. signed_a s.now later.now access q da e) listed_a),
      Ensures-never left (require_authenticated_user env access_token later) (
          user_guard-Refuses env access_token access later
            (λ q e. signed_a s.now later.now access q da e) listed_a),
      Ensures-never left (require_permission env permission access_token later) (
          permission_guard-Refuses env permission access_token access later
            (λ q e. signed_a s.now later.now access q da e) listed_a),
      Ensures-never left (refresh_decoded env (decoded (env.decode later.now refresh_token)) later)
          (refresh_decoded-Refuses env refresh (env.decode later.now refresh_token) later
            (λ q e. signed_r s.now later.now refresh q dr e) listed_r),
    )
