-- ===== src/Auth/Login/Checked.antt =====
-- What a login checks and what it commits.
use fast_kit.Auth.Tokens.{TokenPair, create_token, create_token_pair}
use fast_kit.Users.UseCases.{uuid_text, update_password_hash}
use fast_kit.Users.Validation.{is_email}
use fast_kit.Accounts.Site.Rules.{publish_lem, call_lem, statement_lem, query_lem, request_lem}
use fast_kit.Auth.Login.{
  keep_credentials, login_found, cache_get_credentials, cache_login, get_user, cached_user,
  login_execute, issue_login, resolve_user, cached_credentials, rehash, check_login_status,
}
use fast_kit.Users.Repository.{
  replace_row, map_to_persistence, insert_row, get_by_email, is_id, update_user, clashes, insert,
  map_to_domain, replace_user, merge,
}
use fast_kit.Kit.{
  Text, text_eq, ◌≡◌, refl, sym, ap, ◌∙◌, ◌⊎◌, inl, inr, true, false, not, ◌&&◌, ◌||◌, Option, none,
  some, option_map, not-false, option_map-some, any, find, pure, lift, or_raise, raise_if, ◌>>=◌,
  ◌>>◌, Result, ok, err, Ensures-bind, Ensures-if, Ensures-weaken, Ensures-raise_if, Ensures,
  returns, raises,
}
use fast_kit.Accounts.Values.{
  same_status, User, UserModel, UserStatus, AccountFailure, pending_verification, active, inactive,
  suspended, integrity_error, invalid_credentials_error, value_error, cache_failed, user_logged_in,
}
use fast_kit.Accounts.Site.{
  publish, query, statement, request, Tables, Site, Services, CredentialsEntry,
}

-- Where a login takes the user from: a live entry of the cache, or else the row of the email.
abbrev IsSource : Site → Text → User → Type 0
IsSource s email user =
    ((e : CredentialsEntry) × (cached_credentials email s ≡ some e)
      × (user ≡ cached_user (record e { email = email })))
    ⊎ ((m : UserModel) × (cached_credentials email s ≡ none)
        × (find (λ m. text_eq m.email email) s.db.users ≡ some m)
        × (user ≡ map_to_domain m))

-- The user may log in, and the password is the user's.
pub record IsChecked (env : Services) (s : Site) (email password : Text) : Type 0 where
  pub user : User
  pub source : IsSource s email user
  pub address : is_email email ≡ true
  pub in_use : (same_status user.status suspended || same_status user.status inactive) ≡ false
  pub verified : env.verify_password password user.hashed_password ≡ true

module _ (env : Services) (t : Tables) where
  -- What is committed is this.
  abbrev Keeps : Site → Type 0
  Keeps u = u.stored ≡ t

  insert-Keeps : (m : UserModel) (s : Site) → Keeps s → Ensures (λ _. Keeps) Keeps (insert env m s)
  unfolding insert
  insert-Keeps m s k =
      Ensures-raise_if (λ _. Keeps) Keeps (any (clashes m) s.db.users) integrity_error
        (statement env (insert_row m) >> pure (map_to_domain m)) s k
        (λ _.
          Ensures-bind (λ _. Keeps) (λ _. Keeps) Keeps (statement env (insert_row m))
            (λ _. pure (map_to_domain m)) s (statement_lem env Keeps Keeps (insert_row m) s k k)
            (λ _ u q. returns q))

  replace-Keeps :
      (m : UserModel) (s : Site) → Keeps s → Ensures (λ _. Keeps) Keeps (replace_user env m s)
  unfolding replace_user
  replace-Keeps m s k =
      Ensures-raise_if (λ _. Keeps) Keeps (any (λ r. not (is_id m.id r) && clashes m r) s.db.users)
        integrity_error (statement env (replace_row m) >> pure (map_to_domain m)) s k
        (λ _.
          Ensures-bind (λ _. Keeps) (λ _. Keeps) Keeps (statement env (replace_row m))
            (λ _. pure (map_to_domain m)) s (statement_lem env Keeps Keeps (replace_row m) s k k)
            (λ _ u q. returns q))

  merge-Keeps : (m : UserModel) (s : Site) → Keeps s → Ensures (λ _. Keeps) Keeps (merge env m s)
  unfolding merge
  merge-Keeps m s k =
      Ensures-if (λ _. Keeps) Keeps (any (is_id m.id) s.db.users) (replace_user env m)
        (insert env m) s (λ _. replace-Keeps m s k) (λ _. insert-Keeps m s k)

  lifted-Keeps :
      (r : Result AccountFailure UserModel) (s : Site)
      → Keeps s
      → Ensures (λ _. Keeps) Keeps ((lift r >>= merge env) s)
  lifted-Keeps (err e) s k = raises k
  lifted-Keeps (ok m) s k = merge-Keeps m s k

  rehash-Keeps :
      (password : Text) (user : User) (s : Site)
      → Keeps s
      → Ensures (λ _. Keeps) Keeps (rehash env password user s)
  unfolding rehash update_user
  rehash-Keeps password user s k =
      let new = update_password_hash (env.get_password_hash password) user in
      Ensures-if (λ _. Keeps) Keeps (env.need_to_rehash user.hashed_password)
        (update_user env new >> pure new) (pure user) s
        (λ _.
          Ensures-bind (λ _. Keeps) (λ _. Keeps) Keeps (update_user env new) (λ _. pure new) s
            (lifted-Keeps (map_to_persistence env new s.db) s k) (λ _ u q. returns q))
        (λ _. returns k)

  issue_login-Keeps :
      (email : Text) (user : User) (s : Site)
      → Keeps s
      → Ensures (λ _. Keeps) Keeps (issue_login env email user s)
  unfolding issue_login cache_login create_token_pair create_token
  issue_login-Keeps email user s k =
      let event = user_logged_in (uuid_text user.uuid) email in
      let give = λ (tokens : TokenPair). publish env event >> pure tokens in
      Ensures-bind (λ _. Keeps) (λ _. Keeps) Keeps (cache_login env email user)
        (λ _. create_token_pair env (uuid_text user.uuid) >>= give) s
        (call_lem env (λ _. Keeps) Keeps cache_failed (λ _. tt) (keep_credentials email user) s k k)
        (λ _ u q.
          Ensures-bind (λ _. Keeps) (λ _. Keeps) Keeps (create_token_pair env (uuid_text user.uuid))
            give u (returns q)
            (λ tokens v r.
              Ensures-bind (λ _. Keeps) (λ _. Keeps) Keeps (publish env event) (λ _. pure tokens) v
                (publish_lem env Keeps Keeps event v r r) (λ _ w x. returns x)))

  status-Keeps :
      (status : UserStatus) (s : Site)
      → Keeps s
      → Ensures
          (λ _ u. ((same_status status suspended || same_status status inactive) ≡ false) × Keeps u)
          Keeps
          (check_login_status env status s)
  unfolding check_login_status
  status-Keeps pending_verification s k = returns (refl, k)
  status-Keeps active s k = returns (refl, k)
  status-Keeps inactive s k = raises k
  status-Keeps suspended s k = raises k

  or_raise-Keeps :
      (o : Option User) (s : Site)
      → Keeps s
      → Ensures (λ user u. (o ≡ some user) × Keeps u) Keeps (or_raise o invalid_credentials_error s)
  or_raise-Keeps none s k = raises k
  or_raise-Keeps (some user) s k = returns (refl, k)

  resolve-Keeps :
      (email : Text) (o : Option CredentialsEntry) (s0 s : Site)
      → cached_credentials email s0 ≡ o
      → s.db ≡ s0.db
      → Keeps s
      → Ensures
          (λ user u. IsSource s0 email user × (is_email email ≡ true) × Keeps u)
          Keeps
          (resolve_user env email o s)
  unfolding resolve_user get_by_email
  resolve-Keeps email (some e) s0 s cached same k =
      Ensures-raise_if _ Keeps (not (is_email email)) value_error
        (pure (cached_user (record e { email = email }))) s k
        (λ address. returns (inl (e, cached, refl), not-false (is_email email) address, k))
  resolve-Keeps email none s0 s cached same k =
      let load =
        λ (t : Tables). option_map map_to_domain (find (λ m. text_eq m.email email) t.users) in
      let Q =
        λ (user : User) (u : Site). IsSource s0 email user × (is_email email ≡ true) × Keeps u in
      Ensures-raise_if Q Keeps (not (is_email email)) value_error
        (query env load >>= λ user. or_raise user invalid_credentials_error) s k
        (λ address.
          Ensures-bind (λ o u. (o ≡ load s0.db) × Keeps u) Q Keeps (query env load)
            (λ user. or_raise user invalid_credentials_error) s
            (query_lem env (λ o u. (o ≡ load s0.db) × Keeps u) Keeps load s (ap load same, k) k)
            (λ o u q.
              Ensures-weaken _ _ _ _
                (λ user v r.
                  let (m, found, of_m) =
                    option_map-some map_to_domain (find (λ m. text_eq m.email email) s0.db.users)
                      user (sym q.0 ∙ r.0) in
                  (inr (m, cached, found, sym of_m), not-false (is_email email) address, r.1))
                (λ v r. r) _ (or_raise-Keeps o u q.1)))

  login-Keeps :
      (email password : Text) (s : Site)
      → Keeps s
      → Ensures
          (λ _ u. IsChecked env s email password × Keeps u)
          Keeps
          (login_execute env email password s)
  unfolding login_execute get_user cache_get_credentials login_found
  login-Keeps email password s k =
      let Q = λ (_ : TokenPair) (u : Site). IsChecked env s email password × Keeps u in
      let S =
        λ (user : User) (u : Site). IsSource s email user × (is_email email ≡ true) × Keeps u in
      Ensures-bind S Q Keeps (get_user env email) (login_found env email password) s
        (Ensures-bind (λ o u. (cached_credentials email s ≡ o) × (u.db ≡ s.db) × Keeps u) S Keeps
          (cache_get_credentials env email) (resolve_user env email) s
          (call_lem env (λ o u. (cached_credentials email s ≡ o) × (u.db ≡ s.db) × Keeps u) Keeps
            cache_failed (cached_credentials email) (λ u. u) s (refl, refl, k) k)
          (λ o u q. resolve-Keeps email o s u q.0 q.1 q.2))
        (λ user u q.
          let verify = env.verify_password password user.hashed_password in
          let issue = rehash env password user >>= issue_login env email in
          Ensures-bind
            (λ _ v.
              ((same_status user.status suspended || same_status user.status inactive) ≡ false)
              × Keeps v)
            Q Keeps (check_login_status env user.status)
            (λ _. raise_if (not verify) invalid_credentials_error >> issue) u
            (status-Keeps user.status u q.2)
            (λ _ v r.
              Ensures-raise_if Q Keeps (not verify) invalid_credentials_error issue v r.1 (λ passed.
                Ensures-bind (λ _. Keeps) Q Keeps (rehash env password user) (issue_login env email)
                  v (rehash-Keeps password user v r.1)
                  (λ new w x.
                    Ensures-weaken _ _ _ _
                      (λ _ y z. (
                        record {
                          user = user;
                          source = q.0;
                          address = q.1;
                          in_use = r.0;
                          verified = not-false verify passed;
                        },
                        z,
                      ))
                      (λ y z. z) _ (issue_login-Keeps email new w x)))))

-- If a login returns, the email is an address, the user of the cache or else of the database is
-- neither suspended nor inactive, and the password is that user's. Whether it returns or raises,
-- what is committed stays as it was: a new hash, which the login writes when the old one is
-- outdated, is never committed.
pub login-IsChecked :
    (env : Services) (email password : Text) (s : Site)
    → Ensures
        (λ _ u. IsChecked env (record s { db = s.stored }) email password × (u.stored ≡ s.stored))
        (λ u. u.stored ≡ s.stored)
        (request (login_execute env email password) s)
login-IsChecked env email password s =
    request_lem
      (λ _ u. IsChecked env (record s { db = s.stored }) email password × (u.stored ≡ s.stored))
      (λ u. u.stored ≡ s.stored) (login_execute env email password) s
      (login-Keeps env s.stored email password (record s { db = s.stored }) refl)
