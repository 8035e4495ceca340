-- ===== src/Accounts/Site.antt =====
-- The tables of users and permissions as an open session sees them and as they are committed, the
-- entries of the cache of app/core/cache.py, and the calls of services. Times are in milliseconds.
pub mod Rules
use fast_kit.Kit.{
  Text, codes, text_eq→eq, text_eq_refl, text_eq, ℕ, zero, suc, ◌+◌, ◌-◌, ◌*◌, ◌/◌, ◌%◌, ◌^◌, ◌≤◌,
  ◌<◌, min, max, String, ◌≡◌, refl, sym, ap, ◌∙◌, fun_ext, subst, ◌≢◌, ◌↔◌, ◌⊎◌, inl, inr, Bool,
  true, false, not, ◌&&◌, ◌||◌, false≢true, Option, none, some, List, [], ◌∷◌, ◌++◌, map,
  append-nil, append_assoc, map-append, arith, ◌==◌, eq_iff, eq_refl, if◌then◌else◌, ltb, leb,
  num_eq, is_some, or_else, Bool-cases, Option-cases, num_eq→eq, num_eq_refl, text-cases, text_ne,
  if-not, option_map, and_true, num_eq_of_eq, not-false, option_map-some, length, take, drop,
  where_, any, find, update_where, length-append, length-take, length-update_where, All, All-append,
  insert_ordered, order_by, Any-append_left, Any-append_right, Any-map, In, In-update_where,
  In-update_where_of, All-of_In, In-where_, In-take, In-insert_ordered, In-order_by, In-append,
  find-holds, Any, here, there, Method, pure, raise, gets, lift, or_raise, modify, raise_if, ◌>>=◌,
  ◌>>◌, is_ok, bind-ok, bind-err, for_each, Result, ok, err, Ensures-bind, Ensures-if,
  Ensures-weaken, state-Ensures, Ensures-self, Ensures-both, Ensures-for_each, Exactly,
  Ensures-then, Ensures-raise_if, Ensures-returned, Ensures-never, Ensures, returns, raises,
  decimal, parse_decimal, parse-decimal, pair_with, join, In-join, join-In, where_-In, any-In,
  In-any, counted-In, In-map, map-In, find-In, In-end,
}
use fast_kit.Accounts.Values.{
  UserRoleModel, RolePermissionModel, publish_failed, RoleModel, AccountEvent, UserStatus,
  store_failed, PermissionModel, UserModel, AccountFailure,
}

pub record Tables : Type 0 where
  pub users : List UserModel
  pub permissions : List PermissionModel
  pub roles : List RoleModel
  pub role_permissions : List RolePermissionModel
  pub user_roles : List UserRoleModel
  pub next_id : ℕ

-- The entries under `token:blacklist:<jti>`, `user_permissions:<id>` and `auth:credentials:<email>`,
-- until they expire.
pub record BlacklistEntry : Type 0 where
  pub jti : Text
  pub expires_at : ℕ

pub record PermissionsEntry : Type 0 where
  pub user_id : ℕ
  pub names : List Text
  pub expires_at : ℕ

pub record CredentialsEntry : Type 0 where
  pub email : Text
  pub uuid : Option Text
  pub hashed_password : Text
  pub status : UserStatus
  pub username : Text
  pub expires_at : ℕ

pub record Site : Type 0 where
  pub db : Tables
  pub stored : Tables
  pub blacklist : List BlacklistEntry
  pub permissions_cache : List PermissionsEntry
  pub credentials_cache : List CredentialsEntry
  pub published : List AccountEvent
  pub calls : ℕ
  pub draws : ℕ
  pub now : ℕ

pub record Claims : Type 0 where
  pub sub : Text
  pub type : Option Text
  pub jti : Text
  pub iat : ℕ
  pub exp : ℕ

-- `jwt.ExpiredSignatureError`, and the other kinds of `jwt.InvalidTokenError`.
pub data DecodeError : Type 0 where
  expired_signature_error : DecodeError
  invalid_token : DecodeError

-- PyJWT with the key of the service, at a time; the identifiers that `uuid4`, `uuid7` and the
-- database draw; the password hasher; and which calls of the cache, the database and the broker
-- fail.
pub record Services : Type 0 where
  pub decode : ℕ → Text → Result DecodeError Claims
  pub encode : Claims → Text
  pub uuid4 : ℕ → Text
  pub uuid7 : ℕ → Text
  pub get_password_hash : Text → Text
  pub verify_password : Text → Text → Bool
  pub need_to_rehash : Text → Bool
  pub call_fails : ℕ → Bool

abbrev pub Action : Type 0 → Type 0
Action A = Method Site AccountFailure A

module _ (env : Services) where
  -- A call of another service, which may fail.
  unfoldable pub call : {A : Type 0} → AccountFailure → (Site → A) → (Site → Site) → Action A
  call e read write s =
      if env.call_fails s.calls
      then (err e, record s { calls = s.calls + 1 })
      else (ok (read s), record (write s) { calls = s.calls + 1 })

  unfoldable pub query : {A : Type 0} → (Tables → A) → Action A
  unfolding call
  query f = call store_failed (λ s. f s.db) (λ s. s)

  unfoldable pub statement : (Tables → Tables) → Action (Unit {0})
  unfolding call
  statement f = call store_failed (λ _. tt) (λ s. record s { db = f s.db })

  unfoldable pub commit : Action (Unit {0})
  unfolding call
  commit = call store_failed (λ _. tt) (λ s. record s { stored = s.db })

  unfoldable pub publish : AccountEvent → Action (Unit {0})
  unfolding call
  publish event =
      call publish_failed (λ _. tt) (λ s. record s { published = s.published ++ event ∷ [] })

-- A request has a session of `get_db`: it starts from what is committed, and what is not committed
-- at its end is gone.
unfoldable pub request : {A : Type 0} → Action A → Action A
request m s = let (r, s') = m (record s { db = s.stored }) in (r, record s' { db = s'.stored })

-- `except` for the classes of exceptions that the test accepts.
unfoldable pub except :
    {A : Type 0} → (AccountFailure → Option AccountFailure) → Action A → Action A
except handler m s =
    let (r, s') = m s in elim r [ ok a ↦ (ok a, s') | err e ↦ (err (or_else (handler e) e), s') ]
