-- ===== src/Rbac/Examples.antt =====
-- A small site, tests, and the theorems on permissions at it.
mod Requests
use fast_kit.Rbac.Membership.{left, joined, membership_of}
use fast_kit.Rbac.UseCases.{revoke_role_execute, assign_role_execute}
use fast_kit.Rbac.Membership.Refinement.{role_requests_refine, Moves}
use fast_kit.Users.Api.Permitted.{user_requests_permitted, OnlyFor}
use fast_kit.Rbac.Coherence.Requests.{rbac_requests_keep_lists}
use fast_kit.Rbac.Tables.Grants.{permission_queries_agree, Grant}
use fast_kit.Rbac.Coherence.Operations.{holds_uuid, IsReady}
use fast_kit.Rbac.Coherence.Guarded.{IsAllowed, require_permission_sound}
use fast_kit.Auth.Guards.{require_permission}
use fast_kit.Rbac.Api.{
  create_role, create_permission, assign_role, revoke_permission, assign_permission, revoke_role,
}
use fast_kit.Rbac.Tables.{counts_permission, distinct, permission_names}
use fast_kit.Rbac.Coherence.{IsRight, Agrees, IsCoherent, IsKeyed}
use fast_kit.Users.Repository.{map_to_domain}
use fast_kit.Users.Api.{
  list_users_handler, by_email_handler, by_username_handler, by_uuid_handler, restore_user_handler,
  prune_user_handler, delete_user_handler, update_status_handler, to_suspended,
}
use fast_kit.Kit.{
  Text, codes, text_eq→eq, text_eq_refl, text_eq, ℕ, zero, suc, ◌+◌, ◌-◌, ◌*◌, ◌/◌, ◌%◌, ◌^◌, ◌≤◌,
  ◌<◌, min, max, String, ◌≡◌, refl, sym, ap, ◌∙◌, fun_ext, subst, ◌≢◌, ◌↔◌, ◌⊎◌, inl, inr, Bool,
  true, false, not, ◌&&◌, ◌||◌, false≢true, Option, none, some, List, [], ◌∷◌, ◌++◌, map,
  append-nil, append_assoc, map-append, arith, ◌==◌, eq_iff, eq_refl, if◌then◌else◌, ltb, leb,
  num_eq, is_some, or_else, Bool-cases, Option-cases, num_eq→eq, num_eq_refl, text-cases, text_ne,
  if-not, option_map, and_true, num_eq_of_eq, not-false, option_map-some, length, take, drop,
  where_, any, find, update_where, length-append, length-take, length-update_where, All, All-append,
  insert_ordered, order_by, Any-append_left, Any-append_right, Any-map, In, In-update_where,
  In-update_where_of, All-of_In, In-where_, In-take, In-insert_ordered, In-order_by, In-append,
  find-holds, Any, here, there, Method, pure, raise, gets, lift, or_raise, modify, raise_if, ◌>>=◌,
  ◌>>◌, is_ok, bind-ok, bind-err, for_each, Result, ok, err, Ensures-bind, Ensures-if,
  Ensures-weaken, state-Ensures, Ensures-self, Ensures-both, Ensures-for_each, Exactly,
  Ensures-then, Ensures-raise_if, Ensures-returned, Ensures-never, Ensures, returns, raises,
  decimal, parse_decimal, parse-decimal, pair_with, join, In-join, join-In, where_-In, any-In,
  In-any, counted-In, In-map, map-In, find-In, In-end,
}
use fast_kit.Accounts.Values.{
  Role, Permission, AccountFailure, suspended, permission_denied_error, app_exception, UserModel,
  PermissionModel, RoleModel, RolePermissionModel, UserRoleModel, active,
}
use fast_kit.Accounts.Site.{request, Tables, Site, Services, Claims}

abbrev pub user_row : ℕ → String → Bool → UserModel
user_row id name is_superuser = record {
  id = id;
  uuid = codes name;
  email = codes name;
  hashed_password = codes "hash";
  phone_number = codes name;
  username = codes name;
  first_name = none;
  last_name = none;
  status = active;
  is_superuser = is_superuser;
  deleted_at = none;
}

abbrev car_read : PermissionModel
car_read = record {
  id = 3;
  uuid = codes "p3";
  name = codes "car:read";
  description = none;
  resource = codes "car";
  action = codes "read";
  deleted_at = none;
}

abbrev driver : RoleModel
driver = record {
  id = 4;
  uuid = codes "r4";
  name = codes "driver";
  description = none;
  deleted_at = none;
}

-- Root is a superuser; Bob has the role of a driver, which may read cars.
abbrev garage : Tables
garage = record {
  users = user_row 1 "root" true ∷ user_row 2 "bob" false ∷ [];
  permissions = car_read ∷ [];
  roles = driver ∷ [];
  role_permissions =
      record { role_id = 4; permission_id = 3; assigned_by = some 1; assigned_at = 5 } ∷ [];
  user_roles = record { user_id = 2; role_id = 4; assigned_by = some 1; assigned_at = 6 } ∷ [];
  next_id = 5;
}

abbrev access_claims : Text → Claims
access_claims token = record {
  sub = token;
  type = some (codes "access");
  jti = token;
  iat = 1;
  exp = 9000;
}

-- A token is the uuid of its user; all calls succeed.
abbrev pub calm : Services
calm = record {
  decode = λ _ token. ok (access_claims token);
  encode = λ claims. claims.sub;
  uuid4 = λ n. n ∷ [];
  uuid7 = λ n. n ∷ [];
  get_password_hash = λ t. t;
  verify_password = text_eq;
  need_to_rehash = λ _. false;
  call_fails = λ _. false;
}

abbrev quiet : Site
quiet = record {
  db = garage;
  stored = garage;
  blacklist = [];
  permissions_cache = [];
  credentials_cache = [];
  published = [];
  calls = 0;
  draws = 0;
  now = 1000;
}

bob_may_read : is_ok (require_permission calm (codes "car:read") (codes "bob") quiet).0 ≡ true
unfolding require_permission text_eq
bob_may_read = refl

bob_may_not_write :
    is_ok (require_permission calm (codes "car:write") (codes "bob") quiet).0 ≡ false
unfolding require_permission text_eq
bob_may_not_write = refl

-- Bob's list is cached by a guard and dropped when root revokes his role.
abbrev pub warm : Site
warm = record quiet {
  permissions_cache =
      record { user_id = 2; names = codes "car:read" ∷ []; expires_at = 301000 } ∷ [];
}

bob_is_cached :
    (require_permission calm (codes "car:read") (codes "bob") quiet).1.permissions_cache
    ≡ warm.permissions_cache
unfolding require_permission text_eq
bob_is_cached = refl

root_revokes : is_ok (revoke_role calm (codes "root") (codes "r4") 2 warm).0 ≡ true
unfolding revoke_role text_eq
root_revokes = refl

bob_is_dropped : (revoke_role calm (codes "root") (codes "r4") 2 warm).1.permissions_cache ≡ []
unfolding revoke_role text_eq
bob_is_dropped = refl

garage-IsKeyed : IsKeyed garage
garage-IsKeyed = record {
  permissions = λ p i. elim i [
    | here e ↦ omega (arith, ap (λ (x : PermissionModel). x.id) e)
    | there j ↦ elim j [ ]
  ];
  roles = λ r i. elim i [
    | here e ↦ omega (arith, ap (λ (x : RoleModel). x.id) e)
    | there j ↦ elim j [ ]
  ];
  links = λ l i. elim i [
    | here e ↦ (
      omega (arith, ap (λ (x : RolePermissionModel). x.permission_id) e),
      omega (arith, ap (λ (x : RolePermissionModel). x.role_id) e),
    )
    | there j ↦ elim j [ ]
  ];
  members = λ m i. elim i [
    | here e ↦ omega (arith, ap (λ (x : UserRoleModel). x.role_id) e)
    | there j ↦ elim j [ ]
  ];
}

quiet-IsCoherent : IsCoherent quiet
quiet-IsCoherent = record { keyed = garage-IsKeyed; agrees = λ e i. elim i [ ] }

-- The cached list is the one that the query gives.
pub warm-IsCoherent : IsCoherent warm
unfolding distinct text_eq
warm-IsCoherent = record {
  keyed = garage-IsKeyed;
  agrees = λ e i. elim i [
    | here q ↦
        inl (subst (Agrees garage) (sym q) (λ name. (permission_queries_agree garage 2 name).0))
    | there j ↦ elim j [ ]
  ];
}

permission_queries_agree_example :
    ((any (text_eq (codes "car:read")) (permission_names 2 garage) ≡ true)
      ↔ Grant garage 2 (codes "car:read"))
    × ((counts_permission 2 (codes "car:read") garage ≡ true) ↔ Grant garage 2 (codes "car:read"))
permission_queries_agree_example = permission_queries_agree garage 2 (codes "car:read")

require_permission_sound_example :
    Ensures
      (λ user u.
        IsAllowed calm (codes "car:read") (codes "bob") warm user × IsReady u × (u.stored ≡ garage))
      IsCoherent
      (require_permission calm (codes "car:read") (codes "bob") warm)
require_permission_sound_example =
    require_permission_sound calm (codes "car:read") (codes "bob") warm
      (record { fresh = refl; coherent = warm-IsCoherent })

abbrev pub car_write : Permission
car_write = record {
  id = none;
  uuid = none;
  name = codes "car:write";
  description = none;
  resource = codes "car";
  action = codes "write";
}

abbrev pub mechanic : Role
mechanic = record {
  id = none;
  uuid = none;
  name = codes "mechanic";
  description = none;
  permissions = [];
}

rbac_requests_keep_lists_example :
    let of_role = λ (r : Result AccountFailure (Unit {0}) × Site).
      Ensures (λ _. IsCoherent) (IsRight (holds_uuid (codes "r4") garage)) r in
    let of_user = λ (r : Result AccountFailure (Unit {0}) × Site).
      Ensures (λ _. IsCoherent) (IsRight (num_eq 2)) r in
    of_role (assign_permission calm (codes "root") (codes "r4") (codes "p3") warm)
    × of_role (revoke_permission calm (codes "root") (codes "r4") (codes "p3") warm)
    × of_user (assign_role calm (codes "root") (codes "r4") 2 warm)
    × of_user (revoke_role calm (codes "root") (codes "r4") 2 warm)
    × Ensures (λ _. IsCoherent) IsCoherent (create_permission calm (codes "root") car_write warm)
    × Ensures (λ _. IsCoherent) IsCoherent (create_role calm (codes "root") mechanic warm)
rbac_requests_keep_lists_example =
    rbac_requests_keep_lists calm (codes "root") warm warm-IsCoherent (codes "r4") (codes "p3") 2
      car_write mechanic
