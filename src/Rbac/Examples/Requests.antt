-- ===== src/Rbac/Examples/Requests.antt =====
-- Requests of the small site, and the theorems on them.
use fast_kit.Users.Api.Permitted.{user_requests_permitted, OnlyFor}
use fast_kit.Rbac.Membership.{left, joined, membership_of}
use fast_kit.Rbac.Membership.Refinement.{role_requests_refine, Moves}
use fast_kit.Rbac.Examples.{calm, warm, user_row, warm-IsCoherent}
use fast_kit.Users.Api.{
  update_status_handler, to_suspended, delete_user_handler, prune_user_handler,
  restore_user_handler, by_uuid_handler, by_username_handler, by_email_handler, list_users_handler,
}
use fast_kit.Users.Repository.{map_to_domain}
use fast_kit.Rbac.UseCases.{assign_role_execute, revoke_role_execute}
use fast_kit.Auth.Api.{refresh_handler}
use fast_kit.Accounts.Values.{suspended, permission_denied_error, app_exception}
use fast_kit.Accounts.Site.{request}
use fast_kit.Kit.{codes, text_eq, ◌≡◌, refl, true, false, none, some, ok, err}

-- Root suspends Bob, who may not suspend root.
root_suspends :
    (update_status_handler calm (codes "root") (codes "bob") to_suspended warm).0
    ≡ ok (record (map_to_domain (user_row 2 "bob" false)) { status = suspended })
unfolding update_status_handler text_eq
root_suspends = refl

bob_does_not :
    (update_status_handler calm (codes "bob") (codes "root") to_suspended warm).0
    ≡ err permission_denied_error
unfolding update_status_handler text_eq
bob_does_not = refl

nobody_is_missing :
    (delete_user_handler calm (codes "root") (codes "eve") warm).0
    ≡ err (app_exception "USER_NOT_FOUND" 404)
unfolding delete_user_handler text_eq
nobody_is_missing = refl

user_requests_permitted_example :
    OnlyFor calm
      (codes "root")
      warm
      "user:update"
      (update_status_handler calm (codes "root") (codes "bob") to_suspended warm)
    × OnlyFor calm
        (codes "root")
        warm
        "user:delete"
        (delete_user_handler calm (codes "root") (codes "bob") warm)
    × OnlyFor calm
        (codes "root")
        warm
        "user:delete"
        (prune_user_handler calm (codes "root") (codes "bob") warm)
    × OnlyFor calm
        (codes "root")
        warm
        "user:update"
        (restore_user_handler calm (codes "root") (codes "bob") warm)
    × OnlyFor calm
        (codes "root")
        warm
        "user:read"
        (by_uuid_handler calm (codes "root") (codes "bob") warm)
    × OnlyFor calm
        (codes "root")
        warm
        "user:read"
        (by_username_handler calm (codes "root") (codes "bob") warm)
    × OnlyFor calm
        (codes "root")
        warm
        "user:read"
        (by_email_handler calm (codes "root") (codes "bob") warm)
    × OnlyFor calm
        (codes "root")
        warm
        "user:read"
        (list_users_handler calm (codes "root") none false 0 20 warm)
user_requests_permitted_example =
    user_requests_permitted calm (codes "root") warm warm-IsCoherent (codes "bob") (codes "bob")
      (codes "bob") to_suspended none false 0 20

-- Root gets the role of a driver, and Bob loses it.
root_joins :
    membership_of (request (assign_role_execute calm 1 (codes "r4") none) warm).1.stored 1 4 ≡ true
unfolding request assign_role_execute text_eq
root_joins = refl

bob_leaves :
    membership_of (request (revoke_role_execute calm 2 (codes "r4")) warm).1.stored 2 4 ≡ false
unfolding request revoke_role_execute text_eq
bob_leaves = refl

role_requests_refine_example :
    Moves warm 2
      (codes "r4")
      (joined 2)
      (request (assign_role_execute calm 2 (codes "r4") (some 1)) warm)
    × Moves warm 2 (codes "r4") (left 2) (request (revoke_role_execute calm 2 (codes "r4")) warm)
role_requests_refine_example = role_requests_refine calm warm 2 (codes "r4") (some 1)

-- An access token is no refresh token.
wrong_kind : (refresh_handler calm (codes "bob") warm).1 ≡ warm
unfolding refresh_handler text_eq
wrong_kind = refl
