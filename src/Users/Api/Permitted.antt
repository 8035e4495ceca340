-- ===== src/Users/Api/Permitted.antt =====
-- Who may read and change users.
use fast_kit.Users.Repository.{list_all, list_all}
use fast_kit.Users.UseCases.{
  by_email, by_username, by_uuid, restore_user_execute, prune_user_execute, delete_user_execute,
  update_user_status_execute,
}
use fast_kit.Auth.Guards.{require_permission}
use fast_kit.Rbac.Api.{endpoint}
use fast_kit.Accounts.Values.{UserStatus, User, AccountFailure}
use fast_kit.Users.Api.{
  restore_errors, lookup_errors, status_value, status_errors, UpdatableStatus, list_users_handler,
  by_email_handler, by_username_handler, by_uuid_handler, restore_user_handler, prune_user_handler,
  delete_user_handler, update_status_handler,
}
use fast_kit.Accounts.Site.{except, except, Action, Services, Site}
use fast_kit.Rbac.Coherence.Callers.{Good}
use fast_kit.Rbac.Coherence.Guarded.{IsAllowed, require_permission-Good}
use fast_kit.Rbac.Coherence.{IsCoherent}
use fast_kit.Accounts.Site.Rules.{request_lem}
use fast_kit.Kit.{
  Text, codes, ℕ, String, ◌≡◌, refl, ◌⊎◌, inl, inr, Bool, false≢true, Option, ◌>>=◌, Result, ok,
  err, Ensures-bind, Ensures-weaken, Ensures, returns, raises,
}

-- A session that opens sees what is committed.
abbrev opened_site : Site → Site
opened_site s = record s { db = s.stored }

opened-Good : (s : Site) → IsCoherent s → Good s.stored (opened_site s)
opened-Good s h =
    (refl, refl, λ e i. elim (h.agrees e i) [ inl same ↦ same | inr x ↦ absurd (false≢true x) ])

always :
    {A P : Type 0} (X : Site → Type 0) (r : Result AccountFailure A × Site)
    → P
    → Ensures (λ _ _. P) (λ u. X u ⊎ P) r
always X (ok a, u) p = returns p
always X (err e, u) p = raises (inr p)

module _ (env : Services) (token : Text) (s : Site) where
  -- Someone whom the token names has the permission.
  abbrev Permitted : String → Type 0
  Permitted permission = (user : User) × IsAllowed env (codes permission) token (opened_site s) user

  -- A request returns, or changes what is committed, only for a permitted caller.
  abbrev pub OnlyFor : {A : Type 0} → String → Result AccountFailure A × Site → Type 0
  OnlyFor permission r =
      Ensures (λ _ _. Permitted permission) (λ u. (u.stored ≡ s.stored) ⊎ Permitted permission) r

  module _ (h : IsCoherent s) where
    endpoint-OnlyFor :
        {A : Type 0} (permission : String) (body : User → Action A)
        → OnlyFor permission (endpoint env permission token body s)
    unfolding endpoint
    endpoint-OnlyFor permission body =
        let P = Permitted permission in
        let R = λ (u : Site). (u.stored ≡ s.stored) ⊎ P in
        let guard = require_permission env (codes permission) token in
        request_lem (λ _ _. P) R (guard >>= body) s
          (Ensures-bind (λ _ _. P) (λ _ _. P) R guard body (opened_site s)
            (Ensures-weaken _ _ _ _ (λ user u q. (user, q.0)) (λ u g. inl g.1) _
              (require_permission-Good env s.stored (codes permission) token (opened_site s)
                (opened-Good s h)))
            (λ user u p. always (λ u. u.stored ≡ s.stored) (body user u) p))

    -- If the cached lists of permissions agree with the committed tables, then each request on
    -- users but the registration returns only for a caller who has its permission, and changes
    -- what is committed only for such a caller: the token is a valid access token that is not
    -- revoked, and the user whom it names is neither suspended nor inactive, and is a superuser or
    -- has the permission by a role.
    pub user_requests_permitted :
        (uuid username email : Text) (to : UpdatableStatus) (status : Option UserStatus)
        (include_deleted : Bool) (offset limit : ℕ)
        → OnlyFor "user:update" (update_status_handler env token uuid to s)
          × OnlyFor "user:delete" (delete_user_handler env token uuid s)
          × OnlyFor "user:delete" (prune_user_handler env token uuid s)
          × OnlyFor "user:update" (restore_user_handler env token uuid s)
          × OnlyFor "user:read" (by_uuid_handler env token uuid s)
          × OnlyFor "user:read" (by_username_handler env token username s)
          × OnlyFor "user:read" (by_email_handler env token email s)
          × OnlyFor "user:read" (list_users_handler env token status include_deleted offset limit s)
    unfolding update_status_handler delete_user_handler prune_user_handler restore_user_handler
        by_uuid_handler by_username_handler by_email_handler list_users_handler
    user_requests_permitted uuid username email to status include_deleted offset limit = (
      endpoint-OnlyFor "user:update"
          (λ _. except status_errors (update_user_status_execute env uuid (status_value to))),
      endpoint-OnlyFor "user:delete" (λ _. except lookup_errors (delete_user_execute env uuid)),
      endpoint-OnlyFor "user:delete" (λ _. except lookup_errors (prune_user_execute env uuid)),
      endpoint-OnlyFor "user:update" (λ _. except restore_errors (restore_user_execute env uuid)),
      endpoint-OnlyFor "user:read" (λ _. except lookup_errors (by_uuid env uuid)),
      endpoint-OnlyFor "user:read" (λ _. except lookup_errors (by_username env username)),
      endpoint-OnlyFor "user:read" (λ _. except lookup_errors (by_email env email)),
      endpoint-OnlyFor "user:read" (λ _. list_all env status include_deleted offset limit),
    )
