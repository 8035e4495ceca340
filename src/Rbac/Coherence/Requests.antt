-- ===== src/Rbac/Coherence/Requests.antt =====
-- The requests of the module, and the cached lists of permissions.
use fast_kit.Rbac.Coherence.Additions.{create_role-IsCoherent, create_permission-IsCoherent}
use fast_kit.Rbac.UseCases.{
  create_role_execute, create_permission_execute, revoke_role_execute, assign_role_execute,
  revoke_permission_execute, assign_permission_execute,
}
use fast_kit.Rbac.Coherence.Writes.{IsRight-weaken}
use fast_kit.Rbac.Coherence.Guarded.{IsAllowed, require_permission_sound}
use fast_kit.Auth.Guards.{require_permission}
use fast_kit.Accounts.Site.Rules.{except_lem, request_lem}
use fast_kit.Rbac.Coherence.Operations.{
  revoke_role-IsCoherent, assign_role-IsCoherent, revoke_permission-IsCoherent,
  assign_permission-IsCoherent, holds_uuid, IsReady,
}
use fast_kit.Rbac.Api.{
  exists_errors, create_role, create_permission, leave_errors, member_errors, unlink_errors,
  unlink_errors, link_errors, revoke_role, assign_role, revoke_permission, endpoint,
  assign_permission,
}
use fast_kit.Rbac.Coherence.{nobody, IsCoherent, IsRight}
use fast_kit.Kit.{
  Text, codes, ℕ, String, ◌≡◌, refl, subst, Bool, false≢true, num_eq, ◌>>=◌, Result, Ensures-bind,
  Ensures-weaken, Ensures,
}
use fast_kit.Accounts.Values.{Role, Permission, User, AccountFailure}
use fast_kit.Accounts.Site.{except, Site, Services, Action}

-- The end of a session does not touch what is committed.
closed : (a : ℕ → Bool) (s : Site) → IsRight a s → IsRight a (record s { db = s.stored })
closed a s h = record { keyed = h.keyed; agrees = h.agrees }

opened : (s : Site) → IsCoherent s → IsReady (record s { db = s.stored })
opened s h = record { fresh = refl; coherent = closed nobody s h }

module _ (env : Services) (token : Text) (s : Site) (h : IsCoherent s) where
  -- A request, by what its body ensures.
  request-IsCoherent :
      {A : Type 0} (affected : ℕ → Bool) (permission : String) (body : User → Action A)
      → ((user : User) (u : Site)
          → IsReady u
          → u.stored ≡ s.stored
          → Ensures (λ _. IsCoherent) (IsRight affected) (body user u))
      → Ensures (λ _. IsCoherent) (IsRight affected) (endpoint env permission token body s)
  unfolding endpoint
  request-IsCoherent affected permission body go =
      let open_site = record s { db = s.stored } in
      request_lem (λ _. IsCoherent) (IsRight affected)
        (require_permission env (codes permission) token >>= body) s
        (Ensures-weaken _ _ _ _ (λ _ u q. closed nobody u q) (λ u q. closed affected u q) _
          (Ensures-bind
            (λ user u.
              IsAllowed env (codes permission) token open_site user
              × IsReady u
              × (u.stored ≡ s.stored))
            (λ _. IsCoherent) (IsRight affected) (require_permission env (codes permission) token)
            body open_site
            (Ensures-weaken _ _ _ _ (λ _ u q. q)
              (λ u q. IsRight-weaken nobody affected u (λ n x. absurd (false≢true x)) q) _
              (require_permission_sound env (codes permission) token open_site (opened s h)))
            (λ user u q. go user u q.1 q.2)))

  -- If the cached lists of permissions agree with what is committed, then each request that makes
  -- permissions and roles or gives and takes them ends with lists that agree with what it committed,
  -- whatever services fail on the way, if it returns. If it raises, only the lists of the users whom
  -- it is about may be out of date: those with the role, the one user, or nobody.
  pub rbac_requests_keep_lists :
      (role_uuid permission_uuid : Text) (user_id : ℕ) (permission : Permission) (role : Role)
      → let of_role = λ (r : Result AccountFailure (Unit {0}) × Site).
        Ensures (λ _. IsCoherent) (IsRight (holds_uuid role_uuid s.stored)) r in
        let of_user = λ (r : Result AccountFailure (Unit {0}) × Site).
          Ensures (λ _. IsCoherent) (IsRight (num_eq user_id)) r in
        of_role (assign_permission env token role_uuid permission_uuid s)
        × of_role (revoke_permission env token role_uuid permission_uuid s)
        × of_user (assign_role env token role_uuid user_id s)
        × of_user (revoke_role env token role_uuid user_id s)
        × Ensures (λ _. IsCoherent) IsCoherent (create_permission env token permission s)
        × Ensures (λ _. IsCoherent) IsCoherent (create_role env token role s)
  unfolding assign_permission revoke_permission assign_role revoke_role create_permission
      create_role
  rbac_requests_keep_lists role_uuid permission_uuid user_id permission role =
      let b = holds_uuid role_uuid s.stored in
      let a = num_eq user_id in
      let moved =
        λ (u : Site) (e : u.stored ≡ s.stored) (r : Result AccountFailure (Unit {0}) × Site)
            (x : Ensures (λ _. IsCoherent) (IsRight (holds_uuid role_uuid u.stored)) r).
          subst (λ t. Ensures (λ _. IsCoherent) (IsRight (holds_uuid role_uuid t)) r) e x in
      (
        request-IsCoherent b "rbac:role:assign_permission"
            (λ user.
              except link_errors (assign_permission_execute env role_uuid permission_uuid user.id))
            (λ user u ready same.
              except_lem (λ _. IsCoherent) (IsRight b) link_errors
                (assign_permission_execute env role_uuid permission_uuid user.id) u
                (moved u same _
                  (assign_permission-IsCoherent env u ready role_uuid permission_uuid user.id))),
        request-IsCoherent b "rbac:role:revoke_permission"
            (λ _. except unlink_errors (revoke_permission_execute env role_uuid permission_uuid))
            (λ _ u ready same.
              except_lem (λ _. IsCoherent) (IsRight b) unlink_errors
                (revoke_permission_execute env role_uuid permission_uuid) u
                (moved u same _
                  (revoke_permission-IsCoherent env u ready role_uuid permission_uuid))),
        request-IsCoherent a "rbac:role:assign_user"
            (λ user. except member_errors (assign_role_execute env user_id role_uuid user.id))
            (λ user u ready same.
              except_lem (λ _. IsCoherent) (IsRight a) member_errors
                (assign_role_execute env user_id role_uuid user.id) u
                (assign_role-IsCoherent env u ready user_id role_uuid user.id)),
        request-IsCoherent a "rbac:role:revoke_user"
            (λ _. except leave_errors (revoke_role_execute env user_id role_uuid))
            (λ _ u ready same.
              except_lem (λ _. IsCoherent) (IsRight a) leave_errors
                (revoke_role_execute env user_id role_uuid) u
                (revoke_role-IsCoherent env u ready user_id role_uuid)),
        request-IsCoherent nobody "rbac:permission:create"
            (λ _. except exists_errors (create_permission_execute env permission))
            (λ _ u ready same.
              except_lem (λ _. IsCoherent) IsCoherent exists_errors
                (create_permission_execute env permission) u
                (create_permission-IsCoherent env u ready permission)),
        request-IsCoherent nobody "rbac:role:create"
            (λ _. except exists_errors (create_role_execute env role))
            (λ _ u ready same.
              except_lem (λ _. IsCoherent) IsCoherent exists_errors (create_role_execute env role) u
                (create_role-IsCoherent env u ready role)),
      )
