-- ===== src/Rbac/Membership/Refinement.antt =====
-- The use cases of roles, as the moves of the relation that they implement.
use fast_kit.Rbac.Tables.{add_member, is_known, counts_role, drop_member}
use fast_kit.Rbac.Repository.{
  add_user_role, assign_role_to_user, remove_role_from_user, user_has_role,
}
use fast_kit.Auth.Guards.{drop_names, cache_delete_names}
use fast_kit.Accounts.Values.{
  integrity_error, role_not_assigned_error, role_already_assigned_error, Role, cache_failed,
  RoleModel, AccountFailure,
}
use fast_kit.Rbac.Membership.{
  add_member-joined, same-left, drop_member-left, same-joined, left, membership_of, joined,
  Membership,
}
use fast_kit.Rbac.UseCases.{find_role, revoke_role_execute, assign_role_execute}
use fast_kit.Accounts.Site.{
  statement, query, commit, request, Action, PermissionsEntry, Tables, Services, Site,
}
use fast_kit.Rbac.Coherence.Steps.{
  At, Kept, IsRole, query-At, statement-At, commit-At, find_role-At,
}
use fast_kit.Accounts.Site.Rules.{call_lem, request_lem}
use fast_kit.Kit.{
  Text, ℕ, ◌+◌, ◌≡◌, refl, sym, ap, ◌∙◌, ◌⊎◌, inl, inr, Bool, not, ◌&&◌, Option, some, List,
  if◌then◌else◌, num_eq, where_, In, pure, raise_if, ◌>>=◌, ◌>>◌, Result, Ensures-bind, Ensures-if,
  Ensures-weaken, Ensures-raise_if, Ensures, returns,
}

-- What is committed is what was, with a move of the relation at a role of this uuid.
abbrev pub IsMoved : Site → Text → (ℕ → Membership → Membership) → Site → Type 0
IsMoved s uuid f v =
    (role : RoleModel) × In role s.stored.roles
    × (role.uuid ≡ uuid)
    × (membership_of v.stored ≡ f role.id (membership_of s.stored))

-- The move is made, and the user's cached list is deleted.
abbrev pub Done : Site → ℕ → Text → (ℕ → Membership → Membership) → Site → Type 0
Done s user_id uuid f v =
    IsMoved s uuid f v × (v.permissions_cache ≡ (drop_names user_id s).permissions_cache)

-- Nothing is committed, or the move; the cached lists are as they were.
abbrev pub Undone : Site → Text → (ℕ → Membership → Membership) → Site → Type 0
Undone s uuid f v =
    ((v.stored ≡ s.stored) ⊎ IsMoved s uuid f v) × (v.permissions_cache ≡ s.permissions_cache)

-- A run that returns has made the move and deleted the user's cached list; one that raises has made
-- the move or has committed nothing, and it has left the cached lists alone.
abbrev pub Moves :
    {A : Type 0}
    → Site
    → ℕ
    → Text
    → (ℕ → Membership → Membership)
    → Result AccountFailure A × Site
    → Type 0
Moves s user_id uuid f r = Ensures (λ _. Done s user_id uuid f) (Undone s uuid f) r

module _ (env : Services) (t : Tables) (c : List PermissionsEntry) where
  -- After a write of the repository, nothing is committed yet.
  abbrev Written : (Membership → Membership) → Site → Type 0
  Written f s = (t' : Tables) × At t' t c s × (membership_of t' ≡ f (membership_of t))

  assign-Written :
      (user role : ℕ) (assigned_by : Option ℕ) (s : Site)
      → At t t c s
      → Ensures
          (λ _. Written (joined user role))
          (Kept t c)
          (assign_role_to_user env user role assigned_by s)
  unfolding assign_role_to_user add_user_role
  assign-Written user role assigned_by s h =
      let Q : Unit {0} → Site → Type 0 = λ _. Written (joined user role) in
      let add = add_user_role env user role assigned_by in
      let has = λ (t : Tables). membership_of t user role in
      Ensures-bind (λ b u. (b ≡ has t) × At t t c u) Q (Kept t c) (query env has)
        (λ existing. if existing then pure tt else add) s (query-At env t t c has s h)
        (λ existing u q.
          Ensures-if Q (Kept t c) existing (pure tt) add u
            (λ e. returns (t, q.1, same-joined t user role (sym q.0 ∙ e)))
            (λ _.
              Ensures-raise_if Q (Kept t c)
                (not (is_known (some user) u.db && is_known assigned_by u.db)) integrity_error
                (statement env (add_member user role assigned_by u.now)) u (q.1.1, q.1.2)
                (λ _.
                  Ensures-weaken _ _ _ _
                    (λ _ v w. (
                      add_member user role assigned_by u.now t,
                      w,
                      add_member-joined t user role assigned_by u.now,
                    ))
                    (λ v w. w) _
                    (statement-At env t t c (add_member user role assigned_by u.now) u q.1))))

  remove-Written :
      (user role : ℕ) (s : Site)
      → At t t c s
      → Ensures (λ _. Written (left user role)) (Kept t c) (remove_role_from_user env user role s)
  unfolding remove_role_from_user
  remove-Written user role s h =
      let Q : Unit {0} → Site → Type 0 = λ _. Written (left user role) in
      let drop_it = statement env (drop_member user role) in
      let has = λ (t : Tables). membership_of t user role in
      Ensures-bind (λ b u. (b ≡ has t) × At t t c u) Q (Kept t c) (query env has)
        (λ existing. if existing then drop_it else pure tt) s (query-At env t t c has s h)
        (λ existing u q.
          Ensures-if Q (Kept t c) existing drop_it (pure tt) u
            (λ _.
              Ensures-weaken _ _ _ _
                (λ _ v w. (drop_member user role t, w, drop_member-left t user role)) (λ v w. w) _
                (statement-At env t t c (drop_member user role) u q.1))
            (λ e. returns (t, q.1, same-left t user role (sym q.0 ∙ e))))

module _ (env : Services) (s : Site) (user_id : ℕ) (role_uuid : Text)
    (f : ℕ → Membership → Membership) where
  -- The commit and the deletion of the user's list.
  end-Moves :
      (role : ℕ) (u : Site)
      → IsRole s.stored role_uuid role
      → Written env s.stored s.permissions_cache (f role) u
      → Moves s user_id role_uuid f ((commit env >> cache_delete_names env user_id) u)
  unfolding cache_delete_names
  end-Moves role u (row, i, same, of_uuid) (t', at, moved) =
      let R = Undone s role_uuid f in
      let done = λ (v : Site) (e : v.stored ≡ t').
        let all : IsMoved s role_uuid f v = (
          row,
          i,
          of_uuid,
          ap membership_of e ∙ moved ∙ ap (λ n. f n (membership_of s.stored)) (sym same),
        ) in
        all in
      Ensures-bind (λ _ v. (v.stored ≡ t') × (v.permissions_cache ≡ s.permissions_cache))
        (λ _. Done s user_id role_uuid f) R (commit env) (λ _. cache_delete_names env user_id) u
        (Ensures-weaken _ _ _ _ (λ _ v q. (q.1, q.2)) (λ v q. (inl q.0, q.1)) _
          (commit-At env t' s.stored s.permissions_cache u at))
        (λ _ v q.
          call_lem env (λ _. Done s user_id role_uuid f) R cache_failed (λ _. tt)
            (drop_names user_id) v
            (
              done (record (drop_names user_id v) { calls = v.calls + 1 }) q.0,
              ap (where_ (λ (e : PermissionsEntry). not (num_eq e.user_id user_id))) q.1,
            )
            (inr (done (record v { calls = v.calls + 1 }) q.0), q.1))

  with_role-Moves :
      (refuse : Bool → Bool) (e : AccountFailure) (write : ℕ → Action (Unit {0}))
      → ((role : ℕ) (u : Site)
          → At s.stored s.stored s.permissions_cache u
          → Ensures
              (λ _. Written env s.stored s.permissions_cache (f role))
              (Kept s.stored s.permissions_cache)
              (write role u))
      → Moves s user_id role_uuid f (
          request
            (find_role env role_uuid >>= λ x. user_has_role env user_id x.0.name >>= λ has.
              raise_if (refuse has) e
              >> (write x.1 >> (commit env >> cache_delete_names env user_id)))
            s)
  unfolding user_has_role
  with_role-Moves refuse e write go =
      let t = s.stored in
      let c = s.permissions_cache in
      let Q : Unit {0} → Site → Type 0 = λ _. Done s user_id role_uuid f in
      let R = Undone s role_uuid f in
      let end = commit env >> cache_delete_names env user_id in
      let checked = λ (x : Role × ℕ) (has : Bool). raise_if (refuse has) e >> (write x.1 >> end) in
      let body =
        find_role env role_uuid >>= λ x. user_has_role env user_id x.0.name >>= checked x in
      request_lem Q R body s (
        Ensures-bind (λ x u. IsRole t role_uuid x.1 × At t t c u) Q R (find_role env role_uuid)
          (λ x. user_has_role env user_id x.0.name >>= checked x) (record s { db = s.stored })
          (Ensures-weaken _ _ _ _ (λ x u q. q) (λ u q. (inl q.0, q.1)) _
            (find_role-At env t t c role_uuid (record s { db = s.stored }) (refl, refl, refl)))
          (λ x u q.
            Ensures-bind (λ _. At t t c) Q R (user_has_role env user_id x.0.name) (checked x) u
              (Ensures-weaken _ _ _ _ (λ _ v k. k.1) (λ v k. (inl k.0, k.1)) _
                (query-At env t t c (counts_role user_id x.0.name) u q.1))
              (λ has v at.
                Ensures-raise_if Q R (refuse has) e (write x.1 >> end) v (inl at.1, at.2)
                  (λ _.
                    Ensures-bind (λ _. Written env t c (f x.1)) Q R (write x.1) (λ _. end) v
                      (Ensures-weaken _ _ _ _ (λ _ w k. k) (λ w k. (inl k.0, k.1)) _ (go x.1 v at))
                      (λ _ w k. end-Moves x.1 w q.0 k)))))

-- The use cases that give and take a role refine the moves of the relation of who has which role:
-- one that returns has committed exactly the pair of the user and a role of that uuid, or exactly
-- its removal, and has deleted the cached list of the user's permissions and no other. One that
-- raises has committed nothing, or has made the same move and failed to delete the cached list: the
-- cached lists are as they were.
pub role_requests_refine :
    (env : Services) (s : Site) (user_id : ℕ) (role_uuid : Text) (assigned_by : Option ℕ)
    → Moves s user_id role_uuid
        (joined user_id)
        (request (assign_role_execute env user_id role_uuid assigned_by) s)
      × Moves s user_id role_uuid
          (left user_id)
          (request (revoke_role_execute env user_id role_uuid) s)
unfolding assign_role_execute revoke_role_execute
role_requests_refine env s user_id role_uuid assigned_by = (
  with_role-Moves env s user_id role_uuid (joined user_id) (λ b. b) role_already_assigned_error
      (λ role. assign_role_to_user env user_id role assigned_by)
      (λ role u at. assign-Written env s.stored s.permissions_cache user_id role assigned_by u at),
  with_role-Moves env s user_id role_uuid (left user_id) not role_not_assigned_error
      (λ role. remove_role_from_user env user_id role)
      (λ role u at. remove-Written env s.stored s.permissions_cache user_id role u at),
)
