-- ===== src/Rbac/Coherence/Operations.antt =====
-- Each use case that changes who is permitted what, with the lists that it drops.
use fast_kit.Auth.Guards.{cache_delete_names}
use fast_kit.Rbac.Coherence.Writes.{
  remove_permission-Wrote, cache_delete-Left, invalidate-Left, Sub-IsRight, Left-IsCoherent,
  remove_role-WroteMember, assign_permission-Wrote, assign_role-WroteMember, IsRight-weaken,
}
use fast_kit.Rbac.Coherence.{members, nobody, Agrees, holds_role, IsKeyed, IsRight, IsCoherent}
use fast_kit.Rbac.UseCases.{
  has_key, find_permission, find_role, invalidate_members, revoke_role_execute,
  revoke_permission_execute, assign_permission_execute, assign_role_execute,
}
use fast_kit.Rbac.Tables.{assigned_to, map_permission_to_domain, counts_role}
use fast_kit.Rbac.Repository.{
  remove_role_from_user, assign_role_to_user, assign_permission_to_role,
  remove_permission_from_role, get_role_permissions, user_has_role,
}
use fast_kit.Rbac.Coherence.Steps.{
  query-At, find_permission-At, commit-At, find_role-At, Wrote, IsRole, At, WroteMember, Kept,
}
use fast_kit.Kit.{
  Text, text_eq_refl, text_eq, ℕ, ◌<◌, ◌≡◌, refl, sym, subst, inl, inr, Bool, true, not, ◌&&◌,
  false≢true, Option, List, [], ◌∷◌, map, num_eq, num_eq→eq, num_eq_of_eq, any, In, raise_if, ◌>>=◌,
  ◌>>◌, Ensures-bind, Ensures-weaken, Ensures-raise_if, Ensures, In-any,
}
use fast_kit.Accounts.Values.{
  RolePermissionModel, PermissionModel, role_not_assigned_error, AccountFailure, Permission, Role,
  RoleModel, permission_not_assigned_error, role_already_assigned_error,
}
use fast_kit.Accounts.Site.{commit, Action, Tables, Site, Services, PermissionsEntry}

-- The users that have a role of this uuid.
abbrev pub holds_uuid : Text → Tables → ℕ → Bool
holds_uuid uuid t u = any (λ (r : RoleModel). text_eq r.uuid uuid && holds_role r.id t u) t.roles

holds_uuid-of :
    (uuid : Text) (t : Tables) (role u : ℕ)
    → IsRole t uuid role
    → holds_role role t u ≡ true
    → holds_uuid uuid t u ≡ true
holds_uuid-of uuid t role u (r, i, same, of_uuid) h =
    In-any (λ (r : RoleModel). text_eq r.uuid uuid && holds_role r.id t u) r t.roles i
      (rw (subst (λ x. text_eq x uuid ≡ true) (sym of_uuid) (text_eq_refl uuid))
        (subst (λ n. holds_role n t u ≡ true) (sym same) h))

-- Before a use case: the session's view is what is committed, and the lists agree with it.
pub record IsReady (s : Site) : Type 0 where
  pub fresh : s.db ≡ s.stored
  pub coherent : IsCoherent s

pub coherent_of :
    (s : Site)
    → IsCoherent s
    → (e : PermissionsEntry) → In e s.permissions_cache
    → Agrees s.stored e
coherent_of s h e i = elim (h.agrees e i) [ inl x ↦ x | inr x ↦ absurd (false≢true x) ]

module _ (env : Services) (s0 : Site) (h : IsReady s0) where
  pub Kept-IsCoherent : (u : Site) → Kept s0.stored s0.permissions_cache u → IsCoherent u
  Kept-IsCoherent u k = record {
    keyed = subst IsKeyed (sym k.0) h.coherent.keyed;
    agrees = λ e i.
        inl (subst (λ t. Agrees t e) (sym k.0) (coherent_of s0 h.coherent e (subst (In e) k.1 i)));
  }

  Kept-IsRight : (a : ℕ → Bool) (u : Site) → Kept s0.stored s0.permissions_cache u → IsRight a u
  Kept-IsRight a u k =
      IsRight-weaken nobody a u (λ n x. absurd (false≢true x)) (Kept-IsCoherent u k)

  pub start : At s0.stored s0.stored s0.permissions_cache s0
  start = (h.fresh, refl, refl)

  -- The commit behind a write to a role, and the lists of its users.
  finish_role :
      (uuid : Text) (role : ℕ) (u : Site)
      → IsRole s0.stored uuid role
      → Wrote s0.stored s0.permissions_cache (holds_role role s0.stored) u
      → Ensures
          (λ _. IsCoherent)
          (IsRight (holds_uuid uuid s0.stored))
          ((commit env >> invalidate_members env role) u)
  finish_role uuid role u known (t', at, ch, same) =
      let t = s0.stored in
      let c = s0.permissions_cache in
      let a = holds_role role t in
      let b = holds_uuid uuid t in
      Ensures-bind (λ _. At t' t' c) (λ _. IsCoherent) (IsRight b) (commit env)
        (λ _. invalidate_members env role) u
        (Ensures-weaken _ _ _ _ (λ _ v q. q) (λ v q. Kept-IsRight b v q) _
          (commit-At env t' t c u at))
        (λ _ v q.
          Ensures-weaken _ _ _ _
            (λ _ w left.
              Left-IsCoherent a t t' c ch (coherent_of s0 h.coherent) (members role t') w
                (λ n x. subst (λ l. any (num_eq n) l ≡ true) (sym (same role)) x) left)
            (λ w sub.
              IsRight-weaken a b w (λ n x. holds_uuid-of uuid t role n known x)
                (Sub-IsRight a t t' c ch (coherent_of s0 h.coherent) w sub))
            _ (invalidate-Left env t' c role v q))

  -- The commit behind a write to a user's roles, and the list of the user.
  finish_member :
      (user_id : ℕ) (u : Site)
      → WroteMember s0.stored s0.permissions_cache (num_eq user_id) u
      → Ensures
          (λ _. IsCoherent)
          (IsRight (num_eq user_id))
          ((commit env >> cache_delete_names env user_id) u)
  finish_member user_id u (t', at, ch) =
      let t = s0.stored in
      let c = s0.permissions_cache in
      let a = num_eq user_id in
      Ensures-bind (λ _. At t' t' c) (λ _. IsCoherent) (IsRight a) (commit env)
        (λ _. cache_delete_names env user_id) u
        (Ensures-weaken _ _ _ _ (λ _ v q. q) (λ v q. Kept-IsRight a v q) _
          (commit-At env t' t c u at))
        (λ _ v q.
          Ensures-weaken _ _ _ _
            (λ _ w left.
              Left-IsCoherent a t t' c ch (coherent_of s0 h.coherent) (user_id ∷ []) w
                (λ n x. rw (num_eq_of_eq n user_id (sym (num_eq→eq user_id n x))) refl) left)
            (λ w sub. Sub-IsRight a t t' c ch (coherent_of s0 h.coherent) w sub) _
            (cache_delete-Left env t' c (user_id ∷ []) [] user_id v
              ((q.1, λ e i. subst (In e) q.2 i), λ e i among. among)))

  role_bound : (uuid : Text) (role : ℕ) → IsRole s0.stored uuid role → role < s0.stored.next_id
  role_bound uuid role (r, i, same, _) =
      subst (λ n. n < s0.stored.next_id) same (h.coherent.keyed.roles r i)

  -- Behind the role: the rest of a use case that needs a permission too.
  with_permission :
      (role_uuid permission_uuid : Text) (rest : Role × ℕ → Permission × ℕ → Action (Unit {0}))
      → ((x : Role × ℕ) (y : Permission × ℕ) (u : Site)
          → IsRole s0.stored role_uuid x.1
          → y.1 < s0.stored.next_id
          → At s0.stored s0.stored s0.permissions_cache u
          → Ensures (λ _. IsCoherent) (IsRight (holds_uuid role_uuid s0.stored)) (rest x y u))
      → Ensures
          (λ _. IsCoherent)
          (IsRight (holds_uuid role_uuid s0.stored))
          ((find_role env role_uuid >>= λ x. find_permission env permission_uuid >>= rest x) s0)
  with_permission role_uuid permission_uuid rest go =
      let t = s0.stored in
      let c = s0.permissions_cache in
      let b = holds_uuid role_uuid t in
      Ensures-bind _ (λ _. IsCoherent) (IsRight b) (find_role env role_uuid)
        (λ x. find_permission env permission_uuid >>= rest x) s0
        (Ensures-weaken _ _ _ _ (λ x u q. q) (λ u q. Kept-IsRight b u q) _
          (find_role-At env t t c role_uuid s0 start))
        (λ x u q.
          Ensures-bind _ (λ _. IsCoherent) (IsRight b) (find_permission env permission_uuid)
            (rest x) u
            (Ensures-weaken _ _ _ _ (λ y v k. k) (λ v k. Kept-IsRight b v k) _
              (find_permission-At env t t c permission_uuid u q.1))
            (λ y v k.
              let (p, i, same) = k.0 in
              go x y v q.0 (subst (λ n. n < t.next_id) same (h.coherent.keyed.permissions p i))
                k.1))

  pub assign_permission-IsCoherent :
      (role_uuid permission_uuid : Text) (assigned_by : Option ℕ)
      → Ensures
          (λ _. IsCoherent)
          (IsRight (holds_uuid role_uuid s0.stored))
          (assign_permission_execute env role_uuid permission_uuid assigned_by s0)
  unfolding assign_permission_execute
  assign_permission-IsCoherent role_uuid permission_uuid assigned_by =
      let t = s0.stored in
      let c = s0.permissions_cache in
      let b = holds_uuid role_uuid t in
      with_permission role_uuid permission_uuid
        (λ x y.
          assign_permission_to_role env x.1 y.1 assigned_by
          >> (commit env >> invalidate_members env x.1))
        (λ x y u known bound at.
          Ensures-bind (λ _. Wrote t c (holds_role x.1 t)) (λ _. IsCoherent) (IsRight b)
            (assign_permission_to_role env x.1 y.1 assigned_by)
            (λ _. commit env >> invalidate_members env x.1) u
            (Ensures-weaken _ _ _ _ (λ _ v q. q) (λ v q. Kept-IsRight b v q) _
              (assign_permission-Wrote env t c h.coherent.keyed x.1 y.1
                (role_bound role_uuid x.1 known) bound assigned_by u at))
            (λ _ v q. finish_role role_uuid x.1 v known q))

  pub revoke_permission-IsCoherent :
      (role_uuid permission_uuid : Text)
      → Ensures
          (λ _. IsCoherent)
          (IsRight (holds_uuid role_uuid s0.stored))
          (revoke_permission_execute env role_uuid permission_uuid s0)
  unfolding revoke_permission_execute get_role_permissions
  revoke_permission-IsCoherent role_uuid permission_uuid =
      let t = s0.stored in
      let c = s0.permissions_cache in
      let b = holds_uuid role_uuid t in
      let write = λ (x : Role × ℕ) (y : Permission × ℕ).
        remove_permission_from_role env x.1 y.1 >> (commit env >> invalidate_members env x.1) in
      let check = λ (x : Role × ℕ) (y : Permission × ℕ) (perms : List Permission).
        raise_if (not (any (has_key y.1) perms)) permission_not_assigned_error >> write x y in
      with_permission role_uuid permission_uuid (λ x y. get_role_permissions env x.1 >>= check x y)
        (λ x y u known bound at.
          Ensures-bind (λ _. At t t c) (λ _. IsCoherent) (IsRight b) (get_role_permissions env x.1)
            (check x y) u
            (Ensures-weaken _ _ _ _ (λ _ v q. q.1) (λ v q. Kept-IsRight b v q) _
              (query-At env t t c
                (λ t.
                  map (λ (x : PermissionModel × RolePermissionModel). map_permission_to_domain x.0)
                    (assigned_to x.1 t))
                u at))
            (λ perms v at'.
              Ensures-raise_if (λ _. IsCoherent) (IsRight b) (not (any (has_key y.1) perms))
                permission_not_assigned_error (write x y) v (Kept-IsRight b v (at'.1, at'.2))
                (λ _.
                  Ensures-bind (λ _. Wrote t c (holds_role x.1 t)) (λ _. IsCoherent) (IsRight b)
                    (remove_permission_from_role env x.1 y.1)
                    (λ _. commit env >> invalidate_members env x.1) v
                    (Ensures-weaken _ _ _ _ (λ _ w q. q) (λ w q. Kept-IsRight b w q) _
                      (remove_permission-Wrote env t c h.coherent.keyed x.1 y.1
                        (role_bound role_uuid x.1 known) bound v at'))
                    (λ _ w q. finish_role role_uuid x.1 w known q))))

  -- The use cases that change one user's roles: the role, a test of it, the write and its end.
  with_role :
      (user_id : ℕ) (role_uuid : Text) (refuse : Bool → Bool) (e : AccountFailure)
      (write : ℕ → Action (Unit {0}))
      → ((role : ℕ) (u : Site)
          → role < s0.stored.next_id
          → At s0.stored s0.stored s0.permissions_cache u
          → Ensures
              (λ _. WroteMember s0.stored s0.permissions_cache (num_eq user_id))
              (Kept s0.stored s0.permissions_cache)
              (write role u))
      → Ensures
          (λ _. IsCoherent)
          (IsRight (num_eq user_id))
          ((find_role env role_uuid >>= λ x. user_has_role env user_id x.0.name >>= λ has.
              raise_if (refuse has) e
              >> (write x.1 >> (commit env >> cache_delete_names env user_id)))
            s0)
  unfolding user_has_role
  with_role user_id role_uuid refuse e write go =
      let t = s0.stored in
      let c = s0.permissions_cache in
      let a = num_eq user_id in
      let end = commit env >> cache_delete_names env user_id in
      let checked = λ (x : Role × ℕ) (has : Bool). raise_if (refuse has) e >> (write x.1 >> end) in
      Ensures-bind _ (λ _. IsCoherent) (IsRight a) (find_role env role_uuid)
        (λ x. user_has_role env user_id x.0.name >>= checked x) s0
        (Ensures-weaken _ _ _ _ (λ x u q. q) (λ u q. Kept-IsRight a u q) _
          (find_role-At env t t c role_uuid s0 start))
        (λ x u q.
          Ensures-bind (λ _. At t t c) (λ _. IsCoherent) (IsRight a)
            (user_has_role env user_id x.0.name) (checked x) u
            (Ensures-weaken _ _ _ _ (λ _ v k. k.1) (λ v k. Kept-IsRight a v k) _
              (query-At env t t c (counts_role user_id x.0.name) u q.1))
            (λ has v at.
              Ensures-raise_if (λ _. IsCoherent) (IsRight a) (refuse has) e (write x.1 >> end) v
                (Kept-IsRight a v (at.1, at.2))
                (λ _.
                  Ensures-bind (λ _. WroteMember t c a) (λ _. IsCoherent) (IsRight a) (write x.1)
                    (λ _. end) v
                    (Ensures-weaken _ _ _ _ (λ _ w k. k) (λ w k. Kept-IsRight a w k) _
                      (go x.1 v (role_bound role_uuid x.1 q.0) at))
                    (λ _ w k. finish_member user_id w k))))

  pub assign_role-IsCoherent :
      (user_id : ℕ) (role_uuid : Text) (assigned_by : Option ℕ)
      → Ensures
          (λ _. IsCoherent)
          (IsRight (num_eq user_id))
          (assign_role_execute env user_id role_uuid assigned_by s0)
  unfolding assign_role_execute
  assign_role-IsCoherent user_id role_uuid assigned_by =
      with_role user_id role_uuid (λ b. b) role_already_assigned_error
        (λ role. assign_role_to_user env user_id role assigned_by)
        (λ role u bound at.
          assign_role-WroteMember env s0.stored s0.permissions_cache h.coherent.keyed user_id role
            bound assigned_by u at)

  pub revoke_role-IsCoherent :
      (user_id : ℕ) (role_uuid : Text)
      → Ensures
          (λ _. IsCoherent)
          (IsRight (num_eq user_id))
          (revoke_role_execute env user_id role_uuid s0)
  unfolding revoke_role_execute
  revoke_role-IsCoherent user_id role_uuid =
      with_role user_id role_uuid not role_not_assigned_error
        (λ role. remove_role_from_user env user_id role)
        (λ role u bound at.
          remove_role-WroteMember env s0.stored s0.permissions_cache h.coherent.keyed user_id role
            bound u at)
