-- ===== src/Rbac/Coherence/Additions.antt =====
-- New permissions and new roles, and what users are permitted.
use fast_kit.Rbac.Coherence.Writes.{Sub-IsRight}
use fast_kit.Rbac.UseCases.{create_permission_execute, create_role_execute}
use fast_kit.Rbac.Coherence.Steps.{
  statement-At, query-At, commit-At, statement-At, Kept, WroteMember, At,
}
use fast_kit.Rbac.Tables.{
  is_live_permission, is_live_role, map_role_to_domain, map_permission_to_domain,
}
use fast_kit.Rbac.Repository.{
  get_role_by_name, get_permission_by_name, create_permission_row, create_role_row,
}
use fast_kit.Accounts.Values.{
  permission_already_exists_error, role_already_exists_error, AccountFailure, integrity_error,
  Permission, Role, RoleModel, PermissionModel,
}
use fast_kit.Accounts.Site.{
  commit, query, Action, statement, Site, PermissionsEntry, Tables, Services,
}
use fast_kit.Rbac.Coherence.{move, IsKeyed, Changes, nobody, IsCoherent}
use fast_kit.Rbac.Coherence.Operations.{Kept-IsCoherent, start, IsReady, coherent_of}
use fast_kit.Kit.{
  text_eq, ◌+◌, ◌≡◌, ap, subst, inl, inr, true, false, ◌&&◌, ◌||◌, Option, none, List, [], ◌∷◌,
  ◌++◌, arith, is_some, option_map, any, find, Any-append_left, In, pure, raise_if, ◌>>=◌, ◌>>◌,
  Ensures-bind, Ensures-weaken, Ensures-raise_if, Ensures, returns, In-end,
}

module _ (t : Tables) (k : IsKeyed t) where
  add_permission-Changes :
      (m : PermissionModel)
      → m.id ≡ t.next_id
      → Changes nobody t
          (record t { permissions = t.permissions ++ m ∷ []; next_id = t.next_id + 1 })
  add_permission-Changes m fresh =
      let t' = record t { permissions = t.permissions ++ m ∷ []; next_id = t.next_id + 1 } in
      record {
        keyed = record {
          permissions = λ p i. elim (In-end p m t.permissions i) [
            | inl old ↦ omega (arith, k.permissions p old)
            | inr e ↦ omega (arith, fresh, ap (λ (x : PermissionModel). x.id) e)
          ];
          roles = λ r i. omega (arith, k.roles r i);
          links = λ l i. (omega (arith, (k.links l i).0), omega (arith, (k.links l i).1));
          members = λ x i. omega (arith, k.members x i);
        };
        same = λ u f name. (
          λ g.
              move t t' u name g (Any-append_left (m ∷ []) g.permission_in) g.link_in g.member_in
                g.role_in,
          λ g. elim (In-end g.permission m t.permissions g.permission_in) [
            | inl old ↦ move t' t u name g old g.link_in g.member_in g.role_in
            | inr e ↦ absurd (
                omega (
                  arith,
                  (k.links g.link g.link_in).0,
                  g.links_permission,
                  fresh,
                  ap (λ (x : PermissionModel). x.id) e,
                ))
          ],
        );
      }

  add_role-Changes :
      (m : RoleModel)
      → m.id ≡ t.next_id
      → Changes nobody t (record t { roles = t.roles ++ m ∷ []; next_id = t.next_id + 1 })
  add_role-Changes m fresh =
      let t' = record t { roles = t.roles ++ m ∷ []; next_id = t.next_id + 1 } in
      record {
        keyed = record {
          permissions = λ p i. omega (arith, k.permissions p i);
          roles = λ r i. elim (In-end r m t.roles i) [
            | inl old ↦ omega (arith, k.roles r old)
            | inr e ↦ omega (arith, fresh, ap (λ (x : RoleModel). x.id) e)
          ];
          links = λ l i. (omega (arith, (k.links l i).0), omega (arith, (k.links l i).1));
          members = λ x i. omega (arith, k.members x i);
        };
        same = λ u f name. (
          λ g.
              move t t' u name g g.permission_in g.link_in g.member_in
                (Any-append_left (m ∷ []) g.role_in),
          λ g. elim (In-end g.role m t.roles g.role_in) [
            | inl old ↦ move t' t u name g g.permission_in g.link_in g.member_in old
            | inr e ↦ absurd (
                omega (
                  arith,
                  k.members g.member g.member_in,
                  g.has_role,
                  fresh,
                  ap (λ (x : RoleModel). x.id) e,
                ))
          ],
        );
      }

module _ (env : Services) (t : Tables) (c : List PermissionsEntry) (k : IsKeyed t) where
  permission_row-WroteMember :
      (permission : Permission) (u : Site)
      → At t t c u
      → Ensures (λ _. WroteMember t c nobody) (Kept t c) (create_permission_row env permission u)
  unfolding create_permission_row
  permission_row-WroteMember permission u at =
      let m : PermissionModel = record {
        id = u.db.next_id;
        uuid = env.uuid7 u.db.next_id;
        name = permission.name;
        description = permission.description;
        resource = permission.resource;
        action = permission.action;
        deleted_at = none;
      } in
      let add = λ (t : Tables). record t {
        permissions = t.permissions ++ m ∷ [];
        next_id = t.next_id + 1;
      } in
      Ensures-raise_if (λ _. WroteMember t c nobody) (Kept t c)
        (any (λ p. text_eq p.name m.name || text_eq p.uuid m.uuid) u.db.permissions) integrity_error
        (statement env add >> pure (map_permission_to_domain m)) u (at.1, at.2)
        (λ _.
          Ensures-bind (λ _. At (add t) t c) (λ _. WroteMember t c nobody) (Kept t c)
            (statement env add) (λ _. pure (map_permission_to_domain m)) u
            (statement-At env t t c add u at)
            (λ _ v q.
              returns
                (add t, q, add_permission-Changes t k m (ap (λ (t : Tables). t.next_id) at.0))))

  role_row-WroteMember :
      (role : Role) (u : Site)
      → At t t c u
      → Ensures (λ _. WroteMember t c nobody) (Kept t c) (create_role_row env role u)
  unfolding create_role_row
  role_row-WroteMember role u at =
      let m : RoleModel = record {
        id = u.db.next_id;
        uuid = env.uuid7 u.db.next_id;
        name = role.name;
        description = role.description;
        deleted_at = none;
      } in
      let add = λ (t : Tables). record t { roles = t.roles ++ m ∷ []; next_id = t.next_id + 1 } in
      Ensures-raise_if (λ _. WroteMember t c nobody) (Kept t c)
        (any (λ r. text_eq r.name m.name || text_eq r.uuid m.uuid) u.db.roles) integrity_error
        (statement env add >> pure (map_role_to_domain false u.db m)) u (at.1, at.2)
        (λ _.
          Ensures-bind (λ _. At (add t) t c) (λ _. WroteMember t c nobody) (Kept t c)
            (statement env add) (λ _. pure (map_role_to_domain false u.db m)) u
            (statement-At env t t c add u at)
            (λ _ v q.
              returns (add t, q, add_role-Changes t k m (ap (λ (t : Tables). t.next_id) at.0))))

module _ (env : Services) (s0 : Site) (h : IsReady s0) where
  -- A new row, if its name is free, and its commit.
  create-IsCoherent :
      {A B : Type 0} (look : Tables → Option B) (e : AccountFailure) (write : Action A)
      → ((u : Site)
          → At s0.stored s0.stored s0.permissions_cache u
          → Ensures
              (λ _. WroteMember s0.stored s0.permissions_cache nobody)
              (Kept s0.stored s0.permissions_cache)
              (write u))
      → Ensures
          (λ _. IsCoherent)
          IsCoherent
          ((query env look >>= λ existing.
              raise_if (is_some existing) e >> (write >>= λ saved. commit env >> pure saved))
            s0)
  create-IsCoherent look e write go =
      let t = s0.stored in
      let c = s0.permissions_cache in
      let rest = write >>= λ saved. commit env >> pure saved in
      Ensures-bind (λ _. At t t c) (λ _. IsCoherent) IsCoherent (query env look)
        (λ existing. raise_if (is_some existing) e >> rest) s0
        (Ensures-weaken _ _ _ _ (λ _ u q. q.1) (λ u q. Kept-IsCoherent env s0 h u q) _
          (query-At env t t c look s0 (start env s0 h)))
        (λ existing u at.
          Ensures-raise_if (λ _. IsCoherent) IsCoherent (is_some existing) e rest u
            (Kept-IsCoherent env s0 h u (at.1, at.2))
            (λ _.
              Ensures-bind (λ _. WroteMember t c nobody) (λ _. IsCoherent) IsCoherent write
                (λ saved. commit env >> pure saved) u
                (Ensures-weaken _ _ _ _ (λ _ w k. k) (λ w k. Kept-IsCoherent env s0 h w k) _
                  (go u at))
                (λ saved w (t', at', ch).
                  Ensures-bind (λ _. At t' t' c) (λ _. IsCoherent) IsCoherent (commit env)
                    (λ _. pure saved) w
                    (Ensures-weaken _ _ _ _ (λ _ v q. q) (λ v q. Kept-IsCoherent env s0 h v q) _
                      (commit-At env t' t c w at'))
                    (λ _ v q. returns (
                      Sub-IsRight nobody t t' c ch (coherent_of s0 h.coherent) v
                        (q.1, λ e i. subst (In e) q.2 i))))))

  pub create_permission-IsCoherent :
      (permission : Permission)
      → Ensures (λ _. IsCoherent) IsCoherent (create_permission_execute env permission s0)
  unfolding create_permission_execute get_permission_by_name
  create_permission-IsCoherent permission =
      create-IsCoherent
        (λ t.
          option_map map_permission_to_domain
            (find (λ p. text_eq p.name permission.name && is_live_permission p) t.permissions))
        permission_already_exists_error (create_permission_row env permission)
        (permission_row-WroteMember env s0.stored s0.permissions_cache h.coherent.keyed permission)

  pub create_role-IsCoherent :
      (role : Role) → Ensures (λ _. IsCoherent) IsCoherent (create_role_execute env role s0)
  unfolding create_role_execute get_role_by_name
  create_role-IsCoherent role =
      create-IsCoherent
        (λ t.
          option_map (map_role_to_domain true t)
            (find (λ r. text_eq r.name role.name && is_live_role r) t.roles))
        role_already_exists_error (create_role_row env role)
        (role_row-WroteMember env s0.stored s0.permissions_cache h.coherent.keyed role)
