-- ===== src/Rbac/Coherence/Steps.antt =====
-- The steps of the use cases on the tables and the cached lists.
use fast_kit.Accounts.Site.Rules.{statement_lem, query_lem, commit_lem}
use fast_kit.Rbac.Tables.{
  map_role_to_domain, map_permission_to_domain, is_live_role, is_live_permission,
}
use fast_kit.Rbac.Repository.{get_role_by_uuid, get_permission_by_uuid}
use fast_kit.Rbac.Coherence.{members, Changes}
use fast_kit.Rbac.UseCases.{permission_id, role_id, keyed, find_role, find_permission}
use fast_kit.Kit.{
  Text, text_eq→eq, text_eq, ℕ, ◌≡◌, refl, sym, ap, ◌∙◌, Bool, true, ◌&&◌, Option, none, some, List,
  option_map, and_true, find, In, find-holds, or_raise, Ensures-bind, Ensures-weaken, Ensures,
  returns, raises, find-In,
}
use fast_kit.Accounts.Values.{
  role_not_found_error, permission_not_found_error, Permission, Role, AccountFailure, RoleModel,
  PermissionModel,
}
use fast_kit.Accounts.Site.{statement, query, commit, Tables, Site, Services, PermissionsEntry}

-- The session's view, the committed tables and the cached lists.
abbrev pub At : Tables → Tables → List PermissionsEntry → Site → Type 0
At db stored cache s = (s.db ≡ db) × (s.stored ≡ stored) × (s.permissions_cache ≡ cache)

abbrev pub Kept : Tables → List PermissionsEntry → Site → Type 0
Kept stored cache s = (s.stored ≡ stored) × (s.permissions_cache ≡ cache)

-- A role that is found has a row with the uuid.
abbrev pub IsRole : Tables → Text → ℕ → Type 0
IsRole d uuid id = (r : RoleModel) × In r d.roles × (r.id ≡ id) × (r.uuid ≡ uuid)

module _ (env : Services) (d t : Tables) (c : List PermissionsEntry) where
  pub query-At :
      {A : Type 0} (f : Tables → A) (s : Site)
      → At d t c s
      → Ensures (λ a u. (a ≡ f d) × At d t c u) (Kept t c) (query env f s)
  query-At f s h =
      query_lem env (λ a u. (a ≡ f d) × At d t c u) (Kept t c) f s (ap f h.0, h) (h.1, h.2)

  pub statement-At :
      (f : Tables → Tables) (s : Site)
      → At d t c s
      → Ensures (λ _. At (f d) t c) (Kept t c) (statement env f s)
  statement-At f s h =
      statement_lem env (At (f d) t c) (Kept t c) f s (ap f h.0, h.1, h.2) (h.1, h.2)

  pub commit-At : (s : Site) → At d t c s → Ensures (λ _. At d d c) (Kept t c) (commit env s)
  commit-At s h = commit_lem env (At d d c) (Kept t c) s (h.0, h.0, h.2) (h.1, h.2)

  or_raise-At :
      {A : Type 0} (o : Option A) (e : AccountFailure) (s : Site)
      → At d t c s
      → Ensures (λ a u. (o ≡ some a) × At d t c u) (Kept t c) (or_raise o e s)
  or_raise-At none e s h = raises (h.1, h.2)
  or_raise-At (some a) e s h = returns (refl, h)

  keyed_role :
      (o : Option RoleModel) (x : Role × ℕ)
      → keyed role_id (option_map (map_role_to_domain true d) o) ≡ some x
      → (r : RoleModel) × (o ≡ some r) × (r.id ≡ x.1)
  keyed_role none x h = cc h
  keyed_role (some r) x h = (r, refl, cc h)

  keyed_permission :
      (o : Option PermissionModel) (x : Permission × ℕ)
      → keyed permission_id (option_map map_permission_to_domain o) ≡ some x
      → (p : PermissionModel) × (o ≡ some p) × (p.id ≡ x.1)
  keyed_permission none x h = cc h
  keyed_permission (some p) x h = (p, refl, cc h)

  pub find_role-At :
      (uuid : Text) (s : Site)
      → At d t c s
      → Ensures
          (λ (x : Role × ℕ) u. IsRole d uuid x.1 × At d t c u)
          (Kept t c)
          (find_role env uuid s)
  unfolding find_role get_role_by_uuid
  find_role-At uuid s h =
      let test = λ (r : RoleModel). text_eq r.uuid uuid && is_live_role r in
      let load = λ (t : Tables). option_map (map_role_to_domain true t) (find test t.roles) in
      Ensures-bind (λ o u. (o ≡ load d) × At d t c u) _ (Kept t c) (query env load)
        (λ role. or_raise (keyed role_id role) role_not_found_error) s (query-At load s h)
        (λ o u k.
          Ensures-weaken _ _ _ _
            (λ x v q.
              let (r, found, same) =
                keyed_role (find test d.roles) x (ap (keyed role_id) (sym k.0) ∙ q.0) in
              let (of_uuid, _) =
                and_true (text_eq r.uuid uuid) (is_live_role r) (find-holds test d.roles r found) in
              ((r, find-In test d.roles r found, same, text_eq→eq r.uuid uuid of_uuid), q.1))
            (λ v q. q) _ (or_raise-At (keyed role_id o) role_not_found_error u k.1))

  pub find_permission-At :
      (uuid : Text) (s : Site)
      → At d t c s
      → Ensures
          (λ (x : Permission × ℕ) u.
            ((p : PermissionModel) × In p d.permissions × (p.id ≡ x.1)) × At d t c u)
          (Kept t c)
          (find_permission env uuid s)
  unfolding find_permission get_permission_by_uuid
  find_permission-At uuid s h =
      let test = λ (p : PermissionModel). text_eq p.uuid uuid && is_live_permission p in
      let load = λ (t : Tables). option_map map_permission_to_domain (find test t.permissions) in
      Ensures-bind (λ o u. (o ≡ load d) × At d t c u) _ (Kept t c) (query env load)
        (λ permission. or_raise (keyed permission_id permission) permission_not_found_error) s
        (query-At load s h)
        (λ o u k.
          Ensures-weaken _ _ _ _
            (λ x v q.
              let (p, found, same) =
                keyed_permission (find test d.permissions) x
                  (ap (keyed permission_id) (sym k.0) ∙ q.0) in
              ((p, find-In test d.permissions p found, same), q.1))
            (λ v q. q) _ (or_raise-At (keyed permission_id o) permission_not_found_error u k.1))

module _ (t : Tables) (c : List PermissionsEntry) where
  -- The tables after a write that may have had nothing to do.
  abbrev pub Wrote : (ℕ → Bool) → Site → Type 0
  Wrote affected s =
      (t' : Tables) × At t' t c s × Changes affected t t' × ((r : ℕ) → members r t' ≡ members r t)

  abbrev pub WroteMember : (ℕ → Bool) → Site → Type 0
  WroteMember affected s = (t' : Tables) × At t' t c s × Changes affected t t'
