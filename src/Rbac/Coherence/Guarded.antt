-- ===== src/Rbac/Coherence/Guarded.antt =====
-- The guard `require_permission` in front of a request: whom it lets pass, and what it leaves.
use fast_kit.Rbac.Coherence.Callers.{IsCaller, Good, user-Good}
use fast_kit.Rbac.Coherence.Operations.{coherent_of, IsReady}
use fast_kit.Accounts.Site.Rules.{query_lem, call_lem}
use fast_kit.Rbac.Tables.{permission_names, permissions_of, map_permission_to_domain}
use fast_kit.Rbac.Repository.{get_user_permissions}
use fast_kit.Rbac.Coherence.{IsCoherent, IsKeyed, Agrees}
use fast_kit.Rbac.Tables.Grants.{permission_queries_agree, Grant}
use fast_kit.Auth.Guards.{
  keep_names, cache_set_names, cache_get_names, require_authenticated_user, check_permission_of,
  require_permission, load_names, check_permission, cached_names,
}
use fast_kit.Accounts.Site.{query, Tables, Site, Services, PermissionsEntry}
use fast_kit.Kit.{
  Text, text_eq, ℕ, ◌≡◌, refl, sym, ap, ◌∙◌, subst, ◌↔◌, ◌⊎◌, inl, inr, true, not, ◌&&◌, Option,
  none, some, List, [], ◌∷◌, map, arith, ltb, num_eq, num_eq→eq, and_true, option_map-some, any,
  find, In-where_, find-holds, here, there, pure, raise_if, ◌>>=◌, ◌>>◌, Ensures-bind, Ensures-if,
  Ensures-weaken, Ensures-raise_if, Ensures, returns, raises, find-In,
}
use fast_kit.Accounts.Values.{
  Permission, PermissionModel, User, permission_denied_error, cache_failed,
}

-- A user may do what the permission allows.
abbrev IsPermitted : Tables → Text → User → Type 0
IsPermitted t permission user =
    (user.is_superuser ≡ true) ⊎ ((id : ℕ) × (user.id ≡ some id) × Grant t id permission)

-- The caller may do what the permission allows.
abbrev pub IsAllowed : Services → Text → Text → Site → User → Type 0
IsAllowed env permission token s user =
    IsCaller env token s.stored s user × IsPermitted s.stored permission user

names-domain :
    (ps : List PermissionModel)
    → map (λ (p : Permission). p.name) (map map_permission_to_domain ps)
      ≡ map (λ (p : PermissionModel). p.name) ps
names-domain [] = refl
names-domain (p ∷ ps) = ap (λ l. p.name ∷ l) (names-domain ps)

module _ (env : Services) (t : Tables) where
  -- Names that are exactly a user's permissions.
  abbrev Exact : ℕ → List Text → Type 0
  Exact id names = (name : Text) → (any (text_eq name) names ≡ true) ↔ Grant t id name

  load_names-Good :
      (id : ℕ) (o : Option (List Text)) (s : Site)
      → Good t s
      → ((names : List Text) → o ≡ some names → Exact id names)
      → Ensures (λ names u. Exact id names × Good t u) (Good t) (load_names env id o s)
  unfolding load_names get_user_permissions cache_set_names
  load_names-Good id (some names) s g exact = returns (exact names refl, g)
  load_names-Good id none s g exact =
      let load = λ (t : Tables). map map_permission_to_domain (permissions_of id t) in
      let Q = λ (names : List Text) (u : Site). Exact id names × Good t u in
      let name_of = λ (p : Permission). p.name in
      Ensures-bind (λ perms u. (perms ≡ load t) × Good t u) Q (Good t) (query env load)
        (λ perms. cache_set_names env id (map name_of perms) >> pure (map name_of perms)) s
        (query_lem env (λ perms u. (perms ≡ load t) × Good t u) (Good t) load s (ap load g.0, g) g)
        (λ perms u k.
          let names = map name_of perms in
          let same : names ≡ permission_names id t =
            ap (map name_of) k.0 ∙ names-domain (permissions_of id t) in
          let exact' : Exact id names = λ name.
            subst (λ l. (any (text_eq name) l ≡ true) ↔ Grant t id name) (sym same)
              ((permission_queries_agree t id name).0) in
          let kept = λ (e : PermissionsEntry). not (num_eq e.user_id id) in
          Ensures-bind (λ _. Good t) Q (Good t) (cache_set_names env id names) (λ _. pure names) u
            (call_lem env (λ _. Good t) (Good t) cache_failed (λ _. tt) (keep_names id names) u
              (
                k.1.0,
                k.1.1,
                λ e i. elim i [
                  | here q ↦ λ name.
                      subst
                        (λ (x : PermissionsEntry).
                          (any (text_eq name) x.names ≡ true) ↔ Grant t x.user_id name)
                        (sym q) (exact' name)
                  | there old ↦ k.1.2 e ((In-where_ kept u.permissions_cache old).0)
                ],
              )
              k.1)
            (λ _ v q. returns (exact', q)))

  cached-Exact :
      (id : ℕ) (s : Site) (names : List Text)
      → Good t s
      → cached_names id s ≡ some names
      → Exact id names
  cached-Exact id s names g h =
      let test = λ (e : PermissionsEntry). num_eq e.user_id id && ltb s.now e.expires_at in
      let (e, found, same) =
        option_map-some (λ (e : PermissionsEntry). e.names) (find test s.permissions_cache) names
          h in
      let (of_user, _) =
        and_true (num_eq e.user_id id) (ltb s.now e.expires_at)
          (find-holds test s.permissions_cache e found) in
      λ name.
        subst (λ l. (any (text_eq name) l ≡ true) ↔ Grant t id name) same
          (subst (λ n. (any (text_eq name) e.names ≡ true) ↔ Grant t n name)
            (num_eq→eq e.user_id id of_user)
            (g.2 e (find-In test s.permissions_cache e found) name))

  permission-Good :
      (permission : Text) (user : User) (o : Option ℕ) (s : Site)
      → user.id ≡ o
      → Good t s
      → Ensures
          (λ x u. (x ≡ user) × IsPermitted t permission x × Good t u)
          (Good t)
          (check_permission_of env permission user o s)
  unfolding check_permission_of cache_get_names
  permission-Good permission user none s same g = raises g
  permission-Good permission user (some id) s same g =
      let Q = λ (x : User) (u : Site). (x ≡ user) × IsPermitted t permission x × Good t u in
      let decide = λ (names : List Text).
        raise_if (not (any (text_eq permission) names)) permission_denied_error >> pure user in
      Ensures-bind (λ o u. ((names : List Text) → o ≡ some names → Exact id names) × Good t u) Q
        (Good t) (cache_get_names env id)
        (λ cached_perms. load_names env id cached_perms >>= decide) s
        (call_lem env (λ o u. ((names : List Text) → o ≡ some names → Exact id names) × Good t u)
          (Good t) cache_failed (cached_names id) (λ u. u) s
          (λ names e. cached-Exact id s names g e, g) g)
        (λ cached_perms u k.
          Ensures-bind (λ names u. Exact id names × Good t u) Q (Good t)
            (load_names env id cached_perms) decide u (load_names-Good id cached_perms u k.1 k.0)
            (λ names v q.
              Ensures-raise_if Q (Good t) (not (any (text_eq permission) names))
                permission_denied_error (pure user) v q.1
                (λ passed. returns (refl, inr (id, same, (q.0 permission).0 (ground arith)), q.1))))

  check_permission-Good :
      (permission : Text) (user : User) (s : Site)
      → Good t s
      → Ensures
          (λ x u. (x ≡ user) × IsPermitted t permission x × Good t u)
          (Good t)
          (check_permission env permission user s)
  unfolding check_permission
  check_permission-Good permission user s g =
      Ensures-if (λ x u. (x ≡ user) × IsPermitted t permission x × Good t u) (Good t)
        user.is_superuser (pure user) (check_permission_of env permission user user.id) s
        (λ e. returns (refl, inl e, g)) (λ _. permission-Good permission user user.id s refl g)

  pub require_permission-Good :
      (permission token : Text) (s : Site)
      → Good t s
      → Ensures
          (λ x u. (IsCaller env token t s x × IsPermitted t permission x) × Good t u)
          (Good t)
          (require_permission env permission token s)
  unfolding require_permission
  require_permission-Good permission token s g =
      let Q = λ (x : User) (u : Site).
        (IsCaller env token t s x × IsPermitted t permission x) × Good t u in
      Ensures-bind (λ user u. IsCaller env token t s user × Good t u) Q (Good t)
        (require_authenticated_user env token) (check_permission env permission) s
        (user-Good env t token s g)
        (λ user u k.
          Ensures-weaken _ _ _ _
            (λ x v q. ((subst (IsCaller env token t s) (sym q.0) k.0, q.1), q.2)) (λ _ x. x) _
            (check_permission-Good permission user u k.1))

Good-IsCoherent : (t : Tables) (s : Site) → IsKeyed t → Good t s → IsCoherent s
Good-IsCoherent t s k g = record {
  keyed = subst IsKeyed (sym g.1) k;
  agrees = λ e i. inl (subst (λ x. Agrees x e) (sym g.1) (g.2 e i));
}

-- If the cached lists agree with the tables and the guard returns a user, then the token is a valid
-- access token that is not revoked, the user is the one whom it names, who is neither suspended nor
-- inactive and is a superuser or has the permission by a role of the committed tables, also if the
-- names came from the cache. The cached lists still agree with the tables, as they do if it raises.
pub require_permission_sound :
    (env : Services) (permission token : Text) (s : Site)
    → IsReady s
    → Ensures
        (λ user u. IsAllowed env permission token s user × IsReady u × (u.stored ≡ s.stored))
        IsCoherent
        (require_permission env permission token s)
require_permission_sound env permission token s ready =
    let t = s.stored in
    let keyed = ready.coherent.keyed in
    Ensures-weaken _ _ _ _
      (λ user u q. (
        q.0,
        record { fresh = q.1.0 ∙ sym q.1.1; coherent = Good-IsCoherent t u keyed q.1 },
        q.1.1,
      ))
      (λ u g. Good-IsCoherent t u keyed g) _
      (require_permission-Good env t permission token s
        (ready.fresh, refl, λ e i. coherent_of s ready.coherent e i))
