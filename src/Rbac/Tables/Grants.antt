-- ===== src/Rbac/Tables/Grants.antt =====
-- What a user is permitted, and the two queries for it.
use fast_kit.Rbac.Tables.{
  with_links, with_users, on_user, on_role, permissions_of, on_permission, counts_permission, gives,
  same_columns, accesses, distinct, Access, permission_names, is_live_role, is_live_permission,
}
use fast_kit.Kit.{
  Text, text_eq→eq, text_eq_refl, text_eq, ℕ, ◌≡◌, refl, sym, ap, ◌∙◌, subst, ◌↔◌, inl, inr, true,
  not, ◌&&◌, List, [], ◌∷◌, map, arith, num_eq, Bool-cases, num_eq→eq, and_true, num_eq_of_eq,
  where_, any, In, In-where_, here, there, In-join, join-In, where_-In, any-In, In-any, counted-In,
  In-map, map-In,
}
use fast_kit.Accounts.Values.{PermissionModel, RoleModel, RolePermissionModel, UserRoleModel}
use fast_kit.Accounts.Site.{Tables}

-- A user has the permission of this name by a role that is not deleted.
pub record Grant (t : Tables) (user_id : ℕ) (name : Text) : Type 0 where
  pub permission : PermissionModel
  pub link : RolePermissionModel
  pub member : UserRoleModel
  pub role : RoleModel
  pub permission_in : In permission t.permissions
  pub link_in : In link t.role_permissions
  pub member_in : In member t.user_roles
  pub role_in : In role t.roles
  pub links_permission : permission.id ≡ link.permission_id
  pub links_role : link.role_id ≡ member.role_id
  pub has_role : role.id ≡ member.role_id
  pub is_user : member.user_id ≡ user_id
  pub live_permission : is_live_permission permission ≡ true
  pub live_role : is_live_role role ≡ true
  pub named : permission.name ≡ name

same_columns-name : (p q : PermissionModel) → same_columns p q ≡ true → p.name ≡ q.name
same_columns-name p q h = text_eq→eq p.name q.name (ground arith)

distinct-In : (p : PermissionModel) (ps : List PermissionModel) → In p (distinct ps) → In p ps
unfolding distinct
distinct-In p [] m = m
distinct-In p (q ∷ ps) (here e) = here e
distinct-In p (q ∷ ps) (there m) =
    there (distinct-In p ps ((In-where_ (λ r. not (same_columns q r)) (distinct ps) m).0))

-- Of a row that is left out, one with the same columns is left.
In-distinct :
    (p : PermissionModel) (ps : List PermissionModel)
    → In p ps
    → (q : PermissionModel) × In q (distinct ps) × (p.name ≡ q.name)
unfolding distinct
In-distinct p [] m = elim m [ ]
In-distinct p (q ∷ ps) (here e) = (q, here refl, ap (λ (r : PermissionModel). r.name) e)
In-distinct p (q ∷ ps) (there m) =
    let (r, i, e) = In-distinct p ps m in
    elim (Bool-cases (same_columns q r)) [
      | inl same ↦ (q, here refl, e ∙ sym (same_columns-name q r same))
      | inr apart ↦
          (r, there (where_-In (λ x. not (same_columns q x)) r (distinct ps) i (ap not apart)), e)
    ]

-- The grant that a combination of rows makes, and back.
access-Grant :
    (t : Tables) (user_id : ℕ) (x : Access)
    → In x (accesses t)
    → gives user_id x ≡ true
    → Grant t user_id x.0.0.0.name
access-Grant t user_id (((p, rp), ur), r) m g =
    let (m1, r_in, on3) = In-join on_role ((p, rp), ur) r (with_users t) t.roles m in
    let (m2, ur_in, on2) = In-join on_user (p, rp) ur (with_links t) t.user_roles m1 in
    let (p_in, rp_in, on1) = In-join on_permission p rp t.permissions t.role_permissions m2 in
    let (g1, g2) =
      and_true (num_eq ur.user_id user_id && is_live_permission p) (is_live_role r) g in
    let (g3, g4) = and_true (num_eq ur.user_id user_id) (is_live_permission p) g1 in
    record {
      permission = p;
      link = rp;
      member = ur;
      role = r;
      permission_in = p_in;
      link_in = rp_in;
      member_in = ur_in;
      role_in = r_in;
      links_permission = num_eq→eq p.id rp.permission_id on1;
      links_role = num_eq→eq rp.role_id ur.role_id on2;
      has_role = num_eq→eq r.id ur.role_id on3;
      is_user = num_eq→eq ur.user_id user_id g3;
      live_permission = g4;
      live_role = g2;
      named = refl;
    }

Grant-access :
    (t : Tables) (user_id : ℕ) (name : Text)
    → Grant t user_id name
    → (x : Access) × In x (accesses t) × (gives user_id x ≡ true) × (x.0.0.0.name ≡ name)
Grant-access t user_id name g =
    let on1 = num_eq_of_eq g.permission.id g.link.permission_id g.links_permission in
    let on2 = num_eq_of_eq g.link.role_id g.member.role_id g.links_role in
    let on3 = num_eq_of_eq g.role.id g.member.role_id g.has_role in
    let m2 =
      join-In on_permission g.permission g.link t.permissions t.role_permissions g.permission_in
        g.link_in on1 in
    let m1 =
      join-In on_user (g.permission, g.link) g.member (with_links t) t.user_roles m2 g.member_in
        on2 in
    let m =
      join-In on_role ((g.permission, g.link), g.member) g.role (with_users t) t.roles m1 g.role_in
        on3 in
    (
      (((g.permission, g.link), g.member), g.role),
      m,
      rw (num_eq_of_eq g.member.user_id user_id g.is_user, g.live_permission, g.live_role) refl,
      g.named,
    )

names-Grant :
    (t : Tables) (user_id : ℕ) (name : Text)
    → any (text_eq name) (permission_names user_id t) ≡ true
    → Grant t user_id name
names-Grant t user_id name h =
    let names = permission_names user_id t in
    let rows = map (λ (x : Access). x.0.0.0) (where_ (gives user_id) (accesses t)) in
    let (n, n_in, same) = any-In (text_eq name) names h in
    let (p, p_in, of_p) =
      In-map (λ (p : PermissionModel). p.name) n (permissions_of user_id t) n_in in
    let (x, x_in, of_x) =
      In-map (λ (x : Access). x.0.0.0) p (where_ (gives user_id) (accesses t))
        (distinct-In p rows p_in) in
    let (x_row, given) = In-where_ (gives user_id) (accesses t) x_in in
    let named : x.0.0.0.name ≡ name =
      sym (text_eq→eq name n same ∙ of_p ∙ ap (λ (q : PermissionModel). q.name) of_x) in
    subst (Grant t user_id) named (access-Grant t user_id x x_row given)

Grant-names :
    (t : Tables) (user_id : ℕ) (name : Text)
    → Grant t user_id name
    → any (text_eq name) (permission_names user_id t) ≡ true
Grant-names t user_id name g =
    let rows = map (λ (x : Access). x.0.0.0) (where_ (gives user_id) (accesses t)) in
    let (x, x_in, given, named) = Grant-access t user_id name g in
    let x_row = where_-In (gives user_id) x (accesses t) x_in given in
    let (q, q_in, same) =
      In-distinct x.0.0.0 rows
        (map-In (λ (y : Access). y.0.0.0) x (where_ (gives user_id) (accesses t)) x_row) in
    In-any (text_eq name) q.name (permission_names user_id t)
      (map-In (λ (p : PermissionModel). p.name) q (permissions_of user_id t) q_in)
      (subst (λ n. text_eq name n ≡ true) (sym named ∙ same) (text_eq_refl name))

counts-Grant :
    (t : Tables) (user_id : ℕ) (name : Text)
    → (counts_permission user_id name t ≡ true) ↔ Grant t user_id name
counts-Grant t user_id name =
    let wanted = λ (x : Access). gives user_id x && text_eq x.0.0.0.name name in
    let counted = counted-In wanted (accesses t) in
    (
      λ h.
          let (x, x_in, w) = any-In wanted (accesses t) (sym counted ∙ h) in
          let (given, named) = and_true (gives user_id x) (text_eq x.0.0.0.name name) w in
          subst (Grant t user_id) (text_eq→eq x.0.0.0.name name named)
            (access-Grant t user_id x x_in given),
      λ g.
          let (x, x_in, given, named) = Grant-access t user_id name g in
          counted
          ∙ In-any wanted x (accesses t) x_in
              (rw given (subst (λ n. text_eq n name ≡ true) (sym named) (text_eq_refl name))),
    )

-- The names that `get_user_permissions` lists are exactly the permissions of the user's roles, none
-- of them deleted, and `user_has_permission` counts a row for exactly these names.
pub permission_queries_agree :
    (t : Tables) (user_id : ℕ) (name : Text)
    → ((any (text_eq name) (permission_names user_id t) ≡ true) ↔ Grant t user_id name)
      × ((counts_permission user_id name t ≡ true) ↔ Grant t user_id name)
permission_queries_agree t user_id name =
    ((names-Grant t user_id name, Grant-names t user_id name), counts-Grant t user_id name)
