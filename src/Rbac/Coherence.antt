-- ===== src/Rbac/Coherence.antt =====
-- The cached lists of permissions and the tables: what each write changes for whom.
pub mod Steps
pub mod Writes
pub mod Callers
pub mod Guarded
pub mod Operations
pub mod Additions
pub mod Requests
use fast_kit.Rbac.Tables.Grants.{Grant}
use fast_kit.Rbac.Tables.{is_pair, is_member, drop_pair, add_member, drop_member, add_pair, members}
use fast_kit.Kit.{
  Text, codes, text_eq→eq, text_eq_refl, text_eq, ℕ, zero, suc, ◌+◌, ◌-◌, ◌*◌, ◌/◌, ◌%◌, ◌^◌, ◌≤◌,
  ◌<◌, min, max, String, ◌≡◌, refl, sym, ap, ◌∙◌, fun_ext, subst, ◌≢◌, ◌↔◌, ◌⊎◌, inl, inr, Bool,
  true, false, not, ◌&&◌, ◌||◌, false≢true, Option, none, some, List, [], ◌∷◌, ◌++◌, map,
  append-nil, append_assoc, map-append, arith, ◌==◌, eq_iff, eq_refl, if◌then◌else◌, ltb, leb,
  num_eq, is_some, or_else, Bool-cases, Option-cases, num_eq→eq, num_eq_refl, text-cases, text_ne,
  if-not, option_map, and_true, num_eq_of_eq, not-false, option_map-some, length, take, drop,
  where_, any, find, update_where, length-append, length-take, length-update_where, All, All-append,
  insert_ordered, order_by, Any-append_left, Any-append_right, Any-map, In, In-update_where,
  In-update_where_of, All-of_In, In-where_, In-take, In-insert_ordered, In-order_by, In-append,
  find-holds, Any, here, there, Method, pure, raise, gets, lift, or_raise, modify, raise_if, ◌>>=◌,
  ◌>>◌, is_ok, bind-ok, bind-err, for_each, Result, ok, err, Ensures-bind, Ensures-if,
  Ensures-weaken, state-Ensures, Ensures-self, Ensures-both, Ensures-for_each, Exactly,
  Ensures-then, Ensures-raise_if, Ensures-returned, Ensures-never, Ensures, returns, raises,
  decimal, parse_decimal, parse-decimal, pair_with, join, In-join, join-In, where_-In, any-In,
  In-any, counted-In, In-map, map-In, find-In, In-end,
}
use fast_kit.Accounts.Values.{PermissionModel, RoleModel, RolePermissionModel, UserRoleModel}
use fast_kit.Accounts.Site.{Tables, Site, PermissionsEntry}

-- A cached list has exactly the names that its user is permitted.
abbrev pub Agrees : Tables → PermissionsEntry → Type 0
Agrees t e = (name : Text) → (any (text_eq name) e.names ≡ true) ↔ Grant t e.user_id name

-- The keys of the tables are below the next one.
pub record IsKeyed (t : Tables) : Type 0 where
  pub permissions : (p : PermissionModel) → In p t.permissions → p.id < t.next_id
  pub roles : (r : RoleModel) → In r t.roles → r.id < t.next_id
  pub links :
      (l : RolePermissionModel)
      → In l t.role_permissions
      → (l.permission_id < t.next_id) × (l.role_id < t.next_id)
  pub members : (m : UserRoleModel) → In m t.user_roles → m.role_id < t.next_id

-- The tables are keyed, and every cached list agrees with them, but perhaps those of some users.
pub record IsRight (affected : ℕ → Bool) (s : Site) : Type 0 where
  pub keyed : IsKeyed s.stored
  pub agrees :
      (e : PermissionsEntry)
      → In e s.permissions_cache
      → Agrees s.stored e ⊎ (affected e.user_id ≡ true)

abbrev pub nobody : ℕ → Bool
nobody _ = false

abbrev pub IsCoherent : Site → Type 0
IsCoherent s = IsRight nobody s

-- From one state of the tables to the next, the permissions of all other users stay.
pub record Changes (affected : ℕ → Bool) (t t' : Tables) : Type 0 where
  pub keyed : IsKeyed t'
  pub same : (u : ℕ) → affected u ≡ false → (name : Text) → Grant t u name ↔ Grant t' u name

-- A grant stands in other tables that have its rows.
pub move :
    (t t' : Tables) (u : ℕ) (name : Text) (g : Grant t u name)
    → In g.permission t'.permissions
    → In g.link t'.role_permissions
    → In g.member t'.user_roles
    → In g.role t'.roles
    → Grant t' u name
move t t' u name g p l m r = record {
  permission = g.permission;
  link = g.link;
  member = g.member;
  role = g.role;
  permission_in = p;
  link_in = l;
  member_in = m;
  role_in = r;
  links_permission = g.links_permission;
  links_role = g.links_role;
  has_role = g.has_role;
  is_user = g.is_user;
  live_permission = g.live_permission;
  live_role = g.live_role;
  named = g.named;
}

abbrev pub holds_role : ℕ → Tables → ℕ → Bool
holds_role role t u = any (num_eq u) (members role t)

-- Whose grant uses a link of the role has the role.
Grant-holds :
    (t : Tables) (u role : ℕ) (name : Text) (g : Grant t u name)
    → g.link.role_id ≡ role
    → holds_role role t u ≡ true
Grant-holds t u role name g e =
    let of_role = λ (m : UserRoleModel). num_eq m.role_id role in
    let row =
      where_-In of_role g.member t.user_roles g.member_in
        (num_eq_of_eq g.member.role_id role (sym g.links_role ∙ e)) in
    In-any (num_eq u) g.member.user_id (members role t)
      (map-In (λ (m : UserRoleModel). m.user_id) g.member (where_ of_role t.user_roles) row)
      (num_eq_of_eq u g.member.user_id (sym g.is_user))

not_both : (b : Bool) → b ≡ true → b ≡ false → ⊥
not_both b h k = cc (h, k)

module _ (t : Tables) (k : IsKeyed t) where
  pub same-Changes : (affected : ℕ → Bool) → Changes affected t t
  same-Changes affected = record { keyed = k; same = λ u f name. (λ g. g, λ g. g) }

  module _ (role permission : ℕ) (r : role < t.next_id) (p : permission < t.next_id) where
    pub add_pair-Changes :
        (assigned_by : Option ℕ) (now : ℕ)
        → Changes (holds_role role t) t (add_pair role permission assigned_by now t)
    add_pair-Changes assigned_by now =
        let new : RolePermissionModel = record {
          role_id = role;
          permission_id = permission;
          assigned_by = assigned_by;
          assigned_at = now;
        } in
        let t' = add_pair role permission assigned_by now t in
        record {
          keyed = record {
            permissions = k.permissions;
            roles = k.roles;
            links = λ l i. elim (In-end l new t.role_permissions i) [
              | inl old ↦ k.links l old
              | inr e ↦
                  subst
                    (λ (x : RolePermissionModel).
                      (x.permission_id < t.next_id) × (x.role_id < t.next_id))
                    (sym e) (p, r)
            ];
            members = k.members;
          };
          same = λ u f name. (
            λ g.
                move t t' u name g g.permission_in (Any-append_left (new ∷ []) g.link_in)
                  g.member_in g.role_in,
            λ g. elim (In-end g.link new t.role_permissions g.link_in) [
              | inl old ↦ move t' t u name g g.permission_in old g.member_in g.role_in
              | inr e ↦
                  let held : holds_role role t u ≡ true =
                    Grant-holds t' u role name g (ap (λ (l : RolePermissionModel). l.role_id) e) in
                  absurd (not_both (holds_role role t u) held f)
            ],
          );
        }

    pub drop_pair-Changes : Changes (holds_role role t) t (drop_pair role permission t)
    drop_pair-Changes =
        let t' = drop_pair role permission t in
        let kept = λ (l : RolePermissionModel). not (is_pair role permission l) in
        record {
          keyed = record {
            permissions = k.permissions;
            roles = k.roles;
            links = λ l i. k.links l ((In-where_ kept t.role_permissions i).0);
            members = k.members;
          };
          same = λ u f name. (
            λ g. elim (Bool-cases (is_pair role permission g.link)) [
              | inl e ↦
                  let (of_role, _) =
                    and_true (num_eq g.link.role_id role) (num_eq g.link.permission_id permission)
                      e in
                  absurd (
                    not_both (holds_role role t u)
                      (Grant-holds t u role name g (num_eq→eq g.link.role_id role of_role)) f)
              | inr e ↦
                  move t t' u name g g.permission_in
                    (where_-In kept g.link t.role_permissions g.link_in (ap not e)) g.member_in
                    g.role_in
            ],
            λ g.
                move t' t u name g g.permission_in ((In-where_ kept t.role_permissions g.link_in).0)
                  g.member_in g.role_in,
          );
        }

  module _ (user_id role : ℕ) (r : role < t.next_id) where
    pub add_member-Changes :
        (assigned_by : Option ℕ) (now : ℕ)
        → Changes (num_eq user_id) t (add_member user_id role assigned_by now t)
    add_member-Changes assigned_by now =
        let new : UserRoleModel = record {
          user_id = user_id;
          role_id = role;
          assigned_by = assigned_by;
          assigned_at = now;
        } in
        let t' = add_member user_id role assigned_by now t in
        record {
          keyed = record {
            permissions = k.permissions;
            roles = k.roles;
            links = k.links;
            members = λ m i. elim (In-end m new t.user_roles i) [
              | inl old ↦ k.members m old
              | inr e ↦ subst (λ (x : UserRoleModel). x.role_id < t.next_id) (sym e) r
            ];
          };
          same = λ u f name. (
            λ g.
                move t t' u name g g.permission_in g.link_in
                  (Any-append_left (new ∷ []) g.member_in) g.role_in,
            λ g. elim (In-end g.member new t.user_roles g.member_in) [
              | inl old ↦ move t' t u name g g.permission_in g.link_in old g.role_in
              | inr e ↦ absurd (
                  not_both (num_eq user_id u)
                    (num_eq_of_eq user_id u
                      (sym (ap (λ (m : UserRoleModel). m.user_id) e) ∙ g.is_user))
                    f)
            ],
          );
        }

    pub drop_member-Changes : Changes (num_eq user_id) t (drop_member user_id role t)
    drop_member-Changes =
        let t' = drop_member user_id role t in
        let kept = λ (m : UserRoleModel). not (is_member user_id role m) in
        record {
          keyed = record {
            permissions = k.permissions;
            roles = k.roles;
            links = k.links;
            members = λ m i. k.members m ((In-where_ kept t.user_roles i).0);
          };
          same = λ u f name. (
            λ g. elim (Bool-cases (is_member user_id role g.member)) [
              | inl e ↦
                  let (of_user, _) =
                    and_true (num_eq g.member.user_id user_id) (num_eq g.member.role_id role) e in
                  absurd (
                    not_both (num_eq user_id u)
                      (num_eq_of_eq user_id u
                        (sym (num_eq→eq g.member.user_id user_id of_user) ∙ g.is_user))
                      f)
              | inr e ↦
                  move t t' u name g g.permission_in g.link_in
                    (where_-In kept g.member t.user_roles g.member_in (ap not e)) g.role_in
            ],
            λ g.
                move t' t u name g g.permission_in g.link_in
                  ((In-where_ kept t.user_roles g.member_in).0) g.role_in,
          );
        }
