-- ===== src/Rbac/Coherence/Writes.antt =====
-- The writes of the repository, and the end of each use case: the commit, and the lists that are
-- dropped.
use fast_kit.Rbac.Coherence.Steps.{statement-At, query-At, Kept, Wrote, WroteMember, At}
use fast_kit.Accounts.Site.Rules.{call_lem}
use fast_kit.Rbac.Tables.{
  add_member, add_pair, is_known, drop_pair, drop_member, is_pair, is_member,
}
use fast_kit.Rbac.Repository.{
  add_role_permission, add_user_role, get_user_ids_for_role, remove_role_from_user,
  remove_permission_from_role, assign_permission_to_role, assign_role_to_user,
}
use fast_kit.Auth.Guards.{drop_names, cache_delete_names}
use fast_kit.Rbac.Coherence.{
  add_pair-Changes, add_member-Changes, drop_pair-Changes, drop_member-Changes, same-Changes,
  holds_role, members, IsCoherent, Agrees, IsRight, IsKeyed, Changes,
}
use fast_kit.Rbac.UseCases.{invalidate_members}
use fast_kit.Kit.{
  ℕ, ◌<◌, ◌≡◌, refl, sym, subst, inl, inr, Bool, true, false, not, ◌&&◌, ◌||◌, false≢true, Option,
  some, List, [], ◌∷◌, arith, if◌then◌else◌, num_eq, Bool-cases, any, In, In-where_, pure, for_each,
  Ensures-bind, Ensures-if, Ensures-weaken, Ensures-for_each, Ensures-raise_if, Ensures, returns,
}
use fast_kit.Accounts.Values.{cache_failed, integrity_error}
use fast_kit.Accounts.Site.{statement, query, Tables, Site, Services, PermissionsEntry}

-- The committed tables, and no list that was not there.
abbrev Sub : Tables → List PermissionsEntry → Site → Type 0
Sub t c s = (s.stored ≡ t) × ((e : PermissionsEntry) → In e s.permissions_cache → In e c)

-- Of the users of the first list, only those of the second may still have a cached list.
abbrev Left : Tables → List PermissionsEntry → List ℕ → List ℕ → Site → Type 0
Left t c ids rest s =
    Sub t c s
    × ((e : PermissionsEntry)
        → In e s.permissions_cache
        → any (num_eq e.user_id) ids ≡ true
        → any (num_eq e.user_id) rest ≡ true)

pub IsRight-weaken :
    (a b : ℕ → Bool) (s : Site) → ((u : ℕ) → a u ≡ true → b u ≡ true) → IsRight a s → IsRight b s
IsRight-weaken a b s f h = record {
  keyed = h.keyed;
  agrees = λ e i. elim (h.agrees e i) [ inl x ↦ inl x | inr x ↦ inr (f e.user_id x) ];
}

module _ (affected : ℕ → Bool) (t t' : Tables) (c : List PermissionsEntry)
    (ch : Changes affected t t') (coherent : (e : PermissionsEntry) → In e c → Agrees t e) where
  stays : (e : PermissionsEntry) → In e c → affected e.user_id ≡ false → Agrees t' e
  stays e i f name =
      let (to, from) = coherent e i name in
      let (on, back) = ch.same e.user_id f name in (λ h. on (to h), λ g. from (back g))

  pub Sub-IsRight : (s : Site) → Sub t' c s → IsRight affected s
  Sub-IsRight s h = record {
    keyed = subst IsKeyed (sym h.0) ch.keyed;
    agrees = λ e i. elim (Bool-cases (affected e.user_id)) [
      | inl yes_a ↦ inr yes_a
      | inr no_a ↦ inl (subst (λ x. Agrees x e) (sym h.0) (stays e (h.1 e i) no_a))
    ];
  }

  pub Left-IsCoherent :
      (ids : List ℕ) (s : Site)
      → ((u : ℕ) → affected u ≡ true → any (num_eq u) ids ≡ true)
      → Left t' c ids [] s
      → IsCoherent s
  Left-IsCoherent ids s covers h = record {
    keyed = subst IsKeyed (sym h.0.0) ch.keyed;
    agrees = λ e i. elim (Bool-cases (affected e.user_id)) [
      | inl yes_a ↦ absurd (false≢true (h.1 e i (covers e.user_id yes_a)))
      | inr no_a ↦ inl (subst (λ x. Agrees x e) (sym h.0.0) (stays e (h.0.1 e i) no_a))
    ];
  }

module _ (env : Services) (t : Tables) (c : List PermissionsEntry) where
  -- One list is dropped.
  pub cache_delete-Left :
      (ids rest : List ℕ) (id : ℕ) (s : Site)
      → Left t c ids (id ∷ rest) s
      → Ensures (λ _. Left t c ids rest) (Sub t c) (cache_delete_names env id s)
  unfolding cache_delete_names
  cache_delete-Left ids rest id s h =
      let kept = λ (e : PermissionsEntry). not (num_eq e.user_id id) in
      call_lem env (λ _. Left t c ids rest) (Sub t c) cache_failed (λ _. tt) (drop_names id) s
        (
          (h.0.0, λ e i. h.0.1 e ((In-where_ kept s.permissions_cache i).0)),
          λ e i among.
              let (old, other) = In-where_ kept s.permissions_cache i in
              last (num_eq e.user_id id) (any (num_eq e.user_id) rest) other (h.1 e old among),
        )
        h.0
    where
      last : (a b : Bool) → not a ≡ true → (a || b) ≡ true → b ≡ true
      last a b n h = ground arith

  pub invalidate-Left :
      (role : ℕ) (s : Site)
      → At t t c s
      → Ensures (λ _. Left t c (members role t) []) (Sub t c) (invalidate_members env role s)
  unfolding invalidate_members get_user_ids_for_role
  invalidate-Left role s h =
      let ids = members role t in
      let Q : Unit {0} → Site → Type 0 = λ _. Left t c ids [] in
      Ensures-bind (λ l u. (l ≡ ids) × At t t c u) Q (Sub t c) (query env (members role))
        (λ l. for_each (cache_delete_names env) l) s
        (Ensures-weaken _ _ _ _ (λ a u q. q) (λ u q. (q.0, λ e i. subst (In e) q.1 i)) _
          (query-At env t t c (members role) s h))
        (λ l u q.
          subst (λ l. Ensures Q (Sub t c) (for_each (cache_delete_names env) l u)) (sym q.0)
            (Ensures-for_each (λ rest. Left t c ids rest) (Sub t c) (cache_delete_names env)
              (λ id rest v k. cache_delete-Left ids rest id v k) ids u
              ((q.1.1, λ e i. subst (In e) q.1.2 i), λ e i among. among)))

module _ (env : Services) (t : Tables) (c : List PermissionsEntry) (k : IsKeyed t) where
  module _ (role permission : ℕ) (r : role < t.next_id) (p : permission < t.next_id) where
    pub assign_permission-Wrote :
        (assigned_by : Option ℕ) (s : Site)
        → At t t c s
        → Ensures
            (λ _. Wrote t c (holds_role role t))
            (Kept t c)
            (assign_permission_to_role env role permission assigned_by s)
    unfolding assign_permission_to_role add_role_permission
    assign_permission-Wrote assigned_by s h =
        let Q : Unit {0} → Site → Type 0 = λ _. Wrote t c (holds_role role t) in
        let add = add_role_permission env role permission assigned_by in
        Ensures-bind (λ _ u. At t t c u) Q (Kept t c)
          (query env (λ t. any (is_pair role permission) t.role_permissions))
          (λ existing. if existing then pure tt else add) s
          (Ensures-weaken _ _ _ _ (λ a u q. q.1) (λ u q. q) _
            (query-At env t t c (λ t. any (is_pair role permission) t.role_permissions) s h))
          (λ existing u q.
            Ensures-if Q (Kept t c) existing (pure tt) add u
              (λ _. returns (t, q, same-Changes t k (holds_role role t), λ _. refl))
              (λ _.
                Ensures-raise_if Q (Kept t c) (not (is_known assigned_by u.db)) integrity_error
                  (statement env (add_pair role permission assigned_by u.now)) u (q.1, q.2)
                  (λ _.
                    Ensures-weaken _ _ _ _
                      (λ _ v w. (
                        add_pair role permission assigned_by u.now t,
                        w,
                        add_pair-Changes t k role permission r p assigned_by u.now,
                        λ _. refl,
                      ))
                      (λ v w. w) _
                      (statement-At env t t c (add_pair role permission assigned_by u.now) u q))))

    pub remove_permission-Wrote :
        (s : Site)
        → At t t c s
        → Ensures
            (λ _. Wrote t c (holds_role role t))
            (Kept t c)
            (remove_permission_from_role env role permission s)
    unfolding remove_permission_from_role
    remove_permission-Wrote s h =
        let Q : Unit {0} → Site → Type 0 = λ _. Wrote t c (holds_role role t) in
        let drop_it = statement env (drop_pair role permission) in
        Ensures-bind (λ _ u. At t t c u) Q (Kept t c)
          (query env (λ t. any (is_pair role permission) t.role_permissions))
          (λ existing. if existing then drop_it else pure tt) s
          (Ensures-weaken _ _ _ _ (λ a u q. q.1) (λ u q. q) _
            (query-At env t t c (λ t. any (is_pair role permission) t.role_permissions) s h))
          (λ existing u q.
            Ensures-if Q (Kept t c) existing drop_it (pure tt) u
              (λ _.
                Ensures-weaken _ _ _ _
                  (λ _ v w. (
                    drop_pair role permission t,
                    w,
                    drop_pair-Changes t k role permission r p,
                    λ _. refl,
                  ))
                  (λ v w. w) _ (statement-At env t t c (drop_pair role permission) u q))
              (λ _. returns (t, q, same-Changes t k (holds_role role t), λ _. refl)))

  module _ (user_id role : ℕ) (r : role < t.next_id) where
    pub assign_role-WroteMember :
        (assigned_by : Option ℕ) (s : Site)
        → At t t c s
        → Ensures
            (λ _. WroteMember t c (num_eq user_id))
            (Kept t c)
            (assign_role_to_user env user_id role assigned_by s)
    unfolding assign_role_to_user add_user_role
    assign_role-WroteMember assigned_by s h =
        let Q : Unit {0} → Site → Type 0 = λ _. WroteMember t c (num_eq user_id) in
        let add = add_user_role env user_id role assigned_by in
        Ensures-bind (λ _ u. At t t c u) Q (Kept t c)
          (query env (λ t. any (is_member user_id role) t.user_roles))
          (λ existing. if existing then pure tt else add) s
          (Ensures-weaken _ _ _ _ (λ a u q. q.1) (λ u q. q) _
            (query-At env t t c (λ t. any (is_member user_id role) t.user_roles) s h))
          (λ existing u q.
            Ensures-if Q (Kept t c) existing (pure tt) add u
              (λ _. returns (t, q, same-Changes t k (num_eq user_id)))
              (λ _.
                Ensures-raise_if Q (Kept t c)
                  (not (is_known (some user_id) u.db && is_known assigned_by u.db)) integrity_error
                  (statement env (add_member user_id role assigned_by u.now)) u (q.1, q.2)
                  (λ _.
                    Ensures-weaken _ _ _ _
                      (λ _ v w. (
                        add_member user_id role assigned_by u.now t,
                        w,
                        add_member-Changes t k user_id role r assigned_by u.now,
                      ))
                      (λ v w. w) _
                      (statement-At env t t c (add_member user_id role assigned_by u.now) u q))))

    pub remove_role-WroteMember :
        (s : Site)
        → At t t c s
        → Ensures
            (λ _. WroteMember t c (num_eq user_id))
            (Kept t c)
            (remove_role_from_user env user_id role s)
    unfolding remove_role_from_user
    remove_role-WroteMember s h =
        let Q : Unit {0} → Site → Type 0 = λ _. WroteMember t c (num_eq user_id) in
        let drop_it = statement env (drop_member user_id role) in
        Ensures-bind (λ _ u. At t t c u) Q (Kept t c)
          (query env (λ t. any (is_member user_id role) t.user_roles))
          (λ existing. if existing then drop_it else pure tt) s
          (Ensures-weaken _ _ _ _ (λ a u q. q.1) (λ u q. q) _
            (query-At env t t c (λ t. any (is_member user_id role) t.user_roles) s h))
          (λ existing u q.
            Ensures-if Q (Kept t c) existing drop_it (pure tt) u
              (λ _.
                Ensures-weaken _ _ _ _
                  (λ _ v w. (drop_member user_id role t, w, drop_member-Changes t k user_id role r))
                  (λ v w. w) _ (statement-At env t t c (drop_member user_id role) u q))
              (λ _. returns (t, q, same-Changes t k (num_eq user_id))))
