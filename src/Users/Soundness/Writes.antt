-- ===== src/Users/Soundness/Writes.antt =====
-- The statements of the repository of users, and the table that they leave.
use fast_kit.Accounts.Site.Rules.{statement_lem, query_lem}
use fast_kit.Users.Repository.{
  insert_row, replace_row, delete_rows, map_to_domain, clashes, is_id, row_of, insert, merge,
  create_user, update_user, replace_user, get_by_uuid, delete_by_uuid,
}
use fast_kit.Accounts.Values.{integrity_error, inactive, UserModel, same_status, User}
use fast_kit.Accounts.Site.{statement, Site, Tables, Services}
use fast_kit.Users.Soundness.{
  any-false, IsSound, IsDeletedIfInactive, insert-IsSound, replace-IsSound, delete-IsSound,
}
use fast_kit.Kit.{
  Text, text_eq, ◌≤◌, ◌<◌, ◌≡◌, ap, subst, inl, inr, Bool, true, false, not, ◌&&◌, none, some,
  arith, num_eq, is_some, or_else, Option-cases, num_eq→eq, option_map, any, find, In, pure, ◌>>◌,
  Ensures-bind, Ensures-if, Ensures-raise_if, Ensures, returns, raises, any-In, find-In,
}

-- The tables of the session and the committed ones are sound.
abbrev pub BothSound : Site → Type 0
BothSound s = IsSound s.db × IsSound s.stored

-- The entity is new or has a key that was given out.
abbrev pub IsKnown : Tables → User → Type 0
IsKnown t u = or_else u.id t.next_id ≤ t.next_id

abbrev pub IsRightUser : User → Type 0
IsRightUser u = same_status u.status inactive ≡ true → is_some u.deleted_at ≡ true

module _ (env : Services) where
  insert-BothSound :
      (m : UserModel) (s : Site)
      → BothSound s
      → m.id ≤ s.db.next_id
      → ((r : UserModel) → In r s.db.users → num_eq r.id m.id ≡ false)
      → IsDeletedIfInactive m
      → Ensures (λ _. BothSound) BothSound (insert env m s)
  unfolding insert
  insert-BothSound m s k bound fresh deleted =
      Ensures-raise_if (λ _. BothSound) BothSound (any (clashes m) s.db.users) integrity_error
        (statement env (insert_row m) >> pure (map_to_domain m)) s k
        (λ unique.
          Ensures-bind (λ _. BothSound) (λ _. BothSound) BothSound (statement env (insert_row m))
            (λ _. pure (map_to_domain m)) s
            (statement_lem env BothSound BothSound (insert_row m) s
              (insert-IsSound s.db k.0 m bound fresh unique deleted, k.1) k)
            (λ _ u q. returns q))

  replace-BothSound :
      (m : UserModel) (s : Site)
      → BothSound s
      → m.id < s.db.next_id
      → IsDeletedIfInactive m
      → Ensures (λ _. BothSound) BothSound (replace_user env m s)
  unfolding replace_user
  replace-BothSound m s k bound deleted =
      Ensures-raise_if (λ _. BothSound) BothSound
        (any (λ r. not (is_id m.id r) && clashes m r) s.db.users) integrity_error
        (statement env (replace_row m) >> pure (map_to_domain m)) s k
        (λ unique.
          Ensures-bind (λ _. BothSound) (λ _. BothSound) BothSound (statement env (replace_row m))
            (λ _. pure (map_to_domain m)) s
            (statement_lem env BothSound BothSound (replace_row m) s
              (replace-IsSound s.db k.0 m bound unique deleted, k.1) k)
            (λ _ u q. returns q))

  merge-BothSound :
      (m : UserModel) (s : Site)
      → BothSound s
      → m.id ≤ s.db.next_id
      → IsDeletedIfInactive m
      → Ensures (λ _. BothSound) BothSound (merge env m s)
  unfolding merge
  merge-BothSound m s k bound deleted =
      Ensures-if (λ _. BothSound) BothSound (any (is_id m.id) s.db.users) (replace_user env m)
        (insert env m) s
        (λ old.
          let (r, i, e) = any-In (is_id m.id) s.db.users old in
          let given : m.id < s.db.next_id =
            subst (λ n. n < s.db.next_id) (num_eq→eq r.id m.id e) (k.0.keyed r i) in
          replace-BothSound m s k given deleted)
        (λ new.
          insert-BothSound m s k bound (λ r i. any-false (is_id m.id) s.db.users r new i) deleted)

  pub update-BothSound :
      (user : User) (s : Site)
      → BothSound s
      → IsKnown s.db user
      → IsRightUser user
      → Ensures (λ _. BothSound) BothSound (update_user env user s)
  unfolding update_user
  update-BothSound user s k known right = elim (Option-cases user.phone_number) [
    | inl e ↦ rw e (raises k)
    | inr (phone_number, e) ↦
        rw e (merge-BothSound (row_of env user phone_number s.db) s k known right)
  ]

  -- An entity without a key gets the next one.
  pub create-BothSound :
      (user : User) (s : Site)
      → BothSound s
      → user.id ≡ none
      → IsRightUser user
      → Ensures (λ _. BothSound) BothSound (create_user env user s)
  unfolding create_user
  create-BothSound user s k new right = elim (Option-cases user.phone_number) [
    | inl e ↦ rw e (raises k)
    | inr (phone_number, e) ↦
        let m = row_of env user phone_number s.db in
        let key : m.id ≡ s.db.next_id = ap (λ o. or_else o s.db.next_id) new in
        rw e (
          insert-BothSound m s k (omega (arith, key)) (λ r i. ground (arith, key, k.0.keyed r i))
            right)
  ]

  pub delete-BothSound :
      (uuid : Text) (s : Site)
      → BothSound s
      → Ensures (λ _. BothSound) BothSound (delete_by_uuid env uuid s)
  unfolding delete_by_uuid
  delete-BothSound uuid s k =
      statement_lem env BothSound BothSound (delete_rows uuid) s (delete-IsSound s.db k.0 uuid, k.1)
        k

  row-IsKnown :
      (p : UserModel → Bool) (t : Tables) (user : User)
      → IsSound t
      → option_map map_to_domain (find p t.users) ≡ some user
      → IsKnown t user
  row-IsKnown p t user sound h = elim (Option-cases (find p t.users)) [
    | inl e ↦ let no : none ≡ some user = rw e at h in cc no
    | inr (m, e) ↦
        let same : some (map_to_domain m) ≡ some user = rw e at h in
        let is : map_to_domain m ≡ user = cc same in
        subst (IsKnown t) is (omega (arith, sound.keyed m (find-In p t.users m e)))
  ]

  pub by_uuid-IsKnown :
      (uuid : Text) (s : Site)
      → BothSound s
      → Ensures
          (λ o u. ((user : User) → o ≡ some user → IsKnown u.db user) × BothSound u)
          BothSound
          (get_by_uuid env uuid s)
  unfolding get_by_uuid
  by_uuid-IsKnown uuid s k =
      let match = λ (m : UserModel). text_eq m.uuid uuid in
      query_lem env (λ o u. ((user : User) → o ≡ some user → IsKnown u.db user) × BothSound u)
        BothSound (λ t. option_map map_to_domain (find match t.users)) s
        (λ user e. row-IsKnown match s.db user k.0 e, k) k
