-- ===== src/Auth/Activation/Finish.antt =====
-- What the end of an activation does to the table of users.
use fast_kit.Users.UseCases.{
  uuid_text, drop_credentials, swallow, invalidate_user_caches, publish_updated,
}
use fast_kit.Accounts.Site.{commit, statement, publish, call, Services, Tables, Site}
use fast_kit.Accounts.Values.{same_status, UserModel, UserStatus}
use fast_kit.Auth.Activation.{finish_activation}
use fast_kit.Accounts.Values.{
  UserStatus, pending_verification, active, inactive, suspended, same_status, cache_failed,
  user_updated, integrity_error, User, UserModel,
}
use fast_kit.Kit.{
  Text, text_eq, ◌≡◌, refl, sym, ap, ◌∙◌, inl, inr, Bool, true, not, ◌&&◌, false≢true, some, List,
  [], ◌∷◌, num_eq, Bool-cases, num_eq_refl, any, find, update_where, find-holds, pure, ◌>>◌,
  Ensures-bind, Ensures-if, state-Ensures, Ensures-raise_if, Ensures, returns, In-any, find-In,
}
use fast_kit.Users.Repository.{
  replace_row, clashes, insert, update_user, replace_user, merge, is_id, map_to_domain,
}
use fast_kit.Accounts.Site.Rules.{call_lem, statement_lem, commit_lem, publish_lem}

-- The user of this uuid has this status in the tables.
pub record HasStatus (uuid : Text) (status : UserStatus) (t : Tables) : Type 0 where
  pub row : UserModel
  pub found : find (λ m. text_eq m.uuid uuid) t.users ≡ some row
  pub has : row.status ≡ status

abbrev pub Anything : {S : Type 0} → S → Type 0
Anything _ = Unit

pub pending_of :
    (a : UserStatus) → same_status a pending_verification ≡ true → a ≡ pending_verification
pending_of pending_verification h = refl
pending_of active h = cc h
pending_of inactive h = cc h
pending_of suspended h = cc h

-- A row that is found is found again when it is replaced by one that passes the test too.
find-replaced :
    (p : UserModel → Bool) (m new : UserModel) (xs : List UserModel)
    → find p xs ≡ some m
    → p new ≡ true
    → find p (update_where (is_id m.id) (λ _. new) xs) ≡ some new
find-replaced p m new [] found passes = cc found
find-replaced p m new (x ∷ xs) found passes = elim (Bool-cases (is_id m.id x)) [
  | inl same ↦ rw (same, passes) refl
  | inr other ↦ elim (Bool-cases (p x)) [
    | inl hit ↦
        let is : some x ≡ some m = rw hit at found in
        let it : x ≡ m = cc is in
        absurd
          (false≢true (sym other ∙ ap (λ (y : UserModel). num_eq y.id m.id) it ∙ num_eq_refl m.id))
    | inr miss ↦
        let later : find p xs ≡ some m = rw miss at found in
        rw (other, miss) (find-replaced p m new xs later passes)
  ]
]

module _ (env : Services) where
  -- What is committed stays when the event is published, also if its handler fails.
  invalidate-stored :
      (P : Tables → Type 0) (email : Text) (s : Site)
      → P s.stored
      → P ((invalidate_user_caches env email s).1).stored
  unfolding invalidate_user_caches
  invalidate-stored P email s h =
      let Q = λ (u : Site). P u.stored in
      let drop = call env cache_failed (λ _. tt) (drop_credentials email) in
      state-Ensures Q ((call env cache_failed (λ _. tt) (λ u. u) >> drop) s) (
        Ensures-bind (λ _. Q) (λ _. Q) Q (call env cache_failed (λ _. tt) (λ u. u)) (λ _. drop) s
          (call_lem env (λ _. Q) Q cache_failed (λ _. tt) (λ u. u) s h h)
          (λ _ u q. call_lem env (λ _. Q) Q cache_failed (λ _. tt) (drop_credentials email) u q q))

  publish_updated-stored :
      (P : Tables → Type 0) (user : User) (s : Site)
      → P s.stored
      → Ensures (λ _ v. P v.stored) Anything (publish_updated env user s)
  unfolding publish_updated swallow
  publish_updated-stored P user s h =
      let Q = λ (u : Site). P u.stored in
      Ensures-bind (λ _. Q) (λ _. Q) Anything
        (publish env (user_updated (uuid_text user.uuid) user.email))
        (λ _. swallow (invalidate_user_caches env user.email)) s
        (publish_lem env Q Anything (user_updated (uuid_text user.uuid) user.email) s h tt)
        (λ _ u q. returns (invalidate-stored P user.email u q))

  module _ (uuid : Text) (m : UserModel) where
    -- The row of an activated user.
    abbrev activated : UserModel
    activated = record m { status = active }

    replace-HasStatus :
        (s : Site)
        → find (λ m. text_eq m.uuid uuid) s.db.users ≡ some m
        → Ensures (λ _ v. HasStatus uuid active v.db) Anything (replace_user env activated s)
    unfolding replace_user
    replace-HasStatus s found =
        let Q = λ (v : Site). HasStatus uuid active v.db in
        let test = λ (m : UserModel). text_eq m.uuid uuid in
        Ensures-raise_if (λ _. Q) Anything
          (any (λ r. not (is_id m.id r) && clashes activated r) s.db.users) integrity_error
          (statement env (replace_row activated) >> pure (map_to_domain activated)) s tt
          (λ _.
            Ensures-bind (λ _. Q) (λ _. Q) Anything (statement env (replace_row activated))
              (λ _. pure (map_to_domain activated)) s
              (statement_lem env Q Anything (replace_row activated) s
                (record {
                  row = activated;
                  found =
                      find-replaced test m activated s.db.users found
                        (find-holds test s.db.users m found);
                  has = refl;
                })
                tt)
              (λ _ v q. returns q))

    merge-HasStatus :
        (s : Site)
        → find (λ m. text_eq m.uuid uuid) s.db.users ≡ some m
        → Ensures (λ _ v. HasStatus uuid active v.db) Anything (merge env activated s)
    unfolding merge
    merge-HasStatus s found =
        let test = λ (m : UserModel). text_eq m.uuid uuid in
        Ensures-if (λ _ v. HasStatus uuid active v.db) Anything (any (is_id m.id) s.db.users)
          (replace_user env activated) (insert env activated) s (λ _. replace-HasStatus s found)
          (λ new. absurd (
            false≢true (
              sym new
              ∙ In-any (is_id m.id) m s.db.users (find-In test s.db.users m found)
                  (num_eq_refl m.id))))

    pub finish-HasStatus :
        (s : Site)
        → find (λ m. text_eq m.uuid uuid) s.db.users ≡ some m
        → m.status ≡ pending_verification
        → Ensures
            (λ _ v. HasStatus uuid active v.stored)
            Anything
            (finish_activation env (map_to_domain m) s)
    unfolding finish_activation update_user
    finish-HasStatus s found pending =
        let verified = record (map_to_domain m) { status = active } in
        let P = HasStatus uuid active in
        let end = commit env >> publish_updated env verified in
        rw pending (
          Ensures-bind (λ _ v. P v.db) (λ _ v. P v.stored) Anything (update_user env verified)
            (λ _. end) s (merge-HasStatus s found)
            (λ _ u q.
              Ensures-bind (λ _ v. P v.stored) (λ _ v. P v.stored) Anything (commit env)
                (λ _. publish_updated env verified) u
                (commit_lem env (λ v. P v.stored) Anything u q tt)
                (λ _ v x. publish_updated-stored P verified v x)))
