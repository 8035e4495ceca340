-- ===== src/Users/Soundness/Changes.antt =====
-- The requests that change users, one after the other.
use fast_kit.Users.Soundness.Registration.{register-BothSound}
use fast_kit.Users.Repository.{update_user, delete_by_uuid, get_by_uuid}
use fast_kit.Users.Soundness.Writes.{
  update-BothSound, delete-BothSound, by_uuid-IsKnown, IsRightUser, BothSound, IsKnown,
}
use fast_kit.Accounts.Site.Rules.{
  publish_lem, publish_lem, publish_lem, publish_lem, publish_lem, publish_lem, publish_lem,
  publish_lem, publish_lem, publish_lem, publish_lem, call_lem, publish_lem, commit_lem,
  request_lem,
}
use fast_kit.Users.Soundness.{IsSound}
use fast_kit.Accounts.Values.{
  cannot_update_to_inactive_error, cache_failed, inactive, user_updated, user_not_deleted_error,
  same_status, UserStatus, User,
}
use fast_kit.Users.UseCases.{
  update_status, drop_credentials, uuid_text, restore, prune_user_execute, soft_delete,
  update_user_status_execute, swallow, restore_user_execute, prune_user_found, publish_updated,
  update_status_found, save, delete_user_execute, delete_user_found, invalidate_user_caches,
  register_user_execute, restore_user_found, RegisterUserCommand,
}
use fast_kit.Accounts.Site.{publish, call, commit, request, Action, Services, Site}
use fast_kit.Kit.{
  Text, ℕ, ◌≡◌, refl, sym, ◌∙◌, Bool, not, false≢true, Option, none, some, List, [], ◌∷◌, is_some,
  pure, lift, ◌>>=◌, ◌>>◌, Ensures-bind, Ensures-weaken, state-Ensures, Ensures-raise_if, Ensures,
  returns, raises,
}

pub data Change : Type 0 where
  register : RegisterUserCommand → Change
  set_status : Text → UserStatus → Change
  delete : Text → Change
  restore_deleted : Text → Change
  prune : Text → Change

module _ (env : Services) where
  invalidate-BothSound :
      (email : Text) (s : Site)
      → BothSound s
      → Ensures (λ _. BothSound) BothSound (invalidate_user_caches env email s)
  unfolding invalidate_user_caches
  invalidate-BothSound email s k =
      let drop = call env cache_failed (λ _. tt) (drop_credentials email) in
      Ensures-bind (λ _. BothSound) (λ _. BothSound) BothSound
        (call env cache_failed (λ _. tt) (λ u. u)) (λ _. drop) s
        (call_lem env (λ _. BothSound) BothSound cache_failed (λ _. tt) (λ u. u) s k k)
        (λ _ u q.
          call_lem env (λ _. BothSound) BothSound cache_failed (λ _. tt) (drop_credentials email) u
            q q)

  updated-BothSound :
      (user : User) (s : Site)
      → BothSound s
      → Ensures (λ _. BothSound) BothSound (publish_updated env user s)
  unfolding publish_updated swallow
  updated-BothSound user s k =
      let event = user_updated (uuid_text user.uuid) user.email in
      let handler = invalidate_user_caches env user.email in
      Ensures-bind (λ _. BothSound) (λ _. BothSound) BothSound (publish env event)
        (λ _. swallow handler) s (publish_lem env BothSound BothSound event s k k)
        (λ _ u q.
          returns (state-Ensures BothSound (handler u) (invalidate-BothSound user.email u q)))

  -- The end of every change: the commit, the event and the answer.
  end-BothSound :
      (user : User) (s : Site)
      → BothSound s
      → Ensures
          (λ _. BothSound)
          BothSound
          ((commit env >> (publish_updated env user >> pure user)) s)
  end-BothSound user s k =
      Ensures-bind (λ _. BothSound) (λ _. BothSound) BothSound (commit env)
        (λ _. publish_updated env user >> pure user) s
        (commit_lem env BothSound BothSound s (k.0, k.0) k)
        (λ _ u q.
          Ensures-bind (λ _. BothSound) (λ _. BothSound) BothSound (publish_updated env user)
            (λ _. pure user) u (updated-BothSound user u q) (λ _ v x. returns x))

  save-BothSound :
      (user : User) (s : Site)
      → BothSound s
      → IsKnown s.db user
      → IsRightUser user
      → Ensures (λ _. BothSound) BothSound (save env user s)
  unfolding save
  save-BothSound user s k known right =
      Ensures-bind (λ _. BothSound) (λ _. BothSound) BothSound (update_user env user)
        (λ new. commit env >> (publish_updated env new >> pure new)) s
        (update-BothSound env user s k known right) (λ new u q. end-BothSound new u q)

  -- A use case that looks a user up.
  looked_up-BothSound :
      (uuid : Text) (f : Option User → Action User) (s : Site)
      → BothSound s
      → ((o : Option User) (u : Site)
          → ((user : User) → o ≡ some user → IsKnown u.db user)
          → BothSound u
          → Ensures (λ _. BothSound) BothSound (f o u))
      → Ensures (λ _. BothSound) BothSound ((get_by_uuid env uuid >>= f) s)
  looked_up-BothSound uuid f s k found =
      Ensures-bind (λ o u. ((user : User) → o ≡ some user → IsKnown u.db user) × BothSound u)
        (λ _. BothSound) BothSound (get_by_uuid env uuid) f s (by_uuid-IsKnown env uuid s k)
        (λ o u q. found o u q.0 q.1)

  deleted-BothSound :
      (o : Option User) (u : Site)
      → ((user : User) → o ≡ some user → IsKnown u.db user)
      → BothSound u
      → Ensures (λ _. BothSound) BothSound (delete_user_found env o u)
  unfolding delete_user_found
  deleted-BothSound none u known k = raises k
  deleted-BothSound (some user) u known k =
      save-BothSound (soft_delete u.now user) u k (known user refl) (λ _. refl)

  restored-BothSound :
      (o : Option User) (u : Site)
      → ((user : User) → o ≡ some user → IsKnown u.db user)
      → BothSound u
      → Ensures (λ _. BothSound) BothSound (restore_user_found env o u)
  unfolding restore_user_found
  restored-BothSound none u known k = raises k
  restored-BothSound (some user) u known k =
      Ensures-raise_if (λ _. BothSound) BothSound (not (is_some user.deleted_at))
        user_not_deleted_error (save env (restore user)) u k
        (λ _. save-BothSound (restore user) u k (known user refl) (λ h. absurd (false≢true h)))

  status-BothSound :
      (status : UserStatus) (o : Option User) (u : Site)
      → ((user : User) → o ≡ some user → IsKnown u.db user)
      → BothSound u
      → Ensures (λ _. BothSound) BothSound (update_status_found env status o u)
  unfolding update_status_found
  status-BothSound status none u known k = raises k
  status-BothSound status (some user) u known k =
      Ensures-raise_if (λ _. BothSound) BothSound (same_status status inactive)
        cannot_update_to_inactive_error (lift (update_status status user) >>= save env) u k
        (λ other. rw other (
          save-BothSound (record user { status = status }) u k (known user refl)
            (λ h. absurd (false≢true (sym other ∙ h)))))

  pruned-BothSound :
      (uuid : Text) (o : Option User) (u : Site)
      → BothSound u
      → Ensures (λ _. BothSound) BothSound (prune_user_found env uuid o u)
  unfolding prune_user_found
  pruned-BothSound uuid none u k = raises k
  pruned-BothSound uuid (some user) u k =
      Ensures-bind (λ _. BothSound) (λ _. BothSound) BothSound (delete_by_uuid env uuid)
        (λ _. commit env >> (publish_updated env user >> pure user)) u
        (delete-BothSound env uuid u k) (λ _ v q. end-BothSound user v q)

  module _ (first_superuser_email : Option Text) (is_decimal : ℕ → Bool) where
    -- The use case of a change, and the state after a sequence of requests.
    unfoldable pub execute : Change → Action User
    execute (register command) = register_user_execute env first_superuser_email is_decimal command
    execute (set_status uuid status) = update_user_status_execute env uuid status
    execute (delete uuid) = delete_user_execute env uuid
    execute (restore_deleted uuid) = restore_user_execute env uuid
    execute (prune uuid) = prune_user_execute env uuid

    unfoldable pub after : List Change → Site → Site
    unfolding execute
    after [] s = s
    after (change ∷ changes) s = after changes ((request (execute change) s).1)

    execute-BothSound :
        (change : Change) (s : Site)
        → BothSound s
        → Ensures (λ _. BothSound) BothSound (execute change s)
    unfolding execute delete_user_execute restore_user_execute update_user_status_execute
        prune_user_execute
    execute-BothSound (register command) s k =
        register-BothSound env first_superuser_email is_decimal command s k
    execute-BothSound (set_status uuid status) s k =
        looked_up-BothSound uuid (update_status_found env status) s k (status-BothSound status)
    execute-BothSound (delete uuid) s k =
        looked_up-BothSound uuid (delete_user_found env) s k deleted-BothSound
    execute-BothSound (restore_deleted uuid) s k =
        looked_up-BothSound uuid (restore_user_found env) s k restored-BothSound
    execute-BothSound (prune uuid) s k =
        looked_up-BothSound uuid (prune_user_found env uuid) s k
          (λ o u _ q. pruned-BothSound uuid o u q)

    -- After any sequence of requests that register, delete, restore and prune users and set their
    -- status, each of which returns or raises at any of its calls, the committed table of users is
    -- sound if it was: no two rows share an id, an email, a phone number, a username or a uuid, a
    -- user is inactive only if it is deleted, and each id was given out.
    pub after-IsSound :
        (changes : List Change) (s : Site) → IsSound s.stored → IsSound (after changes s).stored
    unfolding after
    after-IsSound [] s k = k
    after-IsSound (change ∷ changes) s k =
        let Stored = λ (u : Site). IsSound u.stored in
        after-IsSound changes ((request (execute change) s).1) (
          state-Ensures Stored (request (execute change) s) (
            request_lem (λ _. Stored) Stored (execute change) s
              (Ensures-weaken (λ _. BothSound) (λ _. Stored) BothSound Stored (λ _ _ q. q.1)
                (λ _ q. q.1) _ (execute-BothSound change (record s { db = s.stored }) (k, k)))))
