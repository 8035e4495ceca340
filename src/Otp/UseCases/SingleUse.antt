-- ===== src/Otp/UseCases/SingleUse.antt =====
-- A password that was validated is not validated again.
use fast_kit.Otp.UseCases.Spent.{
  IsForgotten-cache_delete, cache_get-IsForgotten, IsUsed, IsSpent, IsCurrent, IsUsed-mark,
  hit_entry,
}
use fast_kit.Kit.{
  Text, ℕ, ◌+◌, ◌≡◌, refl, sym, ap, ◌∙◌, subst, inl, inr, true, not, false≢true, Option, none, some,
  [], ◌∷◌, ◌++◌, map, Bool-cases, option_map, Method, pure, gets, modify, raise_if, ◌>>◌,
  Ensures-bind, Ensures-weaken, Exactly, Ensures-then, Ensures-raise_if, Ensures, returns, raises,
}
use fast_kit.Otp.Values.{
  OtpType, OneTimePassword, is_expired, OtpEvent, OtpFailure, ValidateOtpCommand, validated,
}
use fast_kit.Otp.Store.{
  OtpModel, Desk, Surroundings, map_to_domain, is_of, latest, mark, cache_get, cache_delete, run,
  reopened, commit, find_latest_by_user_and_type, mark_as_used, publish,
}
use fast_kit.Otp.UseCases.{
  otp_expired, otp_already_used, invalid_otp, consume, cache_hit, use_latest, after_cache,
  validate_otp_execute,
}

module _ (env : Surroundings) where
  pub run_lem :
      (Q R : Desk → Type 0) (f : Desk → Desk) (s : Desk)
      → Q (record (f s) { statements = s.statements + 1 })
      → R (record s { statements = s.statements + 1 })
      → Ensures (λ _. Q) R (run env f s)
  unfolding run
  run_lem Q R f s q r = elim (Bool-cases (env.db_fails s.statements)) [
    | inl fails ↦ rw fails (raises r)
    | inr runs ↦ rw runs (returns q)
  ]

  pub publish_lem :
      (Q R : Desk → Type 0) (event : OtpEvent) (s : Desk)
      → Q (record s { published = s.published ++ event ∷ []; publishes = s.publishes + 1 })
      → R (record s { publishes = s.publishes + 1 })
      → Ensures (λ _. Q) R (publish env event s)
  unfolding publish
  publish_lem Q R event s q r = elim (Bool-cases (env.publish_fails s.publishes)) [
    | inl fails ↦ rw fails (raises r)
    | inr runs ↦ rw runs (returns q)
  ]

  find_latest_ends :
      (user_uuid : ℕ) (otp_type : OtpType) (s : Desk) (R : Desk → Type 0)
      → R (record s { statements = s.statements + 1 })
      → Ensures
          (Exactly
            (option_map map_to_domain (latest (is_of user_uuid otp_type) s.otps))
            (record s { statements = s.statements + 1 }))
          R
          (find_latest_by_user_and_type env user_uuid otp_type s)
  unfolding find_latest_by_user_and_type
  find_latest_ends user_uuid otp_type s R r =
      let s1 = record s { statements = s.statements + 1 } in
      let o = option_map map_to_domain (latest (is_of user_uuid otp_type) s.otps) in
      let read : Method Desk OtpFailure (Option OneTimePassword) =
        gets (λ s. option_map map_to_domain (latest (is_of user_uuid otp_type) s.otps)) in
      Ensures-then (Exactly o s1) R (run env (λ s. s)) (λ _. read) s tt s1
        (run_lem (Exactly tt s1 tt) R (λ s. s) s (refl, refl) r) (returns (refl, refl))

  module _ (command : ValidateOtpCommand) where
    -- The password is spent in the session's view.
    abbrev Viewed : Desk → Type 0
    Viewed = IsSpent command.user_uuid command.otp_type

    -- It is spent in what is committed.
    abbrev Spent : Desk → Type 0
    Spent s = Viewed (reopened s)

    abbrev T : Desk → Type 0
    T _ = Unit {0}

    publish_keeps :
        (uuid : ℕ) (s : Desk)
        → Spent s
        → Ensures
            (λ _. Spent)
            T
            ((publish env (validated command.user_uuid command.otp_type uuid) >> pure uuid) s)
    unfolding cache_get
    publish_keeps uuid s spent =
        let event = validated command.user_uuid command.otp_type uuid in
        Ensures-bind (λ _. Spent) (λ _. Spent) T (publish env event) (λ _. pure uuid) s
          (publish_lem Spent T event s spent tt) (λ _ s' h. returns h)

    -- From the deletion of the cached code on, with the code found in the cache.
    cached_ends :
        (uuid : ℕ) (row : OtpModel) (s : Desk)
        → latest (is_of command.user_uuid command.otp_type) s.otps ≡ some row
        → row.uuid ≡ uuid
        → Ensures (λ _. Spent) T (after_cache env command (some uuid) s)
    unfolding after_cache mark_as_used commit cache_get cache_delete
    cached_ends uuid row s found e =
        let s1 = cache_delete command.user_uuid command.otp_type s in
        let event = validated command.user_uuid command.otp_type uuid in
        Ensures-bind (λ _. Viewed) (λ _. Spent) T (mark_as_used env uuid)
          (λ _. commit env >> (publish env event >> pure uuid)) s1
          (run_lem Viewed T (λ s. record s { otps = map (mark uuid) s.otps }) s1
            (
              IsForgotten-cache_delete command.user_uuid command.otp_type s,
              IsUsed-mark command.user_uuid command.otp_type uuid row s.otps found e,
            )
            tt)
          (λ _ s2 h.
            Ensures-bind (λ _. Spent) (λ _. Spent) T (commit env)
              (λ _. publish env event >> pure uuid) s2
              (run_lem Spent T (λ s. record s { committed = s.otps }) s2 h tt)
              (λ _ s3 h'. publish_keeps uuid s3 h'))

    consume_ends :
        (row : OtpModel) (s : Desk)
        → latest (is_of command.user_uuid command.otp_type) s.otps ≡ some row
        → Ensures (λ _. Spent) T (consume env command row.uuid s)
    unfolding consume mark_as_used commit cache_get cache_delete
    consume_ends row s found =
        let Used : Desk → Type 0 = IsUsed command.user_uuid command.otp_type in
        let uuid = row.uuid in
        let event = validated command.user_uuid command.otp_type uuid in
        let forget = cache_delete command.user_uuid command.otp_type in
        Ensures-bind (λ _. Used) (λ _. Spent) T (mark_as_used env uuid)
          (λ _. commit env >> (modify forget >> (publish env event >> pure uuid))) s
          (run_lem Used T (λ s. record s { otps = map (mark uuid) s.otps }) s
            (IsUsed-mark command.user_uuid command.otp_type uuid row s.otps found refl) tt)
          (λ _ s2 h.
            Ensures-bind (λ _ u. Used (reopened u)) (λ _. Spent) T (commit env)
              (λ _. modify forget >> (publish env event >> pure uuid)) s2
              (run_lem (λ u. Used (reopened u)) T (λ s. record s { committed = s.otps }) s2 h tt)
              (λ _ s3 h'.
                publish_keeps uuid (forget s3)
                  (IsForgotten-cache_delete command.user_uuid command.otp_type s3, h')))

    -- The use of the latest password, whatever its checks say.
    use_latest_ends :
        (o : Option OtpModel) (s : Desk)
        → latest (is_of command.user_uuid command.otp_type) s.otps ≡ o
        → Ensures (λ _. Spent) T (use_latest env command (option_map map_to_domain o) s)
    unfolding use_latest
    use_latest_ends none s found = raises tt
    use_latest_ends (some row) s found =
        let otp = map_to_domain row in
        let last = consume env command row.uuid in
        let checked =
          raise_if (not (env.verify_password command.code otp.code_hash)) invalid_otp >> last in
        let unused = raise_if otp.is_used otp_already_used >> checked in
        Ensures-raise_if (λ _. Spent) T (is_expired s.now otp) otp_expired unused s tt
          (λ _.
            Ensures-raise_if (λ _. Spent) T otp.is_used otp_already_used checked s tt
              (λ _.
                Ensures-raise_if (λ _. Spent) T
                  (not (env.verify_password command.code otp.code_hash)) invalid_otp last s tt
                  (λ _. consume_ends row s found)))

    after_cache_ends :
        (hit : Option ℕ) (s : Desk)
        → ((uuid : ℕ)
            → hit ≡ some uuid
            → (row : OtpModel) × (latest (is_of command.user_uuid command.otp_type) s.otps
                ≡ some row)
              × (row.uuid ≡ uuid))
        → Ensures (λ _. Spent) T (after_cache env command hit s)
    unfolding after_cache find_latest_by_user_and_type
    after_cache_ends (some uuid) s known =
        let (row, found, e) = known uuid refl in cached_ends uuid row s found e
    after_cache_ends none s known =
        let o = latest (is_of command.user_uuid command.otp_type) s.otps in
        let s1 = record s { statements = s.statements + 1 } in
        Ensures-then (λ _. Spent) T
          (find_latest_by_user_and_type env command.user_uuid command.otp_type)
          (use_latest env command) s (option_map map_to_domain o) s1
          (find_latest_ends command.user_uuid command.otp_type s T tt) (use_latest_ends o s1 refl)

    validate_ends :
        (s : Desk)
        → IsCurrent command.user_uuid command.otp_type s
        → Ensures (λ _. Spent) T (validate_otp_execute env command s)
    unfolding validate_otp_execute
    validate_ends s current =
        let o = cache_get command.user_uuid command.otp_type s in
        after_cache_ends (cache_hit o command.code) s (λ uuid hit.
          let (e, cached, same) = hit_entry o command.code uuid hit in
          let (row, found, q) = current e cached in (row, found, q ∙ same))

    -- The checks of a used password.
    use_latest_fails :
        (row : OtpModel) (s : Desk)
        → row.is_used ≡ true
        → Ensures (λ _ _. ⊥) T (use_latest env command (some (map_to_domain row)) s)
    unfolding use_latest
    use_latest_fails row s used =
        let otp = map_to_domain row in
        let checked =
          raise_if (not (env.verify_password command.code otp.code_hash)) invalid_otp
          >> consume env command row.uuid in
        let unused = raise_if otp.is_used otp_already_used >> checked in
        Ensures-raise_if (λ _ _. ⊥) T (is_expired s.now otp) otp_expired unused s tt
          (λ _.
            Ensures-raise_if (λ _ _. ⊥) T otp.is_used otp_already_used checked s tt
              (λ unused. absurd (false≢true (sym unused ∙ used))))

    validate_fails :
        (s : Desk) → Viewed s → Ensures (λ _ _. ⊥) T (validate_otp_execute env command s)
    unfolding validate_otp_execute after_cache
    validate_fails s (forgotten, (row, found, used)) =
        let gone = cache_get-IsForgotten command.user_uuid command.otp_type s forgotten in
        let s1 = record s { statements = s.statements + 1 } in
        let o = latest (is_of command.user_uuid command.otp_type) s.otps in
        let slow = λ (hit : Option ℕ). Ensures (λ _ _. ⊥) T (after_cache env command hit s) in
        subst slow (sym (ap (λ c. cache_hit c command.code) gone)) (
          Ensures-then (λ _ _. ⊥) T
            (find_latest_by_user_and_type env command.user_uuid command.otp_type)
            (use_latest env command) s (option_map map_to_domain o) s1
            (find_latest_ends command.user_uuid command.otp_type s T tt)
            (subst
              (λ x. Ensures (λ _ _. ⊥) T (use_latest env command (option_map map_to_domain x) s1))
              (sym found) (use_latest_fails row s1 used)))

-- If the cached code is that of the latest committed password, then a validation that returns is the
-- last one: in the session of a later request, which sees what is committed, and until another
-- password is generated, no validation for the same user and type returns, whatever its code, its
-- time, and whatever fails.
pub validate_once :
    (env env' : Surroundings) (command : ValidateOtpCommand) (code : Text) (later : ℕ) (s : Desk)
    → IsCurrent command.user_uuid command.otp_type (reopened s)
    → Ensures
        (λ _ s'.
          Ensures
            (λ _ _. ⊥)
            (λ _. Unit {0})
            (validate_otp_execute env'
              (record command { code = code })
              (record (reopened s') { now = later })))
        (λ _. Unit {0})
        (validate_otp_execute env command (reopened s))
unfolding cache_get
validate_once env env' command code later s current =
    Ensures-weaken _ _ _ _
      (λ _ s' spent.
        validate_fails env' (record command { code = code }) (record (reopened s') { now = later })
          spent)
      (λ _ x. x) _ (validate_ends env command (reopened s) current)
