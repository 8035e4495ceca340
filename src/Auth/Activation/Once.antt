-- ===== src/Auth/Activation/Once.antt =====
-- Activations of an account, one after the other.
use fast_kit.Auth.Activation.Finish.{finish-HasStatus, pending_of, Anything, HasStatus}
use fast_kit.Otp.UseCases.{validate_otp_execute}
use fast_kit.Otp.Values.{ValidateOtpCommand, OtpFailure}
use fast_kit.Accounts.Site.{Services, Action, Tables, Site}
use fast_kit.Accounts.Values.{AccountFailure, same_status}
use fast_kit.Auth.Activation.{
  ActivationFailure, opened, email_verify, Activity, activate_account_execute,
  account_already_active, in_session, check_pending, finish_activation, account_failure,
  otp_failure, renamed, Office, on_desk, on_site,
}
use fast_kit.Accounts.Values.{pending_verification, active, same_status, AccountFailure, User}
use fast_kit.Kit.{
  Text, text_eq, ℕ, ◌≡◌, refl, sym, ap, ◌∙◌, subst, true, not, false≢true, Option, none, some,
  option_map, not-false, option_map-some, find, Method, pure, ◌>>=◌, is_ok, Result, ok, err,
  Ensures-bind, Ensures-weaken, Ensures-raise_if, Ensures, returns, raises,
}
use fast_kit.Users.Repository.{get_by_uuid, map_to_domain}
use fast_kit.Otp.Store.{Surroundings, Desk}
use fast_kit.Accounts.Site.Rules.{query_lem}

module _ {A : Type 0} where
  on_site_lem :
      (Q : A → Site → Type 0) (m : Action A) (o : Office)
      → Ensures Q Anything (m o.site)
      → Ensures (λ a p. Q a p.site × (p.desk ≡ o.desk)) Anything (on_site m o)
  unfolding on_site
  on_site_lem Q m o h = on (m o.site) h
    where
      on :
          (r : Result AccountFailure A × Site)
          → Ensures Q Anything r
          → Ensures
              (λ a p. Q a p.site × (p.desk ≡ o.desk))
              Anything
              (renamed account_failure r.0, record o { site = r.1 })
      on _ (returns q) = returns (q, refl)
      on _ (raises q) = raises tt

  on_desk_lem :
      (m : Method Desk OtpFailure A) (o : Office)
      → Ensures (λ _ p. (is_ok (m o.desk).0 ≡ true) × (p.site ≡ o.site)) Anything (on_desk m o)
  unfolding on_desk
  on_desk_lem m o = on (m o.desk)
    where
      on :
          (r : Result OtpFailure A × Desk)
          → Ensures
              (λ _ p. (is_ok r.0 ≡ true) × (p.site ≡ o.site))
              Anything
              (renamed otp_failure r.0, record o { desk = r.1 })
      on (ok a, d) = returns (refl, refl)
      on (err e, d) = raises tt

check_pending_lem :
    (found : Option User) (p : Office)
    → Ensures
        (λ user q.
          (found ≡ some user) × (same_status user.status pending_verification ≡ true) × (q ≡ p))
        Anything
        (check_pending found p)
unfolding check_pending
check_pending_lem none p = raises tt
check_pending_lem (some user) p =
    let is_pending = same_status user.status pending_verification in
    Ensures-raise_if _ Anything (not is_pending) account_already_active (pure user) p tt
      (λ h. returns (refl, not-false is_pending h, refl))

in_session_lem :
    {A : Type 0} (Q : A → Office → Type 0) (m : Activity A) (o : Office)
    → Ensures (λ a p. Q a (opened p)) Anything (m (opened o))
    → Ensures Q Anything (in_session m o)
unfolding in_session
in_session_lem {A} Q m o h = on (m (opened o)) h
  where
    on :
        (r : Result ActivationFailure A × Office)
        → Ensures (λ a p. Q a (opened p)) Anything r
        → Ensures Q Anything (r.0, opened r.1)
    on _ (returns q) = returns q
    on _ (raises q) = raises tt

module _ (env : Services) (otp_env : Surroundings) (key : Text → ℕ) (uuid code : Text) where
  abbrev command : ValidateOtpCommand
  command = record { user_uuid = key uuid; otp_type = email_verify; code = code }

  -- What an activation that returns has found and done.
  pub record IsActivation (o p : Office) : Type 0 where
    pub pending : HasStatus uuid pending_verification o.site.stored
    pub validated : is_ok (validate_otp_execute otp_env command (opened o).desk).0 ≡ true
    pub active : HasStatus uuid active p.site.stored

  abbrev load : Tables → Option User
  load t = option_map map_to_domain (find (λ m. text_eq m.uuid uuid) t.users)

  looked_up :
      (o : Office)
      → Ensures
          (λ found p. ((found ≡ load o.site.db) × (p.site.db ≡ o.site.db)) × (p.desk ≡ o.desk))
          Anything
          (on_site (get_by_uuid env uuid) o)
  unfolding get_by_uuid
  looked_up o =
      on_site_lem (λ found u. (found ≡ load o.site.db) × (u.db ≡ o.site.db)) (get_by_uuid env uuid)
        o
        (query_lem env (λ found u. (found ≡ load o.site.db) × (u.db ≡ o.site.db)) Anything load
          o.site (refl, refl) tt)

  activate-IsActivation :
      (o : Office)
      → Ensures
          (λ _. IsActivation o)
          Anything
          (activate_account_execute env otp_env key uuid code (opened o))
  unfolding activate_account_execute
  activate-IsActivation o =
      let t = o.site.stored in
      let Q : Unit {0} → Office → Type 0 = λ _. IsActivation o in
      let validate = on_desk (validate_otp_execute otp_env command) in
      let end = λ (user : User). validate >>= λ _. on_site (finish_activation env user) in
      Ensures-bind _ Q Anything (on_site (get_by_uuid env uuid))
        (λ found. check_pending found >>= end) (opened o) (looked_up (opened o))
        (λ found p q.
          Ensures-bind _ Q Anything (check_pending found) end p (check_pending_lem found p)
            (λ user p' k.
              let (m, row, is) =
                option_map-some map_to_domain (find (λ m. text_eq m.uuid uuid) t.users) user
                  (sym q.0.0 ∙ k.0) in
              let was : m.status ≡ pending_verification =
                pending_of m.status
                  (ap (λ (u : User). same_status u.status pending_verification) is ∙ k.1) in
              Ensures-bind _ Q Anything validate (λ _. on_site (finish_activation env user)) p'
                (on_desk_lem (validate_otp_execute otp_env command) p')
                (λ _ w x.
                  let db : w.site.db ≡ t =
                    ap (λ (s : Site). s.db) x.1 ∙ ap (λ (o : Office). o.site.db) k.2 ∙ q.0.1 in
                  let desk : p'.desk ≡ (opened o).desk = ap (λ (o : Office). o.desk) k.2 ∙ q.1 in
                  Ensures-weaken _ _ _ _
                    (λ _ v y. record {
                      pending = record { row = m; found = row; has = was };
                      validated =
                          ap (λ d. is_ok (validate_otp_execute otp_env command d).0) (sym desk)
                          ∙ x.0;
                      active = y.0;
                    })
                    (λ _ y. y) _
                    (subst
                      (λ u.
                        Ensures (λ _ v. HasStatus uuid active v.site.stored × (v.desk ≡ w.desk))
                          Anything (on_site (finish_activation env u) w))
                      is
                      (on_site_lem (λ _ v. HasStatus uuid active v.stored)
                        (finish_activation env (map_to_domain m)) w
                        (finish-HasStatus env uuid m w.site
                          (ap (λ (t : Tables). find (λ m. text_eq m.uuid uuid) t.users) db ∙ row)
                          was))))))

  -- An account that is active is not activated.
  active_fails :
      (o : Office)
      → HasStatus uuid active o.site.stored
      → Ensures (λ _ _. ⊥) Anything (activate_account_execute env otp_env key uuid code (opened o))
  unfolding activate_account_execute
  active_fails o h =
      let validate = on_desk (validate_otp_execute otp_env command) in
      let end = λ (user : User). validate >>= λ _. on_site (finish_activation env user) in
      Ensures-bind _ (λ _ _. ⊥) Anything (on_site (get_by_uuid env uuid))
        (λ found. check_pending found >>= end) (opened o) (looked_up (opened o))
        (λ found p q.
          Ensures-bind _ (λ _ _. ⊥) Anything (check_pending found) end p (check_pending_lem found p)
            (λ user p' k.
              let loaded : load o.site.stored ≡ some (map_to_domain h.row) =
                ap (option_map map_to_domain) h.found in
              let is : some (map_to_domain h.row) ≡ some user = sym loaded ∙ sym q.0.0 ∙ k.0 in
              let it : map_to_domain h.row ≡ user = cc is in
              absurd (
                false≢true (
                  ap (λ st. same_status st pending_verification) (sym h.has)
                  ∙ ap (λ (u : User). same_status u.status pending_verification) it
                  ∙ k.1))))

-- If an activation returns, then the account was waiting for its verification, the validation of the
-- code as a one-time password returned, and the committed account is active. In a session that
-- follows, no activation of the account returns, whatever its code and whatever fails.
pub activate_account_once :
    (env env' : Services) (otp_env otp_env' : Surroundings) (key : Text → ℕ)
    (uuid code code' : Text) (o : Office)
    → Ensures
        (λ _ p.
          IsActivation env otp_env key uuid code o p
          × Ensures
              (λ _ _. ⊥)
              Anything
              (in_session (activate_account_execute env' otp_env' key uuid code') p))
        Anything
        (in_session (activate_account_execute env otp_env key uuid code) o)
activate_account_once env env' otp_env otp_env' key uuid code code' o =
    in_session_lem _ (activate_account_execute env otp_env key uuid code) o (
      Ensures-weaken _ _ _ _
        (λ _ p a. (
          record { pending = a.pending; validated = a.validated; active = a.active },
          in_session_lem (λ _ _. ⊥) (activate_account_execute env' otp_env' key uuid code')
              (opened p) (active_fails env' otp_env' key uuid code' (opened p) a.active),
        ))
        (λ _ x. x) _ (activate-IsActivation env otp_env key uuid code o))
