-- ===== src/Users/Soundness/Registration.antt =====
-- The registration, and the table of users that it leaves.
use fast_kit.Users.Validation.{is_strong, is_email, is_phone_number}
use fast_kit.Users.Soundness.Writes.{create-BothSound, BothSound}
use fast_kit.Accounts.Values.{
  User, passwords_do_not_match_error, weak_password_error, invalid_phone_number_error, value_error,
  user_registered,
}
use fast_kit.Accounts.Site.Rules.{commit_lem, publish_lem, query_lem}
use fast_kit.Users.UseCases.{new_user, RegisterUserCommand, register_new, register_user_execute}
use fast_kit.Accounts.Site.{publish, commit, Site, Services}
use fast_kit.Kit.{
  Text, text_eq, ℕ, refl, Bool, not, false≢true, Option, none, some, option_map, find, pure,
  raise_if, ◌>>=◌, ◌>>◌, Ensures-bind, Ensures-raise_if, Ensures, returns, raises,
}
use fast_kit.Users.Repository.{create_user, get_by_email, map_to_domain}

module _ (env : Services) (first_superuser_email : Option Text) (is_decimal : ℕ → Bool) where
  registered-BothSound :
      (command : RegisterUserCommand) (o : Option User) (u : Site)
      → BothSound u
      → Ensures
          (λ _. BothSound)
          BothSound
          (register_new env first_superuser_email is_decimal command o u)
  unfolding register_new
  registered-BothSound command (some _) u k = raises k
  registered-BothSound command none u k =
      let user = new_user env first_superuser_email is_decimal command in
      let event =
        user_registered command.email command.username command.phone_number command.first_name
          command.last_name in
      Ensures-bind (λ _. BothSound) (λ _. BothSound) BothSound (create_user env user)
        (λ saved. commit env >> (publish env event >> pure saved)) u
        (create-BothSound env user u k refl (λ h. absurd (false≢true h)))
        (λ saved v q.
          Ensures-bind (λ _. BothSound) (λ _. BothSound) BothSound (commit env)
            (λ _. publish env event >> pure saved) v
            (commit_lem env BothSound BothSound v (q.0, q.0) q)
            (λ _ w x.
              Ensures-bind (λ _. BothSound) (λ _. BothSound) BothSound (publish env event)
                (λ _. pure saved) w (publish_lem env BothSound BothSound event w x x)
                (λ _ y z. returns z)))

  pub register-BothSound :
      (command : RegisterUserCommand) (s : Site)
      → BothSound s
      → Ensures
          (λ _. BothSound)
          BothSound
          (register_user_execute env first_superuser_email is_decimal command s)
  unfolding register_user_execute get_by_email
  register-BothSound command s k =
      let same = not (text_eq command.password command.password2) in
      let phone = is_phone_number is_decimal command.phone_number in
      let new = register_new env first_superuser_email is_decimal command in
      let look = get_by_email env command.email >>= new in
      let mail = raise_if (not (is_email command.email)) value_error >> look in
      let number = raise_if (not phone) invalid_phone_number_error >> mail in
      let weak = not (is_strong command.password) in
      Ensures-raise_if (λ _. BothSound) BothSound same passwords_do_not_match_error
        (raise_if weak weak_password_error >> number) s k
        (λ _.
          Ensures-raise_if (λ _. BothSound) BothSound weak weak_password_error number s k
            (λ _.
              Ensures-raise_if (λ _. BothSound) BothSound (not phone) invalid_phone_number_error
                mail s k
                (λ _.
                  Ensures-raise_if (λ _. BothSound) BothSound (not (is_email command.email))
                    value_error look s k
                    (λ _.
                      Ensures-bind (λ _. BothSound) (λ _. BothSound) BothSound
                        (get_by_email env command.email) new s
                        (query_lem env (λ _. BothSound) BothSound
                          (λ t.
                            option_map map_to_domain
                              (find (λ m. text_eq m.email command.email) t.users))
                          s k k)
                        (λ o u q. registered-BothSound command o u q)))))
