-- ===== src/Auth/Activation.antt =====
-- app/modules/auth/use_cases/activate_account.py and send_activation_otp.py: the users and the
-- one-time passwords in one session. Each module's part commits only its own changes, since the
-- other has none at that time.
pub mod Finish
pub mod Once
mod Examples
use fast_kit.Otp.Store.{Desk, Surroundings}
use fast_kit.Otp.UseCases.{validate_otp_execute, generate_otp_execute}
use fast_kit.Otp.Values.{OtpFailure, email_verify, otp_expiry_seconds}
use fast_kit.Users.Repository.{get_by_uuid, update_user}
use fast_kit.Users.UseCases.{verify, publish_updated}
use fast_kit.Accounts.Values.{User, AccountFailure, pending_verification, same_status}
use fast_kit.Accounts.Site.{Site, Services, Action, commit}
use fast_kit.Kit.{
  Text, codes, text_eq→eq, text_eq_refl, text_eq, ℕ, zero, suc, ◌+◌, ◌-◌, ◌*◌, ◌/◌, ◌%◌, ◌^◌, ◌≤◌,
  ◌<◌, min, max, String, ◌≡◌, refl, sym, ap, ◌∙◌, fun_ext, subst, ◌≢◌, ◌↔◌, ◌⊎◌, inl, inr, Bool,
  true, false, not, ◌&&◌, ◌||◌, false≢true, Option, none, some, List, [], ◌∷◌, ◌++◌, map,
  append-nil, append_assoc, map-append, arith, ◌==◌, eq_iff, eq_refl, if◌then◌else◌, ltb, leb,
  num_eq, is_some, or_else, Bool-cases, Option-cases, num_eq→eq, num_eq_refl, text-cases, text_ne,
  if-not, option_map, and_true, num_eq_of_eq, not-false, option_map-some, length, take, drop,
  where_, any, find, update_where, length-append, length-take, length-update_where, All, All-append,
  insert_ordered, order_by, Any-append_left, Any-append_right, Any-map, In, In-update_where,
  In-update_where_of, All-of_In, In-where_, In-take, In-insert_ordered, In-order_by, In-append,
  find-holds, Any, here, there, Method, pure, raise, gets, lift, or_raise, modify, raise_if, ◌>>=◌,
  ◌>>◌, is_ok, bind-ok, bind-err, for_each, Result, ok, err, Ensures-bind, Ensures-if,
  Ensures-weaken, state-Ensures, Ensures-self, Ensures-both, Ensures-for_each, Exactly,
  Ensures-then, Ensures-raise_if, Ensures-returned, Ensures-never, Ensures, returns, raises,
  decimal, parse_decimal, parse-decimal, pair_with, join, In-join, join-In, where_-In, any-In,
  In-any, counted-In, In-map, map-In, find-In, In-end,
}

pub record Office : Type 0 where
  pub site : Site
  pub desk : Desk

-- `UserNotFoundError` and `AccountAlreadyActiveError` of app/modules/auth, and what the use cases of
-- the two modules raise.
pub data ActivationFailure : Type 0 where
  account_not_found : ActivationFailure
  account_already_active : ActivationFailure
  account_failure : AccountFailure → ActivationFailure
  otp_failure : OtpFailure → ActivationFailure

abbrev pub Activity : Type 0 → Type 0
Activity A = Method Office ActivationFailure A

abbrev pub renamed : {E F A : Type 0} → (E → F) → Result E A → Result F A
renamed f (ok a) = ok a
renamed f (err e) = err (f e)

unfoldable pub on_site : {A : Type 0} → Action A → Activity A
on_site m o = let (r, s) = m o.site in (renamed account_failure r, record o { site = s })

unfoldable pub on_desk : {A : Type 0} → Method Desk OtpFailure A → Activity A
on_desk m o = let (r, d) = m o.desk in (renamed otp_failure r, record o { desk = d })

-- A session sees what is committed, when it opens and when it has ended.
abbrev pub opened : Office → Office
opened o = record {
  site = record o.site { db = o.site.stored };
  desk = record o.desk { otps = o.desk.committed };
}

unfoldable pub in_session : {A : Type 0} → Activity A → Activity A
in_session m o = let (r, p) = m (opened o) in (r, opened p)

unfoldable pub check_pending : Option User → Activity User
check_pending none = raise account_not_found
check_pending (some user) =
    raise_if (not (same_status user.status pending_verification)) account_already_active
    >> pure user

module _ (env : Services) where
  -- `user.verify()` and what follows it.
  unfoldable pub finish_activation : User → Action (Unit {0})
  unfolding update_user commit publish_updated
  finish_activation user = do
    verified ← lift (verify user)
    update_user env verified
    commit env
    publish_updated env verified

  -- `key` is the identifier of the one-time passwords' user column.
  module _ (otp_env : Surroundings) (key : Text → ℕ) where
    unfoldable pub activate_account_execute : Text → Text → Activity (Unit {0})
    unfolding on_site on_desk get_by_uuid check_pending validate_otp_execute finish_activation
    activate_account_execute user_uuid code = do
      found ← on_site (get_by_uuid env user_uuid)
      user ← check_pending found
      on_desk (
          validate_otp_execute otp_env
            (record { user_uuid = key user_uuid; otp_type = email_verify; code = code }))
      on_site (finish_activation user)

    -- What is handed to `send_otp_email`, whose failure is only logged: the address, the code and
    -- the minutes.
    unfoldable pub send_activation_otp_execute : ℕ → Text → Activity (Text × Text × ℕ)
    unfolding on_site on_desk get_by_uuid check_pending generate_otp_execute
    send_activation_otp_execute draw user_uuid = do
      found ← on_site (get_by_uuid env user_uuid)
      user ← check_pending found
      result ← on_desk (
          generate_otp_execute otp_env draw
            (record { user_uuid = key user_uuid; otp_type = email_verify }))
      pure (user.email, result.code, otp_expiry_seconds email_verify / 60)
