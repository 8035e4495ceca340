-- ===== src/Otp/UseCases.antt =====
-- app/modules/otp/use_cases: a password is generated, and validated once.
pub mod Spent
pub mod SingleUse
pub mod Generation
use fast_kit.Kit.{
  Text, text_eq, ℕ, zero, suc, ◌+◌, false, not, Option, none, some, [], ◌∷◌, if◌then◌else◌, length,
  Method, pure, raise, gets, or_raise, modify, raise_if, ◌>>=◌, ◌>>◌,
}
use fast_kit.Otp.Values.{
  otp_expiry_seconds, otp_length, OneTimePassword, is_expired, OtpFailure, invalid_otp, otp_expired,
  otp_already_used, unassigned_uuid, generated, validated, GenerateOtpCommand, ValidateOtpCommand,
  GenerateOtpResult,
}
use fast_kit.Otp.Store.{
  CacheEntry, Desk, Surroundings, cache_get, cache_delete, cache_set, commit, create,
  find_latest_by_user_and_type, mark_as_used, publish,
}

-- The code of the entry, if there is one and it is the given one; then the uuid.
unfoldable pub cache_hit : Option CacheEntry → Text → Option ℕ
unfolding text_eq
cache_hit none code = none
cache_hit (some cached) code = if text_eq cached.code code then some cached.uuid else none

module _ (env : Surroundings) where
  -- `_generate_code`: one draw for each digit, from the draw `n` on.
  unfoldable pub generate_code : ℕ → ℕ → Text
  generate_code zero n = []
  generate_code (suc length) n = (48 + env.randbelow n) ∷ generate_code length (n + 1)

  -- `GenerateOtpUseCase.execute`, from the commit on.
  unfoldable pub announce_otp :
      GenerateOtpCommand → Text → ℕ → OneTimePassword → Method Desk OtpFailure GenerateOtpResult
  unfolding commit cache_set publish
  announce_otp command code expires_at otp = do
    commit env
    uuid ← or_raise otp.uuid unassigned_uuid
    modify (
        cache_set (record {
          user_uuid = command.user_uuid;
          otp_type = command.otp_type;
          code = code;
          uuid = uuid;
          expires_at = expires_at;
        }))
    publish env (generated command.user_uuid command.otp_type uuid)
    pure (record { otp_uuid = uuid; expires_at = expires_at; code = code })

  -- The entity that the use case saves.
  abbrev pub new_otp : GenerateOtpCommand → Text → ℕ → OneTimePassword
  new_otp command code expires_at = record {
    id = none;
    uuid = none;
    user_uuid = command.user_uuid;
    otp_type = command.otp_type;
    code_hash = env.get_password_hash code;
    is_used = false;
    expires_at = some expires_at;
    created_at = none;
    updated_at = none;
  }

  -- `draw` is the number of the first draw.
  unfoldable pub generate_otp_execute :
      ℕ → GenerateOtpCommand → Method Desk OtpFailure GenerateOtpResult
  unfolding generate_code create announce_otp
  generate_otp_execute draw command s =
      let code = generate_code (otp_length command.otp_type) draw in
      let expires_at = s.now + otp_expiry_seconds command.otp_type in
      (create env (new_otp command code expires_at) >>= announce_otp command code expires_at) s

  -- `ValidateOtpUseCase.execute`, behind the checks of the latest password.
  unfoldable pub consume : ValidateOtpCommand → ℕ → Method Desk OtpFailure ℕ
  unfolding mark_as_used commit cache_delete publish
  consume command uuid = do
    mark_as_used env uuid
    commit env
    modify (cache_delete command.user_uuid command.otp_type)
    publish env (validated command.user_uuid command.otp_type uuid)
    pure uuid

  -- When the latest password is looked up: its checks.
  unfoldable pub use_latest : ValidateOtpCommand → Option OneTimePassword → Method Desk OtpFailure ℕ
  unfolding is_expired consume
  use_latest command none = raise invalid_otp
  use_latest command (some otp) = do
    now ← gets (λ s. s.now)
    raise_if (is_expired now otp) otp_expired
    raise_if otp.is_used otp_already_used
    raise_if (not (env.verify_password command.code otp.code_hash)) invalid_otp
    uuid ← or_raise otp.uuid unassigned_uuid
    consume command uuid

  -- From the reading of the cache on.
  unfoldable pub after_cache : ValidateOtpCommand → Option ℕ → Method Desk OtpFailure ℕ
  unfolding find_latest_by_user_and_type use_latest
  after_cache command (some uuid) = do
    modify (cache_delete command.user_uuid command.otp_type)
    mark_as_used env uuid
    commit env
    publish env (validated command.user_uuid command.otp_type uuid)
    pure uuid
  after_cache command none =
      find_latest_by_user_and_type env command.user_uuid command.otp_type >>= use_latest command

  unfoldable pub validate_otp_execute : ValidateOtpCommand → Method Desk OtpFailure ℕ
  unfolding cache_hit cache_get after_cache
  validate_otp_execute command s =
      after_cache command (cache_hit (cache_get command.user_uuid command.otp_type s) command.code)
        s
