-- ===== src/Otp/Values.antt =====
-- app/modules/otp/domain: the types of passwords, the entity, the events and the errors. A uuid is a
-- number, a timestamp a number of seconds.
use fast_kit.Kit.{
  Text, ℕ, Bool, true, false, not, ◌&&◌, ◌||◌, Option, none, some, [], ◌∷◌, ltb, leb, length,
}

pub data OtpType : Type 0 where
  login : OtpType
  password_reset : OtpType
  email_verify : OtpType
  phone_verify : OtpType

-- `a == b`
abbrev pub same_type : OtpType → OtpType → Bool
same_type login login = true
same_type password_reset password_reset = true
same_type email_verify email_verify = true
same_type phone_verify phone_verify = true
same_type _ _ = false

abbrev pub otp_expiry_seconds : OtpType → ℕ
otp_expiry_seconds login = 300
otp_expiry_seconds password_reset = 600
otp_expiry_seconds email_verify = 3600
otp_expiry_seconds phone_verify = 3600

abbrev pub otp_length : OtpType → ℕ
otp_length login = 6
otp_length password_reset = 6
otp_length email_verify = 6
otp_length phone_verify = 6

-- `str.isdigit`, but for the empty text: the digits of ASCII, and beyond it those that the tables of
-- Python's `unicodedata` name, `unicode_digit`.
abbrev pub all_digits : (ℕ → Bool) → Text → Bool
all_digits unicode_digit [] = true
all_digits unicode_digit (c ∷ s) =
    (leb b'0' c && leb c b'9' || ltb 127 c && unicode_digit c) && all_digits unicode_digit s

-- `OtpCode.__post_init__`: whether the code is accepted. An empty text is no digit text, and it is
-- too short too.
unfoldable pub otp_code_accepts : (ℕ → Bool) → Text → Bool
otp_code_accepts unicode_digit value =
    not (not (all_digits unicode_digit value) || ltb (length value) 4 || ltb 8 (length value))

pub record OneTimePassword : Type 0 where
  pub id : Option ℕ
  pub uuid : Option ℕ
  pub user_uuid : ℕ
  pub otp_type : OtpType
  pub code_hash : Text
  pub is_used : Bool
  pub expires_at : Option ℕ
  pub created_at : Option ℕ
  pub updated_at : Option ℕ

-- `is_expired`, at the time `now`
unfoldable pub is_expired : ℕ → OneTimePassword → Bool
is_expired now otp = elim otp.expires_at [ none ↦ true | some expires_at ↦ ltb expires_at now ]

pub data OtpEvent : Type 0 where
  generated : ℕ → OtpType → ℕ → OtpEvent
  validated : ℕ → OtpType → ℕ → OtpEvent

pub data OtpFailure : Type 0 where
  invalid_otp : OtpFailure
  otp_expired : OtpFailure
  otp_already_used : OtpFailure
  unassigned_uuid : OtpFailure
  store_failed : OtpFailure
  publish_failed : OtpFailure

pub record GenerateOtpCommand : Type 0 where
  pub user_uuid : ℕ
  pub otp_type : OtpType

pub record ValidateOtpCommand : Type 0 where
  pub user_uuid : ℕ
  pub otp_type : OtpType
  pub code : Text

pub record GenerateOtpResult : Type 0 where
  pub otp_uuid : ℕ
  pub expires_at : ℕ
  pub code : Text
