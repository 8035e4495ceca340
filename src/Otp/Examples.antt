-- ===== src/Otp/Examples.antt =====
-- The theorems of the module for one-time passwords at concrete inputs, and tests.
use fast_kit.Kit.{
  codes, text_eq, ℕ, ◌≡◌, refl, ap, true, false, Option, none, some, [], arith, ok, Ensures,
}
use fast_kit.Otp.Values.{login, GenerateOtpCommand, otp_length, otp_code_accepts, GenerateOtpResult}
use fast_kit.Otp.Store.{latest, CacheEntry, Desk, Surroundings, cache_get, reopened}
use fast_kit.Otp.UseCases.{generate_code, generate_otp_execute, validate_otp_execute}
use fast_kit.Otp.UseCases.Spent.{IsCurrent}
use fast_kit.Otp.UseCases.SingleUse.{validate_once}
use fast_kit.Otp.UseCases.Generation.{
  generate-IsIssued, IsIssued, reliable, otp_code_accepts-generate_code, validation,
  validate-generate,
}

abbrev env : Surroundings
env = reliable (λ n. 7) (λ code. code) text_eq

abbrev for_three : GenerateOtpCommand
for_three = record { user_uuid = 3; otp_type = login }

abbrev empty_desk : Desk
empty_desk = record {
  otps = [];
  committed = [];
  cache = [];
  published = [];
  statements = 0;
  publishes = 0;
  next_id = 1;
  now = 1000;
}

sevens : generate_code env 6 0 ≡ codes "777777"
unfolding generate_code
sevens = refl

-- The desk with one password of user 3.
one_password : Desk
unfolding generate_otp_execute
one_password = (generate_otp_execute env 0 for_three empty_desk).1

abbrev uuid_of : Option CacheEntry → ℕ
uuid_of none = 0
uuid_of (some e) = e.uuid

one_password-IsCurrent : IsCurrent 3 login (reopened one_password)
unfolding one_password cache_get latest
one_password-IsCurrent e cached = (_, refl, ap uuid_of cached)

validate_once_example :
    Ensures
      (λ _ s'.
        Ensures
          (λ _ _. ⊥)
          (λ _. Unit {0})
          (validate_otp_execute env
            (record { user_uuid = 3; otp_type = login; code = codes "777777" })
            (record (reopened s') { now = 1001 })))
      (λ _. Unit {0})
      (validate_otp_execute env
        (record { user_uuid = 3; otp_type = login; code = codes "777777" })
        (reopened one_password))
validate_once_example =
    validate_once env env (record { user_uuid = 3; otp_type = login; code = codes "777777" })
      (codes "777777") 1001 one_password one_password-IsCurrent

otp_code_accepts-generate_code_example :
    otp_code_accepts (λ _. false) (generate_code env (otp_length login) 0) ≡ true
otp_code_accepts-generate_code_example =
    otp_code_accepts-generate_code env (λ n. ground arith) (λ _. false) login 0

validate-generate_example :
    let s' = (generate_otp_execute env 0 for_three empty_desk).1 in
    (r : GenerateOtpResult) × ((generate_otp_execute env 0 for_three empty_desk).0 ≡ ok r)
    × ((validate_otp_execute env (validation (λ n. 7) (λ code. code) text_eq for_three r) s').0
        ≡ ok r.otp_uuid)
validate-generate_example = validate-generate (λ n. 7) (λ code. code) text_eq 0 for_three empty_desk

generate-IsIssued_example :
    Ensures
      (IsIssued env for_three)
      (λ _. Unit {0})
      (generate_otp_execute env 0 for_three empty_desk)
generate-IsIssued_example = generate-IsIssued env 0 for_three empty_desk tt
