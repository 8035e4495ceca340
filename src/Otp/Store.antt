-- ===== src/Otp/Store.antt =====
-- app/modules/otp/infrastructure/persistence, and the cache of app/core/cache.py as the module uses
-- it: the table as the open session sees it and as it is committed, and the cached codes.
use fast_kit.Kit.{
  Text, ℕ, ◌+◌, Bool, true, not, ◌&&◌, Option, none, some, List, [], ◌∷◌, ◌++◌, map, if◌then◌else◌,
  ltb, leb, num_eq, or_else, option_map, where_, find, Method, pure, gets, ◌>>◌, ok, err,
}
use fast_kit.Otp.Values.{
  OtpType, same_type, OneTimePassword, OtpEvent, OtpFailure, store_failed, publish_failed,
}

pub record OtpModel : Type 0 where
  pub id : ℕ
  pub uuid : ℕ
  pub user_uuid : ℕ
  pub otp_type : OtpType
  pub code_hash : Text
  pub is_used : Bool
  pub expires_at : ℕ
  pub created_at : ℕ
  pub updated_at : ℕ

-- The value under one key of the cache, until it expires.
pub record CacheEntry : Type 0 where
  pub user_uuid : ℕ
  pub otp_type : OtpType
  pub code : Text
  pub uuid : ℕ
  pub expires_at : ℕ

pub record Desk : Type 0 where
  pub otps : List OtpModel
  pub committed : List OtpModel
  pub cache : List CacheEntry
  pub published : List OtpEvent
  pub statements : ℕ
  pub publishes : ℕ
  pub next_id : ℕ
  pub now : ℕ

-- The desk as the session of a later request finds it: what was not committed is gone.
abbrev pub reopened : Desk → Desk
reopened s = record s { otps = s.committed }

-- Which statements and which calls of `publish` fail, the digits that `secrets.randbelow(10)` draws,
-- and the password hasher.
pub record Surroundings : Type 0 where
  pub db_fails : ℕ → Bool
  pub publish_fails : ℕ → Bool
  pub randbelow : ℕ → ℕ
  pub get_password_hash : Text → Text
  pub verify_password : Text → Text → Bool

abbrev pub map_to_domain : OtpModel → OneTimePassword
map_to_domain m = record {
  id = some m.id;
  uuid = some m.uuid;
  user_uuid = m.user_uuid;
  otp_type = m.otp_type;
  code_hash = m.code_hash;
  is_used = m.is_used;
  expires_at = some m.expires_at;
  created_at = some m.created_at;
  updated_at = some m.updated_at;
}

-- The row of a new entity; the database draws what the entity has not.
abbrev pub map_to_persistence : OneTimePassword → Desk → OtpModel
map_to_persistence otp s = record {
  id = or_else otp.id s.next_id;
  uuid = or_else otp.uuid s.next_id;
  user_uuid = otp.user_uuid;
  otp_type = otp.otp_type;
  code_hash = otp.code_hash;
  is_used = otp.is_used;
  expires_at = or_else otp.expires_at 0;
  created_at = or_else otp.created_at s.now;
  updated_at = or_else otp.updated_at s.now;
}

abbrev pub is_of : ℕ → OtpType → OtpModel → Bool
is_of user_uuid otp_type m = num_eq m.user_uuid user_uuid && same_type m.otp_type otp_type

-- The first row of `ORDER BY created_at DESC` among those that pass the test; of two rows of one
-- time the later one stands first.
abbrev pub newer : OtpModel → Option OtpModel → Option OtpModel
newer m none = some m
newer m (some n) = if leb m.created_at n.created_at then some n else some m

unfoldable pub latest : (OtpModel → Bool) → List OtpModel → Option OtpModel
latest test [] = none
latest test (m ∷ ms) = let rest = latest test ms in if test m then newer m rest else rest

abbrev pub mark : ℕ → OtpModel → OtpModel
mark otp_uuid m = if num_eq m.uuid otp_uuid then record m { is_used = true } else m

abbrev pub is_key : ℕ → OtpType → CacheEntry → Bool
is_key user_uuid otp_type e = num_eq e.user_uuid user_uuid && same_type e.otp_type otp_type

-- `cache.get`, `cache.delete` and `cache.set` under the key of a user and a type.
unfoldable pub cache_get : ℕ → OtpType → Desk → Option CacheEntry
cache_get user_uuid otp_type s =
    find (λ e. is_key user_uuid otp_type e && ltb s.now e.expires_at) s.cache

unfoldable pub cache_delete : ℕ → OtpType → Desk → Desk
cache_delete user_uuid otp_type s = record s {
  cache = where_ (λ e. not (is_key user_uuid otp_type e)) s.cache;
}

unfoldable pub cache_set : CacheEntry → Desk → Desk
unfolding cache_delete
cache_set e s =
    let rest = cache_delete e.user_uuid e.otp_type s in record rest { cache = e ∷ rest.cache }

module _ (env : Surroundings) where
  -- A statement that changes the session's view, or fails.
  unfoldable pub run : (Desk → Desk) → Method Desk OtpFailure (Unit {0})
  run f s =
      if env.db_fails s.statements
      then (err store_failed, record s { statements = s.statements + 1 })
      else (ok tt, record (f s) { statements = s.statements + 1 })

  unfoldable pub commit : Method Desk OtpFailure (Unit {0})
  unfolding run
  commit = run (λ s. record s { committed = s.otps })

  unfoldable pub create : OneTimePassword → Method Desk OtpFailure OneTimePassword
  unfolding run
  create otp s =
      (run (λ s. record s {
        otps = s.otps ++ map_to_persistence otp s ∷ [];
        next_id = s.next_id + 1;
      })
          >> pure (map_to_domain (map_to_persistence otp s)))
        s

  unfoldable pub find_by_uuid : ℕ → Method Desk OtpFailure (Option OneTimePassword)
  unfolding run
  find_by_uuid uuid = do
    run (λ s. s)
    gets (λ s. option_map map_to_domain (find (λ m. num_eq m.uuid uuid) s.otps))

  unfoldable pub find_valid_by_user_and_type :
      ℕ → OtpType → Method Desk OtpFailure (Option OneTimePassword)
  unfolding run latest
  find_valid_by_user_and_type user_uuid otp_type = do
    run (λ s. s)
    gets (λ s. option_map map_to_domain (
        latest (λ m. is_of user_uuid otp_type m && not m.is_used && ltb s.now m.expires_at) s.otps))

  unfoldable pub find_latest_by_user_and_type :
      ℕ → OtpType → Method Desk OtpFailure (Option OneTimePassword)
  unfolding run latest
  find_latest_by_user_and_type user_uuid otp_type = do
    run (λ s. s)
    gets (λ s. option_map map_to_domain (latest (is_of user_uuid otp_type) s.otps))

  unfoldable pub mark_as_used : ℕ → Method Desk OtpFailure (Unit {0})
  unfolding run
  mark_as_used otp_uuid = run (λ s. record s { otps = map (mark otp_uuid) s.otps })

  unfoldable pub publish : OtpEvent → Method Desk OtpFailure (Unit {0})
  publish event s =
      if env.publish_fails s.publishes
      then (err publish_failed, record s { publishes = s.publishes + 1 })
      else (ok tt, record s { published = s.published ++ event ∷ []; publishes = s.publishes + 1 })
