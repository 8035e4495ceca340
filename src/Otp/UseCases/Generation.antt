-- ===== src/Otp/UseCases/Generation.antt =====
-- A generated password has an accepted code, and it can be validated.
use fast_kit.Kit.{
  Text, text_eq_refl, ℕ, zero, suc, ◌+◌, ◌≤◌, ◌<◌, ◌≡◌, refl, ap, ◌∙◌, inl, inr, Bool, true, false,
  not, ◌&&◌, ◌||◌, none, some, List, [], ◌∷◌, ◌++◌, arith, if◌then◌else◌, ltb, leb, Bool-cases,
  num_eq_refl, length, where_, find, All, pure, modify, ◌>>◌, ok, Ensures-bind, Exactly,
  Ensures-then, Ensures, returns,
}
use fast_kit.Otp.Values.{
  all_digits, OtpType, login, password_reset, email_verify, phone_verify, same_type, otp_length,
  otp_expiry_seconds, otp_code_accepts, GenerateOtpCommand, ValidateOtpCommand, GenerateOtpResult,
  generated,
}
use fast_kit.Otp.Store.{
  is_of, newer, OtpModel, latest, CacheEntry, Desk, Surroundings, is_key, cache_get, cache_set, run,
  commit, create, mark_as_used, publish, map_to_persistence, map_to_domain, cache_delete,
}
use fast_kit.Otp.UseCases.SingleUse.{run_lem, publish_lem}
use fast_kit.Otp.UseCases.{
  new_otp, cache_hit, generate_code, generate_otp_execute, announce_otp, after_cache,
  validate_otp_execute,
}

first_digit : (d : ℕ) → leb b'0' (48 + d) ≡ true
first_digit d = ground arith

last_digit : (d : ℕ) → d < 10 → leb (48 + d) b'9' ≡ true
last_digit d h = ground arith

six : (t : OtpType) → not (not true || ltb (otp_length t) 4 || ltb 8 (otp_length t)) ≡ true
six login = refl
six password_reset = refl
six email_verify = refl
six phone_verify = refl

module _ (env : Surroundings) (digit : (n : ℕ) → env.randbelow n < 10) where
  generate_code-all_digits :
      (unicode_digit : ℕ → Bool) (k n : ℕ) → all_digits unicode_digit (generate_code env k n) ≡ true
  unfolding generate_code
  generate_code-all_digits unicode_digit zero n = refl
  generate_code-all_digits unicode_digit (suc k) n =
      rw (first_digit (env.randbelow n), last_digit (env.randbelow n) (digit n))
        (generate_code-all_digits unicode_digit k (n + 1))

  length-generate_code : (k n : ℕ) → length (generate_code env k n) ≡ k
  unfolding generate_code
  length-generate_code zero n = refl
  length-generate_code (suc k) n = ap (λ l. suc l) (length-generate_code k (n + 1))

  -- If each draw is below ten, the code of a password of any type is accepted as a code.
  pub otp_code_accepts-generate_code :
      (unicode_digit : ℕ → Bool) (otp_type : OtpType) (n : ℕ)
      → otp_code_accepts unicode_digit (generate_code env (otp_length otp_type) n) ≡ true
  unfolding otp_code_accepts
  otp_code_accepts-generate_code unicode_digit otp_type n =
      let k = otp_length otp_type in
      rw (generate_code-all_digits unicode_digit k n, length-generate_code k n) (six otp_type)

-- Surroundings in which nothing fails.
abbrev pub reliable : (ℕ → ℕ) → (Text → Text) → (Text → Text → Bool) → Surroundings
reliable randbelow hash verify = record {
  db_fails = λ _. false;
  publish_fails = λ _. false;
  randbelow = randbelow;
  get_password_hash = hash;
  verify_password = verify;
}

same_type_refl : (t : OtpType) → same_type t t ≡ true
same_type_refl login = refl
same_type_refl password_reset = refl
same_type_refl email_verify = refl
same_type_refl phone_verify = refl

live : (t : OtpType) (n : ℕ) → ltb n (n + otp_expiry_seconds t) ≡ true
live login n = ground arith
live password_reset n = ground arith
live email_verify n = ground arith
live phone_verify n = ground arith

cache_hit-first :
    (p : CacheEntry → Bool) (e : CacheEntry) (es : List CacheEntry)
    → p e ≡ true
    → cache_hit (find p (e ∷ es)) e.code ≡ some e.uuid
unfolding cache_hit
cache_hit-first p e es h =
    ap (λ b. cache_hit (if b then some e else find p es) e.code) h
    ∙ ap (λ b. if b then some e.uuid else none) (text_eq_refl e.code)

module _ (randbelow : ℕ → ℕ) (hash : Text → Text) (verify : Text → Text → Bool) where
  -- The request that validates a generated password at once.
  abbrev pub validation : GenerateOtpCommand → GenerateOtpResult → ValidateOtpCommand
  validation command r = record {
    user_uuid = command.user_uuid;
    otp_type = command.otp_type;
    code = r.code;
  }

  -- If nothing fails, a password is generated, and the validation of its code at once returns its
  -- uuid.
  pub validate-generate :
      (draw : ℕ) (command : GenerateOtpCommand) (s : Desk)
      → let env = reliable randbelow hash verify in
        let s' = (generate_otp_execute env draw command s).1 in
        (r : GenerateOtpResult) × ((generate_otp_execute env draw command s).0 ≡ ok r)
        × ((validate_otp_execute env (validation command r) s').0 ≡ ok r.otp_uuid)
  unfolding generate_otp_execute create announce_otp run commit publish cache_set cache_get
      validate_otp_execute after_cache mark_as_used cache_hit
  validate-generate draw command s =
      let env = reliable randbelow hash verify in
      let s' = (generate_otp_execute env draw command s).1 in
      let entry : CacheEntry = record {
        user_uuid = command.user_uuid;
        otp_type = command.otp_type;
        code = generate_code env (otp_length command.otp_type) draw;
        uuid = s.next_id;
        expires_at = s.now + otp_expiry_seconds command.otp_type;
      } in
      let key : is_key command.user_uuid command.otp_type entry && ltb s.now entry.expires_at
          ≡ true =
        rw (
          num_eq_refl command.user_uuid,
          same_type_refl command.otp_type,
          live command.otp_type s.now,
        ) in
      let hit =
        cache_hit-first (λ e. is_key command.user_uuid command.otp_type e && ltb s.now e.expires_at)
          entry (where_ (λ e. not (is_key command.user_uuid command.otp_type e)) s.cache) key in
      let r : GenerateOtpResult = record {
        otp_uuid = s.next_id;
        expires_at = entry.expires_at;
        code = entry.code;
      } in
      (r, refl, ap (λ h. (after_cache env (validation command r) h s').0) hit)

at_least : (a b : ℕ) → b ≤ a → leb b a ≡ true
at_least a b h = ground arith

latest-append :
    (test : OtpModel → Bool) (ms : List OtpModel) (row : OtpModel)
    → test row ≡ true
    → All (λ m. m.created_at ≤ row.created_at) ms
    → latest test (ms ++ row ∷ []) ≡ some row
unfolding latest
latest-append test [] row h e = rw h
latest-append test (m ∷ ms) row h (le, les) = elim (Bool-cases (test m)) [
  | inl hit ↦ rw hit (
      ap (newer m) (latest-append test ms row h les)
      ∙ ap (λ b. if b then some row else some m) (at_least row.created_at m.created_at le))
  | inr miss ↦ rw miss (latest-append test ms row h les)
]

-- What is found behind `cache_set` is the entry that was set, until it expires.
cache_get-cache_set :
    (entry : CacheEntry) (s : Desk)
    → ltb s.now entry.expires_at ≡ true
    → cache_get entry.user_uuid entry.otp_type (cache_set entry s) ≡ some entry
unfolding cache_get cache_set
cache_get-cache_set entry s alive =
    let key : is_key entry.user_uuid entry.otp_type entry && ltb s.now entry.expires_at ≡ true =
      rw (num_eq_refl entry.user_uuid, same_type_refl entry.otp_type, alive) in
    rw key

-- What a generation leaves when it returns `r`: the latest password of the user and the type that is
-- committed is unused and has the uuid of `r` and the hash of its code, and the cache has the code
-- and the uuid of `r` until the time of `r`.
pub record IsIssued (env : Surroundings) (command : GenerateOtpCommand) (r : GenerateOtpResult)
    (t : Desk) : Type 0 where
  pub row : OtpModel
  pub latest_row : latest (is_of command.user_uuid command.otp_type) t.committed ≡ some row
  pub row_uuid : row.uuid ≡ r.otp_uuid
  pub hashed : row.code_hash ≡ env.get_password_hash r.code
  pub unused : row.is_used ≡ false
  pub expires : row.expires_at ≡ r.expires_at
  pub cached :
      cache_get command.user_uuid command.otp_type t
      ≡ some (record {
        user_uuid = command.user_uuid;
        otp_type = command.otp_type;
        code = r.code;
        uuid = r.otp_uuid;
        expires_at = r.expires_at;
      })

module _ (env : Surroundings) (draw : ℕ) (command : GenerateOtpCommand) (s : Desk) where
  abbrev code : Text
  code = generate_code env (otp_length command.otp_type) draw

  abbrev expires_at : ℕ
  expires_at = s.now + otp_expiry_seconds command.otp_type

  -- The row of the new password.
  abbrev row : OtpModel
  row = map_to_persistence (new_otp env command code expires_at) s

  -- The rows of the session's view, or those that are committed, when the row is the new last one.
  abbrev Saved : List OtpModel → Desk → Type 0
  Saved rows t = (rows ≡ s.otps ++ row ∷ []) × (t.now ≡ s.now)

  set-IsIssued :
      (t : Desk)
      → latest (is_of command.user_uuid command.otp_type) (s.otps ++ row ∷ []) ≡ some row
      → Saved t.committed t
      → let entry : CacheEntry = record {
        user_uuid = command.user_uuid;
        otp_type = command.otp_type;
        code = code;
        uuid = row.uuid;
        expires_at = expires_at;
      } in
        IsIssued env command
          (record { otp_uuid = row.uuid; expires_at = expires_at; code = code })
          (cache_set entry t)
  unfolding cache_set cache_delete
  set-IsIssued t last (saved, clock) = record {
    row = row;
    latest_row = ap (latest (is_of command.user_uuid command.otp_type)) saved ∙ last;
    row_uuid = refl;
    hashed = refl;
    unused = refl;
    expires = refl;
    cached =
        cache_get-cache_set
          (record {
            user_uuid = command.user_uuid;
            otp_type = command.otp_type;
            code = code;
            uuid = row.uuid;
            expires_at = expires_at;
          })
          t (ap (λ n. ltb n expires_at) clock ∙ live command.otp_type s.now);
  }

  announce_otp_ends :
      (t : Desk)
      → latest (is_of command.user_uuid command.otp_type) (s.otps ++ row ∷ []) ≡ some row
      → Saved t.otps t
      → Ensures
          (IsIssued env command)
          (λ _. Unit {0})
          (announce_otp env command code expires_at (map_to_domain row) t)
  unfolding announce_otp commit cache_get
  announce_otp_ends t last saved =
      let T : Desk → Type 0 = λ _. Unit {0} in
      let entry : CacheEntry = record {
        user_uuid = command.user_uuid;
        otp_type = command.otp_type;
        code = code;
        uuid = row.uuid;
        expires_at = expires_at;
      } in
      let event = generated command.user_uuid command.otp_type row.uuid in
      let result : GenerateOtpResult = record {
        otp_uuid = row.uuid;
        expires_at = expires_at;
        code = code;
      } in
      let Issued = IsIssued env command result in
      Ensures-bind (λ _ u. Saved u.committed u) (IsIssued env command) T (commit env)
        (λ _. modify (cache_set entry) >> (publish env event >> pure result)) t
        (run_lem env (λ u. Saved u.committed u) T (λ s. record s { committed = s.otps }) t saved tt)
        (λ _ t' saved'.
          Ensures-bind (λ _. Issued) (IsIssued env command) T (publish env event) (λ _. pure result)
            (cache_set entry t')
            (publish_lem env Issued T event (cache_set entry t')
              (let i = set-IsIssued t' last saved' in
                record {
                  row = i.row;
                  latest_row = i.latest_row;
                  row_uuid = i.row_uuid;
                  hashed = i.hashed;
                  unused = i.unused;
                  expires = i.expires;
                  cached = i.cached;
                })
              tt)
            (λ _ t'' h. returns h))

  -- If the rows of the table are not from the future, then after a generation that returns the
  -- latest password of the user and the type that is committed is unused and has the uuid, the time
  -- and the hash of the code of the result, and the cache has this code and this uuid until then.
  pub generate-IsIssued :
      All (λ m. m.created_at ≤ s.now) s.otps
      → Ensures (IsIssued env command) (λ _. Unit {0}) (generate_otp_execute env draw command s)
  unfolding generate_otp_execute create
  generate-IsIssued past =
      let f : Desk → Desk = λ t. record t { otps = t.otps ++ row ∷ []; next_id = t.next_id + 1 } in
      let t = record (f s) { statements = s.statements + 1 } in
      let T : Desk → Type 0 = λ _. Unit {0} in
      let mine : is_of command.user_uuid command.otp_type row ≡ true =
        rw (num_eq_refl command.user_uuid, same_type_refl command.otp_type) in
      Ensures-then (IsIssued env command) T (create env (new_otp env command code expires_at))
        (announce_otp env command code expires_at) s (map_to_domain row) t
        (Ensures-then (Exactly (map_to_domain row) t) T (run env f) (λ _. pure (map_to_domain row))
          s tt t (run_lem env (Exactly tt t tt) T f s (refl, refl) tt) (returns (refl, refl)))
        (announce_otp_ends t
          (latest-append (is_of command.user_uuid command.otp_type) s.otps row mine past)
          (refl, refl))
