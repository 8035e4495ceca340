-- ===== src/Otp/UseCases/Spent.antt =====
-- One-time passwords that are current or spent, and what marking one does to the latest.
use fast_kit.Kit.{
  Text, text_eq, ℕ, ◌≡◌, refl, ap, ◌∙◌, subst, inl, inr, Bool, true, false, not, ◌&&◌, Option, none,
  some, List, [], ◌∷◌, map, if◌then◌else◌, ltb, leb, num_eq, Bool-cases, num_eq_refl, option_map,
  where_, find,
}
use fast_kit.Otp.Values.{OtpType}
use fast_kit.Otp.Store.{
  OtpModel, CacheEntry, Desk, is_of, newer, latest, mark, is_key, cache_get, cache_delete,
}
use fast_kit.Otp.UseCases.{cache_hit}

module _ (f : OtpModel → OtpModel)
    (keeps_time : (m : OtpModel) → (f m).created_at ≡ m.created_at) where
  newer-map :
      (m : OtpModel) (o : Option OtpModel) → newer (f m) (option_map f o) ≡ option_map f (newer m o)
  newer-map m none = refl
  newer-map m (some n) =
      ap (λ b. if b then some (f n) else some (f m))
        (ap (λ x. leb x (f n).created_at) (keeps_time m)
          ∙ ap (λ x. leb m.created_at x) (keeps_time n))
      ∙ by_test (leb m.created_at n.created_at)
    where
      by_test :
          (b : Bool)
          → (if b then some (f n) else some (f m)) ≡ option_map f (if b then some n else some m)
      by_test true = refl
      by_test false = refl

  latest-map :
      (test : OtpModel → Bool)
      → ((m : OtpModel) → test (f m) ≡ test m)
      → (ms : List OtpModel) → latest test (map f ms) ≡ option_map f (latest test ms)
  unfolding latest
  latest-map test keeps [] = refl
  latest-map test keeps (m ∷ ms) = elim (Bool-cases (test m)) [
    | inl hit ↦ rw hit (
        rw (keeps m ∙ hit)
          (ap (newer (f m)) (latest-map test keeps ms) ∙ newer-map m (latest test ms)))
    | inr miss ↦ rw miss (rw (keeps m ∙ miss) (latest-map test keeps ms))
  ]

mark-created_at : (uuid : ℕ) (m : OtpModel) → (mark uuid m).created_at ≡ m.created_at
mark-created_at uuid m = by_test (num_eq m.uuid uuid)
  where
    by_test : (b : Bool) → (if b then record m { is_used = true } else m).created_at ≡ m.created_at
    by_test true = refl
    by_test false = refl

mark-is_of :
    (uuid user_uuid : ℕ) (otp_type : OtpType) (m : OtpModel)
    → is_of user_uuid otp_type (mark uuid m) ≡ is_of user_uuid otp_type m
mark-is_of uuid user_uuid otp_type m = by_test (num_eq m.uuid uuid)
  where
    by_test :
        (b : Bool)
        → is_of user_uuid otp_type (if b then record m { is_used = true } else m)
          ≡ is_of user_uuid otp_type m
    by_test true = refl
    by_test false = refl

mark-is_used : (m : OtpModel) → (mark m.uuid m).is_used ≡ true
mark-is_used m =
    ap (λ b. (if b then record m { is_used = true } else m).is_used) (num_eq_refl m.uuid)

find-where_none :
    (p q : CacheEntry → Bool)
    → ((e : CacheEntry) → q e ≡ true → p e ≡ false)
    → (es : List CacheEntry) → find p (where_ q es) ≡ none
find-where_none p q apart [] = refl
find-where_none p q apart (e ∷ es) = elim (Bool-cases (q e)) [
  | inl kept ↦ rw kept (rw (apart e kept) (find-where_none p q apart es))
  | inr dropped ↦ rw dropped (find-where_none p q apart es)
]

not-true : (b : Bool) → not b ≡ true → b ≡ false
not-true true e = cc e
not-true false e = refl

-- No code of the user and the type is cached.
abbrev IsForgotten : ℕ → OtpType → Desk → Type 0
IsForgotten user_uuid otp_type s = find (is_key user_uuid otp_type) s.cache ≡ none

pub IsForgotten-cache_delete :
    (user_uuid : ℕ) (otp_type : OtpType) (s : Desk)
    → IsForgotten user_uuid otp_type (cache_delete user_uuid otp_type s)
unfolding cache_delete
IsForgotten-cache_delete user_uuid otp_type s =
    find-where_none (is_key user_uuid otp_type) (λ e. not (is_key user_uuid otp_type e))
      (λ e h. not-true (is_key user_uuid otp_type e) h) s.cache

pub find-and_none :
    (p q : CacheEntry → Bool) (es : List CacheEntry)
    → find p es ≡ none
    → find (λ e. p e && q e) es ≡ none
find-and_none p q [] h = refl
find-and_none p q (e ∷ es) h = elim (Bool-cases (p e)) [
  | inl hit ↦ absurd (cc (rw hit at h))
  | inr miss ↦ rw miss (find-and_none p q es (rw miss at h))
]

pub cache_get-IsForgotten :
    (user_uuid : ℕ) (otp_type : OtpType) (s : Desk)
    → IsForgotten user_uuid otp_type s
    → cache_get user_uuid otp_type s ≡ none
unfolding cache_get
cache_get-IsForgotten user_uuid otp_type s h =
    find-and_none (is_key user_uuid otp_type) (λ e. ltb s.now e.expires_at) s.cache h

-- The latest password of the user and the type is used.
abbrev pub IsUsed : ℕ → OtpType → Desk → Type 0
IsUsed user_uuid otp_type s =
    (row : OtpModel) × (latest (is_of user_uuid otp_type) s.otps ≡ some row) × (row.is_used ≡ true)

-- It is used, and no code for it is cached.
abbrev pub IsSpent : ℕ → OtpType → Desk → Type 0
IsSpent user_uuid otp_type s = IsForgotten user_uuid otp_type s × IsUsed user_uuid otp_type s

-- What is cached is the code of the latest password.
abbrev pub IsCurrent : ℕ → OtpType → Desk → Type 0
IsCurrent user_uuid otp_type s =
    (e : CacheEntry)
    → cache_get user_uuid otp_type s ≡ some e
    → (row : OtpModel) × (latest (is_of user_uuid otp_type) s.otps ≡ some row) × (row.uuid ≡ e.uuid)

pub IsUsed-mark :
    (user_uuid : ℕ) (otp_type : OtpType) (uuid : ℕ) (row : OtpModel) (ms : List OtpModel)
    → latest (is_of user_uuid otp_type) ms ≡ some row
    → row.uuid ≡ uuid
    → (row' : OtpModel) × (latest (is_of user_uuid otp_type) (map (mark uuid) ms) ≡ some row')
      × (row'.is_used ≡ true)
IsUsed-mark user_uuid otp_type uuid row ms found e = (
  mark uuid row,
  latest-map (mark uuid) (mark-created_at uuid) (is_of user_uuid otp_type)
        (mark-is_of uuid user_uuid otp_type) ms
      ∙ ap (option_map (mark uuid)) found,
  subst (λ u. (mark u row).is_used ≡ true) e (mark-is_used row),
)

pub hit_entry :
    (o : Option CacheEntry) (code : Text) (uuid : ℕ)
    → cache_hit o code ≡ some uuid
    → (e : CacheEntry) × (o ≡ some e) × (e.uuid ≡ uuid)
unfolding cache_hit
hit_entry none code uuid h = cc h
hit_entry (some e) code uuid h = (e, refl, by_test (text_eq e.code code) h)
  where
    by_test : (b : Bool) → (if b then some e.uuid else none) ≡ some uuid → e.uuid ≡ uuid
    by_test true q = cc q
    by_test false q = cc q
