-- ===== src/Events/Subjects/Mapping.antt =====
-- The two subject spaces map onto one another, and consumer names are safe for NATS.
use fast_kit.Kit.{
  Text, codes, text_eq, ℕ, ◌+◌, ◌≡◌, refl, ap, inl, inr, Bool, false, ◌&&◌, ◌||◌, List, [], ◌∷◌,
  ◌++◌, arith, ltb, num_eq, or_else, Bool-cases, All, All-append,
}
use fast_kit.Events.Settings.{nats_events_subject_prefix}
use fast_kit.Events.Values.{EventType}
use fast_kit.Events.Subjects.{
  last_but_one?, is_text, class_name, is_upper, last?, camel_to_snake_from, drop_app_modules,
  module_name_for_event, split_dot_parts, drop_last_two, first_part, to_lower, camel_to_snake,
  remove_suffix, drop_domain, underscore, durable_name, replace, split_dot, dot,
  subject_for_event_type, dlq_subject_for_subject, origin_subject_for_dlq_subject,
}

-- The dead-letter subject of any subject in the event space leads back to that subject.
pub origin-dlq :
    (rest : Text)
    → let subject = nats_events_subject_prefix ++ dot ∷ rest in
      origin_subject_for_dlq_subject (dlq_subject_for_subject subject) ≡ subject
unfolding origin_subject_for_dlq_subject dlq_subject_for_subject
origin-dlq rest = refl

-- A text in which a character does not occur.
abbrev pub Free : ℕ → Text → Type 0
Free c s = All (λ d. num_eq d c ≡ false) s

Free-replace : (c : ℕ) (t s : Text) → Free c t → Free c (replace c t s)
unfolding replace
Free-replace c t [] ht = tt
Free-replace c t (d ∷ s) ht = elim (Bool-cases (num_eq d c)) [
  | inl hit ↦ rw hit (All-append _ t (replace c t s) ht (Free-replace c t s ht))
  | inr miss ↦ rw miss (miss, Free-replace c t s ht)
]

Free-replace_other : (x c : ℕ) (t s : Text) → Free x t → Free x s → Free x (replace c t s)
unfolding replace
Free-replace_other x c t [] ht hs = tt
Free-replace_other x c t (d ∷ s) ht hs = elim (Bool-cases (num_eq d c)) [
  | inl hit ↦ rw hit (All-append _ t (replace c t s) ht (Free-replace_other x c t s ht hs.1))
  | inr miss ↦ rw miss (hs.0, Free-replace_other x c t s ht hs.1)
]

occurs : ℕ → Text → Bool
occurs c [] = false
occurs c (d ∷ s) = num_eq d c || occurs c s

Free-by_test : (c : ℕ) (s : Text) → occurs c s ≡ false → Free c s
unfolding occurs
Free-by_test c [] h = tt
Free-by_test c (d ∷ s) h = (ground arith, Free-by_test c s (ground arith))

all-Free : Free dot (codes "all") × Free b'*' (codes "all") × Free b'>' (codes "all")
unfolding occurs
all-Free =
    let t = codes "all" in
    (Free-by_test dot t refl, Free-by_test b'*' t refl, Free-by_test b'>' t refl)

-- The name of a durable consumer has no character that NATS gives a meaning in names: no dot and no
-- wildcard.
pub durable_name-Free :
    (subject : Text)
    → Free dot (durable_name subject)
      × Free b'*' (durable_name subject)
      × Free b'>' (durable_name subject)
unfolding durable_name
durable_name-Free subject =
    let a = replace dot (underscore ∷ []) subject in
    let b = replace b'*' (codes "all") a in
    let a_dot : Free dot a = Free-replace dot (underscore ∷ []) subject (refl, tt) in
    let b_dot : Free dot b = Free-replace_other dot b'*' (codes "all") a all-Free.0 a_dot in
    let b_star : Free b'*' b = Free-replace b'*' (codes "all") a all-Free.1 in
    (
      Free-replace_other dot b'>' (codes "all") b all-Free.0 b_dot,
      Free-replace_other b'*' b'>' (codes "all") b all-Free.1 b_star,
      Free-replace b'>' (codes "all") b all-Free.2,
    )

split_dot_parts-Free :
    (s : Text) → Free dot (split_dot_parts s).0 × All (Free dot) (split_dot_parts s).1
unfolding split_dot_parts
split_dot_parts-Free [] = (tt, tt)
split_dot_parts-Free (c ∷ s) = elim (Bool-cases (num_eq c dot)) [
  | inl hit ↦ rw hit (tt, split_dot_parts-Free s)
  | inr miss ↦ rw miss ((miss, (split_dot_parts-Free s).0), (split_dot_parts-Free s).1)
]

split_dot-Free : (s : Text) → All (Free dot) (split_dot s)
unfolding split_dot
split_dot-Free s = split_dot_parts-Free s

-- A part with no dot in front of the rest is the first part of the split.
split_dot_parts-append :
    (s t : Text)
    → Free dot s
    → split_dot_parts (s ++ dot ∷ t) ≡ (s, (split_dot_parts t).0 ∷ (split_dot_parts t).1)
unfolding split_dot_parts
split_dot_parts-append [] t h = refl
split_dot_parts-append (c ∷ s) t h =
    rw h.0 (ap (λ r. (c ∷ r.0, r.1)) (split_dot_parts-append s t h.1))

split_dot_parts-whole : (s : Text) → Free dot s → split_dot_parts s ≡ (s, [])
unfolding split_dot_parts
split_dot_parts-whole [] h = refl
split_dot_parts-whole (c ∷ s) h = rw h.0 (ap (λ r. (c ∷ r.0, r.1)) (split_dot_parts-whole s h.1))

drop_last_two-All :
    {A : Type 0} (P : A → Type 0) (xs : List A) → All P xs → All P (drop_last_two xs)
drop_last_two-All P [] h = tt
drop_last_two-All P (_ ∷ []) h = tt
drop_last_two-All P (_ ∷ _ ∷ []) h = tt
drop_last_two-All P (x ∷ y ∷ z ∷ rest) h = (h.0, drop_last_two-All P (y ∷ z ∷ rest) h.1)

drop_app_modules-All :
    (P : Text → Type 0) (parts : List Text) → All P parts → All P (drop_app_modules parts)
unfolding drop_app_modules
drop_app_modules-All P [] h = h
drop_app_modules-All P (a ∷ []) h = h
drop_app_modules-All P (a ∷ b ∷ rest) h =
    elim (Bool-cases (text_eq a (codes "app") && text_eq b (codes "modules"))) [
      | inl here_ ↦ rw here_ h.1.1
      | inr apart ↦ rw apart h
    ]

drop_domain-All : (P : Text → Type 0) (parts : List Text) → All P parts → All P (drop_domain parts)
unfolding drop_domain
drop_domain-All P parts h = elim (Bool-cases (is_text (last? parts) (codes "events"))) [
  | inl e ↦ rw e (drop_last_two-All P parts h)
  | inr e ↦ elim (Bool-cases (is_text (last_but_one? parts) (codes "domain"))) [
    | inl f ↦ rw (e, f) (drop_last_two-All P parts h)
    | inr f ↦ rw (e, f) h
  ]
]

first_part-Free : (parts : List Text) → All (Free dot) parts → Free dot (first_part parts)
unfolding first_part occurs
first_part-Free [] h = Free-by_test dot (codes "unknown") refl
first_part-Free (part ∷ _) h = h.0

module_name-Free : (event_type : EventType) → Free dot (module_name_for_event event_type)
unfolding module_name_for_event
module_name-Free event_type =
    let parts = split_dot event_type.module_name in
    first_part-Free (drop_domain (drop_app_modules parts)) (
      drop_domain-All (Free dot) (drop_app_modules parts)
        (drop_app_modules-All (Free dot) parts (split_dot-Free event_type.module_name)))

to_lower-dot : (c : ℕ) → num_eq c dot ≡ false → num_eq (to_lower c) dot ≡ false
unfolding to_lower is_upper
to_lower-dot c h = ground arith

camel_to_snake_from-Free : (i : ℕ) (s : Text) → Free dot s → Free dot (camel_to_snake_from i s)
unfolding camel_to_snake_from
camel_to_snake_from-Free i [] h = tt
camel_to_snake_from-Free i (c ∷ s) h = elim (Bool-cases (is_upper c && ltb 0 i)) [
  | inl e ↦ rw e (refl, (to_lower-dot c h.0, camel_to_snake_from-Free (i + 1) s h.1))
  | inr e ↦ rw e (to_lower-dot c h.0, camel_to_snake_from-Free (i + 1) s h.1)
]

remove_suffix-Free : (p s : Text) → Free dot s → Free dot (remove_suffix p s)
unfolding remove_suffix
remove_suffix-Free p [] h = tt
remove_suffix-Free p (c ∷ s) h = elim (Bool-cases (text_eq (c ∷ s) p)) [
  | inl e ↦ rw e tt
  | inr e ↦ rw e (h.0, remove_suffix-Free p s h.1)
]

last?-Free : (parts : List Text) → All (Free dot) parts → Free dot (or_else (last? parts) [])
last?-Free [] h = tt
last?-Free (x ∷ []) h = h.0
last?-Free (_ ∷ y ∷ rest) h = last?-Free (y ∷ rest) h.1

-- The last token of a subject: the class's name in snake case, without `_event`.
abbrev pub event_token : EventType → Text
event_token event_type =
    remove_suffix (codes "_event") (camel_to_snake (class_name event_type.qualname))

event_token-Free : (event_type : EventType) → Free dot (event_token event_type)
unfolding camel_to_snake class_name
event_token-Free event_type =
    let parts = split_dot event_type.qualname in
    let name = or_else (last? parts) [] in
    remove_suffix-Free (codes "_event") (camel_to_snake_from 0 name)
      (camel_to_snake_from-Free 0 name (last?-Free parts (split_dot-Free event_type.qualname)))

split_dot_parts-three :
    (p m e : Text)
    → Free dot p
    → Free dot m
    → Free dot e
    → split_dot_parts (p ++ dot ∷ (m ++ dot ∷ e)) ≡ (p, m ∷ e ∷ [])
split_dot_parts-three p m e hp hm he =
    rw (split_dot_parts-append p (m ++ dot ∷ e) hp)
      (rw (split_dot_parts-append m e hm) (rw (split_dot_parts-whole e he)))

-- The subject of every event type has exactly three tokens: the prefix, the module and the event.
-- Neither the module's name nor the class's can add a token of its own.
pub subject_tokens :
    (event_type : EventType)
    → split_dot (subject_for_event_type event_type)
      ≡ nats_events_subject_prefix ∷ module_name_for_event event_type ∷ event_token event_type ∷ []
unfolding split_dot subject_for_event_type occurs
subject_tokens event_type =
    ap (λ r. r.0 ∷ r.1)
      (split_dot_parts-three nats_events_subject_prefix (module_name_for_event event_type)
        (event_token event_type) (Free-by_test dot nats_events_subject_prefix refl)
        (module_name-Free event_type) (event_token-Free event_type))
