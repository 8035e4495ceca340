-- ===== src/Events/Subjects.antt =====
-- The names that app/core/nats_bus.py gives to subjects and consumers. Class and module names are
-- ASCII identifiers, so upper and lower case are those of ASCII.
pub mod Mapping
use fast_kit.Kit.{
  Text, codes, text_eq, ℕ, ◌+◌, ◌*◌, Bool, false, ◌&&◌, Option, none, some, List, [], ◌∷◌, ◌++◌,
  if◌then◌else◌, ltb, leb, num_eq, or_else,
}
use fast_kit.Events.Settings.{nats_events_subject_prefix, nats_dlq_subject_prefix}
use fast_kit.Events.Values.{EventType}

abbrev pub dot : ℕ
dot = b'.'

abbrev pub underscore : ℕ
underscore = b'_'

-- `char.isupper()` and `char.lower()`
unfoldable pub is_upper : ℕ → Bool
is_upper c = leb b'A' c && leb c b'Z'

unfoldable pub to_lower : ℕ → ℕ
unfolding is_upper
to_lower c = if is_upper c then c + 32 else c

-- The loop of `_camel_to_snake`, from the position `i` on.
unfoldable pub camel_to_snake_from : ℕ → Text → Text
unfolding to_lower
camel_to_snake_from i [] = []
camel_to_snake_from i (c ∷ s) =
    let rest = camel_to_snake_from (i + 1) s in
    if is_upper c && ltb 0 i then underscore ∷ to_lower c ∷ rest else to_lower c ∷ rest

unfoldable pub camel_to_snake : Text → Text
unfolding camel_to_snake_from
camel_to_snake name = camel_to_snake_from 0 name

-- `s.removeprefix(p)`
strip_prefix : Text → Text → Option Text
strip_prefix [] s = some s
strip_prefix (_ ∷ _) [] = none
strip_prefix (c ∷ p) (d ∷ s) = if num_eq c d then strip_prefix p s else none

unfoldable pub remove_prefix : Text → Text → Text
unfolding strip_prefix
remove_prefix p s = or_else (strip_prefix p s) s

-- `s.removesuffix(p)`
unfoldable pub remove_suffix : Text → Text → Text
unfolding text_eq
remove_suffix p [] = []
remove_suffix p (c ∷ s) = let rest = c ∷ remove_suffix p s in if text_eq (c ∷ s) p then [] else rest

-- `s.split(".")`: the part up to the first dot, and the other parts.
unfoldable pub split_dot_parts : Text → Text × List Text
split_dot_parts [] = ([], [])
split_dot_parts (c ∷ s) =
    let (part, parts) = split_dot_parts s in
    if num_eq c dot then ([], part ∷ parts) else (c ∷ part, parts)

unfoldable pub split_dot : Text → List Text
unfolding split_dot_parts
split_dot s = let (part, parts) = split_dot_parts s in part ∷ parts

-- `parts[:-2]`
abbrev drop_last_two {ℓ} : {A : Type ℓ} → List A → List A
drop_last_two [] = []
drop_last_two (_ ∷ []) = []
drop_last_two (_ ∷ _ ∷ []) = []
drop_last_two (x ∷ y ∷ z ∷ rest) = x ∷ drop_last_two (y ∷ z ∷ rest)

-- `parts[-1]` and `parts[-2]`, where they are
abbrev last? {ℓ} : {A : Type ℓ} → List A → Option A
last? [] = none
last? (x ∷ []) = some x
last? (_ ∷ y ∷ rest) = last? (y ∷ rest)

abbrev last_but_one? {ℓ} : {A : Type ℓ} → List A → Option A
last_but_one? [] = none
last_but_one? (_ ∷ []) = none
last_but_one? (x ∷ _ ∷ []) = some x
last_but_one? (_ ∷ y ∷ z ∷ rest) = last_but_one? (y ∷ z ∷ rest)

is_text : Option Text → Text → Bool
unfolding text_eq
is_text none t = false
is_text (some s) t = text_eq s t

-- The `app.modules` in front.
drop_app_modules : List Text → List Text
unfolding text_eq
drop_app_modules (a ∷ b ∷ rest) =
    if text_eq a (codes "app") && text_eq b (codes "modules") then rest else a ∷ b ∷ rest
drop_app_modules parts = parts

-- The `domain.events` at the end.
drop_domain : List Text → List Text
unfolding is_text
drop_domain parts =
    if is_text (last? parts) (codes "events")
    then drop_last_two parts
    else if is_text (last_but_one? parts) (codes "domain")
    then drop_last_two parts
    else parts

first_part : List Text → Text
first_part [] = codes "unknown"
first_part (part ∷ _) = part

unfoldable pub module_name_for_event : EventType → Text
unfolding split_dot drop_app_modules drop_domain first_part
module_name_for_event event_type =
    first_part (drop_domain (drop_app_modules (split_dot event_type.module_name)))

-- `event_type.__name__` is what stands behind the last dot of the qualified name.
pub class_name : Text → Text
unfolding split_dot
class_name qualname = or_else (last? (split_dot qualname)) []

unfoldable pub subject_for_event_type : EventType → Text
unfolding module_name_for_event camel_to_snake remove_suffix class_name
subject_for_event_type event_type =
    nats_events_subject_prefix
    ++ dot
      ∷ (module_name_for_event event_type
          ++ dot ∷ remove_suffix (codes "_event") (camel_to_snake (class_name event_type.qualname)))

unfoldable pub dlq_subject_for_subject : Text → Text
unfolding remove_prefix
dlq_subject_for_subject subject =
    nats_dlq_subject_prefix ++ dot ∷ remove_prefix (nats_events_subject_prefix ++ dot ∷ []) subject

unfoldable pub dlq_subject_for_event_type : EventType → Text
unfolding dlq_subject_for_subject subject_for_event_type
dlq_subject_for_event_type event_type = dlq_subject_for_subject (subject_for_event_type event_type)

unfoldable pub origin_subject_for_dlq_subject : Text → Text
unfolding remove_prefix
origin_subject_for_dlq_subject dlq_subject =
    nats_events_subject_prefix
    ++ dot ∷ remove_prefix (nats_dlq_subject_prefix ++ dot ∷ []) dlq_subject

-- `s.replace(c, t)` for one character `c`
unfoldable pub replace : ℕ → Text → Text → Text
replace c t [] = []
replace c t (d ∷ s) = (if num_eq d c then t else d ∷ []) ++ replace c t s

unfoldable pub durable_name : Text → Text
unfolding replace
durable_name subject =
    replace b'>' (codes "all") (replace b'*' (codes "all") (replace dot (underscore ∷ []) subject))
