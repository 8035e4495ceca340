-- ===== src/Users/Validation.antt =====
-- The value objects of app/modules/user/domain/value_objects.py. Their regular expressions are run by
-- hand: no class of characters has the character that must follow it, so nothing is ever taken back.
pub mod Formats
use fast_kit.Kit.{
  Text, codes, text_eq→eq, text_eq_refl, text_eq, ℕ, zero, suc, ◌+◌, ◌-◌, ◌*◌, ◌/◌, ◌%◌, ◌^◌, ◌≤◌,
  ◌<◌, min, max, String, ◌≡◌, refl, sym, ap, ◌∙◌, fun_ext, subst, ◌≢◌, ◌↔◌, ◌⊎◌, inl, inr, Bool,
  true, false, not, ◌&&◌, ◌||◌, false≢true, Option, none, some, List, [], ◌∷◌, ◌++◌, map,
  append-nil, append_assoc, map-append, arith, ◌==◌, eq_iff, eq_refl, if◌then◌else◌, ltb, leb,
  num_eq, is_some, or_else, Bool-cases, Option-cases, num_eq→eq, num_eq_refl, text-cases, text_ne,
  if-not, option_map, and_true, num_eq_of_eq, not-false, option_map-some, length, take, drop,
  where_, any, find, update_where, length-append, length-take, length-update_where, All, All-append,
  insert_ordered, order_by, Any-append_left, Any-append_right, Any-map, In, In-update_where,
  In-update_where_of, All-of_In, In-where_, In-take, In-insert_ordered, In-order_by, In-append,
  find-holds, Any, here, there, Method, pure, raise, gets, lift, or_raise, modify, raise_if, ◌>>=◌,
  ◌>>◌, is_ok, bind-ok, bind-err, for_each, Result, ok, err, Ensures-bind, Ensures-if,
  Ensures-weaken, state-Ensures, Ensures-self, Ensures-both, Ensures-for_each, Exactly,
  Ensures-then, Ensures-raise_if, Ensures-returned, Ensures-never, Ensures, returns, raises,
  decimal, parse_decimal, parse-decimal, pair_with, join, In-join, join-In, where_-In, any-In,
  In-any, counted-In, In-map, map-In, find-In, In-end,
}

abbrev pub between : ℕ → ℕ → ℕ → Bool
between low high c = leb low c && leb c high

-- `[A-Z]`, `[a-zA-Z0-9]`
abbrev is_upper : ℕ → Bool
is_upper c = between 65 90 c

abbrev is_alphanumeric : ℕ → Bool
is_alphanumeric c = between 97 122 c || is_upper c || between 48 57 c

-- `[a-zA-Z0-9_.+-]`, `[a-zA-Z0-9-]` and `[a-zA-Z0-9-.]`
abbrev pub is_local : ℕ → Bool
is_local c = is_alphanumeric c || num_eq c b'_' || num_eq c b'.' || num_eq c b'+' || num_eq c b'-'

abbrev pub is_label : ℕ → Bool
is_label c = is_alphanumeric c || num_eq c b'-'

abbrev pub is_tail : ℕ → Bool
is_tail c = is_alphanumeric c || num_eq c b'-' || num_eq c b'.'

-- The longest run of characters of a class, and what follows it.
unfoldable pub take_while : (ℕ → Bool) → Text → Text
take_while p [] = []
take_while p (c ∷ t) = let more = take_while p t in if p c then c ∷ more else []

unfoldable pub drop_while : (ℕ → Bool) → Text → Text
drop_while p [] = []
drop_while p (c ∷ t) = let rest = drop_while p t in if p c then rest else c ∷ t

abbrev pub starts : (ℕ → Bool) → Text → Bool
starts p [] = false
starts p (c ∷ t) = p c

-- `p+`: what follows it, if it matches.
unfoldable pub some_of : (ℕ → Bool) → Text → Option Text
unfolding drop_while
some_of p t = if starts p t then some (drop_while p t) else none

unfoldable pub one : (ℕ → Bool) → Text → Option Text
one p [] = none
one p (c ∷ t) = if p c then some t else none

-- `$` matches at the end, and in front of a line break at the end.
abbrev pub at_end : Text → Bool
at_end [] = true
at_end (c ∷ []) = num_eq c 10
at_end (_ ∷ _ ∷ _) = false

abbrev pub and_then : Option Text → (Text → Option Text) → Option Text
and_then none f = none
and_then (some t) f = f t

abbrev pub ends : Option Text → Bool
ends none = false
ends (some t) = at_end t

-- Whether `Email(t)` is accepted.
unfoldable pub is_email : Text → Bool
unfolding some_of one
is_email t = ends (
    and_then
      (and_then
        (and_then (and_then (some_of is_local t) (one (λ c. num_eq c b'@'))) (some_of is_label))
        (one (λ c. num_eq c b'.')))
      (some_of is_tail))

-- Whether `PhoneNumber(t)` is accepted; `is_decimal` is what `\d` matches.
abbrev digits_follow : (ℕ → Bool) → Option Text → Bool
digits_follow is_decimal none = false
digits_follow is_decimal (some t) =
    leb 1 (length (take_while is_decimal t))
    && leb (length (take_while is_decimal t)) 14
    && at_end (drop_while is_decimal t)

unfoldable pub is_phone_number : (ℕ → Bool) → Text → Bool
unfolding one take_while drop_while
is_phone_number is_decimal t =
    digits_follow is_decimal (and_then (one (λ c. num_eq c b'+') t) (one (between 49 57)))

-- Whether `PlainPassword(t)` is accepted.
unfoldable pub is_strong : Text → Bool
is_strong t = not (ltb (length t) 8) && any is_upper t && any (λ c. not (is_alphanumeric c)) t
